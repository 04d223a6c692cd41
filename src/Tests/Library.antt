-- ===== src/Tests/Library.antt =====
-- A JSON library that reads both what it wrote, behind a mark, and the core's request, and a launch
-- from its request to the Album's return.
use nxremote_api.Base.{
  ◌+◌, ◌≤◌, true, false, not, none, some, [], ◌∷◌, ◌++◌, length, length-append, ◌==◌, if◌then◌else◌,
  ◌≡◌, refl, ap, arith, List,
}
use nxremote_api.Base.Text.{Bytes, codes}
use nxremote_api.CString.Search.{c_str}
use nxremote_api.JsonSafeAccess.{Json}
use nxremote_api.Core.World.{Platform, Core}
use nxremote_api.Core.Album.{
  text_eq, request_body, launch_status_path, poll_album_launcher_completion,
}
use nxremote_api.Core.Override.Restore.{IsRestored}
use nxremote_api.Companion.World.{Device}
use nxremote_api.Companion.Launcher.{Writer, run_launcher_mode}
use nxremote_api.Companion.Launcher.Status.{room_of, IsWriter}
use nxremote_api.Companion.Launcher.Request.{IsReader, launches}
use nxremote_api.Companion.Launcher.Handoff.{written, handoff}
use nxremote_api.Tests.Peers.{console, idle}
use nxremote_api.Tests.Apps.{device, app}
use nxremote_api.Tests.Writer.{
  Doc, object, text, encode, decode, text_of, find_in, is_found, is_object_doc, read_doc, value_of,
  decode-encode, c_str-encode, value_of-request_text,
}

abbrev mark_doc : Doc → Bytes
mark_doc (object ms) = 1 ∷ encode ms
mark_doc (text t) = t

-- What stands behind the mark, or else the one member of a request.
abbrev read_text : Bytes → Doc
read_text [] = object []
read_text (c ∷ cs) =
    object (if c == 1 then decode [] none cs else (codes "title_id", value_of (c ∷ cs)) ∷ [])

abbrev library : Json
library = record {
  Value = Doc;
  parse = λ t. some (read_text t);
  is_object = is_object_doc;
  is_array = λ v. false;
  is_string = λ v. not (is_object_doc v);
  is_number = λ v. false;
  contains = λ v key. is_found (find_in v key);
  find = find_in;
  get_string = read_doc;
  get_int = λ v. none;
  items = λ v. [];
  dump = mark_doc;
}

abbrev library_writer : Writer library
library_writer = record { of_members = object }

length-marked : (ms : List (Bytes × Bytes)) → length (encode ms) + 2 ≤ room_of ms
length-marked [] = omega arith
length-marked ((k, v) ∷ ms) = omega (
  arith,
  length-append k (34 ∷ (v ++ 34 ∷ encode ms)),
  length-append v (34 ∷ encode ms),
  length-marked ms,
)

library-IsWriter : IsWriter library library_writer
unfolding c_str
library-IsWriter = record {
  reads = λ ms h. ap (λ l. some (object l)) (decode-encode ms h);
  objects = λ ms. refl;
  finds = λ ms key t h. (text t, ap text_of h, refl, refl);
  no_nul = λ ms h. ap (λ t. 1 ∷ t) (c_str-encode ms h);
  compact = λ ms h. omega (arith, length-marked ms);
}

library-IsReader : IsReader library
unfolding text_eq
library-IsReader = record {
  reads = λ value plain. (
    object ((codes "title_id", value) ∷ []),
    text value,
    ap (λ t. some (object ((codes "title_id", t) ∷ []))) (value_of-request_text value),
    refl,
    refl,
    refl,
    refl,
  );
}

-- The launcher's console, on whose card the core's request is.
abbrev card : Device
card = record device { file = λ h path. some (request_body (console []) 0x010000000000100D) }

-- The core's, on whose card the status is that the launcher left.
abbrev home : Platform
home = record (console []) {
  file = λ h path.
      written launch_status_path (run_launcher_mode card library library_writer app).1.events;
}

abbrev waiting : Core
waiting = record idle { album_override_active = true }

handoff_example :
    (launches (run_launcher_mode card library library_writer app).1.events
      ≡ 0x010000000000100D ∷ [])
    × IsRestored home library (poll_album_launcher_completion home library waiting).1
handoff_example =
    handoff card home library library_writer library-IsWriter library-IsReader (λ h. refl)
      0x010000000000100D app waiting (omega arith) (omega arith) refl refl refl
