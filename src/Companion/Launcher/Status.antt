-- ===== src/Companion/Launcher/Status.antt =====
-- The status file, as the launcher writes it and the core reads it.
use nxremote_api.Base.{
  ℕ, zero, suc, ◌+◌, ◌/◌, ◌%◌, ◌≤◌, ◌<◌, Bool, true, false, not, ◌&&◌, ◌||◌, Option, none, some,
  List, [], ◌∷◌, ◌++◌, length, take, take_all, leb, ◌==◌, if◌then◌else◌, ◌≡◌, refl, ap, ◌∙◌, arith,
}
use nxremote_api.Base.Int.{ℤ}
use nxremote_api.Base.Text.{Bytes, codes}
use nxremote_api.CString.Search.{c_str}
use nxremote_api.CString.Format.{hex, hex_digit}
use nxremote_api.JsonSafeAccess.{Json, get_string, access}
use nxremote_api.Core.Album.{
  succeeded, text_eq, reports_end, launch_request_path, launch_status_path,
}
use nxremote_api.Core.Handoff.{length-hex}
use nxremote_api.Companion.World.{
  wrote, opened, History, Device, App, M, pure, ◌>>=◌, ◌>>◌, when, emit, ask, write_file,
}
use nxremote_api.Companion.Launcher.{
  Writer, status_text, write_launch_status, request_tid, start_title, launch_title,
  run_launcher_mode,
}

-- A text that JSON writes as it is.
abbrev pub plain_char : ℕ → Bool
plain_char c = leb 32 c && leb c 126 && not (c == 34) && not (c == 92)

abbrev pub is_plain : Bytes → Bool
is_plain [] = true
is_plain (c ∷ cs) = plain_char c && is_plain cs

-- The value of the first member of a name.
abbrev pub lookup : List (Bytes × Bytes) → Bytes → Option Bytes
lookup [] key = none
lookup ((k, v) ∷ ms) key = if text_eq k key then some v else lookup ms key

-- The size of an object of such members: its braces, and for each member two pairs of quotes, a colon
-- and a comma.
abbrev pub room_of : List (Bytes × Bytes) → ℕ
room_of [] = 2
room_of ((k, v) ∷ ms) = length k + length v + 6 + room_of ms

abbrev pub all_plain : List (Bytes × Bytes) → Bool
all_plain [] = true
all_plain ((k, v) ∷ ms) = is_plain k && is_plain v && all_plain ms

-- The documented behaviour of nlohmann::json that the handoff relies on: what `dump` writes is
-- read back, it holds no NUL, and it is as compact as JSON can be, where no text needs an escape.
pub record IsWriter (j : Json) (w : Writer j) : Type 0 where
  pub reads :
      (ms : List (Bytes × Bytes))
      → all_plain ms ≡ true
      → j.parse (j.dump (w.of_members ms)) ≡ some (w.of_members ms)
  pub objects : (ms : List (Bytes × Bytes)) → j.is_object (w.of_members ms) ≡ true
  pub finds :
      (ms : List (Bytes × Bytes)) (key text : Bytes)
      → lookup ms key ≡ some text
      → (v : j.Value) × (j.find (w.of_members ms) key ≡ some v)
        × (j.is_string v ≡ true)
        × (j.get_string v ≡ some text)
  pub no_nul :
      (ms : List (Bytes × Bytes))
      → all_plain ms ≡ true
      → c_str (j.dump (w.of_members ms)) ≡ j.dump (w.of_members ms)
  pub compact :
      (ms : List (Bytes × Bytes))
      → all_plain ms ≡ true
      → length (j.dump (w.of_members ms)) ≤ room_of ms

pub and_true : (a b : Bool) → a && b ≡ true → (a ≡ true) × (b ≡ true)
and_true true b h = (refl, h)
and_true false b h = cc h

is_plain-append : (s t : Bytes) → is_plain s ≡ true → is_plain t ≡ true → is_plain (s ++ t) ≡ true
is_plain-append [] t hs ht = ht
is_plain-append (c ∷ cs) t hs ht =
    let (hc, hcs) = and_true (plain_char c) (is_plain cs) hs in
    rw (hc, is_plain-append cs t hcs ht) refl

plain_char-hex_digit : (n : ℕ) → n < 16 → plain_char (hex_digit n) ≡ true
unfolding hex_digit
plain_char-hex_digit n h = ground arith

pub is_plain-hex : (w n : ℕ) → is_plain (hex w n) ≡ true
unfolding hex
is_plain-hex zero n = refl
is_plain-hex (suc w) n =
    is_plain-append (hex w (n / 16)) (hex_digit (n % 16) ∷ []) (is_plain-hex w (n / 16))
      (rw (plain_char-hex_digit (n % 16) (omega arith)) refl)

abbrev members : Bytes → ℕ → Bytes → List (Bytes × Bytes)
members state tid detail =
    (codes "state", state) ∷ (codes "title_id", hex 16 tid) ∷ (codes "detail", detail) ∷ []

-- The end that the core waits for.
abbrev ends : Bytes → Bool
ends state = text_eq state (codes "launched") || text_eq state (codes "error")

reports_end-read :
    (j : Json) (text : Bytes) (st : j.Value) (state : Bytes)
    → j.parse (c_str (take 255 text)) ≡ some st
    → get_string j st (codes "state") [] ≡ some state
    → reports_end j (some text) ≡ some (ends state)
unfolding reports_end
reports_end-read j text st state parsed read = rw (parsed, read, reports_end) refl

get_string-found :
    (j : Json) (obj v : j.Value) (key text : Bytes)
    → j.is_object obj ≡ true
    → j.find obj key ≡ some v
    → j.is_string v ≡ true
    → j.get_string v ≡ some text
    → get_string j obj key [] ≡ some text
unfolding get_string access
get_string-found j obj v key text object found kind read = rw (object, found, kind, read) refl

module _ (d : Device) (j : Json) (w : Writer j) (laws : IsWriter j w) where
  -- What the core makes of a status file.
  reports_end-status :
      (state detail : Bytes) (tid : ℕ)
      → is_plain state ≡ true
      → is_plain detail ≡ true
      → length state + length detail ≤ 100
      → reports_end j (some (status_text d j w state tid detail)) ≡ some (ends state)
  unfolding status_text text_eq
  reports_end-status state detail tid ps pd small =
      let ms = members state tid detail in
      let text = j.dump (w.of_members ms) in
      let plain : all_plain ms ≡ true = rw (ps, pd, is_plain-hex 16 tid) refl in
      let fits : length text ≤ 255 = omega (arith, laws.compact ms plain, length-hex 16 tid) in
      let (v, found, kind, read) = laws.finds ms (codes "state") state refl in
      let back : j.parse (c_str (take 255 text)) ≡ some (w.of_members ms) =
        ap (λ t. j.parse (c_str t)) (take_all 255 text fits)
        ∙ ap j.parse (laws.no_nul ms plain)
        ∙ laws.reads ms plain in
      reports_end-read j text (w.of_members ms) state back (
        get_string-found j (w.of_members ms) v (codes "state") state (laws.objects ms) found kind
          read)

  -- A file that the core waits for, as the newest event.
  abbrev pub Reported : History → Type 0
  Reported h =
      (text : Bytes) × (older : History) × (h ≡ wrote launch_status_path text ∷ older)
      × (reports_end j (some text) ≡ some true)

  -- A call after which one is.
  record Ends {A : Type 0} (m : M A) : Type 0 where
    run : (s : App) → Reported (m s).1.events

  Ends-bind : {A B : Type 0} (m : M A) {f : A → M B} → ((a : A) → Ends (f a)) → Ends (m >>= f)
  unfolding ◌>>=◌
  Ends-bind m h = record { run = λ s. (h (m s).0).run (m s).1 }

  Ends-seq : {A : Type 0} (m : M (Unit {0})) {k : M A} → Ends k → Ends (m >> k)
  unfolding ◌>>◌
  Ends-seq m h = Ends-bind m λ _. h

  Ends-bool :
      {A : Type 0} (b : Bool) {m n : M A} → Ends m → Ends n → Ends (elim b [ true ↦ m | false ↦ n ])
  Ends-bool true hm hn = hm
  Ends-bool false hm hn = hn

  module _ (writes : (h : History) → d.can_write h launch_status_path ≡ true) where
    wrote-status :
        (state detail : Bytes) (tid : ℕ) (s : App)
        → (write_launch_status d j w state tid detail s).1.events
          ≡ wrote launch_status_path (status_text d j w state tid detail)
            ∷ opened launch_status_path
            ∷ s.events
    unfolding write_launch_status write_file ◌>>=◌ ask when emit
    wrote-status state detail tid s = rw (writes s.events) refl

    status-Reported :
        (state detail : Bytes) (tid : ℕ) (s : App)
        → is_plain state ≡ true
        → is_plain detail ≡ true
        → length state + length detail ≤ 100
        → ends state ≡ true
        → Reported (write_launch_status d j w state tid detail s).1.events
    status-Reported state detail tid s ps pd small final = (
      status_text d j w state tid detail,
      opened launch_status_path ∷ s.events,
      wrote-status state detail tid s,
      reports_end-status state detail tid ps pd small ∙ ap some final,
    )

    Ends-status :
        (state detail : Bytes) (tid : ℕ)
        → is_plain state ≡ true
        → is_plain detail ≡ true
        → length state + length detail ≤ 100
        → ends state ≡ true
        → (r : ℤ) → Ends (do write_launch_status d j w state tid detail; pure r)
    unfolding ◌>>=◌ ◌>>◌ pure
    Ends-status state detail tid ps pd small final r = record {
      run = λ s. status-Reported state detail tid s ps pd small final;
    }

    Ends-start_title : (tid : ℕ) → Ends (start_title d j w tid)
    unfolding start_title text_eq
    Ends-start_title tid = Ends-seq _ (
        Ends-bind _ λ rc.
          Ends-bool (succeeded rc)
            (Ends-status (codes "launched") [] tid refl refl (omega arith) refl _)
            (Ends-status (codes "error") (codes "rc=" ++ hex 8 rc) tid refl (is_plain-hex 8 rc)
              (omega (arith, length-hex 8 rc)) refl _))

    Ends-launch_title : (tid : ℕ) → Ends (launch_title d j w (some tid))
    unfolding launch_title text_eq
    Ends-launch_title tid =
        Ends-bool (tid == 0)
          (Ends-status (codes "error") (codes "invalid or missing title_id in request") 0 refl refl
            (omega arith) refl _)
          (Ends-start_title tid)

    -- A launcher that finds a request returns with a status file that the core takes for the end of the
    -- launch, whatever the request asks for and whether the title starts: if the file can be written,
    -- the JSON library reads what it wrote, and the title of the request, if it has one, is a text.
    pub run_launcher_mode-Reported :
        (s : App) (text : Bytes) (tid : ℕ)
        → d.file s.events launch_request_path ≡ some text
        → request_tid d j w (j.parse (c_str (take 255 text))) ≡ some tid
        → Reported (run_launcher_mode d j w s).1.events
    unfolding run_launcher_mode ◌>>=◌ ◌>>◌ ask emit
    run_launcher_mode-Reported s text tid request title =
        rw (request, title) ((Ends-launch_title tid).run _)
