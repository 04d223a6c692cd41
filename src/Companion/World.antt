-- ===== src/Companion/World.antt =====
-- The state of the companion application, and the console around it. As for the core, a call that
-- leaves the process is an event, and what the system answers is a function of all events before.
use nxremote_api.Base.{ℕ, Bool, false, not, Option, none, some, List, [], ◌∷◌, ◌++◌, if◌then◌else◌}
use nxremote_api.Base.Int.{ℤ}
use nxremote_api.Base.Text.{Bytes, codes}
unfoldable pub use nxremote_api.Base.State.{pure, ◌>>=◌, ◌>>◌, get, modify, when}
use nxremote_api.Base.State.{State}
use nxremote_api.JsonSafeAccess.{Json}
use nxremote_api.Config.{Config}

pub data Event : Type 0 where
  asked : Event
  slept : ℕ → Event
  opened : Bytes → Event
  wrote : Bytes → Bytes → Event
  removed : Bytes → Event
  made_dir : Bytes → Event
  fetched : Bytes → Event
  broadcast : Bytes → Event
  requested_launch : ℕ → Event
  printed : Bytes → Event
  -- The end of a service, at the end of `main`.
  exited : Bytes → Event
  -- The process ends here, by `std::abort`; what the model has after it does not happen.
  aborted : Event

abbrev pub History : Type 0
History = List Event

-- What libcurl does for a URL: the pieces that it hands to the write callback, its result code (0 is
-- CURLE_OK) if the callback takes them all, and the response code.
pub record Transfer : Type 0 where
  pub chunks : List Bytes
  pub result : ℕ
  pub response : ℤ

-- How `connect` of a socket that does not block returns; a refusal has its `errno`.
pub data Connect : Type 0 where
  connected in_progress : Connect
  refused : ℤ → Connect

pub record Device : Type 0 where
  -- The text of a file, `none` where it cannot be opened, and whether it can be written.
  pub file : History → Bytes → Option Bytes
  pub can_write : History → Bytes → Bool
  -- Whether `stat` finds a path.
  pub exists : History → Bytes → Bool
  -- Whether `fwrite` takes the whole of a block, and `realloc` gives a block.
  pub stores : History → Bool
  -- What a download holds when its file is closed, of the bytes that it was given; `fclose` may fail to
  -- write what is still in its buffer, and the program does not look at its result.
  pub fclose : History → Bytes → Bytes
  pub reallocates : History → Bool
  -- The byte that `malloc(1)` returns.
  pub fresh_byte : History → ℕ
  pub curl_init : History → Bool
  pub perform : History → Bytes → Transfer
  pub strerror : ℕ → Bytes
  pub request_launch : History → ℕ → ℕ
  pub udp_socket : History → Bool
  -- The probe of a port: its socket, `connect`, whether `select` reports it, and its pending error.
  pub tcp_socket : History → Bool
  pub connect : History → Bytes → ℤ → Connect
  pub connects : History → Bool
  pub pending_error : History → ℤ
  -- The numbers that the headers give these errors.
  pub econnrefused : ℤ
  pub etimedout : ℤ
  pub ehostunreach : ℤ
  -- `svcGetSystemTick`, the console's address (0 is none), and the buttons that went down.
  pub tick : History → ℕ
  pub ip : History → ℕ
  pub plus : History → Bool
  pub minus : History → Bool
  pub zr : History → Bool
  pub x : History → Bool
  pub y : History → Bool
  pub random : History → ℕ
  -- `socketInitializeDefault`, and `time(NULL)`.
  pub sockets : History → Bool
  -- Whether `appletGetAppletType` is `AppletType_LibraryApplet`.
  pub library_applet : History → Bool
  pub time : History → ℤ
  -- Whether `appletMainLoop` goes on.
  pub main_loop : History → Bool
  -- `APP_VERSION`, which the build sets.
  pub app_version : Bytes

-- `ReleaseInfo`.
pub record Release : Type 0 where
  pub tag : Bytes
  pub date : Bytes
  pub url_main : Bytes
  pub url_npdm : Bytes
  pub url_flag : Bytes
  pub url_nro : Bytes
  pub valid : Bool

abbrev pub no_release : Release
no_release = record {
  tag = [];
  date = [];
  url_main = [];
  url_npdm = [];
  url_flag = [];
  url_nro = [];
  valid = false;
}

-- The globals of the program.
pub record App : Type 0 where
  pub latest_release : Release
  pub latest_date : Bytes
  pub dev_mode : Bool
  pub is_applet_mode : Bool
  pub app_logs : List Bytes
  pub sys_status_msg : Bytes
  pub last_pos : ℕ
  pub config : Config
  pub events : History

abbrev pub M : Type 0 → Type 0
M = State App

unfoldable pub emit : Event → M (Unit {0})
emit e s = (tt, record s { events = e ∷ s.events })

-- A call with an answer.
unfoldable pub ask : {A : Type 0} → (History → A) → Event → M A
ask f e s = (f s.events, record s { events = e ∷ s.events })

-- A colour code, and the code that ends it.
abbrev pub colored : Bytes → Bytes → Bytes
colored color text = 27 ∷ (codes "[" ++ color ++ codes "m" ++ text ++ 27 ∷ codes "[0m")

-- `fopen(path, "w")`, a text and `fclose`, if the file could be opened.
unfoldable pub write_file : Device → Bytes → Bytes → M (Unit {0})
unfolding emit ask
write_file d path text = do
  ok ← ask (λ h. d.can_write h path) (opened path)
  when ok (emit (wrote path text))

-- `value.value(key, def)`; `none` is its abort, on a value that is no object or on a member of another
-- type.
unfoldable pub value_text : (j : Json) → j.Value → Bytes → Bytes → Option Bytes
value_text j v key def =
    if not (j.is_object v)
    then none
    else elim (j.find v key) [ none ↦ some def | some member ↦ j.get_string member ]
