-- ===== src/Logger.antt =====
-- firmware/common/include/Logger.h: the ring of the last fifty log entries. Each method runs under
-- the mutex, so it is one step on the state. The clock and `strftime` enter as the time stamp that
-- they give, `none` where `localtime` fails.
pub mod History
use nxremote_api.Base.{
  ℕ, ◌+◌, ◌-◌, ◌%◌, ◌^◌, Bool, true, false, Option, none, some, List, [], ◌∷◌, take, set, get_or,
  replicate, leb, ltb, if◌then◌else◌,
}
use nxremote_api.Base.Text.{Bytes, codes}
use nxremote_api.CString.Search.{c_str}

pub data LogLevel : Type 0 where
  info warn error : LogLevel

pub record LogEntry : Type 0 where
  pub level : LogLevel
  pub message : Bytes
  pub timestamp : Bytes

abbrev pub max_log_message_len : ℕ
max_log_message_len = 256

abbrev pub max_log_entries : ℕ
max_log_entries = 50

abbrev pub u32 : ℕ → ℕ
u32 n = n % 2 ^ 32

pub record Logger : Type 0 where
  pub logs : List LogEntry
  pub head : ℕ
  pub count : ℕ
  pub error_count : ℕ

-- What `memset` leaves in a slot.
abbrev pub blank : LogEntry
blank = record { level = info; message = []; timestamp = [] }

-- `init`.
unfoldable pub init : Logger
init = record { logs = replicate max_log_entries blank; head = 0; count = 0; error_count = 0 }

abbrev pub is_error : LogLevel → Bool
is_error error = true
is_error _ = false

abbrev time_text : Option Bytes → Bytes
time_text none = codes "unknown"
time_text (some t) = t

-- The entry that `log` stores: `strncpy` keeps 255 bytes of the message.
abbrev pub entry_of : LogLevel → Bytes → Option Bytes → LogEntry
entry_of level message stamp = record {
  level = level;
  message = take (max_log_message_len - 1) (c_str message);
  timestamp = time_text stamp;
}

-- The part of `log` behind its safeguard.
unfoldable pub store : Logger → LogEntry → Logger
store l e = record {
  logs = set l.logs l.head e;
  head = u32 (l.head + 1) % max_log_entries;
  count = if ltb l.count max_log_entries then u32 (l.count + 1) else l.count;
  error_count = if is_error e.level then u32 (l.error_count + 1) else l.error_count;
}

-- `log`.
unfoldable pub log : Logger → LogLevel → Bytes → Option Bytes → Logger
unfolding store
log l level message stamp =
    if leb 0xFFFFFFF0 l.count then l else store l (entry_of level message stamp)

-- The slot of `getLog`, with the wrap-around of its `u32` subtraction.
abbrev pub actual_index : Logger → ℕ → ℕ
actual_index l index =
    u32 (u32 (u32 (l.head + 2 ^ 32 - l.count) + index) + max_log_entries) % max_log_entries

-- `getLog`: `none` where it returns false.
unfoldable pub get_log : Logger → ℕ → Option LogEntry
get_log l index =
    if leb l.count index then none else some (get_or l.logs (actual_index l index) blank)
