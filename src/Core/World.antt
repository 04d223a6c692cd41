-- ===== src/Core/World.antt =====
-- The state of the core process, and the system around it. Every call that leaves the process is an
-- event, and what the system answers is a function of all events before: so a statement for every
-- `Platform` is one for every behaviour of the console, of its file system and of the client.
use nxremote_api.Base.{ℕ, ◌%◌, ◌^◌, Bool, Option, none, some, List, ◌∷◌, ◌++◌}
use nxremote_api.Base.Int.{ℤ}
unfoldable pub use nxremote_api.Base.State.{pure, ◌>>=◌, ◌>>◌, get, modify, when}
use nxremote_api.Base.State.{State}
use nxremote_api.Base.Text.{Bytes, codes}
use nxremote_api.Config.{Config}
use nxremote_api.Logger.{Logger, LogLevel, info, error, log}

-- `NcmStorageId`, as far as it is used.
pub data Storage : Type 0 where
  sd_card built_in_user built_in_system : Storage

-- What reaches the power state manager (spsm).
pub data Power : Type 0 where
  reboot shutdown sleep : Power

pub data Event : Type 0 where
  polled : Event
  received : ℕ → Event
  sent : Bytes → Event
  closed : Event
  slept : ℕ → Event
  ticked : Event
  opened : Bytes → Event
  wrote : Bytes → Bytes → Event
  appended : Bytes → Bytes → Event
  removed : Bytes → Event
  made_dir : Bytes → Event
  power : Power → Event
  launched : Storage → ℕ → Event
  pressed : ℕ → Event
  asked : Event
  -- A client, from `accept`; `closed` is the end of its connection.
  accepted : Event
  -- A socket of the server, by its descriptor.
  opened_socket : ℤ → Event
  closed_socket : ℤ → Event
  -- The process ends here, by `std::abort`; what the model has after it does not happen.
  aborted : Event

-- All events so far, the newest first.
abbrev pub History : Type 0
History = List Event

pub record Platform : Type 0 where
  -- `select` on the client's socket, before a read and before a write.
  pub readable : History → Bool
  pub writable : History → ℤ
  -- `recv` of at most so many bytes; `none` is an error, no bytes the end of the stream.
  pub recv : History → ℕ → Option Bytes
  -- `write`: how many of the bytes were taken, at most 0 for an error.
  pub write : History → Bytes → ℤ
  pub tick : History → ℕ
  pub tick_freq : ℕ
  pub time_stamp : History → Option Bytes
  -- The text of a file, `none` where it cannot be opened, and whether it can be written.
  pub file : History → Bytes → Option Bytes
  pub can_write : History → Bytes → Bool
  -- Whether `fwrite` takes the whole of a block.
  pub stores : History → Bool
  -- How much `fread` gives of a block that is left to read: nothing on an error.
  pub fread : History → ℕ
  -- What a copy holds when its file is closed, of the bytes that it was given; `fclose` may fail to write
  -- what is still in its buffer, and the program does not look at its result.
  pub fclose : History → Bytes → Bytes
  pub random : History → ℕ
  -- The result codes of the services that act.
  pub launch : History → Storage → ℕ → ℕ
  pub enter_sleep : History → ℕ
  -- The readings of GET /info.
  pub firmware_version : History → ℕ × ℕ × ℕ
  pub battery_percent : History → ℕ
  pub charger_type : History → ℕ
  pub temperature : History → ℤ
  pub wifi_rssi : History → ℕ
  pub total_memory : History → ℕ
  pub used_memory : History → ℕ
  pub heap_arena : History → ℕ
  pub heap_used : History → ℕ
  -- Storage: whether the device and the file system open, and what they report.
  pub sd_device : History → Bool
  pub sd_size : History → Option ℕ
  pub sd_file_system : History → Bool
  pub sd_free : History → ℤ
  -- The running application, its program, and whether it runs in the docked (boost) mode.
  pub application_pid : History → Option ℕ
  pub program_id : History → ℕ → Option ℕ
  pub performance : History → ℕ × Bool
  -- `malloc`, by a size (that of a title's control data, which libnx has, stands as 0); and a title's
  -- control data: `none` if it cannot be read, and within it the name of
  -- its language entry, if there is one.
  pub allocates : History → ℕ → Bool
  pub control_data : History → ℕ → Option (Option Bytes)
  -- The installed titles of a storage: its database, their count, and the list of their ids.
  pub ncm_open : History → Storage → ℕ
  pub ncm_count : History → Storage → ℕ × ℤ
  pub ncm_list : History → Storage → ℕ → Option (List ℕ)
  -- The pixels of a screen capture, row by row, four bytes each.
  pub capture : History → Option Bytes
  -- The bit that libnx gives a button, by its name.
  pub button_bit : Bytes → ℕ
  -- `APP_VERSION`, which the build sets.
  pub app_version : Bytes
  -- The number that libnx gives a storage.
  pub storage_id : Storage → ℕ
  -- The location resolver: its start, a storage's resolver, and the path that it has for a title.
  pub lr_start : History → ℕ
  pub lr_open : History → Storage → ℕ
  pub lr_resolve : History → Storage → ℕ → ℕ × Bytes

pub record Core : Type 0 where
  pub config : Config
  pub logger : Logger
  pub hiddbg_ready : Bool
  pub capssc_ready : Bool
  pub album_override_active : Bool
  pub album_override_installed_tick : ℕ
  pub events : History

-- A function of the program: it returns a value and the new state.
abbrev pub M : Type 0 → Type 0
M = State Core

unfoldable pub emit : Event → M (Unit {0})
emit e s = (tt, record s { events = e ∷ s.events })

-- A call with an answer.
unfoldable pub ask : {A : Type 0} → (History → A) → Event → M A
ask f e s = (f s.events, record s { events = e ∷ s.events })

-- The value of a call that may abort.
unfoldable pub or_abort : {A : Type 0} → Option A → (A → M (Unit {0})) → M (Unit {0})
unfolding emit
or_abort none f = emit aborted
or_abort (some a) f = f a

abbrev pub u64 : ℕ → ℕ
u64 n = n % 2 ^ 64

abbrev pub boot_log_path : Bytes
boot_log_path = codes "sdmc:/config/NXRemoteAPI/core_boot.log"

module _ (p : Platform) where
  -- `fopen(path, "a")` and a line, if it could be opened.
  unfoldable pub append_line : Bytes → Bytes → M (Unit {0})
  append_line path text = do
    ok ← ask (λ h. p.can_write h path) (opened path)
    when ok (emit (appended path text))

  -- `LOG_I` and `LOG_E`, with the clock's reading.
  unfoldable pub log_as : LogLevel → Bytes → M (Unit {0})
  log_as level message s = (
    tt,
    record s {
      logger = log s.logger level message (p.time_stamp s.events);
      events = asked ∷ s.events;
    },
  )

  unfoldable pub log_i : Bytes → M (Unit {0})
  unfolding log_as
  log_i = log_as info

  unfoldable pub log_e : Bytes → M (Unit {0})
  unfolding log_as
  log_e = log_as error

  -- `trace`: nothing unless the debug flag is set.
  unfoldable pub trace : Bytes → M (Unit {0})
  unfolding append_line
  trace message = do
    s ← get
    when s.config.debug (append_line boot_log_path (codes "[TRACE] " ++ message ++ codes "\n"))
