-- ===== src/Companion/Log.antt =====
-- The list of messages that the application shows: `add_app_log`, and the core's boot log.
pub mod Last
pub mod Incremental
use nxremote_api.Base.{
  ℕ, zero, suc, ◌+◌, ◌-◌, ◌*◌, ◌≤◌, ◌<◌, Bool, true, false, ◌||◌, Option, none, some, List, [], ◌∷◌,
  ◌++◌, append_assoc, append-nil, length, length-append, drop, ltb, lt→ltb, le→ltb, ◌==◌,
  if◌then◌else◌, Bool-cases, inl, inr, ◌≡◌, refl, sym, ap, ◌∙◌, arith,
}
use nxremote_api.Base.Text.{Bytes, codes}
use nxremote_api.CString.Search.{c_str}
use nxremote_api.CString.Format.{snprintf}
use nxremote_api.CString.Lines.{fgets_lines}
use nxremote_api.Companion.World.{
  asked, opened, broadcast, Device, App, M, pure, ◌>>=◌, ◌>>◌, get, modify, when, emit, ask,
  colored,
}

-- `if (g_app_logs.size() > 30) g_app_logs.erase(g_app_logs.begin());`, then `push_back`.
unfoldable pub push : Bytes → List Bytes → List Bytes
push message logs = (if ltb 30 (length logs) then drop 1 logs else logs) ++ message ∷ []

abbrev pub boot_log_path : Bytes
boot_log_path = codes "sdmc:/config/NXRemoteAPI/core_boot.log"

-- `line[strcspn(line, "\r\n")] = 0`.
unfoldable pub chomp : Bytes → Bytes
chomp [] = []
chomp (c ∷ cs) = if c == 13 || c == 10 then [] else c ∷ chomp cs

module _ (d : Device) where
  unfoldable pub add_app_log : Bytes → M (Unit {0})
  unfolding push
  add_app_log message = do
    modify (λ s. record s { app_logs = push message s.app_logs })
    s ← get
    when s.dev_mode (do sock ← ask d.udp_socket asked; when sock (emit (broadcast message)))

  unfoldable pub add_boot_line : Bytes → M (Unit {0})
  add_boot_line [] = pure tt
  add_boot_line (c ∷ cs) =
      add_app_log (snprintf 300 (colored (codes "35") (codes "[BOOT] " ++ c ∷ cs)))

  -- The loop of `fetch_offline_boot_logs`, on the lines that `fgets` returns.
  unfoldable pub add_boot_lines : List Bytes → M (Unit {0})
  unfolding add_boot_line chomp
  add_boot_lines [] = pure tt
  add_boot_lines (line ∷ lines) = do add_boot_line (chomp (c_str line)); add_boot_lines lines

  -- The position that the reading starts at: the start again, if the file was made anew.
  abbrev start_pos : ℕ → ℕ → ℕ
  start_pos size last_pos = if ltb size last_pos then 0 else last_pos

  unfoldable pub read_boot_log : Option Bytes → M (Unit {0})
  unfolding add_boot_lines
  read_boot_log none = pure tt
  read_boot_log (some text) = do
    s ← get
    add_boot_lines (fgets_lines 256 (drop (start_pos (length text) s.last_pos) text))
    modify (λ s'. record s' { last_pos = length text })

  unfoldable pub fetch_offline_boot_logs : M (Unit {0})
  unfolding read_boot_log
  fetch_offline_boot_logs = do
    text ← ask (λ h. d.file h boot_log_path) (opened boot_log_path)
    read_boot_log text

  -- `add_app_log` of one message after the other.
  unfoldable pub add_all : List Bytes → M (Unit {0})
  unfolding add_app_log
  add_all [] = pure tt
  add_all (m ∷ ms) = do add_app_log m; add_all ms
