-- ===== src/Core/Reports.antt =====
-- GET /launch_status, GET /logs and GET /titles.
pub mod Items
pub mod Listed
use nxremote_api.Base.{
  ℕ, zero, suc, ◌+◌, Bool, true, false, not, ◌&&◌, ◌||◌, Option, none, some, List, [], ◌∷◌, ◌++◌,
  take, length, ltb, ◌==◌, if◌then◌else◌,
}
use nxremote_api.Base.Int.{pos, leb_ℤ}
use nxremote_api.Base.Text.{Bytes, codes}
use nxremote_api.CString.Search.{c_str}
use nxremote_api.CString.Format.{snprintf, decimal, signed_decimal, hex}
use nxremote_api.JsonSafeAccess.{Json}
use nxremote_api.Logger.{Logger, LogLevel, LogEntry, info, warn, error, get_log}
use nxremote_api.Core.World.{
  Storage, asked, opened, Platform, M, pure, ◌>>=◌, ◌>>◌, ask, get, trace, u64,
}
use nxremote_api.Core.Net.{taken}
use nxremote_api.Core.Album.{succeeded, launch_status_path}
use nxremote_api.Core.Launch.{storages_to_try}
use nxremote_api.Core.Command.{send_sized}

-- The body of GET /launch_status, from the status file.
unfoldable pub launch_status_body : Json → Option Bytes → Bytes
launch_status_body j none = codes "{\"state\": \"idle\"}"
launch_status_body j (some text) = elim (j.parse (c_str (take 255 text))) [
  | none ↦ codes "{\"state\": \"unknown\"}"
  | some st ↦ j.dump st
]

abbrev level_text : LogLevel → Bytes
level_text info = codes "INFO"
level_text warn = codes "WARN"
level_text error = codes "ERROR"

unfoldable pub log_item : LogEntry → Bytes
log_item e = snprintf 1024 (
    codes "{\"level\": \""
    ++ level_text e.level
    ++ codes "\", \"message\": \""
    ++ e.message
    ++ codes "\", \"timestamp\": \""
    ++ e.timestamp
    ++ codes "\"}")

-- The loop of GET /logs, with the rounds left and the index of the next entry.
unfoldable pub logs_loop : Logger → ℕ → ℕ → Bytes → Bytes
logs_loop l zero i json_out = json_out
logs_loop l (suc rounds) i json_out = logs_loop l rounds (i + 1) (elim (get_log l i) [
  | none ↦ json_out
  | some e ↦ (if ltb 0 i then json_out ++ codes "," else json_out) ++ log_item e
])

unfoldable pub logs_body : Logger → Bytes
unfolding logs_loop log_item
logs_body l = logs_loop l l.count 0 (codes "[") ++ codes "]"

-- The variables of the loops of GET /titles.
pub record Titles : Type 0 where
  pub json_out : Bytes
  pub first : Bool
  pub seen_ids : List ℕ

unfoldable pub is_seen : ℕ → List ℕ → Bool
is_seen id [] = false
is_seen id (x ∷ xs) = x == id || is_seen id xs

abbrev max_seen_ids : ℕ
max_seen_ids = 128

unfoldable pub title_item : ℕ → Bytes → Bytes
title_item id name =
    snprintf 1024
      (codes "{\"title_id\": \"0x" ++ hex 16 id ++ codes "\", \"name\": \"" ++ name ++ codes "\"}")

-- What an id that was not seen adds, by what its control data say.
unfoldable pub add_title : ℕ → Option (Option Bytes) → Titles → Titles
unfolding title_item
add_title id none t = t
add_title id (some name) t = record t {
  json_out =
      (if t.first then t.json_out else t.json_out ++ codes ",")
      ++ title_item id (elim name [ none ↦ [] | some n ↦ snprintf 513 (c_str n) ]);
  first = false;
}

abbrev remember : ℕ → Titles → Titles
remember id t =
    if ltb (length t.seen_ids) max_seen_ids
    then record t { seen_ids = t.seen_ids ++ id ∷ [] }
    else t

module _ (p : Platform) where
  unfoldable pub handle_launch_status : Json → M (Unit {0})
  handle_launch_status j = do
    file ← ask (λ h. p.file h launch_status_path) (opened launch_status_path)
    send_sized p 128 (launch_status_body j file)

  unfoldable pub handle_logs : M (Unit {0})
  handle_logs = do s ← get; send_sized p 256 (logs_body s.logger)

  -- One id of a storage's list.
  unfoldable pub title_of : ℕ → Titles → M Titles
  title_of id t = elim (is_seen id t.seen_ids) [
    | true ↦ pure t
    | false ↦ do
      allocated ← ask (λ h. p.allocates h 0) asked
      elim allocated [
        | false ↦ pure (remember id t)
        | true ↦ do
          control ← ask (λ h. p.control_data h id) asked
          pure (add_title id control (remember id t))
      ]
  ]

  unfoldable pub titles_of : List ℕ → Titles → M Titles
  unfolding title_of
  titles_of [] t = pure t
  titles_of (id ∷ ids) t = do t' ← title_of (u64 id) t; titles_of ids t'

  -- The ids of a storage that holds so many titles.
  unfoldable pub list_ids : Storage → ℕ → Titles → M Titles
  unfolding titles_of
  list_ids storage n t = do
    allocated ← ask (λ h. p.allocates h n) asked
    elim allocated [
      | false ↦ pure t
      | true ↦ do
        keys ← ask (λ h. p.ncm_list h storage n) asked
        elim keys [ none ↦ pure t | some ids ↦ titles_of ids t ]
    ]

  -- The list of one storage, once its database is open.
  unfoldable pub list_titles : Storage → Titles → M Titles
  unfolding list_ids
  list_titles storage t = do
    r ← ask (λ h. p.ncm_count h storage) asked
    trace p (
        snprintf 96 (
          codes "titles: ncm list count storage="
          ++ decimal (p.storage_id storage)
          ++ codes " rc="
          ++ hex 8 r.0
          ++ codes " total="
          ++ signed_decimal r.1))
    if succeeded r.0 && not (leb_ℤ r.1 (pos 0)) then list_ids storage (taken r.1) t else pure t

  unfoldable pub scan_storages : List Storage → Titles → M Titles
  unfolding list_titles
  scan_storages [] t = pure t
  scan_storages (storage ∷ rest) t = do
    rc_open ← ask (λ h. p.ncm_open h storage) asked
    trace p (
        snprintf 96 (
          codes "titles: ncm open storage="
          ++ decimal (p.storage_id storage)
          ++ codes " rc="
          ++ hex 8 rc_open))
    t' ← (if succeeded rc_open then list_titles storage t else pure t)
    scan_storages rest t'

  unfoldable pub handle_titles : M (Unit {0})
  unfolding scan_storages
  handle_titles = do
    t ← scan_storages storages_to_try (record { json_out = codes "["; first = true; seen_ids = [] })
    send_sized p 256 (t.json_out ++ codes "]")
