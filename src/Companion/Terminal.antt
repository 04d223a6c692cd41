-- ===== src/Companion/Terminal.antt =====
-- The lines that `draw_ui` prints, one function for each.
use nxremote_api.Base.{
  ℕ, zero, suc, ◌-◌, ◌/◌, ◌%◌, ◌^◌, Bool, true, false, not, ◌&&◌, ◌||◌, List, [], ◌∷◌, ◌++◌, take,
  drop, length, replicate, ltb, ◌==◌, if◌then◌else◌,
}
use nxremote_api.Base.Text.{Bytes, codes}
use nxremote_api.CString.Search.{c_str}
use nxremote_api.CString.Format.{decimal}
use nxremote_api.Core.Album.{text_eq}

-- A sequence of the terminal, behind its first two bytes.
abbrev pub csi : Bytes → Bytes
csi rest = 27 ∷ b'[' ∷ rest

-- `%-ns`.
abbrev pub padded : ℕ → Bytes → Bytes
padded width text = text ++ replicate (width - length text) b' '

-- `<` of two texts, as `std::string` compares them.
unfoldable pub text_lt : Bytes → Bytes → Bool
text_lt [] [] = false
text_lt [] (y ∷ ys) = true
text_lt (x ∷ xs) [] = false
text_lt (x ∷ xs) (y ∷ ys) = ltb x y || (x == y && text_lt xs ys)

-- `inet_ntoa`.
abbrev pub inet_ntoa : ℕ → Bytes
inet_ntoa ip =
    decimal (ip % 256)
    ++ b'.' ∷ decimal (ip / 2 ^ 8 % 256)
    ++ b'.' ∷ decimal (ip / 2 ^ 16 % 256)
    ++ b'.' ∷ decimal (ip / 2 ^ 24 % 256)

abbrev pub log_lines : ℕ
log_lines = 27

-- The window of the list that `draw_ui` prints.
unfoldable pub log_window : List Bytes → List Bytes
log_window logs =
    take log_lines (drop (if ltb log_lines (length logs) then length logs - log_lines else 0) logs)

-- The end of a line of a box.
abbrev pub edge : Bytes
edge = csi (codes "76G|" ++ 10 ∷ [])

abbrev pub rule : Bytes
rule = b'+' ∷ replicate 36 b'-' ++ b'+' ∷ replicate 37 b'-' ++ codes "+" ++ 10 ∷ []

abbrev pub bar : Bytes → Bytes → Bytes
bar text ending = csi (codes "44m") ++ csi (codes "1;37m") ++ text ++ csi (codes "0m") ++ ending

-- The three lines at the top; the first ends with a return to its start.
unfoldable pub title_lines : Bytes → Bytes
title_lines app_version =
    csi (codes "H")
    ++ bar (replicate 80 b' ') (13 ∷ [])
    ++ bar
        (replicate 28 b' ' ++ codes "NXRemoteAPI v" ++ padded 10 app_version ++ replicate 28 b' ')
        (10 ∷ [])
    ++ bar (replicate 80 b' ') (10 ∷ [])

unfoldable pub status_text : Bool → Bytes → Bytes
status_text active sys_status_msg =
    if active
    then csi (codes "1;32mACTIVE (Bridge OK)  ") ++ csi (codes "0m")
    else csi (codes "1;31mINACTIVE (")
      ++ c_str (take 18 sys_status_msg)
      ++ codes ")  "
      ++ csi (codes "0m")

-- What the screen says of a version to install.
abbrev pub offer_text : Bytes → Bytes
offer_text latest_ver =
    csi (codes "1;42m")
    ++ csi (codes "37m NEW v")
    ++ padded 6 (c_str latest_ver)
    ++ codes " READY! (Y) "
    ++ csi (codes "0m")

unfoldable pub update_text : Bool → Bytes → Bytes → Bytes
update_text checking_update latest_ver app_version =
    if checking_update
    then csi (codes "5;33mChecking updates...") ++ csi (codes "0m")
    else if text_eq latest_ver []
    then csi (codes "2mPending check (X)") ++ csi (codes "0m")
    else if not (text_eq latest_ver (codes "none")) && not (text_eq latest_ver (codes "error"))
    then (if not (text_eq latest_ver app_version)
        then (if text_lt latest_ver app_version
            then csi (codes "1;34mRunning newer dev build") ++ csi (codes "0m")
            else offer_text latest_ver)
        else csi (codes "2mLatest version (v")
          ++ padded 6 (c_str latest_ver)
          ++ codes ")"
          ++ csi (codes "0m"))
    else csi (codes "31mUpdate check failed") ++ csi (codes "0m")

-- The console's address; 0 is none.
unfoldable pub address_text : ℕ → Bytes
address_text ip =
    if ip == 0
    then csi (codes "1;31mDisconnected") ++ csi (codes "0m")
    else csi (codes "1;32m") ++ padded 15 (inet_ntoa ip) ++ csi (codes "0m")

-- The box of messages.
unfoldable pub empty_row : Bytes → Bytes
empty_row text = codes "| " ++ padded 72 text ++ codes " |" ++ 10 ∷ []

unfoldable pub log_row : Bytes → Bytes
log_row text = codes "| " ++ text ++ edge

-- So many rows: the messages, and then rows without one.
unfoldable pub log_rows : ℕ → List Bytes → Bytes
unfolding log_row
log_rows zero logs = []
log_rows (suc n) [] = log_row [] ++ log_rows n []
log_rows (suc n) (entry ∷ logs) = log_row (c_str entry) ++ log_rows n logs

unfoldable pub empty_rows : ℕ → Bytes
unfolding empty_row
empty_rows zero = []
empty_rows (suc n) = empty_row [] ++ empty_rows n

unfoldable pub log_box : List Bytes → Bytes
unfolding log_rows empty_rows empty_row log_window
log_box [] = empty_row (codes "Waiting for sysmodule bridge...") ++ empty_rows (log_lines - 1)
log_box (entry ∷ logs) = log_rows log_lines (log_window (entry ∷ logs))
