-- ===== src/Companion/Screen/Rows.antt =====
-- How many lines the text of the screen has above its footer.
use nxremote_api.Base.{
  ℕ, zero, suc, ◌+◌, ◌==◌, Bool, true, false, List, [], ◌∷◌, ◌++◌, take, drop, replicate,
  if◌then◌else◌, All, Bool-cases, inl, inr, ◌≡◌, refl, arith,
}
use nxremote_api.Base.Int.{ℤ, pos, negsuc}
use nxremote_api.Base.Text.{Bytes}
use nxremote_api.CString.Search.{c_str}
use nxremote_api.CString.Format.{IsDigit, decimal, decimal-IsDigit, signed_decimal}
use nxremote_api.Companion.Terminal.{
  padded, inet_ntoa, log_window, title_lines, status_text, update_text, address_text, empty_row,
  log_row, log_rows, empty_rows, log_box,
}
use nxremote_api.Companion.Screen.{Shown, state_lines, frame, body}

-- The ends of lines in a text.
unfoldable pub newlines : Bytes → ℕ
newlines [] = 0
newlines (c ∷ cs) = let rest = newlines cs in if c == 10 then suc rest else rest

abbrev pub IsPlain : Bytes → Type 0
IsPlain text = newlines text ≡ 0

-- What is shown holds no end of a line of its own.
pub record IsFlat (v : Shown) : Type 0 where
  pub app_version : IsPlain v.app_version
  pub latest_ver : IsPlain v.latest_ver
  pub status : IsPlain v.app.sys_status_msg
  pub token : IsPlain v.app.config.api_token
  pub logs : All IsPlain v.app.app_logs

newlines-append : (a b : Bytes) → newlines (a ++ b) ≡ newlines a + newlines b
unfolding newlines
newlines-append [] b = omega arith
newlines-append (c ∷ a) b = elim (Bool-cases (c == 10)) [
  | inl e ↦ rw e (omega (arith, newlines-append a b))
  | inr e ↦ rw e (newlines-append a b)
]

IsPlain-tail : (c : ℕ) (cs : Bytes) → IsPlain (c ∷ cs) → ((c == 10) ≡ false) × IsPlain cs
unfolding newlines
IsPlain-tail c cs h = elim (Bool-cases (c == 10)) [
  | inl e ↦ absurd (ground (arith, e, h))
  | inr e ↦ (e, ground (arith, e, h))
]

newlines-if :
    (b : Bool) (x y : Bytes)
    → newlines (if b then x else y) ≡ (if b then newlines x else newlines y)
newlines-if true x y = refl
newlines-if false x y = refl

if_same : (b : Bool) (n : ℕ) → (if b then n else n) ≡ n
if_same true n = refl
if_same false n = refl

newlines-spaces : (n : ℕ) → newlines (replicate n b' ') ≡ 0
unfolding newlines
newlines-spaces zero = refl
newlines-spaces (suc n) = newlines-spaces n

newlines-padded : (n : ℕ) (text : Bytes) → newlines (padded n text) ≡ newlines text
newlines-padded n text = simp (newlines-append, newlines-spaces) (omega arith)

newlines-take : (n : ℕ) (text : Bytes) → IsPlain text → newlines (take n text) ≡ 0
unfolding newlines
newlines-take zero text h = refl
newlines-take (suc n) [] h = refl
newlines-take (suc n) (c ∷ cs) h = let (e, t) = IsPlain-tail c cs h in rw e (newlines-take n cs t)

newlines-c_str : (text : Bytes) → IsPlain text → newlines (c_str text) ≡ 0
unfolding newlines c_str
newlines-c_str [] h = refl
newlines-c_str (c ∷ cs) h = elim (Bool-cases (c == 0)) [
  | inl e ↦ rw e refl
  | inr e ↦ let (k, t) = IsPlain-tail c cs h in rw (e, k) (newlines-c_str cs t)
]

newlines-digits : (text : Bytes) → All IsDigit text → newlines text ≡ 0
unfolding newlines
newlines-digits [] h = refl
newlines-digits (c ∷ cs) ((low, high), rest) = ground (arith, newlines-digits cs rest)

newlines-decimal : (n : ℕ) → newlines (decimal n) ≡ 0
newlines-decimal n = newlines-digits (decimal n) (decimal-IsDigit n)

newlines-signed_decimal : (i : ℤ) → newlines (signed_decimal i) ≡ 0
unfolding signed_decimal newlines
newlines-signed_decimal (pos n) = newlines-decimal n
newlines-signed_decimal (negsuc n) = newlines-decimal (suc n)

newlines-inet_ntoa : (ip : ℕ) → newlines (inet_ntoa ip) ≡ 0
unfolding newlines
newlines-inet_ntoa ip = simp (newlines-append, newlines-decimal) refl

newlines-title_lines : (version : Bytes) → IsPlain version → newlines (title_lines version) ≡ 2
unfolding title_lines newlines
newlines-title_lines version h = simp (newlines-append, newlines-spaces, h) refl

newlines-status_text :
    (active : Bool) (message : Bytes) → IsPlain message → newlines (status_text active message) ≡ 0
unfolding status_text newlines
newlines-status_text true message h = refl
newlines-status_text false message h =
    simp (newlines-append, newlines-c_str (take 18 message) (newlines-take 18 message h)) refl

newlines-update_text :
    (checking : Bool) (latest_ver app_version : Bytes)
    → IsPlain latest_ver
    → newlines (update_text checking latest_ver app_version) ≡ 0
unfolding update_text newlines
newlines-update_text checking latest_ver app_version h =
    simp (newlines-if, newlines-append, newlines-spaces, newlines-c_str latest_ver h, if_same) refl

newlines-address_text : (ip : ℕ) → newlines (address_text ip) ≡ 0
unfolding address_text newlines
newlines-address_text ip = elim (Bool-cases (ip == 0)) [
  | inl e ↦ rw e refl
  | inr e ↦ rw e (simp (newlines-append, newlines-spaces, newlines-decimal) refl)
]

newlines-log_rows : (n : ℕ) (logs : List Bytes) → All IsPlain logs → newlines (log_rows n logs) ≡ n
unfolding log_rows log_row newlines
newlines-log_rows zero logs h = refl
newlines-log_rows (suc n) [] h = simp newlines-append (omega (arith, newlines-log_rows n [] tt))
newlines-log_rows (suc n) (entry ∷ logs) (e, h) =
    simp (newlines-append, newlines-c_str entry e) (omega (arith, newlines-log_rows n logs h))

newlines-empty_rows : (n : ℕ) → newlines (empty_rows n) ≡ n
unfolding empty_rows empty_row newlines
newlines-empty_rows zero = refl
newlines-empty_rows (suc n) = simp newlines-append (omega (arith, newlines-empty_rows n))

All-drop : (n : ℕ) (logs : List Bytes) → All IsPlain logs → All IsPlain (drop n logs)
All-drop zero logs h = h
All-drop (suc n) [] h = tt
All-drop (suc n) (entry ∷ logs) (e, h) = All-drop n logs h

All-take : (n : ℕ) (logs : List Bytes) → All IsPlain logs → All IsPlain (take n logs)
All-take zero logs h = tt
All-take (suc n) [] h = tt
All-take (suc n) (entry ∷ logs) (e, h) = (e, All-take n logs h)

newlines-log_box : (logs : List Bytes) → All IsPlain logs → newlines (log_box logs) ≡ 27
unfolding log_box log_window newlines empty_row
newlines-log_box [] h = simp newlines-append refl
newlines-log_box (entry ∷ logs) h =
    newlines-log_rows 27 _ (All-take 27 _ (All-drop _ (entry ∷ logs) h))

newlines-state_lines : (v : Shown) → IsFlat v → newlines (state_lines v) ≡ 3
unfolding state_lines newlines
newlines-state_lines v flat =
    simp
      (
        newlines-append,
        newlines-spaces,
        newlines-status_text v.sysmodule_active v.app.sys_status_msg flat.status,
        newlines-update_text v.checking_update v.latest_ver v.app_version flat.latest_ver,
        newlines-address_text,
        newlines-signed_decimal,
        newlines-c_str v.app.config.api_token flat.token,
      )
      refl

newlines-frame :
    (title lines box : Bytes)
    → newlines title ≡ 2
    → newlines lines ≡ 3
    → newlines box ≡ 27
    → newlines (frame title lines box) ≡ 36
unfolding frame newlines
newlines-frame title lines box ht hl hb = simp (newlines-append, ht, hl, hb) refl

-- Above its footer the text of the screen always has 36 ends of lines, 27 of them in the box of the
-- messages, however many there are and whatever the state, if no text that it shows holds an end of a
-- line. A line that is wider than the console takes more than one row there; that is not counted.
pub newlines-body :
    (v : Shown) → IsFlat v → (newlines (body v) ≡ 36) × (newlines (log_box v.app.app_logs) ≡ 27)
unfolding body
newlines-body v flat =
    let box = newlines-log_box v.app.app_logs flat.logs in
    (
      newlines-frame (title_lines v.app_version) (state_lines v) (log_box v.app.app_logs)
          (newlines-title_lines v.app_version flat.app_version) (newlines-state_lines v flat) box,
      box,
    )
