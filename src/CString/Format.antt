-- ===== src/CString/Format.antt =====
-- The conversions of snprintf and fprintf, and that the scanners read them back.
use nxremote_api.Base.{
  some, Bool-cases, lt→ltb, inl, inr, le→leb, ℕ, zero, suc, ◌+◌, ◌-◌, ◌*◌, ◌/◌, ◌%◌, ◌^◌, ◌≤◌, ◌<◌,
  ◌≡◌, ◌≢◌, refl, ap, ◌∙◌, false, [], ◌∷◌, ◌++◌, append_assoc, append-nil, ltb, if◌then◌else◌, take,
  length, length-append, All, All-append, min, arith,
}
use mathlib.Core.List.{concat-ne-nil}
use native.Mathlib.Nat.{pow-suc}
use nxremote_api.Base.Int.{
  ℤ, pos, negsuc, neg_ℕ, IsInt64-of_IsInt32, int32, IsInt32, IsInt64, int32_of_IsInt32,
}
use nxremote_api.Base.Text.{Bytes, codes}
use nxremote_api.CString.Search.{starts_with}
use nxremote_api.CString.Number.{
  is_digit, skip_spaces, scan, strtol, atoi, hex_value, scan_hex, strtoull,
}

-- `snprintf(out, size, ...)` keeps `size - 1` bytes of the text.
unfoldable pub snprintf : ℕ → Bytes → Bytes
snprintf size text = take (size - 1) text

decimal_steps : ℕ → ℕ → Bytes
decimal_steps zero n = []
decimal_steps (suc fuel) n =
    let more = decimal_steps fuel (n / 10) ++ (b'0' + n % 10) ∷ [] in
    if ltb n 10 then (b'0' + n) ∷ [] else more

-- `%u`, `%lu`.
unfoldable pub decimal : ℕ → Bytes
unfolding decimal_steps
decimal n = decimal_steps (suc n) n

-- `%d`, `%ld`.
unfoldable pub signed_decimal : ℤ → Bytes
signed_decimal (pos n) = decimal n
signed_decimal (negsuc n) = b'-' ∷ decimal (suc n)

unfoldable pub hex_digit : ℕ → ℕ
hex_digit d = if ltb d 10 then b'0' + d else b'A' - 10 + d

-- `%0wX` of a number that has at most `w` digits.
unfoldable pub hex : ℕ → ℕ → Bytes
unfolding hex_digit
hex zero n = []
hex (suc w) n = hex w (n / 16) ++ hex_digit (n % 16) ∷ []

tests :
    (decimal 0 ≡ codes "0")
    × (signed_decimal (negsuc 8274) ≡ codes "-8275")
    × (hex 16 (2 ^ 56 + 0xcafe) ≡ codes "010000000000CAFE")
unfolding decimal signed_decimal hex
tests = (refl, refl, refl)

abbrev pub IsDigit : ℕ → Type 0
IsDigit c = (b'0' ≤ c) × (c ≤ b'9')

decimal_steps-IsDigit : (fuel n : ℕ) → All IsDigit (decimal_steps fuel n)
unfolding decimal_steps
decimal_steps-IsDigit zero n = tt
decimal_steps-IsDigit (suc fuel) n = elim (Bool-cases (ltb n 10)) [
  | inl small ↦ rw small ((ground arith, ground arith), tt)
  | inr large ↦ rw large (
      All-append IsDigit _ _ (decimal_steps-IsDigit fuel (n / 10)) ((omega arith, omega arith), tt))
]

pub decimal-IsDigit : (n : ℕ) → All IsDigit (decimal n)
unfolding decimal
decimal-IsDigit n = decimal_steps-IsDigit (suc n) n

scan-digit :
    (acc c : ℕ) (rest : Bytes) → IsDigit c → scan acc (c ∷ rest) ≡ scan (acc * 10 + (c - b'0')) rest
unfolding scan
scan-digit acc c rest h = rw (le→leb b'0' c h.0, le→leb c b'9' h.1)

scan-decimal_steps :
    (fuel n : ℕ) (rest : Bytes) → n < fuel → scan 0 (decimal_steps fuel n ++ rest) ≡ scan n rest
unfolding decimal_steps
scan-decimal_steps zero n rest h = absurd (omega arith)
scan-decimal_steps (suc fuel) n rest h = elim (Bool-cases (ltb n 10)) [
  | inl small ↦ rw small (
      scan-digit 0 (b'0' + n) rest (ground arith, ground arith)
      ∙ ap (λ k. scan k rest) (omega arith))
  | inr large ↦
      rw (large, append_assoc)
        (scan-decimal_steps fuel (n / 10) ((b'0' + n % 10) ∷ rest) (ground arith)
          ∙ scan-digit (n / 10) (b'0' + n % 10) rest (omega arith, omega arith)
          ∙ ap (λ k. scan k rest) (omega arith))
]

-- The scanner stops at what is no digit.
scan_stop : (acc c : ℕ) (rest : Bytes) → is_digit c ≡ false → scan acc (c ∷ rest) ≡ acc
unfolding scan
scan_stop acc c rest h = rw h

pub scan-decimal :
    (n c : ℕ) (rest : Bytes) → is_digit c ≡ false → scan 0 (decimal n ++ c ∷ rest) ≡ n
unfolding decimal
scan-decimal n c rest h =
    scan-decimal_steps (suc n) n (c ∷ rest) (omega arith) ∙ scan_stop n c rest h

length-decimal_steps : (fuel w n : ℕ) → n < 10 ^ suc w → length (decimal_steps fuel n) ≤ suc w
unfolding decimal_steps
length-decimal_steps zero w n h = omega arith
length-decimal_steps (suc fuel) zero n h = rw (lt→ltb n 10 h) (omega arith)
length-decimal_steps (suc fuel) (suc w) n h = elim (Bool-cases (ltb n 10)) [
  | inl small ↦ rw small (omega arith)
  | inr large ↦ rw large (
      omega (
        arith,
        length-decimal_steps fuel w (n / 10) (omega (arith, pow-suc 10 (suc w))),
        length-append (decimal_steps fuel (n / 10)) ((b'0' + n % 10) ∷ []),
      ))
]

-- A number below a power of ten takes no more digits than its exponent.
pub length-decimal : (w n : ℕ) → n < 10 ^ suc w → length (decimal n) ≤ suc w
unfolding decimal
length-decimal w n h = length-decimal_steps (suc n) w n h

decimal-ne-nil : (n : ℕ) → decimal n ≢ []
unfolding decimal decimal_steps
decimal-ne-nil n = elim (Bool-cases (ltb n 10)) [
  | inl small ↦ rw small (λ e. cc)
  | inr large ↦ rw large (concat-ne-nil (b'0' + n % 10) (decimal_steps n (n / 10)))
]

-- A printed number begins with a digit.
pub decimal-head : (n : ℕ) → (d : ℕ) × (ds : Bytes) × (decimal n ≡ d ∷ ds) × IsDigit d
decimal-head n = go (decimal n) refl (decimal-IsDigit n)
  where
    go :
        (xs : Bytes)
        → decimal n ≡ xs
        → All IsDigit xs
        → (d : ℕ) × (ds : Bytes) × (decimal n ≡ d ∷ ds) × IsDigit d
    go [] e h = absurd (decimal-ne-nil n e)
    go (d ∷ ds) e h = (d, ds, e, h.0)

strtol_digits :
    (d : ℕ) (cs : Bytes)
    → IsDigit d
    → strtol (b' ' ∷ d ∷ cs) ≡ pos (min (scan 0 (d ∷ cs)) (2 ^ 63 - 1))
unfolding strtol skip_spaces
strtol_digits d cs h = ground arith

strtol_minus : (cs : Bytes) → strtol (b' ' ∷ b'-' ∷ cs) ≡ neg_ℕ (min (scan 0 cs) (2 ^ 63))
unfolding strtol skip_spaces
strtol_minus cs = refl

pub strtol-decimal :
    (n c : ℕ) (rest : Bytes)
    → n ≤ 2 ^ 63 - 1
    → is_digit c ≡ false
    → strtol (b' ' ∷ (decimal n ++ c ∷ rest)) ≡ pos n
strtol-decimal n c rest h stop =
    let (d, ds, e, range) = decimal-head n in
    let read = scan-decimal n c rest stop in
    rw e (strtol_digits d (ds ++ c ∷ rest) range ∙ ap pos (omega (arith, rw e at read)))

-- A blank before the number, as in a settings file.
pub strtol-signed_decimal :
    (a : ℤ) (c : ℕ) (rest : Bytes)
    → IsInt64 a
    → is_digit c ≡ false
    → strtol (b' ' ∷ (signed_decimal a ++ c ∷ rest)) ≡ a
unfolding signed_decimal
strtol-signed_decimal (pos n) c rest h stop = strtol-decimal n c rest h stop
strtol-signed_decimal (negsuc n) c rest h stop =
    strtol_minus (decimal (suc n) ++ c ∷ rest)
    ∙ ap (λ k. neg_ℕ (min k (2 ^ 63))) (scan-decimal (suc n) c rest stop)
    ∙ ground arith

pub atoi-signed_decimal :
    (a : ℤ) (c : ℕ) (rest : Bytes)
    → IsInt32 a
    → is_digit c ≡ false
    → atoi (b' ' ∷ (signed_decimal a ++ c ∷ rest)) ≡ a
unfolding atoi
atoi-signed_decimal a c rest h stop =
    ap int32 (strtol-signed_decimal a c rest (IsInt64-of_IsInt32 a h) stop) ∙ int32_of_IsInt32 a h

-- Every hexadecimal digit is read back.
hex_value-hex_digit : (d : ℕ) → d < 16 → hex_value (hex_digit d) ≡ some d
unfolding hex_value hex_digit
hex_value-hex_digit d h = ground arith

scan_hex-digit :
    (acc d : ℕ) (rest : Bytes)
    → d < 16
    → scan_hex acc (hex_digit d ∷ rest) ≡ scan_hex (acc * 16 + d) rest
unfolding scan_hex
scan_hex-digit acc d rest h = rw (hex_value-hex_digit d h, scan_hex) refl

pub scan_hex-hex :
    (w n : ℕ) (rest : Bytes) → n < 16 ^ w → scan_hex 0 (hex w n ++ rest) ≡ scan_hex n rest
unfolding hex
scan_hex-hex zero n rest h = ap (λ k. scan_hex k rest) (omega arith)
scan_hex-hex (suc w) n rest h = rw append_assoc (
    scan_hex-hex w (n / 16) (hex_digit (n % 16) ∷ rest) (omega (arith, pow-suc 16 w))
    ∙ scan_hex-digit (n / 16) (n % 16) rest (omega arith)
    ∙ ap (λ k. scan_hex k rest) (omega arith))

hex_digit-head : (d : ℕ) → d < 16 → (b'0' ≤ hex_digit d) × (hex_digit d ≤ b'F')
unfolding hex_digit
hex_digit-head d h = ground arith

hex-All : (w n : ℕ) → All (λ c. (b'0' ≤ c) × (c ≤ b'F')) (hex w n)
unfolding hex
hex-All zero n = tt
hex-All (suc w) n =
    All-append _ (hex w (n / 16)) _ (hex-All w (n / 16)) (hex_digit-head (n % 16) (omega arith), tt)

-- No digit is a space, a sign or the x of a prefix, so `strtoull` reads the digits alone.
strtoull_digits :
    (s : Bytes)
    → All (λ c. (b'0' ≤ c) × (c ≤ b'F')) s
    → scan_hex 0 s ≤ 2 ^ 64 - 1
    → strtoull s ≡ scan_hex 0 s
unfolding strtoull skip_spaces starts_with
strtoull_digits [] h small = unfold scan_hex in refl
strtoull_digits (c ∷ []) h small = ground arith
strtoull_digits (c ∷ d ∷ s) h small = ground arith

scan_hex-nil : (n : ℕ) → scan_hex n [] ≡ n
unfolding scan_hex
scan_hex-nil n = refl

-- A number printed with `%016llX` is read back by `strtoull`.
pub strtoull-hex : (n : ℕ) → n < 2 ^ 64 → strtoull (hex 16 n) ≡ n
strtoull-hex n h =
    let read = rw append-nil at (scan_hex-hex 16 n [] h) in
    let whole : scan_hex 0 (hex 16 n) ≡ n = read ∙ scan_hex-nil n in
    strtoull_digits (hex 16 n) (hex-All 16 n) (omega (arith, whole)) ∙ whole
