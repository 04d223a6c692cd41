-- ===== src/CString/Number.antt =====
-- strtol and strtoull, with atoi and atol, in their bases 10 and 16.
use nxremote_api.Base.{
  ℕ, ◌+◌, ◌-◌, ◌*◌, ◌%◌, ◌^◌, min, ◌≡◌, refl, Bool, true, false, ◌&&◌, ◌||◌, Option, none, some, [],
  ◌∷◌, ◌==◌, leb, ltb, if◌then◌else◌,
}
use nxremote_api.Base.Int.{ℤ, pos, negsuc, neg_ℕ, int32}
use nxremote_api.Base.Text.{Bytes, codes}
use nxremote_api.CString.Search.{starts_with}

abbrev pub is_space : ℕ → Bool
is_space c = c == b' ' || leb 9 c && leb c 13

abbrev pub is_digit : ℕ → Bool
is_digit c = leb b'0' c && leb c b'9'

unfoldable pub skip_spaces : Bytes → Bytes
skip_spaces [] = []
skip_spaces (c ∷ cs) = if is_space c then skip_spaces cs else c ∷ cs

-- The number that the decimal digits at the front of the text add to `acc`.
unfoldable pub scan : ℕ → Bytes → ℕ
scan acc [] = acc
scan acc (c ∷ cs) = let rest = scan (acc * 10 + (c - b'0')) cs in if is_digit c then rest else acc

abbrev long_max : ℕ
long_max = 2 ^ 63 - 1

strtol_signed : Bytes → ℤ
strtol_signed [] = pos 0
strtol_signed (c ∷ cs) =
    if c == b'-'
    then neg_ℕ (min (scan 0 cs) (2 ^ 63))
    else if c == b'+'
    then pos (min (scan 0 cs) long_max)
    else pos (min (scan 0 (c ∷ cs)) long_max)

-- `strtol(s, NULL, 10)`, which saturates.
unfoldable pub strtol : Bytes → ℤ
unfolding strtol_signed
strtol s = strtol_signed (skip_spaces s)

unfoldable pub atoi : Bytes → ℤ
unfolding strtol
atoi s = int32 (strtol s)

unfoldable pub hex_value : ℕ → Option ℕ
hex_value c =
    if is_digit c
    then some (c - b'0')
    else if leb b'A' c && leb c b'F'
    then some (c - b'A' + 10)
    else if leb b'a' c && leb c b'f'
    then some (c - b'a' + 10)
    else none

unfoldable pub scan_hex : ℕ → Bytes → ℕ
scan_hex acc [] = acc
scan_hex acc (c ∷ cs) = elim (hex_value c) [ none ↦ acc | some d ↦ scan_hex (acc * 16 + d) cs ]

abbrev ulong_max : ℕ
ulong_max = 2 ^ 64 - 1

-- What follows the sign; a prefix 0x is skipped.
strtoull_hex : Bool → Bytes → ℕ
strtoull_hex minus s =
    let prefixed = starts_with (codes "0x") s || starts_with (codes "0X") s in
    let n = scan_hex 0 (if prefixed then drop_two s else s) in
    if ltb ulong_max n then ulong_max else if minus then (2 ^ 64 - n) % 2 ^ 64 else n
  where
    drop_two : Bytes → Bytes
    drop_two (_ ∷ _ ∷ rest) = rest
    drop_two _ = []

strtoull_signed : Bytes → ℕ
unfolding strtoull_hex
strtoull_signed [] = 0
strtoull_signed (c ∷ cs) =
    if c == b'-'
    then strtoull_hex true cs
    else if c == b'+'
    then strtoull_hex false cs
    else strtoull_hex false (c ∷ cs)

-- `strtoull(s, NULL, 16)`.
unfoldable pub strtoull : Bytes → ℕ
unfolding strtoull_signed
strtoull s = strtoull_signed (skip_spaces s)

tests :
    (strtol (codes " 8275,") ≡ pos 8275)
    × (atoi (codes "-12}") ≡ negsuc 11)
    × (strtoull (codes "0x00fFz") ≡ 255)
    × (strtoull (codes "x") ≡ 0)
    × (strtoull (codes "11111111111111111") ≡ 2 ^ 64 - 1)
unfolding strtol atoi strtoull skip_spaces scan scan_hex hex_value starts_with
tests = (refl, refl, refl, refl, refl)
