-- ===== src/Config/Bounds.antt =====
-- The bounds of the settings: the token's buffer, and the port.
use nxremote_api.Base.{
  ℕ, ◌-◌, ◌^◌, ◌≤◌, ◌<◌, min, Bool, true, false, Option, none, some, List, [], ◌∷◌, All, ltb, take,
  drop, length, length-take, if◌then◌else◌, Bool-cases, Option-cases, inl, inr, ◌≡◌, refl, arith,
}
use nxremote_api.Base.Int.{ℤ, pos, negsuc, int32, to_bits, IsInt32}
use nxremote_api.Base.Text.{Bytes, codes}
use nxremote_api.CString.Search.{c_str, contains, strchr}
use nxremote_api.CString.Number.{atoi, strtol}
use nxremote_api.CString.Format.{snprintf}
use nxremote_api.CString.Lines.{fgets_lines}
use nxremote_api.Config
use nxremote_api.Config.{
  Config, Seeds, key_token, key_port, key_check, key_debug, key_screenshot, key_input,
  generate_passphrase, generate_default_config, quoted_value, set_token, apply_line, apply_lines,
  load,
}
use nxremote_api.Config.Setters.{
  Call, load_call, default_call, token_call, port_call, check_call, debug_call, screenshot_call,
  input_call, apply, apply_all, set_api_token, set_port, set_last_update_check, set_debug,
  set_enable_screenshot, set_enable_input,
}

-- The token fits its 128 bytes, and the port is an `int`.
pub record IsBounded (c : Config) : Type 0 where
  pub fits : length c.api_token ≤ 127
  pub is_int : IsInt32 c.port

-- A port that a caller sets is an `int`.
abbrev pub IsCall : Call → Type 0
IsCall (port_call port) = IsInt32 port
IsCall call = Unit

length-take_le : (n : ℕ) (xs : Bytes) → length (take n xs) ≤ n
length-take_le n xs = omega (arith, length-take n xs)

to_bits_lt : (a : ℤ) → to_bits 32 a < 2 ^ 32
to_bits_lt (pos n) = omega arith
to_bits_lt (negsuc n) = omega arith

of_bits-IsInt32 :
    (b : ℕ) → b < 2 ^ 32 → IsInt32 (if ltb b (2 ^ 31) then pos b else negsuc (2 ^ 32 - b - 1))
of_bits-IsInt32 b h = ground arith

int32-IsInt32 : (a : ℤ) → IsInt32 (int32 a)
int32-IsInt32 a = of_bits-IsInt32 (to_bits 32 a) (to_bits_lt a)

atoi-IsInt32 : (s : Bytes) → IsInt32 (atoi s)
unfolding atoi
atoi-IsInt32 s = int32-IsInt32 (strtol s)

length-passphrase : (s : Seeds) → length (generate_passphrase 128 s) ≤ 127
unfolding generate_passphrase snprintf
length-passphrase s = length-take_le 127 _

default-IsBounded : (s : Seeds) (c : Config) → IsBounded (generate_default_config s c)
unfolding generate_default_config
default-IsBounded s c = record { fits = length-passphrase s; is_int = omega arith }

-- A token that was read.
abbrev Fits : Option Bytes → Type 0
Fits none = Unit
Fits (some token) = length token ≤ 127

quoted_value-Fits : (line : Bytes) → Fits (quoted_value line)
unfolding quoted_value
quoted_value-Fits line = elim (Option-cases (strchr line b':')) [
  | inl e ↦ rw (e, Fits) tt
  | inr (colon, e) ↦ elim (Option-cases (strchr colon b'"')) [
    | inl e' ↦ rw (e, e', Fits) tt
    | inr (start, e') ↦ elim (Option-cases (strchr (drop 1 start) b'"')) [
      | inl e'' ↦ rw (e, e', e'', Fits) tt
      | inr (end, e'') ↦
          let value = drop 1 start in
          let n = min (length value - length end) 127 in
          let short : length (take n value) ≤ 127 = omega (arith, length-take_le n value) in
          rw (e, e', e'', Fits) short
    ]
  ]
]

set_token-IsBounded :
    (c : Config) (o : Option Bytes) → Fits o → IsBounded c → IsBounded (set_token c o)
set_token-IsBounded c none fits h = h
set_token-IsBounded c (some token) fits h = record { fits = fits; is_int = h.is_int }

set_port-IsBounded : (c : Config) (o : Option Bytes) → IsBounded c → IsBounded (Config.set_port c o)
set_port-IsBounded c none h = h
set_port-IsBounded c (some colon) h = record { fits = h.fits; is_int = atoi-IsInt32 (drop 1 colon) }

-- A change of another field.
same : {c c' : Config} → IsBounded c → c'.api_token ≡ c.api_token → c'.port ≡ c.port → IsBounded c'
same {c} {c'} h token port = record { fits = rw token h.fits; is_int = rw port h.is_int }

set_check-IsBounded :
    (c : Config) (o : Option Bytes) → IsBounded c → IsBounded (Config.set_check c o)
set_check-IsBounded c none h = h
set_check-IsBounded c (some colon) h = record { fits = h.fits; is_int = h.is_int }

if-IsBounded :
    (b : Bool) {c c' : Config} → IsBounded c → IsBounded c' → IsBounded (if b then c else c')
if-IsBounded true h h' = h
if-IsBounded false h h' = h'

apply_line-IsBounded : (c : Config) (line : Bytes) → IsBounded c → IsBounded (apply_line c line)
unfolding apply_line
apply_line-IsBounded c line h =
    let on = contains line (codes "true") in
    let last : IsBounded (record c { enable_input = on }) = same h refl refl in
    let middle : IsBounded (record c { enable_screenshot = on }) = same h refl refl in
    let first : IsBounded (record c { debug = on }) = same h refl refl in
    if-IsBounded (contains line key_token)
      (set_token-IsBounded c (quoted_value line) (quoted_value-Fits line) h)
      (if-IsBounded (contains line key_port) (set_port-IsBounded c (strchr line b':') h) (
        if-IsBounded (contains line key_check) (set_check-IsBounded c (strchr line b':') h) (
          if-IsBounded (contains line key_debug) first (
            if-IsBounded (contains line key_screenshot) middle
              (if-IsBounded (contains line key_input) last h)))))

apply_lines-IsBounded :
    (c : Config) (lines : List Bytes) → IsBounded c → IsBounded (apply_lines c lines)
unfolding apply_lines
apply_lines-IsBounded c [] h = h
apply_lines-IsBounded c (line ∷ lines) h =
    apply_lines-IsBounded (apply_line c (c_str line)) lines (apply_line-IsBounded c (c_str line) h)

load-IsBounded :
    (file : Option Bytes) (writable : Bool) (s : Seeds) (c : Config)
    → IsBounded c
    → IsBounded (load file writable s c).config
unfolding load
load-IsBounded none writable s c h = default-IsBounded s c
load-IsBounded (some file) writable s c h =
    let d = apply_lines c (fgets_lines 256 file) in
    elim (Bool-cases (Config.is_nil d.api_token)) [
      | inl empty ↦ rw empty (default-IsBounded s d)
      | inr full ↦ rw full (apply_lines-IsBounded c (fgets_lines 256 file) h)
    ]

apply-IsBounded : (call : Call) (c : Config) → IsCall call → IsBounded c → IsBounded (apply call c)
unfolding apply set_api_token set_port set_last_update_check set_debug set_enable_screenshot
    set_enable_input
apply-IsBounded (load_call file writable seeds) c i h = load-IsBounded file writable seeds c h
apply-IsBounded (default_call seeds) c i h = default-IsBounded seeds c
apply-IsBounded (token_call token) c i h = record {
  fits = length-take_le 127 (c_str token);
  is_int = h.is_int;
}
apply-IsBounded (port_call port) c i h = record { fits = h.fits; is_int = i }
apply-IsBounded (check_call timestamp) c i h = same h refl refl
apply-IsBounded (debug_call debug) c i h = same h refl refl
apply-IsBounded (screenshot_call enable) c i h = same h refl refl
apply-IsBounded (input_call enable) c i h = same h refl refl

-- After any calls that change the settings, whatever the file holds that a load reads, the token fits its
-- 128 bytes with its NUL and the port is an `int`, if that held before and every port set is one.
pub apply_all-IsBounded :
    (calls : List Call) (c : Config)
    → All IsCall calls
    → IsBounded c
    → IsBounded (apply_all calls c)
unfolding apply_all
apply_all-IsBounded [] c i h = h
apply_all-IsBounded (call ∷ calls) c (i, is) h =
    apply_all-IsBounded calls (apply call c) is (apply-IsBounded call c i h)
