-- ===== src/Core/Handoff.antt =====
-- The request file by which the core hands a title to the launcher.
use nxremote_api.Base.{
  ℕ, zero, suc, ◌/◌, ◌%◌, ◌^◌, ◌<◌, [], ◌∷◌, ◌++◌, length, length-append, take_all, ◌≡◌, refl, ◌∙◌,
  arith,
}
use nxremote_api.Base.Text.{codes}
use nxremote_api.CString.Number.{strtoull}
use nxremote_api.CString.Format.{snprintf, hex, hex_digit, strtoull-hex}
use nxremote_api.Core.World.{Platform}
use nxremote_api.Core.Album.{request_body}

pub length-hex : (w n : ℕ) → length (hex w n) ≡ w
unfolding hex
length-hex zero n = refl
length-hex (suc w) n =
    length-append (hex w (n / 16)) (hex_digit (n % 16) ∷ []) ∙ omega (arith, length-hex w (n / 16))

-- The request that the core writes for a title fits its buffer whole, and the digits in it are read
-- back, by `strtoull` in base 16, as the same title, for every 64-bit id.
pub request_body-strtoull :
    (p : Platform) (tid : ℕ)
    → tid < 2 ^ 64
    → (request_body p tid ≡ codes "{\"title_id\":\"" ++ (hex 16 tid ++ codes "\"}"))
      × (strtoull (hex 16 tid) ≡ tid)
unfolding snprintf
request_body-strtoull p tid small = (
  take_all 63 (codes "{\"title_id\":\"" ++ (hex 16 tid ++ codes "\"}"))
      (omega (arith, length-hex 16 tid, length-append (hex 16 tid) (codes "\"}"))),
  strtoull-hex tid small,
)
