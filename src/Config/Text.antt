-- ===== src/Config/Text.antt =====
-- The lines of the settings file, as fgets returns them.
use nxremote_api.Base.{
  ℕ, suc, ◌+◌, ◌≤◌, ◌<◌, ◌≡◌, ap, ◌∙◌, ◌≢◌, ◌⊎◌, Bool, true, false, List, [], ◌∷◌, ◌++◌, append-nil,
  map, All, All-append, length, length-append, inl, arith,
}
use nxremote_api.Base.Int.{ℤ, pos, negsuc, IsInt32, IsInt64, IsInt64-of_IsInt32}
use nxremote_api.Base.Text.{Bytes, codes}
use nxremote_api.CString.Lines.{fgets_lines, fgets_lines-line, fgets_lines-nil}
use nxremote_api.CString.Parts.{Lacks}
use nxremote_api.CString.Format.{decimal, signed_decimal, decimal-IsDigit, length-decimal}
use nxremote_api.Config.{
  Config, unlines, settings_lines, settings_line, bool_text, key_token, key_port, key_check,
  key_debug, key_screenshot, key_input,
}

-- Lines that fit the buffer and hold no newline of their own.
abbrev pub Fits : List Bytes → Type 0
Fits = All (λ line. Lacks b'\n' line × (length line + 1 < 256))

abbrev pub ended : Bytes → Bytes
ended line = line ++ b'\n' ∷ []

pub fgets_lines-unlines :
    (lines : List Bytes) → Fits lines → fgets_lines 256 (unlines lines) ≡ map ended lines
unfolding unlines
fgets_lines-unlines [] h = fgets_lines-nil 256
fgets_lines-unlines (line ∷ lines) h =
    fgets_lines-line 256 line (unlines lines) h.0.0 h.0.1
    ∙ ap (◌∷◌ (ended line)) (fgets_lines-unlines lines h.1)

-- A token that the file can keep: no quote, no newline, no NUL, at most 127 bytes and at least one.
pub record IsToken (t : Bytes) : Type 0 where
  pub quotes : Lacks b'"' t
  pub newlines : Lacks b'\n' t
  pub nuls : Lacks 0 t
  pub fits : length t ≤ 127
  pub ne_nil : t ≢ []

pub record IsStorable (c : Config) : Type 0 where
  pub token : IsToken c.api_token
  pub port_range : IsInt32 c.port
  pub check_range : IsInt64 c.last_update_check

-- A byte that no printed number has.
abbrev IsNoDigit : ℕ → Type 0
IsNoDigit c = (c < b'-') ⊎ (b'9' < c)

Lacks-of_IsDigit :
    (c : ℕ) (s : Bytes) → IsNoDigit c → All (λ d. (b'0' ≤ d) × (d ≤ b'9')) s → Lacks c s
Lacks-of_IsDigit c [] h ds = tt
Lacks-of_IsDigit c (d ∷ s) h ds = (ground arith, Lacks-of_IsDigit c s h ds.1)

pub Lacks-signed_decimal : (c : ℕ) (a : ℤ) → IsNoDigit c → Lacks c (signed_decimal a)
unfolding signed_decimal
Lacks-signed_decimal c (pos n) h = Lacks-of_IsDigit c (decimal n) h (decimal-IsDigit n)
Lacks-signed_decimal c (negsuc n) h =
    (ground arith, Lacks-of_IsDigit c (decimal (suc n)) h (decimal-IsDigit (suc n)))

pub length-signed_decimal : (a : ℤ) → IsInt64 a → length (signed_decimal a) ≤ 20
unfolding signed_decimal
length-signed_decimal (pos n) h = omega (arith, length-decimal 18 n (omega arith))
length-signed_decimal (negsuc n) h = omega (arith, length-decimal 18 (suc n) (omega arith))

Fits_line :
    (key value : Bytes)
    → Lacks b'\n' key
    → Lacks b'\n' value
    → length key + length value < 250
    → Lacks b'\n' (settings_line key value) × (length (settings_line key value) + 1 < 256)
Fits_line key value hk hv short = (
  (λ e. cc, (λ e. cc, All-append _ key _ hk (λ e. cc, (λ e. cc, hv)))),
  omega (arith, length-append key (b':' ∷ b' ' ∷ value)),
)

Fits_number :
    (key : Bytes) (a : ℤ)
    → Lacks b'\n' key
    → IsInt64 a
    → length key < 200
    → Lacks b'\n' (settings_line key (signed_decimal a ++ codes ","))
      × (length (settings_line key (signed_decimal a ++ codes ",")) + 1 < 256)
Fits_number key a hk h short =
    Fits_line key (signed_decimal a ++ codes ",") hk
      (All-append _ (signed_decimal a) _ (Lacks-signed_decimal b'\n' a (inl (omega arith)))
        (λ e. cc, tt))
      (omega (arith, length-append (signed_decimal a) (codes ","), length-signed_decimal a h))

Fits_token :
    (t : Bytes)
    → IsToken t
    → Lacks b'\n' (settings_line key_token (b'"' ∷ (t ++ codes "\",")))
      × (length (settings_line key_token (b'"' ∷ (t ++ codes "\","))) + 1 < 256)
Fits_token t h =
    Fits_line key_token (b'"' ∷ (t ++ codes "\",")) (omega arith)
      (λ e. cc, All-append _ t _ h.newlines (omega arith))
      (omega (arith, length-append t (codes "\","), h.fits))

Fits_flag :
    (key after : Bytes) (b : Bool)
    → Lacks b'\n' key
    → Lacks b'\n' after
    → length key + length after < 200
    → Lacks b'\n' (settings_line key (bool_text b ++ after))
      × (length (settings_line key (bool_text b ++ after)) + 1 < 256)
Fits_flag key after true hk ha short =
    Fits_line key (codes "true" ++ after) hk (All-append _ (codes "true") after (omega arith) ha)
      (omega arith)
Fits_flag key after false hk ha short =
    Fits_line key (codes "false" ++ after) hk (All-append _ (codes "false") after (omega arith) ha)
      (omega arith)

pub Fits-settings_lines : (c : Config) → IsStorable c → Fits (settings_lines c)
Fits-settings_lines c s = (
  omega arith,
  (
    Fits_token c.api_token s.token,
    (
      Fits_number key_port c.port (omega arith) (IsInt64-of_IsInt32 c.port s.port_range)
          (omega arith),
      (
        Fits_number key_check c.last_update_check (omega arith) s.check_range (omega arith),
        (
          Fits_flag key_debug (codes ",") c.debug (omega arith) (omega arith) (omega arith),
          (
            Fits_flag key_screenshot (codes ",") c.enable_screenshot (omega arith) (omega arith)
                (omega arith),
            (
              rw (append-nil (bool_text c.enable_input)) at
                  (Fits_flag key_input [] c.enable_input (omega arith) tt (omega arith)),
              (omega arith, tt),
            ),
          ),
        ),
      ),
    ),
  ),
)
