-- ===== src/Config/RoundTrip.antt =====
-- `load` reads back what `save` wrote.
use nxremote_api.Base.{
  ◌-◌, ◌≤◌, ◌≡◌, refl, ap, ◌∙◌, ◌≢◌, inl, Bool, true, false, none, some, List, [], ◌∷◌, ◌++◌,
  append_assoc, map, min, All-append, take, length, length-append, take-length, arith,
}
use nxremote_api.Base.Int.{ℤ, IsInt32, IsInt64}
use nxremote_api.Base.Text.{Bytes, codes}
use nxremote_api.CString.Search.{c_str, contains, strstr, strchr, starts_with, is_some}
use nxremote_api.CString.Parts.{Lacks, strstr-append, strchr-append, strchr_self, c_str_self}
use nxremote_api.CString.Format.{signed_decimal, strtol-signed_decimal, atoi-signed_decimal}
use nxremote_api.CString.Lines.{fgets_lines}
use nxremote_api.Config.{
  Config, Seeds, save, set_token, set_port, set_check, apply_line, apply_lines, quoted_value,
  settings_line, settings_lines, settings_text, bool_text, load, is_nil, key_token, key_port,
  key_check, key_debug, key_screenshot, key_input,
}
use nxremote_api.Config.Text.{
  ended, fgets_lines-unlines, Fits-settings_lines, IsToken, IsStorable, Lacks-signed_decimal,
}

c_str-ended :
    (key value : Bytes)
    → Lacks 0 key
    → Lacks 0 value
    → c_str (ended (settings_line key value)) ≡ ended (settings_line key value)
c_str-ended key value hk hv = c_str_self _ (
    All-append _ (settings_line key value) _
      (λ e. cc, (λ e. cc, All-append _ key _ hk (λ e. cc, (λ e. cc, hv)))) (λ e. cc, tt))

quoted_value_lem :
    (t rest : Bytes)
    → Lacks b'"' t
    → length t ≤ 127
    → quoted_value (settings_line key_token (b'"' ∷ (t ++ b'"' ∷ rest))) ≡ some t
unfolding quoted_value strchr
quoted_value_lem t rest h fits =
    let found = strchr-append b'"' t (b'"' ∷ rest) h ∙ strchr_self b'"' rest in
    let width : min (length (t ++ b'"' ∷ rest) - length (b'"' ∷ rest)) 127 ≡ length t =
      omega (arith, length-append t (b'"' ∷ rest)) in
    rw (found, quoted_value)
      (ap some (ap (λ n. take n (t ++ b'"' ∷ rest)) width ∙ take-length t (b'"' ∷ rest)))

module _ (c : Config) (line : Bytes) where
  line_token : contains line key_token ≡ true → apply_line c line ≡ set_token c (quoted_value line)
  unfolding apply_line
  line_token h = rw h

  line_port :
      contains line key_token ≡ false
      → contains line key_port ≡ true
      → apply_line c line ≡ set_port c (strchr line b':')
  unfolding apply_line
  line_port h k = rw (h, k)

  line_check :
      contains line key_token ≡ false
      → contains line key_port ≡ false
      → contains line key_check ≡ true
      → apply_line c line ≡ set_check c (strchr line b':')
  unfolding apply_line
  line_check h k m = rw (h, k, m)

apply_token :
    (c : Config) (t : Bytes)
    → IsToken t
    → apply_line c (c_str (ended (settings_line key_token (b'"' ∷ (t ++ codes "\",")))))
      ≡ record c { api_token = t }
unfolding contains strstr starts_with
apply_token c t h =
    let clean : Lacks 0 (b'"' ∷ (t ++ codes "\",")) =
      (λ e. cc, All-append _ t _ h.nuls (omega arith)) in
    ap (apply_line c) (c_str-ended key_token (b'"' ∷ (t ++ codes "\",")) (omega arith) clean)
    ∙ line_token c _ refl
    ∙ ap (λ s. set_token c (quoted_value (settings_line key_token (b'"' ∷ s))))
        (append_assoc t (codes "\",") (b'\n' ∷ []))
    ∙ ap (set_token c) (quoted_value_lem t (b',' ∷ b'\n' ∷ []) h.quotes h.fits)

-- A number does not bring a key into its line.
contains_number :
    (a : ℤ) (key rest : Bytes)
    → contains (signed_decimal a ++ rest) (b'"' ∷ key) ≡ contains rest (b'"' ∷ key)
unfolding contains
contains_number a key rest = ap is_some (
    strstr-append b'"' key (signed_decimal a) rest
      (Lacks-signed_decimal b'"' a (inl (omega arith))))

Lacks-number : (a : ℤ) → Lacks 0 (signed_decimal a ++ codes ",")
Lacks-number a =
    All-append _ (signed_decimal a) _ (Lacks-signed_decimal 0 a (inl (omega arith))) (omega arith)

abbrev number_line : Bytes → ℤ → Bytes
number_line key a = settings_line key (signed_decimal a ++ (b',' ∷ b'\n' ∷ []))

line_of_number :
    (key : Bytes) (a : ℤ)
    → Lacks 0 key
    → c_str (ended (settings_line key (signed_decimal a ++ codes ","))) ≡ number_line key a
line_of_number key a h =
    c_str-ended key (signed_decimal a ++ codes ",") h (Lacks-number a) ∙ simp append_assoc

apply_port :
    (c : Config) (a : ℤ)
    → IsInt32 a
    → apply_line c (c_str (ended (settings_line key_port (signed_decimal a ++ codes ","))))
      ≡ record c { port = a }
unfolding contains strstr starts_with strchr
apply_port c a h =
    ap (apply_line c) (line_of_number key_port a (omega arith))
    ∙ line_port c (number_line key_port a)
        (contains_number a (codes "api_token\"") (b',' ∷ b'\n' ∷ [])) refl
    ∙ ap (λ p. record c { port = p }) (atoi-signed_decimal a b',' (b'\n' ∷ []) h refl)

apply_check :
    (c : Config) (a : ℤ)
    → IsInt64 a
    → apply_line c (c_str (ended (settings_line key_check (signed_decimal a ++ codes ","))))
      ≡ record c { last_update_check = a }
unfolding contains strstr starts_with strchr
apply_check c a h =
    ap (apply_line c) (line_of_number key_check a (omega arith))
    ∙ line_check c (number_line key_check a)
        (contains_number a (codes "api_token\"") (b',' ∷ b'\n' ∷ []))
        (contains_number a (codes "port\"") (b',' ∷ b'\n' ∷ [])) refl
    ∙ ap (λ p. record c { last_update_check = p })
        (strtol-signed_decimal a b',' (b'\n' ∷ []) h refl)

-- The other lines are the same for every configuration, up to a flag.
module _ (c : Config) where
  apply_open : apply_line c (c_str (ended (codes "{"))) ≡ c
  unfolding apply_line c_str contains strstr starts_with
  apply_open = refl

  apply_close : apply_line c (c_str (ended (codes "}"))) ≡ c
  unfolding apply_line c_str contains strstr starts_with
  apply_close = refl

  apply_debug :
      (b : Bool)
      → apply_line c (c_str (ended (settings_line key_debug (bool_text b ++ codes ","))))
        ≡ record c { debug = b }
  unfolding apply_line c_str contains strstr starts_with
  apply_debug true = refl
  apply_debug false = refl

  apply_screenshot :
      (b : Bool)
      → apply_line c (c_str (ended (settings_line key_screenshot (bool_text b ++ codes ","))))
        ≡ record c { enable_screenshot = b }
  unfolding apply_line c_str contains strstr starts_with
  apply_screenshot true = refl
  apply_screenshot false = refl

  apply_input :
      (b : Bool)
      → apply_line c (c_str (ended (settings_line key_input (bool_text b))))
        ≡ record c { enable_input = b }
  unfolding apply_line c_str contains strstr starts_with
  apply_input true = refl
  apply_input false = refl

apply_next :
    (c d : Config) (line : Bytes) (lines : List Bytes)
    → apply_line c (c_str line) ≡ d
    → apply_lines c (line ∷ lines) ≡ apply_lines d lines
unfolding apply_lines
apply_next c d line lines h = ap (λ x. apply_lines x lines) h

-- Whatever the settings in memory, reading the printed lines gives the settings that were printed.
apply_lines-settings_lines :
    (c d : Config) → IsStorable d → apply_lines c (map ended (settings_lines d)) ≡ d
apply_lines-settings_lines c d s =
    apply_next _ _ _ _ (apply_open c)
    ∙ apply_next _ _ _ _ (apply_token c d.api_token s.token)
    ∙ apply_next _ _ _ _ (apply_port (record c { api_token = d.api_token }) d.port s.port_range)
    ∙ apply_next _ _ _ _ (
        apply_check (record c { api_token = d.api_token; port = d.port }) d.last_update_check
          s.check_range)
    ∙ apply_next _ _ _ _ (
        apply_debug
          (record d {
            debug = c.debug;
            enable_screenshot = c.enable_screenshot;
            enable_input = c.enable_input;
          })
          d.debug)
    ∙ apply_next _ _ _ _ (
        apply_screenshot
          (record d { enable_screenshot = c.enable_screenshot; enable_input = c.enable_input })
          d.enable_screenshot)
    ∙ apply_next _ _ _ _ (apply_input (record d { enable_input = c.enable_input }) d.enable_input)
    ∙ apply_next _ _ _ _ (apply_close d)
    ∙ unfold apply_lines in refl

load-read :
    (file : Bytes) (c d : Config) (writable : Bool) (seeds : Seeds)
    → apply_lines c (fgets_lines 256 file) ≡ d
    → is_nil d.api_token ≡ false
    → load (some file) writable seeds c ≡ record { config = d; saved = none; result = true }
unfolding load
load-read file c d writable seeds e h = rw (e, h)

is_nil-false : (t : Bytes) → t ≢ [] → is_nil t ≡ false
is_nil-false [] h = absurd (h refl)
is_nil-false (x ∷ t) h = refl

-- `load` of the text that `save` wrote gives back every setting, and writes nothing: for a token of
-- 1 to 127 bytes with no quote, newline or NUL, and numbers in range.
pub load-save :
    (c d : Config) (writable : Bool) (seeds : Seeds)
    → IsStorable d
    → load (save true d).written writable seeds c
      ≡ record { config = d; saved = none; result = true }
unfolding save
load-save c d writable seeds s =
    load-read (settings_text d) c d writable seeds
      (unfold settings_text in
        (ap (apply_lines c) (fgets_lines-unlines (settings_lines d) (Fits-settings_lines d s))
          ∙ apply_lines-settings_lines c d s))
      (is_nil-false d.api_token s.token.ne_nil)
