-- ===== src/Config/Token.antt =====
-- Every way through `load` ends with a token that can be asked for.
use nxremote_api.Base.{
  ℕ, zero, suc, All, ◌%◌, ◌≤◌, ◌≡◌, refl, ◌≢◌, Bool, false, Option, none, some, List, [], ◌∷◌, ◌++◌,
  take, length, length-take, length-append, get_or, Bool-cases, Option-cases, inl, inr, ◌⊎◌, arith,
}
use nxremote_api.Base.Text.{Bytes}
use nxremote_api.CString.Search.{c_str}
use nxremote_api.CString.Lines.{fgets_lines}
use nxremote_api.CString.Format.{snprintf, decimal, length-decimal}
use nxremote_api.Config.{
  Config, Seeds, save, load, apply_line, apply_lines, quoted_value, generate_passphrase,
  generate_default_config, is_nil, adjectives, nouns,
}

take-ne-nil : (a rest : Bytes) (x : ℕ) → take 127 (a ++ x ∷ rest) ≢ []
take-ne-nil [] rest x e = cc
take-ne-nil (y ∷ a) rest x e = cc

length-get_or :
    (words : List Bytes) (i n : ℕ) → All (λ w. length w ≤ n) words → length (get_or words i []) ≤ n
length-get_or [] i n h = omega arith
length-get_or (w ∷ words) zero n h = h.0
length-get_or (w ∷ words) (suc i) n h = length-get_or words i n h.1

-- A passphrase is two words and a number; it fits its buffer with room to spare.
pub generate_passphrase_bounds :
    (s : Seeds) → (generate_passphrase 128 s ≢ []) × (length (generate_passphrase 128 s) ≤ 15)
unfolding generate_passphrase snprintf
generate_passphrase_bounds s =
    let adjective = get_or adjectives (s.adjective % 8) [] in
    let noun = get_or nouns (s.noun % 8) [] in
    let number = decimal (s.tick % 100) in
    let text = adjective ++ (b'-' ∷ (noun ++ (b'-' ∷ number))) in
    (
      take-ne-nil adjective (noun ++ (b'-' ∷ number)) b'-',
      omega (
        arith,
        length-take 127 text,
        length-append adjective (b'-' ∷ (noun ++ (b'-' ∷ number))),
        length-append noun (b'-' ∷ number),
        length-get_or adjectives (s.adjective % 8) 5 (omega arith),
        length-get_or nouns (s.noun % 8) 6 (omega arith),
        length-decimal 1 (s.tick % 100) (omega arith),
      ),
    )

length-quoted_value : (line : Bytes) {t : Bytes} → quoted_value line ≡ some t → length t ≤ 127
unfolding quoted_value
length-quoted_value line e = grind (arith, length-take)

apply_line-fits :
    (c : Config) (line : Bytes)
    → length c.api_token ≤ 127
    → length (apply_line c line).api_token ≤ 127
unfolding apply_line
apply_line-fits c line h = elim (Option-cases (quoted_value line)) [
  | inl e ↦ ground arith
  | inr (t, e) ↦ ground (arith, length-quoted_value line e)
]

apply_lines-fits :
    (lines : List Bytes) (c : Config)
    → length c.api_token ≤ 127
    → length (apply_lines c lines).api_token ≤ 127
unfolding apply_lines
apply_lines-fits [] c h = h
apply_lines-fits (line ∷ lines) c h =
    apply_lines-fits lines (apply_line c (c_str line)) (apply_line-fits c (c_str line) h)

is_nil-false : (t : Bytes) → is_nil t ≡ false → t ≢ []
is_nil-false t h e = cc

-- After `load` the token is not empty and fits its array, whether the file is missing, has no
-- token, or has one of any length, if the token fitted before; and if it saves, it saves the settings
-- that are in force then.
pub load-token :
    (file : Option Bytes) (writable : Bool) (s : Seeds) (c : Config)
    → length c.api_token ≤ 127
    → let out = load file writable s c in
      (out.config.api_token ≢ [])
      × (length out.config.api_token ≤ 127)
      × ((out.saved ≡ none) ⊎ (out.saved ≡ some (save writable out.config)))
unfolding load generate_default_config
load-token none writable s c h =
    let (ne, short) = generate_passphrase_bounds s in (ne, omega arith, inr refl)
load-token (some file) writable s c h =
    let d = apply_lines c (fgets_lines 256 file) in
    let (ne, short) = generate_passphrase_bounds s in
    elim (Bool-cases (is_nil d.api_token)) [
      | inl empty ↦ rw empty (ne, omega arith, inr refl)
      | inr present ↦
          rw present (
            is_nil-false d.api_token present,
            apply_lines-fits (fgets_lines 256 file) c h,
            inl refl,
          )
    ]
