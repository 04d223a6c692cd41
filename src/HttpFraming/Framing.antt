-- ===== src/HttpFraming/Framing.antt =====
-- A request that arrives in segments: what `HasCompleteBody` says of each prefix of it.
use nxremote_api.Base.{
  ℕ, ◌+◌, ◌-◌, ◌≤◌, ◌^◌, ◌≡◌, refl, sym, ap, ◌∙◌, false, none, some, [], ◌∷◌, ◌++◌, append_assoc,
  take, drop, length, length-append, length-take, take-append_ge, leb, lt→leb, arith,
}
use nxremote_api.Base.Int.{pos, sub_ℕ, leb_ℤ}
use nxremote_api.Base.Text.{Bytes}
use nxremote_api.CString.Search.{strstr}
use nxremote_api.CString.Number.{strtol}
use nxremote_api.CString.Format.{decimal, strtol-decimal}
use nxremote_api.CString.Prefix.{strstr-take, strstr-take-none}
use nxremote_api.HttpFraming.{has_complete_body, length_header, blank_line, content_length}
use native.Mathlib.Decide.{dec_lt}

-- The header of a body of `n` bytes, from its name up to the end of its line.
abbrev pub length_line : ℕ → Bytes
length_line n = content_length ++ (b' ' ∷ (decimal n ++ 13 ∷ []))

-- A request of which `head` is what stands before the blank line, `before` what stands before the
-- header of its length, `n` that length and `more` all that follows the header's carriage return.
pub record IsFramed (head body before more : Bytes) (n : ℕ) : Type 0 where
  pub header : head ++ (blank_line ++ body) ≡ before ++ (length_line n ++ more)
  pub first_blank : strstr (head ++ (blank_line ++ body)) blank_line ≡ some (blank_line ++ body)
  pub first_length :
      strstr (before ++ (length_line n ++ more)) content_length ≡ some (length_line n ++ more)
  pub inside : length before + length (length_line n) ≤ length head + 1
  pub fits : n ≤ 2 ^ 63 - 1

module _ (buffer : Bytes) (k : ℕ) where
  complete-none : strstr buffer blank_line ≡ none → has_complete_body buffer k ≡ false
  unfolding has_complete_body
  complete-none e = rw (e, has_complete_body)

  length_header-first :
      {h : Bytes} → strstr buffer content_length ≡ some h → length_header buffer ≡ some h
  unfolding length_header
  length_header-first e = rw (e, length_header)

  complete-length :
      {r h : Bytes}
      → strstr buffer blank_line ≡ some r
      → length_header buffer ≡ some h
      → has_complete_body buffer k
        ≡ leb_ℤ (strtol (drop 15 h)) (sub_ℕ k (length buffer - length r + 4))
  unfolding has_complete_body
  complete-length e f = rw (e, f, has_complete_body)

strtol-length_line :
    (n : ℕ) (rest : Bytes) → n ≤ 2 ^ 63 - 1 → strtol (drop 15 (length_line n ++ rest)) ≡ pos n
strtol-length_line n rest h =
    ap (λ t. strtol (b' ' ∷ t)) (append_assoc (decimal n) (13 ∷ []) rest)
    ∙ strtol-decimal n 13 rest h refl

compare_length :
    (h n k : ℕ) {a b : ℕ}
    → a ≡ k
    → b ≡ k - h
    → h + 4 ≤ k
    → leb_ℤ (pos n) (sub_ℕ k (a - b + 4)) ≡ leb (h + 4 + n) k
compare_length h n k p q r = ground arith

module _ {head body before more : Bytes} {n : ℕ} (f : IsFramed head body before more n)
    (k : ℕ) where
  abbrev received : Bytes
  received = take k (head ++ (blank_line ++ body))

  abbrev body_received : Bytes
  body_received = take (k - length head) (blank_line ++ body)

  header_received :
      length head + 4 ≤ k
      → length_header received
        ≡ some (length_line n ++ take (k - length before - length (length_line n)) more)
  header_received h = length_header-first received k (
      ap (λ t. strstr (take k t) content_length) f.header
      ∙ strstr-take before (length_line n ++ more) content_length k f.first_length
          (omega (arith, f.inside))
      ∙ ap some (take-append_ge (length_line n) more (k - length before) (omega (arith, f.inside))))

  complete_late :
      length head + 4 ≤ k
      → k ≤ length (head ++ (blank_line ++ body))
      → has_complete_body received k ≡ leb (length head + 4 + n) k
  complete_late h whole =
      complete-length received k
        (strstr-take head (blank_line ++ body) blank_line k f.first_blank (omega arith))
        (header_received h)
      ∙ ap (λ a. leb_ℤ a (sub_ℕ k (length received - length body_received + 4)))
          (strtol-length_line n _ f.fits)
      ∙ compare_length (length head) n k
          (omega (arith, length-take k (head ++ (blank_line ++ body))))
          (omega (
            arith,
            length-take (k - length head) (blank_line ++ body),
            length-append head (blank_line ++ body),
          ))
          h

  -- `HasCompleteBody` says `true` of what has been received exactly when the blank line and the
  -- whole declared body have been received, wherever the request is cut.
  pub has_complete_body-prefix :
      k ≤ length (head ++ (blank_line ++ body))
      → has_complete_body (take k (head ++ (blank_line ++ body))) k ≡ leb (length head + 4 + n) k
  has_complete_body-prefix whole = elim (dec_lt k (length head + 4)) [
    | yes early ↦
        complete-none received k (
          strstr-take-none head (blank_line ++ body) blank_line k f.first_blank (omega arith)
            (omega arith))
        ∙ sym (lt→leb (length head + 4 + n) k (omega arith))
    | no late ↦ complete_late (omega arith) whole
  ]
