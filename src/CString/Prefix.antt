-- ===== src/CString/Prefix.antt =====
-- `strstr` on a prefix of a text, as a receive buffer holds it between two segments.
use nxremote_api.Base.{
  ℕ, zero, suc, ◌+◌, ◌-◌, ◌≤◌, ◌<◌, ◌≡◌, refl, sym, ap, ◌∙◌, true, false, none, some, [], ◌∷◌, ◌++◌,
  take, length, length-append, length-take, Bool-cases, Option-cases, inl, inr, arith,
}
use nxremote_api.Base.Text.{Bytes}
use nxremote_api.CString.Search.{
  strstr, starts_with, starts_with-append, strstr-here, strstr-later, strstr-IsFirst,
}

-- The needle shows in a prefix as soon as the prefix reaches its end.
starts_with-take :
    (needle s : Bytes) (k : ℕ)
    → starts_with needle s ≡ true
    → length needle ≤ k
    → starts_with needle (take k s) ≡ true
unfolding starts_with
starts_with-take [] s k h fits = refl
starts_with-take (c ∷ needle) [] k h fits = cc
starts_with-take (c ∷ needle) (x ∷ s) zero h fits = absurd (omega arith)
starts_with-take (c ∷ needle) (x ∷ s) (suc k) h fits = ground (arith, starts_with-take needle s k)

starts_with-take_ne :
    (needle s : Bytes) (k : ℕ)
    → starts_with needle s ≡ false
    → starts_with needle (take k s) ≡ false
unfolding starts_with
starts_with-take_ne [] s k h = cc
starts_with-take_ne (c ∷ needle) [] zero h = refl
starts_with-take_ne (c ∷ needle) [] (suc k) h = refl
starts_with-take_ne (c ∷ needle) (x ∷ s) zero h = refl
starts_with-take_ne (c ∷ needle) (x ∷ s) (suc k) h = ground (arith, starts_with-take_ne needle s k)

strstr_front : (r needle : Bytes) → strstr r needle ≡ some r → starts_with needle r ≡ true
strstr_front r needle e =
    let f = strstr-IsFirst r needle e in rw f.starts (starts_with-append needle f.after)

strstr_short : (s needle : Bytes) → length s < length needle → strstr s needle ≡ none
strstr_short s needle h = elim (Option-cases (strstr s needle)) [
  | inl e ↦ e
  | inr (r, e) ↦
      let f = strstr-IsFirst s needle e in
      absurd (
        omega (
          arith,
          ap length f.splits,
          ap length f.starts,
          length-append f.before r,
          length-append needle f.after,
        ))
]

-- The first place of a needle is not the front, so the search goes on behind the front.
strstr_behind :
    (x : ℕ) (before r needle : Bytes)
    → strstr (x ∷ before ++ r) needle ≡ some r
    → (starts_with needle (x ∷ (before ++ r)) ≡ false) × (strstr (before ++ r) needle ≡ some r)
strstr_behind x before r needle e = elim (Bool-cases (starts_with needle (x ∷ (before ++ r)))) [
  | inl h ↦
      let same : x ∷ (before ++ r) ≡ r = cc (strstr-here (x ∷ (before ++ r)) needle h) in
      absurd (omega (arith, ap length same, length-append before r))
  | inr h ↦ (h, sym (strstr-later x (before ++ r) needle h) ∙ e)
]

-- A prefix that holds the whole needle: the same place is found.
pub strstr-take :
    (before r needle : Bytes) (k : ℕ)
    → strstr (before ++ r) needle ≡ some r
    → length before + length needle ≤ k
    → strstr (take k (before ++ r)) needle ≡ some (take (k - length before) r)
strstr-take [] r needle k e fits =
    strstr-here (take k r) needle
      (starts_with-take needle r k (strstr_front r needle e) (omega arith))
    ∙ ap (λ j. some (take j r)) (omega arith)
strstr-take (x ∷ before) r needle zero e fits = absurd (omega arith)
strstr-take (x ∷ before) r needle (suc k) e fits =
    let (miss, later) = strstr_behind x before r needle e in
    strstr-later x (take k (before ++ r)) needle (starts_with-take_ne needle _ (suc k) miss)
    ∙ strstr-take before r needle k later (omega arith)
    ∙ ap (λ j. some (take j r)) (omega arith)

-- A shorter prefix: nothing is found yet.
pub strstr-take-none :
    (before r needle : Bytes) (k : ℕ)
    → strstr (before ++ r) needle ≡ some r
    → k < length before + length needle
    → 0 < length needle
    → strstr (take k (before ++ r)) needle ≡ none
strstr-take-none [] r needle k e short pos =
    strstr_short (take k r) needle (omega (arith, length-take k r))
strstr-take-none (x ∷ before) r needle zero e short pos = strstr_short [] needle pos
strstr-take-none (x ∷ before) r needle (suc k) e short pos =
    let (miss, later) = strstr_behind x before r needle e in
    strstr-later x (take k (before ++ r)) needle (starts_with-take_ne needle _ (suc k) miss)
    ∙ strstr-take-none before r needle k later (omega arith) pos
