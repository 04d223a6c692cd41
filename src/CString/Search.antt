-- ===== src/CString/Search.antt =====
-- strstr, strchr, strncmp against a literal, and the string that a buffer holds.
use nxremote_api.Base.{
  ℕ, ◌≤◌, ◌≡◌, refl, ap, ◌↔◌, Bool, true, false, ◌&&◌, Option, none, some, [], ◌∷◌, ◌++◌, ◌==◌,
  if◌then◌else◌, length, arith, ◌∙◌, Bool-cases, Option-cases, inl, inr,
}
use nxremote_api.Base.Text.{Bytes}

-- The C string in a buffer: what stands before the first NUL.
unfoldable pub c_str : Bytes → Bytes
c_str [] = []
c_str (x ∷ xs) = if x == 0 then [] else x ∷ c_str xs

unfoldable pub starts_with : Bytes → Bytes → Bool
starts_with [] s = true
starts_with (x ∷ xs) [] = false
starts_with (x ∷ xs) (y ∷ ys) = x == y && starts_with xs ys

-- `strstr(s, needle)`.
unfoldable pub strstr : Bytes → Bytes → Option Bytes
strstr [] needle = if starts_with needle [] then some [] else none
strstr (x ∷ xs) needle = if starts_with needle (x ∷ xs) then some (x ∷ xs) else strstr xs needle

-- `strchr(s, c)` for a character other than NUL.
unfoldable pub strchr : Bytes → ℕ → Option Bytes
strchr [] c = none
strchr (x ∷ xs) c = if x == c then some (x ∷ xs) else strchr xs c

abbrev pub is_some {ℓ} : {A : Type ℓ} → Option A → Bool
is_some none = false
is_some (some a) = true

-- `strstr(s, needle) != NULL`.
unfoldable pub contains : Bytes → Bytes → Bool
unfolding strstr
contains s needle = is_some (strstr s needle)

-- `needle` stands somewhere in `s`.
pub record Occurs (needle s : Bytes) : Type 0 where
  pub before : Bytes
  pub after : Bytes
  pub splits : s ≡ before ++ (needle ++ after)

pub starts_with-append : (p s : Bytes) → starts_with p (p ++ s) ≡ true
unfolding starts_with
starts_with-append [] s = refl
starts_with-append (x ∷ p) s = ground (arith, starts_with-append p s)

pub starts_with-split : (p s : Bytes) → starts_with p s ≡ true → (r : Bytes) × (s ≡ p ++ r)
unfolding starts_with
starts_with-split [] s h = (s, refl)
starts_with-split (x ∷ p) [] h = cc
starts_with-split (x ∷ p) (y ∷ s) h =
    let (r, e) = starts_with-split p s (ground arith) in (r, ground arith)

-- A longer text with the same start.
pub starts_with_mono : (p s t : Bytes) → starts_with p s ≡ true → starts_with p (s ++ t) ≡ true
unfolding starts_with
starts_with_mono [] s t h = refl
starts_with_mono (x ∷ p) [] t h = cc
starts_with_mono (x ∷ p) (y ∷ s) t h = ground (arith, starts_with_mono p s t)

pub strstr-here : (s needle : Bytes) → starts_with needle s ≡ true → strstr s needle ≡ some s
unfolding strstr
strstr-here [] needle h = rw h
strstr-here (x ∷ xs) needle h = rw h

strstr-nil : (needle : Bytes) → starts_with needle [] ≡ false → strstr [] needle ≡ none
unfolding strstr
strstr-nil needle h = rw h

pub strstr-later :
    (x : ℕ) (xs needle : Bytes)
    → starts_with needle (x ∷ xs) ≡ false
    → strstr (x ∷ xs) needle ≡ strstr xs needle
unfolding strstr
strstr-later x xs needle h = rw h

-- What `strstr` points to: the needle, at its first place in the text.
pub record IsFirst (s needle r : Bytes) : Type 0 where
  pub before : Bytes
  pub after : Bytes
  pub splits : s ≡ before ++ r
  pub starts : r ≡ needle ++ after
  pub first : (a b : Bytes) → s ≡ a ++ (needle ++ b) → length before ≤ length a

-- A needle that does not stand at the front of `x ∷ xs` stands in `xs`.
pub occurs_later :
    (x : ℕ) (xs needle a b : Bytes)
    → starts_with needle (x ∷ xs) ≡ false
    → x ∷ xs ≡ a ++ (needle ++ b)
    → (a' : Bytes) × (a ≡ x ∷ a') × (xs ≡ a' ++ (needle ++ b))
occurs_later x xs needle [] b h e = cc (starts_with-append needle b)
occurs_later x xs needle (y ∷ a) b h e = (a, ground arith, ground arith)

pub strstr-IsFirst : (s needle : Bytes) {r : Bytes} → strstr s needle ≡ some r → IsFirst s needle r
strstr-IsFirst [] needle {r} e = elim (Bool-cases (starts_with needle [])) [
  | inl h ↦
      let (t, split) = starts_with-split needle [] h in
      record {
        before = [];
        after = t;
        splits = cc (strstr-here [] needle h);
        starts = cc (strstr-here [] needle h);
        first = λ a b _. omega arith;
      }
  | inr h ↦ cc (strstr-nil needle h)
]
strstr-IsFirst (x ∷ xs) needle {r} e = elim (Bool-cases (starts_with needle (x ∷ xs))) [
  | inl h ↦
      let (t, split) = starts_with-split needle (x ∷ xs) h in
      record {
        before = [];
        after = t;
        splits = cc (strstr-here (x ∷ xs) needle h);
        starts = cc (strstr-here (x ∷ xs) needle h);
        first = λ a b _. omega arith;
      }
  | inr h ↦
      let f = strstr-IsFirst xs needle (cc (strstr-later x xs needle h)) in
      record {
        before = x ∷ f.before;
        after = f.after;
        splits = ap (◌∷◌ x) f.splits;
        starts = f.starts;
        first = λ a b s.
            let (a', here, later) = occurs_later x xs needle a b h s in
            omega (arith, f.first a' b later, ap length here);
      }
]

occurs_in_nil : (needle a b : Bytes) → [] ≡ a ++ (needle ++ b) → starts_with needle [] ≡ true
unfolding starts_with
occurs_in_nil [] a b e = refl
occurs_in_nil (c ∷ needle) [] b e = cc
occurs_in_nil (c ∷ needle) (y ∷ a) b e = cc

pub strstr_of_Occurs :
    (s needle : Bytes) → Occurs needle s → (r : Bytes) × (strstr s needle ≡ some r)
strstr_of_Occurs [] needle o = elim (Bool-cases (starts_with needle [])) [
  | inl h ↦ ([], strstr-here [] needle h)
  | inr h ↦ cc (occurs_in_nil needle o.before o.after o.splits)
]
strstr_of_Occurs (x ∷ xs) needle o = elim (Bool-cases (starts_with needle (x ∷ xs))) [
  | inl h ↦ (x ∷ xs, strstr-here (x ∷ xs) needle h)
  | inr h ↦
      let (a, _, later) = occurs_later x xs needle o.before o.after h o.splits in
      let (r, e) =
        strstr_of_Occurs xs needle (record { before = a; after = o.after; splits = later }) in
      (r, strstr-later x xs needle h ∙ e)
]

-- `strstr` finds the needle exactly when it stands somewhere in the text.
pub contains_iff : (s needle : Bytes) → (contains s needle ≡ true) ↔ Occurs needle s
unfolding contains
contains_iff s needle = (found, λ o. let (r, e) = strstr_of_Occurs s needle o in rw e)
  where
    found : is_some (strstr s needle) ≡ true → Occurs needle s
    found h = elim (Option-cases (strstr s needle)) [
      | inl e ↦ cc
      | inr (r, e) ↦
          let f = strstr-IsFirst s needle e in
          record {
            before = f.before;
            after = f.after;
            splits = f.splits ∙ ap (◌++◌ f.before) f.starts;
          }
    ]
