-- ===== src/ByteSearch.antt =====
-- firmware/common/ByteSearch.cpp: a search in a buffer that holds no NUL for sure.
use nxremote_api.Base.{
  ℕ, zero, suc, ◌+◌, ◌-◌, ◌≤◌, ◌<◌, ◌≡◌, refl, ap, ◌∙◌, ◌↔◌, Bool, true, false, Option, none, some,
  [], ◌∷◌, ◌++◌, ltb, ◌==◌, if◌then◌else◌, length, length-append, Bool-cases, le→ltb, inl, inr,
  arith,
}
use native.Mathlib.Decide.{dec_lt}
use nxremote_api.Base.Text.{Bytes}
use nxremote_api.CString.Search.{starts_with, starts_with-split, Occurs, occurs_later}

-- `memcmp(at, needle, needle_len) == 0`. The first argument is what the buffer holds from the
-- pointer on, and `none` is a read past its end.
memcmp_equal : Bytes → Bytes → Option Bool
memcmp_equal at needle =
    if ltb (length at) (length needle) then none else some (starts_with needle at)

abbrev tail : Bytes → Bytes
tail [] = []
tail (x ∷ xs) = xs

-- The loop, with the rounds left and the buffer from `haystack + i` on.
search : ℕ → Bytes → Bytes → Option Bool
search zero at needle = some false
search (suc rounds) at needle = elim (memcmp_equal at needle) [
  | none ↦ none
  | some true ↦ some true
  | some false ↦ search rounds (tail at) needle
]

-- `ByteSearch::Contains`.
unfoldable pub contains : Bytes → Bytes → Option Bool
unfolding search memcmp_equal
contains haystack needle =
    if length needle == 0
    then some true
    else if ltb (length haystack) (length needle)
    then some false
    else search (length haystack - length needle + 1) haystack needle

-- What the loop answers, when its rounds are those that keep the read inside the buffer.
record Answers (at needle : Bytes) (out : Option Bool) : Type 0 where
  answer : Bool
  returns : out ≡ some answer
  found : answer ≡ true → Occurs needle at
  missed : answer ≡ false → ¬ Occurs needle at

length-Occurs : (needle s : Bytes) → Occurs needle s → length needle ≤ length s
length-Occurs needle s o = omega (
  arith,
  ap length o.splits,
  length-append o.before (needle ++ o.after),
  length-append needle o.after,
)

memcmp_in_range :
    (at needle : Bytes)
    → length needle ≤ length at
    → memcmp_equal at needle ≡ some (starts_with needle at)
unfolding memcmp_equal
memcmp_in_range at needle h = rw (le→ltb (length at) (length needle) h)

search_hit :
    (rounds : ℕ) (at needle : Bytes)
    → length needle ≤ length at
    → starts_with needle at ≡ true
    → search (suc rounds) at needle ≡ some true
unfolding search
search_hit rounds at needle h e = rw (memcmp_in_range at needle h ∙ ap some e, search)

search_miss :
    (rounds : ℕ) (at needle : Bytes)
    → length needle ≤ length at
    → starts_with needle at ≡ false
    → search (suc rounds) at needle ≡ search rounds (tail at) needle
unfolding search
search_miss rounds at needle h e = rw (memcmp_in_range at needle h ∙ ap some e, search)

starts_with-nil : (needle : Bytes) → length needle ≤ 0 → starts_with needle [] ≡ true
unfolding starts_with
starts_with-nil [] h = refl
starts_with-nil (c ∷ needle) h = absurd (omega arith)

search-Answers :
    (rounds : ℕ) (at needle : Bytes)
    → rounds + length needle ≡ length at + 1
    → Answers at needle (search rounds at needle)
search-Answers zero at needle h = record {
  answer = false;
  returns = unfold search in refl;
  found = λ e. absurd (cc);
  missed = λ _ o. omega (arith, length-Occurs needle at o);
}
search-Answers (suc rounds) [] needle h = record {
  answer = true;
  returns = search_hit rounds [] needle (omega arith) (starts_with-nil needle (omega arith));
  found = λ _.
      let (r, e) = starts_with-split needle [] (starts_with-nil needle (omega arith)) in
      record { before = []; after = r; splits = e };
  missed = λ e. absurd (cc);
}
search-Answers (suc rounds) (x ∷ at) needle h = elim (Bool-cases (starts_with needle (x ∷ at))) [
  | inl hit ↦ record {
    answer = true;
    returns = search_hit rounds (x ∷ at) needle (omega arith) hit;
    found = λ _.
        let (r, e) = starts_with-split needle (x ∷ at) hit in
        record { before = []; after = r; splits = e };
    missed = λ e. absurd (cc);
  }
  | inr miss ↦
      let rest = search-Answers rounds at needle (omega arith) in
      record {
        answer = rest.answer;
        returns = search_miss rounds (x ∷ at) needle (omega arith) miss ∙ rest.returns;
        found = λ e.
            let o = rest.found e in
            record { before = x ∷ o.before; after = o.after; splits = ap (◌∷◌ x) o.splits };
        missed = λ e o.
            let (a, _, later) = occurs_later x at needle o.before o.after miss o.splits in
            rest.missed e (record { before = a; after = o.after; splits = later });
      }
]

Occurs-nil : (needle s : Bytes) → length needle ≤ 0 → Occurs needle s
Occurs-nil [] s h = record { before = []; after = s; splits = refl }
Occurs-nil (c ∷ needle) s h = absurd (omega arith)

contains-empty : (s needle : Bytes) → length needle ≤ 0 → contains s needle ≡ some true
unfolding contains
contains-empty s needle h = ground arith

contains-short :
    (s needle : Bytes)
    → 0 < length needle
    → length s < length needle
    → contains s needle ≡ some false
unfolding contains
contains-short s needle pos short = ground arith

contains-search :
    (s needle : Bytes)
    → 0 < length needle
    → length needle ≤ length s
    → contains s needle ≡ search (length s - length needle + 1) s needle
unfolding contains
contains-search s needle pos fits = ground arith

-- `Contains` answers without a read past the end of the datagram, and says `true` exactly when the
-- needle stands somewhere in it, whatever the bytes are.
pub contains_lem :
    (haystack needle : Bytes)
    → (answer : Bool) × (contains haystack needle ≡ some answer)
      × ((answer ≡ true) ↔ Occurs needle haystack)
contains_lem s needle = elim (dec_lt 0 (length needle)) [
  | no empty ↦ (
    true,
    contains-empty s needle (omega arith),
    (λ _. Occurs-nil needle s (omega arith), λ _. refl),
  )
  | yes pos ↦ elim (dec_lt (length s) (length needle)) [
    | yes short ↦ (
      false,
      contains-short s needle pos short,
      (λ e. absurd (cc), λ o. absurd (omega (arith, length-Occurs needle s o))),
    )
    | no fits ↦
        let a = search-Answers (length s - length needle + 1) s needle (omega arith) in
        (
          a.answer,
          contains-search s needle pos (omega arith) ∙ a.returns,
          (a.found, λ o. answered a.answer (λ e. a.missed e o)),
        )
  ]
]
  where
    answered : (b : Bool) → ¬ (b ≡ false) → b ≡ true
    answered true h = refl
    answered false h = absurd (h refl)
