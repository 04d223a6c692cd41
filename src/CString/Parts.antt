-- ===== src/CString/Parts.antt =====
-- Searching through a text that is put together from parts.
use nxremote_api.Base.{
  ℕ, ◌≡◌, refl, sym, ap, ◌≢◌, true, false, some, [], ◌∷◌, ◌++◌, append_assoc, All, arith, ◌∙◌,
}
use nxremote_api.Base.Text.{Bytes}
use nxremote_api.CString.Search.{
  c_str, starts_with, strstr, strchr, contains, starts_with-append, strstr-here, strstr-later,
  contains_iff,
}

-- No byte of the text is `c`.
abbrev pub Lacks : ℕ → Bytes → Type 0
Lacks c = All (λ x. x ≢ c)

starts_with-ne :
    (c : ℕ) (needle : Bytes) (x : ℕ) (s : Bytes) → x ≢ c → starts_with (c ∷ needle) (x ∷ s) ≡ false
unfolding starts_with
starts_with-ne c needle x s h = ground arith

-- A needle is not found where its first byte is missing.
pub strstr-append :
    (c : ℕ) (needle a b : Bytes) → Lacks c a → strstr (a ++ b) (c ∷ needle) ≡ strstr b (c ∷ needle)
strstr-append c needle [] b h = refl
strstr-append c needle (x ∷ a) b h =
    strstr-later x (a ++ b) (c ∷ needle) (starts_with-ne c needle x (a ++ b) h.0)
    ∙ strstr-append c needle a b h.1

pub strstr-append_self : (needle b : Bytes) → strstr (needle ++ b) needle ≡ some (needle ++ b)
strstr-append_self needle b = strstr-here (needle ++ b) needle (starts_with-append needle b)

pub strchr-append : (c : ℕ) (a b : Bytes) → Lacks c a → strchr (a ++ b) c ≡ strchr b c
unfolding strchr
strchr-append c [] b h = refl
strchr-append c (x ∷ a) b h = ground (arith, strchr-append c a b)

pub strchr_self : (c : ℕ) (b : Bytes) → strchr (c ∷ b) c ≡ some (c ∷ b)
unfolding strchr
strchr_self c b = ground arith

-- Text with no NUL is its own C string, and a NUL ends it.
pub c_str-append : (a b : Bytes) → Lacks 0 a → c_str (a ++ b) ≡ a ++ c_str b
unfolding c_str
c_str-append [] b h = refl
c_str-append (x ∷ a) b h = ground (arith, c_str-append a b)

pub c_str_self : (a : Bytes) → Lacks 0 a → c_str a ≡ a
unfolding c_str
c_str_self [] h = refl
c_str_self (x ∷ a) h = ground (arith, c_str_self a)

-- What stands in a part stands in the whole.
pub contains-append_left :
    (a b needle : Bytes) → contains b needle ≡ true → contains (a ++ b) needle ≡ true
contains-append_left a b needle h =
    let o = (contains_iff b needle).0 h in
    (contains_iff (a ++ b) needle).1 (record {
      before = a ++ o.before;
      after = o.after;
      splits = ap (◌++◌ a) o.splits ∙ sym (append_assoc a o.before _);
    })

pub contains-append_right :
    (a b needle : Bytes) → contains a needle ≡ true → contains (a ++ b) needle ≡ true
contains-append_right a b needle h =
    let o = (contains_iff a needle).0 h in
    (contains_iff (a ++ b) needle).1 (record {
      before = o.before;
      after = o.after ++ b;
      splits =
          ap (λ t. t ++ b) o.splits
          ∙ append_assoc o.before _ b
          ∙ ap (◌++◌ o.before) (append_assoc needle o.after b);
    })

pub contains_middle : (a needle b : Bytes) → contains (a ++ (needle ++ b)) needle ≡ true
contains_middle a needle b =
    (contains_iff _ needle).1 (record { before = a; after = b; splits = refl })

-- A text that begins with another is not changed at its front by what follows.
pub starts_with_head : (p a b : Bytes) → starts_with p (p ++ a ++ b) ≡ true
starts_with_head p a b = rw append_assoc (starts_with-append p (a ++ b))
