-- ===== src/Core/Reports/Items.antt =====
-- The list of GET /titles as its loops build it.
use nxremote_api.Base.{
  ℕ, ◌+◌, ◌*◌, length-take, ◌≤◌, ◌==◌, Bool, true, false, ◌||◌, Option, none, some, List, [], ◌∷◌,
  ◌++◌, length, length-append, ltb, if◌then◌else◌, Bool-cases, inl, inr, ◌⊎◌, ◌≡◌, ◌≢◌, refl, All,
  ◌<◌, ◌^◌, arith, ltb→le, ltb→lt,
}
use nxremote_api.Base.Text.{Bytes, codes}
use nxremote_api.CString.Search.{c_str}
use nxremote_api.CString.Format.{snprintf, hex}
use nxremote_api.Core.Reports.{Titles, is_seen, title_item, add_title, remember}

-- The titles of a list, the newest first, and the text that lists them.
abbrev is_nil : List (ℕ × Bytes) → Bool
is_nil [] = true
is_nil (x ∷ xs) = false

abbrev pub listing : List (ℕ × Bytes) → Bytes
listing [] = codes "["
listing ((id, name) ∷ items) =
    (if is_nil items then listing items else listing items ++ codes ",") ++ title_item id name

short : (id : ℕ) (name : Bytes) → length (title_item id name) ≤ 1023
unfolding title_item snprintf
short id name = omega (
  arith,
  length-take 1023
      (codes "{\"title_id\": \"0x" ++ hex 16 id ++ codes "\", \"name\": \"" ++ name ++ codes "\"}"),
)

-- An entry of the list takes at most 1023 bytes, its comma one.
pub length-listing : (items : List (ℕ × Bytes)) → length (listing items) ≤ 1 + 1024 * length items
length-listing [] = omega arith
length-listing ((id, name) ∷ items) =
    let comma = length-append (listing items) (codes ",") in
    let older = length-listing items in
    elim (Bool-cases (is_nil items)) [
      | inl nil ↦
          rw nil (
            omega (arith, older, length-append (listing items) (title_item id name), short id name))
      | inr more ↦ rw more (
          omega (
            arith,
            older,
            comma,
            length-append (listing items ++ codes ",") (title_item id name),
            short id name,
          ))
    ]

abbrev pub ids : List (ℕ × Bytes) → List ℕ
ids [] = []
ids ((id, name) ∷ items) = id ∷ ids items

-- No id is among those behind it.
abbrev pub IsDistinct : List ℕ → Type 0
IsDistinct [] = Unit
IsDistinct (id ∷ rest) = All (λ other. other ≢ id) rest × IsDistinct rest

unseen-others :
    (id : ℕ) (others : List ℕ) → is_seen id others ≡ false → All (λ other. other ≢ id) others
unfolding is_seen
unseen-others id [] unseen = tt
unseen-others id (x ∷ xs) unseen =
    ((λ e. ground (arith, e, unseen)), unseen-others id xs (ground (arith, unseen)))

-- An id as `u64` holds it.
abbrev pub IsU64 : ℕ → Type 0
IsU64 id = id < 2 ^ 64

-- What the loops keep of the titles that are listed: the memory of ids is full, or it holds them all
-- and none is listed twice.
abbrev Covers : List ℕ → List (ℕ × Bytes) → Type 0
Covers seen items = (id : ℕ) → is_seen id seen ≡ false → is_seen id (ids items) ≡ false

abbrev pub Known : List ℕ → List (ℕ × Bytes) → Type 0
Known seen items = (length seen ≡ 128) ⊎ (IsDistinct (ids items) × Covers seen items)

pub record Lists (t : Titles) (items : List (ℕ × Bytes)) : Type 0 where
  pub text : t.json_out ≡ listing items
  pub first : t.first ≡ is_nil items
  pub few : length t.seen_ids ≤ 128
  pub known : Known t.seen_ids items
  pub small : All IsU64 (ids items)

pub record IsListed (t : Titles) : Type 0 where
  pub items : List (ℕ × Bytes)
  pub lists : Lists t items

is_seen-append :
    (id : ℕ) (a : List ℕ) (b : ℕ) → is_seen id (a ++ b ∷ []) ≡ (is_seen id a || b == id)
unfolding is_seen
is_seen-append id [] b = ground arith
is_seen-append id (x ∷ a) b = ground (arith, is_seen-append id a b)

-- An id that is remembered.
Covers-remember :
    (id : ℕ) (seen : List ℕ) (items : List (ℕ × Bytes))
    → Covers seen items
    → Covers (seen ++ id ∷ []) items
Covers-remember id seen items covers x unseen =
    covers x (ground (arith, is_seen-append x seen id, unseen))

-- A title that is listed once its id is remembered.
Covers-list :
    (id : ℕ) (name : Bytes) (seen : List ℕ) (items : List (ℕ × Bytes))
    → Covers seen items
    → Covers (seen ++ id ∷ []) ((id, name) ∷ items)
unfolding is_seen
Covers-list id name seen items covers x unseen =
    let older = covers x (ground (arith, is_seen-append x seen id, unseen)) in
    ground (arith, is_seen-append x seen id, unseen, older)

with_room :
    (seen : List ℕ) (items : List (ℕ × Bytes))
    → Known seen items
    → ltb (length seen) 128 ≡ true
    → IsDistinct (ids items) × Covers seen items
with_room seen items (inl full) room = absurd (ground (arith, full, room))
with_room seen items (inr known) room = known

pub remember-Lists :
    (id : ℕ) (t : Titles) (items : List (ℕ × Bytes)) → Lists t items → Lists (remember id t) items
remember-Lists id t items l = elim (Bool-cases (ltb (length t.seen_ids) 128)) [
  | inr full ↦ rw full l
  | inl room ↦
      let size = length-append t.seen_ids (id ∷ []) in
      rw room (record {
        text = l.text;
        first = l.first;
        few = omega (arith, size, ltb→lt (length t.seen_ids) 128 room);
        known =
            let (apart, covers) = with_room t.seen_ids items l.known room in
            inr (apart, Covers-remember id t.seen_ids items covers);
        small = l.small;
      })
]

-- What a title is called in the list.
abbrev label : Option Bytes → Bytes
label none = []
label (some name) = snprintf 513 (c_str name)

-- A title whose id was not remembered before.
list-Lists :
    (id : ℕ) (name : Option Bytes) (t : Titles) (items : List (ℕ × Bytes))
    → IsU64 id
    → is_seen id t.seen_ids ≡ false
    → Lists t items
    → Lists (add_title id (some name) (remember id t)) ((id, label name) ∷ items)
unfolding add_title
list-Lists id name t items small new l = elim (Bool-cases (ltb (length t.seen_ids) 128)) [
  | inr full ↦
      rw (full, l.text, l.first)
        (record {
          text = refl;
          first = refl;
          few = l.few;
          known = inl (omega (arith, l.few, ltb→le (length t.seen_ids) 128 full));
          small = (small, l.small);
        })
  | inl room ↦
      let size = length-append t.seen_ids (id ∷ []) in
      let (apart, covers) = with_room t.seen_ids items l.known room in
      rw (room, l.text, l.first)
        (record {
          text = refl;
          first = refl;
          few = omega (arith, size, ltb→lt (length t.seen_ids) 128 room);
          known = inr (
            (unseen-others id (ids items) (covers id new), apart),
            Covers-list id (label name) t.seen_ids items covers,
          );
          small = (small, l.small);
        })
]

pub add_title-IsListed :
    (id : ℕ) (control : Option (Option Bytes)) (t : Titles)
    → IsU64 id
    → is_seen id t.seen_ids ≡ false
    → IsListed t
    → IsListed (add_title id control (remember id t))
unfolding add_title
add_title-IsListed id none t small new h = record {
  items = h.items;
  lists = remember-Lists id t h.items h.lists;
}
add_title-IsListed id (some name) t small new h = record {
  items = (id, label name) ∷ h.items;
  lists = list-Lists id name t h.items small new h.lists;
}

abbrev pub start : Titles
start = record { json_out = codes "["; first = true; seen_ids = [] }

pub start-IsListed : IsListed start
unfolding is_seen
start-IsListed = record {
  items = [];
  lists = record {
    text = refl;
    first = refl;
    few = omega arith;
    known = inr (tt, λ id new. refl);
    small = tt;
  };
}
