-- ===== src/Core/Reports/Listed.antt =====
-- GET /titles: what a client reads.
use nxremote_api.Base.{
  ℕ, ◌≤◌, ◌<◌, Bool, true, false, Option, none, some, List, [], ◌∷◌, ◌++◌, append-nil, All, ◌^◌,
  length, if◌then◌else◌, inl, inr, ◌⊎◌, ◌≡◌, refl, ap, ◌∙◌, arith,
}
use nxremote_api.Base.Text.{Bytes, codes}
use nxremote_api.Core.World.{Storage, Platform, Core, M, pure, ◌>>=◌, ◌>>◌, u64}
use nxremote_api.Core.Launch.{storages_to_try}
use nxremote_api.Core.Reports.{
  Titles, is_seen, title_of, titles_of, list_ids, list_titles, scan_storages, handle_titles,
}
use nxremote_api.Core.Waits.{Takes}
use nxremote_api.Core.Stream.{stream, Sends, Sends-pure, Sends-bind, Sends-asked, Sends-trace}
use nxremote_api.Core.Sized.{body_of, content_length, send_sized-content_length}
use nxremote_api.Core.Reports.Items.{
  listing, ids, IsDistinct, IsU64, IsListed, start, start-IsListed, remember-Lists,
  add_title-IsListed,
}

-- A call whose value lists its titles, and that sends nothing.
record Gives (m : M Titles) : Type 0 where
  run : (s : Core) → IsListed (m s).0
  quiet : Sends m []

Gives-pure : (t : Titles) → IsListed t → Gives (pure t)
unfolding pure
Gives-pure t h = record { run = λ s. h; quiet = Sends-pure t }

Gives-after :
    {A : Type 0} {m : M A} {f : A → M Titles}
    → Sends m []
    → ((a : A) → Gives (f a))
    → Gives (m >>= f)
unfolding ◌>>=◌
Gives-after {m = m} hm h = record {
  run = λ s. (h (m s).0).run (m s).1;
  quiet = Sends-bind hm λ a. (h a).quiet;
}

Gives-bind :
    {m : M Titles} {f : Titles → M Titles}
    → Gives m
    → ((t : Titles) → IsListed t → Gives (f t))
    → Gives (m >>= f)
unfolding ◌>>=◌
Gives-bind {m} {f} hm hf = record {
  run = λ s. (hf (m s).0 (hm.run s)).run (m s).1;
  quiet = record {
    run = λ s.
        (hf (m s).0 (hm.run s)).quiet.run (m s).1
        ∙ ap (λ t. t ++ []) (hm.quiet.run s)
        ∙ append-nil (stream s.events ++ []);
  };
}

Gives-seq : {m : M (Unit {0})} {k : M Titles} → Sends m [] → Gives k → Gives (m >> k)
unfolding ◌>>◌
Gives-seq hm h = Gives-after hm λ _. h

Gives-bool :
    (b : Bool) {m n : M Titles}
    → Gives m
    → (b ≡ false → Gives n)
    → Gives (elim b [ true ↦ m | false ↦ n ])
Gives-bool true hm hn = hm
Gives-bool false hm hn = hn refl

Gives-if : (b : Bool) {m n : M Titles} → Gives m → Gives n → Gives (if b then m else n)
Gives-if true hm hn = hm
Gives-if false hm hn = hn

Gives-option :
    {B : Type 0} (o : Option B) {n : M Titles} {f : B → M Titles}
    → Gives n
    → ((b : B) → Gives (f b))
    → Gives (elim o [ none ↦ n | some b ↦ f b ])
Gives-option none hn hf = hn
Gives-option (some b) hn hf = hf b

module _ (p : Platform) where
  Gives-title_of : (id : ℕ) (t : Titles) → IsU64 id → IsListed t → Gives (title_of p id t)
  unfolding title_of
  Gives-title_of id t small h = Gives-bool (is_seen id t.seen_ids) (Gives-pure t h) λ new.
      Gives-after (Sends-asked p _) λ allocated.
        Gives-bool allocated
          (Gives-after (Sends-asked p _)
            λ control. Gives-pure _ (add_title-IsListed id control t small new h))
          λ _.
            Gives-pure _ (record { items = h.items; lists = remember-Lists id t h.items h.lists })

  Gives-titles_of : (ids : List ℕ) (t : Titles) → IsListed t → Gives (titles_of p ids t)
  unfolding titles_of
  Gives-titles_of [] t h = Gives-pure t h
  Gives-titles_of (id ∷ rest) t h =
      Gives-bind (Gives-title_of (u64 id) t (omega arith) h) (Gives-titles_of rest)

  Gives-list_ids :
      (storage : Storage) (n : ℕ) (t : Titles) → IsListed t → Gives (list_ids p storage n t)
  unfolding list_ids
  Gives-list_ids storage n t h = Gives-after (Sends-asked p _) λ allocated.
      Gives-bool allocated
        (Gives-after (Sends-asked p _)
          λ keys. Gives-option keys (Gives-pure t h) λ ids. Gives-titles_of ids t h)
        (λ _. Gives-pure t h)

  Gives-list_titles :
      (storage : Storage) (t : Titles) → IsListed t → Gives (list_titles p storage t)
  unfolding list_titles
  Gives-list_titles storage t h =
      Gives-after (Sends-asked p _) λ r.
        Gives-seq (Sends-trace p _) (Gives-if _ (Gives-list_ids storage _ t h) (Gives-pure t h))

  Gives-scan :
      (storages : List Storage) (t : Titles) → IsListed t → Gives (scan_storages p storages t)
  unfolding scan_storages
  Gives-scan [] t h = Gives-pure t h
  Gives-scan (storage ∷ rest) t h = Gives-after (Sends-asked p _) λ rc_open.
      Gives-seq (Sends-trace p _)
        (Gives-bind (Gives-if _ (Gives-list_titles storage t h) (Gives-pure t h)) (Gives-scan rest))

  -- The variables of the loops when all storages are done.
  abbrev pub scanned : Core → Titles
  scanned s = (scan_storages p storages_to_try start s).0

  module _ (takes : Takes p) where
    -- GET /titles, whatever the databases of the storages hold: a client that takes at least a byte each
    -- time reads as the body of the response a list of titles in brackets, with a comma between any two,
    -- and the stated length is that of the body, if it has less than 10^19 bytes. The ids in the list
    -- are of 64 bits, and no two of them are the same, or the memory of ids is full, with 128 of them;
    -- it never holds more.
    pub handle_titles-IsDistinct :
        (s : Core)
        → length ((scanned s).json_out ++ codes "]") < 10 ^ 19
        → (items : List (ℕ × Bytes)) × (response : Bytes) × (stream (handle_titles p s).1.events
            ≡ stream s.events ++ response)
          × (body_of response ≡ some (listing items ++ codes "]"))
          × (content_length response ≡ some (length (listing items ++ codes "]")))
          × All IsU64 (ids items)
          × (length (scanned s).seen_ids ≤ 128)
          × ((length (scanned s).seen_ids ≡ 128) ⊎ IsDistinct (ids items))
    unfolding handle_titles ◌>>=◌
    handle_titles-IsDistinct s small =
        let scan = Gives-scan storages_to_try start start-IsListed in
        let h = scan.run s in
        let same : (scanned s).json_out ++ codes "]" ≡ listing h.items ++ codes "]" =
          ap (λ t. t ++ codes "]") h.lists.text in
        let (response, sends, body, stated) =
          send_sized-content_length p takes 256 ((scanned s).json_out ++ codes "]")
            (scan_storages p storages_to_try start s).1 (omega arith) small in
        (
          h.items,
          response,
          sends ∙ ap (λ t. t ++ response) (scan.quiet.run s ∙ append-nil (stream s.events)),
          body ∙ ap some same,
          stated ∙ ap (λ t. some (length t)) same,
          h.lists.small,
          h.lists.few,
          elim h.lists.known [ inl full ↦ inl full | inr known ↦ inr known.0 ],
        )
