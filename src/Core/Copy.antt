-- ===== src/Core/Copy.antt =====
-- What `copy_file` has written when it reports success.
use nxremote_api.Base.{
  ℕ, zero, suc, ◌≤◌, Bool, true, false, some, [], ◌∷◌, ◌++◌, append_assoc, append-nil, take, drop,
  length, length-drop, take-append-drop, Bool-cases, Option-cases, inl, inr, ◌⊎◌, ◌≡◌, refl, sym,
  subst, ap, ◌∙◌, arith,
}
use nxremote_api.Base.Text.{Bytes}
use nxremote_api.Core.World.{
  History, asked, opened, wrote, Platform, Core, pure, ◌>>=◌, ◌>>◌, ask, emit,
}
use nxremote_api.Core.Album.{block_of, copy_block, copy_loop, copy_file}

module _ (p : Platform) (reads : (h : History) → 4096 ≤ p.fread h) where
  block : (h : History) → block_of (p.fread h) ≡ 4096
  unfolding block_of
  block h = omega (arith, reads h)

  abbrev next : Core → Core
  next s = record s { events = asked ∷ s.events }

  -- A round reads the whole of its block.
  copy_loop-block :
      (fuel : ℕ) (rest done : Bytes) (s : Core)
      → copy_loop p (suc fuel) rest done s
        ≡ copy_block p (take 4096 rest) (copy_loop p fuel (drop 4096 rest)) done (next s)
  unfolding copy_loop ◌>>=◌ ask
  copy_loop-block fuel rest done s =
      ap (λ k. copy_block p (take k rest) (copy_loop p fuel (drop k rest)) done (next s))
        (block s.events)

  -- The loop fails, or it has added all that was left.
  abbrev Ends : Bytes → Bytes → Bytes × Bool → Type 0
  Ends rest done r = (r.1 ≡ false) ⊎ (r ≡ (done ++ rest, true))

  Ends-more :
      (x : ℕ) (rest done : Bytes) (r : Bytes × Bool)
      → Ends (drop 4095 rest) (done ++ x ∷ take 4095 rest) r
      → Ends (x ∷ rest) done r
  Ends-more x rest done r (inl failed) = inl failed
  Ends-more x rest done r (inr whole) = inr (
      whole
      ∙ ap (λ d. (d, true))
          (append_assoc done (x ∷ take 4095 rest) (drop 4095 rest)
            ∙ ap (λ t. done ++ x ∷ t) (take-append-drop 4095 rest)))

  copy_loop_lem :
      (fuel : ℕ) (rest done : Bytes) (s : Core)
      → length rest ≤ fuel
      → Ends rest done (copy_loop p fuel rest done s).0
  unfolding copy_block ◌>>=◌ ask pure
  copy_loop_lem zero [] done s enough =
      unfold copy_loop in inr (ap (λ d. (d, true)) (sym (append-nil done)))
  copy_loop_lem zero (x ∷ rest) done s enough = absurd (omega arith)
  copy_loop_lem (suc fuel) [] done s enough =
      subst (λ r. Ends [] done r.0) (sym (copy_loop-block fuel [] done s))
        (inr (ap (λ d. (d, true)) (sym (append-nil done))))
  copy_loop_lem (suc fuel) (x ∷ rest) done s enough =
      subst (λ r. Ends (x ∷ rest) done r.0) (sym (copy_loop-block fuel (x ∷ rest) done s))
        (elim (Bool-cases (p.stores (asked ∷ s.events))) [
          | inr e ↦ inl (rw e refl)
          | inl e ↦
              let more =
                copy_loop_lem fuel (drop 4095 rest) (done ++ x ∷ take 4095 rest) (next (next s))
                  (omega (arith, length-drop 4095 rest)) in
              rw e (Ends-more x rest done _ more)
        ])

  -- `copy_file` fails, or the source could be opened and the last thing it did is to write the whole
  -- text of the source to the destination, of any length: if no read of the source fails and a file
  -- that is closed holds what it was given. The function itself tests neither.
  pub copy_file_lem :
      (closes : (h : History) (text : Bytes) → p.fclose h text ≡ text)
      → (src dst : Bytes) (s : Core)
      → ((copy_file p src dst s).0 ≡ false)
        ⊎ ((text : Bytes) × (h : History) × (p.file s.events src ≡ some text)
            × ((copy_file p src dst s).1.events ≡ wrote dst text ∷ h))
  unfolding copy_file ◌>>=◌ ◌>>◌ ask emit pure
  copy_file_lem closes src dst s = elim (Option-cases (p.file s.events src)) [
    | inl missing ↦ inl (rw missing refl)
    | inr (text, found) ↦ elim (Bool-cases (p.can_write (opened src ∷ s.events) dst)) [
      | inr refused ↦ inl (rw (found, refused) refl)
      | inl writable ↦
          let s' = record s { events = opened dst ∷ opened src ∷ s.events } in
          let after = (copy_loop p (length text) text [] s').1.events in
          rw (found, writable)
            (elim (copy_loop_lem (length text) text [] s' (omega arith)) [
              | inl failed ↦ inl failed
              | inr whole ↦ inr (
                text,
                asked ∷ after,
                refl,
                ap (λ t. wrote dst t ∷ asked ∷ after) (closes after _ ∙ ap (λ r. r.0) whole),
              )
            ])
    ]
  ]
