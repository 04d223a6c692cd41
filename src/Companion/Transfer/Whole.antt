-- ===== src/Companion/Transfer/Whole.antt =====
-- What a transfer leaves in memory, and in a file.
use nxremote_api.Base.{
  ℕ, false, List, [], ◌∷◌, ◌++◌, append_assoc, append-nil, take, take-length, length, length-append,
  ◌==◌, ==_iff, Bool-cases, inl, inr, ◌⊎◌, ◌≡◌, refl, sym, ap, ◌∙◌, arith,
}
use nxremote_api.Base.Text.{Bytes}
use nxremote_api.Companion.World.{
  asked, opened, fetched, wrote, History, Device, App, pure, ◌>>=◌, ◌>>◌, emit, ask,
}
use nxremote_api.Companion.Transfer.{
  Memory, append_piece, receive, store_pieces, download_to, download_file, curle_write_error,
}

abbrev pub concat : List Bytes → Bytes
concat [] = []
concat (x ∷ xs) = x ++ concat xs

-- What is in use of a block, and a block in which a NUL stands behind it.
abbrev pub Holds : Bytes → Memory → Type 0
Holds text mem = (mem.size ≡ length text) × (take mem.size mem.memory ≡ text)

abbrev pub IsEnded : Bytes → Memory → Type 0
IsEnded text mem = (mem.size ≡ length text) × (mem.memory ≡ text ++ 0 ∷ [])

Holds-of_IsEnded : (text : Bytes) (mem : Memory) → IsEnded text mem → Holds text mem
Holds-of_IsEnded text mem (size, block) = (size, rw (size, block) (take-length text (0 ∷ [])))

append_piece-IsEnded :
    (text piece : Bytes) (mem : Memory)
    → Holds text mem
    → IsEnded (text ++ piece) (append_piece piece mem)
unfolding append_piece
append_piece-IsEnded text piece mem (size, held) =
    (omega (arith, size, length-append text piece), ap (λ t. t ++ piece ++ 0 ∷ []) held)

module _ (d : Device) where
  receive_more :
      (pieces : List Bytes) (result : ℕ) (text : Bytes) (mem : Memory) (s : App)
      → IsEnded text mem
      → ((receive d pieces result mem s).0.0 ≡ curle_write_error)
        ⊎ (((receive d pieces result mem s).0.0 ≡ result)
            × IsEnded (text ++ concat pieces) (receive d pieces result mem s).0.1)
  unfolding receive pure ◌>>=◌ ask
  receive_more [] result text mem s h = inr (refl, rw (append-nil text) h)
  receive_more (piece ∷ pieces) result text mem s h = elim (Bool-cases (d.reallocates s.events)) [
    | inr fails ↦ inl (rw fails refl)
    | inl grown ↦
        let s' = record s { events = asked ∷ s.events } in
        let next = append_piece-IsEnded text piece mem (Holds-of_IsEnded text mem h) in
        rw (grown, sym (append_assoc text piece (concat pieces)))
          (receive_more pieces result (text ++ piece) (append_piece piece mem) s' next)
  ]

  -- A transfer of a piece at least, that ends with another result than that of a callback that failed,
  -- has left in the block all the pieces behind the text that it held, in their order, however the
  -- server cut them, with a NUL behind them.
  pub receive-IsEnded :
      (piece : Bytes) (pieces : List Bytes) (result : ℕ) (text : Bytes) (mem : Memory) (s : App)
      → Holds text mem
      → ((receive d (piece ∷ pieces) result mem s).0.0 ≡ curle_write_error)
        ⊎ (((receive d (piece ∷ pieces) result mem s).0.0 ≡ result)
            × IsEnded
                (text ++ concat (piece ∷ pieces))
                (receive d (piece ∷ pieces) result mem s).0.1)
  unfolding receive pure ◌>>=◌ ask
  receive-IsEnded piece pieces result text mem s h = elim (Bool-cases (d.reallocates s.events)) [
    | inr fails ↦ inl (rw fails refl)
    | inl grown ↦
        let s' = record s { events = asked ∷ s.events } in
        rw (grown, sym (append_assoc text piece (concat pieces)))
          (receive_more pieces result (text ++ piece) (append_piece piece mem) s'
            (append_piece-IsEnded text piece mem h))
  ]

  store_pieces_lem :
      (pieces : List Bytes) (result : ℕ) (done : Bytes) (s : App)
      → ((store_pieces d pieces result done s).0.0 ≡ curle_write_error)
        ⊎ ((store_pieces d pieces result done s).0 ≡ (result, done ++ concat pieces))
  unfolding store_pieces pure ◌>>=◌ ask
  store_pieces_lem [] result done s = inr (rw (append-nil done) refl)
  store_pieces_lem (piece ∷ pieces) result done s = elim (Bool-cases (d.stores s.events)) [
    | inr fails ↦ inl (rw fails refl)
    | inl stored ↦
        let s' = record s { events = asked ∷ s.events } in
        rw (stored, sym (append_assoc done piece (concat pieces)))
          (store_pieces_lem pieces result (done ++ piece) s')
  ]

  download_to_lem :
      (closes : (h : History) (text : Bytes) → d.fclose h text ≡ text)
      → (url path : Bytes) (s : App)
      → ((download_to d url path s).0 ≡ false)
        ⊎ (((d.perform s.events url).result ≡ 0)
            × (h : History) × ((download_to d url path s).1.events
                ≡ wrote path (concat (d.perform s.events url).chunks) ∷ h))
  unfolding download_to pure ◌>>=◌ ◌>>◌ ask emit
  download_to_lem closes url path s =
      let t = d.perform s.events url in
      let s' = record s { events = fetched url ∷ s.events } in
      elim (store_pieces_lem t.chunks t.result [] s') [
        | inl failed ↦ inl (rw failed refl)
        | inr whole ↦ elim (Bool-cases (t.result == 0)) [
          | inr other ↦ inl (rw whole other)
          | inl ok ↦ inr (
            (==_iff t.result 0).0 ok,
            asked ∷ (store_pieces d t.chunks t.result [] s').1.events,
            ap (λ b. wrote path b ∷ asked ∷ (store_pieces d t.chunks t.result [] s').1.events)
                (closes _ _ ∙ ap (λ r. r.1) whole),
          )
        ]
      ]

  -- A download that reports success has written the file whole, as its last act: all the pieces that the
  -- server sent, in their order, and libcurl reported no error: if a file that is closed holds what it
  -- was given, which the function does not test.
  pub download_file-concat :
      (closes : (h : History) (text : Bytes) → d.fclose h text ≡ text)
      → (url path : Bytes) (s : App)
      → let before = opened path ∷ asked ∷ s.events in
        ((download_file d url path s).0 ≡ false)
        ⊎ (((d.perform before url).result ≡ 0)
            × (h : History) × ((download_file d url path s).1.events
                ≡ wrote path (concat (d.perform before url).chunks) ∷ h))
  unfolding download_file pure ◌>>=◌ ask
  download_file-concat closes url path s = elim (Bool-cases (d.curl_init s.events)) [
    | inr fails ↦ inl (rw fails refl)
    | inl starts ↦ elim (Bool-cases (d.can_write (asked ∷ s.events) path)) [
      | inr refused ↦ inl (rw (starts, refused) refl)
      | inl writable ↦
          rw (starts, writable)
            (download_to_lem closes url path (record s { events = opened path ∷ asked ∷ s.events }))
    ]
  ]
