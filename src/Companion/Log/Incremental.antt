-- ===== src/Companion/Log/Incremental.antt =====
-- The boot log is read piece by piece as it is read whole.
use nxremote_api.Base.{
  ℕ, ◌-◌, ◌≤◌, ◌||◌, some, List, [], ◌∷◌, ◌++◌, append_assoc, length, length-append, drop,
  drop-length, le→ltb, ◌==◌, Bool-cases, inl, inr, ◌≡◌, refl, sym, ap, ◌∙◌, arith,
}
use nxremote_api.Base.Text.{Bytes}
use nxremote_api.CString.Lines.{fgets_lines, lines_from}
use nxremote_api.Companion.World.{Device, App, ◌>>=◌, ◌>>◌, get, modify, when, pure, emit, ask}
use nxremote_api.Companion.Log.{add_app_log, add_boot_line, add_boot_lines, read_boot_log}

lines_from-newline :
    (size room : ℕ) (line t more : Bytes)
    → lines_from size room line (t ++ b'\n' ∷ more)
      ≡ lines_from size room line (t ++ b'\n' ∷ []) ++ lines_from size (size - 1) [] more
unfolding lines_from
lines_from-newline size room line [] more = refl
lines_from-newline size room line (c ∷ cs) more = elim (Bool-cases (c == b'\n' || room == 1)) [
  | inl full ↦
      rw full (ap (λ l. (line ++ c ∷ []) ∷ l) (lines_from-newline size (size - 1) [] cs more))
  | inr more_room ↦ rw more_room (lines_from-newline size (room - 1) (line ++ c ∷ []) cs more)
]

fgets_lines-newline :
    (t more : Bytes)
    → fgets_lines 256 ((t ++ b'\n' ∷ []) ++ more)
      ≡ fgets_lines 256 (t ++ b'\n' ∷ []) ++ fgets_lines 256 more
unfolding fgets_lines
fgets_lines-newline t more =
    ap (lines_from 256 255 []) (append_assoc t (b'\n' ∷ []) more)
    ∙ lines_from-newline 256 255 [] t more

-- The same state, read up to another position.
abbrev at : ℕ → App → App
at n s = record s { last_pos = n }

module _ (d : Device) where
  add_app_log-at :
      (m : Bytes) (n : ℕ) (s : App) → (add_app_log d m (at n s)).1 ≡ at n (add_app_log d m s).1
  unfolding add_app_log ◌>>=◌ ◌>>◌ get modify when ask emit pure
  add_app_log-at m n s = elim (Bool-cases s.dev_mode) [
    | inr off ↦ rw off refl
    | inl on ↦ elim (Bool-cases (d.udp_socket s.events)) [
      | inl opens ↦ rw (on, opens) refl
      | inr fails ↦ rw (on, fails) refl
    ]
  ]

  add_boot_line-at :
      (line : Bytes) (n : ℕ) (s : App)
      → (add_boot_line d line (at n s)).1 ≡ at n (add_boot_line d line s).1
  unfolding add_boot_line pure
  add_boot_line-at [] n s = refl
  add_boot_line-at (c ∷ cs) n s = add_app_log-at _ n s

  add_boot_lines-at :
      (ls : List Bytes) (n : ℕ) (s : App)
      → (add_boot_lines d ls (at n s)).1 ≡ at n (add_boot_lines d ls s).1
  unfolding add_boot_lines ◌>>=◌ ◌>>◌ pure
  add_boot_lines-at [] n s = refl
  add_boot_lines-at (l ∷ ls) n s =
      ap (λ s'. (add_boot_lines d ls s').1) (add_boot_line-at _ n s) ∙ add_boot_lines-at ls n _

  add_boot_lines-append :
      (xs ys : List Bytes) (s : App)
      → (add_boot_lines d (xs ++ ys) s).1 ≡ (add_boot_lines d ys (add_boot_lines d xs s).1).1
  unfolding add_boot_lines ◌>>=◌ ◌>>◌ pure
  add_boot_lines-append [] ys s = refl
  add_boot_lines-append (x ∷ xs) ys s = add_boot_lines-append xs ys _

  read_from :
      (text rest : Bytes) (s : App)
      → s.last_pos ≤ length text
      → drop s.last_pos text ≡ rest
      → (read_boot_log d (some text) s).1
        ≡ at (length text) (add_boot_lines d (fgets_lines 256 rest) s).1
  unfolding read_boot_log ◌>>=◌ ◌>>◌ get modify
  read_from text rest s h e =
      rw (le→ltb (length text) s.last_pos h)
        (ap (λ r. at (length text) (add_boot_lines d (fgets_lines 256 r) s).1) e)

  -- The state behind the lines of a text.
  abbrev seen_of : Bytes → App → App
  seen_of text s = (add_boot_lines d (fgets_lines 256 text) s).1

  -- A look at a boot log that ends in a line break, and a second one when it has grown, add to the
  -- messages what one look at the whole adds, no line twice and none left out, and leave the same state,
  -- if nothing of it was read before.
  pub read_boot_log-append :
      (t more : Bytes) (s : App)
      → s.last_pos ≡ 0
      → let old = t ++ b'\n' ∷ [] in
        (read_boot_log d (some (old ++ more)) (read_boot_log d (some old) s).1).1
        ≡ (read_boot_log d (some (old ++ more)) s).1
  read_boot_log-append t more s fresh =
      let old = t ++ b'\n' ∷ [] in
      let whole = old ++ more in
      let first : (read_boot_log d (some old) s).1 ≡ at (length old) (seen_of old s) =
        read_from old old s (omega (arith, fresh)) (ap (λ n. drop n old) fresh) in
      let second : (read_boot_log d (some whole) (at (length old) (seen_of old s))).1
          ≡ at (length whole)
              (add_boot_lines d (fgets_lines 256 more) (at (length old) (seen_of old s))).1 =
        read_from whole more (at (length old) (seen_of old s))
          (omega (arith, length-append old more)) (drop-length old more) in
      let once : (read_boot_log d (some whole) s).1 ≡ at (length whole) (seen_of whole s) =
        read_from whole whole s (omega (arith, fresh)) (ap (λ n. drop n whole) fresh) in
      let split : seen_of whole s ≡ (add_boot_lines d (fgets_lines 256 more) (seen_of old s)).1 =
        ap (λ l. (add_boot_lines d l s).1) (fgets_lines-newline t more)
        ∙ add_boot_lines-append (fgets_lines 256 old) (fgets_lines 256 more) s in
      ap (λ s'. (read_boot_log d (some whole) s').1) first
      ∙ second
      ∙ ap (at (length whole))
          (add_boot_lines-at (fgets_lines 256 more) (length old) (seen_of old s))
      ∙ sym (once ∙ ap (at (length whole)) split)
