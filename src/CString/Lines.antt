-- ===== src/CString/Lines.antt =====
-- The lines that repeated calls of fgets return.
use nxremote_api.Base.{
  ℕ, ◌+◌, ◌-◌, ◌<◌, ◌≡◌, refl, Bool, true, false, ◌||◌, List, [], ◌∷◌, ◌++◌, append_assoc, ◌==◌,
  if◌then◌else◌, length, arith,
}
use nxremote_api.Base.Text.{Bytes, codes}
use nxremote_api.CString.Parts.{Lacks}

abbrev is_nil : Bytes → Bool
is_nil [] = true
is_nil (x ∷ xs) = false

-- `line` is what the current call has stored, and `room` the bytes that it may still store.
unfoldable pub lines_from : ℕ → ℕ → Bytes → Bytes → List Bytes
lines_from size room line [] = if is_nil line then [] else line ∷ []
lines_from size room line (c ∷ cs) =
    let full = c == b'\n' || room == 1 in
    let rest =
      lines_from size (if full then size - 1 else room - 1) (if full then [] else line ++ c ∷ [])
        cs in
    if full then (line ++ c ∷ []) ∷ rest else rest

-- The successive results of `fgets(line, size, f)`, up to the end of the file.
unfoldable pub fgets_lines : ℕ → Bytes → List Bytes
unfolding lines_from
fgets_lines size text = lines_from size (size - 1) [] text

test : fgets_lines 4 (codes "ab\ncdefg") ≡ codes "ab\n" ∷ codes "cde" ∷ codes "fg" ∷ []
unfolding fgets_lines
test = refl

lines_from-line :
    (size room : ℕ) (line body rest : Bytes)
    → Lacks b'\n' body
    → length body < room
    → lines_from size room line (body ++ b'\n' ∷ rest)
      ≡ (line ++ (body ++ b'\n' ∷ [])) ∷ lines_from size (size - 1) [] rest
unfolding lines_from
lines_from-line size room line [] rest h fits = ground arith
lines_from-line size room line (c ∷ body) rest h fits = ground (
  arith,
  lines_from-line size (room - 1) (line ++ c ∷ []) body rest h.1,
  append_assoc line (c ∷ []) (body ++ b'\n' ∷ []),
)

-- A line that fits the buffer is returned whole.
pub fgets_lines-line :
    (size : ℕ) (body rest : Bytes)
    → Lacks b'\n' body
    → length body + 1 < size
    → fgets_lines size (body ++ b'\n' ∷ rest) ≡ (body ++ b'\n' ∷ []) ∷ fgets_lines size rest
unfolding fgets_lines
fgets_lines-line size body rest h fits =
    lines_from-line size (size - 1) [] body rest h (omega arith)

pub fgets_lines-nil : (size : ℕ) → fgets_lines size [] ≡ []
unfolding fgets_lines
fgets_lines-nil size = refl
