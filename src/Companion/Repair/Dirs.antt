-- ===== src/Companion/Repair/Dirs.antt =====
-- `make_dirs` is what `mkdir -p` is.
use nxremote_api.Base.{
  ℕ, List, [], ◌∷◌, ◌++◌, append_assoc, append-nil, ◌==◌, ne→==, Bool-cases, inl, inr, ◌≡◌, refl,
  sym, ap, ◌∙◌,
}
use nxremote_api.Base.Text.{Bytes}
use nxremote_api.CString.Parts.{Lacks}
use nxremote_api.Companion.World.{made_dir, App, pure, ◌>>=◌, ◌>>◌, emit}
use nxremote_api.Companion.Repair.{ancestors, dirs_of, mkdirs, make_dirs}

ancestors-name : (seen name : Bytes) → Lacks b'/' name → ancestors seen name ≡ []
unfolding ancestors
ancestors-name seen [] h = refl
ancestors-name seen (c ∷ cs) (h, hs) = rw (ne→== c b'/' h) (ancestors-name (seen ++ c ∷ []) cs hs)

ancestors-append :
    (seen parent name : Bytes)
    → Lacks b'/' name
    → ancestors seen (parent ++ b'/' ∷ name) ≡ ancestors seen parent ++ (seen ++ parent) ∷ []
unfolding ancestors
ancestors-append seen [] name h =
    ap (λ l. seen ∷ l) (ancestors-name (seen ++ b'/' ∷ []) name h)
    ∙ ap (λ t. t ∷ []) (sym (append-nil seen))
ancestors-append seen (c ∷ cs) name h =
    let rest =
      ancestors-append (seen ++ c ∷ []) cs name h
      ∙ ap (λ t. ancestors (seen ++ c ∷ []) cs ++ t ∷ []) (append_assoc seen (c ∷ []) cs) in
    elim (Bool-cases (c == b'/')) [ inl e ↦ rw e (ap (λ l. seen ∷ l) rest) | inr e ↦ rw e rest ]

made-append :
    (xs : List Bytes) (dir : Bytes) (s : App)
    → (mkdirs (xs ++ dir ∷ []) s).1.events ≡ made_dir dir ∷ (mkdirs xs s).1.events
unfolding mkdirs ◌>>=◌ ◌>>◌ emit pure
made-append [] dir s = refl
made-append (x ∷ xs) dir s = made-append xs dir (record s { events = made_dir x ∷ s.events })

dirs_of-child :
    (c : ℕ) (cs name : Bytes)
    → Lacks b'/' name
    → dirs_of ((c ∷ cs) ++ b'/' ∷ name) ≡ dirs_of (c ∷ cs) ++ ((c ∷ cs) ++ b'/' ∷ name) ∷ []
unfolding dirs_of
dirs_of-child c cs name h =
    ap (λ l. l ++ ((c ∷ cs) ++ b'/' ∷ name) ∷ []) (ancestors-append (c ∷ []) cs name h)

-- For a path that is a parent that is not empty, a slash, and a name without one, `make_dirs` makes all
-- directories that it makes for the parent, in the same order, and after them the path.
pub make_dirs-child :
    (c : ℕ) (cs name : Bytes) (s : App)
    → Lacks b'/' name
    → (make_dirs ((c ∷ cs) ++ b'/' ∷ name) s).1.events
      ≡ made_dir ((c ∷ cs) ++ b'/' ∷ name) ∷ (make_dirs (c ∷ cs) s).1.events
unfolding make_dirs
make_dirs-child c cs name s h =
    ap (λ l. (mkdirs l s).1.events) (dirs_of-child c cs name h)
    ∙ made-append (dirs_of (c ∷ cs)) ((c ∷ cs) ++ b'/' ∷ name) s
