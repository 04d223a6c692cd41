-- ===== src/Core/Override/Launch.antt =====
-- The calls of a launch keep track of the Album override.
use nxremote_api.Base.{ℕ, Bool, true, false, List, [], ◌∷◌, All, Bool-cases, inl, inr, ◌≡◌, refl}
use nxremote_api.JsonSafeAccess.{Json}
use nxremote_api.Core.World.{
  Event, Storage, built_in_system, launched, History, Platform, Core, M, pure, ◌>>=◌, ◌>>◌, emit,
  ask, modify,
}
use nxremote_api.Core.Album.{
  uninstall_album_launcher_override, finish_album_launch, poll_album_launcher_completion,
  pmshell_launch_program, start_album, request_launch_via_album, reports_end, succeeded, text_eq,
}
use nxremote_api.Core.Launch.{
  Attempt, started, failed, storages_to_try, try_storages, launch_program_by_id,
}
use nxremote_api.Core.Effects.{is_basic, Only, Only-log_i, Only-log_e}
use nxremote_api.Core.Effects.Actions.{Only-install, Only-lr_diagnose}
use nxremote_api.Core.Override.{
  lends, Tracks, calm, calm_mild, tracks, Tracks-pure, Tracks-get, Tracks-bind, Tracks-seq,
  Tracks-emit, Tracks-ask, Tracks-when, Tracks-bool, Tracks-or_abort,
}

module _ (p : Platform) where
  Tracks-attempt :
      {A : Type 0} (attempt : Attempt) {m : M A} {f : ℕ → Bool → M A}
      → Tracks p m
      → ((rc : ℕ) (hit : Bool) → Tracks p (f rc hit))
      → Tracks p (elim attempt [ started ↦ m | failed rc hit ↦ f rc hit ])
  Tracks-attempt started tm tf = tm
  Tracks-attempt (failed rc hit) tm tf = tf rc hit

  Tracks-uninstall : Tracks p (uninstall_album_launcher_override p)
  unfolding uninstall_album_launcher_override
  Tracks-uninstall = search tracks

  -- The removal comes before the flag is reset.
  Tracks-restore : Tracks p (
      uninstall_album_launcher_override p >> modify λ c. record c { album_override_active = false })
  unfolding uninstall_album_launcher_override emit modify ◌>>◌ ◌>>=◌ text_eq
  Tracks-restore = record { run = λ s t lent. cc lent }

  Tracks-finish : (done : Bool) → Tracks p (finish_album_launch p done)
  unfolding finish_album_launch
  Tracks-finish done = Tracks-bind p (Tracks-ask p _ _ refl) λ now.
      Tracks-bind p (Tracks-get p) λ s.
        Tracks-seq p (Tracks-when p _ (calm p (Only-log_e p _))) (Tracks-when p _ Tracks-restore)

  pub Tracks-poll : (j : Json) → Tracks p (poll_album_launcher_completion p j)
  unfolding poll_album_launcher_completion
  Tracks-poll j = Tracks-bind p (Tracks-get p) λ s. Tracks-when p s.album_override_active (
      Tracks-bind p (Tracks-ask p _ _ refl)
        λ status. Tracks-or_abort p (reports_end j status) Tracks-finish)

  -- A call behind which the flag is set.
  record Sets {A : Type 0} (m : M A) : Type 0 where
    run : (s : Core) → (m s).1.album_override_active ≡ true

  Sets-flag :
      {A : Type 0} (f : History → ℕ) (e : Event) (a : A)
      → Sets (
          ask f e >>= λ now.
          modify
            (λ c. record c { album_override_active = true; album_override_installed_tick = now })
          >> pure a)
  unfolding ask modify pure ◌>>=◌ ◌>>◌
  Sets-flag f e a = record { run = λ s. refl }

  -- A start of the Album, behind which the flag is set if it succeeds.
  Tracks-lend :
      {A : Type 0} (id : ℕ) {m : ℕ → M (Unit {0})} {on : M A} {off : ℕ → M A}
      → ((rc : ℕ) → Only is_basic (m rc))
      → Sets on
      → ((rc : ℕ) → Tracks p (off rc))
      → Tracks p (
          pmshell_launch_program p built_in_system id >>= λ rc.
          m rc >> elim (succeeded rc) [ false ↦ off rc | true ↦ on ])
  unfolding pmshell_launch_program ask ◌>>=◌ ◌>>◌
  Tracks-lend id {m} quiet sets keeps = record {
    run = λ s t.
        let rc = p.launch s.events built_in_system id in
        let s' = record s { events = launched built_in_system id ∷ s.events } in
        elim (Bool-cases (succeeded rc)) [
          | inl ok ↦ rw ok λ lent. sets.run (m rc s').1
          | inr bad ↦
              rw bad
                ((keeps rc).run (m rc s').1 ((calm p (quiet rc)).run s' λ lent. t (rw bad at lent)))
        ];
  }

  -- A start of the Album sets the flag, or the override is removed again.
  Tracks-start_album : Tracks p (start_album p)
  unfolding start_album
  Tracks-start_album = Tracks-bind p (calm_mild p (Only-install p)) λ installed.
      Tracks-bool p installed
        (Tracks-lend _ (λ rc. Only-log_i p _) (Sets-flag _ _ _)
          λ rc.
            Tracks-seq p Tracks-uninstall (Tracks-seq p (Tracks-emit p _ refl) (Tracks-pure p _)))
        (Tracks-seq p (Tracks-emit p _ refl) (Tracks-pure p _))

  Tracks-request : (j : Json) (tid : ℕ) → Tracks p (request_launch_via_album p j tid)
  unfolding request_launch_via_album
  Tracks-request j tid = Tracks-seq p (Tracks-poll j) (
      Tracks-seq p (Tracks-emit p _ refl) (
        Tracks-bind p (Tracks-ask p _ _ refl) λ ok.
          Tracks-bool p ok (Tracks-seq p (Tracks-emit p _ refl) Tracks-start_album)
            (Tracks-seq p (calm p (Only-log_e p _)) (Tracks-pure p _))))

  -- A storage that the Album is not started from.
  abbrev IsOther : Storage → Type 0
  IsOther storage = (id : ℕ) → lends (launched storage id) ≡ false

  Tracks-try_storages :
      (tid : ℕ) (storages : List Storage) (rc : ℕ) (hit : Bool)
      → All IsOther storages
      → Tracks p (try_storages p tid storages rc hit)
  unfolding try_storages pmshell_launch_program
  Tracks-try_storages tid [] rc hit others = Tracks-pure p _
  Tracks-try_storages tid (storage ∷ rest) rc hit (other, others) =
      Tracks-bind p (Tracks-ask p _ _ (other tid)) λ rc'.
        Tracks-seq p (calm p (Only-log_i p _)) (
          Tracks-bool p (succeeded rc') (Tracks-pure p _) (Tracks-try_storages tid rest _ _ others))

  pub Tracks-launch : (j : Json) (tid : ℕ) → Tracks p (launch_program_by_id p j tid)
  unfolding launch_program_by_id
  Tracks-launch j tid = Tracks-seq p (calm p (Only-lr_diagnose p tid)) (
      Tracks-bind p (Tracks-try_storages tid storages_to_try _ _ ((λ id. refl), ((λ id. refl), tt)))
        λ attempt. Tracks-attempt attempt (Tracks-pure p _) λ rc hit.
          Tracks-bool p hit (Tracks-seq p (calm p (Only-log_i p _)) (Tracks-request j tid))
            (Tracks-pure p _))
