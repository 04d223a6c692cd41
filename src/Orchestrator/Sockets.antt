-- ===== src/Orchestrator/Sockets.antt =====
-- What the start of the orchestrator leaves open, and how often it starts the core.
use nxremote_api.Base.{
  ℕ, suc, Bool, true, false, Option, none, some, List, [], ◌∷◌, ◌++◌, ◌==◌, ◌⊎◌, inl, inr,
  if◌then◌else◌, ◌≡◌, refl, ap, ap₂, ◌∙◌, arith,
}
use nxremote_api.Base.Int.{ℤ, pos, negsuc, remove}
use nxremote_api.Base.Text.{Bytes, codes}
use nxremote_api.Base.Hoare.{Hoare, Hoare-bind, Hoare-seq, Hoare-pure, Hoare-cases}
use nxremote_api.CString.Format.{snprintf, hex}
use nxremote_api.Orchestrator.{
  opened_socket, closed_socket, History, Machine, Orchestrator, log_line, launch_core,
}
use nxremote_api.Orchestrator.Views.{view-log_line}
use nxremote_api.Orchestrator.Restart.{launches, launches-log_line}
use nxremote_api.Orchestrator.Start.{
  System, M, failed, emit, ask, pure, ◌>>=◌, ◌>>◌, modify, give_up, bind_and_listen,
  create_control_socket, log, prepare, fail, control, open_control, launch_and_open, start,
}

-- The sockets of the control port that are open.
abbrev pub listeners : History → List ℤ
listeners [] = []
listeners (opened_socket fd ∷ h) = fd ∷ listeners h
listeners (closed_socket fd ∷ h) = remove fd (listeners h)
listeners (a ∷ h) = listeners h

-- The open sockets, and how often the core was started.
abbrev pub seen : Orchestrator → List ℤ × ℕ
seen o = (listeners o.actions, launches o.actions)

remove_self : (fd : ℤ) → remove fd (fd ∷ []) ≡ []
remove_self (pos fd) = ground arith
remove_self (negsuc e) = ground arith

-- A call that adds nothing to see.
record Quiet {A : Type 0} (m : M A) : Type 0 where
  run : (o : Orchestrator) → seen (m o).1 ≡ seen o

keeps : {A : Type 0} {P : List ℤ × ℕ → Type 0} {m : M A} → Quiet m → Hoare seen P m (λ _. P)
keeps {P} q = record { run = λ o h. rw (q.run o) h }

Quiet-ask : {A : Type 0} (f : History → A) → Quiet (ask f)
unfolding ask launches
Quiet-ask f = record { run = λ o. refl }

-- What a try to make the socket leaves, with so many starts of the core.
abbrev Opened : ℕ → Option ℤ → List ℤ × ℕ → Type 0
Opened k none v = v ≡ ([], k)
Opened k (some fd) v = v ≡ (fd ∷ [], k)

-- What the start of `main` leaves, with so many starts of the core before it.
abbrev pub IsStarted : ℕ → Option ℤ → List ℤ × ℕ → Type 0
IsStarted k none v = (v ≡ ([], k)) ⊎ (v ≡ ([], suc k))
IsStarted k (some fd) v = v ≡ (fd ∷ [], suc k)

seen-if :
    (b : Bool) (o o' : Orchestrator) {v : List ℤ × ℕ}
    → seen o ≡ v
    → seen o' ≡ v
    → seen (if b then o else o') ≡ v
seen-if true o o' h h' = h
seen-if false o o' h h' = h'

started : (k : ℕ) (r : Option ℤ) (v : List ℤ × ℕ) → Opened (suc k) r v → IsStarted k r v
started k none v h = inr h
started k (some fd) v h = h

module _ (y : System) where
  Hoare-give_up : (k : ℕ) (fd : ℤ) → Hoare seen (Opened k (some fd)) (give_up y fd) (Opened k)
  unfolding give_up emit ◌>>◌ ◌>>=◌ pure launches
  Hoare-give_up k fd = record {
    run = λ o h. ap (λ v. (remove fd v.0, v.1)) h ∙ ap (λ l. (l, k)) (remove_self fd);
  }

  Hoare-Opened :
      (k : ℕ) (fd : ℤ)
      → Hoare seen (Opened k none) (emit (opened_socket fd)) (λ _. Opened k (some fd))
  unfolding emit launches
  Hoare-Opened k fd = record { run = λ o h. ap (λ v. (fd ∷ v.0, v.1)) h }

  Hoare-bind_and_listen :
      (k : ℕ) (fd : ℤ) → Hoare seen (Opened k none) (bind_and_listen y fd) (Opened k)
  unfolding bind_and_listen
  Hoare-bind_and_listen k fd = Hoare-seq (Hoare-Opened k fd) (
      Hoare-bind (keeps (Quiet-ask _)) λ bound.
        Hoare-cases (failed bound) (λ _. Hoare-give_up k fd)
          λ _. Hoare-bind (keeps (Quiet-ask _)) λ listening.
            Hoare-cases (failed listening) (λ _. Hoare-give_up k fd) (λ _. Hoare-pure _ λ v h. h))

  Hoare-create : (k : ℕ) → Hoare seen (Opened k none) (create_control_socket y) (Opened k)
  unfolding create_control_socket
  Hoare-create k =
      Hoare-bind (keeps (Quiet-ask _))
        λ fd. Hoare-cases (failed fd) (λ _. Hoare-pure _ λ v h. h) (λ _. Hoare-bind_and_listen k fd)

  module _ (m : Machine) where
    listeners-log_line :
        (msg : Bytes) (o : Orchestrator)
        → listeners (log_line m msg o).actions ≡ listeners o.actions
    listeners-log_line = view-log_line m (λ o. listeners o.actions) (λ t o. refl) (λ o. refl)

    Quiet-log : (message : Bytes) → Quiet (log y m message)
    unfolding log modify
    Quiet-log message = record {
      run = λ o. ap₂ (λ l k. (l, k)) (listeners-log_line message o) (launches-log_line m message o);
    }

    Quiet-prepare : Quiet (prepare y m)
    unfolding prepare ◌>>◌ ◌>>=◌ emit launches
    Quiet-prepare = record { run = λ o. (Quiet-log _).run _ }

    Hoare-fail :
        (k : ℕ) (message : Bytes) → Hoare seen (Opened k none) (fail y m message) (Opened k)
    unfolding fail
    Hoare-fail k message = Hoare-seq (keeps (Quiet-log message)) (Hoare-pure _ λ v h. h)

    Hoare-control :
        (k : ℕ) (server : Option ℤ) → Hoare seen (Opened k server) (control y m server) (Opened k)
    unfolding control
    Hoare-control k none = Hoare-fail k _
    Hoare-control k (some fd) = Hoare-pure _ λ v h. h

    Hoare-open_control : (k : ℕ) → Hoare seen (Opened k none) (open_control y m) (Opened k)
    unfolding open_control
    Hoare-open_control k = Hoare-bind (Hoare-create k) (Hoare-control k)

    Hoare-launch_core :
        (k : ℕ) → Hoare seen (Opened k none) (launch_core m) (λ _. Opened (suc k) none)
    unfolding launch_core launches log modify
    Hoare-launch_core k = record {
      run = λ o h.
          let (rc, pid) = m.launch o.actions in
          let counted = ap (λ v. (v.0, suc v.1)) h in
          seen-if (rc == 0) _ _
            ((Quiet-log (snprintf 64 (codes "[LAUNCH] pid=" ++ hex 16 pid))).run _ ∙ counted)
            counted;
    }

    Hoare-launch_and_open :
        (k : ℕ) → Hoare seen (Opened k none) (launch_and_open y m) (Opened (suc k))
    unfolding launch_and_open
    Hoare-launch_and_open k =
        Hoare-bind (Hoare-launch_core k)
          λ rc. Hoare-seq (keeps (Quiet-log _)) (Hoare-open_control (suc k))

    Started-fail :
        (k : ℕ) (message : Bytes) → Hoare seen (Opened k none) (fail y m message) (IsStarted k)
    unfolding fail
    Started-fail k message = Hoare-seq (keeps (Quiet-log message)) (Hoare-pure _ λ v h. inl h)

    Started-open : (k : ℕ) → Hoare seen (Opened k none) (launch_and_open y m) (IsStarted k)
    Started-open k = record {
      run = λ o h.
          started k (launch_and_open y m o).0 (seen (launch_and_open y m o).1)
            ((Hoare-launch_and_open k).run o h);
    }

    Hoare-start : (k : ℕ) → Hoare seen (Opened k none) (start y m) (IsStarted k)
    unfolding start
    Hoare-start k = Hoare-seq (keeps Quiet-prepare) (
        Hoare-bind (keeps (Quiet-ask _)) λ sockets.
          Hoare-cases (sockets == 0)
            (λ _. Hoare-bind (keeps (Quiet-ask _)) λ shell.
              Hoare-cases (shell == 0)
                (λ _.
                  Hoare-bind (keeps (Quiet-ask _)) λ handle.
                    Hoare-cases (handle == 0) (λ _. Started-open k) (λ _. Started-fail k _))
                (λ _. Started-fail k _))
            (λ _. Started-fail k _))

    -- The start of the orchestrator, however the services answer: it returns with no socket open, the core
    -- started at most once; or it goes on with the socket of the control port as the only one open, and has
    -- started the core exactly once.
    pub start-IsStarted :
        (o : Orchestrator)
        → listeners o.actions ≡ []
        → IsStarted (launches o.actions) (start y m o).0 (seen (start y m o).1)
    start-IsStarted o h =
        (Hoare-start (launches o.actions)).run o (ap (λ l. (l, launches o.actions)) h)
