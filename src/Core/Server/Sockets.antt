-- ===== src/Core/Server/Sockets.antt =====
-- The descriptors that the loop holds: its own socket, and no client's.
use nxremote_api.Base.{
  ℕ, zero, suc, ◌≤◌, true, false, List, [], ◌∷◌, leb, ◌≡◌, refl, ap, ◌∙◌, arith,
}
use nxremote_api.Base.Int.{ℤ, pos, negsuc, remove}
use nxremote_api.Base.Text.{Bytes}
use nxremote_api.JsonSafeAccess.{Json, IsLawful}
use nxremote_api.Core.World.{closed, accepted, slept, Platform, Core}
use nxremote_api.Core.Request.{handle_client}
use nxremote_api.Core.Server.{
  Network, failed, Loop, no_socket, give_up, listen_on, bind_and_listen, create_listen_socket,
  recreate, accept_failed, accept_client, accept_round, accept_rounds,
}
use nxremote_api.Core.Effects.{
  mild_inner, inner, Only-get, Only-ask, Only-emit, Only-append_line, Only-log_e, Only-trace,
}
use nxremote_api.Core.Effects.Client.{handle_client-ClosesOnce}
use nxremote_api.Base.Hoare.{Hoare, Hoare-bind, Hoare-seq, Hoare-pure, Hoare-weaken, Hoare-cases}
use nxremote_api.Core.Server.Views.{step, View, view, seen, view-ClosesOnce, Hoare-emit, keeps}

-- The sockets that a descriptor stands for.
abbrev pub owned : ℤ → List ℤ
owned (pos fd) = pos fd ∷ []
owned (negsuc e) = []

-- Nothing is open but the server's socket.
abbrev pub serving : ℤ → View
serving fd = record { clients = 0; listeners = owned fd; runs = true }

owned-failed : (fd : ℤ) → failed fd ≡ false → owned fd ≡ fd ∷ []
owned-failed (pos fd) h = refl
owned-failed (negsuc e) h = cc h

remove-owned : (fd : ℤ) → remove fd (owned fd) ≡ []
remove-owned (pos fd) = ground arith
remove-owned (negsuc e) = refl

pub owned-invalid : (fd : ℤ) → failed fd ≡ true → serving fd ≡ serving no_socket
owned-invalid (pos fd) h = cc h
owned-invalid (negsuc e) h = refl

-- What the loop keeps.
abbrev pub IsServing : Loop → View → Type 0
IsServing l v = (v ≡ serving l.server_fd) × (l.consecutive_accept_failures ≤ 24)

abbrev pub IsOpen : ℤ → View → Type 0
IsOpen fd v = v ≡ serving fd

module _ (p : Platform) (n : Network) where
  Hoare-give_up :
      (fd : ℤ) (note message : Bytes)
      → failed fd ≡ false
      → Hoare seen (IsOpen fd) (give_up p n fd note message) IsOpen
  unfolding give_up
  Hoare-give_up fd note message valid = Hoare-seq (keeps (mild_inner (Only-append_line p _ note))) (
      Hoare-seq (keeps (inner (Only-log_e p message))) (
        Hoare-seq {Q = IsOpen no_socket}
          (Hoare-emit _
            λ v h. rw h (ap (λ l. record (serving fd) { listeners = l }) (remove-owned fd)))
          (Hoare-pure _ λ v h. h)))

  Hoare-listen_on : (fd : ℤ) → failed fd ≡ false → Hoare seen (IsOpen fd) (listen_on p n fd) IsOpen
  unfolding listen_on
  Hoare-listen_on fd valid = Hoare-bind (keeps (Only-ask _ _ refl)) λ listening.
      Hoare-cases (failed listening) (λ _. Hoare-give_up fd _ _ valid)
        λ _.
          Hoare-bind (keeps Only-get)
            λ s. Hoare-seq (keeps (mild_inner (Only-append_line p _ _))) (Hoare-pure _ λ v h. h)

  Hoare-bind_and_listen :
      (fd : ℤ) → failed fd ≡ false → Hoare seen (IsOpen no_socket) (bind_and_listen p n fd) IsOpen
  unfolding bind_and_listen
  Hoare-bind_and_listen fd valid =
      Hoare-seq {Q = IsOpen fd} (Hoare-emit _ λ v h. rw (h, owned-failed fd valid) refl) (
        Hoare-bind (keeps (Only-ask _ _ refl)) λ bound.
          Hoare-cases (failed bound)
            (λ _. Hoare-bind (keeps (Only-ask _ _ refl)) λ errno. Hoare-give_up fd _ _ valid)
            (λ _. Hoare-listen_on fd valid))

  pub Hoare-create : Hoare seen (IsOpen no_socket) (create_listen_socket p n) IsOpen
  unfolding create_listen_socket
  Hoare-create = Hoare-bind (keeps (Only-ask _ _ refl)) λ fd.
      Hoare-cases (failed fd)
        (λ _. Hoare-seq (keeps (inner (Only-log_e p _))) (Hoare-pure _ λ v h. h))
        (λ valid. Hoare-bind_and_listen fd valid)

  Hoare-recreate : (fd : ℤ) → Hoare seen (IsOpen fd) (recreate p n fd) IsOpen
  unfolding recreate
  Hoare-recreate fd = Hoare-seq (keeps (inner (Only-trace p _))) (
      Hoare-seq {Q = IsOpen no_socket}
        (Hoare-emit _
          λ v h. rw h (ap (λ l. record (serving fd) { listeners = l }) (remove-owned fd)))
        (Hoare-bind Hoare-create λ fd'.
          Hoare-cases (failed fd')
            (λ invalid.
              Hoare-seq {Q = IsOpen no_socket}
                (Hoare-emit _ λ v h. rw h (owned-invalid fd' invalid)) Hoare-create)
            (λ _. Hoare-pure _ λ v h. h)))

  Hoare-accept_failed : (l : Loop) → Hoare seen (IsServing l) (accept_failed p n l) IsServing
  unfolding accept_failed
  Hoare-accept_failed l = Hoare-bind (keeps (Only-ask _ _ refl)) λ errno.
      Hoare-seq (keeps (inner (Only-trace p _))) (
        Hoare-seq (keeps (Only-emit (slept 200000000) refl)) (
          Hoare-cases (leb 25 (suc l.consecutive_accept_failures))
            (λ _.
              Hoare-bind (Hoare-weaken (λ v (h, _). h) (Hoare-recreate l.server_fd))
                λ fd. Hoare-pure _ λ v h. (h, omega arith))
            (λ few. Hoare-pure _ λ v (h, _). (h, ground (arith, few)))))

  module _ (j : Json) (laws : IsLawful j) where
    Hoare-handle_client :
        (l : Loop)
        → Hoare seen
            (λ v. v ≡ record (serving l.server_fd) { clients = 1 })
            (handle_client p j)
            (λ _. IsOpen l.server_fd)
    Hoare-handle_client l = record {
      run = λ s h.
          view-ClosesOnce s.events (handle_client p j s).1.events
            (handle_client-ClosesOnce p j laws s)
          ∙ ap (step closed) h;
    }

    Hoare-accept_client :
        (client_sock : ℤ) (l : Loop)
        → Hoare seen (IsServing l) (accept_client p n j client_sock l) IsServing
    unfolding accept_client
    Hoare-accept_client client_sock l =
        Hoare-seq {Q = λ v. v ≡ record (serving l.server_fd) { clients = 1 }}
          (Hoare-emit _ λ v (h, _). ap (step accepted) h)
          (Hoare-seq (keeps (inner (Only-trace p _))) (
            Hoare-seq (Hoare-handle_client l)
              (Hoare-seq (keeps (inner (Only-trace p _))) (Hoare-pure _ λ v h. (h, omega arith)))))

    Hoare-accept_round : (l : Loop) → Hoare seen (IsServing l) (accept_round p n j l) IsServing
    unfolding accept_round
    Hoare-accept_round l = Hoare-seq (keeps (inner (Only-trace p _))) (
        Hoare-bind (keeps (Only-ask _ _ refl)) λ client_sock.
          Hoare-cases (failed client_sock) (λ _. Hoare-accept_failed l)
            (λ _. Hoare-accept_client client_sock l))

    pub Hoare-accept_rounds :
        (rounds : ℕ) (l : Loop) → Hoare seen (IsServing l) (accept_rounds p n j rounds l) IsServing
    unfolding accept_rounds
    Hoare-accept_rounds zero l = Hoare-pure _ λ v h. h
    Hoare-accept_rounds (suc rounds) l =
        Hoare-bind (Hoare-accept_round l) λ l'. Hoare-accept_rounds rounds l'

    -- However the network fails and whatever the clients send: after any number of rounds of the accept
    -- loop no client's connection is left open, the one socket of the server that is open is the one
    -- that the loop holds (none if the last try to make one failed), the process runs, and at most 24
    -- failures are counted, if that held before the first round and the JSON library reads a value that
    -- it reports as a string or a number as that.
    pub accept_rounds-IsServing :
        (rounds : ℕ) (l : Loop) (s : Core)
        → IsServing l (view s.events)
        → IsServing
            (accept_rounds p n j rounds l s).0
            (view (accept_rounds p n j rounds l s).1.events)
    accept_rounds-IsServing rounds l = (Hoare-accept_rounds rounds l).run

  -- A call of `create_listen_socket` with no socket open leaves the one open that it returns, or none.
  create_listen_socket-serving :
      (s : Core)
      → view s.events ≡ serving no_socket
      → view (create_listen_socket p n s).1.events ≡ serving (create_listen_socket p n s).0
  create_listen_socket-serving = Hoare-create.run
