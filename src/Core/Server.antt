-- ===== src/Core/Server.antt =====
-- The server's socket: `create_listen_socket`, and the loop of `main` that accepts clients.
pub mod Views
pub mod Sockets
use nxremote_api.Base.{ℕ, zero, suc, ◌^◌, ◌+◌, Bool, true, false, [], ◌∷◌, ◌++◌, leb, if◌then◌else◌}
use nxremote_api.Base.Int.{ℤ, pos, negsuc, leb_ℤ}
use nxremote_api.Base.Text.{Bytes, codes}
use nxremote_api.CString.Format.{snprintf, signed_decimal}
use nxremote_api.JsonSafeAccess.{Json}
use nxremote_api.Core.World.{
  slept, asked, accepted, opened_socket, closed_socket, History, Platform, M, pure, ◌>>=◌, ◌>>◌,
  emit, ask, get, boot_log_path, append_line, log_e, trace,
}
use nxremote_api.Core.Request.{handle_client}

-- The calls of the bsd service that make the server's socket, and `errno` after one that failed.
pub record Network : Type 0 where
  pub socket : History → ℤ
  pub bind : History → ℤ → ℤ
  pub listen : History → ℤ → ℤ
  pub accept : History → ℤ → ℤ
  pub errno : History → ℤ

-- A call that failed, by its `int`.
abbrev pub failed : ℤ → Bool
failed (pos n) = false
failed (negsuc n) = true

-- The variables of the loop: the server's socket, and the failures of `accept` in a row.
pub record Loop : Type 0 where
  pub server_fd : ℤ
  pub consecutive_accept_failures : ℕ

abbrev pub no_socket : ℤ
no_socket = negsuc 0

module _ (p : Platform) (n : Network) where
  -- A step of the making that fails: the boot log, the log, and the socket is given back.
  unfoldable pub give_up : ℤ → Bytes → Bytes → M ℤ
  give_up fd note message = do
    append_line p boot_log_path note
    log_e p message
    emit (closed_socket fd)
    pure no_socket

  unfoldable pub listen_on : ℤ → M ℤ
  unfolding give_up
  listen_on fd = do
    listening ← ask (λ h. n.listen h fd) asked
    elim (failed listening) [
      | true ↦ give_up fd (codes "[ERR] listen failed\n") (codes "Failed to listen on socket")
      | false ↦ do
        s ← get
        append_line p boot_log_path
            (codes "[OK] Server listening on port " ++ signed_decimal s.config.port ++ codes "\n")
        pure fd
    ]

  unfoldable pub bind_and_listen : ℤ → M ℤ
  unfolding give_up listen_on
  bind_and_listen fd = do
    emit (opened_socket fd)
    bound ← ask (λ h. n.bind h fd) asked
    elim (failed bound) [
      | true ↦ do
        errno ← ask n.errno asked
        give_up fd (codes "[ERR] bind failed: " ++ signed_decimal errno ++ codes "\n")
            (codes "Failed to bind socket")
      | false ↦ listen_on fd
    ]

  unfoldable pub create_listen_socket : M ℤ
  unfolding bind_and_listen
  create_listen_socket = do
    fd ← ask n.socket asked
    elim (failed fd) [
      | true ↦ do log_e p (codes "Failed to create socket"); pure no_socket
      | false ↦ bind_and_listen fd
    ]

  -- The socket is replaced, with a second try a second later.
  unfoldable pub recreate : ℤ → M ℤ
  unfolding create_listen_socket
  recreate server_fd = do
    trace p (codes "accept: too many consecutive failures, recreating listen socket")
    emit (closed_socket server_fd)
    fd ← create_listen_socket
    elim (failed fd) [ true ↦ do emit (slept 1000000000); create_listen_socket | false ↦ pure fd ]

  -- The branch of a failed `accept`.
  unfoldable pub accept_failed : Loop → M Loop
  unfolding recreate
  accept_failed l = do
    errno ← ask n.errno asked
    trace p (snprintf 64 (codes "accept: failed errno=" ++ signed_decimal errno))
    emit (slept 200000000)
    elim (leb 25 (suc l.consecutive_accept_failures)) [
      | true ↦ do
        fd ← recreate l.server_fd
        pure (record { server_fd = fd; consecutive_accept_failures = 0 })
      | false ↦ pure (record l { consecutive_accept_failures = suc l.consecutive_accept_failures })
    ]

  module _ (j : Json) where
    unfoldable pub accept_client : ℤ → Loop → M Loop
    accept_client client_sock l = do
      emit accepted
      trace p (snprintf 64 (codes "accept: got client_sock=" ++ signed_decimal client_sock))
      handle_client p j
      trace p (codes "handle_client: returned")
      pure (record l { consecutive_accept_failures = 0 })

    -- A round of the loop.
    unfoldable pub accept_round : Loop → M Loop
    unfolding accept_client accept_failed
    accept_round l = do
      trace p (codes "accept: waiting")
      client_sock ← ask (λ h. n.accept h l.server_fd) asked
      elim (failed client_sock) [ true ↦ accept_failed l | false ↦ accept_client client_sock l ]

    -- So many rounds of the loop, which the program never leaves.
    unfoldable pub accept_rounds : ℕ → Loop → M Loop
    unfolding accept_round
    accept_rounds zero l = pure l
    accept_rounds (suc rounds) l = do l' ← accept_round l; accept_rounds rounds l'
