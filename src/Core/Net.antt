-- ===== src/Core/Net.antt =====
-- `recv_timeout` and `send_timeout`.
use nxremote_api.Base.{
  ℕ, zero, suc, ◌+◌, true, false, Option, none, some, [], ◌∷◌, ◌++◌, take, drop, length, ltb,
  if◌then◌else◌,
}
use nxremote_api.Base.Int.{ℤ, pos, negsuc, leb_ℤ}
use nxremote_api.Base.Text.{Bytes, codes}
use nxremote_api.CString.Format.{snprintf, signed_decimal}
use nxremote_api.Core.World.{
  polled, received, sent, closed, Platform, M, pure, ◌>>=◌, ◌>>◌, emit, ask, trace,
}

-- The `int` that a call of `recv` returns.
abbrev pub count_of : Option Bytes → ℤ
count_of none = negsuc 0
count_of (some bytes) = pos (length bytes)

-- `sent > 0 ? (ssize_t)sent : -1`.
abbrev pub sent_or_error : ℕ → ℤ
sent_or_error n = if ltb 0 n then pos n else negsuc 0

-- A count of bytes that `write` returned.
abbrev pub taken : ℤ → ℕ
taken (pos n) = n
taken (negsuc n) = 0

module _ (p : Platform) where
  -- `recv_timeout` into a buffer of `len` bytes.
  unfoldable pub recv_timeout : ℕ → M (Option Bytes)
  recv_timeout len = do
    ready ← ask p.readable polled
    elim ready [ false ↦ pure none | true ↦ ask (λ h. p.recv h len) (received len) ]

  -- The call of `write`, with the bytes that it took as the event.
  unfoldable pub write_some : Bytes → M ℤ
  write_some rest s =
      let n = p.write s.events rest in
      (n, record s { events = sent (take (taken n) rest) ∷ s.events })

  -- The loop of `send_timeout`, on the bytes that are left. Every round takes a byte at least, so the
  -- fuel is the length.
  unfoldable pub send_loop : ℕ → Bytes → ℕ → M ℤ
  unfolding write_some
  send_loop zero rest n = pure (pos n)
  send_loop (suc fuel) [] n = pure (pos n)
  send_loop (suc fuel) (x ∷ rest) n = do
    sel ← ask p.writable polled
    trace p (snprintf 64 (codes "send_timeout: select returned " ++ signed_decimal sel))
    elim (leb_ℤ sel (pos 0)) [
      | true ↦ pure (sent_or_error n)
      | false ↦ do
        k ← write_some (x ∷ rest)
        elim (leb_ℤ k (pos 0)) [
          | true ↦ pure (sent_or_error n)
          | false ↦ send_loop fuel (drop (taken k) (x ∷ rest)) (n + taken k)
        ]
    ]

  unfoldable pub send_timeout : Bytes → M ℤ
  unfolding send_loop
  send_timeout bytes = do trace p (codes "send_timeout: enter"); send_loop (length bytes) bytes 0

  -- A response whose return value is not looked at.
  unfoldable pub send : Bytes → M (Unit {0})
  unfolding send_timeout
  send bytes = do _ ← send_timeout bytes; pure tt

  unfoldable pub close : M (Unit {0})
  close = emit closed
