-- ===== src/Core/Mdns/Responder.antt =====
-- `mdns_responder`: the thread, from the making of its socket over any number of rounds of its loop.
use nxremote_api.Base.{
  ℕ, zero, suc, ◌<◌, ◌^◌, Option, none, some, List, [], ◌∷◌, take, drop, length, true, false,
  Bool-cases, inl, inr, ◌≡◌,
}
use nxremote_api.Base.Int.{ℤ}
use nxremote_api.Base.Text.{Bytes}
unfoldable use nxremote_api.Base.State.{pure, ◌>>=◌, ◌>>◌, get}
use nxremote_api.Base.State.{State}
use nxremote_api.Core.Server.{failed}
use nxremote_api.Core.Mdns.{mdns_round, IsAsked, address, mdns_round_lem}

-- The calls that the thread makes. `out_of_bounds` would be a read behind the buffer.
pub data Step : Type 0 where
  asked configured bound joined received out_of_bounds : Step
  opened_socket : ℤ → Step
  closed_socket : ℤ → Step
  sent : Bytes → Step
  slept : ℕ → Step

-- All calls so far, the newest first.
abbrev pub Calls : Type 0
Calls = List Step

-- What the bsd service answers, and the console's address. A `recvfrom` that fails is `none`.
pub record Lan : Type 0 where
  pub socket : Calls → ℤ
  pub bind : Calls → ℤ → ℤ
  pub recvfrom : Calls → Option Bytes
  pub ip : Calls → ℕ

abbrev M : Type 0 → Type 0
M = State Calls

unfoldable emit : Step → M (Unit {0})
emit e h = (tt, e ∷ h)

unfoldable ask : {A : Type 0} → (Calls → A) → Step → M A
ask f e h = (f h, e ∷ h)

-- The bytes in the buffer, none after a failure.
abbrev pub datagram : Option Bytes → Bytes
datagram none = []
datagram (some bytes) = bytes

module _ (l : Lan) where
  -- The socket of the responder, if it can be made and bound.
  unfoldable pub open_responder : M (Option ℤ)
  unfolding emit ask
  open_responder = do
    sd ← ask l.socket asked
    elim (failed sd) [
      | true ↦ pure none
      | false ↦ do
        emit (opened_socket sd)
        emit configured
        rc ← ask (λ h. l.bind h sd) bound
        elim (failed rc) [
          | true ↦ do emit (closed_socket sd); pure none
          | false ↦ do emit joined; pure (some sd)
        ]
    ]

  unfoldable pub send_reply : Option (Option Bytes) → M (Unit {0})
  unfolding emit
  send_reply none = emit out_of_bounds
  send_reply (some none) = pure tt
  send_reply (some (some bytes)) = emit (sent bytes)

  -- A round of the loop.
  unfoldable pub respond : M (Unit {0})
  unfolding send_reply emit ask
  respond = do
    got ← ask l.recvfrom received
    h ← get
    send_reply (mdns_round (datagram got) (l.ip h))
    emit (slept 500000000)

  unfoldable pub respond_rounds : ℕ → M (Unit {0})
  unfolding respond
  respond_rounds zero = pure tt
  respond_rounds (suc rounds) = do respond; respond_rounds rounds

  unfoldable pub respond_on : ℕ → Option ℤ → M (Option ℤ)
  unfolding respond_rounds
  respond_on rounds none = pure none
  respond_on rounds (some sd) = do respond_rounds rounds; pure (some sd)

  -- `mdns_responder`, with so many rounds of its loop; `none` is its return.
  unfoldable pub mdns_responder : ℕ → M (Option ℤ)
  unfolding open_responder respond_on
  mdns_responder rounds = do opened ← open_responder; respond_on rounds opened

  -- Whether the datagram that `recvfrom` gives asks for the service.
  abbrev pub Asks : Calls → Type 0
  Asks h = IsAsked (take 1024 (datagram (l.recvfrom h)))

  -- What the thread is meant to do: it has returned without a socket, or it has one and has gone
  -- through rounds, in each of which it has answered what asks for the service and nothing else.
  pub data Thread : Option ℤ → Calls → Type 0 where
    refused : Thread none (asked ∷ [])
    unbound :
        (sd : ℤ)
        → Thread none (closed_socket sd ∷ bound ∷ configured ∷ opened_socket sd ∷ asked ∷ [])
    ready :
        (sd : ℤ) → Thread (some sd) (joined ∷ bound ∷ configured ∷ opened_socket sd ∷ asked ∷ [])
    silent :
        {sd : ℤ} {h : Calls}
        → Thread (some sd) h
        → ¬ Asks h
        → Thread (some sd) (slept 500000000 ∷ received ∷ h)
    reply :
        {sd : ℤ} {h : Calls} {bytes : Bytes}
        → Thread (some sd) h
        → Asks h
        → length bytes ≡ 40
        → address (drop 36 bytes) ≡ l.ip (received ∷ h)
        → Thread (some sd) (slept 500000000 ∷ sent bytes ∷ received ∷ h)

  open_responder-Thread : Thread (open_responder []).0 (open_responder []).1
  unfolding open_responder emit ask pure ◌>>=◌ ◌>>◌
  open_responder-Thread = elim (Bool-cases (failed (l.socket []))) [
    | inl none_made ↦ rw none_made refused
    | inr made ↦
        let sd = l.socket [] in
        elim (Bool-cases (failed (l.bind (configured ∷ opened_socket sd ∷ asked ∷ []) sd))) [
          | inl failure ↦ rw (made, failure) (unbound sd)
          | inr success ↦ rw (made, success) (ready sd)
        ]
  ]

  module _ (wide : (h : Calls) → l.ip h < 2 ^ 32) where
    respond-Thread : {sd : ℤ} (h : Calls) → Thread (some sd) h → Thread (some sd) (respond h).1
    unfolding respond send_reply emit ask pure ◌>>=◌ ◌>>◌ get
    respond-Thread h t =
        let ip = l.ip (received ∷ h) in
        let (out, eq, iff, answers, size, spelled) =
          mdns_round_lem (datagram (l.recvfrom h)) ip (wide (received ∷ h)) in
        elim answers [
          | inl nothing ↦ rw (eq, nothing) (silent t λ asks. cc (iff.1 asks, nothing))
          | inr bytes ↦ rw (eq, bytes) (reply t (iff.0 bytes) size spelled)
        ]

    respond_rounds-Thread :
        {sd : ℤ} (rounds : ℕ) (h : Calls)
        → Thread (some sd) h
        → Thread (some sd) (respond_rounds rounds h).1
    unfolding respond_rounds pure ◌>>◌ ◌>>=◌
    respond_rounds-Thread zero h t = t
    respond_rounds-Thread (suc rounds) h t =
        respond_rounds-Thread rounds (respond h).1 (respond-Thread h t)

    respond_on-Thread :
        (rounds : ℕ) (opened : Option ℤ) (h : Calls)
        → Thread opened h
        → Thread (respond_on rounds opened h).0 (respond_on rounds opened h).1
    unfolding respond_on pure ◌>>◌ ◌>>=◌
    respond_on-Thread rounds none h t = t
    respond_on-Thread rounds (some sd) h t = respond_rounds-Thread rounds h t

    -- Whatever the bsd service answers, the thread has returned with its socket given back, or with none
    -- made, and has sent nothing, or it has its one socket, and in each of its rounds it has sent one
    -- answer if the datagram is a query of more than a header that names the service, and nothing if it
    -- is not, without a read out of bounds. An answer is 40 bytes that end with the console's address, if
    -- that is always a number of 32 bits.
    pub mdns_responder-Thread :
        (rounds : ℕ) → Thread (mdns_responder rounds []).0 (mdns_responder rounds []).1
    unfolding mdns_responder ◌>>=◌
    mdns_responder-Thread rounds =
        respond_on-Thread rounds (open_responder []).0 (open_responder []).1 open_responder-Thread
