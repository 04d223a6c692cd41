-- ===== src/Core/Mdns.antt =====
-- `mdns_responder`: what it answers to a datagram.
pub mod Responder
use nxremote_api.Base.{
  ℕ, ◌+◌, ◌/◌, ◌%◌, ◌<◌, ◌^◌, ◌*◌, Bool, true, ◌&&◌, Option, none, some, [], ◌∷◌, take, drop,
  length, get_or, ltb, lt→ltb, ltb→lt, ◌==◌, if◌then◌else◌, Bool-cases, inl, inr, ◌↔◌, ◌⊎◌, ◌≡◌,
  refl, arith,
}
use nxremote_api.Base.Text.{Bytes, codes}
use nxremote_api.CString.Search.{Occurs}
use nxremote_api.ByteSearch

-- `kMdnsLabel`.
abbrev pub mdns_label : Bytes
mdns_label = codes "_nxremoteapi"

-- The 40 bytes of `response`: a header with one additional record, the name switch.local, and an
-- address record that lives for a minute.
unfoldable pub mdns_response : ℕ → Bytes
mdns_response ip =
    0x00
    ∷ 0x00
    ∷ 0x84
    ∷ 0x00
    ∷ 0x00
    ∷ 0x00
    ∷ 0x00
    ∷ 0x01
    ∷ 0x00
    ∷ 0x00
    ∷ 0x00
    ∷ 0x00
    ∷ 0x06
    ∷ b's'
    ∷ b'w'
    ∷ b'i'
    ∷ b't'
    ∷ b'c'
    ∷ b'h'
    ∷ 0x05
    ∷ b'l'
    ∷ b'o'
    ∷ b'c'
    ∷ b'a'
    ∷ b'l'
    ∷ 0x00
    ∷ 0x00
    ∷ 0x01
    ∷ 0x00
    ∷ 0x01
    ∷ 0x00
    ∷ 0x00
    ∷ 0x00
    ∷ 0x3c
    ∷ 0x00
    ∷ 0x04
    ∷ ip % 256
    ∷ ip / 2 ^ 8 % 256
    ∷ ip / 2 ^ 16 % 256
    ∷ ip / 2 ^ 24 % 256
    ∷ []

-- `(buffer[2] & 0x80) == 0`: the datagram is a query.
unfoldable pub is_query : Bytes → Bool
is_query datagram = get_or datagram 2 0 / 128 % 2 == 0

-- A round of the loop, with what `recvfrom` gave and the console's address: `none` would be a read
-- out of bounds, and within it is what is sent, if anything is.
unfoldable pub mdns_round : Bytes → ℕ → Option (Option Bytes)
unfolding is_query
mdns_round received ip =
    let datagram = take 1024 received in
    if ltb 12 (length datagram) && is_query datagram
    then elim (ByteSearch.contains (drop 12 datagram) mdns_label) [
      | none ↦ none
      | some found ↦ some (if found then some (mdns_response ip) else none)
    ]
    else some none

-- What the responder is meant to answer.
abbrev pub IsAsked : Bytes → Type 0
IsAsked datagram =
    (12 < length datagram) × (is_query datagram ≡ true) × Occurs mdns_label (drop 12 datagram)

-- The address that four bytes spell, the lowest first.
abbrev pub address : Bytes → ℕ
address bytes =
    get_or bytes 0 0
    + 2 ^ 8 * get_or bytes 1 0
    + 2 ^ 16 * get_or bytes 2 0
    + 2 ^ 24 * get_or bytes 3 0

abbrev Spells : ℕ → Type 0
Spells ip = (length (mdns_response ip) ≡ 40) × (address (drop 36 (mdns_response ip)) ≡ ip)

mdns_response-Spells : (ip : ℕ) → ip < 2 ^ 32 → Spells ip
unfolding mdns_response
mdns_response-Spells ip small = (refl, omega arith)

-- The responder never reads out of bounds, and it answers exactly the queries of more than a header
-- that name the service behind it. What it sends are 40 bytes, of which the last four spell the
-- console's address, if that is a number of 32 bits.
pub mdns_round_lem :
    (received : Bytes) (ip : ℕ)
    → ip < 2 ^ 32
    → (sent : Option Bytes) × (mdns_round received ip ≡ some sent)
      × ((sent ≡ some (mdns_response ip)) ↔ IsAsked (take 1024 received))
      × ((sent ≡ none) ⊎ (sent ≡ some (mdns_response ip)))
      × (length (mdns_response ip) ≡ 40)
      × (address (drop 36 (mdns_response ip)) ≡ ip)
unfolding mdns_round
mdns_round_lem received ip small =
    let datagram = take 1024 received in
    let (size, spelled) = mdns_response-Spells ip small in
    elim (Bool-cases (ltb 12 (length datagram))) [
      | inr short ↦ (
        none,
        rw short refl,
        (λ e. cc e, λ (long, _, _). cc (lt→ltb 12 (length datagram) long, short)),
        inl refl,
        size,
        spelled,
      )
      | inl long ↦ elim (Bool-cases (is_query datagram)) [
        | inr answer ↦ (
          none,
          rw (long, answer) refl,
          (λ e. cc e, λ (_, query, _). cc (query, answer)),
          inl refl,
          size,
          spelled,
        )
        | inl query ↦
            let (found, eq, iff) = ByteSearch.contains_lem (drop 12 datagram) mdns_label in
            elim (Bool-cases found) [
              | inr absent ↦ (
                none,
                rw (long, query, eq, absent) refl,
                (λ e. cc e, λ (_, _, o). cc (iff.1 o, absent)),
                inl refl,
                size,
                spelled,
              )
              | inl present ↦ (
                some (mdns_response ip),
                rw (long, query, eq, present) refl,
                (λ _. (ltb→lt 12 (length datagram) long, query, iff.0 present), λ _. refl),
                inr refl,
                size,
                spelled,
              )
            ]
      ]
    ]
