-- ===== src/Core/Stream.antt =====
-- What a client that keeps taking bytes is sent.
use nxremote_api.Base.{
  ℕ, zero, suc, ◌-◌, ◌≤◌, Bool, true, false, [], ◌∷◌, ◌++◌, append_assoc, append-nil, take, drop,
  take-append-drop, length, length-drop, Bool-cases, inl, inr, ◌≡◌, refl, sym, ◌∙◌, ap, arith,
}
use nxremote_api.Base.Int.{pos, leb_ℤ}
use nxremote_api.Base.Text.{Bytes}
use nxremote_api.Core.World.{
  asked, sent, History, Platform, Core, M, pure, ◌>>=◌, ◌>>◌, get, when, ask, emit, append_line,
  trace, boot_log_path,
}
use nxremote_api.Core.Net.{taken, write_some, send_loop, send_timeout, send}
use nxremote_api.Core.Waits.{Takes, suc_not_leb}

-- All bytes that the clients were sent, in their order.
abbrev pub stream : History → Bytes
stream [] = []
stream (sent bytes ∷ h) = stream h ++ bytes
stream (e ∷ h) = stream h

-- A call that sends these bytes, in any state.
pub record Sends {A : Type 0} (m : M A) (bytes : Bytes) : Type 0 where
  pub run : (s : Core) → stream (m s).1.events ≡ stream s.events ++ bytes

pub Sends-pure : {A : Type 0} (a : A) → Sends (pure a) []
unfolding pure
Sends-pure a = record { run = λ s. sym (append-nil (stream s.events)) }

-- A call that sends a part, which its value may tell, before one that sends the rest.
Sends-part :
    {A B : Type 0} (m : M A) (f : A → M B) {bytes : Bytes}
    → ((s : Core)
        → (a : Bytes) × (b : Bytes) × (stream (m s).1.events ≡ stream s.events ++ a)
          × Sends (f (m s).0) b
          × (a ++ b ≡ bytes))
    → Sends (m >>= f) bytes
unfolding ◌>>=◌
Sends-part m f h = record {
  run = λ s.
      let (a, b, first, rest, whole) = h s in
      rest.run (m s).1
      ∙ ap (λ t. t ++ b) first
      ∙ append_assoc (stream s.events) a b
      ∙ ap (λ t. stream s.events ++ t) whole;
}

pub Sends-bind :
    {A B : Type 0} {m : M A} {f : A → M B} {a b : Bytes}
    → Sends m a
    → ((x : A) → Sends (f x) b)
    → Sends (m >>= f) (a ++ b)
Sends-bind {m} {f} {a} {b} hm hf = Sends-part m f λ s. (a, b, hm.run s, hf (m s).0, refl)

pub Sends-seq :
    {A : Type 0} {m : M (Unit {0})} {k : M A} {a b : Bytes}
    → Sends m a
    → Sends k b
    → Sends (m >> k) (a ++ b)
unfolding ◌>>◌
Sends-seq hm hk = Sends-bind hm λ _. hk

pub Sends-eq : {A : Type 0} {m : M A} {a b : Bytes} → a ≡ b → Sends m a → Sends m b
Sends-eq h sm = record { run = λ s. sm.run s ∙ ap (λ t. stream s.events ++ t) h }

module _ (p : Platform) where
  pub Sends-trace : (message : Bytes) → Sends (trace p message) []
  unfolding trace append_line ◌>>=◌ get when ask emit pure
  Sends-trace message = record {
    run = λ s. elim (Bool-cases s.config.debug) [
      | inr off ↦ rw (off, append-nil (stream s.events)) refl
      | inl on ↦ elim (Bool-cases (p.can_write s.events boot_log_path)) [
        | inl opens ↦ rw (on, opens, append-nil (stream s.events)) refl
        | inr fails ↦ rw (on, fails, append-nil (stream s.events)) refl
      ]
    ];
  }

  -- A call of another service is no message.
  pub Sends-asked : {A : Type 0} (f : History → A) → Sends (ask f asked) []
  unfolding ask
  Sends-asked f = record { run = λ s. sym (append-nil (stream s.events)) }

  Sends-false :
      {A : Type 0} (b : Bool) (m : M A) {n : M A} {bytes : Bytes}
      → b ≡ false
      → Sends n bytes
      → Sends (elim b [ true ↦ m | false ↦ n ]) bytes
  Sends-false true m h r = cc h
  Sends-false false m h r = r

  module _ (takes : Takes p) where
    Sends-send_loop :
        (fuel : ℕ) (rest : Bytes) (n : ℕ)
        → length rest ≤ fuel
        → Sends (send_loop p fuel rest n) rest
    unfolding send_loop write_some ask
    Sends-send_loop zero [] n enough = Sends-pure _
    Sends-send_loop zero (x ∷ rest) n enough = absurd (omega arith)
    Sends-send_loop (suc fuel) [] n enough = Sends-pure _
    Sends-send_loop (suc fuel) (x ∷ rest) n enough = Sends-part _ _ λ s. (
      [],
      x ∷ rest,
      sym (append-nil (stream s.events)),
      Sends-seq (Sends-trace _) (
          Sends-false _ _ (takes.0 s.events) (
            Sends-part _ _ λ s'.
              let (i, e, small) = takes.1 s'.events x rest in
              let took : taken (p.write s'.events (x ∷ rest)) ≡ suc i = ap taken e in
              let k = taken (p.write s'.events (x ∷ rest)) in
              let left : length (drop k (x ∷ rest)) ≡ length rest - i =
                ap (λ m. length (drop m (x ∷ rest))) took ∙ length-drop i rest in
              (
                take k (x ∷ rest),
                drop k (x ∷ rest),
                refl,
                Sends-false _ _ (ap (λ m. leb_ℤ m (pos 0)) e ∙ suc_not_leb p i)
                    (Sends-send_loop fuel (drop k (x ∷ rest)) _ (omega (arith, left))),
                take-append-drop k (x ∷ rest),
              ))),
      refl,
    )

    Sends-send_timeout : (bytes : Bytes) → Sends (send_timeout p bytes) bytes
    unfolding send_timeout
    Sends-send_timeout bytes =
        Sends-seq (Sends-trace _) (Sends-send_loop (length bytes) bytes 0 (omega arith))

    -- A message that is sent to a client that takes at least a byte each time reaches it whole, its bytes in
    -- their order, however few it takes at once.
    pub Sends-send : (bytes : Bytes) → Sends (send p bytes) bytes
    unfolding send
    Sends-send bytes =
        Sends-eq (append-nil bytes) (Sends-bind (Sends-send_timeout bytes) λ n. Sends-pure tt)
