-- ===== src/Core/Waits.antt =====
-- The loops of a connection end, and their fuel is enough.
use nxremote_api.Base.{
  ℕ, zero, suc, ◌+◌, ◌-◌, ◌*◌, ◌≤◌, Bool, true, false, ◌||◌, Option, none, some, List, [], ◌∷◌,
  ◌++◌, length, drop, leb, ltb, ◌≡◌, refl, sym, subst, ◌∙◌, ap, arith, length-append, length-drop,
}
use nxremote_api.Base.Int.{pos, leb_ℤ}
use nxremote_api.Base.Text.{Bytes, codes}
use nxremote_api.Core.World.{
  History, Platform, Core, polled, ticked, M, pure, u64, log_i, ◌>>=◌, ◌>>◌, trace, ask,
}
use nxremote_api.Core.Net.{taken, write_some, send_loop, send_timeout, recv_timeout, count_of}
use nxremote_api.CString.Format.{snprintf, signed_decimal}
use nxremote_api.Core.Request.{buffer_room, elapsed, await_body, is_complete}

-- Calls that agree in every state.
pub record SameCall {A : Type 0} (m n : M A) : Type 0 where
  pub agree : (s : Core) → m s ≡ n s

Same-bind :
    {A B : Type 0} (m : M A) {f g : A → M B}
    → ((a : A) → SameCall (f a) (g a))
    → SameCall (m >>= f) (m >>= g)
unfolding ◌>>=◌
Same-bind m h = record { agree = λ s. (h ((m s).0)).agree ((m s).1) }

Same-seq : {A : Type 0} (m : M (Unit {0})) {k l : M A} → SameCall k l → SameCall (m >> k) (m >> l)
unfolding ◌>>◌
Same-seq m h = Same-bind m λ _. h

Same-refl : {A : Type 0} (m : M A) → SameCall m m
Same-refl m = record { agree = λ s. refl }

Same-bool :
    {A : Type 0} (b : Bool) {m m' n n' : M A}
    → SameCall m m'
    → SameCall n n'
    → SameCall (elim b [ true ↦ m | false ↦ n ]) (elim b [ true ↦ m' | false ↦ n' ])
Same-bool true h k = h
Same-bool false h k = k

Same-option :
    {A B : Type 0} (o : Option B) {n n' : M A} {f f' : B → M A}
    → SameCall n n'
    → ((b : B) → SameCall (f b) (f' b))
    → SameCall (elim o [ none ↦ n | some b ↦ f b ]) (elim o [ none ↦ n' | some b ↦ f' b ])
Same-option none h k = h
Same-option (some b) h k = k b

Same-list :
    {A B : Type 0} (l : List B) {n n' : M A} {f f' : B → List B → M A}
    → SameCall n n'
    → ((x : B) (xs : List B) → SameCall (f x xs) (f' x xs))
    → SameCall (elim l [ [] ↦ n | x ∷ xs ↦ f x xs ]) (elim l [ [] ↦ n' | x ∷ xs ↦ f' x xs ])
Same-list [] h k = h
Same-list (x ∷ xs) h k = k x xs

-- A call whose value is the same in every state.
record Returns {A : Type 0} (m : M A) (a : A) : Type 0 where
  result : (s : Core) → (m s).0 ≡ a

Returns-pure : {A : Type 0} {a b : A} → a ≡ b → Returns (pure a) b
unfolding pure
Returns-pure h = record { result = λ s. h }

Returns-eq : {A : Type 0} {m : M A} {a b : A} → a ≡ b → Returns m a → Returns m b
Returns-eq h r = record { result = λ s. r.result s ∙ h }

Returns-seq : {A : Type 0} (m : M (Unit {0})) {k : M A} {a : A} → Returns k a → Returns (m >> k) a
unfolding ◌>>◌ ◌>>=◌
Returns-seq m r = record { result = λ s. r.result ((m s).1) }

-- With what is known of the first value.
Returns-bind :
    {A B : Type 0} (m : M A) {f : A → M B} {b : B} (P : A → Type 0)
    → ((s : Core) → P ((m s).0))
    → ((a : A) → P a → Returns (f a) b)
    → Returns (m >>= f) b
unfolding ◌>>=◌
Returns-bind m P known r = record { result = λ s. (r ((m s).0) (known s)).result ((m s).1) }

Returns-false :
    {A : Type 0} {b : Bool} (m : M A) {n : M A} {a : A}
    → b ≡ false
    → Returns n a
    → Returns (elim b [ true ↦ m | false ↦ n ]) a
Returns-false m {n} {a} h r =
    subst (λ b. Returns (elim b as (λ _. M _) [ true ↦ m | false ↦ n ]) a) (sym h) r

module _ (p : Platform) where
  Same-true :
      {b : Bool} {m : M (Option Bytes)} (n : M (Option Bytes))
      → b ≡ true
      → SameCall m (elim b [ true ↦ m | false ↦ n ])
  Same-true {m} n h = record {
    agree = λ s. ap (λ b. (elim b as (λ _. M (Option Bytes)) [ true ↦ m | false ↦ n ]) s) (sym h);
  }

  or_full : (b : Bool) (n : ℕ) → buffer_room ≤ n → (b || leb buffer_room n) ≡ true
  or_full true n h = refl
  or_full false n h = ground arith

  await_full :
      (fuel start : ℕ) (raw : Bytes)
      → buffer_room ≤ length raw
      → SameCall (pure (some raw)) (await_body p fuel start raw)
  unfolding await_body
  await_full zero start raw full = Same-refl _
  await_full (suc fuel) start raw full = Same-true _ (or_full (is_complete raw) (length raw) full)

  abbrev retry_text : Option Bytes → Bytes
  retry_text got =
      snprintf 64 (codes "body-wait: retry recv_timeout returned " ++ signed_decimal (count_of got))

  -- A round with either fuel is the same if the rounds after it are.
  await_step :
      (f g start : ℕ) (raw : Bytes)
      → ((x : ℕ) (xs : Bytes)
          → SameCall (await_body p f start (raw ++ x ∷ xs)) (await_body p g start (raw ++ x ∷ xs)))
      → SameCall (await_body p (suc f) start raw) (await_body p (suc g) start raw)
  unfolding await_body
  await_step f g start raw same =
      Same-bool (is_complete raw || leb buffer_room (length raw)) (Same-refl (pure (some raw))) (
        Same-bind (ask p.tick ticked) λ now.
          Same-bool (ltb (u64 (10 * p.tick_freq)) (elapsed now start))
            (Same-refl (
              log_i p (codes "body-wait: total deadline exceeded, dropping connection")
              >> pure none))
            (Same-bind (recv_timeout p (buffer_room - length raw)) λ got.
              Same-seq (log_i p (retry_text got)) (
                Same-option got (Same-refl (pure (some raw)))
                  λ bytes. Same-list bytes (Same-refl (pure (some raw))) same)))

  await_same :
      (fuel more start : ℕ) (raw : Bytes)
      → buffer_room ≤ fuel + length raw
      → SameCall (await_body p fuel start raw) (await_body p (fuel + more) start raw)
  unfolding await_body
  await_same zero more start raw enough =
      let e : more ≡ 0 + more = omega arith in
      subst (λ k. SameCall (pure (some raw)) (await_body p k start raw)) e
        (await_full more start raw (omega arith))
  await_same (suc fuel) more start raw enough =
      let e : suc (fuel + more) ≡ suc fuel + more = omega arith in
      subst (λ k. SameCall (await_body p (suc fuel) start raw) (await_body p k start raw)) e
        (await_step fuel (fuel + more) start raw λ x xs.
          await_same fuel more start (raw ++ x ∷ xs) (omega (arith, length-append raw (x ∷ xs))))

  -- The wait for a request's body ends before its fuel does: every round that goes on adds a byte, so
  -- where the fuel and the bytes so far come to the room of the buffer, more fuel changes nothing.
  pub await_body-fuel :
      (fuel more start : ℕ) (raw : Bytes) (s : Core)
      → buffer_room ≤ fuel + length raw
      → await_body p fuel start raw s ≡ await_body p (fuel + more) start raw s
  await_body-fuel fuel more start raw s enough = (await_same fuel more start raw enough).agree s

  -- A client that is ready, and takes at least a byte of what is left, and no more than that.
  abbrev pub Takes : Type 0
  Takes =
      ((h : History) → leb_ℤ (p.writable h) (pos 0) ≡ false)
      × ((h : History) (x : ℕ) (rest : Bytes)
          → (k : ℕ) × (p.write h (x ∷ rest) ≡ pos (suc k)) × (k ≤ length rest))

  pub suc_not_leb : (i : ℕ) → leb_ℤ (pos (suc i)) (pos 0) ≡ false
  suc_not_leb i = ground arith

  send_loop-Takes :
      Takes
      → (fuel : ℕ) (rest : Bytes) (n : ℕ) → length rest ≤ fuel
      → Returns (send_loop p fuel rest n) (pos (n + length rest))
  unfolding send_loop write_some ask
  send_loop-Takes takes zero [] n enough = Returns-pure (ap pos (omega arith))
  send_loop-Takes takes zero (x ∷ rest) n enough = absurd (omega arith)
  send_loop-Takes takes (suc fuel) [] n enough = Returns-pure (ap pos (omega arith))
  send_loop-Takes takes (suc fuel) (x ∷ rest) n enough =
      Returns-bind (ask p.writable polled) (λ sel. leb_ℤ sel (pos 0) ≡ false)
        (λ s. takes.0 s.events)
        λ sel ready. Returns-seq _ (
          Returns-false _ ready (
            Returns-bind (write_some p (x ∷ rest))
              (λ k. (i : ℕ) × (k ≡ pos (suc i)) × (i ≤ length rest)) (λ s. takes.1 s.events x rest)
              λ k (i, e, small).
                let took : taken k ≡ suc i = ap taken e in
                let left : length (drop (taken k) (x ∷ rest)) ≡ length rest - i =
                  ap (λ m. length (drop m (x ∷ rest))) took ∙ length-drop i rest in
                Returns-false _ (ap (λ m. leb_ℤ m (pos 0)) e ∙ suc_not_leb i) (
                  Returns-eq (ap pos (omega (arith, took, left))) (
                    send_loop-Takes takes fuel (drop (taken k) (x ∷ rest)) (n + taken k)
                      (omega (arith, left))))))

  -- A client that is always ready, and takes at least one of the bytes that it is offered each time, is
  -- sent the whole of a message: `send_timeout` returns its length.
  pub send_timeout-Takes :
      Takes → (bytes : Bytes) (s : Core) → (send_timeout p bytes s).0 ≡ pos (length bytes)
  unfolding send_timeout
  send_timeout-Takes takes bytes s =
      (Returns-seq (trace p (codes "send_timeout: enter"))
          (send_loop-Takes takes (length bytes) bytes 0 (omega arith))).result
        s
      ∙ ap pos (omega arith)
