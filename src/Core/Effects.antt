-- ===== src/Core/Effects.antt =====
-- Which events a part of `handle_client` adds to the history.
pub mod Actions
pub mod Routes
pub mod Client
use nxremote_api.Base.{
  Bool, true, false, List, [], ◌∷◌, ◌++◌, append_assoc, if◌then◌else◌, ℕ, zero, suc, Option, none,
  some, All, All-append, ◌≡◌, refl, sym, subst, ◌∙◌, ap, arith,
}
use nxremote_api.Base.Int.{pos, leb_ℤ}
use nxremote_api.Base.Text.{Bytes}
use nxremote_api.Logger.{LogLevel, info, error}
use nxremote_api.Core.Net.{recv_timeout, write_some, send_loop, send_timeout, send}
use nxremote_api.Core.World.{
  Event, polled, received, sent, closed, slept, ticked, opened, wrote, appended, removed, made_dir,
  power, launched, pressed, asked, accepted, opened_socket, closed_socket, aborted, History,
  Platform, Core, M, pure, ◌>>=◌, ◌>>◌, emit, ask, get, when, modify, or_abort, append_line, log_as,
  log_i, log_e, trace, boot_log_path,
}
use nxremote_api.Core.Album.{text_eq}

-- Every event but the start and the end of a connection, the end of the process, and the server's
-- sockets.
abbrev pub is_inner : Event → Bool
is_inner closed = false
is_inner aborted = false
is_inner accepted = false
is_inner (opened_socket fd) = false
is_inner (closed_socket fd) = false
is_inner e = true

-- Of these, every event that does not act on the console: no power state, no launch, no button, and
-- no file removed.
abbrev pub is_mild : Event → Bool
is_mild (power act) = false
is_mild (launched storage id) = false
is_mild (pressed bit) = false
is_mild (removed path) = false
is_mild e = is_inner e

-- Of these, every event that changes no file and no directory, but for lines of the boot log.
abbrev pub is_basic : Event → Bool
is_basic (wrote path text) = false
is_basic (made_dir path) = false
is_basic (appended path text) = text_eq path boot_log_path
is_basic e = is_mild e

-- A test that refuses the removal of a file, as that of the Album override is.
abbrev pub Spares : (Event → Bool) → Type 0
Spares q = q (removed []) ≡ false

-- The call adds events for which the test holds, in any state. If the test refuses removals, the call
-- leaves the flag of the Album override as it is.
pub record Only {A : Type 0} (q : Event → Bool) (m : M A) : Type 0 where
  pub run :
      (s : Core)
      → (added : List Event) × ((m s).1.events ≡ added ++ s.events) × All (λ e. q e ≡ true) added
  pub album : (s : Core) → Spares q → (m s).1.album_override_active ≡ s.album_override_active

module _ {q : Event → Bool} where
  pub Only-pure : {A : Type 0} (a : A) → Only q (pure a)
  unfolding pure
  Only-pure a = record { run = λ s. ([], refl, tt); album = λ s k. refl }

  pub Only-get : Only q get
  unfolding get
  Only-get = record { run = λ s. ([], refl, tt); album = λ s k. refl }

  pub Only-bind :
      {A B : Type 0} {m : M A} {f : A → M B}
      → Only q m
      → ((a : A) → Only q (f a))
      → Only q (m >>= f)
  unfolding ◌>>=◌
  Only-bind {m} {f} om of = record {
    run = λ s.
        let (xs, eq, h) = om.run s in
        let (ys, eq', h') = (of ((m s).0)).run ((m s).1) in
        (
          ys ++ xs,
          eq' ∙ ap (λ l. ys ++ l) eq ∙ sym (append_assoc ys xs s.events),
          All-append _ ys xs h' h,
        );
    album = λ s k. (of ((m s).0)).album ((m s).1) k ∙ om.album s k;
  }

  pub Only-seq : {A : Type 0} {m : M (Unit {0})} {k : M A} → Only q m → Only q k → Only q (m >> k)
  unfolding ◌>>◌
  Only-seq om ok = Only-bind om λ _. ok

  pub Only-emit : (e : Event) → q e ≡ true → Only q (emit e)
  unfolding emit
  Only-emit e h = record { run = λ s. (e ∷ [], refl, (h, tt)); album = λ s k. refl }

  pub Only-ask : {A : Type 0} (f : History → A) (e : Event) → q e ≡ true → Only q (ask f e)
  unfolding ask
  Only-ask f e h = record { run = λ s. (e ∷ [], refl, (h, tt)); album = λ s k. refl }

  pub Only-modify :
      (f : Core → Core)
      → ((s : Core) → (f s).events ≡ s.events)
      → ((s : Core) → Spares q → (f s).album_override_active ≡ s.album_override_active)
      → Only q (modify f)
  unfolding modify
  Only-modify f h k = record { run = λ s. ([], h s, tt); album = k }

  pub Only-when : (b : Bool) {m : M (Unit {0})} → Only q m → Only q (when b m)
  unfolding when
  Only-when true om = om
  Only-when false om = Only-pure tt

  -- A call that is chosen by a test.
  pub Only-bool :
      {A : Type 0} (b : Bool) {m n : M A}
      → Only q m
      → Only q n
      → Only q (elim b [ true ↦ m | false ↦ n ])
  Only-bool true om on = om
  Only-bool false om on = on

  pub Only-option :
      {A B : Type 0} (o : Option B) {n : M A} {f : B → M A}
      → Only q n
      → ((b : B) → Only q (f b))
      → Only q (elim o [ none ↦ n | some b ↦ f b ])
  Only-option none on of = on
  Only-option (some b) on of = of b

  pub Only-list :
      {A B : Type 0} (l : List B) {n : M A} {f : B → List B → M A}
      → Only q n
      → ((x : B) (xs : List B) → Only q (f x xs))
      → Only q (elim l [ [] ↦ n | x ∷ xs ↦ f x xs ])
  Only-list [] on of = on
  Only-list (x ∷ xs) on of = of x xs

  pub Only-if :
      {A : Type 0} (b : Bool) {m n : M A} → Only q m → Only q n → Only q (if b then m else n)
  Only-if true om on = om
  Only-if false om on = on

  pub Only-or_abort :
      {A : Type 0} {o : Option A} {f : A → M (Unit {0})}
      → (a : A) × (o ≡ some a)
      → ((a : A) → Only q (f a))
      → Only q (or_abort o f)
  unfolding or_abort
  Only-or_abort {f} (a, eq) of = subst (λ o. Only q (or_abort o f)) (sym eq) (of a)

pub ruleset effects = (
  Only-pure, Only-get, Only-bind, Only-seq, Only-emit, Only-ask, Only-when, Only-bool, Only-option,
  Only-list, Only-if,
)

-- A weaker test.
pub All-weaker :
    {q r : Event → Bool}
    → ((e : Event) → q e ≡ true → r e ≡ true)
    → (es : List Event) → All (λ e. q e ≡ true) es
    → All (λ e. r e ≡ true) es
All-weaker weaker [] h = tt
All-weaker weaker (e ∷ es) h = (weaker e h.0, All-weaker weaker es h.1)

pub Only-weaker :
    {q r : Event → Bool} {A : Type 0} {m : M A}
    → ((e : Event) → q e ≡ true → r e ≡ true)
    → (Spares r → Spares q)
    → Only q m
    → Only r m
Only-weaker weaker spares om = record {
  run = λ s. let (added, eq, h) = om.run s in (added, eq, All-weaker weaker added h);
  album = λ s k. om.album s (spares k);
}

is_mild-is_inner : (e : Event) → is_mild e ≡ true → is_inner e ≡ true
is_mild-is_inner e h = ground arith

pub is_basic-is_mild : (e : Event) → is_basic e ≡ true → is_mild e ≡ true
is_basic-is_mild e h = ground arith

pub is_basic-is_inner : (e : Event) → is_basic e ≡ true → is_inner e ≡ true
is_basic-is_inner e h = is_mild-is_inner e (is_basic-is_mild e h)

pub mild : {A : Type 0} {m : M A} → Only is_basic m → Only is_mild m
mild om = Only-weaker is_basic-is_mild (λ k. refl) om

pub inner : {A : Type 0} {m : M A} → Only is_basic m → Only is_inner m
inner om = Only-weaker is_basic-is_inner (λ k. refl) om

pub mild_inner : {A : Type 0} {m : M A} → Only is_mild m → Only is_inner m
mild_inner om = Only-weaker is_mild-is_inner (λ k. refl) om

module _ (p : Platform) where
  pub Only-append_line : (path text : Bytes) → Only is_mild (append_line p path text)
  unfolding append_line
  Only-append_line path text = search effects

  Only-boot_line : (text : Bytes) → Only is_basic (append_line p boot_log_path text)
  unfolding append_line text_eq
  Only-boot_line text = Only-bind (Only-ask _ _ refl) λ ok. Only-when ok (Only-emit _ refl)

  pub Only-trace : (message : Bytes) → Only is_basic (trace p message)
  unfolding trace
  Only-trace message = Only-bind Only-get λ s. Only-when s.config.debug (Only-boot_line _)

  Only-log_as : (level : LogLevel) (message : Bytes) → Only is_basic (log_as p level message)
  unfolding log_as
  Only-log_as level message = record {
    run = λ s. (asked ∷ [], refl, (refl, tt));
    album = λ s k. refl;
  }

  pub Only-log_i : (message : Bytes) → Only is_basic (log_i p message)
  unfolding log_i
  Only-log_i = Only-log_as info

  pub Only-log_e : (message : Bytes) → Only is_basic (log_e p message)
  unfolding log_e
  Only-log_e = Only-log_as error

  pub Only-recv_timeout : (len : ℕ) → Only is_basic (recv_timeout p len)
  unfolding recv_timeout
  Only-recv_timeout len =
      Only-bind (Only-ask _ _ refl) λ ready. Only-bool ready (search effects) (search effects)

  Only-write_some : (rest : Bytes) → Only is_basic (write_some p rest)
  unfolding write_some
  Only-write_some rest = record { run = λ s. (sent _ ∷ [], refl, (refl, tt)); album = λ s k. refl }

  Only-send_loop : (fuel : ℕ) (rest : Bytes) (n : ℕ) → Only is_basic (send_loop p fuel rest n)
  unfolding send_loop
  Only-send_loop zero rest n = search effects
  Only-send_loop (suc fuel) [] n = search effects
  Only-send_loop (suc fuel) (x ∷ rest) n = Only-bind (Only-ask _ _ refl) λ sel.
      Only-seq (Only-trace _) (
        Only-bool (leb_ℤ sel (pos 0)) (Only-pure _) (
          Only-bind (Only-write_some _)
            λ k. Only-bool (leb_ℤ k (pos 0)) (Only-pure _) (Only-send_loop fuel _ _)))

  pub Only-send_timeout : (bytes : Bytes) → Only is_basic (send_timeout p bytes)
  unfolding send_timeout
  Only-send_timeout bytes = search (effects, Only-trace, Only-send_loop)

  pub Only-send : (bytes : Bytes) → Only is_basic (send p bytes)
  unfolding send
  Only-send bytes = search (effects, Only-send_timeout)
