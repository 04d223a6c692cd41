-- ===== src/Core/Effects/Client.antt =====
-- `handle_client` closes its socket, once, whatever it reads.
use nxremote_api.Base.{
  ℕ, zero, suc, Bool, true, false, ◌||◌, Option, none, some, List, [], ◌∷◌, ◌++◌, leb, length, All,
  All-append, append_assoc, ◌≡◌, refl, sym, ◌∙◌, ap, if◌then◌else◌,
}
use nxremote_api.Base.Text.{Bytes, codes}
use nxremote_api.CString.Search.{contains}
use nxremote_api.JsonSafeAccess.{Json, IsLawful}
use nxremote_api.HttpFraming.{has_valid_api_token}
use nxremote_api.Core.World.{Event, closed, History, Platform, Core, M, ◌>>=◌, ◌>>◌, emit}
use nxremote_api.Core.Net.{close}
use nxremote_api.Core.Info.{
  read_sd_total, read_sd_free, read_name, read_title, read_all, handle_info,
}
use nxremote_api.Core.Request.{
  requires_auth, is_complete, buffer_room, await_body, check_reloaded, check_token, authorize,
  dispatch, answer, serve, receive_rest, drop_client, handle_client,
}
use nxremote_api.Core.Effects.{
  is_inner, is_mild, is_basic, is_basic-is_inner, All-weaker, mild_inner, inner, Only, effects,
  Only-pure, Only-get, Only-bind, Only-seq, Only-ask, Only-bool, Only-option, Only-list, Only-trace,
  Only-log_i, Only-recv_timeout, Only-send_timeout, Only-send,
}
use nxremote_api.Core.Effects.Actions.{Only-poll}
use nxremote_api.Core.Effects.Routes.{Only-load_config, Only-route}

-- From the one history to the other, the socket was closed once, and all other events pass the test.
abbrev pub ClosesBy : (Event → Bool) → History → History → Type 0
ClosesBy q old new =
    (before : List Event) × (after : List Event) × (new ≡ after ++ closed ∷ (before ++ old))
    × All (λ e. q e ≡ true) before
    × All (λ e. q e ≡ true) after

-- The socket was closed once, and the process not aborted.
abbrev pub ClosesOnce : History → History → Type 0
ClosesOnce = ClosesBy is_inner

-- A call that does so in every state.
pub record Closes {A : Type 0} (q : Event → Bool) (m : M A) : Type 0 where
  pub run : (s : Core) → ClosesBy q s.events (m s).1.events

module _ {q : Event → Bool} where
  pub Closes-emit : Closes q (emit closed)
  unfolding emit
  Closes-emit = record { run = λ s. ([], [], refl, tt, tt) }

  pub Closes-bind :
      {A B : Type 0} {m : M A} {f : A → M B}
      → Only q m
      → ((a : A) → Closes q (f a))
      → Closes q (m >>= f)
  unfolding ◌>>=◌
  Closes-bind {m} {f} om of = record {
    run = λ s.
        let (xs, eq, h) = om.run s in
        let (before, after, eq', hb, ha) = (of ((m s).0)).run ((m s).1) in
        (
          before ++ xs,
          after,
          eq'
              ∙ ap (λ l. after ++ closed ∷ (before ++ l)) eq
              ∙ ap (λ l. after ++ closed ∷ l) (sym (append_assoc before xs s.events)),
          All-append _ before xs hb h,
          ha,
        );
  }

  pub Closes-seq :
      {A : Type 0} {m : M (Unit {0})} {k : M A} → Only q m → Closes q k → Closes q (m >> k)
  unfolding ◌>>◌
  Closes-seq om ok = Closes-bind om λ _. ok

  pub Closes-then :
      {A : Type 0} {m : M (Unit {0})} {k : M A} → Closes q m → Only q k → Closes q (m >> k)
  unfolding ◌>>◌ ◌>>=◌
  Closes-then {m} om ok = record {
    run = λ s.
        let (before, after, eq, hb, ha) = om.run s in
        let (ys, eq', h) = ok.run ((m s).1) in
        (
          before,
          ys ++ after,
          eq' ∙ ap (λ l. ys ++ l) eq ∙ sym (append_assoc ys after (closed ∷ (before ++ s.events))),
          hb,
          All-append _ ys after h ha,
        );
  }

  pub Closes-bool :
      {A : Type 0} (b : Bool) {m n : M A}
      → Closes q m
      → Closes q n
      → Closes q (elim b [ true ↦ m | false ↦ n ])
  Closes-bool true om on = om
  Closes-bool false om on = on

  pub Closes-if :
      {A : Type 0} (b : Bool) {m n : M A} → Closes q m → Closes q n → Closes q (if b then m else n)
  Closes-if true om on = om
  Closes-if false om on = on

  pub Closes-option :
      {A B : Type 0} (o : Option B) {n : M A} {f : B → M A}
      → Closes q n
      → ((b : B) → Closes q (f b))
      → Closes q (elim o [ none ↦ n | some b ↦ f b ])
  Closes-option none on of = on
  Closes-option (some b) on of = of b

  pub Closes-list :
      {A B : Type 0} (l : List B) {n : M A} {f : B → List B → M A}
      → Closes q n
      → ((x : B) (xs : List B) → Closes q (f x xs))
      → Closes q (elim l [ [] ↦ n | x ∷ xs ↦ f x xs ])
  Closes-list [] on of = on
  Closes-list (x ∷ xs) on of = of x xs

Closes-inner : {A : Type 0} {m : M A} → Closes is_basic m → Closes is_inner m
Closes-inner c = record {
  run = λ s.
      let (before, after, eq, hb, ha) = c.run s in
      (
        before,
        after,
        eq,
        All-weaker is_basic-is_inner before hb,
        All-weaker is_basic-is_inner after ha,
      );
}

module _ (p : Platform) where
  pub Closes-close : {q : Event → Bool} → Closes q (close p)
  unfolding close
  Closes-close = Closes-emit

  Only-sd_total : Only is_basic (read_sd_total p)
  unfolding read_sd_total
  Only-sd_total = Only-bind (Only-ask _ _ refl) λ opens.
      Only-bool opens
        (Only-seq (Only-trace p _) (Only-bind (Only-ask _ _ refl) λ size. Only-pure _))
        (Only-seq (Only-trace p _) (Only-pure _))

  Only-sd_free : Only is_basic (read_sd_free p)
  unfolding read_sd_free
  Only-sd_free = Only-bind (Only-ask _ _ refl) λ opens.
      Only-bool opens (Only-seq (Only-trace p _) (Only-ask _ _ refl))
        (Only-seq (Only-trace p _) (Only-pure _))

  Only-name : (title_id : ℕ) → Only is_basic (read_name p title_id)
  unfolding read_name
  Only-name title_id = Only-bind (Only-ask _ _ refl) λ allocated.
      Only-bool allocated
        (Only-seq (Only-trace p _) (
          Only-bind (Only-ask _ _ refl) λ control.
            Only-option control (Only-seq (Only-trace p _) (Only-pure _))
              λ name. Only-seq (Only-trace p _) (Only-pure _)))
        (Only-pure _)

  Only-title : Only is_basic (read_title p)
  unfolding read_title
  Only-title = Only-bind (Only-ask _ _ refl) λ app_pid.
      Only-option app_pid (Only-seq (Only-trace p _) (Only-pure _)) λ pid.
        Only-seq (Only-trace p _) (
          Only-bind (Only-ask _ _ refl) λ program.
            Only-option program (Only-pure _)
              λ title_id. Only-bind (Only-name title_id) λ name. Only-pure _)

  pub Only-read_all : Only is_basic (read_all p)
  unfolding read_all
  Only-read_all = search (effects, Only-trace p, Only-sd_total, Only-sd_free, Only-title) depth 60

  pub Closes-info : Closes is_basic (handle_info p)
  unfolding handle_info
  Closes-info = Closes-seq (Only-trace p _) (
      Closes-bind Only-read_all λ r. Closes-seq (Only-trace p _) (
        Closes-bind Only-get λ s. Closes-seq (Only-trace p _) (
          Closes-bind (Only-send_timeout p _)
            λ sent. Closes-seq (Only-trace p _) (Closes-then Closes-close (Only-trace p _)))))

  pub Only-await_body : (fuel start : ℕ) (raw : Bytes) → Only is_basic (await_body p fuel start raw)
  unfolding await_body
  Only-await_body zero start raw = Only-pure _
  Only-await_body (suc fuel) start raw =
      Only-bool (is_complete raw || leb buffer_room (length raw)) (Only-pure _) (
        Only-bind (Only-ask _ _ refl) λ now. Only-bool _ (Only-seq (Only-log_i p _) (Only-pure _)) (
          Only-bind (Only-recv_timeout p _) λ more. Only-seq (Only-log_i p _) (
            Only-option more (Only-pure _)
              λ bytes. Only-list bytes (Only-pure _) λ x xs. Only-await_body fuel start _)))

  pub Only-check_reloaded : (buffer : Bytes) → Only is_mild (check_reloaded p buffer)
  unfolding check_reloaded
  Only-check_reloaded buffer = Only-seq (Only-load_config p) (Only-bind Only-get λ s. Only-pure _)

  Only-check_token : (buffer : Bytes) → Only is_mild (check_token p buffer)
  unfolding check_token
  Only-check_token buffer = Only-bind Only-get λ s.
      Only-bool (has_valid_api_token buffer s.config.api_token) (Only-pure true)
        (Only-check_reloaded buffer)

  pub Only-authorize : (buffer : Bytes) → Only is_mild (authorize p buffer)
  unfolding authorize
  Only-authorize buffer =
      Only-bool (requires_auth buffer) (Only-check_token buffer) (Only-pure true)

  module _ (j : Json) (laws : IsLawful j) where
    Closes-dispatch : (ready : Bool) (buffer : Bytes) → Closes is_inner (dispatch p j ready buffer)
    unfolding dispatch
    Closes-dispatch ready buffer =
        Closes-if (contains buffer (codes "GET /info")) (Closes-inner Closes-info)
          (Closes-seq (Only-route p j laws ready buffer) Closes-close)

    Closes-answer :
        (ready : Bool) (buffer : Bytes) (served : Bool)
        → Closes is_inner (answer p j ready buffer served)
    unfolding answer
    Closes-answer ready buffer true = Closes-dispatch ready buffer
    Closes-answer ready buffer false = Closes-seq (inner (Only-send p _)) Closes-close

    Closes-serve : (ready : Bool) (buffer : Bytes) → Closes is_inner (serve p j ready buffer)
    unfolding serve
    Closes-serve ready buffer =
        Closes-bind (mild_inner (Only-authorize buffer)) (Closes-answer ready buffer)

    Closes-receive_rest :
        (ready : Bool) (raw : Bytes) → Closes is_inner (receive_rest p j ready raw)
    unfolding receive_rest
    Closes-receive_rest ready raw = Closes-seq (inner (Only-log_i p _)) (
        Closes-bind (Only-ask _ _ refl) λ start.
          Closes-bind (inner (Only-await_body buffer_room start raw)) λ whole.
            Closes-option whole (Closes-seq (inner (Only-send p _)) Closes-close)
              λ bytes. Closes-serve ready _)

    Closes-drop_client : Closes is_inner (drop_client p)
    unfolding drop_client
    Closes-drop_client = Closes-then Closes-close (inner (Only-trace p _))

    handle_client-Closes : Closes is_inner (handle_client p j)
    unfolding handle_client
    handle_client-Closes = Closes-seq (inner (Only-trace p _)) (
        Closes-seq (Only-poll p j laws) (
          Closes-bind Only-get λ s. Closes-bind (inner (Only-recv_timeout p buffer_room)) λ first.
            Closes-seq (inner (Only-trace p _)) (
              Closes-option first Closes-drop_client λ bytes.
                Closes-list bytes Closes-drop_client
                  λ x xs. Closes-receive_rest s.hiddbg_ready (x ∷ xs))))

    -- `handle_client` closes the client's socket exactly once, on every path: whatever the client
    -- sends, the files hold and the services answer, the events that it adds hold one `close`, and
    -- the process is not aborted before it or after it, if the JSON library reads a value that it
    -- reports as a string or a number as that.
    pub handle_client-ClosesOnce : (s : Core) → ClosesOnce s.events (handle_client p j s).1.events
    handle_client-ClosesOnce = handle_client-Closes.run
