-- ===== src/Core/Server/Views.antt =====
-- What a history leaves open: the clients' connections, and the server's sockets.
use nxremote_api.Base.{
  ℕ, suc, ◌-◌, Bool, true, false, List, [], ◌∷◌, ◌++◌, All, ◌≡◌, refl, sym, ap, subst, ◌∙◌, arith,
}
use nxremote_api.Base.Int.{ℤ, remove}
use nxremote_api.Base.Hoare.{Hoare}
use nxremote_api.Core.World.{
  Event, closed, aborted, accepted, opened_socket, closed_socket, History, Core, M, emit,
}
use nxremote_api.Core.Effects.{is_inner, Only}
use nxremote_api.Core.Effects.Client.{ClosesOnce}

-- What a history leaves open.
pub record View : Type 0 where
  pub clients : ℕ
  pub listeners : List ℤ
  pub runs : Bool

abbrev pub step : Event → View → View
step accepted v = record v { clients = suc v.clients }
step closed v = record v { clients = v.clients - 1 }
step (opened_socket fd) v = record v { listeners = fd ∷ v.listeners }
step (closed_socket fd) v = record v { listeners = remove fd v.listeners }
step aborted v = record v { runs = false }
step e v = v

abbrev pub view : History → View
view [] = record { clients = 0; listeners = []; runs = true }
view (e ∷ h) = step e (view h)

step-inner : (e : Event) (v : View) → is_inner e ≡ true → step e v ≡ v
step-inner e v h = ground arith

view-append : (added h : History) → All (λ e. is_inner e ≡ true) added → view (added ++ h) ≡ view h
view-append [] h _ = refl
view-append (e ∷ es) h (i, is) = step-inner e (view (es ++ h)) i ∙ view-append es h is

pub view-ClosesOnce : (old new : History) → ClosesOnce old new → view new ≡ step closed (view old)
view-ClosesOnce old new (before, after, eq, hb, ha) =
    rw eq (
      view-append after (closed ∷ (before ++ old)) ha
      ∙ ap (step closed) (view-append before old hb))

abbrev pub seen : Core → View
seen s = view s.events

module _ {P : View → Type 0} where
  pub Hoare-emit :
      (e : Event) {Q : View → Type 0}
      → ((v : View) → P v → Q (step e v))
      → Hoare seen P (emit e) (λ _. Q)
  unfolding emit
  Hoare-emit e h = record { run = λ s. h (view s.events) }

  -- A call of the server's own adds nothing to look at.
  pub keeps : {A : Type 0} {m : M A} → Only is_inner m → Hoare seen P m (λ _. P)
  keeps om = record {
    run = λ s h.
        let (added, eq, all) = om.run s in
        subst P (sym (ap view eq ∙ view-append added s.events all)) h;
  }
