-- ===== src/Core/Override.antt =====
-- The Album override over the life of the core: calls after which the flag still tells whether the
-- launcher stands in the place of the Album.

pub mod Launch
pub mod Routes
pub mod Serving
pub mod Restore
use nxremote_api.Base.{
  Bool, true, false, ◌||◌, ◌++◌, Option, none, some, List, [], ◌∷◌, All, if◌then◌else◌, ◌≡◌, refl,
  ap, subst, ◌∙◌, arith,
}
use nxremote_api.Core.World.{
  Event, Storage, sd_card, built_in_user, built_in_system, removed, launched, aborted, History,
  Platform, Core, M, pure, ◌>>=◌, ◌>>◌, emit, ask, get, when, modify, or_abort,
}
use nxremote_api.Core.Album.{succeeded, text_eq, album_main, album_npdm}
use nxremote_api.Base.Text.{Bytes}
use nxremote_api.Core.Effects.{is_mild, is_basic, mild, Only}

-- Whether a file of the launcher stands in the place of the Album: the Album was started with it, and
-- it has not been removed since.
abbrev pub stands : Bytes → Platform → History → Bool
stands file p [] = false
stands file p (launched built_in_system id ∷ h) =
    if succeeded (p.launch h built_in_system id) then true else stands file p h
stands file p (removed path ∷ h) = if text_eq path file then false else stands file p h
stands file p (e ∷ h) = stands file p h

-- Whether any of its two files does.
abbrev pub is_lent : Platform → History → Bool
is_lent p h = stands album_main p h || stands album_npdm p h

-- The events that can put it there.
abbrev pub lends : Event → Bool
lends (launched built_in_system id) = true
lends e = false

mild-lends : (e : Event) → is_mild e ≡ true → lends e ≡ false
mild-lends e gentle = ground arith

module _ (p : Platform) where
  -- If the launcher stands there, the flag is set, on which its removal depends.
  abbrev pub IsTracked : Core → Type 0
  IsTracked s = is_lent p s.events ≡ true → s.album_override_active ≡ true

  -- A call that keeps this.
  pub record Tracks {A : Type 0} (m : M A) : Type 0 where
    pub run : (s : Core) → IsTracked s → IsTracked (m s).1

  stands_before :
      (file : Bytes) (e : Event) (h : History)
      → lends e ≡ false
      → stands file p h ≡ false
      → stands file p (e ∷ h) ≡ false
  stands_before file e h quiet none_stands = ground (arith, quiet, none_stands)

  lent_before :
      (e : Event) (h : History) → lends e ≡ false → is_lent p (e ∷ h) ≡ true → is_lent p h ≡ true
  lent_before e h quiet lent =
      ground (arith, stands_before album_main e h quiet, stands_before album_npdm e h quiet, lent)

  lent_earlier :
      (added h : History)
      → All (λ e. is_mild e ≡ true) added
      → is_lent p (added ++ h) ≡ true
      → is_lent p h ≡ true
  lent_earlier [] h all lent = lent
  lent_earlier (e ∷ es) h (gentle, all) lent =
      lent_earlier es h all (lent_before e (es ++ h) (mild-lends e gentle) lent)

  -- A call that neither acts nor removes.
  pub calm_mild : {A : Type 0} {m : M A} → Only is_mild m → Tracks m
  calm_mild om = record {
    run = λ s tracked lent.
        let (added, eq, all) = om.run s in
        om.album s refl
        ∙ tracked (lent_earlier added s.events all (subst (λ h. is_lent p h ≡ true) eq lent));
  }

  pub calm : {A : Type 0} {m : M A} → Only is_basic m → Tracks m
  calm om = calm_mild (mild om)

  pub Tracks-pure : {A : Type 0} (a : A) → Tracks (pure a)
  unfolding pure
  Tracks-pure a = record { run = λ s t. t }

  pub Tracks-get : Tracks get
  unfolding get
  Tracks-get = record { run = λ s t. t }

  pub Tracks-bind :
      {A B : Type 0} {m : M A} {f : A → M B}
      → Tracks m
      → ((a : A) → Tracks (f a))
      → Tracks (m >>= f)
  unfolding ◌>>=◌
  Tracks-bind {m} tm tf = record { run = λ s t. (tf (m s).0).run (m s).1 (tm.run s t) }

  pub Tracks-seq : {A : Type 0} {m : M (Unit {0})} {k : M A} → Tracks m → Tracks k → Tracks (m >> k)
  unfolding ◌>>◌
  Tracks-seq tm tk = Tracks-bind tm λ _. tk

  pub Tracks-emit : (e : Event) → lends e ≡ false → Tracks (emit e)
  unfolding emit
  Tracks-emit e quiet = record { run = λ s t lent. t (lent_before e s.events quiet lent) }

  pub Tracks-ask : {A : Type 0} (f : History → A) (e : Event) → lends e ≡ false → Tracks (ask f e)
  unfolding ask
  Tracks-ask f e quiet = record { run = λ s t lent. t (lent_before e s.events quiet lent) }

  pub Tracks-when : (b : Bool) {m : M (Unit {0})} → Tracks m → Tracks (when b m)
  unfolding when
  Tracks-when true tm = tm
  Tracks-when false tm = Tracks-pure tt

  pub Tracks-bool :
      {A : Type 0} (b : Bool) {m n : M A}
      → Tracks m
      → Tracks n
      → Tracks (elim b [ true ↦ m | false ↦ n ])
  Tracks-bool true tm tn = tm
  Tracks-bool false tm tn = tn

  pub Tracks-if :
      {A : Type 0} (b : Bool) {m n : M A} → Tracks m → Tracks n → Tracks (if b then m else n)
  Tracks-if true tm tn = tm
  Tracks-if false tm tn = tn

  pub Tracks-option :
      {A B : Type 0} (o : Option B) {n : M A} {f : B → M A}
      → Tracks n
      → ((b : B) → Tracks (f b))
      → Tracks (elim o [ none ↦ n | some b ↦ f b ])
  Tracks-option none tn tf = tn
  Tracks-option (some b) tn tf = tf b

  pub Tracks-list :
      {A B : Type 0} (l : List B) {n : M A} {f : B → List B → M A}
      → Tracks n
      → ((x : B) (xs : List B) → Tracks (f x xs))
      → Tracks (elim l [ [] ↦ n | x ∷ xs ↦ f x xs ])
  Tracks-list [] tn tf = tn
  Tracks-list (x ∷ xs) tn tf = tf x xs

  pub Tracks-or_abort :
      {A : Type 0} (o : Option A) {f : A → M (Unit {0})}
      → ((a : A) → Tracks (f a))
      → Tracks (or_abort o f)
  unfolding or_abort
  Tracks-or_abort none tf = Tracks-emit aborted refl
  Tracks-or_abort (some a) tf = tf a

pub ruleset tracks = (
  Tracks-pure, Tracks-get, Tracks-bind, Tracks-seq, Tracks-emit, Tracks-ask, Tracks-when,
  Tracks-bool, Tracks-if, Tracks-option, Tracks-list, Tracks-or_abort,
)
