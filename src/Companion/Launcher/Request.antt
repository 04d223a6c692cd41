-- ===== src/Companion/Launcher/Request.antt =====
-- The request file, as the core writes it and the launcher reads it.
use nxremote_api.Base.{
  ℕ, ◌^◌, ◌<◌, ◌≤◌, Bool, true, false, some, List, [], ◌∷◌, ◌++◌, length, length-append, take,
  take_all, ◌==◌, Bool-cases, inl, inr, ◌≡◌, refl, ap, ◌∙◌, arith,
}
use nxremote_api.Base.Text.{Bytes, codes}
use nxremote_api.CString.Search.{c_str}
use nxremote_api.CString.Number.{strtoull}
use nxremote_api.CString.Format.{hex}
use nxremote_api.JsonSafeAccess.{Json}
use nxremote_api.Core.World.{Platform}
use nxremote_api.Core.Album.{succeeded, request_body, launch_request_path, launch_status_path}
use nxremote_api.Core.Handoff.{length-hex, request_body-strtoull}
use nxremote_api.Companion.World.{
  requested_launch, History, Device, App, M, pure, ◌>>=◌, ◌>>◌, when, emit, ask, write_file,
  value_text,
}
use nxremote_api.Companion.Launcher.{
  Writer, write_launch_status, request_tid, start_title, launch_title, run_launcher_mode,
}
use nxremote_api.Companion.Launcher.Status.{plain_char, is_plain, and_true, is_plain-hex}

-- The text of an object with one member, which is a text.
abbrev pub request_text : Bytes → Bytes
request_text value = codes "{\"title_id\":\"" ++ (value ++ codes "\"}")

-- The documented behaviour of nlohmann::json that the request relies on.
pub record IsReader (j : Json) : Type 0 where
  pub reads :
      (value : Bytes)
      → is_plain value ≡ true
      → (v : j.Value) × (w : j.Value) × (j.parse (request_text value) ≡ some v)
        × (j.is_object v ≡ true)
        × (j.contains v (codes "title_id") ≡ true)
        × (j.find v (codes "title_id") ≡ some w)
        × (j.get_string w ≡ some value)

-- The titles that the launcher asked the console to start, the newest first.
abbrev pub launches : History → List ℕ
launches [] = []
launches (requested_launch tid ∷ h) = tid ∷ launches h
launches (e ∷ h) = launches h

plain_nonzero : (c : ℕ) → plain_char c ≡ true → (c == 0) ≡ false
plain_nonzero c h = ground arith

pub c_str-plain : (s rest : Bytes) → is_plain s ≡ true → c_str (s ++ rest) ≡ s ++ c_str rest
unfolding c_str
c_str-plain [] rest h = refl
c_str-plain (c ∷ cs) rest h =
    let (hc, hcs) = and_true (plain_char c) (is_plain cs) h in
    rw (plain_nonzero c hc) (ap (λ t. c ∷ t) (c_str-plain cs rest hcs))

c_str-request_text :
    (value : Bytes) → is_plain value ≡ true → c_str (request_text value) ≡ request_text value
unfolding c_str
c_str-request_text value h =
    ap (λ t. codes "{\"title_id\":\"" ++ t) (c_str-plain value (codes "\"}") h)

nonzero : (n : ℕ) → 0 < n → (n == 0) ≡ false
nonzero n h = ground arith

-- A call that asks for these titles, in any state.
record Starts {A : Type 0} (m : M A) (tids : List ℕ) : Type 0 where
  run : (s : App) → launches (m s).1.events ≡ tids ++ launches s.events

Starts-pure : {A : Type 0} (a : A) → Starts (pure a) []
unfolding pure
Starts-pure a = record { run = λ s. refl }

Starts-then :
    {A B : Type 0} {m : M A} {f : A → M B} {tids : List ℕ}
    → Starts m tids
    → ((a : A) → Starts (f a) [])
    → Starts (m >>= f) tids
unfolding ◌>>=◌
Starts-then {m} hm hf = record { run = λ s. (hf (m s).0).run (m s).1 ∙ hm.run s }

Starts-seq :
    {A : Type 0} {m : M (Unit {0})} {k : M A} {tids : List ℕ}
    → Starts m []
    → Starts k tids
    → Starts (m >> k) tids
unfolding ◌>>◌ ◌>>=◌
Starts-seq {m} {tids} hm hk = record { run = λ s. hk.run (m s).1 ∙ ap (λ l. tids ++ l) (hm.run s) }

Starts-bool :
    {A : Type 0} (b : Bool) {m n : M A} {tids : List ℕ}
    → Starts m tids
    → Starts n tids
    → Starts (elim b [ true ↦ m | false ↦ n ]) tids
Starts-bool true hm hn = hm
Starts-bool false hm hn = hn

module _ (d : Device) (j : Json) (w : Writer j) where
  Starts-write :
      (state : Bytes) (tid : ℕ) (detail : Bytes)
      → Starts (write_launch_status d j w state tid detail) []
  unfolding write_launch_status write_file ◌>>=◌ ask when emit pure
  Starts-write state tid detail = record {
    run = λ s. elim (Bool-cases (d.can_write s.events launch_status_path)) [
      | inl e ↦ rw e refl
      | inr e ↦ rw e refl
    ];
  }

  Starts-ask :
      (tid : ℕ) → Starts (ask (λ h. d.request_launch h tid) (requested_launch tid)) (tid ∷ [])
  unfolding ask
  Starts-ask tid = record { run = λ s. refl }

  Starts-start_title : (tid : ℕ) → Starts (start_title d j w tid) (tid ∷ [])
  unfolding start_title
  Starts-start_title tid = Starts-seq (Starts-write (codes "launching") tid []) (
      Starts-then (Starts-ask tid) λ rc.
        Starts-bool (succeeded rc)
          (Starts-seq (Starts-write (codes "launched") tid []) (Starts-pure _))
          (Starts-seq (Starts-write (codes "error") tid (codes "rc=" ++ hex 8 rc)) (Starts-pure _)))

  request_tid-found :
      (v m : j.Value) (value : Bytes)
      → j.is_object v ≡ true
      → j.contains v (codes "title_id") ≡ true
      → j.find v (codes "title_id") ≡ some m
      → j.get_string m ≡ some value
      → request_tid d j w (some v) ≡ some (strtoull value)
  unfolding request_tid value_text
  request_tid-found v m value object has found read =
      rw (has, object, found, read, request_tid) refl

  module _ (laws : IsReader j) where
    tid-request_text :
        (value : Bytes)
        → is_plain value ≡ true
        → length value ≤ 240
        → request_tid d j w (j.parse (c_str (take 255 (request_text value))))
          ≡ some (strtoull value)
    tid-request_text value plain short =
        let (v, m, parsed, object, has, found, read) = laws.reads value plain in
        let fits : length (request_text value) ≤ 255 =
          omega (arith, length-append value (codes "\"}")) in
        ap (λ t. request_tid d j w (j.parse (c_str t))) (take_all 255 (request_text value) fits)
        ∙ ap (λ t. request_tid d j w (j.parse t)) (c_str-request_text value plain)
        ∙ ap (request_tid d j w) parsed
        ∙ request_tid-found v m value object has found read

    -- The request of the core is read back as the title that it was written for.
    pub request_tid-request_body :
        (p : Platform) (tid : ℕ)
        → tid < 2 ^ 64
        → request_tid d j w (j.parse (c_str (take 255 (request_body p tid)))) ≡ some tid
    request_tid-request_body p tid small =
        let (same, digits) = request_body-strtoull p tid small in
        ap (λ t. request_tid d j w (j.parse (c_str (take 255 t)))) same
        ∙ tid-request_text (hex 16 tid) (is_plain-hex 16 tid) (omega (arith, length-hex 16 tid))
        ∙ ap some digits

    Starts-launch_title : (tid : ℕ) → 0 < tid → Starts (launch_title d j w (some tid)) (tid ∷ [])
    unfolding launch_title
    Starts-launch_title tid positive =
        rw (nonzero tid positive, launch_title) (Starts-start_title tid)

    -- The launcher that finds the request that the core writes for a title asks the console to start that
    -- title, once, and no other, for every 64-bit id but 0, if the JSON library reads the request.
    pub launches-run_launcher_mode :
        (p : Platform) (tid : ℕ) (s : App)
        → 0 < tid
        → tid < 2 ^ 64
        → d.file s.events launch_request_path ≡ some (request_body p tid)
        → launches (run_launcher_mode d j w s).1.events ≡ tid ∷ launches s.events
    unfolding run_launcher_mode ◌>>=◌ ◌>>◌ ask emit
    launches-run_launcher_mode p tid s positive small written =
        rw (written, request_tid-request_body p tid small)
          ((Starts-launch_title tid positive).run _)
