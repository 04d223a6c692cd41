-- ===== src/Core/Passive.antt =====
-- Events that change nothing on the console, and the settings that a load of them may save.
use nxremote_api.Base.{
  Bool, true, false, ◌&&◌, ◌||◌, Option, none, some, List, [], ◌∷◌, ◌++◌, append_assoc, All,
  All-append, Bool-cases, inl, inr, ◌⊎◌, ◌≡◌, refl, sym, ap, subst, ◌∙◌, arith,
}
use nxremote_api.Base.Text.{Bytes, codes}
use nxremote_api.Core.World.{
  Event, closed, opened, wrote, made_dir, asked, History, Platform, Core, M, pure, ◌>>=◌, ◌>>◌, ask,
  emit, get, modify,
}
use nxremote_api.Config
use nxremote_api.Config.{Config, Seeds, config_path, settings_text, apply_lines, is_nil}
use nxremote_api.CString.Lines.{fgets_lines}
use nxremote_api.Core.Album.{text_eq}
use nxremote_api.Core.Control.{load_config, save_events, make_dirs, write_settings}
use nxremote_api.Core.Effects.{is_basic, All-weaker}
use nxremote_api.Core.Effects.Client.{ClosesBy, Closes}

-- Whether a load of the settings leaves no token: the file is missing, or neither it nor the settings
-- before have one.
abbrev pub lacks_token : Option Bytes → Config → Bool
lacks_token none c = true
lacks_token (some file) c = is_nil (apply_lines c (fgets_lines 256 file)).api_token

abbrev pub settings_dirs : List Bytes
settings_dirs = codes "sdmc:/config" ∷ codes "sdmc:/config/NXRemoteAPI" ∷ []

abbrev is_listed : Bytes → List Bytes → Bool
is_listed dir [] = false
is_listed dir (x ∷ xs) = text_eq dir x || is_listed dir xs

-- The events that save the settings.
abbrev pub is_save : Config → Event → Bool
is_save c (wrote path text) = text_eq path config_path && text_eq text (settings_text c)
is_save c (made_dir dir) = is_listed dir settings_dirs
is_save c e = false

-- The events that change nothing on the console and in its files but the boot log, and, where the
-- settings had no token, those that save the settings.
abbrev pub is_quiet : Bool → Config → Event → Bool
is_quiet lacks c e = is_basic e || (lacks && is_save c e)

-- The socket was closed once, and all else that was done is quiet: no power state, no launch, no
-- button, no file removed, no abort, and no file written but the boot log. If a load of the settings
-- finds no token, the settings file may be written, with the settings that are in use then.
abbrev pub ClosesQuietly : Platform → Core → History → Type 0
ClosesQuietly p s new =
    ClosesBy
      (is_quiet (lacks_token (p.file s.events config_path) s.config) (load_config p s).1.config)
      s.events new

text_eq_refl : (text : Bytes) → text_eq text text ≡ true
unfolding text_eq
text_eq_refl [] = refl
text_eq_refl (x ∷ xs) = ground (arith, text_eq_refl xs)

-- `load` saves nothing, or no token was left and it saves what it leaves.
load-saved :
    (file : Option Bytes) (writable : Bool) (seeds : Seeds) (c : Config)
    → ((Config.load file writable seeds c).saved ≡ none)
      ⊎ ((lacks_token file c ≡ true)
          × ((Config.load file writable seeds c).saved
              ≡ some (Config.save writable (Config.load file writable seeds c).config)))
unfolding Config.load
load-saved none writable seeds c = inr (refl, refl)
load-saved (some file) writable seeds c =
    elim (Bool-cases (is_nil (apply_lines c (fgets_lines 256 file)).api_token)) [
      | inl lacks ↦ rw lacks (inr (refl, refl))
      | inr has ↦ rw has (inl refl)
    ]

-- What was added to a state, all of which passes a test.
abbrev Adds : (Event → Bool) → Core → Core → Type 0
Adds q s s' =
    (added : List Event) × (s'.events ≡ added ++ s.events)
    × (s'.config ≡ s.config)
    × All (λ e. q e ≡ true) added

save-Adds :
    (writable : Bool) (c : Config) (s : Core)
    → Adds (is_quiet true c) s (save_events (some (Config.save writable c)) s).1
unfolding save_events make_dirs write_settings Config.save text_eq emit pure ◌>>◌ ◌>>=◌
save-Adds true c s = (
  wrote config_path (settings_text c) ∷ made_dir _ ∷ made_dir _ ∷ [],
  refl,
  refl,
  (text_eq_refl (settings_text c), (refl, (refl, tt))),
)
save-Adds false c s = (made_dir _ ∷ made_dir _ ∷ [], refl, refl, (refl, (refl, tt)))

pub is_basic-is_quiet :
    (lacks : Bool) (c : Config) (e : Event) → is_basic e ≡ true → is_quiet lacks c e ≡ true
is_basic-is_quiet lacks c e basic = rw basic refl

-- A call that closes the socket, behind quiet events.
pub Closes-behind :
    {A : Type 0} {m : M A} {q : Event → Bool} (s s' : Core)
    → ((e : Event) → is_basic e ≡ true → q e ≡ true)
    → Closes is_basic m
    → (added : List Event) → s'.events ≡ added ++ s.events
    → All (λ e. q e ≡ true) added
    → ClosesBy q s.events (m s').1.events
Closes-behind s s' weaker closes added eq quiet =
    let (before, after, eq', hb, ha) = closes.run s' in
    (
      before ++ added,
      after,
      eq'
          ∙ ap (λ l. after ++ closed ∷ (before ++ l)) eq
          ∙ ap (λ l. after ++ closed ∷ l) (sym (append_assoc before added s.events)),
      All-append _ before added (All-weaker weaker before hb) quiet,
      All-weaker weaker after ha,
    )

module _ (p : Platform) (s : Core) where
  abbrev pub lacks : Bool
  lacks = lacks_token (p.file s.events config_path) s.config

  -- A load of the settings is quiet.
  pub load_config-quiet :
      (added : List Event) × ((load_config p s).1.events ≡ added ++ s.events)
      × All (λ e. is_quiet lacks (load_config p s).1.config e ≡ true) added
  unfolding load_config ask get modify ◌>>=◌ ◌>>◌
  load_config-quiet =
      let h = opened config_path ∷ s.events in
      let seeds : Seeds = record {
        tick = p.tick h;
        adjective = p.random (asked ∷ h);
        noun = p.random (asked ∷ asked ∷ h);
      } in
      let writable = p.can_write (asked ∷ asked ∷ asked ∷ h) config_path in
      let out = Config.load (p.file s.events config_path) writable seeds s.config in
      let s' = record s { config = out.config; events = asked ∷ asked ∷ asked ∷ asked ∷ h } in
      let reads = asked ∷ asked ∷ asked ∷ asked ∷ opened config_path ∷ [] in
      elim (load-saved (p.file s.events config_path) writable seeds s.config) [
        | inl nothing ↦
            subst
              (λ sv.
                (added : List Event) × ((save_events sv s').1.events ≡ added ++ s.events)
                × All (λ e. is_quiet lacks (save_events sv s').1.config e ≡ true) added)
              (sym nothing)
              (reads, unfold save_events pure in refl, (refl, (refl, (refl, (refl, (refl, tt))))))
        | inr (no_token, saved) ↦
            let (added, eq, same, quiet) = save-Adds writable out.config s' in
            subst
              (λ sv.
                (added : List Event) × ((save_events sv s').1.events ≡ added ++ s.events)
                × All (λ e. is_quiet lacks (save_events sv s').1.config e ≡ true) added)
              (sym saved)
              (
                added ++ reads,
                eq ∙ sym (append_assoc added reads s.events),
                rw (no_token, same)
                    (All-append _ added reads quiet (refl, (refl, (refl, (refl, (refl, tt)))))),
              )
      ]
