-- ===== src/Core/Quiet.antt =====
-- What a request without a token can bring about.
use nxremote_api.Base.{
  Bool, true, false, [], ◌++◌, append_assoc, Bool-cases, inl, inr, ◌⊎◌, ◌≡◌, refl, sym, ap, subst,
  ◌∙◌,
}
use nxremote_api.Base.Text.{Bytes, codes}
use nxremote_api.CString.Search.{contains, contains_iff, Occurs}
use nxremote_api.JsonSafeAccess.{Json}
use nxremote_api.HttpFraming.{has_valid_api_token}
use nxremote_api.Core.World.{Platform, Core, ◌>>=◌}
use nxremote_api.Core.Control.{load_config}
use nxremote_api.Core.Request.{requires_auth, authorize, answer, route, post_route, dispatch, serve}
use nxremote_api.Core.Effects.{is_basic, Only, Only-if, Only-send}
use nxremote_api.Core.Effects.Client.{Closes, Closes-seq, Closes-close, Closes-if, Closes-info}
use nxremote_api.Core.Effects.Routes.{Only-titles, Only-screenshot, Only-launch_status, Only-logs}
use nxremote_api.Core.Auth.{reloaded, refuse, serve_lem, authorize-loaded}
use nxremote_api.Core.Passive.{
  ClosesQuietly, lacks, is_basic-is_quiet, Closes-behind, load_config-quiet,
}

Occurs-prefix : (a rest : Bytes) {s : Bytes} → Occurs (a ++ rest) s → Occurs a s
Occurs-prefix a rest o = record {
  before = o.before;
  after = rest ++ o.after;
  splits = o.splits ∙ ap (λ t. o.before ++ t) (append_assoc a rest o.after);
}

-- A text without a word has none that begins with it.
contains-prefix :
    (buffer a rest : Bytes) → contains buffer a ≡ false → contains buffer (a ++ rest) ≡ false
contains-prefix buffer a rest h = elim (Bool-cases (contains buffer (a ++ rest))) [
  | inr absent ↦ absent
  | inl found ↦ cc (
    h,
    (contains_iff buffer a).1 (Occurs-prefix a rest ((contains_iff buffer (a ++ rest)).0 found)),
  )
]

module _ (p : Platform) (j : Json) (ready : Bool) (buffer : Bytes) where
  Closes-refused : Closes is_basic (refuse p)
  Closes-refused = Closes-seq (Only-send p _) (Closes-close p)

  -- A request that has been read and is served as such: unless it requires no token, or holds the
  -- token of the settings as they are or after they are loaded again, its socket is closed once, and
  -- besides that nothing is done on the console and no file is written but lines of the boot log, and the
  -- settings, as they are loaded, where the load finds no token.
  pub serve-ClosesQuietly :
      (s : Core)
      → ClosesQuietly p s (serve p j ready buffer s).1.events
        ⊎ ((requires_auth buffer ≡ false)
            ⊎ (has_valid_api_token buffer s.config.api_token ≡ true)
            ⊎ (has_valid_api_token buffer (reloaded p buffer s).config.api_token ≡ true))
  serve-ClosesQuietly s = elim (Bool-cases (requires_auth buffer)) [
    | inr free ↦ inr (inl free)
    | inl h ↦ elim (Bool-cases (has_valid_api_token buffer s.config.api_token)) [
      | inl v ↦ inr (inr (inl v))
      | inr v ↦
          elim (Bool-cases (has_valid_api_token buffer (reloaded p buffer s).config.api_token)) [
            | inl w ↦ inr (inr (inr w))
            | inr w ↦
                let refused : serve p j ready buffer s ≡ refuse p (reloaded p buffer s) =
                  serve_lem p buffer s j ready ∙ rw (h, v, w) refl in
                let (added, eq, quiet) = load_config-quiet p s in
                inl (
                  subst (λ r. ClosesQuietly p s r.1.events) (sym refused)
                    (Closes-behind s (reloaded p buffer s) (is_basic-is_quiet _ _) Closes-refused
                      added eq quiet))
          ]
    ]
  ]

  -- A route that only reads.
  Only-read_route : contains buffer (codes "POST ") ≡ false → Only is_basic (route p j ready buffer)
  unfolding route post_route
  Only-read_route reads =
      let lacks = λ (rest : Bytes). contains-prefix buffer (codes "POST ") rest reads in
      rw
        (
          lacks (codes "/command"),
          lacks (codes "/reboot"),
          lacks (codes "/shutdown"),
          lacks (codes "/sleep"),
          lacks (codes "/reload_config"),
          lacks (codes "/launch"),
          lacks (codes "/update_app"),
          lacks (codes "/button"),
        )
        (Only-if _ (Only-titles p) (
          Only-if _ (Only-screenshot p)
            (Only-if _ (Only-launch_status p j) (Only-if _ (Only-logs p) (Only-send p _)))))

  Closes-read_answer :
      (served : Bool)
      → contains buffer (codes "POST ") ≡ false
      → Closes is_basic (answer p j ready buffer served)
  unfolding answer dispatch
  Closes-read_answer true reads =
      Closes-if _ (Closes-info p) (Closes-seq (Only-read_route reads) (Closes-close p))
  Closes-read_answer false reads = Closes-seq (Only-send p _) (Closes-close p)

  -- A request in which no `POST ` stands, with or without a token, once it has been read: its socket is
  -- closed once, and besides that nothing is done on the console and no file is written but lines of
  -- the boot log, and the settings, as they are loaded, where the load finds no token.
  pub serve-reads :
      (s : Core)
      → contains buffer (codes "POST ") ≡ false
      → ClosesQuietly p s (serve p j ready buffer s).1.events
  unfolding serve ◌>>=◌
  serve-reads s reads =
      let answers = Closes-read_answer (authorize p buffer s).0 reads in
      let weaker = is_basic-is_quiet (lacks p s) (load_config p s).1.config in
      elim (authorize-loaded p buffer s) [
        | inl same ↦
            Closes-behind s (authorize p buffer s).1 weaker answers [] (ap (λ t. t.events) same) tt
        | inr loaded ↦
            let (added, eq, quiet) = load_config-quiet p s in
            Closes-behind s (authorize p buffer s).1 weaker answers added
              (ap (λ t. t.events) loaded ∙ eq) quiet
      ]
