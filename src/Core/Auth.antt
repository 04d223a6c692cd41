-- ===== src/Core/Auth.antt =====
-- Which requests `handle_client` serves.
use nxremote_api.Base.{
  Bool, true, false, not, ◌||◌, ◌≡◌, refl, ◌∙◌, ap, Bool-cases, inl, inr, ◌⊎◌, if◌then◌else◌,
}
use nxremote_api.Base.Text.{Bytes}
use nxremote_api.JsonSafeAccess.{Json}
use nxremote_api.HttpFraming.{has_valid_api_token}
use nxremote_api.Core.World.{Platform, Core, M, pure, get, ◌>>=◌, ◌>>◌}
use nxremote_api.Core.Net.{send, close}
use nxremote_api.Core.Control.{load_config}
use nxremote_api.Core.Request.{
  requires_auth, unauthorized, check_reloaded, check_token, authorize, dispatch, answer, serve,
}

-- What `handle_client` does with a request it will not serve.
abbrev pub refuse : Platform → M (Unit {0})
refuse p = send p unauthorized >> close p

module _ (p : Platform) (buffer : Bytes) (s : Core) where
  -- The state after the settings are read again.
  abbrev pub reloaded : Core
  reloaded = (load_config p s).1

  authorize-open : requires_auth buffer ≡ false → authorize p buffer s ≡ (true, s)
  unfolding authorize pure
  authorize-open h =
      ap (λ b. (elim b as (λ b. M Bool) [ false ↦ pure true | true ↦ check_token p buffer ]) s) h

  authorize-required : requires_auth buffer ≡ true → authorize p buffer s ≡ check_token p buffer s
  unfolding authorize
  authorize-required h =
      ap (λ b. (elim b as (λ b. M Bool) [ false ↦ pure true | true ↦ check_token p buffer ]) s) h

  check_token-valid :
      has_valid_api_token buffer s.config.api_token ≡ true → check_token p buffer s ≡ (true, s)
  unfolding check_token get ◌>>=◌ pure
  check_token-valid h =
      ap (λ b. (elim b as (λ b. M Bool) [ true ↦ pure true | false ↦ check_reloaded p buffer ]) s) h

  check_token-invalid :
      has_valid_api_token buffer s.config.api_token ≡ false
      → check_token p buffer s ≡ (has_valid_api_token buffer reloaded.config.api_token, reloaded)
  unfolding check_token check_reloaded get ◌>>=◌ ◌>>◌ pure
  check_token-invalid h =
      ap (λ b. (elim b as (λ b. M Bool) [ true ↦ pure true | false ↦ check_reloaded p buffer ]) s) h

  -- The check of the token leaves the state as it is, or loads the settings.
  pub authorize-loaded : ((authorize p buffer s).1 ≡ s) ⊎ ((authorize p buffer s).1 ≡ reloaded)
  authorize-loaded = elim (Bool-cases (requires_auth buffer)) [
    | inr h ↦ inl (ap (λ r. r.1) (authorize-open h))
    | inl h ↦ elim (Bool-cases (has_valid_api_token buffer s.config.api_token)) [
      | inl v ↦ inl (ap (λ r. r.1) (authorize-required h ∙ check_token-valid v))
      | inr v ↦ inr (ap (λ r. r.1) (authorize-required h ∙ check_token-invalid v))
    ]
  ]

  module _ (j : Json) (ready : Bool) where
    serve_by :
        (b : Bool) (s' : Core)
        → authorize p buffer s ≡ (b, s')
        → serve p j ready buffer s ≡ answer p j ready buffer b s'
    unfolding serve ◌>>=◌
    serve_by b s' h = ap (λ r. answer p j ready buffer (r.0) (r.1)) h

    answer_by :
        (b : Bool)
        → answer p j ready buffer b reloaded
          ≡ (if b then dispatch p j ready buffer reloaded else refuse p reloaded)
    unfolding answer
    answer_by true = refl
    answer_by false = refl

    -- The check of a request's token on all its branches.
    pub serve_lem : serve p j ready buffer s ≡ (
        if not (requires_auth buffer) || has_valid_api_token buffer s.config.api_token
        then dispatch p j ready buffer s
        else if has_valid_api_token buffer reloaded.config.api_token
        then dispatch p j ready buffer reloaded
        else refuse p reloaded)
    unfolding answer
    serve_lem = elim (Bool-cases (requires_auth buffer)) [
      | inr h ↦ rw h (serve_by true s (authorize-open h))
      | inl h ↦ elim (Bool-cases (has_valid_api_token buffer s.config.api_token)) [
        | inl v ↦ rw (h, v) (serve_by true s (authorize-required h ∙ check_token-valid v))
        | inr v ↦
            rw (h, v)
              (serve_by (has_valid_api_token buffer reloaded.config.api_token) reloaded
                  (authorize-required h ∙ check_token-invalid v)
                ∙ answer_by (has_valid_api_token buffer reloaded.config.api_token))
      ]
    ]
