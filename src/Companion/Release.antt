-- ===== src/Companion/Release.antt =====
-- `fill_release_info` and `get_latest_version`: the newest release, from the API of GitHub.
use nxremote_api.Base.{
  ℕ, Bool, true, false, ◌&&◌, Option, none, some, List, [], ◌∷◌, ◌++◌, take, length, ltb, ◌==◌,
  if◌then◌else◌,
}
use nxremote_api.Base.Int.{ℤ, pos, leb_ℤ}
use nxremote_api.Base.Text.{Bytes, codes}
use nxremote_api.CString.Search.{c_str}
use nxremote_api.CString.Format.{snprintf, signed_decimal}
use nxremote_api.JsonSafeAccess.{Json}
use nxremote_api.Core.Album.{text_eq}
use nxremote_api.Companion.World.{
  asked, fetched, aborted, Release, Device, M, pure, ◌>>=◌, ◌>>◌, get, modify, emit, ask, colored,
  value_text,
}
use nxremote_api.Companion.Log.{add_app_log}
use nxremote_api.Companion.Transfer.{Memory, receive}

abbrev pub latest_url : Bytes
latest_url = codes "https://api.github.com/repos/rafaelvieiras/NXRemoteAPI/releases/latest"

abbrev pub releases_url : Bytes
releases_url = codes "https://api.github.com/repos/rafaelvieiras/NXRemoteAPI/releases"

abbrev pub red : Bytes
red = codes "31"

-- Whether a response code is 200.
abbrev is_ok : ℤ → Bool
is_ok code = leb_ℤ code (pos 200) && leb_ℤ (pos 200) code

module _ (d : Device) where
  -- A message that a silent call keeps to itself.
  unfoldable pub complain : Bool → Bytes → M (Unit {0})
  complain true message = pure tt
  complain false message = add_app_log d (snprintf 128 (colored red message))

  unfoldable pub check_response : Bool → ℕ → ℤ → Memory → M (Bool × Memory)
  unfolding complain
  check_response silent result response chunk = elim (result == 0) [
    | false ↦ do complain silent (codes "[ERROR] Curl: " ++ d.strerror result); pure (false, chunk)
    | true ↦ elim (is_ok response) [
      | false ↦ do
        complain silent (codes "[ERROR] HTTP " ++ signed_decimal response ++ codes " (Rate limit?)")
        pure (false, chunk)
      | true ↦ pure (true, chunk)
    ]
  ]

  -- `fetch`: the block is used again from its start.
  unfoldable pub fetch : Bytes → Bool → Memory → M (Bool × Memory)
  unfolding check_response
  fetch url silent chunk = do
    t ← ask (λ h. d.perform h url) (fetched url)
    out ← receive d t.chunks t.result (record chunk { size = 0 })
    check_response silent out.0 t.response out.1

  -- The stable release, or else the list of all.
  unfoldable pub fetch_release : M (Option Memory)
  unfolding fetch
  fetch_release = do
    byte ← ask d.fresh_byte asked
    latest ← fetch latest_url true (record { memory = byte ∷ []; size = 0 })
    elim latest.0 [
      | true ↦ pure (some latest.1)
      | false ↦ do
        all ← fetch releases_url false latest.1
        elim all.0 [
          | true ↦ pure (some all.1)
          | false ↦ do
            add_app_log d (colored red (codes "[ERROR] Release API unreachable"))
            pure none
        ]
    ]

module _ (j : Json) where
  -- One asset of the release, by its name.
  unfoldable pub set_asset : Bytes → Bytes → Release → Release
  set_asset name url info =
      if text_eq name (codes "main")
      then record info { url_main = url }
      else if text_eq name (codes "main.npdm")
      then record info { url_npdm = url }
      else if text_eq name (codes "boot2.flag")
      then record info { url_flag = url }
      else if text_eq name (codes "nxremoteapi.nro")
      then record info { url_nro = url }
      else info

  -- The loop over the assets; `none` is an abort.
  unfoldable pub read_assets : List j.Value → Release → Option Release
  unfolding set_asset
  read_assets [] info = some info
  read_assets (asset ∷ assets) info = elim (value_text j asset (codes "name") []) [
    | none ↦ none
    | some name ↦ elim (value_text j asset (codes "browser_download_url") []) [
      | none ↦ none
      | some url ↦ read_assets assets (set_asset name url info)
    ]
  ]

  -- `release.contains("assets") && release["assets"].is_array()`.
  abbrev assets_of : j.Value → List j.Value
  assets_of release = elim (j.find release (codes "assets")) [
    | none ↦ []
    | some assets ↦ if j.is_array assets then j.items assets else []
  ]

  -- `j.is_array() && !j.empty() ? j[0] : j`.
  abbrev first_of : List j.Value → j.Value → j.Value
  first_of [] v = v
  first_of (x ∷ xs) v = x

  abbrev pub release_of : j.Value → j.Value
  release_of v = if j.is_array v then first_of (j.items v) v else v

  abbrev pub date_of : Bytes → Bytes
  date_of date = if ltb 10 (length date) then take 10 date else date

  -- A release with a tag; `none` is an abort.
  unfoldable pub read_release : j.Value → Release → Option Release
  unfolding read_assets
  read_release release info = elim (value_text j release (codes "tag_name") []) [
    | none ↦ none
    | some tag ↦ elim (value_text j release (codes "published_at") []) [
      | none ↦ none
      | some date ↦
          elim (read_assets (assets_of release) (record info { tag = tag; date = date_of date })) [
            | none ↦ none
            | some info' ↦ some (record info' { valid = true })
          ]
    ]
  ]

  module _ (d : Device) where
    unfoldable pub keep_release : Option Release → M Bool
    keep_release none = do emit aborted; pure false
    keep_release (some info) = do modify (λ s. record s { latest_release = info }); pure true

    unfoldable pub parse_release : Option j.Value → M Bool
    unfolding read_release keep_release
    parse_release none = pure false
    parse_release (some v) = elim (j.contains (release_of v) (codes "tag_name")) [
      | false ↦ do add_app_log d (colored red (codes "[ERROR] No release tag in JSON")); pure false
      | true ↦ do s ← get; keep_release (read_release (release_of v) s.latest_release)
    ]

    unfoldable pub fill_release_info : M Bool
    unfolding fetch_release parse_release
    fill_release_info = do
      chunk ← fetch_release d
      elim chunk [ none ↦ pure false | some mem ↦ parse_release (j.parse (c_str mem.memory)) ]

    -- A version without the `v` before it.
    abbrev pub without_v : Bytes → Bytes
    without_v [] = []
    without_v (c ∷ cs) = if c == b'v' then cs else c ∷ cs

    -- The version, and the date, which only a release that was read changes.
    unfoldable pub get_latest_version : Bytes → M (Bytes × Bytes)
    unfolding fill_release_info
    get_latest_version date = do
      filled ← fill_release_info
      elim filled [
        | false ↦ pure (codes "error", date)
        | true ↦ do s ← get; pure (without_v s.latest_release.tag, s.latest_release.date)
      ]

    -- `latest_ver = get_latest_version(latest_date)`.
    unfoldable pub update_latest : M Bytes
    unfolding get_latest_version
    update_latest = do
      s ← get
      latest ← get_latest_version s.latest_date
      modify (λ s'. record s' { latest_date = latest.1 })
      pure latest.0
