-- ===== src/HttpFraming.antt =====
-- firmware/common/HttpFraming.cpp: framing and authentication on the raw text of a request.
pub mod Framing
pub mod Token
use nxremote_api.Base.{
  ℕ, ◌+◌, ◌-◌, Bool, true, false, Option, none, some, [], ◌∷◌, ◌++◌, drop, length,
}
use nxremote_api.Base.Int.{sub_ℕ, leb_ℤ}
use nxremote_api.Base.Text.{Bytes, codes}
use nxremote_api.CString.Search.{strstr, contains}
use nxremote_api.CString.Number.{strtol}
use nxremote_api.CString.Format.{snprintf}

abbrev pub blank_line : Bytes
blank_line = 13 ∷ 10 ∷ 13 ∷ 10 ∷ []

abbrev pub content_length : Bytes
content_length = codes "Content-Length:"

-- The header in its first spelling, else in lower case.
unfoldable pub length_header : Bytes → Option Bytes
length_header buffer = elim (strstr buffer content_length) [
  | some header ↦ some header
  | none ↦ strstr buffer (codes "content-length:")
]

-- `HasCompleteBody`. The buffer is the C string in it, and `bytes_read` what was received so far.
unfoldable pub has_complete_body : Bytes → ℕ → Bool
has_complete_body buffer bytes_read = elim (strstr buffer blank_line) [
  | none ↦ false
  | some body_start ↦ elim (length_header buffer) [
    | none ↦ true
    | some header ↦
        leb_ℤ (strtol (drop 15 header)) (sub_ℕ bytes_read (length buffer - length body_start + 4))
  ]
]

-- `MatchesRoute`.
unfoldable pub matches_route : Bytes → Bytes → Bool
matches_route buffer route = contains buffer route

-- The header that a valid request holds.
unfoldable pub token_header : Bytes → Bytes
token_header token = snprintf 128 (codes "X-API-Token: " ++ token)

-- `HasValidApiToken`.
unfoldable pub has_valid_api_token : Bytes → Bytes → Bool
unfolding token_header
has_valid_api_token buffer expected_token = contains buffer (token_header expected_token)
