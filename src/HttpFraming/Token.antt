-- ===== src/HttpFraming/Token.antt =====
-- What `HasValidApiToken` accepts.
use nxremote_api.Base.{◌≤◌, ◌≡◌, sym, ap, ◌↔◌, true, ◌++◌, append_assoc, take_all, length, arith}
use nxremote_api.Base.Text.{Bytes, codes}
use nxremote_api.CString.Search.{contains_iff, Occurs}
use nxremote_api.CString.Format.{snprintf}
use nxremote_api.HttpFraming.{has_valid_api_token, token_header}

abbrev pub header_name : Bytes
header_name = codes "X-API-Token: "

-- The buffer of 128 bytes holds the header of a token of at most 114 bytes whole.
pub token_header_whole :
    (token : Bytes) → length token ≤ 114 → token_header token ≡ header_name ++ token
unfolding token_header snprintf
token_header_whole token h = take_all 127 (header_name ++ token) (omega arith)

-- A request is accepted exactly when the header name and the token stand next to one another
-- somewhere in it, for a token of at most 114 bytes.
pub has_valid_api_token_iff :
    (buffer token : Bytes)
    → length token ≤ 114
    → (has_valid_api_token buffer token ≡ true) ↔ Occurs (header_name ++ token) buffer
unfolding has_valid_api_token
has_valid_api_token_iff buffer token h =
    rw (token_header_whole token h) (contains_iff buffer (header_name ++ token))

-- A request whose token is longer than the right one, but begins with it, is accepted as well.
pub has_valid_api_token-extended :
    (before token extra after : Bytes)
    → length token ≤ 114
    → has_valid_api_token (before ++ (header_name ++ (token ++ (extra ++ after)))) token ≡ true
has_valid_api_token-extended before token extra after h =
    (has_valid_api_token_iff _ token h).1 (record {
      before = before;
      after = extra ++ after;
      splits = ap (◌++◌ before) (sym (append_assoc header_name token (extra ++ after)));
    })
