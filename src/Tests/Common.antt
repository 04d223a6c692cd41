-- ===== src/Tests/Common.antt =====
-- The theorems on the shared code, at concrete inputs.
use nxremote_api.Base.{
  ◌+◌, ◌-◌, ◌≤◌, Bool, true, false, none, some, List, [], ◌∷◌, ◌++◌, map, length, min, take, leb,
  ltb, get_or, ◌≡◌, ◌≢◌, ◌⊎◌, ◌↔◌, refl, arith, if◌then◌else◌,
}
use nxremote_api.Base.Int.{pos}
use nxremote_api.Base.Text.{Bytes, codes}
use nxremote_api.CString.Search.{Occurs}
use nxremote_api.CString.Format.{hex, signed_decimal}
use nxremote_api.ByteSearch
use nxremote_api.HttpFraming.{has_complete_body, has_valid_api_token, blank_line}
use nxremote_api.HttpFraming.Framing.{IsFramed, has_complete_body-prefix}
use nxremote_api.HttpFraming.Token.{header_name, has_valid_api_token_iff}
use nxremote_api.Logger.{info, error, get_log, init, blank, max_log_entries, u32}
use nxremote_api.Logger.History.{LogCall, log_all, entry, errors, get_log-log_all, counts-log_all}
use nxremote_api.Config.{Config, Seeds, load, save}
use nxremote_api.Config.Text.{IsStorable}
use nxremote_api.Config.RoundTrip.{load-save}
use nxremote_api.Config.Token.{load-token}
use nxremote_api.JsonSafeAccess.{get_string}
use nxremote_api.JsonSafeAccess.Total.{Expected, get_string_lem}
use nxremote_api.Tests.Peers.{Value, text, object, toy, toy-IsLawful, settings}

abbrev datagram : Bytes
datagram = 1 ∷ 0 ∷ 7 ∷ codes "NXREMOTE"

contains_lem_example :
    (answer : Bool) × (ByteSearch.contains datagram (codes "REM") ≡ some answer)
    × ((answer ≡ true) ↔ Occurs (codes "REM") datagram)
contains_lem_example = ByteSearch.contains_lem datagram (codes "REM")

abbrev request_head : Bytes
request_head = codes "POST /command HTTP/1.1" ++ 13 ∷ 10 ∷ codes "Content-Length: 12"

abbrev request_body : Bytes
request_body = codes "{\"action\":1}"

request-IsFramed :
    IsFramed request_head request_body
      (codes "POST /command HTTP/1.1" ++ 13 ∷ 10 ∷ [])
      (10 ∷ 13 ∷ 10 ∷ request_body)
      12
unfolding nxremote_api.CString.Search.strstr nxremote_api.CString.Search.starts_with
    nxremote_api.CString.Format.decimal
request-IsFramed = record {
  header = refl;
  first_blank = refl;
  first_length = refl;
  inside = omega arith;
  fits = omega arith;
}

has_complete_body-prefix_example :
    has_complete_body (take 50 (request_head ++ (blank_line ++ request_body))) 50
    ≡ leb (length request_head + 4 + 12) 50
has_complete_body-prefix_example = has_complete_body-prefix request-IsFramed 50 (omega arith)

has_valid_api_token_iff_example :
    (has_valid_api_token (codes "X-API-Token: swift-pluto-7") (codes "swift-pluto-7") ≡ true)
    ↔ Occurs (header_name ++ codes "swift-pluto-7") (codes "X-API-Token: swift-pluto-7")
has_valid_api_token_iff_example =
    has_valid_api_token_iff (codes "X-API-Token: swift-pluto-7") (codes "swift-pluto-7")
      (omega arith)

settings-IsStorable : IsStorable settings
settings-IsStorable = record {
  token = record {
    quotes = ground arith;
    newlines = ground arith;
    nuls = ground arith;
    fits = omega arith;
    ne_nil = λ e. cc;
  };
  port_range = ground arith;
  check_range = ground arith;
}

abbrev calls : List LogCall
calls =
    (info, codes "Config reloaded", none)
    ∷ (error, codes "capture failed", some (codes "10:00"))
    ∷ []

get_log-log_all_example : get_log (log_all init calls) 1 ≡ (
    if ltb 1 (min max_log_entries (length (map entry calls)))
    then some (
        get_or
          (map entry calls)
          (length (map entry calls) - min max_log_entries (length (map entry calls)) + 1)
          blank)
    else none)
get_log-log_all_example = get_log-log_all calls 1

counts-log_all_example :
    ((log_all init calls).count ≡ min max_log_entries (length (map entry calls)))
    × ((log_all init calls).error_count ≡ u32 (errors (map entry calls)))
counts-log_all_example = counts-log_all calls

abbrev seeds : Seeds
seeds = record { tick = 1234; adjective = 2; noun = 3 }

abbrev other_settings : Config
other_settings = record {
  api_token = codes "old";
  port = pos 1;
  last_update_check = pos 2;
  debug = true;
  enable_screenshot = false;
  enable_input = false;
}

load-save_example :
    load (save true settings).written true seeds other_settings
    ≡ record { config = settings; saved = none; result = true }
load-save_example = load-save other_settings settings true seeds settings-IsStorable

load-token_example :
    let out = load (some (codes "{ }")) true seeds other_settings in
    (out.config.api_token ≢ [])
    × (length out.config.api_token ≤ 127)
    × ((out.saved ≡ none) ⊎ (out.saved ≡ some (save true out.config)))
load-token_example = load-token (some (codes "{ }")) true seeds other_settings (omega arith)

abbrev action : Value
action = object (codes "action") (text (codes "reboot"))

get_string_lem_example :
    (result : Bytes) × (get_string toy action (codes "action") [] ≡ some result)
    × Expected toy toy.is_string toy.get_string action (codes "action") [] result
get_string_lem_example = get_string_lem toy toy-IsLawful action (codes "action") []
