-- ===== src/Config/Setters.antt =====
-- The setters of ConfigManager, and `generateRandomToken`.
use nxremote_api.Base.{ℕ, zero, suc, ◌%◌, Bool, Option, List, [], ◌∷◌, take, get_or, length}
use nxremote_api.Base.Int.{ℤ}
use nxremote_api.Base.Text.{Bytes, codes}
use nxremote_api.CString.Search.{c_str}
use nxremote_api.Config.{Config, Seeds, generate_default_config, load}

-- `setApiToken`: `strncpy` into the 128 bytes, and a NUL.
unfoldable pub set_api_token : Bytes → Config → Config
set_api_token token c = record c { api_token = take 127 (c_str token) }

unfoldable pub set_port : ℤ → Config → Config
set_port port c = record c { port = port }

unfoldable pub set_last_update_check : ℤ → Config → Config
set_last_update_check timestamp c = record c { last_update_check = timestamp }

unfoldable pub set_debug : Bool → Config → Config
set_debug debug c = record c { debug = debug }

unfoldable pub set_enable_screenshot : Bool → Config → Config
set_enable_screenshot enable c = record c { enable_screenshot = enable }

unfoldable pub set_enable_input : Bool → Config → Config
set_enable_input enable c = record c { enable_input = enable }

abbrev characters : Bytes
characters = codes "0123456789abcdefghijklmnopqrstuvwxyzABCDEFGHIJKLMNOPQRSTUVWXYZ"

-- `generateRandomToken`, with the numbers that `rand` returns, from the first on.
unfoldable pub generate_random_token : (ℕ → ℕ) → ℕ → Bytes
generate_random_token rand zero = []
generate_random_token rand (suc length) =
    get_or characters (rand 0 % 62) 0 ∷ generate_random_token (λ i. rand (suc i)) length

-- The calls that change the settings; a load with the file, whether it can be written, and the seeds.
pub data Call : Type 0 where
  load_call : Option Bytes → Bool → Seeds → Call
  default_call : Seeds → Call
  token_call : Bytes → Call
  port_call : ℤ → Call
  check_call : ℤ → Call
  debug_call screenshot_call input_call : Bool → Call

unfoldable pub apply : Call → Config → Config
unfolding set_api_token set_port set_last_update_check set_debug set_enable_screenshot
    set_enable_input
apply (load_call file writable seeds) c = (load file writable seeds c).config
apply (default_call seeds) c = generate_default_config seeds c
apply (token_call token) c = set_api_token token c
apply (port_call port) c = set_port port c
apply (check_call timestamp) c = set_last_update_check timestamp c
apply (debug_call debug) c = set_debug debug c
apply (screenshot_call enable) c = set_enable_screenshot enable c
apply (input_call enable) c = set_enable_input enable c

unfoldable pub apply_all : List Call → Config → Config
unfolding apply
apply_all [] c = c
apply_all (call ∷ calls) c = apply_all calls (apply call c)
