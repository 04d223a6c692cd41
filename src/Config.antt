-- ===== src/Config.antt =====
-- firmware/common/ConfigManager.cpp: the settings and the file that keeps them. What the methods
-- take from outside is an argument: the text of the file, whether it can be opened for writing, the
-- system tick and the two numbers that `rand` gives.
pub mod Setters
pub mod Bounds
pub mod Token
pub mod Text
pub mod RoundTrip
use nxremote_api.Base.{
  ℕ, ◌+◌, ◌-◌, ◌%◌, ◌^◌, Bool, true, false, Option, none, some, List, [], ◌∷◌, ◌++◌, drop, take,
  min, length, get_or, ◌==◌, if◌then◌else◌,
}
use nxremote_api.Base.Int.{ℤ, pos}
use nxremote_api.Base.Text.{Bytes, codes}
use nxremote_api.CString.Search.{c_str, strchr, contains}
use nxremote_api.CString.Number.{strtol, atoi}
use nxremote_api.CString.Format.{snprintf, decimal, signed_decimal}
use nxremote_api.CString.Lines.{fgets_lines}

-- `ConfigManager`, with `m_apiToken` as the C string in its array of 128 bytes.
pub record Config : Type 0 where
  pub api_token : Bytes
  pub port : ℤ
  pub last_update_check : ℤ
  pub debug : Bool
  pub enable_screenshot : Bool
  pub enable_input : Bool

abbrev pub config_path : Bytes
config_path = codes "sdmc:/config/NXRemoteAPI/settings.json"

-- The constructor.
abbrev pub fresh : Config
fresh = record {
  api_token = [];
  port = pos 8275;
  last_update_check = pos 0;
  debug = false;
  enable_screenshot = true;
  enable_input = true;
}

-- What a call of `generatePassphrase` takes from the system.
pub record Seeds : Type 0 where
  pub tick : ℕ
  pub adjective : ℕ
  pub noun : ℕ

abbrev adjectives : List Bytes
adjectives =
    codes "Super"
    ∷ codes "Magic"
    ∷ codes "Hyper"
    ∷ codes "Ultra"
    ∷ codes "Mega"
    ∷ codes "Cool"
    ∷ codes "Smart"
    ∷ codes "Happy"
    ∷ []

abbrev nouns : List Bytes
nouns =
    codes "Switch"
    ∷ codes "Home"
    ∷ codes "Dash"
    ∷ codes "Cloud"
    ∷ codes "Star"
    ∷ codes "Link"
    ∷ codes "Pixel"
    ∷ codes "Node"
    ∷ []

-- `generatePassphrase`.
unfoldable pub generate_passphrase : ℕ → Seeds → Bytes
generate_passphrase max_len s = snprintf max_len (
    get_or adjectives (s.adjective % 8) []
    ++ (b'-' ∷ (get_or nouns (s.noun % 8) [] ++ (b'-' ∷ decimal (s.tick % 100)))))

-- `generateDefaultConfig`.
unfoldable pub generate_default_config : Seeds → Config → Config
unfolding generate_passphrase
generate_default_config s c = record c { api_token = generate_passphrase 128 s; port = pos 8275 }

-- The text between the quotes behind the first colon, if both are there.
unfoldable pub quoted_value : Bytes → Option Bytes
quoted_value line = elim (strchr line b':') [
  | none ↦ none
  | some colon ↦ elim (strchr colon b'"') [
    | none ↦ none
    | some start ↦
        let value = drop 1 start in
        elim (strchr value b'"') [
          | none ↦ none
          | some end ↦ some (take (min (length value - length end) 127) value)
        ]
  ]
]

abbrev pub set_token : Config → Option Bytes → Config
set_token c none = c
set_token c (some t) = record c { api_token = t }

abbrev pub set_port : Config → Option Bytes → Config
set_port c none = c
set_port c (some colon) = record c { port = atoi (drop 1 colon) }

abbrev pub set_check : Config → Option Bytes → Config
set_check c none = c
set_check c (some colon) = record c { last_update_check = strtol (drop 1 colon) }

abbrev pub key_token : Bytes
key_token = codes "\"api_token\""

abbrev pub key_port : Bytes
key_port = codes "\"port\""

abbrev pub key_check : Bytes
key_check = codes "\"last_update_check\""

abbrev pub key_debug : Bytes
key_debug = codes "\"debug\""

abbrev pub key_screenshot : Bytes
key_screenshot = codes "\"enable_screenshot\""

abbrev pub key_input : Bytes
key_input = codes "\"enable_input\""

-- The body of the loop in `load`, on the line as a C string.
unfoldable pub apply_line : Config → Bytes → Config
apply_line c line =
    if contains line key_token
    then set_token c (quoted_value line)
    else if contains line key_port
    then set_port c (strchr line b':')
    else if contains line key_check
    then set_check c (strchr line b':')
    else if contains line key_debug
    then record c { debug = contains line (codes "true") }
    else if contains line key_screenshot
    then record c { enable_screenshot = contains line (codes "true") }
    else if contains line key_input
    then record c { enable_input = contains line (codes "true") }
    else c

unfoldable pub apply_lines : Config → List Bytes → Config
apply_lines c [] = c
apply_lines c (line ∷ lines) = apply_lines (apply_line c (c_str line)) lines

abbrev pub bool_text : Bool → Bytes
bool_text true = codes "true"
bool_text false = codes "false"

-- One line of the file: two blanks, the key, and the value with what ends it.
abbrev pub settings_line : Bytes → Bytes → Bytes
settings_line key value = b' ' ∷ b' ' ∷ (key ++ (b':' ∷ b' ' ∷ value))

-- The lines that `save` prints, each of which ends in a newline.
abbrev pub settings_lines : Config → List Bytes
settings_lines c =
    codes "{"
    ∷ settings_line key_token (b'"' ∷ (c.api_token ++ codes "\","))
    ∷ settings_line key_port (signed_decimal c.port ++ codes ",")
    ∷ settings_line key_check (signed_decimal c.last_update_check ++ codes ",")
    ∷ settings_line key_debug (bool_text c.debug ++ codes ",")
    ∷ settings_line key_screenshot (bool_text c.enable_screenshot ++ codes ",")
    ∷ settings_line key_input (bool_text c.enable_input)
    ∷ codes "}"
    ∷ []

unfoldable pub unlines : List Bytes → Bytes
unlines [] = []
unlines (line ∷ lines) = line ++ (b'\n' ∷ unlines lines)

unfoldable pub settings_text : Config → Bytes
settings_text c = unlines (settings_lines c)

-- The directories that stand before a slash of the path, behind the first seven bytes.
directories_from : Bytes → Bytes → List Bytes
directories_from done [] = []
directories_from done (x ∷ rest) =
    let more = directories_from (done ++ x ∷ []) rest in if x == b'/' then done ∷ more else more

-- What a call of `save` does: the directories it makes, and the text it writes, if it can.
pub record Saved : Type 0 where
  pub made : List Bytes
  pub written : Option Bytes

-- `save`; it returns whether `written` holds a text.
unfoldable pub save : Bool → Config → Saved
unfolding directories_from
save writable c = record {
  made = directories_from (take 7 config_path) (drop 7 config_path);
  written = if writable then some (settings_text c) else none;
}

pub record Loaded : Type 0 where
  pub config : Config
  pub saved : Option Saved
  pub result : Bool

abbrev pub wrote : Saved → Bool
wrote s = elim s.written [ none ↦ false | some t ↦ true ]

abbrev pub is_nil : Bytes → Bool
is_nil [] = true
is_nil (x ∷ xs) = false

abbrev pub with_default : Bool → Seeds → Config → Loaded
with_default writable s c =
    let d = generate_default_config s c in
    record { config = d; saved = some (save writable d); result = true }

-- `load`: the file is `none` where it cannot be opened.
unfoldable pub load : Option Bytes → Bool → Seeds → Config → Loaded
load none writable s c =
    let d = generate_default_config s c in
    record { config = d; saved = some (save writable d); result = wrote (save writable d) }
load (some file) writable s c =
    let d = apply_lines c (fgets_lines 256 file) in
    if is_nil d.api_token
    then with_default writable s d
    else record { config = d; saved = none; result = true }
