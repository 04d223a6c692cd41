-- ===== src/Tests/Peers.antt =====
-- A JSON library of one-key objects and a console with one client, to run the model on.
use nxremote_api.Base.{
  Bool, true, false, Option, none, some, [], take, length, ◌≡◌, refl, if◌then◌else◌,
}
use nxremote_api.Base.Int.{ℤ, pos}
use nxremote_api.Base.Text.{Bytes, codes}
use nxremote_api.JsonSafeAccess.{Json, IsLawful}
use nxremote_api.Logger
use nxremote_api.Config.{Config}
use nxremote_api.Core.World.{Platform, Core}
use nxremote_api.Core.Album.{text_eq}

pub data Value : Type 0 where
  text : Bytes → Value
  number : ℤ → Value
  object : Bytes → Value → Value

abbrev pub is_text : Value → Bool
is_text (text s) = true
is_text _ = false

abbrev pub is_int : Value → Bool
is_int (number n) = true
is_int _ = false

abbrev pub is_object_value : Value → Bool
is_object_value (object k v) = true
is_object_value _ = false

abbrev pub member : Value → Bytes → Option Value
member (object k v) key = if text_eq k key then some v else none
member _ key = none

abbrev pub has_member : Value → Bytes → Bool
has_member (object k v) key = text_eq k key
has_member _ key = false

abbrev pub read_text : Value → Option Bytes
read_text (text s) = some s
read_text _ = none

abbrev pub read_int : Value → Option ℤ
read_int (number n) = some n
read_int _ = none

-- Every body is read as the request to restart the console.
abbrev pub toy : Json
toy = record {
  Value = Value;
  parse = λ body. some (object (codes "action") (text (codes "reboot")));
  is_object = is_object_value;
  is_array = λ v. false;
  is_string = is_text;
  is_number = is_int;
  contains = has_member;
  find = member;
  get_string = read_text;
  get_int = read_int;
  items = λ v. [];
  dump = λ v. codes "{}";
}

toy_strings : (v : Value) → is_text v ≡ true → (s : Bytes) × (read_text v ≡ some s)
toy_strings (text s) h = (s, refl)
toy_strings (number n) h = cc
toy_strings (object k v) h = cc

toy_numbers : (v : Value) → is_int v ≡ true → (n : ℤ) × (read_int v ≡ some n)
toy_numbers (text s) h = cc
toy_numbers (number n) h = (n, refl)
toy_numbers (object k v) h = cc

pub toy-IsLawful : IsLawful toy
toy-IsLawful = record { strings = toy_strings; numbers = toy_numbers }

-- A console whose client sends one request, and reads all that it is sent.
abbrev pub console : Bytes → Platform
console request = record {
  readable = λ h. true;
  writable = λ h. pos 1;
  recv = λ h len. some (take len request);
  write = λ h bytes. pos (length bytes);
  tick = λ h. length h;
  tick_freq = 19200000;
  time_stamp = λ h. none;
  file = λ h path.
      if text_eq path (codes "sdmc:/config/NXRemoteAPI/launcher/main")
      then some (codes "NSO0")
      else none;
  can_write = λ h path. true;
  stores = λ h. true;
  fread = λ h. 4096;
  fclose = λ h bytes. bytes;
  random = λ h. 4;
  launch = λ h storage id. 0;
  enter_sleep = λ h. 0;
  firmware_version = λ h. (22, 5, 0);
  battery_percent = λ h. 80;
  charger_type = λ h. 0;
  temperature = λ h. pos 42;
  wifi_rssi = λ h. 3;
  total_memory = λ h. 1024;
  used_memory = λ h. 512;
  heap_arena = λ h. 256;
  heap_used = λ h. 128;
  sd_device = λ h. false;
  sd_size = λ h. none;
  sd_file_system = λ h. false;
  sd_free = λ h. pos 0;
  application_pid = λ h. none;
  program_id = λ h pid. none;
  performance = λ h. (0, false);
  allocates = λ h n. true;
  control_data = λ h id. none;
  ncm_open = λ h storage. 1;
  ncm_count = λ h storage. (1, pos 0);
  ncm_list = λ h storage n. none;
  capture = λ h. none;
  button_bit = λ name. 1;
  app_version = codes "1.0";
  storage_id = λ storage. 5;
  lr_start = λ h. 1;
  lr_open = λ h storage. 1;
  lr_resolve = λ h storage id. (1, []);
}

abbrev pub settings : Config
settings = record {
  api_token = codes "swift-pluto-7";
  port = pos 8275;
  last_update_check = pos 0;
  debug = false;
  enable_screenshot = true;
  enable_input = true;
}

abbrev pub idle : Core
idle = record {
  config = settings;
  logger = Logger.init;
  hiddbg_ready = true;
  capssc_ready = true;
  album_override_active = false;
  album_override_installed_tick = 0;
  events = [];
}
