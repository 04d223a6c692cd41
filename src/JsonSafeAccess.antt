-- ===== src/JsonSafeAccess.antt =====
-- firmware/common/JsonSafeAccess.cpp, over an interface for the JSON library.
pub mod Total
use nxremote_api.Base.{Bool, true, false, not, Option, none, some, List, if◌then◌else◌, ◌≡◌}
use nxremote_api.Base.Int.{ℤ}
use nxremote_api.Base.Text.{Bytes}

-- What the firmware calls of nlohmann::json. `get<T>()` aborts the process on a value of another
-- type (the firmware is built with -fno-exceptions); its `none` is that abort.
pub record Json : Type 1 where
  pub Value : Type 0
  -- `none` is a discarded value.
  pub parse : Bytes → Option Value
  pub is_object : Value → Bool
  pub is_array : Value → Bool
  pub is_string : Value → Bool
  pub is_number : Value → Bool
  pub contains : Value → Bytes → Bool
  -- `none` is `end()`.
  pub find : Value → Bytes → Option Value
  pub get_string : Value → Option Bytes
  pub get_int : Value → Option ℤ
  pub items : Value → List Value
  pub dump : Value → Bytes

-- The documented behaviour that the accessors rely on: a value can be read as what it is.
pub record IsLawful (j : Json) : Type 0 where
  pub strings : (v : j.Value) → j.is_string v ≡ true → (s : Bytes) × (j.get_string v ≡ some s)
  pub numbers : (v : j.Value) → j.is_number v ≡ true → (n : ℤ) × (j.get_int v ≡ some n)

-- The form that the two accessors have in common; the outer option is `none` if the call aborts.
unfoldable pub access {ℓ} :
    {A : Type ℓ} (j : Json)
    → (j.Value → Bool)
    → (j.Value → Option A)
    → j.Value
    → Bytes
    → A
    → Option A
access j is_kind read obj key def =
    if not (j.is_object obj) then some def else elim (j.find obj key) [
      | none ↦ some def
      | some v ↦ if not (is_kind v) then some def else read v
    ]

-- `GetString`.
unfoldable pub get_string : (j : Json) → j.Value → Bytes → Bytes → Option Bytes
unfolding access
get_string j = access j j.is_string j.get_string

-- `GetInt`.
unfoldable pub get_int : (j : Json) → j.Value → Bytes → ℤ → Option ℤ
unfolding access
get_int j = access j j.is_number j.get_int
