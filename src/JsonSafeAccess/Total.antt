-- ===== src/JsonSafeAccess/Total.antt =====
-- The accessors never abort, and fall back to the default as their header promises.
use nxremote_api.Base.{
  Bool, true, false, Option, none, some, Bool-cases, Option-cases, inl, inr, ◌⊎◌, ◌≡◌, refl, arith,
}
use nxremote_api.Base.Int.{ℤ}
use nxremote_api.Base.Text.{Bytes}
use nxremote_api.JsonSafeAccess.{Json, IsLawful, access, get_string, get_int}

-- What a reader of the header expects of an access, with a test and a reading of the value: the value
-- under the key of an object if it is of the kind, else the default.
abbrev pub Expected {ℓ} :
    {A : Type ℓ} (j : Json)
    → (j.Value → Bool)
    → (j.Value → Option A)
    → j.Value
    → Bytes
    → A
    → A
    → Type ℓ
Expected j is_kind read obj key def result =
    ((v : j.Value) × (j.is_object obj ≡ true)
      × (j.find obj key ≡ some v)
      × (is_kind v ≡ true)
      × (read v ≡ some result))
    ⊎ ((result ≡ def)
        × ((j.is_object obj ≡ false)
            ⊎ (j.find obj key ≡ none)
            ⊎ ((v : j.Value) × (j.find obj key ≡ some v) × (is_kind v ≡ false))))

module _ {ℓ} {A : Type ℓ} (j : Json) (is_kind : j.Value → Bool) (read : j.Value → Option A) where
  access_lem :
      (obj : j.Value) (key : Bytes) (def : A)
      → ((v : j.Value) → is_kind v ≡ true → (a : A) × (read v ≡ some a))
      → (result : A) × (access j is_kind read obj key def ≡ some result)
        × Expected j is_kind read obj key def result
  unfolding access
  access_lem obj key def reads = elim (Bool-cases (j.is_object obj)) [
    | inr other ↦ (def, rw other refl, inr (refl, inl other))
    | inl object ↦ elim (Option-cases (j.find obj key)) [
      | inl missing ↦ (def, rw (object, missing, access) refl, inr (refl, inr (inl missing)))
      | inr (v, found) ↦ elim (Bool-cases (is_kind v)) [
        | inr wrong ↦ (def, ground arith, inr (refl, inr (inr (v, found, wrong))))
        | inl right ↦
            let (a, e) = reads v right in (a, ground arith, inl (v, object, found, right, e))
      ]
    ]
  ]

module _ (j : Json) (laws : IsLawful j) (obj : j.Value) (key : Bytes) where
  -- `GetString` always returns: the text of a string under the key of an object, and the default for
  -- a value that is no object, a missing key and a value of another type.
  pub get_string_lem :
      (def : Bytes)
      → (result : Bytes) × (get_string j obj key def ≡ some result)
        × Expected j j.is_string j.get_string obj key def result
  unfolding get_string
  get_string_lem def = access_lem j j.is_string j.get_string obj key def laws.strings

  -- `GetInt` always returns: the number under the key of an object, and the default for a value that
  -- is no object, a missing key and a value of another type.
  pub get_int_lem :
      (def : ℤ)
      → (result : ℤ) × (get_int j obj key def ≡ some result)
        × Expected j j.is_number j.get_int obj key def result
  unfolding get_int
  get_int_lem def = access_lem j j.is_number j.get_int obj key def laws.numbers
