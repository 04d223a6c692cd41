-- ===== src/Core/Button.antt =====
-- POST /button: a sequence of buttons in a JSON body, or one button by `name=`.
use nxremote_api.Base.{
  ℕ, ◌*◌, Bool, true, false, ◌||◌, Option, none, some, List, [], ◌∷◌, drop, take, ◌==◌,
  if◌then◌else◌,
}
use nxremote_api.Base.Int.{ℤ, pos, to_bits}
use nxremote_api.Base.Text.{Bytes, codes}
use nxremote_api.CString.Search.{strstr}
use nxremote_api.CString.Number.{is_space, skip_spaces}
use nxremote_api.JsonSafeAccess.{Json, get_string, get_int}
use nxremote_api.HttpFraming.{blank_line}
use nxremote_api.Core.World.{pressed, slept, Platform, M, pure, ◌>>◌, emit, or_abort, u64}
use nxremote_api.Core.Net.{send}
use nxremote_api.Core.Album.{text_eq}
use nxremote_api.Core.Control.{plain_response, bad_request, error_body, ok_response}

-- The names that the two chains of tests know.
abbrev pub button_names : List Bytes
button_names =
    codes "A"
    ∷ codes "B"
    ∷ codes "X"
    ∷ codes "Y"
    ∷ codes "L"
    ∷ codes "R"
    ∷ codes "ZL"
    ∷ codes "ZR"
    ∷ codes "PLUS"
    ∷ codes "MINUS"
    ∷ codes "LEFT"
    ∷ codes "RIGHT"
    ∷ codes "UP"
    ∷ codes "DOWN"
    ∷ codes "HOME"
    ∷ codes "CAPTURE"
    ∷ []

unfoldable pub is_one_of : Bytes → List Bytes → Bool
is_one_of name [] = false
is_one_of name (known ∷ rest) = text_eq name known || is_one_of name rest

-- The word that `sscanf` reads by `%31s`: no space in front, and at most 31 bytes.
unfoldable pub word : Bytes → Bytes
word [] = []
word (x ∷ s) = if is_space x then [] else x ∷ word s

-- The text before the first `&`; a space or a line end is not in a word.
unfoldable pub before_ampersand : Bytes → Bytes
before_ampersand [] = []
before_ampersand (x ∷ s) = if x == 38 then [] else x ∷ before_ampersand s

unfoldable pub button_name : Bytes → Bytes
unfolding word before_ampersand
button_name text = before_ampersand (take 31 (word (skip_spaces text)))

-- The sequence of a JSON body, if the request has one.
unfoldable pub button_sequence : (j : Json) → Bytes → Option (List j.Value)
button_sequence j buffer = elim (strstr buffer blank_line) [
  | none ↦ none
  | some found ↦ from_body (drop 4 found)
]
  where
    from_object : j.Value → Option (List j.Value)
    from_object req = elim (j.contains req (codes "sequence")) [
      | false ↦ none
      | true ↦ elim (j.find req (codes "sequence")) [
        | none ↦ none
        | some v ↦ if j.is_array v then some (j.items v) else none
      ]
    ]

    from_body : Bytes → Option (List j.Value)
    from_body [] = none
    from_body (x ∷ body) =
        if x == 123
        then elim (j.parse (x ∷ body)) [ none ↦ none | some req ↦ from_object req ]
        else none

module _ (p : Platform) where
  -- `btn_bit`: 0 for a name that is not known.
  unfoldable pub button_bit : Bytes → ℕ
  unfolding is_one_of
  button_bit name = if is_one_of name button_names then p.button_bit name else 0

  unfoldable pub press_step : ℕ → ℤ → M (Unit {0})
  press_step btn_bit duration = elim (btn_bit == 0) [
    | true ↦ pure tt
    | false ↦ do
      emit (pressed btn_bit)
      emit (slept (u64 (to_bits 64 duration * 1000000)))
      emit (pressed 0)
      emit (slept 50000000)
  ]

  unfoldable pub press_all : (j : Json) → List j.Value → M (Unit {0})
  unfolding press_step button_bit
  press_all j [] = pure tt
  press_all j (step ∷ steps) = do
    or_abort (get_string j step (codes "button") []) λ btn_name.
        or_abort (get_int j step (codes "duration_ms") (pos 100))
          λ duration. press_step (button_bit btn_name) duration
    press_all j steps

  unfoldable pub press_one : ℕ → M (Unit {0})
  press_one btn_bit = elim (btn_bit == 0) [
    | true ↦ send p (plain_response bad_request (error_body (codes "Invalid button")))
    | false ↦ do
      emit (pressed btn_bit)
      emit (slept 100000000)
      emit (pressed 0)
      send p ok_response
  ]

  unfoldable pub press_named : Bytes → M (Unit {0})
  unfolding press_one button_bit button_name
  press_named buffer = elim (strstr buffer (codes "name=")) [
    | none ↦ send p (plain_response bad_request (error_body (codes "Button name missing")))
    | some name_ptr ↦ press_one (button_bit (button_name (drop 5 name_ptr)))
  ]

  unfoldable pub handle_button : Json → Bytes → M (Unit {0})
  unfolding press_all press_named button_sequence
  handle_button j buffer = elim (button_sequence j buffer) [
    | none ↦ press_named buffer
    | some steps ↦ do press_all j steps; send p ok_response
  ]

  unfoldable pub handle_button_disabled : M (Unit {0})
  handle_button_disabled = send p (
      plain_response (codes "503 Service Unavailable")
        (error_body (codes "Input control disabled (enable_input=false in settings.json)")))
