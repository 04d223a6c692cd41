-- ===== src/Companion/Loop/Offer.antt =====
-- When the screen offers an update, against what the button (Y) installs.
use nxremote_api.Base.{
  ◌+◌, ◌*◌, ℕ, Bool, true, false, get_or, [], Bool-cases, inl, inr, ◌↔◌, ◌≡◌, ◌≢◌, refl, ap, arith,
}
use nxremote_api.Base.Text.{Bytes, codes}
use nxremote_api.Core.Album.{text_eq}
use nxremote_api.Companion.Terminal.{text_lt, offer_text, update_text}
use nxremote_api.Companion.Loop.{is_offered}

-- Two bytes that tell the texts apart.
mark : Bytes → ℕ
mark text = get_or text 2 0 * 256 + get_or text 4 0

-- A text that is no offer, where there is none to make.
no_offer : {A : Type 0} {text offer : Bytes} → mark text ≢ mark offer → ¬ A → (text ≡ offer) ↔ A
no_offer differs never = ((λ e. absurd (differs (ap mark e))), λ a. absurd (never a))

-- The screen offers a version exactly if no look for one is under way, the button (Y) would install
-- it, and as a text it does not come before the version that runs.
pub offer-is_offered :
    (checking : Bool) (latest_ver app_version : Bytes)
    → (update_text checking latest_ver app_version ≡ offer_text latest_ver) ↔ (
        (checking ≡ false)
        × (is_offered latest_ver app_version ≡ true)
        × (text_lt latest_ver app_version ≡ false))
unfolding update_text is_offered mark
offer-is_offered true latest_ver app_version = no_offer (λ k. omega (arith, k)) λ h. cc h.0
offer-is_offered false latest_ver app_version = elim (Bool-cases (text_eq latest_ver [])) [
  | inl empty ↦ rw empty (no_offer (λ k. omega (arith, k)) λ h. cc h.1)
  | inr named ↦ elim (Bool-cases (text_eq latest_ver (codes "none"))) [
    | inl absent ↦ rw (named, absent) (no_offer (λ k. omega (arith, k)) λ h. ground (arith, h.1))
    | inr present ↦ elim (Bool-cases (text_eq latest_ver (codes "error"))) [
      | inl error ↦
          rw (named, present, error) (no_offer (λ k. omega (arith, k)) λ h. ground (arith, h.1))
      | inr known ↦ elim (Bool-cases (text_eq latest_ver app_version)) [
        | inl same ↦ rw (named, present, known, same) (no_offer (λ k. omega (arith, k)) λ h. cc h.1)
        | inr other ↦ elim (Bool-cases (text_lt latest_ver app_version)) [
          | inl older ↦
              rw (named, present, known, other, older)
                (no_offer (λ k. omega (arith, k)) λ h. cc h.2)
          | inr newer ↦
              rw (named, present, known, other, newer) ((λ e. (refl, refl, refl)), λ h. refl)
        ]
      ]
    ]
  ]
]
