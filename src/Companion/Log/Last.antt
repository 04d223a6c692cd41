-- ===== src/Companion/Log/Last.antt =====
-- The messages that the list holds are the last ones.
use nxremote_api.Base.{
  ℕ, zero, suc, ◌+◌, ◌-◌, ◌≤◌, List, [], ◌∷◌, ◌++◌, append_assoc, length, length-append, drop,
  length-drop, ltb, ltb→lt, ltb→le, Bool-cases, inl, inr, ◌≡◌, refl, sym, ap, subst, append-nil,
  ◌∙◌, arith,
}
use nxremote_api.Base.Text.{Bytes}
use nxremote_api.Companion.World.{Device, App, ◌>>=◌, ◌>>◌, get, modify, when, pure, emit, ask}
use nxremote_api.Companion.Log.{push, add_app_log, add_all}

-- The last so many of a list.
abbrev pub last : ℕ → List Bytes → List Bytes
last n xs = drop (length xs - n) xs

drop-append : (k : ℕ) (xs ys : List Bytes) → k ≤ length xs → drop k xs ++ ys ≡ drop k (xs ++ ys)
drop-append zero xs ys h = refl
drop-append (suc k) [] ys h = absurd (omega arith)
drop-append (suc k) (x ∷ xs) ys h = drop-append k xs ys (omega arith)

plus_zero : (n : ℕ) → n ≡ 0 + n
plus_zero n = omega arith

suc_plus : (k j : ℕ) → suc (k + j) ≡ suc k + j
suc_plus k j = omega arith

drop-nil : (n : ℕ) → drop {A = Bytes} n [] ≡ []
drop-nil zero = refl
drop-nil (suc n) = refl

drop-drop : (j k : ℕ) (xs : List Bytes) → drop j (drop k xs) ≡ drop (k + j) xs
drop-drop j zero xs = ap (λ n. drop n xs) (plus_zero j)
drop-drop j (suc k) [] = drop-nil j ∙ sym (drop-nil (suc k + j))
drop-drop j (suc k) (x ∷ xs) = drop-drop j k xs ∙ ap (λ n. drop n (x ∷ xs)) (suc_plus k j)

last-append : (n : ℕ) (xs ys : List Bytes) → last n (last n xs ++ ys) ≡ last n (xs ++ ys)
last-append n xs ys =
    let k = length xs - n in
    let joined = drop-append k xs ys (omega arith) in
    let size : length (drop k (xs ++ ys)) ≡ length xs + length ys - k =
      length-drop k (xs ++ ys) ∙ ap (λ l. l - k) (length-append xs ys) in
    ap (λ zs. drop (length zs - n) zs) joined
    ∙ drop-drop (length (drop k (xs ++ ys)) - n) k (xs ++ ys)
    ∙ ap (λ i. drop i (xs ++ ys)) (omega (arith, size, length-append xs ys))

pub length-last : (n : ℕ) (xs : List Bytes) → length (last n xs) ≤ n
length-last n xs = omega (arith, length-drop (length xs - n) xs)

pub at_index : (xs : List Bytes) (i j : ℕ) → i ≡ j → drop i xs ≡ drop j xs
at_index xs i j e = ap (λ n. drop n xs) e

pub last-last : (n m : ℕ) (xs : List Bytes) → n ≤ m → last n (last m xs) ≡ last n xs
last-last n m xs h =
    let k = length xs - m in
    drop-drop (length (drop k xs) - n) k xs
    ∙ at_index xs (k + (length (drop k xs) - n)) (length xs - n) (omega (arith, length-drop k xs))

push-last :
    (m : Bytes) (logs : List Bytes) → length logs ≤ 31 → push m logs ≡ last 31 (logs ++ m ∷ [])
unfolding push
push-last m logs h = elim (Bool-cases (ltb 30 (length logs))) [
  | inl full ↦
      let long = ltb→lt 30 (length logs) full in
      rw full (
        drop-append 1 logs (m ∷ []) (omega arith)
        ∙ at_index (logs ++ m ∷ []) 1 (length (logs ++ m ∷ []) - 31)
            (omega (arith, length-append logs (m ∷ []))))
  | inr room ↦
      let short = ltb→le 30 (length logs) room in
      rw room (
        at_index (logs ++ m ∷ []) 0 (length (logs ++ m ∷ []) - 31)
          (omega (arith, length-append logs (m ∷ []))))
]

logs-add_app_log :
    (d : Device) (m : Bytes) (s : App) → (add_app_log d m s).1.app_logs ≡ push m s.app_logs
unfolding add_app_log ◌>>=◌ ◌>>◌ get modify when ask emit pure
logs-add_app_log d m s = elim (Bool-cases s.dev_mode) [
  | inr off ↦ rw off refl
  | inl on ↦ elim (Bool-cases (d.udp_socket s.events)) [
    | inl opens ↦ rw (on, opens) refl
    | inr fails ↦ rw (on, fails) refl
  ]
]

-- The application shows no more than the last 31 of the messages that it was given, and these in their
-- order, if it held no more before.
pub logs-add_all :
    (d : Device) (ms : List Bytes) (s : App)
    → length s.app_logs ≤ 31
    → ((add_all d ms s).1.app_logs ≡ last 31 (s.app_logs ++ ms))
      × (length (add_all d ms s).1.app_logs ≤ 31)
unfolding add_all ◌>>=◌ ◌>>◌ pure
logs-add_all d [] s h =
    (rw (append-nil s.app_logs) (at_index s.app_logs 0 (length s.app_logs - 31) (omega arith)), h)
logs-add_all d (m ∷ ms) s h =
    let s' = (add_app_log d m s).1 in
    let one : s'.app_logs ≡ last 31 (s.app_logs ++ m ∷ []) =
      logs-add_app_log d m s ∙ push-last m s.app_logs h in
    let (rest, bound) =
      logs-add_all d ms s'
        (subst (λ l. length l ≤ 31) (sym one) (length-last 31 (s.app_logs ++ m ∷ []))) in
    (
      rest
          ∙ ap (λ l. last 31 (l ++ ms)) one
          ∙ last-append 31 (s.app_logs ++ m ∷ []) ms
          ∙ ap (last 31) (append_assoc s.app_logs (m ∷ []) ms),
      bound,
    )
