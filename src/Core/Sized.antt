-- ===== src/Core/Sized.antt =====
-- A response that states the length of its body, as a client reads it: GET /titles, GET /logs,
-- GET /launch_status and POST /command answer so.
use nxremote_api.Base.{
  ℕ, ◌-◌, ◌≤◌, ◌<◌, ◌^◌, ◌==◌, false, Option, none, some, [], ◌∷◌, ◌++◌, append_assoc, All, drop,
  length, length-append, take_all, ◌≡◌, refl, ap, ◌∙◌, arith,
}
use nxremote_api.Base.Text.{Bytes, codes}
use nxremote_api.CString.Search.{starts_with, strstr}
use nxremote_api.CString.Number.{scan}
use nxremote_api.CString.Format.{
  snprintf, IsDigit, decimal, decimal-IsDigit, length-decimal, scan-decimal,
}
use nxremote_api.HttpFraming.{blank_line}
use nxremote_api.Core.World.{Platform, Core}
use nxremote_api.Core.Waits.{Takes}
use nxremote_api.Core.Stream.{stream, Sends-seq, Sends-eq, Sends-send}
use nxremote_api.Core.Command.{sized_head, send_sized}

-- The number behind `Content-Length: `, where a client finds it.
abbrev number_at : Option Bytes → Option ℕ
number_at none = none
number_at (some rest) = some (scan 0 (drop 16 rest))

abbrev pub content_length : Bytes → Option ℕ
content_length response = number_at (strstr response (codes "Content-Length: "))

-- What stands behind the first blank line.
abbrev behind : Option Bytes → Option Bytes
behind none = none
behind (some rest) = some (drop 4 rest)

abbrev pub body_of : Bytes → Option Bytes
body_of response = behind (strstr response blank_line)

-- The head, if the buffer holds it whole.
abbrev before_length : Bytes
before_length =
    codes "HTTP/1.1 200 OK"
    ++ 13 ∷ 10 ∷ codes "Connection: close"
    ++ 13 ∷ 10 ∷ codes "Content-Type: application/json"
    ++ 13 ∷ 10 ∷ codes "Content-Length: "

abbrev head_of : Bytes → Bytes
head_of body = before_length ++ (decimal (length body) ++ 13 ∷ 10 ∷ 13 ∷ 10 ∷ [])

sized_head-head_of :
    (room : ℕ) (body : Bytes)
    → 128 ≤ room
    → length body < 10 ^ 19
    → sized_head room body ≡ head_of body
unfolding sized_head snprintf
sized_head-head_of room body large small =
    let digits = decimal (length body) in
    let few = length-decimal 18 (length body) small in
    let one = length-append digits (13 ∷ 10 ∷ []) in
    let two = length-append (digits ++ 13 ∷ 10 ∷ []) (13 ∷ 10 ∷ []) in
    take_all (room - 1) _ (omega (arith, few, one, two))
    ∙ ap (λ t. before_length ++ t) (append_assoc digits (13 ∷ 10 ∷ []) (13 ∷ 10 ∷ []))

-- The search for a blank line goes past digits.
strstr-digits :
    (digits rest : Bytes)
    → All IsDigit digits
    → strstr (digits ++ rest) blank_line ≡ strstr rest blank_line
unfolding strstr starts_with
strstr-digits [] rest h = refl
strstr-digits (c ∷ cs) rest ((low, high), h) =
    let other : (13 == c) ≡ false = ground arith in rw other (strstr-digits cs rest h)

content_length-head_of :
    (body rest : Bytes) → content_length (head_of body ++ rest) ≡ some (length body)
unfolding strstr starts_with
content_length-head_of body rest =
    ap (λ t. some (scan 0 t)) (append_assoc (decimal (length body)) blank_line rest)
    ∙ ap some (scan-decimal (length body) 13 _ refl)

body_of-head_of : (body rest : Bytes) → body_of (head_of body ++ rest) ≡ some rest
unfolding strstr starts_with
body_of-head_of body rest =
    ap (λ t. behind (strstr t blank_line)) (append_assoc (decimal (length body)) blank_line rest)
    ∙ ap behind (strstr-digits (decimal (length body)) (blank_line ++ rest) (decimal-IsDigit _))

module _ (p : Platform) (takes : Takes p) where
  -- A response that states its length is sent whole to a client that takes at least a byte each time, and
  -- the client reads it as it was meant: behind the first blank line stands the body, all of it and
  -- nothing else, and the stated length is that of the body, if the body has less than 10^19 bytes and
  -- the head's buffer has room for 128.
  pub send_sized-content_length :
      (room : ℕ) (body : Bytes) (s : Core)
      → 128 ≤ room
      → length body < 10 ^ 19
      → (response : Bytes) × (stream (send_sized p room body s).1.events
          ≡ stream s.events ++ response)
        × (body_of response ≡ some body)
        × (content_length response ≡ some (length body))
  unfolding send_sized
  send_sized-content_length room body s large small = (
    head_of body ++ body,
    (Sends-seq (Sends-eq (sized_head-head_of room body large small) (Sends-send p takes _))
          (Sends-send p takes body)).run
        s,
    body_of-head_of body body,
    content_length-head_of body body,
  )
