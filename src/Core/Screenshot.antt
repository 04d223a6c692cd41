-- ===== src/Core/Screenshot.antt =====
-- GET /screenshot: a capture of the screen as a bitmap of 24 bits a pixel, sent row by row.
pub mod Bitmap
pub mod Memory
use nxremote_api.Base.{
  ℕ, zero, suc, ◌+◌, ◌-◌, ◌*◌, ◌/◌, ◌%◌, ◌^◌, Bool, true, false, ◌&&◌, leb, none, some, [], ◌∷◌,
  ◌++◌, take, drop,
}
use nxremote_api.Base.Text.{Bytes, codes}
use nxremote_api.Core.World.{asked, Platform, M, pure, ◌>>=◌, ◌>>◌, ask, get}
use nxremote_api.Core.Net.{send}
use nxremote_api.Core.Control.{plain_response, error_body}

abbrev pub crlf : Bytes
crlf = 13 ∷ 10 ∷ []

-- An unsigned number in so many bytes, the lowest first.
unfoldable pub little_endian : ℕ → ℕ → Bytes
little_endian zero n = []
little_endian (suc bytes) n = n % 256 ∷ little_endian bytes (n / 256)

abbrev pub width : ℕ
width = 1280

abbrev pub height : ℕ
height = 720

abbrev image_size : ℕ
image_size = width * height * 3

-- `BMPHeader`: 14 bytes.
unfoldable pub bmp_header : Bytes
unfolding little_endian
bmp_header =
    little_endian 2 19778
    ++ little_endian 4 (14 + 40 + image_size)
    ++ little_endian 2 0
    ++ little_endian 2 0
    ++ little_endian 4 (14 + 40)

-- `BMPInfoHeader`: 40 bytes. The height is negative, for rows from the top.
unfoldable pub bmp_info_header : Bytes
unfolding little_endian
bmp_info_header =
    little_endian 4 40
    ++ little_endian 4 width
    ++ little_endian 4 (2 ^ 32 - height)
    ++ little_endian 2 1
    ++ little_endian 2 24
    ++ little_endian 4 0
    ++ little_endian 4 image_size
    ++ little_endian 4 0
    ++ little_endian 4 0
    ++ little_endian 4 0
    ++ little_endian 4 0

-- The inner loop: `row_buf` from the four-byte pixels of a row.
unfoldable pub convert_row : Bytes → Bytes
convert_row (r ∷ g ∷ b ∷ a ∷ src) = b ∷ g ∷ r ∷ convert_row src
convert_row src = []

-- The heap of the process, from which `malloc` takes: `inner_heap`.
abbrev pub heap_size : ℕ
heap_size = 0x200000

-- The two answers where the service did not start, and where `malloc` gives no memory.
abbrev pub disabled : Bytes
disabled =
    plain_response (codes "503 Service Unavailable")
      (error_body (codes "Screenshots disabled (capssc failed)"))

abbrev pub out_of_memory : Bytes
out_of_memory = plain_response (codes "500 Internal Server Error") (error_body (codes "OOM"))

module _ (p : Platform) where
  -- `malloc`: never more than the heap has.
  unfoldable pub malloc : ℕ → M Bool
  malloc size = ask (λ h. leb size heap_size && p.allocates h size) asked

  -- The outer loop, with the rows left and the pixels from the next row on.
  unfoldable pub send_rows : ℕ → Bytes → M (Unit {0})
  unfolding convert_row
  send_rows zero screen = pure tt
  send_rows (suc rows) screen = do
    send p (convert_row (take (width * 4) screen))
    send_rows rows (drop (width * 4) screen)

  unfoldable pub send_bitmap : Bytes → M (Unit {0})
  unfolding malloc send_rows bmp_header bmp_info_header
  send_bitmap screen = do
    send p (
        codes "HTTP/1.1 200 OK"
        ++ crlf
        ++ codes "Content-Type: image/bmp"
        ++ crlf
        ++ codes "Connection: close"
        ++ crlf
        ++ crlf)
    send p bmp_header
    send p bmp_info_header
    allocated ← malloc (width * 3)
    elim allocated [ false ↦ pure tt | true ↦ send_rows height screen ]

  unfoldable pub handle_screenshot : M (Unit {0})
  unfolding send_bitmap
  handle_screenshot = do
    s ← get
    elim s.capssc_ready [
      | false ↦ send p disabled
      | true ↦ do
        allocated ← malloc (width * height * 4)
        elim allocated [
          | false ↦ send p out_of_memory
          | true ↦ do
            screen ← ask p.capture asked
            elim screen [
              | none ↦ send p (
                  plain_response (codes "500 Internal Server Error")
                    (error_body (codes "Capture failed")))
              | some pixels ↦ send_bitmap pixels
            ]
        ]
    ]
