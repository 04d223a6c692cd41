-- ===== src/Core/Screenshot/Bitmap.antt =====
-- The bitmap that GET /screenshot would send, were the screen's memory given.
use nxremote_api.Base.{
  ℕ, zero, suc, ◌+◌, ◌*◌, ◌^◌, true, false, [], ◌∷◌, ◌++◌, take, drop, length, length-append,
  length-drop, length-take, get_or, ◌≡◌, refl, ◌∙◌, arith,
}
use nxremote_api.Base.Text.{Bytes, codes}
use nxremote_api.Core.World.{History, Platform, Core, pure, ◌>>=◌, ask}
use nxremote_api.Core.Screenshot.{
  crlf, width, height, bmp_header, bmp_info_header, little_endian, convert_row, send_rows,
  send_bitmap, malloc,
}
use nxremote_api.Core.Waits.{Takes}
use nxremote_api.Core.Stream.{stream, Sends, Sends-pure, Sends-seq, Sends-send}

-- The rows of a bitmap, from the pixels.
unfoldable pub rows_of : ℕ → Bytes → Bytes
rows_of zero screen = []
rows_of (suc n) screen =
    convert_row (take (width * 4) screen) ++ rows_of n (drop (width * 4) screen)

abbrev pub response_head : Bytes
response_head =
    codes "HTTP/1.1 200 OK"
    ++ crlf
    ++ codes "Content-Type: image/bmp"
    ++ crlf
    ++ codes "Connection: close"
    ++ crlf
    ++ crlf

unfoldable pub bitmap : Bytes → Bytes
bitmap screen = bmp_header ++ (bmp_info_header ++ rows_of height screen)

-- The field `bfSize`.
abbrev pub declared_size : Bytes → ℕ
declared_size file =
    get_or file 2 0 + 2 ^ 8 * get_or file 3 0 + 2 ^ 16 * get_or file 4 0 + 2 ^ 24 * get_or file 5 0

length-convert_row : (n : ℕ) (src : Bytes) → length src ≡ n * 4 → length (convert_row src) ≡ n * 3
unfolding convert_row
length-convert_row zero [] h = omega arith
length-convert_row zero (x ∷ src) h = absurd (omega (arith, h))
length-convert_row (suc n) (r ∷ g ∷ b ∷ a ∷ src) h =
    omega (arith, length-convert_row n src (omega (arith, h)))
length-convert_row (suc n) [] h = absurd (omega (arith, h))
length-convert_row (suc n) (r ∷ []) h = absurd (omega (arith, h))
length-convert_row (suc n) (r ∷ g ∷ []) h = absurd (omega (arith, h))
length-convert_row (suc n) (r ∷ g ∷ b ∷ []) h = absurd (omega (arith, h))

length-rows_of :
    (n : ℕ) (screen : Bytes)
    → length screen ≡ n * (width * 4)
    → length (rows_of n screen) ≡ n * (width * 3)
unfolding rows_of
length-rows_of zero screen h = omega arith
length-rows_of (suc n) screen h =
    let row : length (take (width * 4) screen) ≡ width * 4 =
      length-take (width * 4) screen ∙ omega (arith, h) in
    let rest =
      length-rows_of n (drop (width * 4) screen)
        (length-drop (width * 4) screen ∙ omega (arith, h)) in
    length-append (convert_row (take (width * 4) screen)) (rows_of n (drop (width * 4) screen))
    ∙ omega (arith, length-convert_row width (take (width * 4) screen) row, rest)

declared_size-bitmap : (screen : Bytes) → declared_size (bitmap screen) ≡ 54 + width * height * 3
unfolding bitmap bmp_header little_endian
declared_size-bitmap screen = refl

length-headers : (length bmp_header ≡ 14) × (length bmp_info_header ≡ 40)
unfolding bmp_header bmp_info_header little_endian
length-headers = (refl, refl)

length-bitmap :
    (screen : Bytes)
    → length screen ≡ width * height * 4
    → length (bitmap screen) ≡ 54 + width * height * 3
unfolding bitmap
length-bitmap screen h =
    let rows = length-rows_of height screen (h ∙ omega arith) in
    length-append bmp_header (bmp_info_header ++ rows_of height screen)
    ∙ omega (
      arith,
      length-append bmp_info_header (rows_of height screen),
      length-headers.0,
      length-headers.1,
      rows,
    )

module _ (p : Platform) (takes : Takes p) where
  Sends-send_rows : (n : ℕ) (screen : Bytes) → Sends (send_rows p n screen) (rows_of n screen)
  unfolding send_rows rows_of
  Sends-send_rows zero screen = Sends-pure tt
  Sends-send_rows (suc n) screen =
      Sends-seq (Sends-send p takes _) (Sends-send_rows n (drop (width * 4) screen))

  Sends-allocated :
      ((h : History) → p.allocates h (width * 3) ≡ true)
      → (screen : Bytes)
      → Sends
          (do
            allocated ← malloc p (width * 3)
            elim allocated [ false ↦ pure tt | true ↦ send_rows p height screen ])
          (rows_of height screen)
  unfolding malloc ◌>>=◌ ask
  Sends-allocated allocates screen = record {
    run = λ s. rw (allocates s.events) ((Sends-send_rows height screen).run _);
  }

  -- Where the row buffer is given, the bitmap is sent whole behind the head of the response.
  send_bitmap-bitmap :
      ((h : History) → p.allocates h (width * 3) ≡ true)
      → (screen : Bytes) (s : Core)
      → stream (send_bitmap p screen s).1.events
        ≡ stream s.events ++ (response_head ++ bitmap screen)
  unfolding send_bitmap bitmap
  send_bitmap-bitmap allocates screen =
      (Sends-seq (Sends-send p takes _) (
        Sends-seq (Sends-send p takes _)
          (Sends-seq (Sends-send p takes _) (Sends-allocated allocates screen)))).run
