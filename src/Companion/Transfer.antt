-- ===== src/Companion/Transfer.antt =====
-- What libcurl hands to the program: `MemoryStruct` with `WriteMemoryCallback`, and `download_file`.
pub mod Whole
use nxremote_api.Base.{
  ℕ, ◌+◌, Bool, true, false, Option, none, some, List, [], ◌∷◌, ◌++◌, take, length, ◌==◌,
  if◌then◌else◌,
}
use nxremote_api.Base.Text.{Bytes, codes}
use nxremote_api.Companion.World.{
  asked, opened, wrote, fetched, Device, M, pure, ◌>>=◌, ◌>>◌, emit, ask,
}

-- The block that `memory` points to, and how much of it is in use.
pub record Memory : Type 0 where
  pub memory : Bytes
  pub size : ℕ

-- `WriteMemoryCallback`, where `realloc` gave the block: the piece and a NUL stand behind what is in use.
unfoldable pub append_piece : Bytes → Memory → Memory
append_piece contents mem = record {
  memory = take mem.size mem.memory ++ contents ++ 0 ∷ [];
  size = mem.size + length contents;
}

-- The result code of a transfer whose callback took less than it was given.
abbrev pub curle_write_error : ℕ
curle_write_error = 23

module _ (d : Device) where
  -- The calls of `WriteMemoryCallback` in a transfer that would end with a result code: libcurl makes no
  -- more of them after one that took less than it was given.
  unfoldable pub receive : List Bytes → ℕ → Memory → M (ℕ × Memory)
  unfolding append_piece
  receive [] result mem = pure (result, mem)
  receive (piece ∷ pieces) result mem = do
    grown ← ask d.reallocates asked
    elim grown [
      | false ↦ pure (curle_write_error, mem)
      | true ↦ receive pieces result (append_piece piece mem)
    ]

  -- The calls of `write_data`, with what is in the file.
  unfoldable pub store_pieces : List Bytes → ℕ → Bytes → M (ℕ × Bytes)
  store_pieces [] result done = pure (result, done)
  store_pieces (piece ∷ pieces) result done = do
    stored ← ask d.stores asked
    elim stored [
      | false ↦ pure (curle_write_error, done)
      | true ↦ store_pieces pieces result (done ++ piece)
    ]

  -- The transfer of `download_file` and its `fclose`.
  unfoldable pub download_to : Bytes → Bytes → M Bool
  unfolding store_pieces
  download_to url path = do
    t ← ask (λ h. d.perform h url) (fetched url)
    out ← store_pieces t.chunks t.result []
    kept ← ask (λ h. d.fclose h out.1) asked
    emit (wrote path kept)
    pure (out.0 == 0)

  unfoldable pub download_file : Bytes → Bytes → M Bool
  unfolding download_to
  download_file url path = do
    curl ← ask d.curl_init asked
    elim curl [
      | false ↦ pure false
      | true ↦ do
        ok ← ask (λ h. d.can_write h path) (opened path)
        elim ok [ false ↦ pure false | true ↦ download_to url path ]
    ]
