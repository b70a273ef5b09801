-- ===== src/Write/Offsets.antt =====
-- mp4tag_update_offsets and mp4tag_update_offset_block of mp4tagwrite.c: the chunk offsets of 'stco'
-- (four bytes each) and 'co64' (eight) that point behind a place whose distance from the start of
-- the file has changed. A file is its bytes; a seek to a place in it succeeds.
use libmp4tag.CString.{Bytes}
use libmp4tag.Prelude.{
  ℕ, zero, suc, ◌+◌, ◌-◌, ◌%◌, ◌^◌, ◌&&◌, Option, none, some, ◌++◌, length, take, drop, leb, ltb,
  ◌==◌, if◌then◌else◌,
}
use libmp4tag.Prelude.Int.{ℤ, pos, negsuc}
use libmp4tag.Tags.{Mp4error}
use libmp4tag.Write.Bytes.{be_bytes, be_value}
use mathlib.Core.Option

-- An unsigned number of `w` bytes plus a signed one.
abbrev pub add_delta : ℕ → ℕ → ℤ → ℕ
add_delta w v (pos n) = (v + n) % 256 ^ w
add_delta w v (negsuc n) = (v + (256 ^ w - (n + 1))) % 256 ^ w

-- One offset, in its bytes.
unfoldable pub shift_entry : ℕ → ℕ → ℤ → Bytes → Bytes
shift_entry w foffset delta e =
    if ltb foffset (be_value 0 e) then be_bytes w (add_delta w (be_value 0 e) delta) else e

-- The loop over the offsets. `none` is an access behind the end of the buffer.
unfoldable pub shift_offsets : ℕ → ℕ → ℤ → ℕ → Bytes → Option Bytes
shift_offsets w foffset delta zero buff = some buff
shift_offsets w foffset delta (suc n) buff =
    let rest = shift_offsets w foffset delta n (drop w buff) in
    if leb w (length buff)
    then Option.map (λ r. shift_entry w foffset delta (take w buff) ++ r) rest
    else none

-- The version and the flags, the number of offsets, and the offsets.
unfoldable pub shift_block : ℕ → ℕ → ℤ → Bytes → Option Bytes
shift_block w foffset delta buff =
    if leb 8 (length buff)
    then Option.map (λ r. take 8 buff ++ r)
        (shift_offsets w foffset delta (be_value 0 (take 4 (drop 4 buff))) (drop 8 buff))
    else none

-- fread of one item of `n` bytes.
abbrev pub read_at : Bytes → ℕ → ℕ → Option Bytes
read_at file at n =
    if ltb 0 n && leb (at + n) (length file) then some (take n (drop at file)) else none

abbrev pub overwrite : Bytes → ℕ → Bytes → Bytes
overwrite file at bytes = take at file ++ (bytes ++ drop (at + length bytes) file)

-- Where the block is after the change.
abbrev pub block_at : ℤ → ℕ → ℕ → ℕ
block_at delta foffset boffset = if leb foffset boffset then add_delta 8 boffset delta else boffset

-- The file and mp4error. A block at 0 does not exist.
unfoldable pub update_offset_block :
    Bytes → Mp4error → ℤ → ℕ → ℕ → ℕ → ℕ → Option (Bytes × Mp4error)
update_offset_block file e delta foffset boffset blen offsetsz =
    if boffset == 0
    then some (file, e)
    else elim (read_at file (block_at delta foffset boffset) blen) [
      | none ↦ some (file, Mp4error.err_file_read_error)
      | some buff ↦ elim (shift_block offsetsz foffset delta buff) [
        | none ↦ none
        | some b ↦ some (overwrite file (block_at delta foffset boffset) b, e)
      ]
    ]

-- The places of the two blocks in the file.
pub record Blocks : Type 0 where
  pub stco_offset : ℕ
  pub stco_len : ℕ
  pub co64_offset : ℕ
  pub co64_len : ℕ

unfoldable pub update_offsets : Blocks → Bytes → Mp4error → ℤ → ℕ → Option (Bytes × Mp4error)
update_offsets b file e delta foffset =
    elim (update_offset_block file e delta foffset b.stco_offset b.stco_len 4) [
      | none ↦ none
      | some (file', e') ↦ update_offset_block file' e' delta foffset b.co64_offset b.co64_len 8
    ]
