-- ===== src/Write/Place.antt =====
-- The fields of libmp4tag_t that the parser leaves for the writer, the conversions between int32_t and
-- uint32_t, mp4tag_write_freebox of mp4tagwrite.c and mp4tag_update_parent_lengths of mp4writeutil.c.
-- A file is its bytes; seeks and writes in it succeed.
use libmp4tag.CString.{Bytes}
use libmp4tag.Const.{boxids, BoxId, boxhead_sz}
use libmp4tag.Prelude.{
  ℕ, zero, suc, ◌-◌, ◌%◌, ◌^◌, Bool, Option, none, some, [], ◌∷◌, ◌++◌, ltb, leb, if◌then◌else◌,
}
use libmp4tag.Prelude.Int.{ℤ, pos, negsuc}
use libmp4tag.Write.Bytes.{be_bytes}
use libmp4tag.Write.Offsets.{Blocks, add_delta, overwrite}

-- The arrays are functions of the index. `parents` is one more than parentidx, which is -1 where there
-- is no parent.
pub record Layout : Type 0 where
  pub fn : Bytes
  pub filesz : ℕ
  pub freespacesz : ℤ
  pub base_lengths : ℕ → ℕ
  pub base_offsets : ℕ → ℕ
  pub taglist_orig_data_len : ℕ
  pub taglist_base_offset : ℕ
  pub taglist_offset : ℕ
  pub taglist_len : ℕ
  pub interior_free_len : ℕ
  pub exterior_free_len : ℕ
  pub parents : ℕ
  pub noilst_offset : ℕ
  pub after_ilst_offset : ℕ
  pub insert_delta : ℕ
  pub blocks : Blocks
  pub unlimited : Bool
  pub keep_backup : Bool

-- An int32_t converted to uint32_t, and back.
abbrev pub as_u32 : ℤ → ℕ
as_u32 (pos n) = n % 2 ^ 32
as_u32 (negsuc n) = 2 ^ 32 - 1 - n % 2 ^ 32

abbrev pub as_i32 : ℕ → ℤ
as_i32 n = if ltb (n % 2 ^ 32) (2 ^ 31) then pos (n % 2 ^ 32) else negsuc (2 ^ 32 - 1 - n % 2 ^ 32)

abbrev pub zeros : ℕ → Bytes
zeros zero = []
zeros (suc n) = 0 ∷ zeros n

-- The box's bytes. `none` where its head does not fit in it.
unfoldable pub write_freebox : ℕ → Option Bytes
write_freebox freelen =
    if leb boxhead_sz freelen
    then some (be_bytes 4 freelen ++ (boxids BoxId.free ++ zeros (freelen - boxhead_sz)))
    else none

-- The boxes that the tag list is in, the innermost first.
unfoldable pub update_parents : (ℕ → ℕ) → (ℕ → ℕ) → ℤ → ℕ → Bytes → Bytes
update_parents lengths offsets delta zero file = file
update_parents lengths offsets delta (suc idx) file =
    update_parents lengths offsets delta idx
      (overwrite file (offsets idx) (be_bytes 4 (add_delta 4 (lengths idx) delta)))

unfoldable pub update_parent_lengths : Layout → ℤ → Bytes → Bytes
update_parent_lengths l delta file =
    update_parents l.base_lengths l.base_offsets delta l.parents file
