-- ===== src/Write/Inplace.antt =====
-- mp4tag_write_inplace of mp4tagwrite.c: the tag list is written over the one in the file.
use libmp4tag.CString.{Bytes, codes}
use libmp4tag.Const.{boxhead_sz}
use libmp4tag.Prelude.{
  false, ℕ, ◌+◌, ◌-◌, ◌%◌, ◌^◌, Bool, not, ◌&&◌, ◌||◌, Option, none, some, [], ◌++◌, length, ◌==◌,
  if◌then◌else◌,
}
use libmp4tag.Prelude.Int.{ℤ, pos, neg, ◌+ℤ◌, is_positive, is_negative, eq_ℤ}
use libmp4tag.Tags.{Mp4error}
use libmp4tag.Write.Bytes.{be_bytes}
use libmp4tag.Write.Copy.{copy_file_data}
use libmp4tag.Write.Offsets.{overwrite}
use libmp4tag.Write.Place.{Layout, as_u32, as_i32, write_freebox, update_parent_lengths}

-- What a write leaves: the file, the backup if one is made, whether a backup that was there is deleted, and
-- mp4error.
pub record Written : Type 0 where
  pub fh : Option Bytes
  pub backup : Option Bytes
  pub bak_deleted : Bool
  pub mp4error : Mp4error

-- The variables freelen, delta and totdelta. Their sums stay in int32_t, and only the conversions wrap
-- around.
pub record Sizes : Type 0 where
  pub freelen : ℤ
  pub delta : ℤ
  pub totdelta : ℤ

abbrev pub free_space : Layout → ℤ
free_space l = as_i32 (l.interior_free_len + l.exterior_free_len)

abbrev pub list_delta : Layout → ℕ → ℤ
list_delta l datalen = as_i32 datalen +ℤ neg (as_i32 l.taglist_orig_data_len)

-- What is left of the free space, if there is any.
abbrev pub left_over : Layout → ℕ → ℤ
left_over l datalen =
    if is_positive (free_space l) then free_space l +ℤ neg (list_delta l datalen) else free_space l

-- Without the free box behind the list in its container.
abbrev pub outer_delta : Layout → ℕ → ℤ
outer_delta l datalen = as_i32 (as_u32 (list_delta l datalen) + (2 ^ 32 - l.interior_free_len))

unfoldable pub inplace_sizes : Layout → ℕ → Sizes
inplace_sizes l datalen =
    if not (l.exterior_free_len == 0) || l.unlimited
    then record {
      freelen = left_over l datalen;
      delta = outer_delta l datalen;
      totdelta = outer_delta l datalen;
    }
    else record {
      freelen = left_over l datalen;
      delta = list_delta l datalen;
      totdelta =
          as_i32 (l.taglist_len + (2 ^ 32 - (datalen + as_u32 (left_over l datalen)) % 2 ^ 32));
    }

-- The length of the free box. With the list at the end of the file there is always one.
abbrev pub box_len : Layout → ℤ → ℤ
box_len l freelen =
    if l.unlimited && is_negative (freelen +ℤ neg l.freespacesz)
    then pos boxhead_sz +ℤ l.freespacesz
    else freelen

unfoldable pub inplace_freebox : Layout → ℤ → Option Bytes
inplace_freebox l freelen =
    if (not (eq_ℤ freelen (pos 0)) || l.unlimited) && is_positive (box_len l freelen +ℤ neg (pos 8))
    then write_freebox (as_u32 (box_len l freelen))
    else none

abbrev pub or_none : Option Bytes → Bytes
or_none none = []
or_none (some b) = b

-- The data with the free box behind it, then the list's length, then the parents' lengths.
unfoldable pub inplace_bytes : Layout → Bytes → Bytes → Bytes
inplace_bytes l file bytes =
    let s = inplace_sizes l (length bytes) in
    let file1 = overwrite file l.taglist_offset (bytes ++ or_none (inplace_freebox l s.freelen)) in
    let file2 =
      if eq_ℤ s.delta (pos 0)
      then file1
      else overwrite file1 l.taglist_base_offset (be_bytes 4 (length bytes + boxhead_sz)) in
    if eq_ℤ s.totdelta (pos 0) then file2 else update_parent_lengths l s.delta file2

abbrev pub backup_suffix : Bytes
backup_suffix = codes "-mp4tag.bak"

-- The copy of the file that is made first.
abbrev pub backed_up : Layout → Bytes → Bytes → Option (Bytes × Mp4error) → Option Written
backed_up l file bytes none = none
backed_up l file bytes (some (copy, Mp4error.ok)) = some (record {
  fh = some (inplace_bytes l file bytes);
  backup = some copy;
  bak_deleted = false;
  mp4error = Mp4error.ok;
})
backed_up l file bytes (some (copy, rc)) =
    some (record { fh = some file; backup = some copy; bak_deleted = false; mp4error = rc })

-- `creates` says whether fopen of a path for writing succeeds.
unfoldable pub write_inplace : (Bytes → Bool) → Layout → Option Bytes → Bytes → Option Written
write_inplace creates l none bytes =
    some
      (record { fh = none; backup = none; bak_deleted = false; mp4error = Mp4error.err_not_open })
write_inplace creates l (some file) bytes =
    if l.keep_backup
    then if creates (l.fn ++ backup_suffix)
      then backed_up l file bytes (copy_file_data file [] 0 l.filesz)
      else some (record {
        fh = some file;
        backup = none;
        bak_deleted = false;
        mp4error = Mp4error.err_not_open;
      })
    else some (record {
      fh = some (inplace_bytes l file bytes);
      backup = none;
      bak_deleted = false;
      mp4error = Mp4error.ok;
    })
