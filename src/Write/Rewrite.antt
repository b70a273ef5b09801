-- ===== src/Write/Rewrite.antt =====
-- mp4tag_write_rewrite and mp4tag_write_data of mp4tagwrite.c: the file is written again, with the new
-- tag list in place of the old one, or with the boxes of a list where there is none.
use libmp4tag.CString.{Bytes, codes}
use libmp4tag.Const.{boxids, BoxId, boxhead_sz, meta_sz, hdlr_sz}
use libmp4tag.Prelude.{
  false, ℕ, ◌+◌, ◌-◌, ◌%◌, ◌^◌, Bool, not, ◌&&◌, ◌||◌, Option, none, some, [], ◌∷◌, ◌++◌, length,
  ltb, leb, ◌==◌, if◌then◌else◌,
}
use libmp4tag.Prelude.Int.{ℤ, pos, neg, ◌+ℤ◌}
use libmp4tag.Tags.{Mp4error}
use libmp4tag.Write.Bytes.{be_bytes}
use libmp4tag.Write.Copy.{copy_file_data}
use libmp4tag.Write.Inplace.{Written, write_inplace}
use libmp4tag.Write.Offsets.{update_offsets}
use libmp4tag.Write.Place.{Layout, as_u32, as_i32, write_freebox, update_parent_lengths}

-- udta, meta, hdlr and the head of ilst.
abbrev pub insert_len : ℕ
insert_len = boxhead_sz + (meta_sz + hdlr_sz + boxhead_sz)

abbrev pub hdlr_box : Bytes
hdlr_box =
    be_bytes 4 hdlr_sz
    ++ boxids BoxId.hdlr
    ++ be_bytes 4 0
    ++ be_bytes 4 0
    ++ codes "mdir"
    ++ codes "appl"
    ++ be_bytes 4 0
    ++ be_bytes 4 0
    ++ (0 ∷ [])

-- The boxes in front of the data; their lengths count the data, and all but the last the free box.
unfoldable pub insert_boxes : ℕ → ℕ → Bytes
insert_boxes datalen freelen =
    be_bytes 4 (insert_len + datalen + freelen)
    ++ boxids BoxId.udta
    ++ be_bytes 4 (insert_len + datalen + freelen - boxhead_sz)
    ++ boxids BoxId.meta
    ++ be_bytes 4 0
    ++ hdlr_box
    ++ be_bytes 4 (insert_len + datalen + freelen - boxhead_sz - meta_sz - hdlr_sz - freelen)
    ++ boxids BoxId.ilst

-- Where the copy of the file's front ends.
abbrev pub front_len : Layout → ℕ
front_len l =
    if l.taglist_offset == 0 || l.taglist_offset == boxhead_sz
    then l.noilst_offset
    else l.taglist_offset - boxhead_sz

abbrev pub list_head : Layout → ℕ → ℕ → Bytes
list_head l datalen freelen =
    if l.taglist_offset == 0
    then insert_boxes datalen freelen
    else be_bytes 4 (datalen + boxhead_sz) ++ boxids BoxId.ilst

-- The change of the containers' lengths and of the places of the data behind the list. int32_t.
unfoldable pub rewrite_delta : Layout → ℕ → ℤ → ℤ
rewrite_delta l datalen freelen =
    let delta =
      as_i32 datalen +ℤ neg (as_i32 l.taglist_len) +ℤ freelen +ℤ neg (as_i32 l.interior_free_len) in
    if l.taglist_offset == 0 then delta +ℤ pos insert_len +ℤ neg (as_i32 l.insert_delta) else delta

-- Only moov is a parent of boxes that are inserted.
abbrev pub rewrite_layout : Layout → Mp4error → Layout
rewrite_layout l Mp4error.ok = if l.taglist_offset == 0 then record l { parents = 1 } else l
rewrite_layout l rc = l

-- A failed copy of the front, and a failed write, are forgotten when the free box is written.
abbrev pub new_front : Layout → Bytes → ℕ → Bytes × Mp4error → Bytes
new_front l bytes freelen (out, Mp4error.ok) = out ++ list_head l (length bytes) freelen ++ bytes
new_front l bytes freelen (out, rc) = out

-- The parents' lengths and the chunk offsets, in the new file.
abbrev pub relocated : Layout → ℤ → ℕ → Bytes → Option (Bytes × Mp4error)
relocated l delta offset out =
    update_offsets l.blocks (update_parent_lengths l delta out) Mp4error.ok delta offset

-- The old file is moved over a backup that is there, which is deleted where none is wanted.
abbrev pub finished : Layout → Bytes → Option (Bytes × Mp4error) → Option Written
finished l file none = none
finished l file (some (out, e)) = some (record {
  fh = some out;
  backup = if l.keep_backup then some file else none;
  bak_deleted = not l.keep_backup;
  mp4error = e;
})

-- The new file takes the place of the old one if it is complete.
abbrev pub tail_copied : Layout → Bytes → ℤ → Option (Bytes × Mp4error) → Option Written
tail_copied l file delta none = none
tail_copied l file delta (some (out, Mp4error.ok)) =
    finished l file (relocated l delta l.after_ilst_offset out)
tail_copied l file delta (some (out, rc)) =
    some (record { fh = some file; backup = none; bak_deleted = false; mp4error = rc })

-- What is behind the list, as a size_t: more than any file has, if the file is cut off in front of its end.
abbrev pub tail_len : Layout → ℕ
tail_len l =
    if leb l.after_ilst_offset l.filesz
    then l.filesz - l.after_ilst_offset
    else l.filesz + 2 ^ 64 - l.after_ilst_offset

-- The new file with all that is behind the list.
unfoldable pub rewrite_tail : Layout → Bytes → ℕ → ℤ → Bytes → Option Written
rewrite_tail l file datalen freelen out =
    tail_copied l file (rewrite_delta l datalen freelen)
      (copy_file_data file out l.after_ilst_offset (tail_len l))

abbrev pub temp_suffix : Bytes
temp_suffix = codes "-mp4tag.tmp"

unfoldable pub rewrite_with : Layout → Bytes → Bytes → ℤ → Option Written
rewrite_with l file bytes freelen = elim (copy_file_data file [] 0 (front_len l)) [
  | none ↦ none
  | some front ↦ elim (write_freebox (as_u32 freelen)) [
    | none ↦ none
    | some free ↦
        rewrite_tail (rewrite_layout l front.1) file (length bytes) freelen
          (new_front l bytes (as_u32 freelen) front ++ free)
  ]
]

abbrev pub rewrite_file : Layout → Bytes → Bytes → Option Written
rewrite_file l file bytes = rewrite_with l file bytes (pos boxhead_sz +ℤ l.freespacesz)

unfoldable pub write_rewrite : (Bytes → Bool) → Layout → Option Bytes → Bytes → Option Written
write_rewrite creates l none bytes =
    some
      (record { fh = none; backup = none; bak_deleted = false; mp4error = Mp4error.err_not_open })
write_rewrite creates l (some file) bytes =
    if l.taglist_offset == 0 && l.noilst_offset == 0
    then some (record {
      fh = some file;
      backup = none;
      bak_deleted = false;
      mp4error = Mp4error.err_unable_to_process;
    })
    else if creates (l.fn ++ temp_suffix)
    then rewrite_file l file bytes
    else some (record {
      fh = some file;
      backup = none;
      bak_deleted = false;
      mp4error = Mp4error.err_not_open;
    })

-- tlen, whose sign is the highest bit of 32.
abbrev pub max_len : Layout → ℕ
max_len l = (l.taglist_len + (2 ^ 32 - boxhead_sz)) % 2 ^ 32

-- Whether the list is written in its place: there is one, and it is at the end of the file, of the
-- same size as the space, or shorter by more than the head of a free box.
unfoldable pub fits_inplace : Layout → ℕ → Bool
fits_inplace l datalen =
    not (l.taglist_offset == 0)
    && (l.unlimited
        || datalen == l.taglist_len
        || (ltb (max_len l) (2 ^ 31) && ltb datalen (max_len l)))

unfoldable pub write_data : (Bytes → Bool) → Layout → Option Bytes → Bytes → Option Written
write_data creates l fh bytes =
    if fits_inplace l (length bytes)
    then write_inplace creates l fh bytes
    else write_rewrite creates l fh bytes
