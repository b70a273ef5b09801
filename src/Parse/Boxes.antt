-- ===== src/Parse/Boxes.antt =====
-- The branches of mp4tag_parse_file of mp4tagparse.c: the head of a box, what is noted of it, and the end of
-- a box and of a level.
use libmp4tag.CString.{Bytes, str_eq, c_string}
use libmp4tag.Const.{boxids, BoxId, boxhead_sz, meta_sz, copyright_str, prefix_char}
use libmp4tag.Parse.State.{Parser, Bug, put, data_read}
use libmp4tag.Prelude.{
  ℕ, ◌+◌, ◌-◌, ◌%◌, ◌^◌, Bool, true, false, not, ◌&&◌, ◌||◌, Option, none, some, ◌++◌, take, drop,
  ltb, ◌==◌, if◌then◌else◌,
}
use libmp4tag.Prelude.Int.{ℤ, pos, negsuc, is_positive, is_negative, eq_ℤ}
use libmp4tag.Tags.Find.{sort_tags}
use libmp4tag.Write.Bytes.{be_value}

-- boxdata_t without its data.
pub record Box : Type 0 where
  pub boxlen : ℕ
  pub len : ℕ
  pub nm : Bytes

abbrev pub is_box : Box → BoxId → Bool
is_box b id = str_eq b.nm (boxids id)

abbrev pub shown_name : Bytes → Bytes
shown_name nm =
    c_string
      (if be_value 0 (take 1 nm) == prefix_char then copyright_str ++ take 3 (drop 1 nm) else nm)

abbrev pub make_box : ℕ → ℕ → Bytes → Box
make_box boxlen boxheadsz nm = record {
  boxlen = boxlen;
  len = (boxlen + (2 ^ 64 - boxheadsz)) % 2 ^ 64;
  nm = shown_name nm;
}

-- The 64-bit length behind the head.
abbrev pub long_box : Bytes → Option Bytes × Parser → Option Box × Parser
long_box nm (none, s) = (none, s)
long_box nm (some t64, s) = (some (make_box (be_value 0 t64) (boxhead_sz + 8) nm), s)

abbrev pub box_of_head : Option Bytes × Parser → Option Box × Parser
box_of_head (none, s) = (none, s)
box_of_head (some bh, s) =
    let boxlen = be_value 0 (take 4 bh) in
    if boxlen == 0
    then (none, record s { parsedone = true })
    else if boxlen == 1
    then long_box (drop 4 bh) (data_read s 8)
    else (some (make_box boxlen boxhead_sz (drop 4 bh)), s)

-- The next box. Without one the level ends.
unfoldable pub read_head : Parser → Option Box × Parser
read_head s = box_of_head (data_read s boxhead_sz)

-- A 64-bit number taken for a signed one, and a signed one less an unsigned.
abbrev pub as_i64 : ℕ → ℤ
as_i64 n = if ltb (n % 2 ^ 64) (2 ^ 63) then pos (n % 2 ^ 64) else negsuc (2 ^ 64 - 1 - n % 2 ^ 64)

abbrev pub as_u64 : ℤ → ℕ
as_u64 (pos n) = n % 2 ^ 64
as_u64 (negsuc n) = 2 ^ 64 - 1 - n % 2 ^ 64

abbrev pub start_rem : ℕ → Box → ℕ → Parser → Parser
start_rem boxlen b level s =
    if boxlen == 0 then record s { rem_length = put s.rem_length level (as_i64 b.boxlen) } else s

abbrev pub is_container : Box → Bool
is_container b =
    is_box b BoxId.moov
    || is_box b BoxId.trak
    || is_box b BoxId.udta
    || is_box b BoxId.mdia
    || is_box b BoxId.stbl
    || is_box b BoxId.minf
    || is_box b BoxId.ilst

abbrev pub descends : Box → Bool
descends b = is_container b || is_box b BoxId.meta

abbrev pub skip_len : Box → ℕ
skip_len b =
    if is_box b BoxId.meta
    then meta_sz - boxhead_sz
    else if is_container b
    then 0
    else b.len % 2 ^ 32

abbrev pub note_meta : Box → Parser → Parser
note_meta b s =
    if is_box b BoxId.meta
    then record s {
      place = record s.place { insert_delta = (s.place.insert_delta + meta_sz) % 2 ^ 32 };
    }
    else s

abbrev pub note_udta : Box → Parser → Parser
note_udta b s =
    if is_box b BoxId.udta
    then record s {
      place = record s.place {
        noilst_offset = s.offset - boxhead_sz;
        after_ilst_offset = s.offset - boxhead_sz + boxhead_sz;
        insert_delta = boxhead_sz;
      };
    }
    else s

-- parentidx becomes the level above.
abbrev pub note_ilst : Box → ℕ → Parser → Parser
note_ilst b level s =
    if is_box b BoxId.ilst
    then record s {
      place = record s.place {
        parents = level;
        taglist_offset = s.offset;
        taglist_base_offset = s.offset - boxhead_sz;
        taglist_len = b.len % 2 ^ 32;
        after_ilst_offset = s.offset + b.len % 2 ^ 32;
      };
      taglist_orig_len = b.len % 2 ^ 32;
      processdata = not (b.len == 0);
      checkforfree = s.checkforfree || (b.len == 0 && s.canwrite);
    }
    else s

abbrev pub note_stco : Box → Parser → Parser
note_stco b s =
    if is_box b BoxId.stco
    then record s {
      place = record s.place {
        blocks = record s.place.blocks { stco_offset = s.offset; stco_len = b.len % 2 ^ 32 };
      };
    }
    else s

abbrev pub note_co64 : Box → Parser → Parser
note_co64 b s =
    if is_box b BoxId.co64
    then record s {
      place = record s.place {
        blocks = record s.place.blocks { co64_offset = s.offset; co64_len = b.len % 2 ^ 32 };
      };
    }
    else s

-- The offsets that are kept before a box is processed.
unfoldable pub note_box : Box → ℕ → Parser → Parser
note_box b level s = note_co64 b (note_stco b (note_ilst b level (note_udta b (note_meta b s))))

abbrev pub keep_data_len : Parser → Parser
keep_data_len s =
    if s.place.taglist_orig_data_len == 0
    then record s { place = record s.place { taglist_orig_data_len = s.place.taglist_len } }
    else s

abbrev pub add_free : Box → ℕ → Parser → Parser
add_free b level s = record s {
  place = record s.place {
    exterior_free_len =
        if level == 0
        then (s.place.exterior_free_len + b.boxlen) % 2 ^ 32
        else s.place.exterior_free_len;
    interior_free_len =
        if level == 0
        then s.place.interior_free_len
        else (s.place.interior_free_len + b.boxlen) % 2 ^ 32;
    taglist_len = (s.place.taglist_len + b.boxlen) % 2 ^ 32;
    after_ilst_offset = s.place.after_ilst_offset + b.boxlen;
  };
}

-- Another box than a free one ends the parse: `true`.
abbrev pub free_or_stop : Box → ℕ → Parser → Bool × Parser
free_or_stop b level s = if is_box b BoxId.free then (false, add_free b level s) else (
  not s.print_structure,
  record s { checkforfree = false; parsedone = s.parsedone || not s.print_structure },
)

-- The free boxes behind the list.
unfoldable pub check_free : Box → ℕ → Parser → Bool × Parser
check_free b level s = if s.checkforfree then free_or_stop b level (keep_data_len s) else (false, s)

-- A container in front of the list is a parent.
unfoldable pub store_base : Box → ℕ → Parser → Parser
store_base b level s =
    if s.place.taglist_offset == 0
    then record s {
      place = record s.place {
        base_lengths = put s.place.base_lengths level (b.boxlen % 2 ^ 32);
        base_offsets = put s.place.base_offsets level (s.offset - boxhead_sz);
      };
      base_offset_count = level + 1;
    }
    else s

-- Behind the boxes of a container.
unfoldable pub after_descent : Box → Parser → Parser
after_descent b s =
    let kept = keep_data_len s in
    let moov =
      if is_box b BoxId.moov && kept.place.noilst_offset == 0
      then record kept {
        place = record kept.place { noilst_offset = kept.offset; after_ilst_offset = kept.offset };
      }
      else kept in
    if is_box b BoxId.ilst
    then record moov { processdata = false; checkforfree = moov.checkforfree || moov.canwrite }
    else moov

abbrev pub needs_data : Box → Parser → Bool
needs_data b s =
    s.dump_co && (is_box b BoxId.stco || is_box b BoxId.co64)
    || is_box b BoxId.mdhd
    || s.processdata

abbrev rem_at : Parser → ℕ → ℤ
rem_at s level = s.rem_length level

-- The box is read, and the list's remainder is kept.
unfoldable pub end_box : Box → ℕ → Parser → Parser
end_box b level s =
    let left = as_i64 (as_u64 (s.rem_length level) + (2 ^ 64 - b.boxlen % 2 ^ 64)) in
    record s {
      rem_length = put s.rem_length level left;
      bug =
          if is_box b BoxId.ilst
          then record s.bug {
            ilst_remaining = left;
            ilstend = true;
            ilstremain = s.bug.ilstremain || not (eq_ℤ left (pos 0));
          }
          else s.bug;
    }

abbrev pub level_done : ℕ → ℕ → Parser → Bool
level_done boxlen level s = not (is_positive (rem_at s level)) && not (boxlen == 0)

-- The checks for the bug of version 1.3.0.
unfoldable pub check_bug : Box → ℤ → Bug → Bug
check_bug b left bug =
    let bug1 = if is_box b BoxId.ilst then record bug { ilstdone = true } else bug in
    let bug2 =
      if is_box b BoxId.free && bug1.ilstend && not bug1.ilstdone && is_negative left
      then record bug1 { freeneg = true }
      else bug1 in
    let bug3 =
      if is_box b BoxId.udta && eq_ℤ left (pos 0) then record bug2 { udtazero = true } else bug2 in
    let bug4 =
      if is_box b BoxId.udta
        && bug3.ilstremain
        && not bug3.ilstdone
        && bug3.freeneg
        && bug3.udtazero
      then record bug3 { dofix = true }
      else bug3 in
    record bug4 { ilstend = false }

abbrev pub leave_level : Box → ℕ → Parser → Parser
leave_level b level s = record s { bug = check_bug b (rem_at s level) s.bug }

-- At the end of the file the space for the list is not limited.
abbrev pub parse_check_end : Parser → Parser
parse_check_end s =
    if s.offset == s.place.filesz
    then record s { place = record s.place { unlimited = true } }
    else s

abbrev pub end_top : Parser → Parser
end_top s =
    let checked = if s.checkforfree then parse_check_end s else s in
    record checked { tags = sort_tags checked.tags }

-- Behind the loop.
unfoldable pub end_level : ℕ → Parser → Parser
end_level level s =
    let top = if level == 0 then end_top s else s in
    if top.checkforfree then record top { checkforfree = false; parsedone = true } else top
