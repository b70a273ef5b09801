-- ===== src/Write/Whole.antt =====
-- mp4tag_write_rewrite of mp4tagwrite.c: the file that is made.
use libmp4tag.CString.{Bytes}
use libmp4tag.Const.{boxids, BoxId, boxhead_sz, meta_sz, hdlr_sz}
use libmp4tag.Prelude.{
  ℕ, ◌+◌, ◌-◌, ◌^◌, ◌<◌, ◌≤◌, ◌≡◌, refl, sym, ap, ◌∙◌, true, false, ◌==◌, leb, if◌then◌else◌, some,
  [], ◌++◌, length, drop, length-append, arith,
}
use libmp4tag.Prelude.Int.{pos, neg, ◌+ℤ◌, sub_ℕ}
use libmp4tag.Tags.{Mp4error}
use libmp4tag.Write.Array.{box, length-box, take-length}
use libmp4tag.Write.Bytes.{be_bytes, length-be_bytes, drop-append_length, take-length_append}
use libmp4tag.Write.Copy.{copy_file_data, copy_file_data_lem}
use libmp4tag.Write.Place.{Layout, as_u32}
use libmp4tag.Write.Rewrite.{
  insert_len, insert_boxes, rewrite_delta, tail_len, rewrite_tail, rewrite_file, rewrite_with,
  relocated, finished, hdlr_box, front_len, rewrite_layout, new_front,
}
use libmp4tag.Write.Sizes.{as_i32_small, minus_pos, sub_ℕ-plus, sub_ℕ-minus, sub_ℕ_cancel}
use libmp4tag.Write.Splice.{free_box, write_freebox_lem, length-free_box}
use mathlib.Core.List.{append_assoc}

length-hdlr_box : length hdlr_box ≡ hdlr_sz
unfolding be_bytes
length-hdlr_box = refl

-- The boxes that mp4tag_write_rewrite inserts into a file without a tag list, with the data and the
-- free box behind them, are nested: udta holds meta, which holds hdlr, ilst with the data, and the
-- free box, and the length in each head is that of the box.
pub insert_boxes-nested :
    (bytes free : Bytes)
    → insert_boxes (length bytes) (length free) ++ (bytes ++ free)
      ≡ box (boxids BoxId.udta) (
          box
            (boxids BoxId.meta)
            (be_bytes 4 0 ++ (hdlr_box ++ (box (boxids BoxId.ilst) bytes ++ free))))
unfolding insert_boxes box
insert_boxes-nested bytes free =
    let inner = hdlr_box ++ (box (boxids BoxId.ilst) bytes ++ free) in
    let ilst_len = length-box (boxids BoxId.ilst) bytes refl in
    let meta_len = length-box (boxids BoxId.meta) (be_bytes 4 0 ++ inner) refl in
    let inner_len : length inner ≡ hdlr_sz + (boxhead_sz + length bytes + length free) = omega (
      arith,
      ilst_len,
      length-hdlr_box,
      length-append hdlr_box (box (boxids BoxId.ilst) bytes ++ free),
      length-append (box (boxids BoxId.ilst) bytes) free,
    ) in
    let first : insert_len
          + length bytes
          + length free
          - boxhead_sz
          - meta_sz
          - hdlr_sz
          - length free
        ≡ boxhead_sz + length bytes =
      omega arith in
    let second : insert_len + length bytes + length free - boxhead_sz
        ≡ boxhead_sz + length (be_bytes 4 0 ++ inner) =
      omega (arith, inner_len, length-append (be_bytes 4 0) inner, length-be_bytes 4 0) in
    let third : insert_len + length bytes + length free
        ≡ boxhead_sz + length (box (boxids BoxId.meta) (be_bytes 4 0 ++ inner)) =
      omega (arith, meta_len, inner_len, length-append (be_bytes 4 0) inner, length-be_bytes 4 0) in
    rw (insert_boxes, first, second, third) (simp append_assoc)

-- A file with a tag list, as the parser describes it to mp4tag_write_rewrite.
pub record IsListed (l : Layout) (start old gap post : Bytes) : Type 0 where
  pub offset : l.taglist_offset ≡ length start + boxhead_sz
  pub some_front : 0 < length start
  pub len : l.taglist_len ≡ length old + length gap
  pub after : l.after_ilst_offset ≡ length start + boxhead_sz + l.taglist_len
  pub size : l.filesz ≡ length (start ++ (box (boxids BoxId.ilst) old ++ (gap ++ post)))

module _ (l : Layout) (start old gap post bytes : Bytes) (p : IsListed l start old gap post)
    (fs : ℕ) (space : l.freespacesz ≡ pos fs) (small : boxhead_sz + fs < 2 ^ 31) where
  abbrev new_file : Bytes
  new_file = start ++ (box (boxids BoxId.ilst) bytes ++ (free_box (boxhead_sz + fs) ++ post))

  abbrev old_file : Bytes
  old_file = start ++ (box (boxids BoxId.ilst) old ++ (gap ++ post))

  abbrev made : Bytes
  made =
      (start ++ ((be_bytes 4 (length bytes + boxhead_sz) ++ boxids BoxId.ilst) ++ bytes))
      ++ free_box (boxhead_sz + fs)

  free_len : pos boxhead_sz +ℤ l.freespacesz ≡ pos (boxhead_sz + fs)
  free_len =
      let sum : pos boxhead_sz +ℤ pos fs ≡ pos (boxhead_sz + fs) = ground arith in
      ap (◌+ℤ◌ (pos boxhead_sz)) space ∙ sum

  present : (l.taglist_offset == 0) ≡ false
  present = ground (arith, p.offset)

  copy-front : copy_file_data old_file [] 0 (front_len l) ≡ some (start, Mp4error.ok)
  copy-front =
      let behind : (l.taglist_offset == boxhead_sz) ≡ false =
        ground (arith, p.offset, p.some_front) in
      let at : l.taglist_offset - boxhead_sz ≡ length start = omega (arith, p.offset) in
      let long : leb (length start) (length old_file) ≡ true =
        ground (arith, length-append start (box (boxids BoxId.ilst) old ++ (gap ++ post))) in
      rw
        (
          present,
          behind,
          at,
          copy_file_data_lem old_file [] 0 (length start),
          take-length_append start (box (boxids BoxId.ilst) old ++ (gap ++ post)),
          long,
        )
        refl

  copy-tail :
      copy_file_data old_file made l.after_ilst_offset (tail_len l)
      ≡ some (made ++ post, Mp4error.ok)
  copy-tail =
      let front = start ++ (box (boxids BoxId.ilst) old ++ gap) in
      let flat : old_file ≡ front ++ post = simp append_assoc in
      let front_at : length front ≡ l.after_ilst_offset = omega (
        arith,
        p.after,
        p.len,
        length-append start (box (boxids BoxId.ilst) old ++ gap),
        length-append (box (boxids BoxId.ilst) old) gap,
        length-box (boxids BoxId.ilst) old refl,
      ) in
      let tail : drop l.after_ilst_offset old_file ≡ post =
        rw flat (drop-append_length front post l.after_ilst_offset front_at) in
      let inside : leb l.after_ilst_offset l.filesz ≡ true =
        ground (arith, p.size, ap length flat, length-append front post, front_at) in
      let behind : tail_len l ≡ length post =
        rw inside (omega (arith, p.size, ap length flat, length-append front post, front_at)) in
      let all : leb (length post) (length post) ≡ true = ground arith in
      rw
        (
          copy_file_data_lem old_file made l.after_ilst_offset (tail_len l),
          tail,
          behind,
          take-length post (length post) refl,
          all,
        )
        refl

  rewrite_tail_lem :
      rewrite_tail l old_file (length bytes) (pos (boxhead_sz + fs)) made
      ≡ finished l old_file (
          relocated l
            (rewrite_delta l (length bytes) (pos (boxhead_sz + fs)))
            l.after_ilst_offset
            new_file)
  unfolding rewrite_tail box
  rewrite_tail_lem =
      let swap : boxhead_sz + length bytes ≡ length bytes + boxhead_sz = omega arith in
      let same : made ++ post ≡ new_file = rw swap (simp append_assoc) in
      rw (rewrite_tail, copy-tail)
        (ap
          (λ f. finished l old_file (
            relocated l (rewrite_delta l (length bytes) (pos (boxhead_sz + fs))) l.after_ilst_offset
              f))
          same)

  rewrite_with-replaces :
      rewrite_with l old_file bytes (pos (boxhead_sz + fs))
      ≡ finished l old_file (
          relocated l
            (rewrite_delta l (length bytes) (pos (boxhead_sz + fs)))
            l.after_ilst_offset
            new_file)
  unfolding rewrite_with
  rewrite_with-replaces =
      let whole : as_u32 (pos (boxhead_sz + fs)) ≡ boxhead_sz + fs = omega arith in
      let layout : rewrite_layout l Mp4error.ok ≡ l =
        ap (λ b. if b then record l { parents = 1 } else l) present in
      let front : new_front l bytes (boxhead_sz + fs) (start, Mp4error.ok)
            ++ free_box (boxhead_sz + fs)
          ≡ made =
        rw present (simp append_assoc) in
      let front_u32 =
        ap (λ k. new_front l bytes k (start, Mp4error.ok) ++ free_box (boxhead_sz + fs)) whole
        ∙ front in
      rw (rewrite_with, copy-front, whole, write_freebox_lem (boxhead_sz + fs) (omega arith))
        (ap
            (λ x. rewrite_tail x old_file (length bytes) (pos (boxhead_sz + fs)) (
              new_front l bytes (as_u32 (pos (boxhead_sz + fs))) (start, Mp4error.ok)
              ++ free_box (boxhead_sz + fs)))
            layout
          ∙ ap (rewrite_tail l old_file (length bytes) (pos (boxhead_sz + fs))) front_u32
          ∙ rewrite_tail_lem)

  -- If the file holds the tag list where the parser's fields say, not at its start, and the free
  -- space to write is not negative and below 2 ^ 31 with its head, then mp4tag_write_rewrite makes
  -- the file that has the new list's box and one free box in place of the old list and its free
  -- boxes and is otherwise the same, moves the parents' lengths and the chunk offsets in it, and
  -- puts it in the place of the old file.
  pub rewrite_file-replaces :
      rewrite_file l old_file bytes
      ≡ finished l old_file (
          relocated l
            (rewrite_delta l (length bytes) (pos (boxhead_sz + fs)))
            l.after_ilst_offset
            new_file)
  rewrite_file-replaces = ap (rewrite_with l old_file bytes) free_len ∙ rewrite_with-replaces

  -- With a tag list in the file, and lengths below 2 ^ 31, the change that mp4tag_write_rewrite
  -- gives the parents' lengths and the chunk offsets is the length of the new file less that of the
  -- old one, less the interior free space once more.
  pub rewrite_delta-growth :
      length bytes < 2 ^ 31
      → l.taglist_len < 2 ^ 31
      → l.interior_free_len ≤ l.taglist_len
      → rewrite_delta l (length bytes) (pos (boxhead_sz + fs))
        ≡ sub_ℕ (length new_file) (length old_file + l.interior_free_len)
  unfolding rewrite_delta box
  rewrite_delta-growth n t i =
      let new_len : length new_file
          ≡ length start + (boxhead_sz + length bytes + (boxhead_sz + fs + length post)) =
        omega (
          arith,
          length-append start
              (box (boxids BoxId.ilst) bytes ++ (free_box (boxhead_sz + fs) ++ post)),
          length-append (box (boxids BoxId.ilst) bytes) (free_box (boxhead_sz + fs) ++ post),
          length-append (free_box (boxhead_sz + fs)) post,
          length-free_box (boxhead_sz + fs) (omega arith),
          length-box (boxids BoxId.ilst) bytes refl,
        ) in
      let old_len : length old_file ≡ length start + (boxhead_sz + l.taglist_len + length post) =
        omega (
          arith,
          p.len,
          length-append start (box (boxids BoxId.ilst) old ++ (gap ++ post)),
          length-append (box (boxids BoxId.ilst) old) (gap ++ post),
          length-append gap post,
          length-box (boxids BoxId.ilst) old refl,
        ) in
      let behind = length start + boxhead_sz + length post in
      let new_sum : length new_file ≡ behind + (length bytes + (boxhead_sz + fs)) =
        omega (arith, new_len) in
      let old_sum : length old_file + l.interior_free_len
          ≡ behind + (l.taglist_len + l.interior_free_len) =
        omega (arith, old_len) in
      rw
        (
          rewrite_delta,
          present,
          as_i32_small (length bytes) n,
          as_i32_small l.taglist_len t,
          as_i32_small l.interior_free_len (omega arith),
        )
        (ap (λ z. z +ℤ pos (boxhead_sz + fs) +ℤ neg (pos l.interior_free_len))
            (minus_pos (length bytes) l.taglist_len)
          ∙ ap (λ z. z +ℤ neg (pos l.interior_free_len))
              (sub_ℕ-plus (length bytes) l.taglist_len (boxhead_sz + fs))
          ∙ sub_ℕ-minus (length bytes + (boxhead_sz + fs)) l.taglist_len l.interior_free_len
          ∙ rw (new_sum, old_sum)
              (sym (
                sub_ℕ_cancel behind (length bytes + (boxhead_sz + fs))
                  (l.taglist_len + l.interior_free_len))))
