-- ===== src/Write/Stale.antt =====
-- mp4tag_write_inplace of mp4tagwrite.c where the file that it leaves is not a sequence of boxes.
use libmp4tag.CString.{Bytes}
use libmp4tag.Const.{boxids, BoxId, boxhead_sz}
use libmp4tag.Prelude.{◌+◌, ◌-◌, ◌<◌, ◌≡◌, refl, ◌∙◌, true, ◌++◌, length, arith}
use libmp4tag.Prelude.Int.{pos, sub_ℕ, eq_ℤ}
use libmp4tag.Write.Place.{as_i32, update_parents, update_parent_lengths}
use libmp4tag.Write.Sizes.{IsMeasured, list_delta_lem}
use libmp4tag.Write.Splice.{overwrite-at, update_parents-front}
use libmp4tag.Write.Inplace.{inplace_sizes, inplace_freebox, left_over, or_none}
use libmp4tag.Write.Offsets.{overwrite}
use libmp4tag.Write.Fill.{labelled, relabel}
use libmp4tag.Write.Bytes.{length-be_bytes}
use mathlib.Core.List.{append_assoc, append-nil}
use libmp4tag.Prelude.{ℕ, inr, ◌-◌, ◌%◌, ◌^◌, ◌≤◌, false, [], sym, ◌==◌, length-append}
use libmp4tag.Write.Array.{box}
use libmp4tag.Write.Bytes.{be_bytes}
use libmp4tag.Write.Fill.{IsPlaced, Fits, rest_box, fits_le, box_rest, area, inplace_sizes-outer}
use libmp4tag.Write.Inplace.{inplace_bytes}
use libmp4tag.Write.Place.{Layout}
use libmp4tag.Write.Sizes.{eq_ℤ-sub_ℕ}

-- With free space behind the containers, the list not at the end of the file, and data that fits and
-- is just as long as the old data with the interior free space, mp4tag_write_inplace writes the data
-- and the free box into the old space and leaves the old length in the list's head and the bytes in
-- front of it.
pub inplace_bytes-same_length :
    (l : Layout) (start old gap bytes post : Bytes)
    → IsPlaced l start old gap
    → Fits l bytes
    → 0 < l.exterior_free_len
    → length bytes ≡ l.taglist_orig_data_len + l.interior_free_len
    → inplace_bytes l (start ++ (box (boxids BoxId.ilst) old ++ (gap ++ post))) bytes
      ≡ start
        ++ (be_bytes 4 (boxhead_sz + length old)
            ++ (boxids BoxId.ilst ++ (bytes ++ (rest_box (l.taglist_len - length bytes) ++ post))))
unfolding inplace_bytes box
inplace_bytes-same_length l start old gap bytes post p f e d =
    let none_left : eq_ℤ (sub_ℕ (length bytes) (l.taglist_orig_data_len + l.interior_free_len))
          (pos 0)
        ≡ true =
      eq_ℤ-sub_ℕ (length bytes) (l.taglist_orig_data_len + l.interior_free_len) ∙ ground arith in
    let sizes =
      inplace_sizes-outer l p.measured (length bytes) (fits_le l start old gap bytes post p f) e in
    rw
      (
        inplace_bytes,
        sizes,
        box_rest l start old gap bytes post p f,
        area l start old gap bytes post p f,
        none_left,
      )
      refl

module _ (l : Layout) (m : IsMeasured l) (n : ℕ) (fits : n ≤ l.taglist_len) where
  inplace_sizes-shorter :
      l.interior_free_len ≡ 0
      → l.exterior_free_len ≡ 0
      → inplace_sizes l n ≡ record {
        freelen = pos 0;
        delta = sub_ℕ n l.taglist_orig_data_len;
        totdelta = pos (l.taglist_len - n);
      }
  unfolding inplace_sizes
  inplace_sizes-shorter i e =
      let no_outer : (l.exterior_free_len == 0) ≡ true = ground arith in
      let left : left_over l n ≡ pos 0 = ground arith in
      let less : as_i32 (l.taglist_len + (2 ^ 32 - (n + 0) % 2 ^ 32)) ≡ pos (l.taglist_len - n) =
        ground (arith, m.small) in
      rw (inplace_sizes, no_outer, m.bounded) (rw (left, list_delta_lem l m n fits, less) refl)

-- With no free space, the list not at the end of the file, and new data that is shorter by more than
-- eight bytes, mp4tag_write_inplace writes the new data and its length, and gives each parent's
-- length the difference, but leaves the last bytes of the old data in the file, behind the list's
-- box and in no box.
pub inplace_bytes-shorter :
    (l : Layout) (start kept lost bytes post : Bytes)
    → IsPlaced l start (kept ++ lost) []
    → l.interior_free_len ≡ 0
    → l.exterior_free_len ≡ 0
    → length kept ≡ length bytes
    → boxhead_sz < length lost
    → inplace_bytes l (start ++ (box (boxids BoxId.ilst) (kept ++ lost) ++ post)) bytes
      ≡ update_parents l.base_lengths l.base_offsets
          (sub_ℕ (length bytes) l.taglist_orig_data_len)
          l.parents
          start
        ++ (box (boxids BoxId.ilst) bytes ++ (lost ++ post))
unfolding inplace_bytes inplace_freebox box update_parent_lengths
inplace_bytes-shorter l start kept lost bytes post p i e n h =
    let pre = start ++ (be_bytes 4 (boxhead_sz + length (kept ++ lost)) ++ boxids BoxId.ilst) in
    let len = length-append kept lost in
    let shorter : length bytes < l.taglist_orig_data_len = omega (arith, len, n, h, p.orig) in
    let whole : l.taglist_len ≡ l.taglist_orig_data_len = omega (arith, p.measured.len, i, e) in
    let sizes = inplace_sizes-shorter l p.measured (length bytes) (omega arith) i e in
    let flat : start ++ (box (boxids BoxId.ilst) (kept ++ lost) ++ post)
        ≡ pre ++ (kept ++ (lost ++ post)) =
      simp append_assoc in
    let at : length pre ≡ l.taglist_offset = omega (
      arith,
      p.offset,
      length-append start (be_bytes 4 (boxhead_sz + length (kept ++ lost)) ++ boxids BoxId.ilst),
      length-append (be_bytes 4 (boxhead_sz + length (kept ++ lost))) (boxids BoxId.ilst),
      length-be_bytes 4 (boxhead_sz + length (kept ++ lost)),
    ) in
    let written : overwrite (start ++ (box (boxids BoxId.ilst) (kept ++ lost) ++ post))
          l.taglist_offset (bytes ++ [])
        ≡ start ++ labelled (length (kept ++ lost)) (bytes ++ (lost ++ post)) =
      rw (flat, append-nil bytes)
        (overwrite-at pre kept bytes (lost ++ post) l.taglist_offset at (sym n)
          ∙ simp append_assoc) in
    let other : eq_ℤ (sub_ℕ (length bytes) l.taglist_orig_data_len) (pos 0) ≡ false =
      eq_ℤ-sub_ℕ (length bytes) l.taglist_orig_data_len ∙ ground arith in
    let total : eq_ℤ (pos (l.taglist_len - length bytes)) (pos 0) ≡ false = ground arith in
    let no_box : or_none (inplace_freebox l (pos 0)) ≡ [] =
      rw (inplace_freebox, p.measured.bounded) refl in
    let fits : Fits l bytes = inr (omega (arith, whole, len, n, h, p.orig)) in
    let tail = bytes ++ (lost ++ post) in
    rw
      (
        inplace_bytes,
        sizes,
        no_box,
        written,
        other,
        total,
        relabel l start (kept ++ lost) [] bytes post p fits (length (kept ++ lost)) (length bytes)
            tail,
        update_parents-front l.base_lengths l.base_offsets
            (sub_ℕ (length bytes) l.taglist_orig_data_len) l.parents start
            (labelled (length bytes) tail) p.parents,
      )
      (simp append_assoc)
