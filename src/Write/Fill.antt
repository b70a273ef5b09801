-- ===== src/Write/Fill.antt =====
-- mp4tag_write_inplace of mp4tagwrite.c on a file with free space behind the tag list.
use libmp4tag.CString.{Bytes}
use libmp4tag.Const.{boxids, BoxId, boxhead_sz}
use libmp4tag.Prelude.{
  ℕ, zero, suc, ◌+◌, ◌-◌, ◌%◌, ◌^◌, ◌<◌, ◌≤◌, ◌≡◌, ◌≢◌, ◌⊎◌, inl, inr, refl, sym, ◌∙◌, true, false,
  Bool-cases, not, ◌==◌, [], ◌++◌, length, length-append, arith,
}
use libmp4tag.Prelude.Int.{pos, neg, ◌+ℤ◌, sub_ℕ, eq_ℤ, is_positive}
use libmp4tag.Write.Array.{box}
use libmp4tag.Write.Bytes.{be_bytes, length-be_bytes}
use libmp4tag.Write.Inplace.{inplace_sizes, inplace_freebox, inplace_bytes, or_none}
use libmp4tag.Write.Offsets.{overwrite}
use libmp4tag.Write.Place.{Layout, update_parents, update_parent_lengths}
use libmp4tag.Write.Sizes.{
  IsMeasured, list_delta_lem, left_over_lem, outer_delta_lem, inner_total_lem, eq_ℤ-sub_ℕ,
}
use libmp4tag.Write.Splice.{
  free_box, length-free_box, write_freebox_lem, overwrite-at, update_parents-front,
}
use mathlib.Core.List.{append_assoc}

-- Where the parser has found the list in a file: `start` is in front of its box, `old` its data, `gap`
-- the free boxes behind it.
pub record IsPlaced (l : Layout) (start old gap : Bytes) : Type 0 where
  pub measured : IsMeasured l
  pub base : length start ≡ l.taglist_base_offset
  pub offset : l.taglist_offset ≡ length start + boxhead_sz
  pub orig : length old ≡ l.taglist_orig_data_len
  pub free : length gap ≡ l.interior_free_len + l.exterior_free_len
  pub parents : (i : ℕ) → i < l.parents → l.base_offsets i + 4 ≤ length start

-- The free box behind the new data, if there is a place for one.
abbrev pub rest_box : ℕ → Bytes
rest_box zero = []
rest_box (suc n) = free_box (suc n)

-- The data takes the space, or leaves more than the head of a box.
abbrev pub Fits : Layout → Bytes → Type 0
Fits l bytes = (length bytes ≡ l.taglist_len) ⊎ (length bytes + boxhead_sz < l.taglist_len)

inplace_freebox_lem :
    (l : Layout) (k : ℕ)
    → l.unlimited ≡ false
    → k < 2 ^ 32
    → (k ≡ 0) ⊎ (boxhead_sz < k)
    → or_none (inplace_freebox l (pos k)) ≡ rest_box k
unfolding inplace_freebox
inplace_freebox_lem l zero b s h = rw (inplace_freebox, b) refl
inplace_freebox_lem l (suc k) b s (inl h) = ground arith
inplace_freebox_lem l (suc k) b s (inr h) =
    let there : not (eq_ℤ (pos (suc k)) (pos 0)) ≡ true = ground arith in
    let big : is_positive (pos (suc k) +ℤ neg (pos 8)) ≡ true = ground arith in
    let small : suc k % 2 ^ 32 ≡ suc k = omega arith in
    rw (inplace_freebox, b, there, big, small, write_freebox_lem (suc k) (omega arith)) refl

module _ (l : Layout) (m : IsMeasured l) (n : ℕ) (fits : n ≤ l.taglist_len) where
  pub inplace_sizes-inner :
      l.exterior_free_len ≡ 0
      → 0 < l.interior_free_len
      → inplace_sizes l n ≡ record {
        freelen = pos (l.taglist_len - n);
        delta = sub_ℕ n l.taglist_orig_data_len;
        totdelta = pos 0;
      }
  unfolding inplace_sizes
  inplace_sizes-inner e i =
      let left = left_over_lem l m n fits (omega arith) in
      let no_outer : (l.exterior_free_len == 0) ≡ true = ground arith in
      rw (inplace_sizes, no_outer, m.bounded)
        (rw (left, list_delta_lem l m n fits, inner_total_lem l m n fits) refl)

  pub inplace_sizes-outer :
      0 < l.exterior_free_len
      → inplace_sizes l n ≡ record {
        freelen = pos (l.taglist_len - n);
        delta = sub_ℕ n (l.taglist_orig_data_len + l.interior_free_len);
        totdelta = sub_ℕ n (l.taglist_orig_data_len + l.interior_free_len);
      }
  unfolding inplace_sizes
  inplace_sizes-outer e =
      let there : (l.exterior_free_len == 0) ≡ false = ground arith in
      rw (inplace_sizes, there)
        (rw (left_over_lem l m n fits (omega arith), outer_delta_lem l m n fits) refl)

-- The list's box with another length in its head.
abbrev pub labelled : ℕ → Bytes → Bytes
labelled n tail = be_bytes 4 (boxhead_sz + n) ++ (boxids BoxId.ilst ++ tail)

length-rest_box : (k : ℕ) → (k ≡ 0) ⊎ (boxhead_sz < k) → length (rest_box k) ≡ k
length-rest_box zero h = refl
length-rest_box (suc k) (inl h) = ground arith
length-rest_box (suc k) (inr h) = length-free_box (suc k) (omega arith)

module _ (l : Layout) (start old gap bytes post : Bytes) (p : IsPlaced l start old gap)
    (f : Fits l bytes) where
  pub fits_le : length bytes ≤ l.taglist_len
  fits_le = elim f [ inl e ↦ omega arith | inr e ↦ omega arith ]

  fits_rest : (l.taglist_len - length bytes ≡ 0) ⊎ (boxhead_sz < l.taglist_len - length bytes)
  fits_rest = elim f [ inl e ↦ inl (omega arith) | inr e ↦ inr (omega arith) ]

  abbrev pub new_tail : Bytes
  new_tail = bytes ++ (rest_box (l.taglist_len - length bytes) ++ post)

  pub area :
      overwrite
        (start ++ (box (boxids BoxId.ilst) old ++ (gap ++ post)))
        l.taglist_offset
        (bytes ++ rest_box (l.taglist_len - length bytes))
      ≡ start ++ labelled (length old) new_tail
  unfolding box
  area =
      let pre = start ++ (be_bytes 4 (boxhead_sz + length old) ++ boxids BoxId.ilst) in
      let new = bytes ++ rest_box (l.taglist_len - length bytes) in
      let flat : start ++ (box (boxids BoxId.ilst) old ++ (gap ++ post))
          ≡ pre ++ ((old ++ gap) ++ post) =
        simp append_assoc in
      let at : length pre ≡ l.taglist_offset = omega (
        arith,
        p.offset,
        length-append start (be_bytes 4 (boxhead_sz + length old) ++ boxids BoxId.ilst),
        length-append (be_bytes 4 (boxhead_sz + length old)) (boxids BoxId.ilst),
        length-be_bytes 4 (boxhead_sz + length old),
      ) in
      let same : length new ≡ length (old ++ gap) = omega (
        arith,
        fits_le,
        p.measured.len,
        p.orig,
        p.free,
        length-append old gap,
        length-append bytes (rest_box (l.taglist_len - length bytes)),
        length-rest_box (l.taglist_len - length bytes) fits_rest,
      ) in
      rw flat (overwrite-at pre (old ++ gap) new post l.taglist_offset at same ∙ simp append_assoc)

  pub relabel :
      (n k : ℕ) (tail : Bytes)
      → overwrite (start ++ labelled n tail) l.taglist_base_offset (be_bytes 4 (k + boxhead_sz))
        ≡ start ++ labelled k tail
  relabel n k tail =
      let swap : k + boxhead_sz ≡ boxhead_sz + k = omega arith in
      rw swap (
        overwrite-at start (be_bytes 4 (boxhead_sz + n)) (be_bytes 4 (boxhead_sz + k))
          (boxids BoxId.ilst ++ tail) l.taglist_base_offset p.base
          (length-be_bytes 4 (boxhead_sz + k) ∙ sym (length-be_bytes 4 (boxhead_sz + n))))

  pub box_rest :
      or_none (inplace_freebox l (pos (l.taglist_len - length bytes)))
      ≡ rest_box (l.taglist_len - length bytes)
  box_rest =
      inplace_freebox_lem l (l.taglist_len - length bytes) p.measured.bounded
        (omega (arith, p.measured.small)) fits_rest

  -- Free space in the list's container only.
  pub inplace_bytes-inner :
      l.exterior_free_len ≡ 0
      → 0 < l.interior_free_len
      → inplace_bytes l (start ++ (box (boxids BoxId.ilst) old ++ (gap ++ post))) bytes
        ≡ start
          ++ (box (boxids BoxId.ilst) bytes ++ (rest_box (l.taglist_len - length bytes) ++ post))
  unfolding inplace_bytes box
  inplace_bytes-inner e i =
      let sizes = inplace_sizes-inner l p.measured (length bytes) fits_le e i in
      let flat : start ++ labelled (length bytes) new_tail
          ≡ start
            ++ (box (boxids BoxId.ilst) bytes
                ++ (rest_box (l.taglist_len - length bytes) ++ post)) =
        simp append_assoc in
      elim (Bool-cases (length bytes == l.taglist_orig_data_len)) [
        | inl same ↦
            let one : length old ≡ length bytes = p.orig ∙ ground arith in
            rw
              (
                inplace_bytes,
                sizes,
                box_rest,
                area,
                eq_ℤ-sub_ℕ (length bytes) l.taglist_orig_data_len,
                same,
                one,
              )
              flat
        | inr other ↦
            rw
              (
                inplace_bytes,
                sizes,
                box_rest,
                area,
                eq_ℤ-sub_ℕ (length bytes) l.taglist_orig_data_len,
                other,
                relabel (length old) (length bytes) new_tail,
              )
              flat
      ]

  -- With free space behind the containers, the list not at the end of the file, and data that fits
  -- and is not just as long as the old data with the interior free space, mp4tag_write_inplace
  -- writes the list's box with the new data and length and one free box into the old space, gives
  -- each parent's length the difference to the old data and the interior free space, and leaves
  -- every other byte as it was.
  pub inplace_bytes-outer :
      0 < l.exterior_free_len
      → length bytes ≢ l.taglist_orig_data_len + l.interior_free_len
      → inplace_bytes l (start ++ (box (boxids BoxId.ilst) old ++ (gap ++ post))) bytes
        ≡ update_parents l.base_lengths l.base_offsets
            (sub_ℕ (length bytes) (l.taglist_orig_data_len + l.interior_free_len))
            l.parents
            start
          ++ (box (boxids BoxId.ilst) bytes ++ (rest_box (l.taglist_len - length bytes) ++ post))
  unfolding inplace_bytes box update_parent_lengths
  inplace_bytes-outer e d =
      let other : eq_ℤ (sub_ℕ (length bytes) (l.taglist_orig_data_len + l.interior_free_len))
            (pos 0)
          ≡ false =
        eq_ℤ-sub_ℕ (length bytes) (l.taglist_orig_data_len + l.interior_free_len) ∙ ground arith in
      let sizes = inplace_sizes-outer l p.measured (length bytes) fits_le e in
      rw
        (
          inplace_bytes,
          sizes,
          box_rest,
          area,
          other,
          relabel (length old) (length bytes) new_tail,
          update_parents-front l.base_lengths l.base_offsets
              (sub_ℕ (length bytes) (l.taglist_orig_data_len + l.interior_free_len)) l.parents start
              (labelled (length bytes) new_tail) p.parents,
        )
        (simp append_assoc)
