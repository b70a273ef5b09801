-- ===== src/Write/Array.antt =====
-- The bytes of text tags in mp4tag_build_append of mp4tagwrite.c.
use libmp4tag.CString.{Bytes}
use libmp4tag.Const.{boxids, BoxId, boxhead_sz, data_sz, id_len, id_string}
use libmp4tag.Prelude.{
  ℕ, suc, ◌+◌, ◌<◌, ◌^◌, ◌≡◌, refl, ap, ◌∙◌, subst, false, none, [], ◌∷◌, ◌++◌, length, take,
  length-append, arith,
}
use libmp4tag.Tags.{Mp4tag}
use libmp4tag.Write.Build.{Output, append_head, append_item, head_len, grow_box, write_tag}
use libmp4tag.Write.Bytes.{update_data_len, be_bytes, length-be_bytes, update_data_len-append}
use libmp4tag.Write.Item.{savelen, append_value, named, value_of}
use mathlib.Core.List.{append_assoc}

-- A box: its length, its identifier, and what is in it.
unfoldable pub box : Bytes → Bytes → Bytes
box id body = be_bytes 4 (boxhead_sz + length body) ++ (id ++ body)

-- The box of a value, with its type.
unfoldable pub item_box : Mp4tag → Bytes
unfolding box
item_box t = box (boxids BoxId.data_box) (be_bytes 4 t.identtype ++ (be_bytes 4 0 ++ value_of t))

-- A string, with its length.
pub record IsText (t : Mp4tag) : Type 0 where
  pub text : t.identtype ≡ id_string
  pub not_trkn : named t BoxId.trkn ≡ false
  pub len : length (value_of t) ≡ t.datalen
  pub no_covername : t.covername ≡ none

pub take-length : (xs : Bytes) (n : ℕ) → length xs ≡ n → take n xs ≡ xs
take-length xs n h = subst (λ k. take k xs ≡ xs) h (go xs)
  where
    go : (ys : Bytes) → take (length ys) ys ≡ ys
    go [] = refl
    go (y ∷ ys) = ap (◌∷◌ y) (go ys)

pub savelen-text : (t : Mp4tag) → IsText t → savelen t ≡ t.datalen
unfolding savelen
savelen-text t h = rw (h.not_trkn, h.text) refl

pub length-box :
    (id body : Bytes) → length id ≡ id_len → length (box id body) ≡ boxhead_sz + length body
unfolding box
length-box id body h = omega (
  arith,
  length-append (be_bytes 4 (boxhead_sz + length body)) (id ++ body),
  length-append id body,
  length-be_bytes 4 (boxhead_sz + length body),
)

length-body :
    (t : Mp4tag)
    → IsText t
    → length (be_bytes 4 t.identtype ++ (be_bytes 4 0 ++ value_of t)) ≡ 8 + t.datalen
length-body t h = omega (
  arith,
  length-append (be_bytes 4 t.identtype) (be_bytes 4 0 ++ value_of t),
  length-append (be_bytes 4 0) (value_of t),
  length-be_bytes 4 t.identtype,
  length-be_bytes 4 0,
  h.len,
)

pub length-item_box : (t : Mp4tag) → IsText t → length (item_box t) ≡ data_sz + t.datalen
unfolding item_box
length-item_box t h =
    let body = be_bytes 4 t.identtype ++ (be_bytes 4 0 ++ value_of t) in
    omega (arith, length-box (boxids BoxId.data_box) body refl, length-body t h)

append_value-text : (d : Bytes) (t : Mp4tag) → IsText t → append_value d t ≡ d ++ value_of t
unfolding append_value
append_value-text d t h = rw (h.text, take-length (value_of t) t.datalen h.len) refl

pub append_item-text :
    (d : Bytes) (t : Mp4tag) → IsText t → append_item d (data_sz + t.datalen) t ≡ d ++ item_box t
unfolding append_item item_box box
append_item-text d t h =
    let size : boxhead_sz + length (be_bytes 4 t.identtype ++ (be_bytes 4 0 ++ value_of t))
        ≡ data_sz + t.datalen =
      omega (arith, length-body t h) in
    append_value-text _ t h ∙ rw size (simp append_assoc)

pub append_head-plain :
    (d tnm : Bytes) (tlen : ℕ)
    → length tnm ≡ id_len
    → append_head d tlen tnm none ≡ d ++ (be_bytes 4 tlen ++ tnm)
unfolding append_head
append_head-plain d tnm tlen h = rw (take-length tnm 4 h) (append_assoc d (be_bytes 4 tlen) tnm)

module _ (o : Output) (t : Mp4tag) (tnm : Bytes) (offset : ℕ) (s : t.identtype ≡ id_string) where
  write_tag-first_lem :
      o.datacount ≡ 0
      → write_tag o offset t tnm none
        ≡ append_item
            (append_head o.buf (boxhead_sz + (data_sz + savelen t)) tnm none)
            (data_sz + savelen t)
            t
  unfolding write_tag head_len
  write_tag-first_lem z = ground arith

  write_tag-next_lem :
      (n : ℕ)
      → o.datacount ≡ suc n
      → write_tag o offset t tnm none
        ≡ update_data_len (append_item o.buf (data_sz + savelen t) t) offset (data_sz + t.datalen)
  unfolding write_tag grow_box
  write_tag-next_lem n z = ground arith

module _ (o : Output) (t : Mp4tag) (tnm : Bytes) (h : IsText t) (four : length tnm ≡ id_len) where
  -- The first item of a name begins a box.
  pub write_tag-first :
      o.datacount ≡ 0 → write_tag o (length o.buf) t tnm none ≡ o.buf ++ box tnm (item_box t)
  unfolding box
  write_tag-first z =
      let size : boxhead_sz + length (item_box t) ≡ boxhead_sz + (data_sz + t.datalen) =
        omega (arith, length-item_box t h) in
      write_tag-first_lem o t tnm (length o.buf) h.text z
      ∙ rw
          (
            savelen-text t h,
            append_head-plain o.buf tnm (boxhead_sz + (data_sz + t.datalen)) four,
            append_item-text (o.buf ++ (be_bytes 4 (boxhead_sz + (data_sz + t.datalen)) ++ tnm)) t
                h,
            size,
          )
          (simp append_assoc)

  -- A further one is added to the box, and to its length.
  pub write_tag-next :
      (pre items : Bytes) (n : ℕ)
      → o.datacount ≡ suc n
      → o.buf ≡ pre ++ box tnm items
      → boxhead_sz + length items + (data_sz + t.datalen) < 2 ^ 32
      → write_tag o (length pre) t tnm none ≡ pre ++ box tnm (items ++ item_box t)
  unfolding box
  write_tag-next pre items n z e lt =
      let start = be_bytes 4 (boxhead_sz + length items) in
      let size : boxhead_sz + length (items ++ item_box t)
          ≡ boxhead_sz + length items + (data_sz + t.datalen) =
        omega (arith, length-append items (item_box t), length-item_box t h) in
      let flat : pre ++ (start ++ (tnm ++ items)) ++ item_box t
          ≡ pre ++ (start ++ (tnm ++ (items ++ item_box t))) =
        simp append_assoc in
      write_tag-next_lem o t tnm (length pre) h.text n z
      ∙ rw
          (
            savelen-text t h,
            append_item-text o.buf t h,
            e,
            flat,
            update_data_len-append pre (tnm ++ (items ++ item_box t)) (boxhead_sz + length items)
                (data_sz + t.datalen) lt,
            size,
          )
          refl
