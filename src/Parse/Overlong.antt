-- ===== src/Parse/Overlong.antt =====
-- mp4tag_process_tag of mp4tagparse.c and mp4tag_build_append of mp4tagwrite.c on a number in a data box with
-- the type for binary data.
use libmp4tag.CString.{Bytes}
use libmp4tag.Const.{boxids, BoxId, id_len, id_data, data_sz}
use libmp4tag.Parse.Tag.{Outcome, process_tag}
use libmp4tag.Prelude.{
  ℕ, ◌+◌, ◌^◌, ◌<◌, ◌≡◌, refl, ap, ◌∙◌, leb, Bool-cases, inl, inr, ◌==◌, false, none, [], ◌∷◌, ◌++◌,
  length, length-append, arith,
}
use libmp4tag.Prelude.Int.{pos}
use libmp4tag.Tags.Add.{last_tag, next_dataidx}
use libmp4tag.Tags.Set.{is_tag}
use libmp4tag.Tags.{Mp4tag, Libmp4tag, list_of}
use libmp4tag.Write.Build.{
  Output, head_len, append_head, append_item, box_name, start_name, offset_of, write_tag, new_dlen,
  append_named, build_append,
}
use libmp4tag.Write.Bytes.{be_bytes, length-be_bytes}
use libmp4tag.Write.Full.{length-box_ident}
use libmp4tag.Write.Array.{take-length, append_head-plain}
use libmp4tag.Write.Item.{savelen, append_binary, append_value, box_ident}
use libmp4tag.Parse.Integers.{
  Width, size, number_text, IsNumeric, typed_item, typed_tag, process_tag-typed_item,
}

-- Under the type for binary data the text of a number is written, in the room of the number.
module _ (tag : Bytes) (n : IsNumeric tag) (i : ℕ) (w : Width) (v : ℕ) where
  abbrev data_number : Mp4tag
  data_number = typed_tag id_data tag i w v

  append_binary-number : (d : Bytes) → append_binary d data_number ≡ d ++ number_text w v
  unfolding append_binary
  append_binary-number d =
      rw
        (
          append_binary,
          n.not_trkn,
          n.not_disk,
          take-length (number_text w v) (length (number_text w v)) refl,
        )
        refl

  length-append_item :
      (d : Bytes) (tlen : ℕ)
      → length (append_item d tlen data_number) ≡ length d + data_sz + length (number_text w v)
  unfolding append_item append_value
  length-append_item d tlen =
      let d1 = (d ++ be_bytes 4 tlen) ++ boxids BoxId.data_box in
      let head = (d1 ++ be_bytes 4 id_data) ++ be_bytes 4 0 in
      ap length (append_binary-number head)
      ∙ omega (
        arith,
        length-append head (number_text w v),
        length-append (d1 ++ be_bytes 4 id_data) (be_bytes 4 0),
        length-append d1 (be_bytes 4 id_data),
        length-append (d ++ be_bytes 4 tlen) (boxids BoxId.data_box),
        length-append d (be_bytes 4 tlen),
        length-be_bytes 4 tlen,
        length-be_bytes 4 id_data,
        length-be_bytes 4 0,
      )

  savelen-number : savelen data_number ≡ size w
  unfolding savelen
  savelen-number = rw (savelen, n.not_trkn) refl

  length-write_tag :
      (o : Output) (tnm : Bytes) (offset : ℕ)
      → length tnm ≡ id_len
      → length (write_tag o offset data_number tnm none) + size w
        ≡ new_dlen o data_number none + length (number_text w v)
  unfolding write_tag new_dlen head_len
  length-write_tag o tnm offset k = elim (Bool-cases (o.datacount == 0)) [
    | inl e ↦
        rw (write_tag, new_dlen, e, savelen-number)
          (omega (
            arith,
            length-append_item (append_head o.buf (8 + (data_sz + size w)) tnm none)
                (data_sz + size w),
            ap length (append_head-plain o.buf tnm (8 + (data_sz + size w)) k),
            length-append o.buf (be_bytes 4 (8 + (data_sz + size w)) ++ tnm),
            length-append (be_bytes 4 (8 + (data_sz + size w))) tnm,
            length-be_bytes 4 (8 + (data_sz + size w)),
            k,
          ))
    | inr e ↦
        rw (write_tag, new_dlen, e, savelen-number)
          (omega (arith, length-append_item o.buf (data_sz + size w)))
  ]

  append_named-longer :
      (fresh : ℕ → ℕ) (o : Output) (tnm : Bytes)
      → length tnm ≡ id_len
      → size w < length (number_text w v)
      → append_named fresh o data_number tnm none ≡ none
  unfolding append_named
  append_named-longer fresh o tnm k long =
      let over : leb (length (write_tag o (offset_of o) data_number tnm none))
            (new_dlen o data_number none)
          ≡ false =
        ground (arith, length-write_tag o tnm (offset_of o) k, long) in
      rw (append_named, over) refl

-- Under such a name (not free or custom, no cover's, not disk, trkn or gnre, with no index in it),
-- where the four bytes of the custom identifier do not begin it: a number of one, two, four or eight
-- bytes in a data box with the type for binary data, whose decimal text has more characters than the
-- number has bytes, is added by mp4tag_process_tag as one tag, and mp4tag_build_append of that tag
-- writes behind the end of the buffer, whatever was written before.
pub process_tag-build_append :
    (tag : Bytes)
    → IsNumeric tag
    → is_tag tag BoxId.custom ≡ false
    → (l : Libmp4tag) (w : Width) (d v : ℕ) (fresh : ℕ → ℕ) (o : Output) → v < 256 ^ size w
    → next_dataidx (last_tag (list_of l.tags)) tag ≡ pos d
    → size w < length (number_text w v)
    → (l' : Libmp4tag) × (t : Mp4tag) × (process_tag l tag
          (length (typed_item id_data w v))
          (typed_item id_data w v)
        ≡ Outcome.done l')
      × (list_of l'.tags ≡ list_of l.tags ++ (t ∷ []))
      × (build_append fresh o t ≡ none)
unfolding build_append
process_tag-build_append tag n c l w d v fresh o h e long =
    let (l', run, all) = process_tag-typed_item tag n l id_data w d v refl (omega arith) h e in
    (
      l',
      typed_tag id_data tag d w v,
      run,
      all,
      rw (build_append, c)
          (append_named-longer tag n d w v fresh (start_name o (box_name (box_ident tag) none))
            (box_ident tag) (length-box_ident tag) long),
    )
