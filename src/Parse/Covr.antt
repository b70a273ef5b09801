-- ===== src/Parse/Covr.antt =====
-- mp4tag_process_covr of mp4tagparse.c: the images of a cover, each with its name, if it has one.
use libmp4tag.CString.{Bytes, starts_with, c_string}
use libmp4tag.Const.{boxids, BoxId, id_jpg}
use libmp4tag.Parse.Item.{read_be, advance, sub_32, process_data, has_zero}
use libmp4tag.Parse.Tag.{Outcome}
use libmp4tag.Prelude.{
  ℕ, zero, suc, ◌-◌, Option, none, some, length, take, drop, ltb, leb, ◌==◌, if◌then◌else◌,
}
use libmp4tag.Prelude.Int.{pos}
use libmp4tag.Tags.Add.{add_tag}
use libmp4tag.Tags.{Libmp4tag}
use mathlib.Core.Option

-- An image that has been read and is not added yet: its bytes, from the pointer on, its length and its
-- type.
pub record Image : Type 0 where
  pub cdata : Bytes
  pub clen : ℕ
  pub type : ℕ

-- The image that waits is added with the name that was read. `none` where it is
-- longer than the data, or where it has no bytes and is taken for a C string, and no zero byte is there.
unfoldable pub add_image : Libmp4tag → Option Image → Option Bytes → Option Libmp4tag
add_image l none cname = some l
add_image l (some i) cname =
    if (if i.clen == 0 then has_zero i.cdata else leb i.clen (length i.cdata))
    then some
        (add_tag l (boxids BoxId.covr) i.cdata (pos i.clen) i.type i.clen
          (Option.map c_string cname)).0
    else none

-- An image of no declared type is taken for a JPEG.
abbrev pub image_type : ℕ → ℕ
image_type type = if type == 0 then id_jpg else type

-- The name that goes on to the next image.
abbrev pub kept_name : Option Image → Option Bytes → Option Bytes
kept_name none cname = cname
kept_name (some i) cname = none

unfoldable pub process_boxes : ℕ → Libmp4tag → ℕ → Bytes → Option Image → Option Bytes → Outcome
process_boxes zero l blen p image cname = Outcome.unfinished
process_boxes (suc fuel) l blen p image cname =
    if blen == 0
    then elim (add_image l image cname) [ none ↦ Outcome.overrun | some l' ↦ Outcome.done l' ]
    else elim (read_be 4 p) [
      | none ↦ Outcome.overrun
      | some tlen ↦
          if leb 8 (length p)
          then if starts_with (drop 4 p) (boxids BoxId.data_box)
            then elim (add_image l image cname) [
              | none ↦ Outcome.overrun
              | some l' ↦ elim (process_data p) [
                | none ↦ Outcome.overrun
                | some (clen, type) ↦ elim (advance clen (drop 16 p)) [
                  | none ↦ Outcome.overrun
                  | some q ↦
                      let i : Image = record {
                        cdata = drop 16 p;
                        clen = clen;
                        type = image_type type;
                      } in
                      process_boxes fuel l' (sub_32 blen tlen) q (some i) (kept_name image cname)
                ]
              ]
            ]
            else if starts_with (drop 4 p) (boxids BoxId.name)
            then if ltb tlen 8 then Outcome.overrun else elim (advance tlen p) [
              | none ↦ Outcome.overrun
              | some q ↦
                  process_boxes fuel l (sub_32 blen tlen) q image
                    (some (take (tlen - 8) (drop 8 p)))
            ]
            else elim (advance tlen p) [
              | none ↦ Outcome.overrun
              | some q ↦ process_boxes fuel l (sub_32 blen tlen) q image cname
            ]
          else Outcome.overrun
    ]

unfoldable pub process_covr : ℕ → Libmp4tag → ℕ → Bytes → Outcome
process_covr fuel l blen p = process_boxes fuel l blen p none none
