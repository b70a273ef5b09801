-- ===== src/Parse/Endless.antt =====
-- The loop of mp4tag_process_covr of mp4tagparse.c on a box of length 0.
use libmp4tag.CString.{Bytes, starts_with}
use libmp4tag.Const.{boxids, BoxId}
use libmp4tag.Parse.Covr.{Image, process_boxes, process_covr}
use libmp4tag.Parse.Item.{read_be, advance, sub_32}
use libmp4tag.Parse.Tag.{Outcome}
use libmp4tag.Prelude.{
  ℕ, zero, suc, ◌^◌, ◌<◌, ◌≤◌, ◌≡◌, refl, true, false, Option, none, some, length, drop, leb, ◌==◌,
  arith,
}
use libmp4tag.Tags.{Libmp4tag}

-- A box whose length field is 0, and which is neither an image nor a name.
pub record IsEmptyBox (p : Bytes) : Type 0 where
  pub long : 8 ≤ length p
  pub zero_len : read_be 4 p ≡ some 0
  pub not_data : starts_with (drop 4 p) (boxids BoxId.data_box) ≡ false
  pub not_name : starts_with (drop 4 p) (boxids BoxId.name) ≡ false

advance-none : (p : Bytes) → advance 0 p ≡ some p
unfolding advance
advance-none p = let there : leb 0 (length p) ≡ true = ground arith in rw there refl

process_boxes-unfinished :
    (fuel : ℕ) (l : Libmp4tag) (blen : ℕ) (p : Bytes) (image : Option Image) (cname : Option Bytes)
    → IsEmptyBox p
    → 0 < blen
    → blen < 2 ^ 32
    → process_boxes fuel l blen p image cname ≡ Outcome.unfinished
unfolding process_boxes
process_boxes-unfinished zero l blen p image cname b h lt = refl
process_boxes-unfinished (suc fuel) l blen p image cname b h lt =
    let going : (blen == 0) ≡ false = ground arith in
    let long : leb 8 (length p) ≡ true = ground (arith, b.long) in
    let stay : sub_32 blen 0 ≡ blen = omega arith in
    rw (process_boxes, going, b.zero_len, long, b.not_data, b.not_name, advance-none p, stay)
      (process_boxes-unfinished fuel l blen p image cname b h lt)

-- On a cover's data that begins with a box of length 0 that is neither an image nor a name, with a
-- length of the data between 1 and 2 ^ 32, mp4tag_process_covr never ends: it uses up any fuel.
pub process_covr-unfinished :
    (fuel : ℕ) (l : Libmp4tag) (blen : ℕ) (p : Bytes)
    → IsEmptyBox p
    → 0 < blen
    → blen < 2 ^ 32
    → process_covr fuel l blen p ≡ Outcome.unfinished
unfolding process_covr
process_covr-unfinished fuel l blen p b h lt =
    process_boxes-unfinished fuel l blen p none none b h lt
