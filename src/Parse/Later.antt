-- ===== src/Parse/Later.antt =====
-- The position in the file, in the branches of mp4tag_parse_file of mp4tagparse.c.
use libmp4tag.CString.{Bytes}
use libmp4tag.Const.{BoxId}
use libmp4tag.Parse.Boxes.{
  Box, is_box, read_head, box_of_head, long_box, note_box, note_meta, note_udta, note_ilst,
  note_stco, note_co64, start_rem, check_free, free_or_stop, keep_data_len, store_base,
  after_descent, end_level, end_top, parse_check_end,
}
use libmp4tag.Parse.State.{Parser, set_error, rest_of, data_read}
use libmp4tag.Tags.Consistent.{HasRoom, IsConsistent, sort_tags-HasRoom}
use libmp4tag.Tags.Find.{sort_tags}
use libmp4tag.Tags.{Libmp4tag, Mp4error}
use libmp4tag.Write.Bytes.{be_value}
use mathlib.Core.Option.{none-ne-some}
use libmp4tag.Prelude.{
  ℕ, ◌+◌, ◌≤◌, ◌≡◌, refl, ap, subst, ◌∙◌, Bool, Option-cases, sym, inl, inr, Option, none, some,
  length, take, drop, ◌==◌, ◌&&◌, if◌then◌else◌, if_ind, length-take_le, length-take_le_length,
  length-drop_sub, arith,
}

-- The same file, at the same place or further on.
pub record IsLater (s t : Parser) : Type 0 where
  pub file : t.file ≡ s.file
  pub offset : s.offset ≤ t.offset
  pub tags : HasRoom s.tags → HasRoom t.tags

pub IsLater-refl : (s : Parser) → IsLater s s
IsLater-refl s = record { file = refl; offset = omega arith; tags = λ h. h }

pub IsLater-trans : {s t u : Parser} → IsLater s t → IsLater t u → IsLater s u
IsLater-trans p q = record {
  file = q.file ∙ p.file;
  offset = omega (arith, p.offset, q.offset);
  tags = λ h. q.tags (p.tags h);
}

pub data_read-IsLater : (s : Parser) (n : ℕ) → IsLater s (data_read s n).1
unfolding data_read
data_read-IsLater s n = record { file = refl; offset = omega arith; tags = λ h. h }

-- A branch that keeps the position does so in an if.
if-IsLater :
    (s : Parser) (b : Bool) {x y : Parser}
    → IsLater s x
    → IsLater s y
    → IsLater s (if b then x else y)
if-IsLater s b p q = if_ind (IsLater s) b (λ e. p) (λ e. q)

pub kept : (s t : Parser) → t.file ≡ s.file → t.offset ≡ s.offset → t.tags ≡ s.tags → IsLater s t
kept s t f o e = record { file = f; offset = omega (arith, o); tags = subst HasRoom (sym e) }

pub start_rem-IsLater :
    (boxlen : ℕ) (b : Box) (level : ℕ) (s : Parser) → IsLater s (start_rem boxlen b level s)
start_rem-IsLater boxlen b level s =
    if-IsLater s (boxlen == 0) (kept s _ refl refl refl) (IsLater-refl s)

pub note_box-IsLater : (b : Box) (level : ℕ) (s : Parser) → IsLater s (note_box b level s)
unfolding note_box
note_box-IsLater b level s =
    let s1 = note_meta b s in
    let s2 = note_udta b s1 in
    let s3 = note_ilst b level s2 in
    let s4 = note_stco b s3 in
    let p1 : IsLater s s1 =
      if-IsLater s (is_box b BoxId.meta) (kept s _ refl refl refl) (IsLater-refl s) in
    let p2 : IsLater s1 s2 =
      if-IsLater s1 (is_box b BoxId.udta) (kept s1 _ refl refl refl) (IsLater-refl s1) in
    let p3 : IsLater s2 s3 =
      if-IsLater s2 (is_box b BoxId.ilst) (kept s2 _ refl refl refl) (IsLater-refl s2) in
    let p4 : IsLater s3 s4 =
      if-IsLater s3 (is_box b BoxId.stco) (kept s3 _ refl refl refl) (IsLater-refl s3) in
    let p5 : IsLater s4 (note_co64 b s4) =
      if-IsLater s4 (is_box b BoxId.co64) (kept s4 _ refl refl refl) (IsLater-refl s4) in
    IsLater-trans p1 (IsLater-trans p2 (IsLater-trans p3 (IsLater-trans p4 p5)))

keep_data_len-IsLater : (s : Parser) → IsLater s (keep_data_len s)
keep_data_len-IsLater s =
    if-IsLater s (s.place.taglist_orig_data_len == 0) (kept s _ refl refl refl) (IsLater-refl s)

pub check_free-IsLater : (b : Box) (level : ℕ) (s : Parser) → IsLater s (check_free b level s).1
unfolding check_free
check_free-IsLater b level s =
    let k = keep_data_len-IsLater s in
    let inner : IsLater s (free_or_stop b level (keep_data_len s)).1 =
      if_ind (λ (r : Bool × Parser). IsLater s r.1) (is_box b BoxId.free)
        (λ e. IsLater-trans k (kept (keep_data_len s) _ refl refl refl))
        (λ e. IsLater-trans k (kept (keep_data_len s) _ refl refl refl)) in
    if_ind (λ (r : Bool × Parser). IsLater s r.1) s.checkforfree (λ e. inner) (λ e. IsLater-refl s)

pub store_base-IsLater : (b : Box) (level : ℕ) (s : Parser) → IsLater s (store_base b level s)
unfolding store_base
store_base-IsLater b level s =
    if-IsLater s (s.place.taglist_offset == 0) (kept s _ refl refl refl) (IsLater-refl s)

pub after_descent-IsLater : (b : Box) (s : Parser) → IsLater s (after_descent b s)
unfolding after_descent
after_descent-IsLater b s =
    let k = keep_data_len-IsLater s in
    let kept_len = keep_data_len s in
    let m =
      if-IsLater kept_len (is_box b BoxId.moov && kept_len.place.noilst_offset == 0)
        (kept kept_len
          (record kept_len {
            place = record kept_len.place {
              noilst_offset = kept_len.offset;
              after_ilst_offset = kept_len.offset;
            };
          })
          refl refl refl)
        (IsLater-refl kept_len) in
    IsLater-trans k (
      IsLater-trans m
        (if-IsLater _ (is_box b BoxId.ilst) (kept _ _ refl refl refl) (IsLater-refl _)))

IsConsistent-HasRoom : (l : Libmp4tag) → IsConsistent l → HasRoom l
IsConsistent-HasRoom l c = record { ident = c.ident; room = c.room; no_array = c.no_array }

sorted-IsLater : (s : Parser) → IsLater s (record s { tags = sort_tags s.tags })
sorted-IsLater s = record {
  file = refl;
  offset = omega arith;
  tags = λ h. IsConsistent-HasRoom (sort_tags s.tags) (sort_tags-HasRoom s.tags h);
}

-- The top level sorts the list.
pub end_level-IsConsistent : (s : Parser) → HasRoom s.tags → IsConsistent (end_level 0 s).tags
unfolding end_level
end_level-IsConsistent s h =
    let checked = if s.checkforfree then parse_check_end s else s in
    let c : IsLater s checked =
      if-IsLater s s.checkforfree
        (if-IsLater s (s.offset == s.place.filesz) (kept s _ refl refl refl) (IsLater-refl s))
        (IsLater-refl s) in
    let sorted : IsConsistent (end_top s).tags = sort_tags-HasRoom checked.tags (c.tags h) in
    if_ind (λ (t : Parser). IsConsistent t.tags) (end_top s).checkforfree (λ e. sorted)
      (λ e. sorted)

pub end_level-IsLater : (level : ℕ) (s : Parser) → IsLater s (end_level level s)
unfolding end_level
end_level-IsLater level s =
    let checked = if s.checkforfree then parse_check_end s else s in
    let c : IsLater s checked =
      if-IsLater s s.checkforfree
        (if-IsLater s (s.offset == s.place.filesz) (kept s _ refl refl refl) (IsLater-refl s))
        (IsLater-refl s) in
    let top : IsLater s (if level == 0 then end_top s else s) =
      if-IsLater s (level == 0) (IsLater-trans c (sorted-IsLater checked)) (IsLater-refl s) in
    IsLater-trans top (
      if-IsLater _ (if level == 0 then end_top s else s).checkforfree (kept _ _ refl refl refl)
        (IsLater-refl _))

-- What is read is in the file.
pub data_read-some :
    (s : Parser) (n : ℕ) (p : Bytes)
    → (data_read s n).0 ≡ some p
    → (s.offset + n ≤ length s.file) × ((data_read s n).1.offset ≡ s.offset + n)
unfolding data_read
data_read-some s n p e =
    let got = take n (rest_of s) in
    let short = length-take_le n (rest_of s) in
    let there = length-take_le_length n (rest_of s) in
    let left = length-drop_sub s.offset s.file in ground arith

long_box-IsLater :
    (s : Parser) (nm : Bytes) (r : Option Bytes × Parser)
    → IsLater s r.1
    → IsLater s (long_box nm r).1
long_box-IsLater s nm (none, t) p = p
long_box-IsLater s nm (some x, t) p = p

box_of_head-IsLater : (o : Option Bytes) (s : Parser) → IsLater s (box_of_head (o, s)).1
box_of_head-IsLater none s = IsLater-refl s
box_of_head-IsLater (some bh) s =
    if_ind (λ (r : Option Box × Parser). IsLater s r.1) (be_value 0 (take 4 bh) == 0)
      (λ e. kept s _ refl refl refl)
      (λ e.
        if_ind (λ (r : Option Box × Parser). IsLater s r.1) (be_value 0 (take 4 bh) == 1)
          (λ k. long_box-IsLater s (drop 4 bh) (data_read s 8) (data_read-IsLater s 8))
          (λ k. IsLater-refl s))

pub read_head-IsLater : (s : Parser) → IsLater s (read_head s).1
unfolding read_head
read_head-IsLater s =
    IsLater-trans (data_read-IsLater s 8) (box_of_head-IsLater (data_read s 8).0 (data_read s 8).1)

-- A box has a head.
pub read_head-some :
    (s : Parser) (b : Box)
    → (read_head s).0 ≡ some b
    → (s.offset + 8 ≤ length s.file) × (s.offset + 8 ≤ (read_head s).1.offset)
unfolding read_head
read_head-some s b e = elim (Option-cases (data_read s 8).0) [
  | inl n ↦ absurd (none-ne-some b (ap (λ o. (box_of_head (o, (data_read s 8).1)).0) (sym n) ∙ e))
  | inr (p, h) ↦
      let (there, at) = data_read-some s 8 p h in
      (there, omega (arith, at, (box_of_head-IsLater (data_read s 8).0 (data_read s 8).1).offset))
]

pub set_error-IsLater : (s : Parser) (e : Mp4error) → IsLater s (set_error s e)
set_error-IsLater s e = record {
  file = refl;
  offset = omega arith;
  tags = λ h. record { ident = h.ident; room = h.room; no_array = h.no_array };
}
