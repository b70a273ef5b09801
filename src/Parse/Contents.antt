-- ===== src/Parse/Contents.antt =====
-- mp4tag_parse_file of mp4tagparse.c inside the tag list: the boxes of the items, as the writer makes them.
use libmp4tag.CString.{Bytes, str_eq}
use libmp4tag.Const.{boxids, BoxId, boxhead_sz}
use libmp4tag.Parse.Boxes.{
  Box, is_box, make_box, shown_name, descends, needs_data, read_head, note_box, note_meta,
  note_udta, note_ilst, note_stco, note_co64, check_free, keep_data_len, after_descent,
}
use libmp4tag.Parse.File.{Parsed, process_box, box_data, descend, next_box, parse_box, parse_boxes}
use libmp4tag.Parse.Reading.{data_read-append, read_head-next}
use libmp4tag.Parse.State.{Parser, rest_of, data_read}
use libmp4tag.Parse.Tag.{Outcome, process_tag}
use libmp4tag.Prelude.{
  ℕ, suc, ◌+◌, ◌%◌, ◌^◌, ◌<◌, ◌≡◌, refl, ap, ◌∙◌, true, false, Bool, ◌&&◌, ◌||◌, Bool-cases, inl,
  inr, some, ◌++◌, length, ◌==◌, if◌then◌else◌, arith,
}
use libmp4tag.Prelude.Int.{ℤ}
use libmp4tag.Tags.{Libmp4tag}
use libmp4tag.Write.Array.{box}
use libmp4tag.Write.Place.{Layout}

-- A name that mp4tag_parse_file does nothing special for.
pub record IsOrdinary (nm : Bytes) : Type 0 where
  pub not_moov : str_eq nm (boxids BoxId.moov) ≡ false
  pub not_trak : str_eq nm (boxids BoxId.trak) ≡ false
  pub not_udta : str_eq nm (boxids BoxId.udta) ≡ false
  pub not_mdia : str_eq nm (boxids BoxId.mdia) ≡ false
  pub not_stbl : str_eq nm (boxids BoxId.stbl) ≡ false
  pub not_minf : str_eq nm (boxids BoxId.minf) ≡ false
  pub not_ilst : str_eq nm (boxids BoxId.ilst) ≡ false
  pub not_meta : str_eq nm (boxids BoxId.meta) ≡ false
  pub not_stco : str_eq nm (boxids BoxId.stco) ≡ false
  pub not_co64 : str_eq nm (boxids BoxId.co64) ≡ false
  pub not_mdhd : str_eq nm (boxids BoxId.mdhd) ≡ false
  pub not_covr : str_eq nm (boxids BoxId.covr) ≡ false

-- The length of the list is kept when its first box has been read.
abbrev pub kept_place : Layout → Layout
kept_place l =
    if l.taglist_orig_data_len == 0 then record l { taglist_orig_data_len = l.taglist_len } else l

pub keep_data_len_lem : (s : Parser) → keep_data_len s ≡ record s { place = kept_place s.place }
keep_data_len_lem s = elim (Bool-cases (s.place.taglist_orig_data_len == 0)) [
  | inl e ↦ ground arith
  | inr e ↦ ground arith
]

-- Nothing is noted of another box.
pub note_box-none :
    (b : Box) (level : ℕ) (s : Parser)
    → is_box b BoxId.meta ≡ false
    → is_box b BoxId.udta ≡ false
    → is_box b BoxId.ilst ≡ false
    → is_box b BoxId.stco ≡ false
    → is_box b BoxId.co64 ≡ false
    → note_box b level s ≡ s
unfolding note_box
note_box-none b level s m u i c o =
    note_co64-none b (note_stco b (note_ilst b level (note_udta b (note_meta b s)))) o
    ∙ note_stco-none b (note_ilst b level (note_udta b (note_meta b s))) c
    ∙ note_ilst-none b level (note_udta b (note_meta b s)) i
    ∙ note_udta-none b (note_meta b s) u
    ∙ note_meta-none b s m
  where
    note_meta-none : (b' : Box) (s' : Parser) → is_box b' BoxId.meta ≡ false → note_meta b' s' ≡ s'
    note_meta-none b' s' h = rw h refl

    note_udta-none : (b' : Box) (s' : Parser) → is_box b' BoxId.udta ≡ false → note_udta b' s' ≡ s'
    note_udta-none b' s' h = rw h refl

    note_ilst-none :
        (b' : Box) (n : ℕ) (s' : Parser) → is_box b' BoxId.ilst ≡ false → note_ilst b' n s' ≡ s'
    note_ilst-none b' n s' h = rw h refl

    note_stco-none : (b' : Box) (s' : Parser) → is_box b' BoxId.stco ≡ false → note_stco b' s' ≡ s'
    note_stco-none b' s' h = rw h refl

    note_co64-none : (b' : Box) (s' : Parser) → is_box b' BoxId.co64 ≡ false → note_co64 b' s' ≡ s'
    note_co64-none b' s' h = rw h refl

pub descend-none :
    (loop : ℕ → ℕ → Parser → Parsed) (b : Box) (level : ℕ) (s : Parser)
    → descends b ≡ false
    → descend loop b level s ≡ Parsed.done s
unfolding descend
descend-none loop b level s d = rw (descend, d) refl

pub after_descent-none :
    (b : Box) (s : Parser)
    → is_box b BoxId.moov ≡ false
    → is_box b BoxId.ilst ≡ false
    → after_descent b s ≡ record s { place = kept_place s.place }
unfolding after_descent
after_descent-none b s m i = rw (after_descent, m, i) (keep_data_len_lem s)

box_data-read :
    (millis : ℕ → ℕ → ℤ) (b : Box) (skiplen : ℕ) (s s2 s3 : Parser) (bytes : Bytes)
    (f stop : Parser → Parsed)
    → needs_data b s ≡ true
    → (b.len == 0) ≡ false
    → data_read s b.len ≡ (some bytes, s2)
    → process_box millis b bytes s2 ≡ Parsed.done s3
    → box_data millis b skiplen s f stop ≡ f s3
unfolding box_data
box_data-read millis b skiplen s s2 s3 bytes f stop p there read run =
    rw (box_data, p, there, read, run) refl

-- A box in the list that is read and processed.
pub parse_box-read :
    (millis : ℕ → ℕ → ℤ) (loop : ℕ → ℕ → Parser → Parsed) (b : Box) (boxlen level : ℕ)
    (s s2 s3 : Parser) (bytes : Bytes)
    → descends b ≡ false
    → is_box b BoxId.moov ≡ false
    → is_box b BoxId.ilst ≡ false
    → needs_data b (record s { place = kept_place s.place }) ≡ true
    → (b.len == 0) ≡ false
    → data_read (record s { place = kept_place s.place }) b.len ≡ (some bytes, s2)
    → process_box millis b bytes s2 ≡ Parsed.done s3
    → parse_box millis loop b boxlen level (false, s) ≡ next_box loop b boxlen level s3
unfolding parse_box
parse_box-read millis loop b boxlen level s s2 s3 bytes d m i p there read run =
    rw (parse_box, descend-none loop b level s d, after_descent-none b s m i)
      (box_data-read millis b _ (record s { place = kept_place s.place }) s2 s3 bytes _ _ p there
        read run)

or_last : (x y z : Bool) → z ≡ true → (x || y || z) ≡ true
or_last true y z e = refl
or_last false true z e = refl
or_last false false z e = e

needs_data-processed : (b : Box) (s : Parser) → s.processdata ≡ true → needs_data b s ≡ true
needs_data-processed b s p =
    or_last (s.dump_co && (is_box b BoxId.stco || is_box b BoxId.co64)) (is_box b BoxId.mdhd)
      s.processdata p

-- A round of the loop behind the head of a box.
pub parse_boxes-head :
    (millis : ℕ → ℕ → ℤ) (fuel boxlen level : ℕ) (s s1 s2 : Parser) (b : Box)
    → read_head s ≡ (some b, s1)
    → (boxlen == 0) ≡ false
    → note_box b level s1 ≡ s2
    → parse_boxes millis (suc fuel) boxlen level s
      ≡ parse_box millis (parse_boxes millis fuel) b boxlen level (check_free b level s2)
unfolding parse_boxes
parse_boxes-head millis fuel boxlen level s s1 s2 b head nonzero noted =
    rw (parse_boxes, head, nonzero, noted) refl

pub check_free-off :
    (b : Box) (level : ℕ) (s : Parser) → s.checkforfree ≡ false → check_free b level s ≡ (false, s)
unfolding check_free
check_free-off b level s c = rw (check_free, c) refl

module _ (millis : ℕ → ℕ → ℤ) (nm tag body : Bytes) (named : shown_name nm ≡ tag)
    (k : length nm ≡ 4) (o : IsOrdinary tag) (short : boxhead_sz + length body < 2 ^ 32) where
  abbrev pub item : Box
  item = make_box (boxhead_sz + length body) boxhead_sz nm

  item-len : item.len ≡ length body
  item-len = omega (arith, short)

  note_box-item : (level : ℕ) (s : Parser) → note_box item level s ≡ s
  note_box-item level s =
      note_box-none item level s (rw named o.not_meta) (rw named o.not_udta) (rw named o.not_ilst)
        (rw named o.not_stco) (rw named o.not_co64)

  descends-item : descends item ≡ false
  descends-item =
      rw
        (
          named, o.not_moov, o.not_trak, o.not_udta, o.not_mdia, o.not_stbl, o.not_minf, o.not_ilst,
          o.not_meta,
        )
        refl

  process_box-item :
      (s : Parser) (l : Libmp4tag)
      → s.processdata ≡ true
      → process_tag s.tags tag (length body) body ≡ Outcome.done l
      → process_box millis item body s ≡ Parsed.done (record s { tags = l })
  unfolding process_box
  process_box-item s l p run =
      let small : length body % 2 ^ 32 ≡ length body = omega (arith, short) in
      rw (process_box, named, o.not_mdhd, p, o.not_covr, item-len, small, run) refl

  -- A round of the loop reads an item's box.
  pub parse_boxes-item :
      (fuel boxlen level : ℕ) (s : Parser) (l : Libmp4tag) (tail : Bytes)
      → rest_of s ≡ box nm body ++ tail
      → 0 < length body
      → s.processdata ≡ true
      → s.checkforfree ≡ false
      → (boxlen == 0) ≡ false
      → process_tag s.tags tag (length body) body ≡ Outcome.done l
      → parse_boxes millis (suc fuel) boxlen level s
        ≡ next_box (parse_boxes millis fuel) item boxlen level (record s {
          offset = s.offset + (boxhead_sz + length body);
          tags = l;
          place = kept_place s.place;
        })
  parse_boxes-item fuel boxlen level s l tail e some_bytes p c nonzero run =
      let s1 : Parser = record s { offset = s.offset + boxhead_sz } in
      let (head, behind) = read_head-next s nm body tail e k short in
      let s2 : Parser = record s1 { place = kept_place s.place } in
      let read = data_read-append s2 (length body) body tail behind refl some_bytes in
      let there : (length body == 0) ≡ false = ground arith in
      let s3 : Parser = record s2 { offset = s.offset + boxhead_sz + length body } in
      let reads : needs_data item s2 ≡ true = needs_data-processed item s2 p in
      let done = process_box-item s3 l p run in
      let sum : s.offset + boxhead_sz + length body ≡ s.offset + (boxhead_sz + length body) =
        omega arith in
      parse_boxes-head millis fuel boxlen level s s1 s1 item head nonzero (note_box-item level s1)
      ∙ ap (parse_box millis (parse_boxes millis fuel) item boxlen level)
          (check_free-off item level s1 c)
      ∙ parse_box-read millis (parse_boxes millis fuel) item boxlen level s1 s3
          (record s3 { tags = l }) body descends-item (rw named o.not_moov) (rw named o.not_ilst)
          reads (rw item-len there) (rw item-len read) done
      ∙ ap
          (λ (x : ℕ).
            next_box (parse_boxes millis fuel) item boxlen level
              (record s3 { tags = l; offset = x }))
          sum
