-- ===== src/Parse/ListBox.antt =====
-- mp4tag_parse_file of mp4tagparse.c on the box of the tag list.
use libmp4tag.CString.{Bytes, strcmp, c_string}
use libmp4tag.Const.{boxids, BoxId, boxhead_sz, level_max}
use libmp4tag.Parse.Boxes.{Box, make_box, note_box, after_descent, store_base, end_level}
use libmp4tag.Parse.Contents.{kept_place, keep_data_len_lem, parse_boxes-head, check_free-off}
use libmp4tag.Parse.Reading.{read_head-next}
use libmp4tag.Parse.File.{
  Parsed, and_then, box_data, enter_level, descend, skip_left, next_box, parse_box, parse_boxes,
}
use libmp4tag.Parse.Groups.{put-here}
use libmp4tag.Parse.Listed.{
  IsGroup, length-group, AreApart, tags_read, kept_place_twice, put-other, parse_boxes-contents,
}
use libmp4tag.Parse.State.{Parser, put, rest_of, data_seek}
use libmp4tag.Prelude.{
  ℕ, suc, ◌+◌, ◌-◌, ◌%◌, ◌^◌, ◌<◌, ◌≡◌, ◌≢◌, refl, ap, ◌∙◌, true, false, Bool, ◌&&◌, ◌||◌, some,
  List, ◌∷◌, ◌++◌, All, length, drop, leb, ◌==◌, arith,
}
use libmp4tag.Prelude.Int.{ℤ, pos, neg, ◌+ℤ◌}
use libmp4tag.Tags.Add.{last_tag, next_dataidx}
use libmp4tag.Tags.{Mp4tag, list_of}
use libmp4tag.Write.Array.{box}
use libmp4tag.Write.Bytes.{be_value}
use libmp4tag.Write.Groups.{Group, contents}
use libmp4tag.Write.Place.{Layout}

abbrev pub list_box : ℕ → Box
list_box n = record { boxlen = boxhead_sz + n; len = n; nm = boxids BoxId.ilst }

make_box-list :
    (n : ℕ)
    → boxhead_sz + n < 2 ^ 32
    → make_box (boxhead_sz + n) boxhead_sz (boxids BoxId.ilst) ≡ list_box n
unfolding c_string be_value
make_box-list n h = ap (λ (k : ℕ). record (list_box n) { len = k }) (omega arith)

-- Where the list is, in the fields: `at` is the place of its head.
abbrev pub listed_place : Layout → ℕ → ℕ → ℕ → Layout
listed_place l level at n = record l {
  parents = level;
  taglist_offset = at + boxhead_sz;
  taglist_base_offset = at;
  taglist_len = n;
  after_ilst_offset = at + boxhead_sz + n;
}

abbrev noted : Parser → ℕ → ℕ → Parser
noted s level n = record s {
  offset = s.offset + boxhead_sz;
  place = listed_place s.place level s.offset n;
  taglist_orig_len = n;
  processdata = true;
}

note_box-list :
    (s : Parser) (level n : ℕ)
    → 0 < n
    → boxhead_sz + n < 2 ^ 32
    → s.checkforfree ≡ false
    → note_box (list_box n) level (record s { offset = s.offset + boxhead_sz }) ≡ noted s level n
unfolding note_box strcmp
note_box-list s level n some_bytes h c =
    let there : (n == 0) ≡ false = ground arith in
    let low : n % 2 ^ 32 ≡ n = omega (arith, h) in
    let back : s.offset + boxhead_sz - boxhead_sz ≡ s.offset = omega arith in
    rw (there, low, back, c) refl

not_empty : (n : ℕ) → (boxhead_sz + n == 0) ≡ false
not_empty n = ground arith

abbrev inside : Parser → ℕ → ℕ → Parser
inside s level n = record (noted s level n) {
  offset = s.offset + boxhead_sz + 0;
  rem_length = put s.rem_length (level + 1) (pos n);
}

descend-list :
    (loop : ℕ → ℕ → Parser → Parsed) (s : Parser) (level n : ℕ)
    → 0 < n
    → boxhead_sz + n < 2 ^ 32
    → level + 1 < level_max
    → s.parsedone ≡ false
    → descend loop (list_box n) level (noted s level n)
      ≡ loop (boxhead_sz + n) (level + 1) (inside s level n)
unfolding descend enter_level store_base strcmp
descend-list loop s level n some_bytes h room p =
    let there : (n == 0) ≡ false = ground arith in
    let deep : leb level_max (level + 1) ≡ false = ground arith in
    let low : (boxhead_sz + n + (2 ^ 64 - 0)) % 2 ^ 32 ≡ boxhead_sz + n = omega (arith, h) in
    let found : (s.offset + boxhead_sz == 0) ≡ false = ground arith in
    let left : pos (boxhead_sz + n) +ℤ neg (pos boxhead_sz) ≡ pos n = ground arith in
    rw (there, found, deep, p, low, left) refl

-- What the box of the list leaves of a parser: its tags, its fields for the place of the list, and the
-- search for free boxes behind it, for a file that can be written.
pub record ListRead (s : Parser) (level n : ℕ) (ts : List Mp4tag) (s' : Parser) : Type 0 where
  pub tags : list_of s'.tags.tags ≡ list_of s.tags.tags ++ ts
  pub offset : s'.offset ≡ s.offset + (boxhead_sz + n)
  pub file : s'.file ≡ s.file
  pub taglist_orig_len : s'.taglist_orig_len ≡ n
  pub place : s'.place ≡ kept_place (listed_place s.place level s.offset n)
  pub processdata : s'.processdata ≡ false
  pub checkforfree : s'.checkforfree ≡ s.canwrite
  pub parsedone : s'.parsedone ≡ false
  pub others : (j : ℕ) → j ≢ level + 1 → s'.rem_length j ≡ s.rem_length j

abbrev behind_list : Parser → Parser
behind_list s = record s {
  offset = s.offset + 0;
  place = kept_place s.place;
  processdata = false;
  checkforfree = s.checkforfree || s.canwrite;
}

after_descent-list :
    (n : ℕ) (s : Parser) → data_seek (after_descent (list_box n) s) 0 ≡ behind_list s
unfolding after_descent strcmp
after_descent-list n s =
    ap
      (λ (t : Parser).
        data_seek (record t { processdata = false; checkforfree = t.checkforfree || t.canwrite }) 0)
      (keep_data_len_lem s)

pub not_dumped : (x : Bool) → (x && false) ≡ false
not_dumped true = refl
not_dumped false = refl

-- Behind the boxes in it nothing is read of the list's box itself.
box_data-list :
    (millis : ℕ → ℕ → ℤ) (n skiplen : ℕ) (s : Parser) (f stop : Parser → Parsed)
    → s.processdata ≡ false
    → box_data millis (list_box n) skiplen s f stop ≡ f (data_seek s skiplen)
unfolding box_data strcmp
box_data-list millis n skiplen s f stop p = rw (not_dumped s.dump_co, p) refl

skip_left-list : (n : ℕ) → 0 < n → skip_left (list_box n) ≡ 0
unfolding strcmp
skip_left-list n h = let there : (n == 0) ≡ false = ground arith in rw there refl

-- A round of the loop at the list's box, once the boxes in it are read.
parse_box-list :
    (millis : ℕ → ℕ → ℤ) (loop : ℕ → ℕ → Parser → Parsed) (s s4 : Parser) (boxlen level n : ℕ)
    → 0 < n
    → boxhead_sz + n < 2 ^ 32
    → level + 1 < level_max
    → s.parsedone ≡ false
    → loop (boxhead_sz + n) (level + 1) (inside s level n) ≡ Parsed.done s4
    → parse_box millis loop (list_box n) boxlen level (false, noted s level n)
      ≡ next_box loop (list_box n) boxlen level (behind_list s4)
unfolding parse_box after_descent strcmp
parse_box-list millis loop s s4 boxlen level n some_bytes h room p run =
    let f = next_box loop (list_box n) boxlen level in
    let after = after_descent (list_box n) s4 in
    ap
      (λ (r : Parsed). and_then r (λ t.
        box_data millis (list_box n) (skip_left (list_box n)) (after_descent (list_box n) t) f
          (λ s2. Parsed.done (end_level level s2))))
      (descend-list loop s level n some_bytes h room p ∙ run)
    ∙ box_data-list millis n (skip_left (list_box n)) after f
        (λ s2. Parsed.done (end_level level s2)) refl
    ∙ ap (λ k. f (data_seek after k)) (skip_left-list n some_bytes)
    ∙ ap f (after_descent-list n s4)

module _ (millis : ℕ → ℕ → ℤ) (boxlen level : ℕ) (nonzero : (boxlen == 0) ≡ false)
    (room : level + 1 < level_max) where
  pub parse_boxes-list :
      (fuel : ℕ) (s : Parser) (g : Group) (gs : List Group) (tail : Bytes)
      → All IsGroup (g ∷ gs)
      → AreApart (g ∷ gs)
      → next_dataidx (last_tag (list_of s.tags.tags)) g.tag ≡ pos 0
      → rest_of s ≡ box (boxids BoxId.ilst) (contents (g ∷ gs)) ++ tail
      → s.checkforfree ≡ false
      → s.parsedone ≡ false
      → boxhead_sz + length (contents (g ∷ gs)) < 2 ^ 32
      → length gs < fuel
      → (s' : Parser) × (parse_boxes millis (suc fuel) boxlen level s
          ≡ next_box
              (parse_boxes millis fuel)
              (list_box (length (contents (g ∷ gs))))
              boxlen
              level
              s')
        × ListRead s level (length (contents (g ∷ gs))) (tags_read (g ∷ gs)) s'
  parse_boxes-list fuel s g gs tail hs apart d e c p short f =
      let body = contents (g ∷ gs) in
      let n = length body in
      let some_bytes : 0 < n = omega (arith, length-group g gs hs.0) in
      let s1 : Parser = record s { offset = s.offset + boxhead_sz } in
      let (head, behind) = read_head-next s (boxids BoxId.ilst) body tail e refl short in
      let s3 = inside s level n in
      let same : rest_of s3 ≡ rest_of s1 = ap (λ k. drop k s.file) (omega arith) in
      let (s4, run, read) =
        parse_boxes-contents millis (boxhead_sz + n) (level + 1) (not_empty n) fuel s3 g gs tail hs
          apart d (same ∙ behind) refl c (put-here s.rem_length (level + 1) (pos n))
          (omega (arith, short)) f in
      (
        behind_list s4,
        parse_boxes-head millis fuel boxlen level s s1 (noted s level n) (list_box n)
              (head ∙ ap (λ (b : Box). (some b, s1)) (make_box-list n short)) nonzero
              (note_box-list s level n some_bytes short c)
            ∙ ap (parse_box millis (parse_boxes millis fuel) (list_box n) boxlen level)
                (check_free-off (list_box n) level (noted s level n) c)
            ∙ parse_box-list millis (parse_boxes millis fuel) s s4 boxlen level n some_bytes short
                room p run,
        record {
          tags = read.tags;
          offset = ap (λ k. k + 0) read.offset ∙ omega arith;
          file = read.file;
          taglist_orig_len = read.taglist_orig_len;
          place =
              ap kept_place read.place ∙ kept_place_twice (listed_place s.place level s.offset n);
          processdata = refl;
          checkforfree = ap (λ x. x || s4.canwrite) (read.checkforfree ∙ c) ∙ read.canwrite;
          parsedone = read.parsedone ∙ p;
          others = λ j ne. read.others j ne ∙ put-other s.rem_length (level + 1) j (pos n) ne;
        },
      )
