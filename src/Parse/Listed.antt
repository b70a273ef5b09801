-- ===== src/Parse/Listed.antt =====
-- mp4tag_parse_file of mp4tagparse.c on all the boxes of a tag list.
use libmp4tag.CString.{Bytes, str_eq}
use libmp4tag.Const.{boxhead_sz}
use libmp4tag.Parse.Boxes.{Box, make_box, shown_name, leave_level}
use libmp4tag.Parse.Contents.{IsOrdinary, kept_place, parse_boxes-item}
use libmp4tag.Parse.Reading.{rest_of-moved}
use libmp4tag.Parse.File.{Parsed, next_box, parse_boxes}
use libmp4tag.Parse.Groups.{next_box-more, next_box-last, put-here}
use libmp4tag.Parse.RoundTrip.{
  IsPlain, IsRead, read_back, read_back_from, last_tag-append, length-items_of,
  process_tag-items_of,
}
use libmp4tag.Parse.State.{Parser, put, rest_of}
use libmp4tag.Parse.Tag.{Outcome, process_tag}
use libmp4tag.Prelude.{
  ℕ, zero, suc, ◌+◌, ◌-◌, ◌^◌, ◌<◌, ◌≡◌, ◌≢◌, refl, sym, ap, ◌∙◌, true, false, some, List, [], ◌∷◌,
  ◌++◌, All, length, ◌==◌, length-append, arith,
}
use libmp4tag.Prelude.Int.{ℤ, pos}
use libmp4tag.Tags.Add.{last_tag, next_dataidx}
use libmp4tag.Tags.{Mp4tag, Libmp4tag, list_of}
use libmp4tag.Write.Array.{box, length-box}
use libmp4tag.Write.Groups.{Group, group_items, contents}
use libmp4tag.Write.Place.{Layout}
use mathlib.Core.List.{append_assoc, append-nil}

-- What the parser makes of them.
abbrev pub tags_read : List Group → List Mp4tag
tags_read [] = []
tags_read (g ∷ gs) = read_back_from g.tag 0 (g.first ∷ g.more) ++ tags_read gs

pub record IsGroup (g : Group) : Type 0 where
  pub named : shown_name g.nm ≡ g.tag
  pub four : length g.nm ≡ 4
  pub plain : IsPlain g.tag
  pub ordinary : IsOrdinary g.tag
  pub texts : All IsRead (g.first ∷ g.more)
  pub short : boxhead_sz + length (group_items g) < 2 ^ 32

-- Each name is in one box.
abbrev pub AreApart : List Group → Type 0
AreApart [] = Unit
AreApart (g ∷ []) = Unit
AreApart (g ∷ h ∷ gs) = (str_eq g.tag h.tag ≡ false) × AreApart (h ∷ gs)

-- What a level leaves of a parser, but for the entries of its own level and the flags for the bug.
pub record HasRead (s : Parser) (level n : ℕ) (ts : List Mp4tag) (s' : Parser) : Type 0 where
  pub tags : list_of s'.tags.tags ≡ list_of s.tags.tags ++ ts
  pub offset : s'.offset ≡ s.offset + n
  pub file : s'.file ≡ s.file
  pub taglist_orig_len : s'.taglist_orig_len ≡ s.taglist_orig_len
  pub place : s'.place ≡ kept_place s.place
  pub processdata : s'.processdata ≡ s.processdata
  pub checkforfree : s'.checkforfree ≡ s.checkforfree
  pub parsedone : s'.parsedone ≡ s.parsedone
  pub canwrite : s'.canwrite ≡ s.canwrite
  pub print_structure : s'.print_structure ≡ s.print_structure
  pub others : (j : ℕ) → j ≢ level → s'.rem_length j ≡ s.rem_length j

next_dataidx-other :
    (prev : Mp4tag) (tag other : Bytes)
    → prev.tag ≡ some tag
    → str_eq tag other ≡ false
    → next_dataidx (some prev) other ≡ pos 0
next_dataidx-other prev tag other e d = rw (e, d) refl

-- Behind the texts under a name the index of another name begins at 0.
next_dataidx-apart :
    (xs : List Mp4tag) (tag other : Bytes) (d : ℕ) (t : Mp4tag) (ts : List Mp4tag)
    → str_eq tag other ≡ false
    → next_dataidx (last_tag (xs ++ read_back_from tag d (t ∷ ts))) other ≡ pos 0
next_dataidx-apart xs tag other d t [] h =
    rw (last_tag-append xs (read_back tag d t))
      (next_dataidx-other (read_back tag d t) tag other refl h)
next_dataidx-apart xs tag other d t (u ∷ ts) h =
    let flat : (xs ++ (read_back tag d t ∷ [])) ++ read_back_from tag (suc d) (u ∷ ts)
        ≡ xs ++ read_back_from tag d (t ∷ u ∷ ts) =
      append_assoc xs (read_back tag d t ∷ []) (read_back_from tag (suc d) (u ∷ ts)) in
    rw (← flat) (next_dataidx-apart (xs ++ (read_back tag d t ∷ [])) tag other (suc d) u ts h)

pub kept_place_twice : (l : Layout) → kept_place (kept_place l) ≡ kept_place l
kept_place_twice l = ground arith

pub put-other : (f : ℕ → ℤ) (i j : ℕ) (v : ℤ) → j ≢ i → put f i v j ≡ f j
put-other f i j v h = ground arith

abbrev group_box : Group → Box
group_box g = make_box (boxhead_sz + length (group_items g)) boxhead_sz g.nm

pub length-group :
    (g : Group) (gs : List Group)
    → IsGroup g
    → length (contents (g ∷ gs)) ≡ boxhead_sz + length (group_items g) + length (contents gs)
length-group g gs h = omega (
  arith,
  length-append (box g.nm (group_items g)) (contents gs),
  length-box g.nm (group_items g) h.four,
)

group_items-pos : (g : Group) → IsGroup g → 0 < length (group_items g)
group_items-pos g h = omega (arith, length-items_of (g.first ∷ g.more) h.texts)

module _ (millis : ℕ → ℕ → ℤ) (boxlen level : ℕ) (nonzero : (boxlen == 0) ≡ false) where
  -- Behind the first box.
  abbrev stored_group : Parser → Group → Libmp4tag → Parser
  stored_group s g l = record s {
    offset = s.offset + (boxhead_sz + length (group_items g));
    tags = l;
    place = kept_place s.place;
  }

  abbrev left_over : Parser → Group → Libmp4tag → ℕ → Parser
  left_over s g l r = record (stored_group s g l) {
    rem_length = put s.rem_length level (pos (r - (boxhead_sz + length (group_items g))));
  }

  parse_boxes-group :
      (fuel : ℕ) (s : Parser) (g : Group) (l : Libmp4tag) (tail : Bytes)
      → IsGroup g
      → rest_of s ≡ box g.nm (group_items g) ++ tail
      → s.processdata ≡ true
      → s.checkforfree ≡ false
      → process_tag s.tags g.tag (length (group_items g)) (group_items g) ≡ Outcome.done l
      → parse_boxes millis (suc fuel) boxlen level s
        ≡ next_box (parse_boxes millis fuel) (group_box g) boxlen level (stored_group s g l)
  parse_boxes-group fuel s g l tail h e p c run =
      parse_boxes-item millis g.nm g.tag (group_items g) h.named h.four h.ordinary h.short fuel
        boxlen level s l tail e (group_items-pos g h) p c nonzero run

  group_tags :
      (s : Parser) (g : Group)
      → IsGroup g
      → next_dataidx (last_tag (list_of s.tags.tags)) g.tag ≡ pos 0
      → (l : Libmp4tag) × (process_tag s.tags g.tag (length (group_items g)) (group_items g)
          ≡ Outcome.done l)
        × (list_of l.tags ≡ list_of s.tags.tags ++ read_back_from g.tag 0 (g.first ∷ g.more))
  group_tags s g h d =
      process_tag-items_of g.tag h.plain s.tags g.first g.more 0 h.texts d (omega (arith, h.short))

  pub parse_boxes-contents :
      (fuel : ℕ) (s : Parser) (g : Group) (gs : List Group) (tail : Bytes)
      → All IsGroup (g ∷ gs)
      → AreApart (g ∷ gs)
      → next_dataidx (last_tag (list_of s.tags.tags)) g.tag ≡ pos 0
      → rest_of s ≡ contents (g ∷ gs) ++ tail
      → s.processdata ≡ true
      → s.checkforfree ≡ false
      → s.rem_length level ≡ pos (length (contents (g ∷ gs)))
      → length (contents (g ∷ gs)) < 2 ^ 63
      → length gs < fuel
      → (s' : Parser) × (parse_boxes millis fuel boxlen level s ≡ Parsed.done s')
        × HasRead s level (length (contents (g ∷ gs))) (tags_read (g ∷ gs)) s'
  parse_boxes-contents zero s g gs tail hs apart d e p c r small f = absurd (omega arith)
  parse_boxes-contents (suc fuel) s g [] tail hs apart d e p c r small f =
      let (l, run, all) = group_tags s g hs.0 d in
      let size = length-group g [] hs.0 in
      let whole : rest_of s ≡ box g.nm (group_items g) ++ tail =
        e ∙ append_assoc (box g.nm (group_items g)) [] tail in
      let last =
        next_box-last (parse_boxes millis fuel) (group_box g) boxlen level (stored_group s g l)
          (length (contents (g ∷ []))) (rw hs.0.named hs.0.ordinary.not_ilst) r
          (omega (arith, size)) small nonzero (omega (arith, size)) in
      (
        leave_level (group_box g) level (left_over s g l (length (contents (g ∷ [])))),
        parse_boxes-group fuel s g l tail hs.0 whole p c run ∙ last,
        record {
          tags =
              all
              ∙ ap (◌++◌ (list_of s.tags.tags))
                  (sym (append-nil (read_back_from g.tag 0 (g.first ∷ g.more))));
          offset = ap (◌+◌ s.offset) (omega (arith, size));
          file = refl;
          taglist_orig_len = refl;
          place = refl;
          processdata = refl;
          checkforfree = refl;
          parsedone = refl;
          canwrite = refl;
          print_structure = refl;
          others = λ j ne. put-other s.rem_length level j _ ne;
        },
      )
  parse_boxes-contents (suc fuel) s g (h ∷ gs) tail hs apart d e p c r small f =
      let (l, run, all) = group_tags s g hs.0 d in
      let size = length-group g (h ∷ gs) hs.0 in
      let whole : rest_of s ≡ box g.nm (group_items g) ++ (contents (h ∷ gs) ++ tail) =
        e ∙ append_assoc (box g.nm (group_items g)) (contents (h ∷ gs)) tail in
      let n = boxhead_sz + length (group_items g) in
      let left = left_over s g l (length (contents (g ∷ h ∷ gs))) in
      let more =
        next_box-more (parse_boxes millis fuel) (group_box g) boxlen level (stored_group s g l)
          (length (contents (g ∷ h ∷ gs))) (rw hs.0.named hs.0.ordinary.not_ilst) r
          (omega (arith, size)) small nonzero (omega (arith, size, length-group h gs hs.1.0)) in
      let next : next_dataidx (last_tag (list_of l.tags)) h.tag ≡ pos 0 =
        rw all (next_dataidx-apart (list_of s.tags.tags) g.tag h.tag 0 g.first g.more apart.0) in
      let behind : rest_of left ≡ contents (h ∷ gs) ++ tail =
        rest_of-moved s left n (box g.nm (group_items g)) (contents (h ∷ gs) ++ tail) refl refl
          whole (length-box g.nm (group_items g) hs.0.four) in
      let rem : left.rem_length level ≡ pos (length (contents (h ∷ gs))) =
        put-here s.rem_length level _ ∙ ap pos (omega (arith, size)) in
      let (s', rest, read) =
        parse_boxes-contents fuel left h gs tail hs.1 apart.1 next behind p c rem
          (omega (arith, size)) (omega arith) in
      (
        s',
        parse_boxes-group fuel s g l (contents (h ∷ gs) ++ tail) hs.0 whole p c run ∙ more ∙ rest,
        record {
          tags =
              read.tags
              ∙ ap (λ (us : List Mp4tag). us ++ tags_read (h ∷ gs)) all
              ∙ append_assoc (list_of s.tags.tags) (read_back_from g.tag 0 (g.first ∷ g.more))
                  (tags_read (h ∷ gs));
          offset = read.offset ∙ omega (arith, size);
          file = read.file;
          taglist_orig_len = read.taglist_orig_len;
          place = read.place ∙ kept_place_twice s.place;
          processdata = read.processdata;
          checkforfree = read.checkforfree;
          parsedone = read.parsedone;
          canwrite = read.canwrite;
          print_structure = read.print_structure;
          others = λ j ne. read.others j ne ∙ put-other s.rem_length level j _ ne;
        },
      )
