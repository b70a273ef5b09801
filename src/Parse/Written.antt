-- ===== src/Parse/Written.antt =====
-- mp4tag_build_data of mp4tagwrite.c and mp4tag_parse_file of mp4tagparse.c: a tag list that is written
-- is read.
use libmp4tag.CString.{Bytes}
use libmp4tag.Const.{boxids, BoxId, boxhead_sz, level_max, pri_max}
use libmp4tag.Parse.File.{next_box, parse_boxes}
use libmp4tag.Parse.ListBox.{ListRead, list_box, parse_boxes-list}
use libmp4tag.Parse.Listed.{IsGroup, AreApart, tags_read}
use libmp4tag.Parse.State.{Parser, rest_of}
use libmp4tag.Prelude.{
  ℕ, zero, suc, ◌+◌, ◌^◌, ◌<◌, ◌≡◌, ap, false, some, List, [], ◌∷◌, ◌++◌, All, map, length, ◌==◌,
  if_ind, arith,
}
use libmp4tag.Prelude.Int.{ℤ}
use libmp4tag.Tags.Add.{last_tag, next_dataidx}
use libmp4tag.Tags.{Mp4tag, list_of}
use libmp4tag.Write.Array.{box}
use libmp4tag.Write.Build.{set_priority, build_data}
use libmp4tag.Write.Groups.{
  Group, contents, texts, pri_of, of_priority, by_priority, IsSource, IsApartFrom,
  build_data-contents,
}

All-append : (P : Group → Type 0) (gs hs : List Group) → All P gs → All P hs → All P (gs ++ hs)
All-append P [] hs a b = b
All-append P (g ∷ gs) hs (p, a) b = (p, All-append P gs hs a b)

All-of_priority :
    (P : Group → Type 0) (p : ℕ) (gs : List Group) → All P gs → All P (of_priority p gs)
All-of_priority P p [] a = a
All-of_priority P p (g ∷ gs) (h, a) =
    if_ind (All P) (pri_of g == p) (λ e. (h, All-of_priority P p gs a))
      (λ e. All-of_priority P p gs a)

All-by_priority :
    (P : Group → Type 0) (n p : ℕ) (gs : List Group) → All P gs → All P (by_priority n p gs)
All-by_priority P zero p gs a = tt
All-by_priority P (suc n) p gs a =
    All-append P (of_priority p gs) (by_priority n (suc p) gs) (All-of_priority P p gs a)
      (All-by_priority P n (suc p) gs a)

abbrev pub written : List Group → List Group
written gs = by_priority pri_max 0 gs

-- What a run of the loop of mp4tag_parse_file reads of the box of the list.
abbrev pub ReadsList : (ℕ → ℕ → ℤ) → ℕ → ℕ → ℕ → Parser → List Group → Type 0
ReadsList millis fuel boxlen level s gs =
    (s' : Parser) × (parse_boxes millis (suc fuel) boxlen level s
      ≡ next_box (parse_boxes millis fuel) (list_box (length (contents gs))) boxlen level s')
    × ListRead s level (length (contents gs)) (tags_read gs) s'

pub parse_boxes-ReadsList :
    (millis : ℕ → ℕ → ℤ) (fuel boxlen level : ℕ) (s : Parser) (gs : List Group) (tail : Bytes)
    → 0 < length gs
    → All IsGroup gs
    → AreApart gs
    → boxhead_sz + length (contents gs) < 2 ^ 32
    → list_of s.tags.tags ≡ []
    → rest_of s ≡ box (boxids BoxId.ilst) (contents gs) ++ tail
    → s.checkforfree ≡ false
    → s.parsedone ≡ false
    → (boxlen == 0) ≡ false
    → level + 1 < level_max
    → length gs < fuel
    → ReadsList millis fuel boxlen level s gs
parse_boxes-ReadsList millis fuel boxlen level s [] tail some_group hs apart short none_yet at c p
      nonzero room enough =
    absurd (omega arith)
parse_boxes-ReadsList millis fuel boxlen level s (g ∷ gs) tail some_group hs apart short none_yet at
      c p nonzero room enough =
    parse_boxes-list millis boxlen level nonzero room fuel s g gs tail hs apart
      (ap (λ us. next_dataidx (last_tag us) g.tag) none_yet) at c p short (omega arith)

-- For tags that, with the priorities of the table, are the texts of groups (each of one name and one
-- priority, with values that are not empty, of string type, with the length of their value, with no
-- cover name, and not trkn; the name is no custom one, no cover's and none that the parser does
-- something else for, and has no index in it, and its four bytes are shown as the name; a box of
-- less than 2 ^ 32 bytes), where no box has the name of the box written before it, as it is written
-- or as it is shown: mp4tag_build_data makes one box for each group, in the order of the priorities.
-- And if there is a group, the list's box with this data takes less than 2 ^ 32 bytes and is what a
-- file has next, no tag is read yet, no free box is looked for, the parse is not over, the level has
-- a length and is not the deepest one, and the fuel is more than the number of boxes, then the round
-- of mp4tag_parse_file at this box comes to the end of the box with the texts of the groups in the
-- order of their boxes, with the names, the values and lengths they had and indexes from 0 on for
-- each name; the position is behind the box, the fields for the place of the list are those of the
-- box in the file, tags are no longer read, free boxes are looked for if the file can be written,
-- and the other levels' lengths are kept.
pub build_data-parse_boxes :
    (fresh : ℕ → ℕ) (millis : ℕ → ℕ → ℤ) (fuel boxlen level : ℕ) (s : Parser) (ts : List Mp4tag)
    (gs : List Group) (tail : Bytes)
    → map set_priority ts ≡ texts gs
    → All IsSource gs
    → All IsGroup gs
    → 0 < length (written gs)
    → IsApartFrom [] (written gs)
    → AreApart (written gs)
    → boxhead_sz + length (contents (written gs)) < 2 ^ 32
    → list_of s.tags.tags ≡ []
    → rest_of s ≡ box (boxids BoxId.ilst) (contents (written gs)) ++ tail
    → s.checkforfree ≡ false
    → s.parsedone ≡ false
    → (boxlen == 0) ≡ false
    → level + 1 < level_max
    → length (written gs) < fuel
    → (build_data fresh ts ≡ some (texts gs, contents (written gs)))
      × ReadsList millis fuel boxlen level s (written gs)
build_data-parse_boxes fresh millis fuel boxlen level s ts gs tail e src grp some_group from apart
      short none_yet at c p nonzero room enough =
    (
      build_data-contents fresh ts gs e src from,
      parse_boxes-ReadsList millis fuel boxlen level s (written gs) tail some_group
          (All-by_priority IsGroup pri_max 0 gs grp) apart short none_yet at c p nonzero room
          enough,
    )
