-- ===== src/Parse/Tests.antt =====
-- Runs of the parser.
use libmp4tag.CString.{Bytes, codes, strcmp, starts_with, strtok}
use libmp4tag.Parse.Integers.{
  Width, size, number_text, IsNumeric, number_item, typed_item, number_tag, process_tag-append_item,
}
use libmp4tag.Parse.Overlong.{process_tag-build_append}
use libmp4tag.Parse.Print.{decimal}
use libmp4tag.Parse.RoundTrip.{read_back_from, process_tag-items_of}
use libmp4tag.Parse.Tag.{Outcome, process_tag}
use libmp4tag.Api.Open.{alloc}
use libmp4tag.Parse.State.{Parser, data_read, init_tags}
use libmp4tag.Parse.Stream.{
  Delivers, StreamRead, stream_read, stream_read-data_read, stream_read_bounds,
}
use libmp4tag.Prelude.{
  false, ℕ, zero, suc, drop, ◌≤◌, ◌^◌, ◌<◌, ◌≡◌, refl, none, some, true, List, [], ◌∷◌, ◌++◌, ◌+◌,
  arith, length,
}
use libmp4tag.Tags.Name.{parse_tagname}
use libmp4tag.Tags.{Mp4tag, Libmp4tag, list_of}
use libmp4tag.Write.Bytes.{be_bytes}
use libmp4tag.Write.Groups.{Group, contents, texts}
use libmp4tag.Parse.Placed.{IsFresh, IsList, IsAtList}
use libmp4tag.Parse.Updated.{spare, new_file, parse_boxes-again}
use libmp4tag.Write.Array.{item_box, box}
use libmp4tag.Write.Place.{zeros}
use libmp4tag.Const.{data_sz, id_data, boxids, BoxId, boxhead_sz}
use libmp4tag.Prelude.Int.{pos}
use libmp4tag.Parse.File.{Parsed, parse_boxes}
use libmp4tag.Parse.Listed.{tags_read, AreApart}
use libmp4tag.Tags.{Mp4error}
use libmp4tag.Write.Rewrite.{write_data}
use libmp4tag.Parse.Written.{written, ReadsList, build_data-parse_boxes}
use libmp4tag.Write.Build.{build_data, append_item, build_append, empty_output}
use libmp4tag.Write.Item.{savelen}
use libmp4tag.Write.Runs.{items_of}
use libmp4tag.Parse.Samples.{
  genre, no_tags, catg-IsPlain, genres-IsRead, genres-IsGroup, titles-IsGroup, all_groups,
  own_texts, list_file, own_texts-texts, genres-IsSource, titles-IsSource, written-IsApartFrom,
  written-AreApart, written_fit, no_millis, genres,
}

genres_fit : length (items_of (genre (codes "Pop") ∷ genre (codes "Rock") ∷ [])) < 2 ^ 32
unfolding item_box box be_bytes
genres_fit = omega arith

process_tag-items_of_example :
    (l : Libmp4tag) × (process_tag no_tags
        (codes "catg")
        (length (items_of (genre (codes "Pop") ∷ genre (codes "Rock") ∷ [])))
        (items_of (genre (codes "Pop") ∷ genre (codes "Rock") ∷ []))
      ≡ Outcome.done l)
    × (list_of l.tags
        ≡ [] ++ read_back_from (codes "catg") 0 (genre (codes "Pop") ∷ genre (codes "Rock") ∷ []))
process_tag-items_of_example =
    process_tag-items_of (codes "catg") catg-IsPlain no_tags (genre (codes "Pop"))
      (genre (codes "Rock") ∷ []) 0 genres-IsRead refl genres_fit

-- A stream that hands out one byte at a call.
drip : Bytes → ℕ → Bytes × Bytes
drip [] n = ([], [])
drip (x ∷ xs) zero = ([], x ∷ xs)
drip (x ∷ xs) (suc n) = (x ∷ [], xs)

drip-next : (u : Bytes) (n : ℕ) → (drip u n).0 ++ (drip u n).1 ≡ u
unfolding drip
drip-next [] n = refl
drip-next (x ∷ xs) zero = refl
drip-next (x ∷ xs) (suc n) = refl

drip-at_most : (u : Bytes) (n : ℕ) → length (drip u n).0 ≤ n
unfolding drip
drip-at_most [] n = omega arith
drip-at_most (x ∷ xs) zero = omega arith
drip-at_most (x ∷ xs) (suc n) = omega arith

drip-Delivers : Delivers drip (λ u. u)
drip-Delivers = record { next = drip-next; at_most = drip-at_most }

abbrev three : Bytes
three = 1 ∷ 2 ∷ 3 ∷ []

abbrev clock : ℕ → ℕ
clock n = n

abbrev two_read : StreamRead Bytes
two_read = record { got = some (1 ∷ 2 ∷ []); moved = 2; userdata = 3 ∷ [] }

reads_two : stream_read drip clock 5 10 2 three ≡ some two_read
unfolding stream_read drip
reads_two = refl

stream_read-data_read_example :
    (data_read (record alloc { file = three }) 2
      ≡ (some (1 ∷ 2 ∷ []), record alloc { file = three; offset = 2 }))
    × (3 ∷ [] ≡ drop 2 three)
unfolding alloc init_tags
stream_read-data_read_example =
    stream_read-data_read drip clock (λ u. u) drip-Delivers (record alloc { file = three }) 5 10 2
      three two_read refl (omega arith) reads_two refl

stream_read_bounds_example :
    (2 ≤ 2)
    × (two_read.got ≡ none → 2 < 2)
    × ((bytes : Bytes) → two_read.got ≡ some bytes → (length bytes ≡ 2) × (◌≡◌ {A = ℕ} 2 2))
stream_read_bounds_example =
    stream_read_bounds drip clock (λ u. u) drip-Delivers 5 10 2 three two_read (omega arith)
      reads_two

build_data-parse_boxes_example :
    (build_data (λ i. i) own_texts ≡ some (texts all_groups, contents (written all_groups)))
    × ReadsList no_millis 3 100 3 list_file (written all_groups)
unfolding alloc init_tags
build_data-parse_boxes_example =
    build_data-parse_boxes (λ i. i) no_millis 3 100 3 list_file own_texts all_groups (codes "end")
      own_texts-texts (genres-IsSource, (titles-IsSource, tt))
      (genres-IsGroup, (titles-IsGroup, tt)) (omega arith) written-IsApartFrom written-AreApart
      written_fit refl refl refl refl refl (omega arith) (omega arith)

-- A list with one name, and room behind it for another one.
abbrev old_groups : List Group
old_groups = genres ∷ []

abbrev start : Bytes
start = codes "moovhead"

abbrev behind : Bytes
behind = codes "rest"

abbrev spaced : Parser
spaced = record alloc {
  file =
      start
      ++ (box (boxids BoxId.ilst) (contents old_groups)
          ++ (box (boxids BoxId.free) (zeros 100) ++ behind));
  offset = 8;
  tags = no_tags;
  canwrite = true;
  rem_length = λ level. pos (
      length (box (boxids BoxId.ilst) (contents old_groups))
      + length (box (boxids BoxId.free) (zeros 100)));
}

spaced_small :
    length (box (boxids BoxId.ilst) (contents old_groups))
      + length (box (boxids BoxId.free) (zeros 100))
    < 2 ^ 31
unfolding item_box box be_bytes
spaced_small = omega arith

spaced-IsFresh : IsFresh spaced.place
unfolding alloc init_tags
spaced-IsFresh = record { bounded = refl; orig = refl; interior = refl; exterior = refl }

spaced_parents : (i : ℕ) → i < 3 → spaced.place.base_offsets i + 4 ≤ length start
unfolding alloc init_tags
spaced_parents i h = omega arith

new_fits : boxhead_sz < spare old_groups all_groups (zeros 100)
unfolding item_box box be_bytes
new_fits = omega arith

groups-AreApart : AreApart all_groups
unfolding strcmp
groups-AreApart = (refl, tt)

old_groups-IsList : IsList old_groups
old_groups-IsList = record { groups = (genres-IsGroup, tt); apart = tt; some_group = omega arith }

all_groups-IsList : IsList all_groups
all_groups-IsList = record {
  groups = (genres-IsGroup, (titles-IsGroup, tt));
  apart = groups-AreApart;
  some_group = omega arith;
}

spaced-IsAtList : IsAtList spaced 3 old_groups start (zeros 100) behind
unfolding alloc init_tags
spaced-IsAtList = record {
  file = refl;
  offset = refl;
  none_yet = refl;
  checkforfree = refl;
  parsedone = refl;
  canwrite = refl;
  rem_length = refl;
  small = spaced_small;
  fresh = spaced-IsFresh;
  parents = spaced_parents;
}

-- The old list is read, the new one is written over it, and is read.
parse_boxes-again_example :
    (s' : Parser) × (s'' : Parser) × (parse_boxes no_millis 5 100 3 spaced ≡ Parsed.done s')
    × (list_of s'.tags.tags ≡ tags_read old_groups)
    × (write_data (λ fn. true) s'.place (some s'.file) (contents all_groups)
        ≡ some (record {
          fh = some (new_file old_groups all_groups start (zeros 100) behind);
          backup = none;
          bak_deleted = false;
          mp4error = Mp4error.ok;
        }))
    × (parse_boxes no_millis 5 100 3
          (record spaced { file = new_file old_groups all_groups start (zeros 100) behind })
        ≡ Parsed.done s'')
    × (list_of s''.tags.tags ≡ tags_read all_groups)
unfolding alloc init_tags
parse_boxes-again_example =
    parse_boxes-again no_millis (λ fn. true) 3 100 3 spaced old_groups all_groups start (zeros 100)
      behind old_groups-IsList all_groups-IsList spaced-IsAtList refl (omega arith) (omega arith)
      refl refl (omega arith) new_fits

tempo-IsNumeric : IsNumeric (codes "tmpo")
unfolding strcmp starts_with parse_tagname strtok
tempo-IsNumeric = record {
  plain = record { not_free = refl; not_custom = refl; not_covr = refl; name = refl };
  not_disk = refl;
  not_trkn = refl;
  not_gnre = refl;
}

-- -5 in four bytes.
process_tag-append_item_example :
    (l' : Libmp4tag) × (t : Mp4tag) × (process_tag no_tags
        (codes "tmpo")
        (length (number_item Width.four 4294967291))
        (number_item Width.four 4294967291)
      ≡ Outcome.done l')
    × (list_of l'.tags ≡ [] ++ (t ∷ []))
    × (t ≡ number_tag (codes "tmpo") 0 Width.four 4294967291)
    × (append_item (1 ∷ 2 ∷ []) (data_sz + savelen t) t
        ≡ (1 ∷ 2 ∷ []) ++ number_item Width.four 4294967291)
process_tag-append_item_example =
    process_tag-append_item (codes "tmpo") tempo-IsNumeric no_tags Width.four 0 4294967291
      (1 ∷ 2 ∷ []) (omega arith) refl

tempo_long : size Width.two < length (number_text Width.two 120)
unfolding decimal
tempo_long = omega arith

-- 120 in two bytes.
process_tag-build_append_example :
    (l' : Libmp4tag) × (t : Mp4tag) × (process_tag no_tags
        (codes "tmpo")
        (length (typed_item id_data Width.two 120))
        (typed_item id_data Width.two 120)
      ≡ Outcome.done l')
    × (list_of l'.tags ≡ [] ++ (t ∷ []))
    × (build_append (λ i. i) empty_output t ≡ none)
unfolding starts_with
process_tag-build_append_example =
    process_tag-build_append (codes "tmpo") tempo-IsNumeric refl no_tags Width.two 0 120 (λ i. i)
      empty_output (omega arith) refl tempo_long
