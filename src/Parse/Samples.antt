-- ===== src/Parse/Samples.antt =====
-- The tags and boxes that the runs of the parser share.
use libmp4tag.CString.{Bytes, codes, strcmp, starts_with, c_string, strtok}
use libmp4tag.Const.{boxids, BoxId, boxhead_sz, id_string}
use libmp4tag.Parse.RoundTrip.{IsPlain, IsRead}
use libmp4tag.Parse.Listed.{IsGroup, AreApart}
use libmp4tag.Api.Open.{alloc}
use libmp4tag.Parse.State.{Parser}
use libmp4tag.Prelude.{
  ℕ, ◌^◌, ◌<◌, ◌≡◌, refl, false, none, some, List, [], ◌+◌, map, ◌∷◌, ◌++◌, All, arith, length,
}
use libmp4tag.Prelude.Int.{ℤ, pos}
use libmp4tag.Tags.Find.{check_tag}
use libmp4tag.Search.{bsearch}
use libmp4tag.Const.Table.{mp4taglist}
use libmp4tag.Tags.Name.{parse_tagname}
use libmp4tag.Tags.{Mp4tag, Libmp4tag, Mp4error, mp4tag_compare_list, compare_name}
use libmp4tag.Write.Array.{IsText, item_box, box}
use libmp4tag.Write.Bytes.{be_bytes, be_value}
use libmp4tag.Write.Groups.{Group, contents, texts, IsSource, IsApartFrom}
use libmp4tag.Parse.Written.{written}
use libmp4tag.Write.Build.{box_name, set_priority}
use libmp4tag.Write.Item.{box_ident}

abbrev pub genre : Bytes → Mp4tag
genre value = record {
  tag = some (codes "catg");
  value = some value;
  covername = none;
  datalen = length value;
  dataidx = pos 0;
  idx = 0;
  identtype = id_string;
  internallen = length value;
  priority = pos 7;
  binary = false;
}

genre-IsText : (value : Bytes) → IsText (genre value)
unfolding strcmp
genre-IsText value = record { text = refl; not_trkn = refl; len = refl; no_covername = refl }

abbrev pub no_tags : Libmp4tag
no_tags = record {
  libmp4tagident = 0;
  tags = none;
  tagalloccount = 0;
  datacount = 0;
  iterator = 0;
  mp4error = Mp4error.ok;
  parsed = false;
}

pub catg-IsPlain : IsPlain (codes "catg")
unfolding strcmp starts_with parse_tagname
catg-IsPlain = record { not_free = refl; not_custom = refl; not_covr = refl; name = refl }

pub genres-IsRead : All IsRead (genre (codes "Pop") ∷ genre (codes "Rock") ∷ [])
genres-IsRead = (
  record { text = genre-IsText (codes "Pop"); nonempty = omega arith },
  (record { text = genre-IsText (codes "Rock"); nonempty = omega arith }, tt),
)

-- A box with two texts, and one with one under a name with the copyright sign.
abbrev title_name : Bytes
title_name = 194 ∷ 169 ∷ codes "nam"

abbrev title : Mp4tag
title = record (genre (codes "Song")) { tag = some title_name; priority = pos 0 }

title-IsText : IsText title
unfolding strcmp
title-IsText = record { text = refl; not_trkn = refl; len = refl; no_covername = refl }

abbrev pub genres : Group
genres = record {
  nm = codes "catg";
  tag = codes "catg";
  first = genre (codes "Pop");
  more = genre (codes "Rock") ∷ [];
}

abbrev titles : Group
titles = record { nm = 169 ∷ codes "nam"; tag = title_name; first = title; more = [] }

pub genres-IsGroup : IsGroup genres
unfolding item_box box be_bytes strcmp c_string be_value
genres-IsGroup = record {
  named = refl;
  four = refl;
  plain = catg-IsPlain;
  ordinary = record {
    not_moov = refl;
    not_trak = refl;
    not_udta = refl;
    not_mdia = refl;
    not_stbl = refl;
    not_minf = refl;
    not_ilst = refl;
    not_meta = refl;
    not_stco = refl;
    not_co64 = refl;
    not_mdhd = refl;
    not_covr = refl;
  };
  texts = genres-IsRead;
  short = omega arith;
}

pub titles-IsGroup : IsGroup titles
unfolding item_box box be_bytes strcmp starts_with parse_tagname c_string be_value strtok
titles-IsGroup = record {
  named = refl;
  four = refl;
  plain = record { not_free = refl; not_custom = refl; not_covr = refl; name = refl };
  ordinary = record {
    not_moov = refl;
    not_trak = refl;
    not_udta = refl;
    not_mdia = refl;
    not_stbl = refl;
    not_minf = refl;
    not_ilst = refl;
    not_meta = refl;
    not_stco = refl;
    not_co64 = refl;
    not_mdhd = refl;
    not_covr = refl;
  };
  texts = (record { text = title-IsText; nonempty = omega arith }, tt);
  short = omega arith;
}

abbrev pub all_groups : List Group
all_groups = genres ∷ titles ∷ []

abbrev pub own_texts : List Mp4tag
own_texts = genre (codes "Pop") ∷ genre (codes "Rock") ∷ title ∷ []

abbrev pub list_file : Parser
list_file = record alloc {
  file = box (boxids BoxId.ilst) (contents (written all_groups)) ++ codes "end";
  tags = no_tags;
}

pub own_texts-texts : map set_priority own_texts ≡ texts all_groups
unfolding set_priority starts_with check_tag bsearch mp4taglist mp4tag_compare_list compare_name
    strcmp
own_texts-texts = refl

pub genres-IsSource : IsSource genres
unfolding box_ident strcmp starts_with
genres-IsSource = record {
  named = refl;
  not_custom = refl;
  texts =
      ((genre-IsText (codes "Pop"), refl, refl), ((genre-IsText (codes "Rock"), refl, refl), tt));
  short = genres-IsGroup.short;
}

pub titles-IsSource : IsSource titles
unfolding box_ident strcmp starts_with
titles-IsSource = record {
  named = refl;
  not_custom = refl;
  texts = ((title-IsText, refl, refl), tt);
  short = titles-IsGroup.short;
}

pub written-IsApartFrom : IsApartFrom [] (written all_groups)
unfolding box_name strcmp c_string
written-IsApartFrom = (refl, (refl, tt))

pub written-AreApart : AreApart (written all_groups)
unfolding strcmp
written-AreApart = (refl, tt)

pub written_fit : boxhead_sz + length (contents (written all_groups)) < 2 ^ 32
unfolding item_box box be_bytes
written_fit = omega arith

abbrev pub no_millis : ℕ → ℕ → ℤ
no_millis duration rate = pos 0
