-- ===== src/Api/Samples.antt =====
-- A small tag list and a small file, on which the operations are run.
use libmp4tag.Api.{lookup_tag}
use libmp4tag.Api.Update.{IsTextTag}
use libmp4tag.CString.{Bytes, codes, strcmp, starts_with, strtok}
use libmp4tag.Const.Table.{mp4taglist, Mp4tagdef}
use libmp4tag.Const.{copyright, mp4tag_ident, id_string, pri_max}
use libmp4tag.Files.{FileSystem}
use libmp4tag.Prelude.{ℕ, ◌*◌, ◌/◌, ◌≡◌, refl, arith, true, false, none, some, [], ◌∷◌, ◌++◌}
use libmp4tag.Prelude.Int.{ℤ, pos}
use libmp4tag.Search.{bsearch}
use libmp4tag.Tags.Consistent.{IsConsistent}
use libmp4tag.Tags.Find.{find_tag, check_tag}
use libmp4tag.Tags.Name.{parse_tagname}
use libmp4tag.Tags.{Mp4tag, Libmp4tag, Mp4error, mp4tag_compare, mp4tag_compare_list, compare_name}

abbrev pub parsed_file : Libmp4tag
parsed_file = record {
  libmp4tagident = mp4tag_ident;
  tags = none;
  tagalloccount = 0;
  datacount = 0;
  iterator = 0;
  mp4error = Mp4error.ok;
  parsed = true;
}

-- A file system with no file.
abbrev pub no_files : FileSystem
no_files = record { stat_size = λ p. none; open_read = λ p. none }

abbrev pub title : Mp4tag
title = record {
  tag = some (copyright "nam");
  value = some (codes "Song");
  covername = none;
  datalen = 4;
  dataidx = pos 0;
  idx = 0;
  identtype = id_string;
  internallen = 4;
  priority = pos pri_max;
  binary = false;
}

-- A structure that holds one tag.
abbrev pub titled : Libmp4tag
titled = record parsed_file { tags = some (title ∷ []); tagalloccount = 10 }

pub parsed_file-IsConsistent : IsConsistent parsed_file
parsed_file-IsConsistent = record {
  ident = refl;
  tags = record { sorted = tt; numbered = tt };
  room = omega arith;
  no_array = λ e. refl;
}

pub titled-IsConsistent : IsConsistent titled
titled-IsConsistent = record {
  ident = refl;
  tags = record { sorted = (tt, tt); numbered = (refl, tt) };
  room = omega arith;
  no_array = λ e. cc;
}

abbrev pub nam_def : Mp4tagdef
nam_def = record { priority = pos 0; tag = copyright "nam"; identtype = id_string; len = 0 }

pub nam-IsTextTag : IsTextTag (copyright "nam") nam_def
unfolding check_tag parse_tagname mp4taglist bsearch mp4tag_compare_list compare_name strcmp
    starts_with strtok
nam-IsTextTag = record { known = refl; text = refl; not_cover = refl; name_not_cover = refl }

pub title_found : lookup_tag titled (copyright "nam") ≡ some (0, title)
unfolding lookup_tag find_tag parse_tagname bsearch mp4tag_compare compare_name strcmp starts_with
    strtok
title_found = refl

abbrev pub nul : ℕ → Bytes
nul n = 0 ∷ 0 ∷ 0 ∷ n ∷ []

-- The file type, the duration, and a list with one title.
abbrev pub ftyp : Bytes
ftyp = nul 20 ++ codes "ftyp" ++ codes "M4A " ++ (0 ∷ 0 ∷ 2 ∷ 0 ∷ []) ++ codes "mp42"

abbrev pub title_box : Bytes
title_box = nul 26 ++ (0xa9 ∷ codes "nam") ++ nul 18 ++ codes "data" ++ nul 1 ++ nul 0 ++ codes "ab"

abbrev pub contents : Bytes
contents =
    ftyp
    ++ nul 62
    ++ codes "moov"
    ++ nul 54
    ++ codes "udta"
    ++ nul 46
    ++ codes "meta"
    ++ nul 0
    ++ nul 34
    ++ codes "ilst"
    ++ title_box

abbrev pub one_file : FileSystem
one_file = record { stat_size = λ fn. some 82; open_read = λ fn. some contents }

abbrev pub millis : ℕ → ℕ → ℤ
millis duration timescale = pos (duration * 1000 / timescale)
