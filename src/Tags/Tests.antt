-- ===== src/Tags/Tests.antt =====
-- Runs of the operations on the tag list.
use libmp4tag.CString.{Bytes, codes, strcmp, starts_with}
use libmp4tag.Const.Table.{Mp4tagdef, mp4taglist}
use libmp4tag.Const.{mp4tag_ident, id_string, pri_max}
use libmp4tag.Prelude.{ℕ, ◌≡◌, refl, true, false, none, some, List, [], ◌∷◌, arith, length}
use libmp4tag.Prelude.Int.{pos}
use libmp4tag.Search.{bsearch}
use libmp4tag.Tags.Consistent.{IsConsistent}
use libmp4tag.Tags.Find.{check_tag}
use libmp4tag.Tags.{Mp4tag, Libmp4tag, Mp4error, mp4tag_compare, mp4tag_compare_list, compare_name}

abbrev text_tag : Bytes → Bytes → ℕ → Mp4tag
text_tag name value idx = record {
  tag = some name;
  value = some value;
  covername = none;
  datalen = length value;
  dataidx = pos 0;
  idx = idx;
  identtype = id_string;
  internallen = length value;
  priority = pos pri_max;
  binary = false;
}

abbrev two_tags : List Mp4tag
two_tags = text_tag (codes "aART") (codes "A") 0 ∷ text_tag (codes "desc") (codes "D") 1 ∷ []

abbrev listed : Libmp4tag
listed = record {
  libmp4tagident = mp4tag_ident;
  tags = some two_tags;
  tagalloccount = 10;
  datacount = 0;
  iterator = 0;
  mp4error = Mp4error.ok;
  parsed = true;
}

listed-IsConsistent : IsConsistent listed
unfolding mp4tag_compare compare_name strcmp
listed-IsConsistent = record {
  ident = refl;
  tags = record { sorted = (((λ e. cc), tt), (tt, tt)); numbered = (refl, (refl, tt)) };
  room = omega arith;
  no_array = λ e. cc;
}

abbrev desc_def : Mp4tagdef
desc_def = record { priority = pos 7; tag = codes "desc"; identtype = id_string; len = 0 }

desc_known : check_tag (some (codes "desc")) ≡ some desc_def
unfolding check_tag mp4taglist bsearch mp4tag_compare_list compare_name strcmp starts_with
desc_known = refl
