-- ===== src/Tags/Find.antt =====
-- mp4tag_sort_tags, mp4tag_find_tag and mp4tag_check_tag of mp4tagutil.c.
use libmp4tag.CString.{Bytes, starts_with}
use libmp4tag.Const.Table.{Mp4tagdef, mp4taglist}
use libmp4tag.Const.{boxids, BoxId, id_len, id_disp_len}
use libmp4tag.Prelude.{ℕ, suc, ◌-◌, Option, none, some, List, [], ◌∷◌, false, if◌then◌else◌, take}
use libmp4tag.Prelude.Int.{ℤ, pos, is_negative}
use libmp4tag.Search.{sort, bsearch}
use libmp4tag.Tags.{Mp4tag, Libmp4tag, has_ident, list_of, mp4tag_compare, mp4tag_compare_list}
use mathlib.Core.Option

-- tags [i].idx = i, from `i` on.
unfoldable pub number_from : ℕ → List Mp4tag → List Mp4tag
number_from i [] = []
number_from i (t ∷ ts) = record t { idx = i } ∷ number_from (suc i) ts

unfoldable pub sorted_tags : List Mp4tag → List Mp4tag
unfolding number_from
sorted_tags ts = number_from 0 (sort mp4tag_compare ts)

unfoldable pub sort_tags : Libmp4tag → Libmp4tag
unfolding sorted_tags
sort_tags l = if has_ident l then record l { tags = Option.map sorted_tags l.tags } else l

-- The search key: only the name and the data index are compared.
abbrev pub key_of : Bytes → ℤ → Mp4tag
key_of name dataidx = record {
  tag = some name;
  value = none;
  covername = none;
  datalen = 0;
  dataidx = dataidx;
  idx = 0;
  identtype = 0;
  internallen = 0;
  priority = pos 0;
  binary = false;
}

-- An index that is not given means the first item.
abbrev pub first_if_negative : ℤ → ℤ
first_if_negative d = if is_negative d then pos 0 else d

-- `none` is MP4TAG_NOTFOUND, -1. A list with no tags gives it too.
unfoldable pub find_tag : Libmp4tag → Option Bytes → ℤ → Option ℕ
find_tag l none dataidx = none
find_tag l (some name) dataidx =
    if has_ident l
    then Option.map (λ t. t.idx)
        (bsearch (mp4tag_compare (key_of name (first_if_negative dataidx))) (list_of l.tags))
    else none

-- The table's names have at most five bytes. "covr" may have an index behind it.
abbrev pub table_key : Bytes → Bytes
table_key tag =
    if starts_with tag (boxids BoxId.covr) then take id_len tag else take (id_disp_len - 1) tag

unfoldable pub check_tag : Option Bytes → Option Mp4tagdef
check_tag none = none
check_tag (some tag) =
    bsearch
      (mp4tag_compare_list
        (record { priority = pos 0; tag = table_key tag; identtype = 0; len = 0 }))
      mp4taglist
