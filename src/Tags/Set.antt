-- ===== src/Tags/Set.antt =====
-- mp4tag_set_tag_string, mp4tag_set_tag_binary and mp4tag_check_covr of mp4tagutil.c. A string
-- argument that may be NULL is an `Option`; `idx` is `none` where the source passes -1.
use libmp4tag.CString.{Bytes, codes, starts_with, str_eq, strrchr, tolower}
use libmp4tag.Const.Table.{Mp4tagdef}
use libmp4tag.Const.{boxids, BoxId, id_string, id_num, id_data, id_jpg, id_png}
use libmp4tag.Prelude.{
  ℕ, Bool, not, ◌&&◌, ◌||◌, Option, none, some, List, map, ◌==◌, if◌then◌else◌, length, take,
  get_elem?, set,
}
use libmp4tag.Prelude.Int.{ℤ, pos, is_positive}
use libmp4tag.Tags.Add.{add_tag}
use libmp4tag.Tags.Find.{check_tag, sort_tags}
use libmp4tag.Tags.Name.{TagName, parse_tagname}
use libmp4tag.Tags.{Mp4tag, Libmp4tag, Mp4error, list_of, has_ident}

abbrev pub is_tag : Bytes → BoxId → Bool
is_tag tag b = starts_with tag (boxids b)

-- mp4error is set and returned.
abbrev pub fail : Libmp4tag → Mp4error → Libmp4tag × Mp4error
fail l e = (record l { mp4error = e }, e)

-- The tag at `i` is changed, and mp4error is returned as it stands.
abbrev pub update_tag : Libmp4tag → ℕ → Mp4tag → Libmp4tag × Mp4error
update_tag l i t = (record l { tags = some (set (list_of l.tags) i t) }, l.mp4error)

-- The extension is compared in lower case, as far as nine bytes.
covr_type : Bytes → ℕ
covr_type ext =
    if str_eq ext (codes ".png")
    then id_png
    else if str_eq ext (codes ".jpg")
    then id_jpg
    else if str_eq ext (codes ".jpeg")
    then id_jpg
    else id_data

unfoldable pub check_covr : Bytes → Option Bytes → ℕ
unfolding covr_type
check_covr tag none = id_data
check_covr tag (some fn) =
    if is_tag tag BoxId.covr
    then elim (strrchr fn b'.') [ none ↦ id_jpg | some p ↦ covr_type (map tolower (take 9 p)) ]
    else id_data

-- An existing tag: only the name of a cover, or a value that is a string, can be set.
unfoldable pub set_existing_string :
    Libmp4tag → Bytes → TagName → ℕ → Mp4tag → Bytes → Libmp4tag × Mp4error
set_existing_string l tag parsed i t value =
    if is_tag tag BoxId.covr
    then if is_positive parsed.offset
      then update_tag l i (record t { covername = some value })
      else fail l Mp4error.err_mismatch
    else if t.binary
    then fail l Mp4error.err_mismatch
    else update_tag l i (record t { value = some value; datalen = length value })

-- The types of data that have a string representation.
abbrev pub takes_string : Mp4tagdef → Bytes → Bool
takes_string d tag =
    d.identtype == id_string
    || d.identtype == id_num
    || (d.identtype == id_data
        && (str_eq tag (boxids BoxId.trkn) || str_eq tag (boxids BoxId.disk)))

abbrev pub set_dataidx : List Mp4tag → ℕ → ℤ → List Mp4tag
set_dataidx ts i d = elim (get_elem? ts i) [
  | none ↦ ts
  | some t ↦ set ts i (record t { dataidx = d })
]

-- mp4tag_add_tag, the parsed index, and mp4tag_sort_tags.
unfoldable pub add_string : Libmp4tag → Bytes → ℤ → Bytes → ℕ → ℕ → Libmp4tag × Mp4error
add_string l tag dataidx value tflag tlen =
    let (l', tagidx) = add_tag l tag value (pos 0) tflag tlen none in
    let ts = set_dataidx (list_of l'.tags) tagidx dataidx in
    let sorted = sort_tags (record l' { tags = some ts }) in (sorted, sorted.mp4error)

unfoldable pub add_known : Libmp4tag → Bytes → ℤ → Bytes → Mp4tagdef → Libmp4tag × Mp4error
add_known l tag dataidx value d =
    if takes_string d tag
    then add_string l tag dataidx value d.identtype
        (if d.identtype == id_string then length value else d.len)
    else fail l Mp4error.err_mismatch

-- A new tag: a custom tag, or one of the table. The name of a cover that is not there is refused.
unfoldable pub set_new_string : Libmp4tag → Bytes → TagName → Bytes → Libmp4tag × Mp4error
set_new_string l tag parsed value = elim (check_tag (some tag)) [
  | none ↦
      if is_tag tag BoxId.custom
      then add_string l tag parsed.dataidx value id_string (length value)
      else fail l Mp4error.err_tag_not_found
  | some d ↦
      if is_tag parsed.name BoxId.covr && is_positive parsed.offset
      then fail l Mp4error.err_tag_not_found
      else add_known l tag parsed.dataidx value d
]

-- The name is parsed for a new tag, and for a cover; the index of any other is not asked for.
abbrev pub parsed_for : Bytes → Option ℕ → TagName
parsed_for tag none = parse_tagname tag
parsed_for tag (some i) =
    if is_tag tag BoxId.covr
    then parse_tagname tag
    else record { name = tag; dataidx = pos 0; offset = pos 0 }

unfoldable pub set_string_at : Libmp4tag → Bytes → Bytes → Option ℕ → Libmp4tag × Mp4error
set_string_at l tag value none = set_new_string l tag (parsed_for tag none) value
set_string_at l tag value (some i) = elim (get_elem? (list_of l.tags) i) [
  | none ↦ set_new_string l tag (parsed_for tag (some i)) value
  | some t ↦ set_existing_string l tag (parsed_for tag (some i)) i t value
]

unfoldable pub set_tag_string :
    Libmp4tag → Option Bytes → Option ℕ → Option Bytes → Libmp4tag × Mp4error
set_tag_string l none idx value =
    if has_ident l then fail l Mp4error.err_null_value else (l, Mp4error.err_bad_struct)
set_tag_string l (some tag) idx none =
    if has_ident l then fail l Mp4error.err_null_value else (l, Mp4error.err_bad_struct)
set_tag_string l (some tag) idx (some value) =
    if has_ident l then set_string_at l tag value idx else (l, Mp4error.err_bad_struct)

abbrev is_pair_tag : Bytes → Bool
is_pair_tag tag = str_eq tag (boxids BoxId.trkn) || str_eq tag (boxids BoxId.disk)

-- An existing binary tag.
unfoldable pub set_existing_binary :
    Libmp4tag → Bytes → ℕ → Mp4tag → Bytes → ℕ → Option Bytes → Libmp4tag × Mp4error
set_existing_binary l tag i t value sz fn =
    if not t.binary
    then fail l Mp4error.err_mismatch
    else update_tag l i (record t {
      value = some (take sz value);
      datalen = sz;
      internallen = sz;
      identtype = check_covr tag fn;
    })

-- mp4tag_add_tag and mp4tag_sort_tags.
unfoldable pub add_binary : Libmp4tag → Bytes → Bytes → ℕ → Option Bytes → Libmp4tag × Mp4error
add_binary l tag value sz fn =
    let added = add_tag l tag value (pos sz) (check_covr tag fn) sz none in
    let sorted = sort_tags added.0 in (sorted, sorted.mp4error)

abbrev takes_binary : Mp4tagdef → Bool
takes_binary d = d.identtype == id_data || d.identtype == id_jpg || d.identtype == id_png

-- A new binary tag: custom, or of the table with a binary type. trkn and disk are strings.
unfoldable pub set_new_binary : Libmp4tag → Bytes → Bytes → ℕ → Option Bytes → Libmp4tag × Mp4error
set_new_binary l tag value sz fn =
    if is_tag tag BoxId.custom then add_binary l tag value sz fn else elim (check_tag (some tag)) [
      | none ↦ fail l Mp4error.err_tag_not_found
      | some d ↦
          if not (takes_binary d) || is_pair_tag tag
          then fail l Mp4error.err_mismatch
          else add_binary l tag value sz fn
    ]

unfoldable pub set_binary_at :
    Libmp4tag → Bytes → Bytes → ℕ → Option Bytes → Option ℕ → Libmp4tag × Mp4error
set_binary_at l tag value sz fn none = set_new_binary l tag value sz fn
set_binary_at l tag value sz fn (some i) = elim (get_elem? (list_of l.tags) i) [
  | none ↦ set_new_binary l tag value sz fn
  | some t ↦ set_existing_binary l tag i t value sz fn
]

unfoldable pub set_tag_binary :
    Libmp4tag → Option Bytes → Option ℕ → Option Bytes → ℕ → Option Bytes → Libmp4tag × Mp4error
set_tag_binary l none idx value sz fn =
    if has_ident l then fail l Mp4error.err_null_value else (l, Mp4error.err_bad_struct)
set_tag_binary l (some tag) idx none sz fn =
    if has_ident l then fail l Mp4error.err_null_value else (l, Mp4error.err_bad_struct)
set_tag_binary l (some tag) idx (some value) sz fn =
    if has_ident l then set_binary_at l tag value sz fn idx else (l, Mp4error.err_bad_struct)
