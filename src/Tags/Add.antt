-- ===== src/Tags/Add.antt =====
-- mp4tag_add_tag, mp4tag_del_tag, mp4tag_free_tag, mp4tag_free_tag_by_idx and mp4tag_clone_tag of
-- mp4tagutil.c. Every allocation succeeds in the model.
use libmp4tag.CString.{Bytes, starts_with, str_eq, c_string}
use libmp4tag.Const.{boxids, BoxId, pri_max}
use libmp4tag.Prelude.{
  ℕ, zero, suc, ◌+◌, Bool, true, false, ◌&&◌, Option, none, some, List, [], ◌∷◌, ◌++◌, ltb, leb,
  if◌then◌else◌, length, take, get_elem?, set,
}
use libmp4tag.Prelude.Int.{ℤ, pos, negsuc, minus_one, ◌+ℤ◌, eq_ℤ}
use libmp4tag.Tags.Find.{number_from}
use libmp4tag.Tags.Name.{parse_tagname}
use libmp4tag.Tags.{Mp4tag, Libmp4tag, Mp4error, list_of, tagcount, has_ident}
use mathlib.Core.Option

-- strcmp (tags [tagidx - 1].tag, tag) == 0
abbrev pub same_name : Option Bytes → Bytes → Bool
same_name none tag = false
same_name (some a) tag = str_eq a tag

-- One more than the index of the tag before, if that has the name that is added.
abbrev pub next_dataidx : Option Mp4tag → Bytes → ℤ
next_dataidx none tag = pos 0
next_dataidx (some prev) tag = if same_name prev.tag tag then prev.dataidx +ℤ pos 1 else pos 0

abbrev pub last_tag : List Mp4tag → Option Mp4tag
last_tag [] = none
last_tag (t ∷ ts) = get_elem? (t ∷ ts) (length ts)

-- The bytes that are stored for `sz`: MP4TAG_STRING (0) copies a C string, a negative size a string
-- with no terminator, a positive one binary data.
abbrev pub stored : Bytes → ℤ → Bytes
stored value (pos zero) = c_string value
stored value (pos (suc n)) = take (suc n) value
stored value (negsuc n) = take (suc n) value

abbrev pub stored_len : Bytes → ℤ → ℕ
stored_len value (pos zero) = length (c_string value)
stored_len value (pos (suc n)) = suc n
stored_len value (negsuc n) = suc n

abbrev pub is_binary_size : ℤ → Bool
is_binary_size (pos (suc n)) = true
is_binary_size _ = false

abbrev pub is_covr : Bytes → Bool
is_covr tag = starts_with tag (boxids BoxId.covr)

-- `idx` is not set in the source; mp4tag_sort_tags sets it.
unfoldable pub new_tag : Libmp4tag → Bytes → Bytes → ℤ → ℕ → ℕ → Option Bytes → Mp4tag
new_tag l tag value sz origflag origlen covername =
    let parsed = parse_tagname tag in
    let indexed = if eq_ℤ parsed.dataidx minus_one then pos l.datacount else parsed.dataidx in
    record {
      tag = some (if is_covr tag then boxids BoxId.covr else parsed.name);
      value = some (stored value sz);
      covername = if is_covr tag then covername else none;
      datalen = stored_len value sz;
      dataidx = if is_covr tag then indexed else next_dataidx (last_tag (list_of l.tags)) tag;
      idx = 0;
      identtype = origflag;
      internallen = origlen;
      priority = pos pri_max;
      binary = is_binary_size sz;
    }

-- The array grows by ten. The result is the index of the new tag.
unfoldable pub add_tag : Libmp4tag → Bytes → Bytes → ℤ → ℕ → ℕ → Option Bytes → Libmp4tag × ℕ
add_tag l tag value sz origflag origlen covername =
    let tagidx = tagcount l in
    let counts = is_covr tag && eq_ℤ (parse_tagname tag).dataidx minus_one in
    (
      record l {
        tags = some (list_of l.tags ++ (new_tag l tag value sz origflag origlen covername ∷ []));
        tagalloccount =
            if leb l.tagalloccount tagidx then l.tagalloccount + 10 else l.tagalloccount;
        datacount = if counts then l.datacount + 1 else l.datacount;
      },
      tagidx,
    )

unfoldable pub free_tag : Mp4tag → Mp4tag
free_tag t = record t {
  tag = none;
  value = none;
  covername = none;
  datalen = elim t.value [ none ↦ t.datalen | some v ↦ 0 ];
}

unfoldable pub free_tag_by_idx : Libmp4tag → ℤ → Libmp4tag
unfolding free_tag
free_tag_by_idx l (negsuc n) =
    if has_ident l
    then elim l.tags [ none ↦ record l { mp4error = Mp4error.err_no_tags } | some ts ↦ l ]
    else l
free_tag_by_idx l (pos i) =
    if has_ident l
    then elim l.tags [
      | none ↦ record l { mp4error = Mp4error.err_no_tags }
      | some ts ↦ elim (get_elem? ts i) [
        | none ↦ l
        | some t ↦ record l { tags = some (set ts i (free_tag t)) }
      ]
    ]
    else l

-- The loop that moves the tags behind `i` down, and the shorter count.
unfoldable pub remove_at : ℕ → List Mp4tag → List Mp4tag
remove_at i [] = []
remove_at zero (t ∷ ts) = ts
remove_at (suc i) (t ∷ ts) = t ∷ remove_at i ts

unfoldable pub del_tag : Libmp4tag → ℕ → Libmp4tag
unfolding remove_at number_from
del_tag l i =
    if has_ident l
    then elim l.tags [
      | none ↦ l
      | some ts ↦
          if ltb i (length ts)
          then record l { tags = some (number_from 0 (remove_at i ts)) }
          else record l { mp4error = Mp4error.err_no_tags }
    ]
    else l

-- An empty value is not copied.
unfoldable pub clone_tag : Mp4tag → Mp4tag
clone_tag source = record source {
  value = if ltb 0 source.datalen then Option.map (take source.datalen) source.value else none;
}
