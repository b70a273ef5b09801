-- ===== src/Api/Get.antt =====
-- mp4tag_get_tag_by_name, mp4tag_iterate_init and mp4tag_iterate of libmp4tag.c. Whether the caller
-- gives a structure to fill in is the flag `has_pub`.
use libmp4tag.Api.{Handle, with_struct, clear_error, lookup_tag, copy_to_pub, Got, get_fail}
use libmp4tag.CString.{Bytes}
use libmp4tag.Prelude.{◌+◌, Bool, not, none, some, if◌then◌else◌, get_elem?}
use libmp4tag.Tags.{Libmp4tag, Mp4error}

unfoldable pub get_known : Libmp4tag → Bytes → Bool → Libmp4tag × Got
get_known l tag has_pub = if not has_pub then get_fail l Mp4error.err_null_value else elim l.tags [
  | none ↦ get_fail l Mp4error.err_no_tags
  | some _ ↦ elim (lookup_tag l tag) [
    | none ↦ get_fail l Mp4error.err_tag_not_found
    | some (i, t) ↦ (l, (some (copy_to_pub t), l.mp4error))
  ]
]

unfoldable pub get_tag_by_name : Handle → Bytes → Bool → Handle × Got
get_tag_by_name h tag has_pub =
    with_struct h (none, Mp4error.err_bad_struct)
      (λ l.
        if l.parsed
        then get_known (clear_error l) tag has_pub
        else get_fail l Mp4error.err_not_parsed)

unfoldable pub iterate_init : Handle → Handle × Mp4error
iterate_init h = with_struct h Mp4error.err_bad_struct (λ l.
    if l.parsed
    then (record l { iterator = 0 }, Mp4error.ok)
    else (record l { mp4error = Mp4error.err_not_parsed }, Mp4error.err_not_parsed))

-- The test `iterator >= tagcount` is the read that finds no element.
unfoldable pub iterate_known : Libmp4tag → Bool → Libmp4tag × Got
iterate_known l has_pub = if not has_pub then get_fail l Mp4error.err_null_value else elim l.tags [
  | none ↦ get_fail l Mp4error.err_no_tags
  | some ts ↦ elim (get_elem? ts l.iterator) [
    | none ↦ (l, (none, Mp4error.finish))
    | some t ↦ (record l { iterator = l.iterator + 1 }, (some (copy_to_pub t), l.mp4error))
  ]
]

unfoldable pub iterate : Handle → Bool → Handle × Got
iterate h has_pub =
    with_struct h (none, Mp4error.err_bad_struct)
      (λ l.
        if l.parsed
        then iterate_known (clear_error l) has_pub
        else get_fail l Mp4error.err_not_parsed)
