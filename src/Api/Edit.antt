-- ===== src/Api/Edit.antt =====
-- mp4tag_set_tag, mp4tag_set_binary_tag, mp4tag_delete_tag and mp4tag_clean_tags of libmp4tag.c.
use libmp4tag.Api.{Handle, when_parsed, clear_error, lookup_tag}
use libmp4tag.CString.{Bytes}
use libmp4tag.Const.{BoxId}
use libmp4tag.Files.{FileSystem, FileData, read_file}
use libmp4tag.Prelude.{ℕ, Bool, true, false, not, ◌||◌, Option, none, some, if◌then◌else◌}
use libmp4tag.Prelude.Int.{is_positive}
use libmp4tag.Tags.Add.{del_tag}
use libmp4tag.Tags.Find.{find_tag}
use libmp4tag.Tags.Name.{parse_tagname}
use libmp4tag.Tags.Set.{fail, is_tag, set_tag_string, set_tag_binary, update_tag}
use libmp4tag.Tags.{Mp4tag, Libmp4tag, Mp4error, has_ident}

abbrev pub found_idx : Libmp4tag → Bytes → Option ℕ
found_idx l tag = find_tag l (some (parse_tagname tag).name) (parse_tagname tag).dataidx

-- Whether the value is binary: a cover is, but for its name; `found` is the answer for the rest.
abbrev pub is_binary_value : Bytes → Bool → Bool
is_binary_value tag found =
    if is_tag (parse_tagname tag).name BoxId.covr
    then not (is_positive (parse_tagname tag).offset)
    else found

abbrev pub found_binary : Option (ℕ × Mp4tag) → Bool → Bool
found_binary none missing = missing
found_binary (some (i, t)) missing = t.binary

-- The file's bytes are set, if it could be read.
unfoldable pub set_from_file :
    Libmp4tag → Bytes → Option ℕ → Bytes → FileData → Libmp4tag × Mp4error
set_from_file l tag idx fn file =
    let l' : Libmp4tag = elim file.mp4error [ Mp4error.ok ↦ l | e ↦ record l { mp4error = e } ] in
    elim file.fdata [
      | none ↦ (l', l'.mp4error)
      | some fdata ↦
          let (l'', e) = set_tag_binary l' (some tag) idx (some fdata) file.sz (some fn) in
          (l'', l''.mp4error)
    ]

unfoldable pub set_value : FileSystem → Libmp4tag → Bytes → Bytes → Bool → Libmp4tag × Mp4error
set_value fs l tag value forcebinary =
    let binary = is_binary_value tag (found_binary (lookup_tag l tag) false) in
    if forcebinary || binary
    then set_from_file l tag (found_idx l tag) value (read_file fs value)
    else (let (l', e) = set_tag_string l (some tag) (found_idx l tag) (some value) in
        (l', l'.mp4error))

unfoldable pub set_tag :
    FileSystem → Handle → Option Bytes → Option Bytes → Bool → Handle × Mp4error
set_tag fs h none value forcebinary = when_parsed h (λ l. fail l Mp4error.err_null_value)
set_tag fs h (some tag) none forcebinary = when_parsed h (λ l. fail l Mp4error.err_null_value)
set_tag fs h (some tag) (some value) forcebinary =
    when_parsed h (λ l. set_value fs (clear_error l) tag value forcebinary)

unfoldable pub set_binary_value : Libmp4tag → Bytes → Bytes → ℕ → Libmp4tag × Mp4error
set_binary_value l tag value datalen =
    if is_binary_value tag (found_binary (lookup_tag l tag) true)
    then (let (l', e) = set_tag_binary l (some tag) (found_idx l tag) (some value) datalen none in
        (l', l'.mp4error))
    else fail l Mp4error.err_mismatch

unfoldable pub set_binary_tag : Handle → Option Bytes → Option Bytes → ℕ → Handle × Mp4error
set_binary_tag h none value datalen = when_parsed h (λ l. fail l Mp4error.err_null_value)
set_binary_tag h (some tag) none datalen = when_parsed h (λ l. fail l Mp4error.err_null_value)
set_binary_tag h (some tag) (some value) datalen =
    when_parsed h (λ l. set_binary_value (clear_error l) tag value datalen)

-- The name of a cover is deleted alone.
unfoldable pub delete_found : Libmp4tag → Bytes → ℕ → Mp4tag → Libmp4tag × Mp4error
delete_found l tag i t =
    if is_tag (parse_tagname tag).name BoxId.covr
    then if is_positive (parse_tagname tag).offset
      then update_tag (clear_error l) i (record t { covername = none })
      else (let l' = del_tag l i in (l', l'.mp4error))
    else (let l' = del_tag l i in (l', l'.mp4error))

unfoldable pub delete_known : Libmp4tag → Bytes → Libmp4tag × Mp4error
delete_known l tag = elim l.tags [
  | none ↦ fail l Mp4error.err_tag_not_found
  | some _ ↦ elim (lookup_tag l tag) [
    | none ↦ fail l Mp4error.err_tag_not_found
    | some (i, t) ↦ delete_found l tag i t
  ]
]

unfoldable pub delete_tag : Handle → Option Bytes → Handle × Mp4error
delete_tag h none = when_parsed h (λ l. fail l Mp4error.err_null_value)
delete_tag h (some tag) = when_parsed h (λ l. delete_known (clear_error l) tag)

-- mp4tag_free_tags
unfoldable pub free_tags : Libmp4tag → Libmp4tag
free_tags l =
    if has_ident l
    then elim l.tags [ none ↦ l | some _ ↦ record l { tags = none; tagalloccount = 0 } ]
    else l

unfoldable pub clean_tags : Handle → Handle × Mp4error
clean_tags h = when_parsed h (λ l. (free_tags (clear_error l), Mp4error.ok))
