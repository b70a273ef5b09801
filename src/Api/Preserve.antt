-- ===== src/Api/Preserve.antt =====
-- mp4tag_preserve_tags, mp4tag_restore_tags and mp4tag_preserve_free of libmp4tag.c. What is
-- preserved is a copy of the list.
use libmp4tag.Api.{Handle, when_parsed, clear_error}
use libmp4tag.Api.Edit.{free_tags}
use libmp4tag.Prelude.{Option, none, some, List, map, ltb, if◌then◌else◌, length}
use libmp4tag.Tags.Add.{clone_tag}
use libmp4tag.Tags.Set.{fail}
use libmp4tag.Tags.{Mp4tag, Libmp4tag, Mp4error}

pub record Preserved : Type 0 where
  pub tags : List Mp4tag

-- Here the identifier is not checked.
unfoldable pub preserve_tags : Handle → Handle × Option Preserved
preserve_tags none = (none, none)
preserve_tags (some l) =
    if l.parsed
    then elim l.tags [
      | none ↦ (some (record l { mp4error = Mp4error.err_no_tags }), none)
      | some ts ↦ (some (clear_error l), some (record { tags = map clone_tag ts }))
    ]
    else (some (record l { mp4error = Mp4error.err_not_parsed }), none)

-- The array is allocated if it is too short, which it is unless there is nothing to restore.
unfoldable pub restore_list : Libmp4tag → List Mp4tag → Libmp4tag
restore_list l ts =
    if ltb l.tagalloccount (length ts)
    then record l { tags = some (map clone_tag ts); tagalloccount = length ts }
    else l

unfoldable pub restore_tags : Handle → Option Preserved → Handle × Mp4error
restore_tags h none = when_parsed h (λ l. fail l Mp4error.err_null_value)
restore_tags h (some p) =
    when_parsed h (λ l. (restore_list (free_tags (clear_error l)) p.tags, Mp4error.ok))

-- The tags are freed, and the list with them.
unfoldable pub preserve_free : Option Preserved → Option Preserved × Mp4error
preserve_free none = (none, Mp4error.err_null_value)
preserve_free (some p) = (none, Mp4error.ok)
