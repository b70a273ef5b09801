-- ===== src/Api/Tests.antt =====
-- Runs of the public operations on a small tag list.
use libmp4tag.Api.Edit.{set_tag, clean_tags}
use libmp4tag.Api.Get.{get_tag_by_name}
use libmp4tag.Api.Preserve.{preserve_tags, restore_tags}
use libmp4tag.Api.{copy_to_pub, lookup_tag}
use libmp4tag.CString.{Bytes, codes, strcmp, starts_with, strstr, strtok, atoi}
use libmp4tag.Const.Table.{mp4taglist}
use libmp4tag.Const.{copyright}
use libmp4tag.Prelude.{ℕ, ◌≡◌, refl, true, false, none, some, [], ◌∷◌, get_elem?}
use libmp4tag.Prelude.Int.{pos, minus_one}
use libmp4tag.Search.{bsearch}
use libmp4tag.Tags.Find.{find_tag, check_tag}
use libmp4tag.Tags.Name.{parse_tagname}
use libmp4tag.Tags.{Mp4tag, Mp4error, mp4tag_compare_list, compare_name}
use libmp4tag.Api.Samples.{
  parsed_file, no_files, title, titled, parsed_file-IsConsistent, titled-IsConsistent, nam_def,
  nam-IsTextTag, title_found,
}
use libmp4tag.Api.SetGet.{set_tag-get_old, set_tag-get_indexed, set_tag-get_unindexed, new_pub}
use libmp4tag.Api.Update.{IsTextTag}
use libmp4tag.Api.Session.{Session, SessionOk, Step, Reach, Reach-SessionOk}
use libmp4tag.Api.Lookup.{lookup_tag_sound, lookup_tag_complete, Asked}

-- An index behind the name.
abbrev second_title : Bytes
second_title = copyright "nam:1"

second-IsTextTag : IsTextTag second_title nam_def
unfolding check_tag parse_tagname mp4taglist bsearch mp4tag_compare_list compare_name strcmp
    starts_with strtok strstr atoi
second-IsTextTag = record { known = refl; text = refl; not_cover = refl; name_not_cover = refl }

title_missing : lookup_tag parsed_file (copyright "nam") ≡ none
unfolding lookup_tag find_tag parse_tagname bsearch
title_missing = refl

second_missing : lookup_tag parsed_file second_title ≡ none
unfolding lookup_tag find_tag parse_tagname bsearch strtok
second_missing = refl

second_index : (parse_tagname second_title).dataidx ≡ pos 1
unfolding parse_tagname strtok strstr atoi starts_with
second_index = refl

no_index : (parse_tagname (copyright "nam")).dataidx ≡ minus_one
unfolding parse_tagname strtok strstr atoi starts_with
no_index = refl

-- The title is replaced.
abbrev new_title : Mp4tag
new_title = record title { value = some (codes "Other"); datalen = 5 }

set_tag-get_old_example :
    (get_tag_by_name
      (set_tag no_files (some titled) (some (copyright "nam")) (some (codes "Other")) false).0
      (copyright "nam")
      true).1
    ≡ (some (copy_to_pub new_title), Mp4error.ok)
set_tag-get_old_example =
    set_tag-get_old no_files titled titled-IsConsistent (copyright "nam") (codes "Other") nam_def
      nam-IsTextTag refl title_found refl

set_tag-get_indexed_example :
    (get_tag_by_name
      (set_tag no_files (some parsed_file) (some second_title) (some (codes "Other")) false).0
      second_title
      true).1
    ≡ (
      some (
          new_pub no_files parsed_file parsed_file-IsConsistent second_title
            (codes "Other")
            nam_def
            second-IsTextTag),
      Mp4error.ok,
    )
set_tag-get_indexed_example =
    set_tag-get_indexed no_files parsed_file parsed_file-IsConsistent second_title (codes "Other")
      nam_def second-IsTextTag refl second_index second_missing

set_tag-get_unindexed_example :
    ((set_tag no_files (some parsed_file) (some (copyright "nam")) (some (codes "Other")) false).1
      ≡ Mp4error.ok)
    × ((get_tag_by_name
          (set_tag no_files
            (some parsed_file)
            (some (copyright "nam"))
            (some (codes "Other"))
            false).0
          (copyright "nam")
          true).1
        ≡ (none, Mp4error.err_tag_not_found))
set_tag-get_unindexed_example =
    set_tag-get_unindexed no_files parsed_file parsed_file-IsConsistent (copyright "nam")
      (codes "Other") nam_def nam-IsTextTag refl no_index title_missing

-- A tag is set, kept and cleaned, and restored.
abbrev session : Session
session = record { handle = some titled; kept = none }

session-SessionOk : SessionOk session
session-SessionOk = record { handle_ok = titled-IsConsistent; kept_ok = tt }

abbrev changed : Session
changed = record session {
  handle = (set_tag no_files (some titled) (some second_title) (some (codes "Other")) false).0;
}

abbrev kept : Session
kept = record { handle = (preserve_tags changed.handle).0; kept = (preserve_tags changed.handle).1 }

abbrev cleaned : Session
cleaned = record kept { handle = (clean_tags kept.handle).0 }

abbrev restored : Session
restored = record cleaned { handle = (restore_tags cleaned.handle cleaned.kept).0 }

restored-Reach : Reach no_files session restored
restored-Reach =
    Reach.more
      (Reach.more
        (Reach.more
          (Reach.more Reach.here
            (Step.set session (some second_title) (some (codes "Other")) false))
          (Step.preserve changed))
        (Step.clean kept))
      (Step.restore cleaned)

Reach-SessionOk_example : SessionOk restored
Reach-SessionOk_example = Reach-SessionOk session-SessionOk restored-Reach

title-Asked : Asked (copyright "nam") title
unfolding parse_tagname strtok starts_with
title-Asked = record { tag = refl; dataidx = refl }

lookup_tag_sound_example : (get_elem? (title ∷ []) 0 ≡ some title) × Asked (copyright "nam") title
lookup_tag_sound_example = lookup_tag_sound titled titled-IsConsistent (copyright "nam") title_found

lookup_tag_complete_example : (p : ℕ × Mp4tag) × (lookup_tag titled (copyright "nam") ≡ some p)
lookup_tag_complete_example =
    lookup_tag_complete titled titled-IsConsistent (copyright "nam")
      (record { pos = 0; there = refl }) title-Asked
