-- ===== src/Api.antt =====
-- The public operations of libmp4tag.c on the tag list in memory. A handle is a pointer to the
-- structure: `none` is NULL. Each operation returns the structure and its result.
pub mod Get
pub mod Edit
pub mod Preserve
pub mod Consistent
pub mod Lookup
pub mod Update
pub mod Found
pub mod SetGet
pub mod Delete
pub mod RoundTrip
pub mod Handles
pub mod Short
pub mod Session
pub mod Open
pub mod Parsing
pub mod Save
pub mod Messages
pub mod Saving
pub mod Samples
mod Tests
mod FileTests
mod Runs
use libmp4tag.CString.{Bytes}
use libmp4tag.Const.{boxids, BoxId}
use libmp4tag.Files.{FileSystem, FileData, read_file}
use libmp4tag.Prelude.{
  ℕ, zero, suc, ◌+◌, ◌-◌, Bool, true, false, not, ◌&&◌, ◌||◌, Option, none, some, List, [], ◌∷◌,
  map, ltb, leb, ◌==◌, if◌then◌else◌, length, get_elem?, set,
}
use libmp4tag.Prelude.Int.{ℤ, pos, is_positive}
use libmp4tag.Tags.Add.{del_tag, clone_tag, free_tag}
use libmp4tag.Tags.Find.{find_tag}
use libmp4tag.Tags.Name.{TagName, parse_tagname}
use libmp4tag.Tags.Set.{fail, is_tag, set_tag_string, set_tag_binary}
use libmp4tag.Tags.{Mp4tag, Libmp4tag, Mp4error, list_of, tagcount, has_ident}

abbrev pub Handle : Type 0
Handle = Option Libmp4tag

-- The check for NULL and for the identifier, with which the operations begin.
abbrev pub with_struct {ℓ} : {R : Type ℓ} → Handle → R → (Libmp4tag → Libmp4tag × R) → Handle × R
with_struct none bad f = (none, bad)
with_struct (some l) bad f =
    if has_ident l then (let (l', r) = f l in (some l', r)) else (some l, bad)

-- And for a parsed file.
abbrev pub when_parsed : Handle → (Libmp4tag → Libmp4tag × Mp4error) → Handle × Mp4error
when_parsed h f =
    with_struct h Mp4error.err_bad_struct
      (λ l. if l.parsed then f l else fail l Mp4error.err_not_parsed)

abbrev pub clear_error : Libmp4tag → Libmp4tag
clear_error l = record l { mp4error = Mp4error.ok }

-- mp4tag_find_tag on the parsed name, with the check that the index is in range.
unfoldable pub lookup_tag : Libmp4tag → Bytes → Option (ℕ × Mp4tag)
lookup_tag l tag = elim (find_tag l (some (parse_tagname tag).name) (parse_tagname tag).dataidx) [
  | none ↦ none
  | some i ↦ elim (get_elem? (list_of l.tags) i) [ none ↦ none | some t ↦ some (i, t) ]
]

-- mp4tagpub_t
pub record Mp4tagpub : Type 0 where
  pub tag : Option Bytes
  pub value : Option Bytes
  pub covername : Option Bytes
  pub datalen : ℕ
  pub dataidx : ℤ
  pub covertype : ℕ
  pub binary : Bool

unfoldable pub copy_to_pub : Mp4tag → Mp4tagpub
copy_to_pub t = record {
  tag = t.tag;
  value = t.value;
  covername = t.covername;
  datalen = t.datalen;
  dataidx = t.dataidx;
  covertype = t.identtype;
  binary = t.binary;
}

-- What an operation stores through its mp4tagpub argument, with its result.
abbrev pub Got : Type 0
Got = Option Mp4tagpub × Mp4error

abbrev pub get_fail : Libmp4tag → Mp4error → Libmp4tag × Got
get_fail l e = (record l { mp4error = e }, (none, e))
