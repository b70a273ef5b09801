-- ===== src/Tags.antt =====
-- The parsed tag list: struct mp4tag and struct libmp4tag of mp4tagint.h, the error codes of
-- libmp4tag.h, and the comparators of mp4tagutil.c.
pub mod Compare
pub mod Name
pub mod Find
pub mod Add
pub mod Set
pub mod Invariant
pub mod Members
pub mod Lookup
pub mod Replace
pub mod Lengths
pub mod Consistent
pub mod Known
mod Tests
use libmp4tag.CString.{Bytes, strcmp}
use libmp4tag.Const.Table.{Mp4tagdef}
use libmp4tag.Const.{free_space_sz, mp4tag_ident}
use libmp4tag.Prelude.{ℕ, ◌==◌, Bool, true, false, Ordering, Option, none, some, List, [], length}
use libmp4tag.Prelude.Int.{ℤ, pos, compare_ℤ}

pub data Mp4error : Type 0 where
  ok finish err_bad_struct err_out_of_memory err_not_mp4 err_not_open err_not_parsed : Mp4error
  err_null_value err_no_tags err_mismatch err_tag_not_found err_not_implemented : Mp4error
  err_file_not_found err_file_seek_error err_file_tell_error err_file_read_error : Mp4error
  err_file_write_error err_unable_to_process err_no_callback err_cannot_write : Mp4error

-- A string's `datalen` does not count its terminator, and `data` does not hold it.
pub record Mp4tag : Type 0 where
  pub tag : Option Bytes
  pub value : Option Bytes
  pub covername : Option Bytes
  pub datalen : ℕ
  pub dataidx : ℤ
  pub idx : ℕ
  pub identtype : ℕ
  pub internallen : ℕ
  pub priority : ℤ
  pub binary : Bool

-- The fields of libmp4tag_t that the tag list's operations use. `tags` is `none` where the pointer
-- is NULL; tagcount is its length.
pub record Libmp4tag : Type 0 where
  pub libmp4tagident : ℕ
  pub tags : Option (List Mp4tag)
  pub tagalloccount : ℕ
  pub datacount : ℕ
  pub iterator : ℕ
  pub mp4error : Mp4error
  pub parsed : Bool

abbrev pub list_of : Option (List Mp4tag) → List Mp4tag
list_of none = []
list_of (some ts) = ts

abbrev pub tagcount : Libmp4tag → ℕ
tagcount l = length (list_of l.tags)

abbrev pub has_ident : Libmp4tag → Bool
has_ident l = l.libmp4tagident == mp4tag_ident

-- Names that may be NULL: NULL comes first.
unfoldable pub compare_name : Option Bytes → Option Bytes → Ordering
compare_name none none = Ordering.eq
compare_name none (some b) = Ordering.lt
compare_name (some a) none = Ordering.gt
compare_name (some a) (some b) = strcmp a b

-- mp4tag_compare: by name, then by the data index.
unfoldable pub mp4tag_compare : Mp4tag → Mp4tag → Ordering
mp4tag_compare a b = elim (compare_name a.tag b.tag) [
  | Ordering.lt ↦ Ordering.lt
  | Ordering.eq ↦ compare_ℤ a.dataidx b.dataidx
  | Ordering.gt ↦ Ordering.gt
]

-- mp4tag_compare_list, on entries of the table of known tags, which all have a name.
unfoldable pub mp4tag_compare_list : Mp4tagdef → Mp4tagdef → Ordering
mp4tag_compare_list a b = compare_name (some a.tag) (some b.tag)
