-- ===== src/Files.antt =====
-- mp4tag_file_size and mp4tag_read_file of mp4tagfileop.c. The file system is a parameter.
use libmp4tag.CString.{Bytes}
use libmp4tag.Prelude.{ℕ, Option, none, some, ltb, leb, ◌&&◌, if◌then◌else◌, length, take}
use libmp4tag.Tags.{Mp4error}

-- stat, and fopen with fread: the size that stat reports for a path, and the bytes that can be read
-- from a file that can be opened.
pub record FileSystem : Type 0 where
  pub stat_size : Bytes → Option ℕ
  pub open_read : Bytes → Option Bytes

pub record FileData : Type 0 where
  pub fdata : Option Bytes
  pub sz : ℕ
  pub mp4error : Mp4error

-- fread of one item of `fsz` bytes gives 1 if there are as many; an item of no bytes gives 0.
abbrev read_item : ℕ → Bytes → FileData
read_item fsz contents =
    if ltb 0 fsz && leb fsz (length contents)
    then record { fdata = some (take fsz contents); sz = fsz; mp4error = Mp4error.ok }
    else record { fdata = none; sz = fsz; mp4error = Mp4error.err_file_read_error }

-- Where fopen fails the source goes on to fclose (NULL); what it sets before that is modelled.
unfoldable pub read_file : FileSystem → Bytes → FileData
read_file fs fn = elim (fs.stat_size fn) [
  | none ↦ record { fdata = none; sz = 0; mp4error = Mp4error.err_file_not_found }
  | some fsz ↦ elim (fs.open_read fn) [
    | none ↦ record { fdata = none; sz = fsz; mp4error = Mp4error.err_file_not_found }
    | some contents ↦ read_item fsz contents
  ]
]
