-- ===== src/Api/Save.antt =====
-- mp4tag_write_tags, mp4tag_free and the setters of libmp4tag.c, on a file that is open.
use libmp4tag.Api.Edit.{free_tags}
use libmp4tag.CString.{Bytes}
use libmp4tag.Const.{pri_max}
use libmp4tag.Parse.State.{Parser, set_error}
use libmp4tag.Prelude.{
  ◌/◌, ◌%◌, ◌==◌, ℕ, Bool, false, ◌||◌, Option, none, some, List, [], map, if◌then◌else◌,
}
use libmp4tag.Prelude.Int.{ℤ}
use libmp4tag.Tags.{Mp4tag, Libmp4tag, Mp4error, list_of, has_ident}
use libmp4tag.Write.Build.{set_priority, build_priorities, empty_output, build_data}
use libmp4tag.Write.Inplace.{Written}
use libmp4tag.Write.Place.{as_u32}
use libmp4tag.Write.Rewrite.{write_data}
use mathlib.Core.Option

-- The structure, a backup that is made, whether one that was there is deleted, and the result.
pub record Saved : Type 0 where
  pub handle : Parser
  pub backup : Option Bytes
  pub bak_deleted : Bool
  pub result : Mp4error

abbrev pub refuse : Parser → Mp4error → Saved
refuse s e = record { handle = set_error s e; backup = none; bak_deleted = false; result = e }

-- What the writer counts in datacount.
abbrev last_datacount : (ℕ → ℕ) → List Mp4tag → ℕ
last_datacount fresh ts =
    elim (build_priorities fresh pri_max 0 (map set_priority ts) empty_output) [
      | none ↦ 0
      | some o ↦ o.datacount
    ]

-- The list with its priorities.
abbrev pub prioritised : (ℕ → ℕ) → Libmp4tag → List Mp4tag → Libmp4tag
prioritised fresh l ts = record l {
  tags = Option.map (λ old. ts) l.tags;
  datacount = last_datacount fresh (list_of l.tags);
  mp4error = Mp4error.ok;
}

abbrev pub with_written : Parser → Option Written → Option Saved
with_written s none = none
with_written s (some w) = some (record {
  handle = record (set_error s w.mp4error) {
    file = elim w.fh [ none ↦ s.file | some file ↦ file ];
  };
  backup = w.backup;
  bak_deleted = w.bak_deleted;
  result = w.mp4error;
})

abbrev pub with_data :
    (Bytes → Bool) → (ℕ → ℕ) → Parser → Option (List Mp4tag × Bytes) → Option Saved
with_data creates fresh s none = none
with_data creates fresh s (some (ts, bytes)) =
    with_written (record s { tags = prioritised fresh s.tags ts })
      (write_data creates s.place (some s.file) bytes)

-- `none` is an access behind a buffer. The handle is not NULL.
unfoldable pub write_tags : (Bytes → Bool) → (ℕ → ℕ) → Parser → Option Saved
write_tags creates fresh s =
    if has_ident s.tags
    then if s.canwrite
      then if s.tags.parsed
        then with_data creates fresh s (build_data fresh (list_of s.tags.tags))
        else some (refuse s Mp4error.err_not_parsed)
      else some (refuse s Mp4error.err_cannot_write)
    else some (refuse s Mp4error.err_bad_struct)

-- What is left of the structure before its memory is released.
unfoldable pub mp4tag_free : Parser → Parser
mp4tag_free s =
    if has_ident s.tags
    then record s {
      place = record s.place { fn = [] };
      tags = record (free_tags s.tags) { libmp4tagident = 0 };
    }
    else s

unfoldable pub set_free_space : Option Parser → ℤ → Option Parser
set_free_space none freespacesz = none
set_free_space (some s) freespacesz =
    if has_ident s.tags
    then some (record s { place = record s.place { freespacesz = freespacesz } })
    else some s

-- The only option is that a backup is kept; `option` is its bit.
unfoldable pub set_option : Option Parser → Bool → Option Parser
set_option none option = none
set_option (some s) option =
    if has_ident s.tags
    then some (record s { place = record s.place { keep_backup = s.place.keep_backup || option } })
    else some s

-- A bit of the flags.
abbrev flag : ℕ → ℕ → Bool
flag dbgflags bit = dbgflags / bit % 2 == 1

-- The flags that the parser looks at, MP4TAG_DBG_PRINT_FILE_STRUCTURE and MP4TAG_DBG_DUMP_CO.
unfoldable pub set_debug_flags : Option Parser → ℤ → Option Parser
set_debug_flags none dbgflags = none
set_debug_flags (some s) dbgflags =
    if has_ident s.tags
    then some (record s {
      print_structure = flag (as_u32 dbgflags) 1;
      dump_co = flag (as_u32 dbgflags) 4;
    })
    else some s

unfoldable pub mp4tag_error : Option Parser → Mp4error
mp4tag_error none = Mp4error.err_bad_struct
mp4tag_error (some s) = if has_ident s.tags then s.tags.mp4error else Mp4error.err_bad_struct
