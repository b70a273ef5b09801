-- ===== src/Api/Open.antt =====
-- mp4tag_alloc, mp4tag_open, mp4tag_parse and mp4tag_duration of libmp4tag.c, on a file.
use libmp4tag.Api.Edit.{free_tags}
use libmp4tag.CString.{Bytes}
use libmp4tag.Const.{mp4tag_ident, free_space_sz}
use libmp4tag.Files.{FileSystem}
use libmp4tag.Parse.Boxes.{as_u64}
use libmp4tag.Parse.File.{Parsed, and_then, parse_file}
use libmp4tag.Parse.Ftyp.{parse_ftyp}
use libmp4tag.Parse.State.{Parser, init_tags, set_error}
use libmp4tag.Prelude.{
  ℕ, suc, ◌-◌, ◌^◌, [], Bool, true, false, ◌&&◌, Option, none, some, length, if◌then◌else◌,
}
use libmp4tag.Prelude.Int.{ℤ, pos}
use libmp4tag.Tags.{Libmp4tag, Mp4error, has_ident}
use mathlib.Core.Option
use libmp4tag.Write.Place.{Layout, as_i32, update_parent_lengths}

-- A structure with nothing in it; the bits of dbgflags are clear.
abbrev blank_place : Bytes → Layout
blank_place fn = record {
  fn = fn;
  filesz = 0;
  freespacesz = pos free_space_sz;
  base_lengths = λ i. 0;
  base_offsets = λ i. 0;
  taglist_orig_data_len = 0;
  taglist_base_offset = 0;
  taglist_offset = 0;
  taglist_len = 0;
  interior_free_len = 0;
  exterior_free_len = 0;
  parents = 0;
  noilst_offset = 0;
  after_ilst_offset = 0;
  insert_delta = 0;
  blocks = record { stco_offset = 0; stco_len = 0; co64_offset = 0; co64_len = 0 };
  unlimited = false;
  keep_backup = false;
}

abbrev blank_tags : Libmp4tag
blank_tags = record {
  libmp4tagident = mp4tag_ident;
  tags = none;
  tagalloccount = 0;
  datacount = 0;
  iterator = 0;
  mp4error = Mp4error.ok;
  parsed = false;
}

unfoldable pub alloc : Parser
unfolding init_tags
alloc = init_tags (record {
  file = [];
  offset = 0;
  tags = blank_tags;
  place = blank_place [];
  bug = record {
    ilst_remaining = pos 0;
    ilstremain = false;
    ilstend = false;
    ilstdone = false;
    freeneg = false;
    udtazero = false;
    dofix = false;
  };
  rem_length = λ i. pos 0;
  base_offset_count = 0;
  taglist_orig_len = 0;
  creationdate = 0;
  modifieddate = 0;
  samplerate = 0;
  duration = pos 0;
  processdata = false;
  checkforfree = false;
  parsedone = false;
  mp7meta = false;
  canwrite = true;
  print_structure = false;
  dump_co = false;
})

-- (size_t) -1 where stat fails.
abbrev pub file_size : Option ℕ → ℕ
file_size none = 2 ^ 64 - 1
file_size (some n) = n

abbrev pub is_ok : Mp4error → Bool
is_ok Mp4error.ok = true
is_ok e = false

abbrev pub with_fn : Bytes → Mp4error × Parser → Mp4error × Option Parser
with_fn fn (e, s) =
    if is_ok e then (e, some (record s { place = record s.place { fn = fn } })) else (e, none)

-- The structure for a file before its first box is read.
abbrev pub opened : FileSystem → (Bytes → Bool) → Bytes → Bytes → Parser
opened fs writable fn contents = record alloc {
  file = contents;
  place = record alloc.place { filesz = file_size (fs.stat_size fn) };
  canwrite = writable fn;
}

-- mp4error and the structure, if it is not NULL. `writable` says whether a file can be opened for writing
-- too; `none` is a read behind the data in mp4tag_parse_ftyp.
unfoldable pub mp4tag_open :
    FileSystem → (Bytes → Bool) → Option Bytes → Option (Mp4error × Option Parser)
mp4tag_open fs writable none = some (Mp4error.err_null_value, none)
mp4tag_open fs writable (some fn) = elim (fs.open_read fn) [
  | none ↦ some (Mp4error.err_file_not_found, none)
  | some contents ↦ Option.map (with_fn fn) (parse_ftyp (opened fs writable fn contents))
]

-- MP4TAG_NO_FILESZ as a size_t.
abbrev pub no_filesz : ℕ
no_filesz = 2 ^ 64 - 3

-- The structure for a stream before its first box is read. `contents` is what the callbacks give.
abbrev pub opened_stream : Bytes → Parser
opened_stream contents = record alloc {
  file = contents;
  place = record alloc.place { filesz = no_filesz };
  canwrite = false;
}

unfoldable pub openstream : Bytes → Option (Mp4error × Option Parser)
openstream contents = Option.map (with_fn []) (parse_ftyp (opened_stream contents))

abbrev pub set_parsed : Parser → Parser
set_parsed s = record s { tags = record s.tags { parsed = true } }

-- The parents' lengths less what remained behind the list, which they wrongly count.
abbrev pub repaired : Parser → ℕ → Parser
repaired s offset =
    let file =
      update_parent_lengths s.place (as_i32 (2 ^ 64 - as_u64 s.bug.ilst_remaining)) s.file in
    let cleared = init_tags (record s { file = file; tags = free_tags s.tags }) in
    record cleared { offset = offset }

abbrev pub parse_all : (ℕ → ℕ → ℤ) → Parser → Parsed
parse_all millis s = parse_file millis (suc (length s.file)) 0 0 s

-- The repair of a file with the bug of version 1.3.0, and the second parse.
unfoldable pub finish_parse : (ℕ → ℕ → ℤ) → ℕ → Parser → Parsed
finish_parse millis offset s =
    if is_ok s.tags.mp4error
    then if s.canwrite && s.bug.dofix
      then and_then (parse_all millis (repaired s offset)) (λ t. Parsed.done (set_parsed t))
      else Parsed.done (set_parsed s)
    else Parsed.done s

-- The result is mp4error; without the identifier it is MP4TAG_ERR_BAD_STRUCT. The file is open.
unfoldable pub parse : (ℕ → ℕ → ℤ) → Parser → Parsed
parse millis s =
    if has_ident s.tags
    then and_then (parse_all millis (set_error s Mp4error.ok)) (finish_parse millis s.offset)
    else Parsed.done s

-- The duration; or the error, which is a positive number too.
unfoldable pub mp4tag_duration : Option Parser → Option Parser × ℤ
mp4tag_duration none = (none, pos 0)
mp4tag_duration (some s) =
    if has_ident s.tags
    then if s.tags.parsed
      then (some (set_error s Mp4error.ok), s.duration)
      else (some (set_error s Mp4error.err_not_parsed), pos 6)
    else (some s, pos 0)
