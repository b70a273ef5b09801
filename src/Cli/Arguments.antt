-- ===== src/Cli/Arguments.antt =====
-- The loop of main of mp4tagcli.c over the arguments behind the file: tags to set and to delete.
use libmp4tag.Api.Edit.{set_tag, set_binary_tag, delete_tag}
use libmp4tag.Api.Messages.{mp4tag_error_str}
use libmp4tag.Api.Save.{mp4tag_error}
use libmp4tag.Api.{Handle}
use libmp4tag.Cli.Show.{newline}
use libmp4tag.Cli.{Settings, id_max, set_tag_name}
use libmp4tag.CString.{Bytes, codes, strtok, Token}
use libmp4tag.Files.{FileSystem, FileData, read_file}
use libmp4tag.Parse.State.{Parser}
use libmp4tag.Prelude.{
  ◌+◌, ◌-◌, Bool, true, Option, none, some, List, [], ◌∷◌, ◌++◌, length, take, if◌then◌else◌,
}
use libmp4tag.Tags.{Mp4error}

-- The variables of main that the loop changes, with what goes to stderr.
pub record Edits : Type 0 where
  pub handle : Parser
  pub tagname : Bytes
  pub write : Bool
  pub rc : Mp4error
  pub errors : Bytes

-- An operation on the tags of a structure.
abbrev pub with_handle : Parser → Handle → Parser
with_handle s none = s
with_handle s (some l) = record s { tags = l }

abbrev pub failed : Edits → Bytes → Edits
failed e what = record e {
  rc = mp4tag_error (some e.handle);
  errors =
      e.errors
      ++ (what
          ++ (e.tagname
              ++ (codes " (" ++ (mp4tag_error_str (some e.handle) ++ (codes ")" ++ newline)))));
}

-- What follows a call: the tags are to be written, or the error is reported.
abbrev pub checked : Edits → Bytes → Handle × Mp4error → Edits
checked e what (h, Mp4error.ok) = record e { handle = with_handle e.handle h; write = true }
checked e what (h, rc) = failed (record e { handle = with_handle e.handle h }) what

abbrev pub equals : Bytes → Option Token
equals s = strtok b'=' s

-- tstr behind the first call of strtok_r.
abbrev pub cut_name : Bytes → Option Token → Bytes
cut_name arg none = arg
cut_name arg (some t) = take (length arg - length t.start + length t.text) arg

abbrev pub unable_to_set : Bytes
unable_to_set = codes "Unable to set tag: "

abbrev pub unable_to_delete : Bytes
unable_to_delete = codes "Unable to delete tag: "

-- With --testbin the value is the name of a file that is read here.
abbrev pub set_file_data : Edits → FileData → Edits
set_file_data e file = elim file.mp4error [
  | Mp4error.ok ↦ elim file.fdata [
    | none ↦ e
    | some bytes ↦
        checked e unable_to_set
          (set_binary_tag (some e.handle.tags) (some e.tagname) (some bytes) file.sz)
  ]
  | rc ↦ e
]

unfoldable pub set_argument : FileSystem → Settings → Edits → Bytes → Edits
set_argument fs set e value =
    if set.testbin
    then set_file_data e (read_file fs value)
    else checked e unable_to_set
        (set_tag fs (some e.handle.tags) (some e.tagname) (some value) set.forcebinary)

-- What follows the name: without a value the tag is deleted.
abbrev pub edit_value : FileSystem → Settings → Edits → Option Token → Edits
edit_value fs set e none =
    checked e unable_to_delete (delete_tag (some e.handle.tags) (some e.tagname))
edit_value fs set e (some t) = set_argument fs set e t.text

abbrev pub edit_named : FileSystem → Settings → Edits → Option Token → Edits
edit_named fs set e none = e
edit_named fs set e (some t) = edit_value fs set e (equals t.rest)

-- A round.
unfoldable pub run_argument : FileSystem → Settings → Edits → Bytes → Edits
run_argument fs set e arg =
    edit_named fs set (record e { tagname = set_tag_name (cut_name arg (equals arg)) id_max })
      (equals arg)

unfoldable pub run_arguments : FileSystem → Settings → Edits → List Bytes → Edits
run_arguments fs set e [] = e
run_arguments fs set e (arg ∷ args) = run_arguments fs set (run_argument fs set e arg) args
