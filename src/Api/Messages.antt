-- ===== src/Api/Messages.antt =====
-- mp4tagerrmsgs and mp4tag_error_str of libmp4tag.c.
use libmp4tag.CString.{Bytes, codes}
use libmp4tag.Parse.State.{Parser}
use libmp4tag.Prelude.{Option, none, some, if◌then◌else◌}
use libmp4tag.Tags.{Mp4error, has_ident}

unfoldable pub mp4tagerrmsgs : Mp4error → Bytes
mp4tagerrmsgs Mp4error.ok = codes "ok"
mp4tagerrmsgs Mp4error.finish = codes "finish"
mp4tagerrmsgs Mp4error.err_bad_struct = codes "bad structure"
mp4tagerrmsgs Mp4error.err_out_of_memory = codes "out of memory"
mp4tagerrmsgs Mp4error.err_not_mp4 = codes "not mp4"
mp4tagerrmsgs Mp4error.err_not_open = codes "not open"
mp4tagerrmsgs Mp4error.err_null_value = codes "null value"
mp4tagerrmsgs Mp4error.err_no_tags = codes "no tags"
mp4tagerrmsgs Mp4error.err_mismatch = codes "mismatch"
mp4tagerrmsgs Mp4error.err_tag_not_found = codes "not found"
mp4tagerrmsgs Mp4error.err_not_implemented = codes "not implemented"
mp4tagerrmsgs Mp4error.err_file_not_found = codes "file not found"
mp4tagerrmsgs Mp4error.err_file_read_error = codes "file read error"
mp4tagerrmsgs Mp4error.err_file_write_error = codes "file write error"
mp4tagerrmsgs Mp4error.err_file_seek_error = codes "file seek error"
mp4tagerrmsgs Mp4error.err_file_tell_error = codes "file tell error"
mp4tagerrmsgs Mp4error.err_unable_to_process = codes "unable to process"
mp4tagerrmsgs Mp4error.err_not_parsed = codes "not parsed"
mp4tagerrmsgs Mp4error.err_cannot_write = codes "cannot write"
mp4tagerrmsgs Mp4error.err_no_callback = codes "no callback"

unfoldable pub mp4tag_error_str : Option Parser → Bytes
unfolding mp4tagerrmsgs
mp4tag_error_str none = mp4tagerrmsgs Mp4error.err_bad_struct
mp4tag_error_str (some s) =
    if has_ident s.tags
    then mp4tagerrmsgs s.tags.mp4error
    else mp4tagerrmsgs Mp4error.err_bad_struct
