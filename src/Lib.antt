-- ===== src/Lib.antt =====
-- A library that reads and writes the tags of MP4 audio files. This development models the tag list that
-- an application works on, the bytes that the writer makes of it and how they go into the file, and how the
-- parser reads them back.
--
-- Parts of the program and their files:
--   mp4tagint.h, libmp4tag.h.in   Tags (mp4tag_t is Mp4tag, libmp4tag_t is Libmp4tag and, for what the
--                                 writer keeps, Output of Write/Build; mp4tagpub_t is in Api)
--   mp4const.c                    Const, Const/Table (mp4taglist), Const/Genres
--   mp4tagutil.c                  Tags (comparators), Tags/Name (mp4tag_parse_tagname), Tags/Find
--                                 (mp4tag_sort_tags, mp4tag_find_tag, mp4tag_check_tag), Tags/Add
--                                 (add, delete, free, clone), Tags/Set (mp4tag_set_tag_string,
--                                 mp4tag_set_tag_binary, mp4tag_check_covr)
--   libmp4tag.c                   Api, Api/Get, Api/Edit, Api/Preserve: the public operations; each takes
--                                 a handle, `none` for NULL, and gives the new one and its result.
--                                 Api/Open: mp4tag_open, mp4tag_parse, mp4tag_duration.
--                                 Api/Save: mp4tag_write_tags, mp4tag_free and the setters.
--                                 Api/Messages: mp4tag_error_str
--   mp4tagfileop.c                Files (mp4tag_read_file)
--   mp4tagwrite.c, mp4writeutil.c Write/Bytes, Write/Item, Write/Build (mp4tag_build_data),
--                                 Write/Offsets (mp4tag_update_offsets), Write/Place (the fields for the
--                                 writer, parents' lengths, free boxes), Write/Copy, Write/Inplace and
--                                 Write/Rewrite (mp4tag_write_data)
--   mp4tagparse.c                 Parse/Print, Parse/Item and Parse/Tag (mp4tag_process_tag), Parse/Covr
--                                 (mp4tag_process_covr), Parse/State (reads and seeks), Parse/Boxes and
--                                 Parse/File (mp4tag_parse_file), Parse/Mdhd, Parse/Ftyp; Parse/Stream
--                                 (reads from a stream)
--   mp4tagcli.c                   Cli (options), Cli/Show (displayTag), Cli/Arguments (the loop over the
--                                 tags to set and delete), Cli/World (files, output, how a run ends,
--                                 openparse), Cli/Main (the rest of main)
-- CString has the functions of <string.h> and <stdlib.h> that the sources call, Search qsort and bsearch,
-- and Prelude what all share. The other files hold the lemmas and the theorems, and are named for their subject.
--
-- How the code corresponds: a function keeps its name without mp4tag_. A C string is its bytes without the
-- terminator, `none` where a pointer is NULL. The field `data` of a tag is `value`. `tags` is the list, and
-- tagcount its length. Functions return the changed structure and their result. A long function is cut into
-- one definition for each of its branches. The application's calls are a step relation, Step of Api/Session.
-- A pointer into a box's data is the list of the bytes from it on, and a file is the list of its bytes.
--
-- Bounds: the loop over a box's items has fuel for each byte of the box, and one more, since an item has a
-- head; the loop that copies a file has fuel for each byte it copies, since a round copies one at least. The
-- loop over a cover's boxes takes its fuel as an argument, which is a byte more than the box has. The loop
-- over the boxes of a file has fuel for each byte of the file, and one more, since a box has a head. The
-- binary search has as much fuel as the list has elements, and one more, since every round makes its range
-- smaller. Sizes are below 2 ^ 32 and are not wrapped, but for lengths and offsets that are changed in
-- place. An access behind the end of a buffer is `none`. The loop of the command line program over the tags
-- has fuel for each tag, and one more; that over the reads from a stream takes its fuel as an argument,
-- which is enough once the clock passes the time.
--
-- Assumptions: allocations succeed; a seek in a file and a write to it succeed, and a file is opened again
-- after it was moved. Whether a file can be created is a parameter. qsort may order equal elements as
-- it likes; here it keeps their order. The file system that mp4tag_read_file reads is a parameter, and so are
-- the bytes that realloc leaves behind what is written, and the floating-point division of the duration.
--
-- What the command line program does not implement is the record Env of Cli/World; getopt is the list of the
-- options that it returns. A stream that the program opens is the bytes of its file.
--
-- Not modelled: the wrappers of system calls, debug output, the parse of a stream that ends in its timeout
-- (a short read ends the parse as the end of a file does), and the copy of the arguments.
pub mod Prelude
pub mod CString
pub mod Search
pub mod Const
pub mod Tags
pub mod Files
pub mod Api
pub mod Cli
pub mod Write
pub mod Parse
