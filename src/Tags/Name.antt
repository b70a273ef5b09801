-- ===== src/Tags/Name.antt =====
-- mp4tag_parse_tagname of mp4tagutil.c: a tag's name may carry an index, `name:index`, and a cover's
-- `:name` behind it. A custom tag is `----:app-name:tag-name`, with the same suffixes.
use mathlib.Core.Option
use libmp4tag.CString.{Bytes, starts_with, strstr, Token, strtok, atoi, str_eq}
use libmp4tag.Const.{boxids, BoxId, id_len}
use libmp4tag.Prelude.{ℕ, ◌+◌, ◌-◌, Option, none, some, leb, if◌then◌else◌, length, take, drop}
use libmp4tag.Prelude.Int.{ℤ, pos, minus_one}

abbrev pub colon : ℕ
colon = b':'

-- `name` is the C string that the call leaves in its argument, `dataidx` what it stores through
-- pdataidx, and `offset` the result.
pub record TagName : Type 0 where
  pub name : Bytes
  pub dataidx : ℤ
  pub offset : ℤ

-- The bytes behind the first delimiter.
unfoldable pub after_colon : Bytes → Option Bytes
after_colon s = Option.map (drop 1) (strstr s colon)

-- Where the tokens start: behind the application name of a custom tag.
unfoldable pub name_start : Bytes → Option Bytes
unfolding after_colon
name_start tag =
    if starts_with tag (boxids BoxId.custom)
    then Option.bind (after_colon tag) after_colon
    else some tag

-- The third token, if it is "name".
name_offset : Bytes → Option Token → ℤ
name_offset tag none = minus_one
name_offset tag (some t) =
    if str_eq t.text (boxids BoxId.name) then pos (length tag - length t.start) else minus_one

parse_index : Bytes → Bytes → Option Token → TagName
unfolding name_offset
parse_index tag name none = record { name = name; dataidx = minus_one; offset = minus_one }
parse_index tag name (some t) = record {
  name = name;
  dataidx = atoi t.text;
  offset = name_offset tag (strtok colon t.rest);
}

-- The first token ends where strtok_r wrote a zero byte, or with the string.
parse_tokens : Bytes → Option Token → TagName
unfolding parse_index
parse_tokens tag none = record { name = tag; dataidx = minus_one; offset = minus_one }
parse_tokens tag (some t) =
    parse_index tag (take (length tag - length t.start + length t.text) tag) (strtok colon t.rest)

parse_start : Bytes → Option Bytes → TagName
unfolding parse_tokens
parse_start tag none = record { name = tag; dataidx = minus_one; offset = minus_one }
parse_start tag (some p) = parse_tokens tag (strtok colon p)

unfoldable pub parse_tagname : Bytes → TagName
unfolding parse_start name_start
parse_tagname tag =
    if leb (length tag) id_len
    then record { name = tag; dataidx = minus_one; offset = minus_one }
    else parse_start tag (name_start tag)
