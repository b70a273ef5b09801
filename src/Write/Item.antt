-- ===== src/Write/Item.antt =====
-- The bytes of one item: mp4tag_parse_pair, and the branches of mp4tag_build_append that write a
-- value, in mp4tagwrite.c.
use libmp4tag.CString.{Bytes, is_space, is_digit, digits_value, atoll, str_eq, starts_with, strtok}
use libmp4tag.Const.{
  boxids, BoxId, copyright_str, prefix_char, id_len, id_string, id_num, id_data, id_jpg, id_png,
}
use libmp4tag.Prelude.{
  ℕ, ◌-◌, ◌%◌, ◌^◌, Bool, false, ◌||◌, Option, none, some, [], ◌∷◌, ◌++◌, length, take, drop, ◌==◌,
  if◌then◌else◌,
}
use libmp4tag.Prelude.Int.{ℤ, pos, negsuc, neg}
use libmp4tag.Tags.{Mp4tag}
use libmp4tag.Write.Bytes.{append_len_8, append_len_16, append_len_32, append_len_64, append_data}

-- A signed value converted to uint64_t.
abbrev pub to_u64 : ℤ → ℕ
to_u64 (pos n) = n % 2 ^ 64
to_u64 (negsuc n) = 2 ^ 64 - 1 - n % 2 ^ 64

unfoldable skip_space : Bytes → Bytes
skip_space [] = []
skip_space (c ∷ cs) = if is_space c then skip_space cs else c ∷ cs

unfoldable skip_digits : Bytes → Bytes
skip_digits [] = []
skip_digits (c ∷ cs) = if is_digit c then skip_digits cs else c ∷ cs

-- One digit at least.
abbrev scan_digits : Bytes → Option (ℕ × Bytes)
scan_digits [] = none
scan_digits (c ∷ cs) =
    if is_digit c then some (digits_value 0 (c ∷ cs), skip_digits (c ∷ cs)) else none

abbrev scan_signed : Bytes → Option (ℤ × Bytes)
scan_signed [] = none
scan_signed (c ∷ cs) =
    if c == b'-'
    then elim (scan_digits cs) [ none ↦ none | some (n, r) ↦ some (neg (pos n), r) ]
    else elim (scan_digits (if c == b'+' then cs else c ∷ cs)) [
      | none ↦ none
      | some (n, r) ↦ some (pos n, r)
    ]

-- The conversion %d of sscanf: its value, and the rest of the input.
unfoldable scan_int : Bytes → Option (ℤ × Bytes)
unfolding skip_space skip_digits
scan_int s = scan_signed (skip_space s)

-- A literal of the format, and another %d behind it. The value is 0 if it does not match.
abbrev scan_second : ℕ → Bytes → ℤ
scan_second sep [] = pos 0
scan_second sep (c ∷ cs) =
    if c == sep then elim (scan_int cs) [ none ↦ pos 0 | some (b, r) ↦ b ] else pos 0

-- "(%d,%d)", mutagen's format.
abbrev scan_parens : Bytes → ℤ × ℤ
scan_parens [] = (pos 0, pos 0)
scan_parens (c ∷ cs) =
    if c == b'('
    then elim (scan_int cs) [ none ↦ (pos 0, pos 0) | some (a, r) ↦ (a, scan_second b',' r) ]
    else (pos 0, pos 0)

-- "%d/%d", with one number or two; `a` and `b` are 0 before the call.
unfoldable pub parse_pair : Bytes → ℤ × ℤ
unfolding scan_int
parse_pair s = elim (scan_int s) [ some (a, r) ↦ (a, scan_second b'/' r) | none ↦ scan_parens s ]

abbrev pub value_of : Mp4tag → Bytes
value_of t = elim t.value [ none ↦ [] | some v ↦ v ]

abbrev pub named : Mp4tag → BoxId → Bool
named t b = elim t.tag [ none ↦ false | some s ↦ str_eq s (boxids b) ]

-- The number of bytes that are kept for the value.
unfoldable pub savelen : Mp4tag → ℕ
savelen t =
    if named t BoxId.trkn then 8 else if t.identtype == id_string then t.datalen else t.internallen

-- Only these four lengths are written.
unfoldable pub append_num : Bytes → Mp4tag → Bytes
append_num d t =
    let t64 : ℕ = elim t.value [ none ↦ 0 | some v ↦ to_u64 (atoll v) ] in
    if t.internallen == 1
    then append_len_8 d t64
    else if t.internallen == 2
    then append_len_16 d t64
    else if t.internallen == 4
    then append_len_32 d t64
    else if t.internallen == 8
    then append_len_64 d t64
    else d

-- trkn has two bytes of padding.
unfoldable pub append_binary : Bytes → Mp4tag → Bytes
append_binary d t =
    let (ta, tb) = parse_pair (value_of t) in
    if named t BoxId.trkn
    then append_len_16 (append_len_16 (append_len_32 d (to_u64 ta)) (to_u64 tb)) 0
    else if named t BoxId.disk
    then append_len_16 (append_len_32 d (to_u64 ta)) (to_u64 tb)
    else append_data d (value_of t) t.datalen

abbrev pub is_image : Mp4tag → Bool
is_image t = t.identtype == id_jpg || t.identtype == id_png

-- The value, by the type of the data; other types have no value.
unfoldable pub append_value : Bytes → Mp4tag → Bytes
unfolding append_num append_binary
append_value d t =
    if t.identtype == id_string
    then append_data d (value_of t) t.datalen
    else if t.identtype == id_num
    then append_num d t
    else if t.identtype == id_data
    then append_binary d t
    else if is_image t
    then append_data d (value_of t) t.datalen
    else d

-- The four bytes of the box's identifier, in which the copyright sign is one byte. The copy reads
-- the terminator of a shorter name.
unfoldable pub box_ident : Bytes → Bytes
box_ident tag =
    if starts_with tag copyright_str
    then prefix_char ∷ take 3 (drop (length copyright_str) tag ++ (0 ∷ 0 ∷ 0 ∷ []))
    else take id_len (tag ++ (0 ∷ 0 ∷ 0 ∷ 0 ∷ []))

-- The parts of a custom tag's name.
pub record Custom : Type 0 where
  pub appname : Bytes
  pub customname : Bytes

-- Without an application name nothing is written. With nothing behind the application name the pointer to
-- the second part is behind the string.
pub data CustomName : Type 0 where
  absent : CustomName
  overrun : CustomName
  parts : Custom → CustomName

unfoldable pub custom_parts : Bytes → CustomName
custom_parts tag = elim (strtok b':' tag) [
  | none ↦ CustomName.absent
  | some ident ↦ elim (strtok b':' ident.rest) [
    | none ↦ CustomName.absent
    | some app ↦
        if length app.start == length app.text
        then CustomName.overrun
        else CustomName.parts (record { appname = app.text; customname = app.rest })
  ]
]
