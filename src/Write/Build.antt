-- ===== src/Write/Build.antt =====
-- mp4tag_build_append and mp4tag_build_data of mp4tagwrite.c. Sizes are below 2 ^ 32, and realloc
-- succeeds; the bytes that it adds are those of `fresh` until they are written.
use libmp4tag.CString.{Bytes, c_string, str_eq}
use libmp4tag.Const.{boxids, BoxId, boxhead_sz, data_sz, id_len, id_string, pri_custom, pri_max}
use libmp4tag.Prelude.{
  ℕ, zero, suc, ◌+◌, ◌-◌, not, ◌&&◌, ◌||◌, Option, none, some, List, [], ◌∷◌, ◌++◌, map, length,
  take, leb, ◌==◌, if◌then◌else◌,
}
use libmp4tag.Prelude.Int.{ℤ, pos, eq_ℤ}
use libmp4tag.Tags.Find.{check_tag}
use libmp4tag.Tags.Set.{is_tag}
use libmp4tag.Tags.{Mp4tag}
use libmp4tag.Write.Bytes.{append_len_32, append_data, update_data_len}
use libmp4tag.Write.Item.{
  savelen, append_value, box_ident, Custom, CustomName, custom_parts, is_image,
}

-- What mp4tag_build_append keeps between its calls: the buffer, and datacount, lastbox_offset (-1 is
-- `none`) and lastbox_nm of libmp4tag_t.
pub record Output : Type 0 where
  pub buf : Bytes
  pub datacount : ℕ
  pub lastbox_offset : Option ℕ
  pub lastbox_nm : Bytes

abbrev pub mean_len : Custom → ℕ
mean_len c = 4 + 4 + id_len + length c.appname

abbrev pub name_len : Custom → ℕ
name_len c = 4 + 4 + id_len + length c.customname

-- The length of a box's head, which the second item of an array does not have.
unfoldable pub head_len : Option Custom → ℕ
head_len none = boxhead_sz
head_len (some c) = boxhead_sz + mean_len c + name_len c

abbrev append_mean : Bytes → Option Custom → Bytes
append_mean d none = d
append_mean d (some c) =
    let d1 = append_len_32 d (mean_len c) in
    let d2 = append_len_32 (append_data d1 (boxids BoxId.mean) id_len) 0 in
    let d3 = append_data d2 c.appname (length c.appname) in
    let d4 = append_len_32 d3 (name_len c) in
    let d5 = append_len_32 (append_data d4 (boxids BoxId.name) id_len) 0 in
    append_data d5 c.customname (length c.customname)

-- The box's length and identifier, and a custom tag's names.
unfoldable pub append_head : Bytes → ℕ → Bytes → Option Custom → Bytes
append_head d tlen tnm custom = append_mean (append_data (append_len_32 d tlen) tnm id_len) custom

-- The box of the item: its length, "data", the type and the reserved bytes.
unfoldable pub append_item : Bytes → ℕ → Mp4tag → Bytes
append_item d tlen t =
    let d1 = append_data (append_len_32 d tlen) (boxids BoxId.data_box) id_len in
    append_value (append_len_32 (append_len_32 d1 t.identtype) 0) t

abbrev covername_len : Mp4tag → ℕ
covername_len t = elim t.covername [ none ↦ 0 | some n ↦ boxhead_sz + length n ]

-- The name that an array's items share, cut to the buffer it is made in.
unfoldable pub box_name : Bytes → Option Custom → Bytes
box_name tnm none = c_string tnm
box_name tnm (some c) = take 299 (c_string tnm ++ (b':' ∷ c.appname) ++ (b':' ∷ c.customname))

-- Another name ends an array.
unfoldable pub start_name : Output → Bytes → Output
start_name o nm =
    if str_eq nm o.lastbox_nm
    then o
    else record o { datacount = 0; lastbox_offset = none; lastbox_nm = nm }

-- The length of the first item's box grows with each item behind it.
unfoldable pub grow_box : Bytes → Option ℕ → ℕ → Bytes
grow_box d none len = d
grow_box d (some offset) len = update_data_len d offset len

unfoldable pub append_covername : Bytes → Option ℕ → Option Bytes → Bytes
append_covername d offset none = d
append_covername d offset (some []) = d
append_covername d offset (some (c ∷ cs)) =
    let tcnmlen = boxhead_sz + length (c ∷ cs) in
    let d1 = append_data (append_len_32 d tcnmlen) (boxids BoxId.name) id_len in
    grow_box (append_data d1 (c ∷ cs) (length (c ∷ cs))) offset tcnmlen

-- The bytes from `o.buf` on that one tag writes. Only a string or an image is added to the length
-- of the array that it is in.
unfoldable pub write_tag : Output → ℕ → Mp4tag → Bytes → Option Custom → Bytes
write_tag o offset t tnm custom =
    let first = o.datacount == 0 in
    let tlen = data_sz + savelen t in
    let headed = if first then append_head o.buf (head_len custom + tlen) tnm custom else o.buf in
    let item = append_item headed tlen t in
    let grown =
      if not first && (t.identtype == id_string || is_image t)
      then grow_box item (some offset) (data_sz + t.datalen)
      else item in
    if is_image t then append_covername grown (some offset) t.covername else grown

-- The size that the buffer gets.
unfoldable pub new_dlen : Output → Mp4tag → Option Custom → ℕ
new_dlen o t custom =
    length o.buf
    + (if o.datacount == 0 then head_len custom else 0)
    + (data_sz + savelen t)
    + covername_len t

-- The bytes behind what is written, as realloc left them.
unfoldable pub fill : (ℕ → ℕ) → ℕ → Bytes → Bytes
fill fresh zero d = d
fill fresh (suc n) d = fill fresh n (d ++ (fresh (length d) ∷ []))

abbrev pub offset_of : Output → ℕ
offset_of o = elim o.lastbox_offset [ none ↦ length o.buf | some n ↦ n ]

-- `none` where the source writes behind the end of the buffer.
unfoldable pub append_named : (ℕ → ℕ) → Output → Mp4tag → Bytes → Option Custom → Option Output
append_named fresh o t tnm custom =
    let buf = write_tag o (offset_of o) t tnm custom in
    let dlen = new_dlen o t custom in
    if leb (length buf) dlen
    then some (record {
      buf = fill fresh (dlen - length buf) buf;
      datacount = o.datacount + 1;
      lastbox_offset = some (offset_of o);
      lastbox_nm = o.lastbox_nm;
    })
    else none

-- `none` is also a read behind a custom name without a second part, and a write behind the buffer for the
-- shared name, where the second snprintf starts behind its end.
unfoldable pub build_append : (ℕ → ℕ) → Output → Mp4tag → Option Output
build_append fresh o t = elim t.tag [
  | none ↦ some o
  | some tag ↦
      let tnm = box_ident tag in
      if is_tag tag BoxId.custom
      then elim (custom_parts tag) [
        | CustomName.absent ↦ some o
        | CustomName.overrun ↦ none
        | CustomName.parts c ↦
            if leb (length c.appname) 295
            then append_named fresh (start_name o (box_name tnm (some c))) t tnm (some c)
            else none
      ]
      else append_named fresh (start_name o (box_name tnm none)) t tnm none
]

-- The priority under which a tag is written.
unfoldable pub set_priority : Mp4tag → Mp4tag
set_priority t = elim t.tag [
  | none ↦ record t { priority = pos pri_custom }
  | some tag ↦
      if is_tag tag BoxId.custom
      then record t { priority = pos pri_custom }
      else elim (check_tag (some tag)) [
        | none ↦ record t { priority = pos pri_custom }
        | some d ↦ record t { priority = d.priority }
      ]
]

-- The tags of one priority, in the order of the list.
unfoldable pub build_priority : (ℕ → ℕ) → ℤ → List Mp4tag → Output → Option Output
build_priority fresh pri [] o = some o
build_priority fresh pri (t ∷ ts) o =
    if eq_ℤ t.priority pri
    then elim (build_append fresh o t) [ none ↦ none | some o' ↦ build_priority fresh pri ts o' ]
    else build_priority fresh pri ts o

-- The priorities from `pri` on, `n` of them.
unfoldable pub build_priorities : (ℕ → ℕ) → ℕ → ℕ → List Mp4tag → Output → Option Output
build_priorities fresh zero pri ts o = some o
build_priorities fresh (suc n) pri ts o = elim (build_priority fresh (pos pri) ts o) [
  | none ↦ none
  | some o' ↦ build_priorities fresh n (suc pri) ts o'
]

abbrev pub empty_output : Output
empty_output = record { buf = []; datacount = 0; lastbox_offset = none; lastbox_nm = [] }

-- The tags with their priorities, and the data.
unfoldable pub build_data : (ℕ → ℕ) → List Mp4tag → Option (List Mp4tag × Bytes)
build_data fresh ts =
    let prioritised = map set_priority ts in
    elim (build_priorities fresh pri_max 0 prioritised empty_output) [
      | none ↦ none
      | some o ↦ some (prioritised, o.buf)
    ]
