-- ===== src/Parse/Tag.antt =====
-- mp4tag_process_tag of mp4tagparse.c.
use libmp4tag.CString.{Bytes, c_string, str_eq}
use libmp4tag.Const.{boxids, BoxId}
use libmp4tag.Parse.Item.{read_be, advance, sub_32, process_data, store_item}
use libmp4tag.Prelude.{
  ℕ, zero, suc, ◌+◌, ◌%◌, ◌^◌, Option, none, some, [], ◌∷◌, ◌++◌, length, take, drop, leb,
  if◌then◌else◌,
}
use libmp4tag.Tags.{Libmp4tag}

-- The result of a loop over a box's data: it ends, it reads behind the data or writes behind a buffer,
-- or the fuel is used up.
pub data Outcome : Type 0 where
  done : Libmp4tag → Outcome
  overrun : Outcome
  unfinished : Outcome

-- The item at `p` is stored, and those behind it, until the box's length is reached.
unfoldable pub process_items : ℕ → Libmp4tag → Bytes → ℕ → ℕ → ℕ → ℕ → Bytes → Outcome
process_items zero l tnm blen plen tlen type p = Outcome.unfinished
process_items (suc fuel) l tnm blen plen tlen type p = elim (store_item l tnm type tlen p) [
  | none ↦ Outcome.overrun
  | some i ↦
      let plen' = (plen + tlen) % 2 ^ 32 in
      if leb blen ((plen' + 16) % 2 ^ 32) then Outcome.done i.tags else elim (advance tlen i.p) [
        | none ↦ Outcome.overrun
        | some q ↦ elim (process_data q) [
          | none ↦ Outcome.overrun
          | some (tlen', type') ↦ elim (advance 16 q) [
            | none ↦ Outcome.overrun
            | some r ↦ process_items fuel i.tags i.tnm blen ((plen' + 16) % 2 ^ 32) tlen' type' r
          ]
        ]
      ]
]

-- From the first item on.
unfoldable pub process_first : Libmp4tag → Bytes → ℕ → Bytes → Outcome
process_first l tnm blen p = elim (process_data p) [
  | none ↦ Outcome.overrun
  | some (tlen, type) ↦ elim (advance 16 p) [
    | none ↦ Outcome.overrun
    | some q ↦ process_items (suc (length p)) l tnm blen 0 tlen type q
  ]
]

-- One part of a custom tag's name: the length, an identifier, flags, and the text, which is copied
-- behind `tnm` in a buffer of 255 bytes, with `more` bytes behind it. The new name, the pointer, and the
-- text's length.
unfoldable pub custom_part : ℕ → Bytes → Bytes → Option (Bytes × Bytes × ℕ)
custom_part more tnm p = elim (read_be 4 p) [
  | none ↦ none
  | some n ↦
      let tlen = sub_32 (sub_32 n 8) 4 in
      let text = drop 12 p in
      if leb 12 (length p)
      then if leb tlen (length text)
        then if leb (length tnm + tlen + more) 255
          then some (tnm ++ take tlen text, drop tlen text, tlen)
          else none
        else none
      else none
]

-- The two parts, and the items behind them.
unfoldable pub process_custom : Libmp4tag → Bytes → ℕ → Bytes → Outcome
process_custom l tag blen data_p = elim (custom_part 2 (tag ++ (b':' ∷ [])) data_p) [
  | none ↦ Outcome.overrun
  | some (tnm, p, meanlen) ↦ elim (custom_part 1 (tnm ++ (b':' ∷ [])) p) [
    | none ↦ Outcome.overrun
    | some (tnm', q, namelen) ↦
        process_first l (c_string tnm') (sub_32 (sub_32 (sub_32 (sub_32 blen 16) 16) 8) namelen) q
  ]
]

unfoldable pub process_tag : Libmp4tag → Bytes → ℕ → Bytes → Outcome
process_tag l tag blen p =
    if str_eq tag (boxids BoxId.free)
    then Outcome.done l
    else if str_eq tag (boxids BoxId.custom)
    then process_custom l tag blen p
    else process_first l tag blen p
