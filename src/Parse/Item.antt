-- ===== src/Parse/Item.antt =====
-- mp4tag_process_data of mp4tagparse.c, and what mp4tag_process_tag stores for one item. A pointer into
-- the box's data is the list of the bytes from it on; a read behind them is `none`. The wrap-around of
-- uint32_t is written out.
use libmp4tag.CString.{Bytes, str_eq}
use libmp4tag.Const.Genres.{mp4tagoldgenrelist}
use libmp4tag.Const.{boxids, BoxId, copyright_str, id_data, id_num, id_string}
use libmp4tag.Parse.Print.{show_u64, show_signed}
use libmp4tag.Prelude.{
  ℕ, ◌+◌, ◌-◌, ◌%◌, ◌^◌, Bool, false, not, ◌&&◌, ◌||◌, Option, none, some, [], ◌∷◌, ◌++◌, length,
  take, drop, get_elem?, ltb, leb, ◌==◌, if◌then◌else◌,
}
use libmp4tag.Prelude.Int.{pos, neg}
use libmp4tag.Tags.Add.{add_tag}
use libmp4tag.Tags.{Libmp4tag}
use libmp4tag.Write.Bytes.{be_value}

-- memcpy of `n` bytes from the pointer, and the big-endian number in them.
unfoldable pub read_be : ℕ → Bytes → Option ℕ
read_be n p = if leb n (length p) then some (be_value 0 (take n p)) else none

-- The pointer `n` bytes further on.
unfoldable pub advance : ℕ → Bytes → Option Bytes
advance n p = if leb n (length p) then some (drop n p) else none

abbrev pub sub_32 : ℕ → ℕ → ℕ
sub_32 a b = (a + (2 ^ 32 - b)) % 2 ^ 32

abbrev both : Option ℕ → Option ℕ → Option (ℕ × ℕ)
both none b = none
both (some a) none = none
both (some a) (some b) = some (sub_32 a 16, b % 2 ^ 24)

-- The length of an item's value, and its type.
unfoldable pub process_data : Bytes → Option (ℕ × ℕ)
process_data p = both (read_be 4 p) (read_be 4 (drop 8 p))

-- A tag with a string value is added.
abbrev pub add_text : Libmp4tag → Bytes → Bytes → ℕ → ℕ → Libmp4tag
add_text l tnm text type tlen = (add_tag l tnm text (pos 0) type tlen none).0

-- What one item leaves: the structure, the tag's name, and the pointer.
pub record Item : Type 0 where
  pub tags : Libmp4tag
  pub tnm : Bytes
  pub p : Bytes

abbrev pub keep_item : Libmp4tag → Bytes → Bytes → Item
keep_item l tnm p = record { tags = l; tnm = tnm; p = p }

abbrev pub with_number : Option ℕ → (ℕ → Item) → Option Item
with_number none f = none
with_number (some n) f = some (f n)

abbrev pub pair_text : ℕ → ℕ → Bytes
pair_text t32 t16 =
    if t16 == 0 then show_signed 32 t32 else show_signed 32 t32 ++ (b'/' ∷ show_u64 t16)

-- disk and trkn: the pointer goes on to the second number, if it is there.
unfoldable pub store_pair : Libmp4tag → Bytes → ℕ → ℕ → Bytes → Option Item
store_pair l tnm type tlen p = elim (read_be 4 p) [
  | none ↦ none
  | some t32 ↦
      if not (str_eq tnm (boxids BoxId.trkn)) || leb 6 tlen
      then with_number (read_be 2 (drop 4 p))
          (λ t16. keep_item (add_text l tnm (pair_text t32 t16) type tlen) tnm (drop 4 p))
      else some (keep_item (add_text l tnm (pair_text t32 0) type tlen) tnm p)
]

abbrev pub genre_name : ℕ → Option Bytes
genre_name t16 = get_elem? mp4tagoldgenrelist ((t16 + (2 ^ 16 - 1)) % 2 ^ 16)

-- gnre holds one more than the genre's place in the list, and is kept under the genre's own name.
unfoldable pub store_short : Libmp4tag → Bytes → ℕ → ℕ → Bytes → ℕ → Item
store_short l tnm type tlen p t16 =
    if str_eq tnm (boxids BoxId.gnre)
    then elim (genre_name t16) [
      | none ↦ keep_item l tnm p
      | some g ↦
          keep_item (add_text l (copyright_str ++ boxids BoxId.gen) g id_string (length g))
            (copyright_str ++ boxids BoxId.gen) p
    ]
    else keep_item (add_text l tnm (show_u64 t16) type tlen) tnm p

abbrev pub has_zero : Bytes → Bool
has_zero [] = false
has_zero (x ∷ xs) = x == 0 || has_zero xs

-- Binary data. With no bytes the pointer is taken for a C string.
unfoldable pub store_binary : Libmp4tag → Bytes → ℕ → ℕ → Bytes → Option Item
store_binary l tnm type tlen p =
    if (if tlen == 0 then has_zero p else leb tlen (length p))
    then some (keep_item (add_tag l tnm p (pos tlen) type tlen none).0 tnm p)
    else none

-- The types of general data.
unfoldable pub store_data : Libmp4tag → Bytes → ℕ → ℕ → Bytes → Option Item
store_data l tnm type tlen p =
    if str_eq tnm (boxids BoxId.disk) || str_eq tnm (boxids BoxId.trkn)
    then store_pair l tnm type tlen p
    else if tlen == 4
    then with_number (read_be 4 p)
        (λ n. keep_item (add_text l tnm (show_signed 32 n) type tlen) tnm p)
    else if tlen == 2
    then with_number (read_be 2 p) (store_short l tnm type tlen p)
    else if tlen == 8
    then with_number (read_be 8 p)
        (λ n. keep_item (add_text l tnm (show_signed 64 n) type tlen) tnm p)
    else if tlen == 1
    then with_number (read_be 1 p) (λ n. keep_item (add_text l tnm (show_u64 n) type tlen) tnm p)
    else store_binary l tnm type tlen p

-- A string has no terminator. Items of other types are passed over.
unfoldable pub store_item : Libmp4tag → Bytes → ℕ → ℕ → Bytes → Option Item
store_item l tnm type tlen p =
    if type == id_data || type == id_num
    then store_data l tnm type tlen p
    else if type == id_string && ltb 0 tlen
    then if leb tlen (length p)
      then some (keep_item (add_tag l tnm p (neg (pos tlen)) type tlen none).0 tnm p)
      else none
    else some (keep_item l tnm p)
