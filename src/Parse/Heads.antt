-- ===== src/Parse/Heads.antt =====
-- mp4tag_process_data of mp4tagparse.c on the box of an item that mp4tag_build_append has written.
use libmp4tag.CString.{Bytes}
use libmp4tag.Const.{boxids, BoxId, data_sz}
use libmp4tag.Parse.Item.{read_be, advance, sub_32, process_data}
use libmp4tag.Prelude.{
  ℕ, ◌+◌, ◌%◌, ◌^◌, ◌<◌, ◌≡◌, refl, true, some, ◌++◌, length, drop, leb, length-append, arith,
}
use libmp4tag.Write.Bytes.{
  be_bytes, length-be_bytes, be_value-be_bytes, take-append_length, drop-append_length,
}
use mathlib.Core.List.{append_assoc}

pub read_be-be_bytes :
    (n v : ℕ) (rest : Bytes) → v < 256 ^ n → read_be n (be_bytes n v ++ rest) ≡ some v
unfolding read_be
read_be-be_bytes n v rest h =
    let long : leb n (length (be_bytes n v ++ rest)) ≡ true =
      ground (arith, length-append (be_bytes n v) rest, length-be_bytes n v) in
    rw
      (
        long,
        take-append_length (be_bytes n v) rest n (length-be_bytes n v),
        be_value-be_bytes n v h,
      )
      refl

pub advance-append : (xs ys : Bytes) (n : ℕ) → length xs ≡ n → advance n (xs ++ ys) ≡ some ys
unfolding advance
advance-append xs ys n h =
    let long : leb n (length (xs ++ ys)) ≡ true = ground (arith, length-append xs ys) in
    rw (long, drop-append_length xs ys n h) refl

-- The head of an item's box: its length, "data", the type, and the reserved bytes.
abbrev pub item_head : ℕ → ℕ → Bytes
item_head len type =
    be_bytes 4 (data_sz + len) ++ (boxids BoxId.data_box ++ (be_bytes 4 type ++ be_bytes 4 0))

pub length-item_head : (len type : ℕ) → length (item_head len type) ≡ 16
length-item_head len type = omega (
  arith,
  length-append (be_bytes 4 (data_sz + len))
      (boxids BoxId.data_box ++ (be_bytes 4 type ++ be_bytes 4 0)),
  length-append (be_bytes 4 type) (be_bytes 4 0),
  length-be_bytes 4 (data_sz + len),
  length-be_bytes 4 type,
  length-be_bytes 4 0,
)

pub process_data-item_head :
    (len type : ℕ) (rest : Bytes)
    → data_sz + len < 2 ^ 32
    → type < 2 ^ 24
    → process_data (item_head len type ++ rest) ≡ some (len, type)
unfolding process_data
process_data-item_head len type rest h k =
    let tail = be_bytes 4 type ++ (be_bytes 4 0 ++ rest) in
    let flat : item_head len type ++ rest
        ≡ be_bytes 4 (data_sz + len) ++ (boxids BoxId.data_box ++ tail) =
      simp append_assoc in
    let behind : drop 8 (be_bytes 4 (data_sz + len) ++ (boxids BoxId.data_box ++ tail)) ≡ tail =
      rw (← append_assoc (be_bytes 4 (data_sz + len)) (boxids BoxId.data_box) tail) (
        drop-append_length (be_bytes 4 (data_sz + len) ++ boxids BoxId.data_box) tail 8 (
          omega (
            arith,
            length-append (be_bytes 4 (data_sz + len)) (boxids BoxId.data_box),
            length-be_bytes 4 (data_sz + len),
          ))) in
    let size : sub_32 (data_sz + len) 16 ≡ len = omega arith in
    let kind : type % 2 ^ 24 ≡ type = omega arith in
    rw
      (
        flat,
        behind,
        read_be-be_bytes 4 (data_sz + len) (boxids BoxId.data_box ++ tail) h,
        read_be-be_bytes 4 type (be_bytes 4 0 ++ rest) (omega arith),
      )
      (rw (size, kind) refl)
