-- ===== src/Parse/Integers.antt =====
-- mp4tag_process_tag of mp4tagparse.c and mp4tag_build_append of mp4tagwrite.c on the data box of a number.
use libmp4tag.CString.{Bytes, str_eq, c_string}
use libmp4tag.Const.{boxids, BoxId, id_num, id_data, data_sz, pri_max}
use libmp4tag.Parse.Heads.{item_head, length-item_head, read_be-be_bytes}
use libmp4tag.Parse.Item.{read_be, add_text, keep_item, store_short, store_data, store_item}
use libmp4tag.Parse.Number.{
  to_u64-atoll-show_u64, to_u64-show_signed_32, to_u64-show_signed_64, c_string-show_u64,
  c_string-show_signed,
}
use libmp4tag.Parse.Print.{show_u64, show_signed}
use libmp4tag.Parse.RoundTrip.{IsPlain}
use libmp4tag.Parse.Steps.{process_items-last, process_first-item_head}
use libmp4tag.Parse.Tag.{Outcome, process_tag}
use libmp4tag.Prelude.{
  ℕ, ◌+◌, ◌*◌, ◌/◌, ◌%◌, ◌^◌, ◌<◌, ◌≤◌, ◌≡◌, refl, sym, ap, ◌∙◌, true, ◌==◌, ◌||◌, false, none,
  some, [], ◌∷◌, ◌++◌, length, length-append, arith,
}
use libmp4tag.Prelude.Int.{pos}
use libmp4tag.Tags.Add.{last_tag, next_dataidx, new_tag, add_tag}
use libmp4tag.Tags.{Mp4tag, Libmp4tag, list_of}
use libmp4tag.Write.Build.{append_item}
use libmp4tag.Write.Bytes.{be_bytes, length-be_bytes}
use libmp4tag.Write.Item.{savelen, append_num, append_value}
use mathlib.Core.List.{append_assoc, append-nil}

-- The widths of a number.
pub data Width : Type 0 where
  one two four eight : Width

abbrev pub size : Width → ℕ
size one = 1
size two = 2
size four = 4
size eight = 8

-- The text of a number: those of four and eight bytes have a sign.
abbrev pub number_text : Width → ℕ → Bytes
number_text one v = show_u64 v
number_text two v = show_u64 v
number_text four v = show_signed 32 v
number_text eight v = show_signed 64 v

-- A name that numbers have no other form under.
pub record IsNumeric (tag : Bytes) : Type 0 where
  pub plain : IsPlain tag
  pub not_disk : str_eq tag (boxids BoxId.disk) ≡ false
  pub not_trkn : str_eq tag (boxids BoxId.trkn) ≡ false
  pub not_gnre : str_eq tag (boxids BoxId.gnre) ≡ false

abbrev pub typed_item : ℕ → Width → ℕ → Bytes
typed_item type w v = item_head (size w) type ++ be_bytes (size w) v

abbrev pub number_item : Width → ℕ → Bytes
number_item w v = typed_item id_num w v

-- The tag that the parser makes.
abbrev pub typed_tag : ℕ → Bytes → ℕ → Width → ℕ → Mp4tag
typed_tag type tag d w v = record {
  tag = some tag;
  value = some (number_text w v);
  covername = none;
  datalen = length (number_text w v);
  dataidx = pos d;
  idx = 0;
  identtype = type;
  internallen = size w;
  priority = pos pri_max;
  binary = false;
}

abbrev pub number_tag : Bytes → ℕ → Width → ℕ → Mp4tag
number_tag tag d w v = typed_tag id_num tag d w v

c_string-number_text : (w : Width) (v : ℕ) → c_string (number_text w v) ≡ number_text w v
c_string-number_text one v = c_string-show_u64 v
c_string-number_text two v = c_string-show_u64 v
c_string-number_text four v = c_string-show_signed 32 v
c_string-number_text eight v = c_string-show_signed 64 v

read_be-all : (k v : ℕ) → v < 256 ^ k → read_be k (be_bytes k v) ≡ some v
read_be-all k v h = ap (read_be k) (sym (append-nil (be_bytes k v))) ∙ read_be-be_bytes k v [] h

module _ (tag : Bytes) (n : IsNumeric tag) (l : Libmp4tag) (type : ℕ) where
  store_data-number :
      (w : Width) (v : ℕ)
      → v < 256 ^ size w
      → store_data l tag type (size w) (be_bytes (size w) v)
        ≡ some
            (keep_item (add_text l tag (number_text w v) type (size w)) tag (be_bytes (size w) v))
  unfolding store_data store_short
  store_data-number one v h = rw (store_data, n.not_disk, n.not_trkn, read_be-all 1 v h) refl
  store_data-number two v h =
      rw (store_data, n.not_disk, n.not_trkn, read_be-all 2 v h, n.not_gnre) refl
  store_data-number four v h = rw (store_data, n.not_disk, n.not_trkn, read_be-all 4 v h) refl
  store_data-number eight v h = rw (store_data, n.not_disk, n.not_trkn, read_be-all 8 v h) refl

  new_tag-number :
      (w : Width) (d v : ℕ)
      → next_dataidx (last_tag (list_of l.tags)) tag ≡ pos d
      → new_tag l tag (number_text w v) (pos 0) type (size w) none ≡ typed_tag type tag d w v
  unfolding new_tag
  new_tag-number w d v e =
      rw (new_tag, n.plain.not_covr, n.plain.name, e, c_string-number_text w v) refl

-- The bytes of a number are those of its last bits.
be_bytes-low : (v k : ℕ) → be_bytes 4 (v + k * 2 ^ 32) ≡ be_bytes 4 v
unfolding be_bytes
be_bytes-low v k =
    let b3 : (v + k * 2 ^ 32) / 256 / 256 / 256 % 256 ≡ v / 256 / 256 / 256 % 256 = omega arith in
    let b2 : (v + k * 2 ^ 32) / 256 / 256 % 256 ≡ v / 256 / 256 % 256 = omega arith in
    let b1 : (v + k * 2 ^ 32) / 256 % 256 ≡ v / 256 % 256 = omega arith in
    let b0 : (v + k * 2 ^ 32) % 256 ≡ v % 256 = omega arith in rw (be_bytes, b3, b2, b1, b0) refl

append_num-number :
    (d tag : Bytes) (i : ℕ) (w : Width) (v : ℕ)
    → v < 256 ^ size w
    → append_num d (number_tag tag i w v) ≡ d ++ be_bytes (size w) v
unfolding append_num be_bytes
append_num-number d tag i one v h =
    ap (λ x. d ++ (x % 256 ∷ [])) (to_u64-atoll-show_u64 v (omega (arith, h)))
append_num-number d tag i two v h =
    ap (λ x. d ++ be_bytes 2 x) (to_u64-atoll-show_u64 v (omega (arith, h)))
append_num-number d tag i four v h =
    let (k, e) = to_u64-show_signed_32 v (omega (arith, h)) in
    ap (λ x. d ++ be_bytes 4 x) e ∙ ap (◌++◌ d) (be_bytes-low v k)
append_num-number d tag i eight v h =
    ap (λ x. d ++ be_bytes 8 x) (to_u64-show_signed_64 v (omega (arith, h)))

append_item-number :
    (d tag : Bytes) (i : ℕ) (w : Width) (v : ℕ)
    → str_eq tag (boxids BoxId.trkn) ≡ false
    → v < 256 ^ size w
    → append_item d (data_sz + savelen (number_tag tag i w v)) (number_tag tag i w v)
      ≡ d ++ number_item w v
unfolding append_item append_value savelen
append_item-number d tag i w v t h =
    let len : savelen (number_tag tag i w v) ≡ size w = rw (savelen, t) refl in
    append_num-number _ tag i w v h
    ∙ ap
        (λ k.
          ((((d ++ be_bytes 4 (data_sz + k)) ++ boxids BoxId.data_box) ++ be_bytes 4 id_num)
            ++ be_bytes 4 0)
          ++ be_bytes (size w) v)
        len
    ∙ simp append_assoc

size-small : (w : Width) → size w ≤ 8
size-small one = omega arith
size-small two = omega arith
size-small four = omega arith
size-small eight = omega arith

-- The parser makes a tag of the data box.
pub process_tag-typed_item :
    (tag : Bytes)
    → IsNumeric tag
    → (l : Libmp4tag) (type : ℕ) (w : Width) (d v : ℕ) → (type == id_data || type == id_num) ≡ true
    → type < 2 ^ 24
    → v < 256 ^ size w
    → next_dataidx (last_tag (list_of l.tags)) tag ≡ pos d
    → (l' : Libmp4tag) × (process_tag l tag (length (typed_item type w v)) (typed_item type w v)
        ≡ Outcome.done l')
      × (list_of l'.tags ≡ list_of l.tags ++ (typed_tag type tag d w v ∷ []))
unfolding process_tag store_item add_tag
process_tag-typed_item tag n l type w d v known small h e =
    let len : length (typed_item type w v) ≡ 16 + size w = omega (
      arith,
      length-append (item_head (size w) type) (be_bytes (size w) v),
      length-item_head (size w) type,
      length-be_bytes (size w) v,
    ) in
    let kept : store_item l tag type (size w) (be_bytes (size w) v)
        ≡ some
            (keep_item (add_text l tag (number_text w v) type (size w)) tag (be_bytes (size w) v)) =
      rw (store_item, known) (store_data-number tag n l type w v h) in
    (
      add_text l tag (number_text w v) type (size w),
      rw (process_tag, n.plain.not_free, n.plain.not_custom)
          (process_first-item_head l tag (length (typed_item type w v)) (size w) type
              (be_bytes (size w) v) (omega (arith, size-small w)) small
            ∙ process_items-last (length (typed_item type w v)) l tag (length (typed_item type w v))
                0 (size w) type (be_bytes (size w) v) _ kept (omega (arith, size-small w))
                (omega (arith, len))),
      ap (λ t. list_of l.tags ++ (t ∷ [])) (new_tag-number tag n l type w d v e),
    )

-- For a name that is not free or custom, no cover's, not disk, trkn or gnre, and has no index in it,
-- and a number of one, two, four or eight bytes in a data box of integer type: if the list's last
-- tag gives it the index d, mp4tag_process_tag on the box adds one tag, with the name, the index d,
-- the type, the width and the number as decimal text, with a sign for four and eight bytes; and what
-- mp4tag_build_append writes as the data box of this tag, behind any bytes, is the box that was
-- read.
pub process_tag-append_item :
    (tag : Bytes)
    → IsNumeric tag
    → (l : Libmp4tag) (w : Width) (d v : ℕ) (before : Bytes) → v < 256 ^ size w
    → next_dataidx (last_tag (list_of l.tags)) tag ≡ pos d
    → (l' : Libmp4tag) × (t : Mp4tag) × (process_tag l tag
          (length (number_item w v))
          (number_item w v)
        ≡ Outcome.done l')
      × (list_of l'.tags ≡ list_of l.tags ++ (t ∷ []))
      × (t ≡ number_tag tag d w v)
      × (append_item before (data_sz + savelen t) t ≡ before ++ number_item w v)
process_tag-append_item tag n l w d v before h e =
    let (l', run, all) = process_tag-typed_item tag n l id_num w d v refl (omega arith) h e in
    (l', number_tag tag d w v, run, all, refl, append_item-number before tag d w v n.not_trkn h)
