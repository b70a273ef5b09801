-- ===== src/Parse/Ftyp.antt =====
-- mp4tag_parse_ftyp of mp4tagparse.c.
use libmp4tag.CString.{Bytes, codes, str_eq, c_string}
use libmp4tag.Const.{boxids, BoxId, boxhead_sz}
use libmp4tag.Parse.Item.{sub_32}
use libmp4tag.Parse.State.{Parser, data_read, rest_of}
use libmp4tag.Prelude.{
  ℕ, zero, suc, ap, ◌+◌, ◌/◌, ◌%◌, ◌<◌, ◌≡◌, refl, Bool, true, false, ◌||◌, Option, none, some, [],
  ◌∷◌, length, take, drop, leb, ◌==◌, if◌then◌else◌, arith,
}
use libmp4tag.Tags.{Mp4error}
use libmp4tag.Write.Bytes.{be_value}

-- The number of hits, and mp7meta.
pub record Brands : Type 0 where
  pub ok : ℕ
  pub mp7meta : Bool

abbrev hit : Bool → Brands → Brands
hit found r = if found then record r { ok = r.ok + 1 } else r

abbrev major_brand : Bytes → Bool
major_brand e =
    str_eq (c_string e) (codes "M4A ")
    || str_eq (c_string e) (codes "kddi")
    || str_eq (c_string e) (codes "isom")
    || str_eq (c_string e) (codes "mp41")
    || str_eq (c_string e) (codes "mp42")

abbrev is_version_2 : Bytes → Bool
is_version_2 e = be_value 0 e / 256 % 256 == 2

abbrev is_brand : Bytes → Bytes → Bool
is_brand e s = str_eq (c_string e) s

abbrev mpeg_7 : Bytes → Brands → Brands
mpeg_7 e r =
    if is_brand e (codes "mp71") || is_brand e (codes "mp7b")
    then record r { mp7meta = true }
    else r

-- A compatible brand.
abbrev other_brand : Bytes → Brands → Brands
other_brand e r = hit (is_brand e (codes "isom")) (
    hit (is_brand e (codes "3gp5")) (
      hit (is_brand e (codes "3gp4")) (
        hit (is_brand e (codes "3g2a")) (
          mpeg_7 e (
            hit (is_brand e (codes "M4P ")) (
              hit (is_brand e (codes "M4B ")) (
                hit (is_brand e (codes "M4A "))
                  (hit (is_brand e (codes "mp41") || is_brand e (codes "mp42")) r))))))))

abbrev four_bytes : ℕ → Bytes → Brands → Brands
four_bytes idx e r =
    if idx == 0
    then hit (major_brand e) r
    else if idx == 4
    then hit (is_version_2 e) r
    else other_brand e r

-- The loop, `idx` bytes behind the start. `none` is a read behind the data.
unfoldable pub count_brands : ℕ → Bytes → Brands → Option Brands
count_brands idx [] r = some r
count_brands idx (a ∷ []) r = none
count_brands idx (a ∷ b ∷ []) r = none
count_brands idx (a ∷ b ∷ c ∷ []) r = none
count_brands idx (a ∷ b ∷ c ∷ d ∷ buff) r =
    count_brands (idx + 4) buff (four_bytes idx (a ∷ b ∷ c ∷ d ∷ []) r)

abbrev pub with_brands : Parser → Option Brands → Option (Mp4error × Parser)
with_brands s none = none
with_brands s (some r) =
    some
      (if leb 3 r.ok then Mp4error.ok else Mp4error.err_not_mp4, record s { mp7meta = r.mp7meta })

abbrev pub with_ftyp : Option Bytes × Parser → Option (Mp4error × Parser)
with_ftyp (none, s) = some (s.tags.mp4error, s)
with_ftyp (some buff, s) =
    with_brands s (count_brands 0 buff (record { ok = 1; mp7meta = s.mp7meta }))

abbrev pub with_head : Option Bytes × Parser → Option (Mp4error × Parser)
with_head (none, s) = some (s.tags.mp4error, s)
with_head (some bh, s) =
    if str_eq (c_string (drop 4 bh)) (boxids BoxId.ftyp)
    then with_ftyp (data_read s (sub_32 (be_value 0 (take 4 bh)) boxhead_sz))
    else some (
      Mp4error.err_not_mp4,
      record s { tags = record s.tags { mp4error = Mp4error.err_not_mp4 } },
    )

-- The result, and the structure.
unfoldable pub parse_ftyp : Parser → Option (Mp4error × Parser)
parse_ftyp s = with_head (data_read s boxhead_sz)

take-short : (n : ℕ) (xs : Bytes) → length xs < n → take n xs ≡ xs
take-short zero xs h = absurd (omega arith)
take-short (suc n) [] h = refl
take-short (suc n) (x ∷ xs) h = ap (◌∷◌ x) (take-short n xs (omega arith))

-- A file of less than eight bytes from the position on is read to its end, and the error that the structure
-- held before is returned.
pub parse_ftyp-short :
    (s : Parser)
    → length (rest_of s) < boxhead_sz
    → parse_ftyp s ≡ some (s.tags.mp4error, record s { offset = s.offset + length (rest_of s) })
unfolding parse_ftyp data_read
parse_ftyp-short s h =
    let all : take boxhead_sz (rest_of s) ≡ rest_of s = take-short boxhead_sz (rest_of s) h in
    let short : leb boxhead_sz (length (rest_of s)) ≡ false = ground arith in
    rw (parse_ftyp, data_read, all, short) refl
