-- ===== src/Write/Copy.antt =====
-- mp4tag_copy_file_data of mp4tagwrite.c. The input is the bytes of a file, from which fread gives as
-- many as are asked for and are there; a write succeeds.
use libmp4tag.CString.{Bytes}
use libmp4tag.Const.{copy_size}
use libmp4tag.Prelude.{
  ℕ, zero, suc, ◌+◌, ◌-◌, ◌<◌, ◌≤◌, ◌≡◌, refl, sym, ap, ◌∙◌, true, false, Option, none, some, [],
  ◌∷◌, ◌++◌, length, take, drop, ltb, leb, if◌then◌else◌, arith,
}
use libmp4tag.Tags.{Mp4error}
use mathlib.Core.List.{append_assoc, append-nil}

abbrev chunk_len : ℕ → ℕ
chunk_len bremain = if ltb bremain copy_size then bremain else copy_size

-- The loop: what is behind the input's position, the number of bytes that remain, and the output. The
-- output, and what was not copied; `none` where the fuel is used up.
unfoldable pub copy_chunks : ℕ → Bytes → ℕ → Bytes → Option (Bytes × ℕ)
copy_chunks zero ifh bremain ofh = none
copy_chunks (suc fuel) ifh bremain ofh = elim (leb bremain 0) [
  | true ↦ some (ofh, bremain)
  | false ↦
      let chunk = take (chunk_len bremain) ifh in
      elim (leb (length chunk) 0) [
        | true ↦ some (ofh, bremain)
        | false ↦ copy_chunks fuel (drop (length chunk) ifh) (bremain - length chunk) (ofh ++ chunk)
      ]
]

-- The output file and the result.
unfoldable pub copy_file_data : Bytes → Bytes → ℕ → ℕ → Option (Bytes × Mp4error)
copy_file_data ifh ofh offset len = elim (copy_chunks (suc len) (drop offset ifh) len ofh) [
  | none ↦ none
  | some (out, bremain) ↦
      some (out, if leb bremain 0 then Mp4error.ok else Mp4error.err_file_write_error)
]

take_nil : (n : ℕ) → take {A = ℕ} n [] ≡ []
take_nil zero = refl
take_nil (suc n) = refl

take-chunk :
    (c n : ℕ) (xs : Bytes)
    → c ≤ n
    → take n xs ≡ take c xs ++ take (n - length (take c xs)) (drop (length (take c xs)) xs)
take-chunk zero n xs h = let all : n - 0 ≡ n = omega arith in rw all refl
take-chunk (suc c) zero xs h = ground arith
take-chunk (suc c) (suc n) [] h = sym (take_nil (suc n - 0))
take-chunk (suc c) (suc n) (x ∷ xs) h =
    let same : suc n - suc (length (take c xs)) ≡ n - length (take c xs) = omega arith in
    rw same (ap (◌∷◌ x) (take-chunk c n xs (omega arith)))

length-chunk :
    (c : ℕ) (xs : Bytes) → length xs ≡ length (take c xs) + length (drop (length (take c xs)) xs)
length-chunk zero xs = omega arith
length-chunk (suc c) [] = omega arith
length-chunk (suc c) (x ∷ xs) = omega (arith, length-chunk c xs)

length-take_pos : (c : ℕ) (x : ℕ) (xs : Bytes) → 0 < c → 0 < length (take c (x ∷ xs))
length-take_pos zero x xs h = h
length-take_pos (suc c) x xs h = omega arith

chunk_len_le : (n : ℕ) → chunk_len n ≤ n
chunk_len_le n = ground arith

chunk_len_pos : (n : ℕ) → 0 < n → 0 < chunk_len n
chunk_len_pos n h = ground arith

-- Each round copies a byte at least, so that there is fuel enough.
copy_chunks_lem :
    (fuel : ℕ) (ifh : Bytes) (bremain : ℕ) (ofh : Bytes)
    → bremain < fuel
    → copy_chunks fuel ifh bremain ofh ≡ some (ofh ++ take bremain ifh, bremain - length ifh)
unfolding copy_chunks
copy_chunks_lem zero ifh bremain ofh h = ground arith
copy_chunks_lem (suc fuel) ifh zero ofh h =
    let none_left : 0 - length ifh ≡ 0 = omega arith in rw (append-nil ofh, none_left) refl
copy_chunks_lem (suc fuel) [] (suc n) ofh h =
    let going : leb (suc n) 0 ≡ false = ground arith in
    let all : suc n - 0 ≡ suc n = omega arith in
    rw (copy_chunks, going, take_nil (chunk_len (suc n)), append-nil ofh, all) refl
copy_chunks_lem (suc fuel) (x ∷ xs) (suc n) ofh h =
    let c = chunk_len (suc n) in
    let pos_len = length-take_pos c x xs (chunk_len_pos (suc n) (omega arith)) in
    let starts : leb (suc n) 0 ≡ false = ground arith in
    let going : leb (length (take c (x ∷ xs))) 0 ≡ false = ground arith in
    let rest =
      copy_chunks_lem fuel (drop (length (take c (x ∷ xs))) (x ∷ xs))
        (suc n - length (take c (x ∷ xs))) (ofh ++ take c (x ∷ xs)) (omega arith) in
    let whole : (ofh ++ take c (x ∷ xs))
          ++ take (suc n - length (take c (x ∷ xs))) (drop (length (take c (x ∷ xs))) (x ∷ xs))
        ≡ ofh ++ take (suc n) (x ∷ xs) =
      append_assoc ofh (take c (x ∷ xs)) _
      ∙ ap (◌++◌ ofh) (sym (take-chunk c (suc n) (x ∷ xs) (chunk_len_le (suc n)))) in
    let left : suc n - length (take c (x ∷ xs)) - length (drop (length (take c (x ∷ xs))) (x ∷ xs))
        ≡ suc n - length (x ∷ xs) =
      omega (arith, length-chunk c (x ∷ xs)) in
    rw (copy_chunks, starts, going) (rest ∙ rw (whole, left) refl)

-- mp4tag_copy_file_data ends for every file, offset and length: it appends the bytes from the offset
-- on, as many as asked for and there, and gives MP4TAG_OK if there are as many as asked for and
-- MP4TAG_ERR_FILE_WRITE_ERROR if not.
pub copy_file_data_lem :
    (ifh ofh : Bytes) (offset len : ℕ)
    → copy_file_data ifh ofh offset len
      ≡ some (
        ofh ++ take len (drop offset ifh),
        if leb len (length (drop offset ifh)) then Mp4error.ok else Mp4error.err_file_write_error,
      )
unfolding copy_file_data
copy_file_data_lem ifh ofh offset len =
    let long : leb (len - length (drop offset ifh)) 0 ≡ leb len (length (drop offset ifh)) =
      ground arith in
    rw (copy_file_data, copy_chunks_lem (suc len) (drop offset ifh) len ofh (omega arith), long)
      refl
