-- ===== src/Write/Bytes.antt =====
-- Big-endian numbers: mp4tag_append_len_8, _16, _32 and _64, mp4tag_append_data and
-- mp4tag_update_data_len of mp4tagwrite.c. A buffer is the list of the bytes in it; the pointer at
-- which the source appends is its end.
use libmp4tag.CString.{Bytes}
use libmp4tag.Prelude.{
  ℕ, zero, suc, ◌+◌, ◌*◌, ◌/◌, ◌%◌, ◌^◌, ◌<◌, ◌≡◌, refl, ap, ◌∙◌, List, [], ◌∷◌, ◌++◌, length, take,
  drop, length-append, arith, subst,
}
use mathlib.Core.List.{append_assoc}
use native.Mathlib.Nat.{zero-add}

-- The value's `n` low bytes, the highest first.
unfoldable pub be_bytes : ℕ → ℕ → Bytes
be_bytes zero v = []
be_bytes (suc n) v = be_bytes n (v / 256) ++ (v % 256 ∷ [])

-- The number that the bytes stand for, `acc` before them.
unfoldable pub be_value : ℕ → Bytes → ℕ
be_value acc [] = acc
be_value acc (x ∷ xs) = be_value (acc * 256 + x) xs

abbrev pub append_len_8 : Bytes → ℕ → Bytes
append_len_8 d v = d ++ (v % 256 ∷ [])

abbrev pub append_len_16 : Bytes → ℕ → Bytes
append_len_16 d v = d ++ be_bytes 2 v

abbrev pub append_len_32 : Bytes → ℕ → Bytes
append_len_32 d v = d ++ be_bytes 4 v

abbrev pub append_len_64 : Bytes → ℕ → Bytes
append_len_64 d v = d ++ be_bytes 8 v

-- `sz` bytes are copied.
abbrev pub append_data : Bytes → Bytes → ℕ → Bytes
append_data d bytes sz = d ++ take sz bytes

-- The 32-bit length at `offset` grows by `len`.
unfoldable pub update_data_len : Bytes → ℕ → ℕ → Bytes
update_data_len buf offset len =
    take offset buf
    ++ be_bytes 4 (be_value 0 (take 4 (drop offset buf)) + len)
    ++ drop (offset + 4) buf

be_value-append :
    (acc : ℕ) (xs : Bytes) (b : ℕ) → be_value acc (xs ++ (b ∷ [])) ≡ be_value acc xs * 256 + b
unfolding be_value
be_value-append acc [] b = refl
be_value-append acc (x ∷ xs) b = be_value-append (acc * 256 + x) xs b

pub length-be_bytes : (n v : ℕ) → length (be_bytes n v) ≡ n
unfolding be_bytes
length-be_bytes zero v = refl
length-be_bytes (suc n) v =
    omega (arith, length-append (be_bytes n (v / 256)) (v % 256 ∷ []), length-be_bytes n (v / 256))

-- A number below 256 ^ n is read back from the n bytes that are written for it, the highest first.
pub be_value-be_bytes : (n v : ℕ) → v < 256 ^ n → be_value 0 (be_bytes n v) ≡ v
unfolding be_bytes be_value
be_value-be_bytes zero v h = omega arith
be_value-be_bytes (suc n) v h =
    be_value-append 0 (be_bytes n (v / 256)) (v % 256)
    ∙ omega (arith, be_value-be_bytes n (v / 256) (omega arith))

module _ {ℓ} {A : Type ℓ} where
  pub take-length_append : (xs ys : List A) → take (length xs) (xs ++ ys) ≡ xs
  take-length_append [] ys = refl
  take-length_append (x ∷ xs) ys = ap (◌∷◌ x) (take-length_append xs ys)

  pub drop-length_append : (xs ys : List A) → drop (length xs) (xs ++ ys) ≡ ys
  drop-length_append [] ys = refl
  drop-length_append (x ∷ xs) ys = drop-length_append xs ys

  pub drop-length_append_more :
      (xs ys : List A) (n : ℕ) → drop (length xs + n) (xs ++ ys) ≡ drop n ys
  drop-length_append_more [] ys n = ap (λ k. drop k ys) (zero-add n)
  drop-length_append_more (x ∷ xs) ys n =
      let step : suc (length xs) + n ≡ suc (length xs + n) = omega arith in
      ap (λ k. drop k (x ∷ (xs ++ ys))) step ∙ drop-length_append_more xs ys n

  pub take-append_length : (xs ys : List A) (n : ℕ) → length xs ≡ n → take n (xs ++ ys) ≡ xs
  take-append_length xs ys n h = subst (λ k. take k (xs ++ ys) ≡ xs) h (take-length_append xs ys)

  pub drop-append_length : (xs ys : List A) (n : ℕ) → length xs ≡ n → drop n (xs ++ ys) ≡ ys
  drop-append_length xs ys n h = subst (λ k. drop k (xs ++ ys) ≡ ys) h (drop-length_append xs ys)

-- If the bytes behind a prefix begin with a 32-bit length, and the sum is below 2 ^ 32,
-- mp4tag_update_data_len at the prefix's end replaces that length by the sum and leaves the other
-- bytes as they are.
pub update_data_len-append :
    (pre rest : Bytes) (v len : ℕ)
    → v + len < 2 ^ 32
    → update_data_len (pre ++ (be_bytes 4 v ++ rest)) (length pre) len
      ≡ pre ++ (be_bytes 4 (v + len) ++ rest)
unfolding update_data_len
update_data_len-append pre rest v len h =
    rw
      (
        take-length_append pre (be_bytes 4 v ++ rest),
        drop-length_append pre (be_bytes 4 v ++ rest),
        drop-length_append_more pre (be_bytes 4 v ++ rest) 4,
        take-append_length (be_bytes 4 v) rest 4 (length-be_bytes 4 v),
        drop-append_length (be_bytes 4 v) rest 4 (length-be_bytes 4 v),
        be_value-be_bytes 4 v (omega arith),
      )
      (append_assoc pre (be_bytes 4 (v + len)) rest)
