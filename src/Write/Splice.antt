-- ===== src/Write/Splice.antt =====
-- Writes into a file of the parts that mp4tag_write_inplace of mp4tagwrite.c writes over.
use libmp4tag.CString.{Bytes}
use libmp4tag.Const.{boxids, BoxId, boxhead_sz}
use libmp4tag.Prelude.{
  ℕ, zero, suc, ◌+◌, ◌-◌, ◌<◌, ◌≤◌, ◌≡◌, refl, ap, true, some, [], ◌∷◌, ◌++◌, length, take, drop,
  leb, length-append, arith,
}
use libmp4tag.Prelude.Int.{ℤ}
use libmp4tag.Write.Bytes.{be_bytes, length-be_bytes, take-append_length, drop-append_length}
use libmp4tag.Write.Offsets.{overwrite, add_delta}
use libmp4tag.Write.Place.{zeros, write_freebox, update_parents}
use mathlib.Core.List.{append_assoc}

-- The bytes of a free box of `n` bytes.
abbrev pub free_box : ℕ → Bytes
free_box n = be_bytes 4 n ++ (boxids BoxId.free ++ zeros (n - boxhead_sz))

pub length-zeros : (n : ℕ) → length (zeros n) ≡ n
length-zeros zero = refl
length-zeros (suc n) = ap suc (length-zeros n)

pub length-free_box : (n : ℕ) → boxhead_sz ≤ n → length (free_box n) ≡ n
length-free_box n h = omega (
  arith,
  length-append (be_bytes 4 n) (boxids BoxId.free ++ zeros (n - boxhead_sz)),
  length-be_bytes 4 n,
  length-zeros (n - boxhead_sz),
)

pub write_freebox_lem : (n : ℕ) → boxhead_sz ≤ n → write_freebox n ≡ some (free_box n)
unfolding write_freebox
write_freebox_lem n h = let fits : leb boxhead_sz n ≡ true = ground arith in rw fits refl

-- The bytes `mid` behind `pre` are replaced by as many.
pub overwrite-at :
    (pre mid new post : Bytes) (at : ℕ)
    → length pre ≡ at
    → length new ≡ length mid
    → overwrite (pre ++ (mid ++ post)) at new ≡ pre ++ (new ++ post)
overwrite-at pre mid new post at a n =
    let behind : length (pre ++ mid) ≡ at + length new = omega (arith, length-append pre mid) in
    let tail : drop (at + length new) (pre ++ (mid ++ post)) ≡ post =
      rw (← append_assoc pre mid post)
        (drop-append_length (pre ++ mid) post (at + length new) behind) in
    rw (tail, take-append_length pre (mid ++ post) at a) refl

take-front : (n : ℕ) (xs ys : Bytes) → n ≤ length xs → take n (xs ++ ys) ≡ take n xs
take-front zero xs ys h = refl
take-front (suc n) [] ys h = ground arith
take-front (suc n) (x ∷ xs) ys h = ap (◌∷◌ x) (take-front n xs ys (omega arith))

drop-front : (n : ℕ) (xs ys : Bytes) → n ≤ length xs → drop n (xs ++ ys) ≡ drop n xs ++ ys
drop-front zero xs ys h = refl
drop-front (suc n) [] ys h = ground arith
drop-front (suc n) (x ∷ xs) ys h = drop-front n xs ys (omega arith)

-- A write in the front of a file.
pub overwrite-front :
    (xs ys new : Bytes) (at : ℕ)
    → at + length new ≤ length xs
    → overwrite (xs ++ ys) at new ≡ overwrite xs at new ++ ys
overwrite-front xs ys new at h =
    rw (take-front at xs ys (omega arith), drop-front (at + length new) xs ys h) (simp append_assoc)

length-drop : (n : ℕ) (xs : Bytes) → n ≤ length xs → length (drop n xs) ≡ length xs - n
length-drop zero xs h = omega arith
length-drop (suc n) [] h = ground arith
length-drop (suc n) (x ∷ xs) h = omega (arith, length-drop n xs (omega arith))

length-take : (n : ℕ) (xs : Bytes) → n ≤ length xs → length (take n xs) ≡ n
length-take zero xs h = refl
length-take (suc n) [] h = ground arith
length-take (suc n) (x ∷ xs) h = ap suc (length-take n xs (omega arith))

pub length-overwrite :
    (xs new : Bytes) (at : ℕ)
    → at + length new ≤ length xs
    → length (overwrite xs at new) ≡ length xs
length-overwrite xs new at h = omega (
  arith,
  length-append (take at xs) (new ++ drop (at + length new) xs),
  length-append new (drop (at + length new) xs),
  length-take at xs (omega arith),
  length-drop (at + length new) xs h,
)

-- The parents' heads are in the front of the file.
pub update_parents-front :
    (lengths offsets : ℕ → ℕ) (delta : ℤ) (n : ℕ) (xs ys : Bytes)
    → ((i : ℕ) → i < n → offsets i + 4 ≤ length xs)
    → update_parents lengths offsets delta n (xs ++ ys)
      ≡ update_parents lengths offsets delta n xs ++ ys
unfolding update_parents
update_parents-front lengths offsets delta zero xs ys h = refl
update_parents-front lengths offsets delta (suc n) xs ys h =
    let new = be_bytes 4 (add_delta 4 (lengths n) delta) in
    let fits : offsets n + length new ≤ length xs =
      omega (arith, h n (omega arith), length-be_bytes 4 (add_delta 4 (lengths n) delta)) in
    rw (overwrite-front xs ys new (offsets n) fits) (
      update_parents-front lengths offsets delta n (overwrite xs (offsets n) new) ys
        (λ i k. omega (arith, h i (omega arith), length-overwrite xs new (offsets n) fits)))
