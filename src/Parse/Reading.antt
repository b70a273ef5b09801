-- ===== src/Parse/Reading.antt =====
-- mp4tag_data_read of mp4tagparse.c, and the head of a box in mp4tag_parse_file, on bytes that are known.
use libmp4tag.CString.{Bytes}
use libmp4tag.Const.{boxhead_sz}
use libmp4tag.Parse.Boxes.{make_box, read_head}
use libmp4tag.Parse.State.{Parser, rest_of, data_read}
use libmp4tag.Prelude.{
  ℕ, zero, suc, ◌+◌, ◌^◌, ◌<◌, ◌≡◌, refl, sym, ap, ◌∙◌, true, false, some, [], ◌∷◌, ◌++◌, length,
  drop, leb, ◌==◌, lt→ltb, length-append, arith,
}
use libmp4tag.Write.Array.{box}
use libmp4tag.Write.Bytes.{
  be_bytes, length-be_bytes, be_value-be_bytes, take-append_length, drop-append_length,
}
use mathlib.Core.List.{append_assoc}

pub data_read-append :
    (s : Parser) (n : ℕ) (xs ys : Bytes)
    → rest_of s ≡ xs ++ ys
    → length xs ≡ n
    → 0 < n
    → data_read s n ≡ (some xs, record s { offset = s.offset + n })
unfolding data_read
data_read-append s n xs ys e k some_bytes =
    let fits : leb n (length xs) ≡ true = ground arith in
    rw (data_read, lt→ltb 0 n some_bytes, e, take-append_length xs ys n k, fits, k) refl

-- The head of a box.
pub read_head-box :
    (s : Parser) (nm tail : Bytes) (n : ℕ)
    → rest_of s ≡ (be_bytes 4 n ++ nm) ++ tail
    → length nm ≡ 4
    → 1 < n
    → n < 2 ^ 32
    → read_head s ≡ (some (make_box n boxhead_sz nm), record s { offset = s.offset + boxhead_sz })
unfolding read_head
read_head-box s nm tail n e k big small =
    let size : length (be_bytes 4 n ++ nm) ≡ boxhead_sz =
      omega (arith, length-append (be_bytes 4 n) nm, length-be_bytes 4 n, k) in
    let not_zero : (n == 0) ≡ false = ground arith in
    let not_one : (n == 1) ≡ false = ground arith in
    rw
      (
        read_head,
        data_read-append s boxhead_sz (be_bytes 4 n ++ nm) tail e size (omega arith),
        take-append_length (be_bytes 4 n) nm 4 (length-be_bytes 4 n),
        be_value-be_bytes 4 n small,
        not_zero,
        not_one,
        drop-append_length (be_bytes 4 n) nm 4 (length-be_bytes 4 n),
      )
      refl

drop-nil : (n : ℕ) → drop {A = ℕ} n [] ≡ []
drop-nil zero = refl
drop-nil (suc n) = refl

drop-drop : (a b : ℕ) (xs : Bytes) → drop (a + b) xs ≡ drop b (drop a xs)
drop-drop zero b xs = ap (λ n. drop n xs) (omega arith)
drop-drop (suc a) b [] = drop-nil (suc a + b) ∙ sym (drop-nil b)
drop-drop (suc a) b (x ∷ xs) =
    let next : suc a + b ≡ suc (a + b) = omega arith in rw next (drop-drop a b xs)

-- Behind a first part.
pub rest_of-moved :
    (s s' : Parser) (n : ℕ) (xs ys : Bytes)
    → s'.file ≡ s.file
    → s'.offset ≡ s.offset + n
    → rest_of s ≡ xs ++ ys
    → length xs ≡ n
    → rest_of s' ≡ ys
rest_of-moved s s' n xs ys f o e k =
    rw (f, o, drop-drop s.offset n s.file, e, drop-append_length xs ys n k) refl

-- The head of a box that is next, and what is behind it.
pub read_head-next :
    (s : Parser) (nm body tail : Bytes)
    → rest_of s ≡ box nm body ++ tail
    → length nm ≡ 4
    → boxhead_sz + length body < 2 ^ 32
    → (read_head s ≡ (
      some (make_box (boxhead_sz + length body) boxhead_sz nm),
      record s { offset = s.offset + boxhead_sz },
    ))
      × (rest_of (record s { offset = s.offset + boxhead_sz }) ≡ body ++ tail)
unfolding box
read_head-next s nm body tail e k short =
    let n = boxhead_sz + length body in
    let split : rest_of s ≡ (be_bytes 4 n ++ nm) ++ (body ++ tail) = e ∙ simp append_assoc in
    let size : length (be_bytes 4 n ++ nm) ≡ boxhead_sz =
      omega (arith, length-append (be_bytes 4 n) nm, length-be_bytes 4 n, k) in
    (
      read_head-box s nm (body ++ tail) n split k (omega arith) short,
      rest_of-moved s (record s { offset = s.offset + boxhead_sz }) boxhead_sz (be_bytes 4 n ++ nm)
          (body ++ tail) refl refl split size,
    )
