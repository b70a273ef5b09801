-- ===== src/Write/Relocate.antt =====
-- mp4tag_update_offset_block of mp4tagwrite.c and the offsets that a block stands for.
use libmp4tag.CString.{Bytes}
use libmp4tag.Prelude.{
  ℕ, ◌+◌, ◌^◌, ◌<◌, ◌≡◌, refl, sym, ap, true, false, some, List, [], ◌∷◌, ◌++◌, map, length,
  length-map, take, drop, leb, ltb, ◌==◌, if◌then◌else◌, All, length-append, arith,
}
use libmp4tag.Prelude.Int.{ℤ}
use libmp4tag.Tags.{Mp4error}
use libmp4tag.Write.Bytes.{
  be_bytes, length-be_bytes, be_value-be_bytes, take-append_length, drop-append_length,
  take-length_append, drop-length_append, drop-length_append_more,
}
use libmp4tag.Write.Offsets.{
  add_delta, shift_entry, shift_offsets, shift_block, read_at, overwrite, block_at,
  update_offset_block,
}
use mathlib.Core.List.{append_assoc}

-- Where an offset points after the change.
unfoldable pub relocate : ℕ → ℕ → ℤ → ℕ → ℕ
relocate w foffset delta v = if ltb foffset v then add_delta w v delta else v

-- The bytes of a list of offsets.
unfoldable pub encode : ℕ → List ℕ → Bytes
encode w [] = []
encode w (v ∷ vs) = be_bytes w v ++ encode w vs

-- The bytes of a block with these offsets.
abbrev pub block : Bytes → ℕ → List ℕ → Bytes
block flags w vs = flags ++ (be_bytes 4 (length vs) ++ encode w vs)

shift_entry-be_bytes :
    (w foffset : ℕ) (delta : ℤ) (v : ℕ)
    → v < 256 ^ w
    → shift_entry w foffset delta (be_bytes w v) ≡ be_bytes w (relocate w foffset delta v)
unfolding shift_entry relocate
shift_entry-be_bytes w foffset delta v h = rw (be_value-be_bytes w v h) (ground arith)

shift_offsets-encode :
    (w foffset : ℕ) (delta : ℤ) (vs : List ℕ)
    → All (λ v. v < 256 ^ w) vs
    → shift_offsets w foffset delta (length vs) (encode w vs)
      ≡ some (encode w (map (relocate w foffset delta) vs))
unfolding shift_offsets encode
shift_offsets-encode w foffset delta [] h = refl
shift_offsets-encode w foffset delta (v ∷ vs) (h, hs) =
    let long : leb w (length (be_bytes w v ++ encode w vs)) ≡ true =
      ground (arith, length-append (be_bytes w v) (encode w vs), length-be_bytes w v) in
    rw
      (
        long,
        take-append_length (be_bytes w v) (encode w vs) w (length-be_bytes w v),
        drop-append_length (be_bytes w v) (encode w vs) w (length-be_bytes w v),
        shift_offsets-encode w foffset delta vs hs,
        shift_entry-be_bytes w foffset delta v h,
      )
      refl

shift_block-block :
    (w foffset : ℕ) (delta : ℤ) (flags : Bytes) (vs : List ℕ)
    → length flags ≡ 4
    → length vs < 2 ^ 32
    → All (λ v. v < 256 ^ w) vs
    → shift_block w foffset delta (block flags w vs)
      ≡ some (block flags w (map (relocate w foffset delta) vs))
unfolding shift_block
shift_block-block w foffset delta flags vs f n h =
    let front = flags ++ be_bytes 4 (length vs) in
    let eight : length front ≡ 8 =
      omega
        (arith, length-append flags (be_bytes 4 (length vs)), length-be_bytes 4 (length vs), f) in
    let long : leb 8 (length (front ++ encode w vs)) ≡ true =
      ground (arith, length-append front (encode w vs), eight) in
    let count : take 4 (drop 4 (front ++ encode w vs)) ≡ be_bytes 4 (length vs) =
      rw
        (
          append_assoc flags (be_bytes 4 (length vs)) (encode w vs),
          drop-append_length flags (be_bytes 4 (length vs) ++ encode w vs) 4 f,
        )
        (take-append_length (be_bytes 4 (length vs)) (encode w vs) 4
          (length-be_bytes 4 (length vs))) in
    rw
      (
        ← append_assoc flags (be_bytes 4 (length vs)) (encode w vs),
        long,
        count,
        be_value-be_bytes 4 (length vs) n,
        take-append_length front (encode w vs) 8 eight,
        drop-append_length front (encode w vs) 8 eight,
        shift_offsets-encode w foffset delta vs h,
        length-map vs (relocate w foffset delta),
      )
      (ap some (
        append_assoc flags (be_bytes 4 (length vs)) (encode w (map (relocate w foffset delta) vs))))

length-encode-map :
    (w : ℕ) (f : ℕ → ℕ) (vs : List ℕ) → length (encode w (map f vs)) ≡ length (encode w vs)
unfolding encode
length-encode-map w f [] = refl
length-encode-map w f (v ∷ vs) = omega (
  arith,
  length-append (be_bytes w (f v)) (encode w (map f vs)),
  length-append (be_bytes w v) (encode w vs),
  length-be_bytes w v,
  length-be_bytes w (f v),
  length-encode-map w f vs,
)

length-block :
    (flags : Bytes) (w : ℕ) (vs : List ℕ)
    → length (block flags w vs) ≡ length flags + (4 + length (encode w vs))
length-block flags w vs = omega (
  arith,
  length-append flags (be_bytes 4 (length vs) ++ encode w vs),
  length-append (be_bytes 4 (length vs)) (encode w vs),
  length-be_bytes 4 (length vs),
)

length-block-map :
    (flags : Bytes) (w : ℕ) (f : ℕ → ℕ) (vs : List ℕ)
    → length (block flags w (map f vs)) ≡ length (block flags w vs)
length-block-map flags w f vs =
    omega
      (arith, length-block flags w vs, length-block flags w (map f vs), length-encode-map w f vs)

read_at-middle :
    (pre mid post : Bytes)
    → 0 < length mid
    → read_at (pre ++ (mid ++ post)) (length pre) (length mid) ≡ some mid
read_at-middle pre mid post h =
    rw (drop-length_append pre (mid ++ post), take-length_append mid post)
      (ground (arith, length-append pre (mid ++ post), length-append mid post))

overwrite-middle :
    (pre mid new post : Bytes)
    → length new ≡ length mid
    → overwrite (pre ++ (mid ++ post)) (length pre) new ≡ pre ++ (new ++ post)
overwrite-middle pre mid new post h =
    rw
      (
        take-length_append pre (mid ++ post),
        drop-length_append_more pre (mid ++ post) (length new),
        drop-append_length mid post (length new) (sym h),
      )
      refl

-- If the file holds a block of offsets of `w` bytes each at the place that
-- mp4tag_update_offset_block computes for it, the block's own offset is not 0, its flags have four
-- bytes, there are fewer than 2 ^ 32 offsets and each fits in its bytes, then the update succeeds,
-- moves each offset above the place of the change by the difference, and leaves the other bytes of
-- the file as they are.
pub update_offset_block-relocates :
    (pre post flags : Bytes) (vs : List ℕ) (w foffset boffset : ℕ) (delta : ℤ) (e : Mp4error)
    → 0 < boffset
    → block_at delta foffset boffset ≡ length pre
    → length flags ≡ 4
    → length vs < 2 ^ 32
    → All (λ v. v < 256 ^ w) vs
    → update_offset_block
        (pre ++ (block flags w vs ++ post))
        e
        delta
        foffset
        boffset
        (length (block flags w vs))
        w
      ≡ some (pre ++ (block flags w (map (relocate w foffset delta) vs) ++ post), e)
unfolding update_offset_block
update_offset_block-relocates pre post flags vs w foffset boffset delta e nz at f n h =
    let there : boffset == 0 ≡ false = ground arith in
    let nonempty : 0 < length (block flags w vs) = omega (arith, length-block flags w vs) in
    rw
      (
        there,
        at,
        read_at-middle pre (block flags w vs) post nonempty,
        shift_block-block w foffset delta flags vs f n h,
        at,
        overwrite-middle pre (block flags w vs) (block flags w (map (relocate w foffset delta) vs))
            post (length-block-map flags w (relocate w foffset delta) vs),
      )
      refl
