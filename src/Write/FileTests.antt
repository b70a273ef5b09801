-- ===== src/Write/FileTests.antt =====
-- Runs of the writer on small files.
use libmp4tag.CString.{Bytes, codes}
use libmp4tag.Const.{boxids, BoxId, boxhead_sz}
use libmp4tag.Prelude.{
  ◌⊎◌, ℕ, ◌+◌, ◌≡◌, inr, refl, true, false, none, some, [], ◌∷◌, ◌++◌, arith, length,
}
use libmp4tag.Prelude.Int.{pos, sub_ℕ}
use libmp4tag.Tags.{Mp4error}
use libmp4tag.Write.Array.{box}
use libmp4tag.Write.Bytes.{be_bytes}
use libmp4tag.Write.Copy.{copy_file_data, copy_chunks, copy_file_data_lem}
use libmp4tag.Write.Data.{write_data-inner}
use libmp4tag.Write.Fill.{IsPlaced, inplace_bytes-outer}
use libmp4tag.Write.Inplace.{inplace_bytes, write_inplace}
use libmp4tag.Write.Place.{Layout, update_parents, zeros}
use libmp4tag.Write.Rewrite.{
  fits_inplace, write_data, insert_boxes, hdlr_box, rewrite_file, rewrite_delta, relocated,
  finished,
}
use libmp4tag.Write.Safe.{write_data-backup}
use libmp4tag.Write.Splice.{free_box}
use libmp4tag.Write.Stale.{inplace_bytes-same_length, inplace_bytes-shorter}
use libmp4tag.Write.Whole.{
  insert_boxes-nested, IsListed, rewrite_file-replaces, rewrite_delta-growth,
}

-- The head of a box, and the list with three bytes of data and free boxes behind it.
abbrev start : Bytes
start = be_bytes 4 60 ++ boxids BoxId.meta

abbrev old : Bytes
old = 1 ∷ 2 ∷ 3 ∷ []

abbrev place : ℕ → ℕ → Layout
place interior exterior = record {
  fn = codes "a";
  filesz = 19 + (interior + exterior) + 1;
  freespacesz = pos 16;
  base_lengths = λ i. 60;
  base_offsets = λ i. 0;
  taglist_orig_data_len = 3;
  taglist_base_offset = 8;
  taglist_offset = 16;
  taglist_len = 3 + (interior + exterior);
  interior_free_len = interior;
  exterior_free_len = exterior;
  parents = 1;
  noilst_offset = 0;
  after_ilst_offset = 19 + (interior + exterior);
  insert_delta = 0;
  blocks = record { stco_offset = 0; stco_len = 0; co64_offset = 0; co64_len = 0 };
  unlimited = false;
  keep_backup = false;
}

start_len : length start ≡ 8
unfolding be_bytes
start_len = refl

inner-IsPlaced : IsPlaced (place 20 0) start old (zeros 20)
inner-IsPlaced = record {
  measured = record { bounded = refl; len = refl; small = omega arith };
  base = start_len;
  offset = omega (arith, start_len);
  orig = refl;
  free = refl;
  parents = λ i h. omega (arith, start_len);
}

outer-IsPlaced : IsPlaced (place 0 20) start old (zeros 20)
outer-IsPlaced = record {
  measured = record { bounded = refl; len = refl; small = omega arith };
  base = start_len;
  offset = omega (arith, start_len);
  orig = refl;
  free = refl;
  parents = λ i h. omega (arith, start_len);
}

both-IsPlaced : IsPlaced (place 10 10) start old (zeros 20)
both-IsPlaced = record {
  measured = record { bounded = refl; len = refl; small = omega arith };
  base = start_len;
  offset = omega (arith, start_len);
  orig = refl;
  free = refl;
  parents = λ i h. omega (arith, start_len);
}

two_fit : fits_inplace (place 20 0) 2 ≡ true
unfolding fits_inplace
two_fit = refl

write_data-inner_example :
    write_data
      (λ p. true)
      (place 20 0)
      (some (start ++ (box (boxids BoxId.ilst) old ++ (zeros 20 ++ (9 ∷ [])))))
      (5 ∷ 6 ∷ [])
    ≡ some (record {
      fh = some (start ++ (box (boxids BoxId.ilst) (5 ∷ 6 ∷ []) ++ (free_box 21 ++ (9 ∷ []))));
      backup = none;
      bak_deleted = false;
      mp4error = Mp4error.ok;
    })
write_data-inner_example =
    write_data-inner (λ p. true) (place 20 0) start old (zeros 20) (5 ∷ 6 ∷ []) (9 ∷ [])
      inner-IsPlaced refl two_fit refl (omega arith)

inplace_bytes-outer_example :
    inplace_bytes
      (place 0 20)
      (start ++ (box (boxids BoxId.ilst) old ++ (zeros 20 ++ (9 ∷ []))))
      (5 ∷ 6 ∷ [])
    ≡ update_parents (λ i. 60) (λ i. 0) (sub_ℕ 2 3) 1 start
      ++ (box (boxids BoxId.ilst) (5 ∷ 6 ∷ []) ++ (free_box 21 ++ (9 ∷ [])))
inplace_bytes-outer_example =
    inplace_bytes-outer (place 0 20) start old (zeros 20) (5 ∷ 6 ∷ []) (9 ∷ []) outer-IsPlaced
      (inr (omega arith)) (omega arith) (omega arith)

inplace_bytes-same_length_example :
    inplace_bytes
      (place 10 10)
      (start ++ (box (boxids BoxId.ilst) old ++ (zeros 20 ++ (9 ∷ []))))
      (zeros 13)
    ≡ start
      ++ (be_bytes 4 (boxhead_sz + 3)
          ++ (boxids BoxId.ilst ++ (zeros 13 ++ (free_box 10 ++ (9 ∷ [])))))
inplace_bytes-same_length_example =
    inplace_bytes-same_length (place 10 10) start old (zeros 20) (zeros 13) (9 ∷ []) both-IsPlaced
      (inr (omega arith)) (omega arith) refl

copy_file_data_lem_example :
    copy_file_data (1 ∷ 2 ∷ 3 ∷ []) [] 1 5 ≡ some (2 ∷ 3 ∷ [], Mp4error.err_file_write_error)
copy_file_data_lem_example = copy_file_data_lem (1 ∷ 2 ∷ 3 ∷ []) [] 1 5

insert_boxes-nested_example :
    insert_boxes 2 24 ++ ((5 ∷ 6 ∷ []) ++ zeros 24)
    ≡ box (boxids BoxId.udta) (
        box
          (boxids BoxId.meta)
          (be_bytes 4 0 ++ (hdlr_box ++ (box (boxids BoxId.ilst) (5 ∷ 6 ∷ []) ++ zeros 24))))
insert_boxes-nested_example = insert_boxes-nested (5 ∷ 6 ∷ []) (zeros 24)

inner-IsListed : IsListed (place 20 0) start old (zeros 20) (9 ∷ [])
unfolding box be_bytes
inner-IsListed = record {
  offset = refl;
  some_front = omega arith;
  len = refl;
  after = refl;
  size = refl;
}

rewrite_file-replaces_example :
    rewrite_file
      (place 20 0)
      (start ++ (box (boxids BoxId.ilst) old ++ (zeros 20 ++ (9 ∷ []))))
      (zeros 30)
    ≡ finished (place 20 0) (start ++ (box (boxids BoxId.ilst) old ++ (zeros 20 ++ (9 ∷ [])))) (
        relocated
          (place 20 0)
          (rewrite_delta (place 20 0) 30 (pos 24))
          39
          (start ++ (box (boxids BoxId.ilst) (zeros 30) ++ (free_box 24 ++ (9 ∷ [])))))
rewrite_file-replaces_example =
    rewrite_file-replaces (place 20 0) start old (zeros 20) (9 ∷ []) (zeros 30) inner-IsListed 16
      refl (omega arith)

rewrite_delta-growth_example :
    rewrite_delta (place 20 0) 30 (pos 24)
    ≡ sub_ℕ
        (length (start ++ (box (boxids BoxId.ilst) (zeros 30) ++ (free_box 24 ++ (9 ∷ [])))))
        (length (start ++ (box (boxids BoxId.ilst) old ++ (zeros 20 ++ (9 ∷ [])))) + 20)
rewrite_delta-growth_example =
    rewrite_delta-growth (place 20 0) start old (zeros 20) (9 ∷ []) (zeros 30) inner-IsListed 16
      refl (omega arith) (omega arith) (omega arith) (omega arith)

abbrev whole : Bytes
whole = start ++ (box (boxids BoxId.ilst) old ++ (zeros 20 ++ (9 ∷ [])))

whole_size : 40 ≡ length whole
unfolding box be_bytes
whole_size = refl

abbrev keeping : Layout
keeping = record (place 20 0) { keep_backup = true }

made_twice :
    write_data (λ p. true) keeping (some whole) (5 ∷ 6 ∷ [])
    ≡ some (record {
      fh = some (inplace_bytes keeping whole (5 ∷ 6 ∷ []));
      backup = some whole;
      bak_deleted = false;
      mp4error = Mp4error.ok;
    })
unfolding write_data fits_inplace write_inplace copy_file_data copy_chunks box be_bytes
made_twice = refl

write_data-backup_example :
    (some (inplace_bytes keeping whole (5 ∷ 6 ∷ [])) ≡ some whole) ⊎ (some whole ≡ some whole)
write_data-backup_example =
    write_data-backup (λ p. true) keeping whole (5 ∷ 6 ∷ [])
      (record {
        fh = some (inplace_bytes keeping whole (5 ∷ 6 ∷ []));
        backup = some whole;
        bak_deleted = false;
        mp4error = Mp4error.ok;
      })
      whole_size made_twice refl

abbrev full : Layout
full = record (place 0 0) { taglist_orig_data_len = 20; taglist_len = 20 }

full-IsPlaced : IsPlaced full start (zeros 2 ++ zeros 18) []
full-IsPlaced = record {
  measured = record { bounded = refl; len = refl; small = omega arith };
  base = start_len;
  offset = omega (arith, start_len);
  orig = refl;
  free = refl;
  parents = λ i h. omega (arith, start_len);
}

inplace_bytes-shorter_example :
    inplace_bytes full
      (start ++ (box (boxids BoxId.ilst) (zeros 2 ++ zeros 18) ++ (9 ∷ [])))
      (5 ∷ 6 ∷ [])
    ≡ update_parents (λ i. 60) (λ i. 0) (sub_ℕ 2 20) 1 start
      ++ (box (boxids BoxId.ilst) (5 ∷ 6 ∷ []) ++ (zeros 18 ++ (9 ∷ [])))
inplace_bytes-shorter_example =
    inplace_bytes-shorter full start (zeros 2) (zeros 18) (5 ∷ 6 ∷ []) (9 ∷ []) full-IsPlaced refl
      refl refl (omega arith)
