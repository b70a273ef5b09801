-- ===== src/Write/Tests.antt =====
-- Runs of the writer.
use libmp4tag.CString.{Bytes, codes, str_eq, strcmp, starts_with, c_string}
use libmp4tag.Const.{id_string, boxhead_sz, BoxId}
use libmp4tag.Prelude.{
  ℕ, ◌+◌, ◌^◌, ◌<◌, ◌≡◌, refl, false, none, some, [], ◌∷◌, ◌++◌, map, arith, length,
}
use libmp4tag.Prelude.Int.{pos}
use libmp4tag.Tags.Set.{is_tag}
use libmp4tag.Tags.{Mp4tag, Mp4error}
use libmp4tag.Write.Array.{IsText, box, item_box}
use libmp4tag.Write.Build.{Output, empty_output, build_priority, box_name}
use libmp4tag.Write.Bytes.{be_bytes}
use libmp4tag.Write.Item.{box_ident}
use libmp4tag.Write.Offsets.{update_offset_block}
use libmp4tag.Write.Relocate.{relocate, block, update_offset_block-relocates}
use libmp4tag.Write.Runs.{items_of, AllNamed, build_priority-array}

abbrev genre : Bytes → Mp4tag
genre value = record {
  tag = some (codes "catg");
  value = some value;
  covername = none;
  datalen = length value;
  dataidx = pos 0;
  idx = 0;
  identtype = id_string;
  internallen = length value;
  priority = pos 7;
  binary = false;
}

genre-IsText : (value : Bytes) → IsText (genre value)
unfolding strcmp
genre-IsText value = record { text = refl; not_trkn = refl; len = refl; no_covername = refl }

genres-AllNamed : AllNamed (codes "catg") 7 (genre (codes "Pop") ∷ genre (codes "Rock") ∷ [])
genres-AllNamed =
    ((genre-IsText (codes "Pop"), refl, refl), ((genre-IsText (codes "Rock"), refl, refl), tt))

not_custom : is_tag (codes "catg") BoxId.custom ≡ false
unfolding starts_with
not_custom = refl

first_name : str_eq (box_name (box_ident (codes "catg")) none) [] ≡ false
unfolding strcmp box_name box_ident starts_with c_string
first_name = refl

genres_fit :
    boxhead_sz + length (items_of (genre (codes "Pop") ∷ genre (codes "Rock") ∷ [])) < 2 ^ 32
unfolding item_box box be_bytes
genres_fit = omega arith

-- The bytes that realloc adds are ones.
abbrev ones : ℕ → ℕ
ones n = 1

build_priority-array_example :
    (o : Output) × (build_priority ones
        (pos 7)
        (genre (codes "Pop") ∷ genre (codes "Rock") ∷ [])
        empty_output
      ≡ some o)
    × (o.buf
        ≡ box
            (box_ident (codes "catg"))
            (items_of (genre (codes "Pop") ∷ genre (codes "Rock") ∷ [])))
build_priority-array_example =
    build_priority-array ones (codes "catg") not_custom 7 (genre (codes "Pop"))
      (genre (codes "Rock") ∷ []) empty_output genres-AllNamed first_name genres_fit

-- The block is behind the first byte of the file, and the change is at 10.
update_offset_block-relocates_example :
    update_offset_block
      ((5 ∷ []) ++ (block (0 ∷ 0 ∷ 0 ∷ 0 ∷ []) 4 (8 ∷ 100 ∷ []) ++ (6 ∷ [])))
      Mp4error.ok
      (pos 50)
      10
      1
      (length (block (0 ∷ 0 ∷ 0 ∷ 0 ∷ []) 4 (8 ∷ 100 ∷ [])))
      4
    ≡ some (
      (5 ∷ [])
          ++ (block (0 ∷ 0 ∷ 0 ∷ 0 ∷ []) 4 (map (relocate 4 10 (pos 50)) (8 ∷ 100 ∷ []))
              ++ (6 ∷ [])),
      Mp4error.ok,
    )
update_offset_block-relocates_example =
    update_offset_block-relocates (5 ∷ []) (6 ∷ []) (0 ∷ 0 ∷ 0 ∷ 0 ∷ []) (8 ∷ 100 ∷ []) 4 10 1
      (pos 50) Mp4error.ok (omega arith) refl refl (omega arith) (omega arith, (omega arith, tt))
