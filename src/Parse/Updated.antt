-- ===== src/Parse/Updated.antt =====
-- mp4tag_parse_file of mp4tagparse.c and mp4tag_write_data of mp4tagwrite.c: a list with free space behind
-- it is read, and written in its place.
use libmp4tag.CString.{Bytes}
use libmp4tag.Const.{boxids, BoxId, boxhead_sz, level_max}
use libmp4tag.Parse.File.{Parsed, parse_boxes}
use libmp4tag.Parse.Listed.{tags_read}
use libmp4tag.Parse.Placed.{IsList, IsAtList, ReadsPlace, parse_boxes-IsPlaced}
use libmp4tag.Parse.State.{Parser}
use libmp4tag.Prelude.{
  ltb, ◌^◌, ℕ, zero, suc, ◌+◌, ◌-◌, ◌⊎◌, inl, inr, Option, ◌<◌, ◌≡◌, refl, ap, ◌∙◌, true, false,
  Bool, none, some, List, ◌++◌, length, ◌==◌, subst, sym, arith,
}
use libmp4tag.Prelude.Int.{ℤ, pos}
use libmp4tag.Tags.{Mp4error, list_of}
use libmp4tag.Write.Array.{box, length-box}
use libmp4tag.Write.Bytes.{be_bytes}
use libmp4tag.Write.Data.{write_data-inner}
use libmp4tag.Write.Fill.{Fits, rest_box}
use libmp4tag.Write.Groups.{Group, contents}
use libmp4tag.Write.Inplace.{Written}
use libmp4tag.Write.Place.{Layout, zeros}
use libmp4tag.Write.Rewrite.{max_len, fits_inplace, write_data}
use libmp4tag.Write.Splice.{length-zeros}

fits_inplace-Fits :
    (l : Layout) (bytes : Bytes)
    → 0 < l.taglist_offset
    → l.taglist_len < 2 ^ 31
    → Fits l bytes
    → fits_inplace l (length bytes) ≡ true
unfolding fits_inplace
fits_inplace-Fits l bytes found small (inl same) =
    let there : (l.taglist_offset == 0) ≡ false = ground arith in
    let whole : (length bytes == l.taglist_len) ≡ true = ground arith in
    rw (there, whole) (ground arith)
fits_inplace-Fits l bytes found small (inr less) =
    let there : (l.taglist_offset == 0) ≡ false = ground arith in
    let room : max_len l ≡ l.taglist_len - boxhead_sz = omega (arith, small, less) in
    let positive : ltb (max_len l) (2 ^ 31) ≡ true = rw room (ground (arith, small)) in
    let enough : ltb (length bytes) (max_len l) ≡ true = rw room (ground (arith, less)) in
    rw (there, positive, enough) (ground arith)

-- The file with the new list in the place of the old one.
abbrev pub updated : Bytes → Bytes → Bytes → Bytes → Option Written
updated start bytes post rest = some (record {
  fh = some (start ++ (box (boxids BoxId.ilst) bytes ++ (rest ++ post)));
  backup = none;
  bak_deleted = false;
  mp4error = Mp4error.ok;
})

module _ (millis : ℕ → ℕ → ℤ) (creates : Bytes → Bool) (fuel boxlen level : ℕ) (s : Parser)
    (gs : List Group) (start body post bytes : Bytes) where
  abbrev gap : Bytes
  gap = box (boxids BoxId.free) body

  abbrev old : Bytes
  old = box (boxids BoxId.ilst) (contents gs)

  abbrev space : ℕ
  space = length (contents gs) + length gap

  pub parse_boxes-write_data :
      IsList gs
      → IsAtList s level gs start body post
      → s.place.keep_backup ≡ false
      → length gs < suc fuel
      → (boxlen == 0) ≡ false
      → (level == 0) ≡ false
      → level + 1 < level_max
      → (length bytes ≡ space) ⊎ (length bytes + boxhead_sz < space)
      → (s' : Parser) × (parse_boxes millis (suc (suc fuel)) boxlen level s ≡ Parsed.done s')
        × ReadsPlace s s' level (length body) gs start gap
        × (write_data creates s'.place (some s'.file) bytes
            ≡ updated start bytes post (rest_box (space - length bytes)))
  parse_boxes-write_data listed q backup enough nonzero deep room fits =
      let (s', run, read) =
        parse_boxes-IsPlaced millis fuel boxlen level s gs start body post listed q enough nonzero
          deep room in
      let l = s'.place in
      let whole : l.taglist_len ≡ space =
        omega (arith, read.place.measured.len, read.place.orig, read.place.free) in
      let kept : l.keep_backup ≡ false =
        ap (λ (k : Layout). k.keep_backup) read.fields ∙ rw q.fresh.orig backup in
      let none_outside : l.exterior_free_len ≡ 0 =
        ap (λ (k : Layout). k.exterior_free_len) read.fields ∙ rw q.fresh.orig q.fresh.exterior in
      let inside : 0 < l.interior_free_len =
        omega (arith, none_outside, read.place.free, length-box (boxids BoxId.free) body refl) in
      let there : 0 < l.taglist_offset = omega (arith, read.place.offset) in
      let room_for : Fits l bytes =
        subst (λ n. (length bytes ≡ n) ⊎ (length bytes + boxhead_sz < n)) (sym whole) fits in
      (
        s',
        run,
        read,
        ap (λ f. write_data creates l (some f) bytes) (read.file ∙ q.file)
            ∙ write_data-inner creates l start (contents gs) gap bytes post read.place kept
                (fits_inplace-Fits l bytes there read.place.measured.small room_for) none_outside
                inside
            ∙ ap (updated start bytes post) (ap (λ n. rest_box (n - length bytes)) whole),
      )

rest_box-box :
    (k : ℕ) → boxhead_sz < k → rest_box k ≡ box (boxids BoxId.free) (zeros (k - boxhead_sz))
unfolding box
rest_box-box zero h = absurd (omega arith)
rest_box-box (suc j) h =
    ap (λ (n : ℕ). be_bytes 4 n ++ (boxids BoxId.free ++ zeros (suc j - boxhead_sz)))
      (omega (arith, length-zeros (suc j - boxhead_sz)))

-- What is left of the space behind the new data.
abbrev pub spare : List Group → List Group → Bytes → ℕ
spare gs hs body =
    length (contents gs) + length (box (boxids BoxId.free) body) - length (contents hs)

abbrev pub new_file : List Group → List Group → Bytes → Bytes → Bytes → Bytes
new_file gs hs start body post =
    start
    ++ (box (boxids BoxId.ilst) (contents hs)
        ++ (box (boxids BoxId.free) (zeros (spare gs hs body - boxhead_sz)) ++ post))

module _ (millis : ℕ → ℕ → ℤ) (creates : Bytes → Bool) (fuel boxlen level : ℕ) (s : Parser)
    (gs hs : List Group) (start body post : Bytes) where
  -- A file's container, neither the outermost level nor the deepest one and with a length, has left
  -- in it just the list's box and a free box, together of less than 2 ^ 31 bytes; the list's boxes
  -- hold texts, at least one box, each as mp4tag_build_data makes it (less than 2 ^ 32 bytes; values
  -- that are not empty, of string type, with the length of their value, with no cover name, and not
  -- trkn; a name that is no custom one, no cover's and none that the parser does something else for,
  -- has no index in it, and is what its four bytes are shown as), no two neighbours with one name.
  -- The parser is at the list's box, has read no tag and found neither a list nor free space nor the
  -- end of the file behind it, looks for no free box, its parse is not over, the file can be
  -- written, no backup is wanted, and the lengths of the containers that it has noted are in front
  -- of the list. There are other boxes of this kind that leave more than eight bytes of the space.
  -- With enough fuel for the boxes of both lists: mp4tag_parse_file's loop ends the level with the
  -- old texts as the tags; mp4tag_write_data, with the fields that it leaves, writes the list's box
  -- with the new boxes and one free box of zeros in the place of the old ones, keeps every other
  -- byte, and gives no error; and the loop, from the same place in the new file, ends with the new
  -- texts as the tags, under their names, with their values and indexes from 0 on for each name.
  pub parse_boxes-again :
      IsList gs
      → IsList hs
      → IsAtList s level gs start body post
      → s.place.keep_backup ≡ false
      → length gs < suc fuel
      → length hs < suc fuel
      → (boxlen == 0) ≡ false
      → (level == 0) ≡ false
      → level + 1 < level_max
      → boxhead_sz < spare gs hs body
      → (s' : Parser) × (s'' : Parser) × (parse_boxes millis (suc (suc fuel)) boxlen level s
          ≡ Parsed.done s')
        × (list_of s'.tags.tags ≡ tags_read gs)
        × (write_data creates s'.place (some s'.file) (contents hs)
            ≡ some (record {
              fh = some (new_file gs hs start body post);
              backup = none;
              bak_deleted = false;
              mp4error = Mp4error.ok;
            }))
        × (parse_boxes millis
              (suc (suc fuel))
              boxlen
              level
              (record s { file = new_file gs hs start body post })
            ≡ Parsed.done s'')
        × (list_of s''.tags.tags ≡ tags_read hs)
  parse_boxes-again old_list new_list q backup gs_enough hs_enough nonzero deep room larger =
      let (s', run, read, write) =
        parse_boxes-write_data millis creates fuel boxlen level s gs start body post (contents hs)
          old_list q backup gs_enough nonzero deep room (inr (omega arith)) in
      let rest = rest_box-box (spare gs hs body) larger in
      let old_size = length-box (boxids BoxId.ilst) (contents gs) refl in
      let new_size = length-box (boxids BoxId.ilst) (contents hs) refl in
      let free_size = length-box (boxids BoxId.free) (zeros (spare gs hs body - boxhead_sz)) refl in
      let same : length (box (boxids BoxId.ilst) (contents gs))
            + length (box (boxids BoxId.free) body)
          ≡ length (box (boxids BoxId.ilst) (contents hs))
            + length (box (boxids BoxId.free) (zeros (spare gs hs body - boxhead_sz))) =
        omega
          (arith, old_size, new_size, free_size, length-zeros (spare gs hs body - boxhead_sz)) in
      let at_new : IsAtList (record s { file = new_file gs hs start body post }) level hs start
          (zeros (spare gs hs body - boxhead_sz)) post =
        record {
          file = refl;
          offset = q.offset;
          none_yet = q.none_yet;
          checkforfree = q.checkforfree;
          parsedone = q.parsedone;
          canwrite = q.canwrite;
          rem_length = q.rem_length ∙ ap pos same;
          small = omega (arith, same, q.small);
          fresh = q.fresh;
          parents = q.parents;
        } in
      let (s'', again, reread) =
        parse_boxes-IsPlaced millis fuel boxlen level
          (record s { file = new_file gs hs start body post }) hs start
          (zeros (spare gs hs body - boxhead_sz)) post new_list at_new hs_enough nonzero deep
          room in
      (
        s',
        s'',
        run,
        read.tags,
        write ∙ ap (updated start (contents hs) post) rest,
        again,
        reread.tags,
      )
