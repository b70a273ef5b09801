-- ===== src/Write/Data.antt =====
-- mp4tag_write_data of mp4tagwrite.c where the list is written in its place.
use libmp4tag.CString.{Bytes}
use libmp4tag.Const.{boxids, BoxId}
use libmp4tag.Prelude.{◌-◌, ◌<◌, ◌≡◌, refl, Bool, true, false, none, some, ◌++◌, length, arith}
use libmp4tag.Tags.{Mp4error}
use libmp4tag.Write.Array.{box}
use libmp4tag.Write.Fill.{IsPlaced, Fits, rest_box, inplace_bytes-inner}
use libmp4tag.Write.Inplace.{write_inplace}
use libmp4tag.Write.Place.{Layout}
use libmp4tag.Write.Rewrite.{fits_inplace, write_data}

Fits-of :
    (l : Layout) (bytes : Bytes)
    → l.unlimited ≡ false
    → fits_inplace l (length bytes) ≡ true
    → Fits l bytes
unfolding fits_inplace
Fits-of l bytes b h = ground arith

-- If the file holds the tag list where the parser's fields say, with free space in its container and
-- none behind the containers, not at the end of the file, no backup is wanted, and the data fits,
-- then mp4tag_write_data writes the list's box with the new data and length, fills the rest of the
-- space with one free box, and leaves every other byte as it was.
pub write_data-inner :
    (creates : Bytes → Bool) (l : Layout) (start old gap bytes post : Bytes)
    → IsPlaced l start old gap
    → l.keep_backup ≡ false
    → fits_inplace l (length bytes) ≡ true
    → l.exterior_free_len ≡ 0
    → 0 < l.interior_free_len
    → write_data creates l (some (start ++ (box (boxids BoxId.ilst) old ++ (gap ++ post)))) bytes
      ≡ some (record {
        fh = some (
            start
            ++ (box (boxids BoxId.ilst) bytes
                ++ (rest_box (l.taglist_len - length bytes) ++ post)));
        backup = none;
        bak_deleted = false;
        mp4error = Mp4error.ok;
      })
unfolding write_data write_inplace
write_data-inner creates l start old gap bytes post p k f e i =
    let fits = Fits-of l bytes p.measured.bounded f in
    rw (write_data, f, write_inplace, inplace_bytes-inner l start old gap bytes post p fits e i, k)
      refl
