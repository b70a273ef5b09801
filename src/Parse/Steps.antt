-- ===== src/Parse/Steps.antt =====
-- The rounds of mp4tag_process_tag of mp4tagparse.c.
use libmp4tag.CString.{Bytes}
use libmp4tag.Parse.Heads.{item_head, length-item_head, process_data-item_head, advance-append}
use libmp4tag.Parse.Item.{Item, store_item}
use libmp4tag.Parse.Tag.{Outcome, process_items, process_first}
use libmp4tag.Prelude.{
  ℕ, suc, ◌+◌, ◌%◌, ◌^◌, ◌<◌, ◌≤◌, ◌≡◌, refl, true, false, some, ◌++◌, length, leb, arith,
}
use libmp4tag.Tags.{Libmp4tag}

-- The last round: the item is stored.
pub process_items-last :
    (fuel : ℕ) (l : Libmp4tag) (tnm : Bytes) (blen plen tlen type : ℕ) (p : Bytes) (i : Item)
    → store_item l tnm type tlen p ≡ some i
    → plen + tlen + 16 < 2 ^ 32
    → blen ≤ plen + tlen + 16
    → process_items (suc fuel) l tnm blen plen tlen type p ≡ Outcome.done i.tags
unfolding process_items
process_items-last fuel l tnm blen plen tlen type p i e lt le =
    let stop : leb blen (((plen + tlen) % 2 ^ 32 + 16) % 2 ^ 32) ≡ true = ground arith in
    rw (process_items, e, stop) refl

-- A round with another item behind it.
pub process_items-more :
    (fuel : ℕ) (l : Libmp4tag) (tnm : Bytes) (blen plen tlen type len' type' : ℕ)
    (p value rest : Bytes) (i : Item)
    → store_item l tnm type tlen p ≡ some i
    → i.p ≡ value ++ (item_head len' type' ++ rest)
    → length value ≡ tlen
    → 16 + len' < 2 ^ 32
    → type' < 2 ^ 24
    → blen < 2 ^ 32
    → plen + tlen + 16 < blen
    → process_items (suc fuel) l tnm blen plen tlen type p
      ≡ process_items fuel i.tags i.tnm blen (plen + tlen + 16) len' type' rest
unfolding process_items
process_items-more fuel l tnm blen plen tlen type len' type' p value rest i e q n h k lt more =
    let wrap : ((plen + tlen) % 2 ^ 32 + 16) % 2 ^ 32 ≡ plen + tlen + 16 = omega arith in
    let go_on : leb blen (plen + tlen + 16) ≡ false = ground arith in
    rw
      (
        process_items,
        e,
        wrap,
        go_on,
        q,
        advance-append value (item_head len' type' ++ rest) tlen n,
        process_data-item_head len' type' rest h k,
        advance-append (item_head len' type') rest 16 (length-item_head len' type'),
        wrap,
      )
      refl

-- The head of the first item.
pub process_first-item_head :
    (l : Libmp4tag) (tnm : Bytes) (blen len type : ℕ) (rest : Bytes)
    → 16 + len < 2 ^ 32
    → type < 2 ^ 24
    → process_first l tnm blen (item_head len type ++ rest)
      ≡ process_items (suc (length (item_head len type ++ rest))) l tnm blen 0 len type rest
unfolding process_first
process_first-item_head l tnm blen len type rest h k =
    rw
      (
        process_first,
        process_data-item_head len type rest h k,
        advance-append (item_head len type) rest 16 (length-item_head len type),
      )
      refl
