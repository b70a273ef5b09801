-- ===== src/Parse/Room.antt =====
-- The list in mp4tag_process_tag and mp4tag_process_covr of mp4tagparse.c: tags are added at its end.
use libmp4tag.CString.{Bytes, c_string, str_eq, starts_with}
use libmp4tag.Const.{boxids, BoxId, id_data, id_num, id_string}
use libmp4tag.Parse.Covr.{Image, add_image, process_boxes, process_covr}
use libmp4tag.Parse.Item.{
  has_zero, read_be, advance, process_data, Item, with_number, store_pair, store_short,
  store_binary, store_data, store_item, add_text, genre_name, has_zero,
}
use libmp4tag.Parse.Tag.{
  Outcome, process_items, process_first, custom_part, process_custom, process_tag,
}
use libmp4tag.Prelude.{
  ℕ, zero, suc, ◌+◌, ◌%◌, ◌^◌, subst, not, ◌&&◌, ◌||◌, Option, none, some, [], ◌∷◌, ◌++◌, length,
  drop, ltb, leb, ◌==◌, if◌then◌else◌, if_ind, option_ind,
}
use libmp4tag.Prelude.Int.{pos, neg}
use libmp4tag.Tags.Consistent.{HasRoom, add_tag-HasRoom}
use libmp4tag.Tags.{Libmp4tag}

abbrev RoomyItem : Option Item → Type 0
RoomyItem none = Unit
RoomyItem (some i) = HasRoom i.tags

abbrev pub Roomy : Outcome → Type 0
Roomy (Outcome.done l) = HasRoom l
Roomy Outcome.overrun = Unit
Roomy Outcome.unfinished = Unit

with_number-RoomyItem :
    (o : Option ℕ) (f : ℕ → Item) → ((n : ℕ) → HasRoom (f n).tags) → RoomyItem (with_number o f)
with_number-RoomyItem none f h = tt
with_number-RoomyItem (some n) f h = h n

module _ (l : Libmp4tag) (h : HasRoom l) where
  add_text-HasRoom : (tnm text : Bytes) (type tlen : ℕ) → HasRoom (add_text l tnm text type tlen)
  add_text-HasRoom tnm text type tlen = add_tag-HasRoom l tnm text (pos 0) type tlen none h

  store_pair-RoomyItem :
      (tnm : Bytes) (type tlen : ℕ) (p : Bytes) → RoomyItem (store_pair l tnm type tlen p)
  unfolding store_pair
  store_pair-RoomyItem tnm type tlen p =
      option_ind RoomyItem (read_be 4 p) (λ e. tt)
        (λ t32 e.
          if_ind RoomyItem (not (str_eq tnm (boxids BoxId.trkn)) || leb 6 tlen)
            (λ k.
              with_number-RoomyItem (read_be 2 (drop 4 p)) _
                (λ n. add_text-HasRoom tnm _ type tlen))
            (λ k. add_text-HasRoom tnm _ type tlen))

  store_short-HasRoom :
      (tnm : Bytes) (type tlen : ℕ) (p : Bytes) (t16 : ℕ)
      → HasRoom (store_short l tnm type tlen p t16).tags
  unfolding store_short
  store_short-HasRoom tnm type tlen p t16 =
      if_ind (λ (i : Item). HasRoom i.tags) (str_eq tnm (boxids BoxId.gnre))
        (λ e.
          option_ind (λ (i : Item). HasRoom i.tags) (genre_name t16) (λ k. h)
            (λ g k. add_text-HasRoom _ g _ _))
        (λ e. add_text-HasRoom tnm _ type tlen)

  store_binary-RoomyItem :
      (tnm : Bytes) (type tlen : ℕ) (p : Bytes) → RoomyItem (store_binary l tnm type tlen p)
  unfolding store_binary
  store_binary-RoomyItem tnm type tlen p =
      if_ind RoomyItem (if tlen == 0 then has_zero p else leb tlen (length p))
        (λ e. add_tag-HasRoom l tnm p (pos tlen) type tlen none h) (λ e. tt)

  store_data-RoomyItem :
      (tnm : Bytes) (type tlen : ℕ) (p : Bytes) → RoomyItem (store_data l tnm type tlen p)
  unfolding store_data
  store_data-RoomyItem tnm type tlen p =
      if_ind RoomyItem (str_eq tnm (boxids BoxId.disk) || str_eq tnm (boxids BoxId.trkn))
        (λ e. store_pair-RoomyItem tnm type tlen p)
        (λ e.
          if_ind RoomyItem (tlen == 4)
            (λ k. with_number-RoomyItem (read_be 4 p) _ (λ n. add_text-HasRoom tnm _ type tlen))
            (λ k.
              if_ind RoomyItem (tlen == 2)
                (λ k2.
                  with_number-RoomyItem (read_be 2 p) _
                    (λ n. store_short-HasRoom tnm type tlen p n))
                (λ k2.
                  if_ind RoomyItem (tlen == 8)
                    (λ k3.
                      with_number-RoomyItem (read_be 8 p) _ (λ n. add_text-HasRoom tnm _ type tlen))
                    (λ k3.
                      if_ind RoomyItem (tlen == 1)
                        (λ k4.
                          with_number-RoomyItem (read_be 1 p) _
                            (λ n. add_text-HasRoom tnm _ type tlen))
                        (λ k4. store_binary-RoomyItem tnm type tlen p)))))

  store_item-RoomyItem :
      (tnm : Bytes) (type tlen : ℕ) (p : Bytes) → RoomyItem (store_item l tnm type tlen p)
  unfolding store_item
  store_item-RoomyItem tnm type tlen p =
      if_ind RoomyItem (type == id_data || type == id_num)
        (λ e. store_data-RoomyItem tnm type tlen p)
        (λ e.
          if_ind RoomyItem (type == id_string && ltb 0 tlen)
            (λ k.
              if_ind RoomyItem (leb tlen (length p))
                (λ m. add_tag-HasRoom l tnm p (neg (pos tlen)) type tlen none h) (λ m. tt))
            (λ k. h))

-- The rounds.
process_items-Roomy :
    (fuel : ℕ) (l : Libmp4tag) (tnm : Bytes) (blen plen tlen type : ℕ) (p : Bytes)
    → HasRoom l
    → Roomy (process_items fuel l tnm blen plen tlen type p)
unfolding process_items
process_items-Roomy zero l tnm blen plen tlen type p h = tt
process_items-Roomy (suc fuel) l tnm blen plen tlen type p h =
    option_ind Roomy (store_item l tnm type tlen p) (λ e. tt)
      (λ i e.
        let room : HasRoom i.tags = subst RoomyItem e (store_item-RoomyItem l h tnm type tlen p) in
        if_ind Roomy (leb blen (((plen + tlen) % 2 ^ 32 + 16) % 2 ^ 32)) (λ k. room)
          (λ k.
            option_ind Roomy (advance tlen i.p) (λ k1. tt)
              (λ q k1.
                option_ind Roomy (process_data q) (λ k2. tt)
                  (λ d k2.
                    option_ind Roomy (advance 16 q) (λ k3. tt)
                      (λ r k3. process_items-Roomy fuel i.tags i.tnm blen _ d.0 d.1 r room)))))

process_first-Roomy :
    (l : Libmp4tag) (tnm : Bytes) (blen : ℕ) (p : Bytes)
    → HasRoom l
    → Roomy (process_first l tnm blen p)
unfolding process_first
process_first-Roomy l tnm blen p h =
    option_ind Roomy (process_data p) (λ e. tt)
      (λ d e.
        option_ind Roomy (advance 16 p) (λ k. tt)
          (λ q k. process_items-Roomy (suc (length p)) l tnm blen 0 d.0 d.1 q h))

process_custom-Roomy :
    (l : Libmp4tag) (tag : Bytes) (blen : ℕ) (p : Bytes)
    → HasRoom l
    → Roomy (process_custom l tag blen p)
unfolding process_custom
process_custom-Roomy l tag blen p h =
    option_ind Roomy (custom_part 2 (tag ++ (b':' ∷ [])) p) (λ e. tt)
      (λ a e.
        option_ind Roomy (custom_part 1 (a.0 ++ (b':' ∷ [])) a.1) (λ k. tt)
          (λ b k. process_first-Roomy l (c_string b.0) _ b.1 h))

pub process_tag-Roomy :
    (l : Libmp4tag) (tag : Bytes) (blen : ℕ) (p : Bytes)
    → HasRoom l
    → Roomy (process_tag l tag blen p)
unfolding process_tag
process_tag-Roomy l tag blen p h =
    if_ind Roomy (str_eq tag (boxids BoxId.free)) (λ e. h)
      (λ e.
        if_ind Roomy (str_eq tag (boxids BoxId.custom)) (λ k. process_custom-Roomy l tag blen p h)
          (λ k. process_first-Roomy l tag blen p h))

abbrev RoomyTags : Option Libmp4tag → Type 0
RoomyTags none = Unit
RoomyTags (some l) = HasRoom l

add_image-RoomyTags :
    (l : Libmp4tag) (image : Option Image) (cname : Option Bytes)
    → HasRoom l
    → RoomyTags (add_image l image cname)
unfolding add_image
add_image-RoomyTags l none cname h = h
add_image-RoomyTags l (some i) cname h =
    if_ind RoomyTags (if i.clen == 0 then has_zero i.cdata else leb i.clen (length i.cdata))
      (λ e. add_tag-HasRoom l (boxids BoxId.covr) i.cdata (pos i.clen) i.type i.clen _ h) (λ e. tt)

process_boxes-Roomy :
    (fuel : ℕ) (l : Libmp4tag) (blen : ℕ) (p : Bytes) (image : Option Image) (cname : Option Bytes)
    → HasRoom l
    → Roomy (process_boxes fuel l blen p image cname)
unfolding process_boxes
process_boxes-Roomy zero l blen p image cname h = tt
process_boxes-Roomy (suc fuel) l blen p image cname h =
    if_ind Roomy (blen == 0)
      (λ e.
        option_ind Roomy (add_image l image cname) (λ k. tt)
          (λ l' k. subst RoomyTags k (add_image-RoomyTags l image cname h)))
      (λ e.
        option_ind Roomy (read_be 4 p) (λ k. tt)
          (λ tlen k.
            if_ind Roomy (leb 8 (length p))
              (λ m.
                if_ind Roomy (starts_with (drop 4 p) (boxids BoxId.data_box))
                  (λ m1.
                    option_ind Roomy (add_image l image cname) (λ k1. tt)
                      (λ l' k1.
                        option_ind Roomy (process_data p) (λ k2. tt)
                          (λ d k2.
                            option_ind Roomy (advance d.0 (drop 16 p)) (λ k3. tt)
                              (λ q k3.
                                process_boxes-Roomy fuel l' _ q _ _
                                  (subst RoomyTags k1 (add_image-RoomyTags l image cname h))))))
                  (λ m1.
                    if_ind Roomy (starts_with (drop 4 p) (boxids BoxId.name))
                      (λ m2.
                        if_ind Roomy (ltb tlen 8) (λ m3. tt)
                          (λ m3.
                            option_ind Roomy (advance tlen p) (λ k1. tt)
                              (λ q k1. process_boxes-Roomy fuel l _ q image _ h)))
                      (λ m2.
                        option_ind Roomy (advance tlen p) (λ k1. tt)
                          (λ q k1. process_boxes-Roomy fuel l _ q image cname h))))
              (λ m. tt)))

pub process_covr-Roomy :
    (fuel : ℕ) (l : Libmp4tag) (blen : ℕ) (p : Bytes)
    → HasRoom l
    → Roomy (process_covr fuel l blen p)
unfolding process_covr
process_covr-Roomy fuel l blen p h = process_boxes-Roomy fuel l blen p none none h
