-- ===== src/Parse/RoundTrip.antt =====
-- mp4tag_process_tag of mp4tagparse.c on the box of a run of text tags that mp4tag_build_append of
-- mp4tagwrite.c writes.
use libmp4tag.CString.{Bytes, str_eq}
use libmp4tag.Const.{boxids, BoxId, id_string, data_sz, pri_max}
use libmp4tag.Parse.Heads.{item_head}
use libmp4tag.Parse.Item.{Item, store_item}
use libmp4tag.Parse.Steps.{process_items-last, process_items-more, process_first-item_head}
use libmp4tag.Parse.Tag.{Outcome, process_items, process_first, process_tag}
use libmp4tag.Prelude.{
  ℕ, zero, suc, ◌+◌, ◌^◌, ◌<◌, ◌≤◌, ◌≡◌, refl, sym, ap, ◌∙◌, subst, true, false, none, some, List,
  [], ◌∷◌, ◌++◌, length, All, ltb, leb, lt→ltb, length-append, arith,
}
use libmp4tag.Prelude.Int.{pos, negsuc, neg}
use libmp4tag.Tags.Add.{
  add_tag, new_tag, last_tag, next_dataidx, stored, stored_len, is_binary_size, is_covr,
}
use libmp4tag.Tags.Compare.{strcmp_refl}
use libmp4tag.Tags.Name.{parse_tagname}
use libmp4tag.Tags.{Mp4tag, Libmp4tag, list_of}
use libmp4tag.Write.Array.{box, item_box, IsText, length-item_box}
use libmp4tag.Write.Bytes.{be_bytes, length-be_bytes, take-append_length}
use libmp4tag.Write.Item.{value_of}
use libmp4tag.Write.Runs.{items_of}
use mathlib.Core.List.{append_assoc}

-- What a text tag is when it is read under the name `tag`, as the item of index `d`.
abbrev pub read_back : Bytes → ℕ → Mp4tag → Mp4tag
read_back tag d t = record {
  tag = some tag;
  value = some (value_of t);
  covername = none;
  datalen = t.datalen;
  dataidx = pos d;
  idx = 0;
  identtype = id_string;
  internallen = t.datalen;
  priority = pos pri_max;
  binary = false;
}

abbrev pub read_back_from : Bytes → ℕ → List Mp4tag → List Mp4tag
read_back_from tag d [] = []
read_back_from tag d (t ∷ ts) = read_back tag d t ∷ read_back_from tag (suc d) ts

-- The name of a text tag of the format: no box of its own kind, and no index in it.
pub record IsPlain (tag : Bytes) : Type 0 where
  pub not_free : str_eq tag (boxids BoxId.free) ≡ false
  pub not_custom : str_eq tag (boxids BoxId.custom) ≡ false
  pub not_covr : is_covr tag ≡ false
  pub name : (parse_tagname tag).name ≡ tag

-- A tag that has text in it.
pub record IsRead (t : Mp4tag) : Type 0 where
  pub text : IsText t
  pub nonempty : 0 < t.datalen

pub last_tag-append : (ts : List Mp4tag) (t : Mp4tag) → last_tag (ts ++ (t ∷ [])) ≡ some t
last_tag-append [] t = refl
last_tag-append (u ∷ []) t = refl
last_tag-append (u ∷ v ∷ ts) t = last_tag-append (v ∷ ts) t

next_dataidx-same :
    (prev : Mp4tag) (tag : Bytes) (d : ℕ)
    → prev.tag ≡ some tag
    → prev.dataidx ≡ pos d
    → next_dataidx (some prev) tag ≡ pos (suc d)
next_dataidx-same prev tag d n e =
    let same : str_eq tag tag ≡ true = ground (arith, strcmp_refl tag) in
    rw (n, same, e) (ground arith)

-- A negative size keeps the bytes of the value alone.
stored-text : (v rest : Bytes) (n : ℕ) → length v ≡ n → 0 < n → stored (v ++ rest) (neg (pos n)) ≡ v
stored-text v rest zero e h = ground arith
stored-text v rest (suc n) e h =
    let one : neg (pos (suc n)) ≡ negsuc n = ground arith in
    rw one (take-append_length v rest (suc n) e)

stored_len-text : (v : Bytes) (n : ℕ) → 0 < n → stored_len v (neg (pos n)) ≡ n
stored_len-text v zero h = ground arith
stored_len-text v (suc n) h = let one : neg (pos (suc n)) ≡ negsuc n = ground arith in rw one refl

not_binary : (n : ℕ) → is_binary_size (neg (pos n)) ≡ false
not_binary zero = refl
not_binary (suc n) = let one : neg (pos (suc n)) ≡ negsuc n = ground arith in rw one refl

-- The bytes of an item are its head and its value.
item_box-head :
    (t : Mp4tag) (rest : Bytes)
    → IsText t
    → item_box t ++ rest ≡ item_head t.datalen id_string ++ (value_of t ++ rest)
unfolding item_box box
item_box-head t rest h =
    let size : 8 + length (be_bytes 4 t.identtype ++ (be_bytes 4 0 ++ value_of t))
        ≡ data_sz + t.datalen =
      omega (
        arith,
        length-append (be_bytes 4 t.identtype) (be_bytes 4 0 ++ value_of t),
        length-append (be_bytes 4 0) (value_of t),
        length-be_bytes 4 t.identtype,
        length-be_bytes 4 0,
        h.len,
      ) in
    rw (size, h.text) (simp append_assoc)

-- An item has bytes, so that there is fuel for each.
pub length-items_of : (ts : List Mp4tag) → All IsRead ts → length ts ≤ length (items_of ts)
length-items_of [] h = omega arith
length-items_of (t ∷ ts) h = omega (
  arith,
  length-items_of ts h.1,
  length-append (item_box t) (items_of ts),
  length-item_box t h.0.text,
)

module _ (tag : Bytes) (plain : IsPlain tag) where
  new_tag-text :
      (l : Libmp4tag) (t : Mp4tag) (d : ℕ) (rest : Bytes)
      → IsRead t
      → next_dataidx (last_tag (list_of l.tags)) tag ≡ pos d
      → new_tag l tag (value_of t ++ rest) (neg (pos t.datalen)) id_string t.datalen none
        ≡ read_back tag d t
  unfolding new_tag
  new_tag-text l t d rest h e =
      rw
        (
          new_tag,
          plain.not_covr,
          plain.name,
          e,
          stored-text (value_of t) rest t.datalen h.text.len h.nonempty,
          stored_len-text (value_of t ++ rest) t.datalen h.nonempty,
          not_binary t.datalen,
        )
        refl

  store_item-text :
      (l : Libmp4tag) (t : Mp4tag) (d : ℕ) (rest : Bytes)
      → IsRead t
      → next_dataidx (last_tag (list_of l.tags)) tag ≡ pos d
      → (i : Item) × (store_item l tag id_string t.datalen (value_of t ++ rest) ≡ some i)
        × (i.tnm ≡ tag)
        × (i.p ≡ value_of t ++ rest)
        × (list_of i.tags.tags ≡ list_of l.tags ++ (read_back tag d t ∷ []))
  unfolding store_item add_tag
  store_item-text l t d rest h e =
      let there : ltb 0 t.datalen ≡ true = lt→ltb 0 t.datalen h.nonempty in
      let long : leb t.datalen (length (value_of t ++ rest)) ≡ true =
        ground (arith, length-append (value_of t) rest, h.text.len) in
      (
        record {
          tags =
              (add_tag l tag (value_of t ++ rest) (neg (pos t.datalen)) id_string t.datalen none).0;
          tnm = tag;
          p = value_of t ++ rest;
        },
        rw (store_item, there, long) refl,
        refl,
        refl,
        ap (λ x. list_of l.tags ++ (x ∷ [])) (new_tag-text l t d rest h e),
      )

  process_tag-plain :
      (l : Libmp4tag) (blen : ℕ) (p : Bytes) → process_tag l tag blen p ≡ process_first l tag blen p
  unfolding process_tag
  process_tag-plain l blen p = rw (process_tag, plain.not_free, plain.not_custom) refl

  -- Each round stores a tag, and the index counts on.
  process_items-run :
      (ts : List Mp4tag) (fuel : ℕ) (l : Libmp4tag) (t : Mp4tag) (d blen plen : ℕ)
      → IsRead t
      → All IsRead ts
      → length ts < fuel
      → next_dataidx (last_tag (list_of l.tags)) tag ≡ pos d
      → blen ≡ plen + 16 + t.datalen + length (items_of ts)
      → blen < 2 ^ 32
      → (l' : Libmp4tag) × (process_items fuel l tag blen plen t.datalen id_string
            (value_of t ++ items_of ts)
          ≡ Outcome.done l')
        × (list_of l'.tags ≡ list_of l.tags ++ read_back_from tag d (t ∷ ts))
  process_items-run [] (suc fuel) l t d blen plen h hs f e n lt =
      let (i, store, nm, p, there) = store_item-text l t d [] h e in
      (
        i.tags,
        process_items-last fuel l tag blen plen t.datalen id_string _ i store (omega arith)
            (omega arith),
        there,
      )
  process_items-run (u ∷ ts) (suc fuel) l t d blen plen h hs f e n lt =
      let (i, store, nm, p, there) = store_item-text l t d (items_of (u ∷ ts)) h e in
      let size : length (items_of (u ∷ ts)) ≡ 16 + u.datalen + length (items_of ts) =
        omega (arith, length-append (item_box u) (items_of ts), length-item_box u hs.0.text) in
      let again : next_dataidx (last_tag (list_of i.tags.tags)) tag ≡ pos (suc d) =
        rw (there, last_tag-append (list_of l.tags) (read_back tag d t))
          (next_dataidx-same (read_back tag d t) tag d refl refl) in
      let (l', run, all) =
        process_items-run ts fuel i.tags u (suc d) blen (plen + t.datalen + 16) hs.0 hs.1
          (omega arith) again (omega (arith, size, n)) lt in
      (
        l',
        process_items-more fuel l tag blen plen t.datalen id_string u.datalen id_string _
              (value_of t) (value_of u ++ items_of ts) i store
              (p ∙ ap (◌++◌ (value_of t)) (item_box-head u (items_of ts) hs.0.text)) h.text.len
              (omega (arith, n, size)) (omega arith) lt (omega (arith, n, size))
            ∙ rw nm run,
        all
            ∙ rw there (
                append_assoc (list_of l.tags) (read_back tag d t ∷ [])
                  (read_back_from tag (suc d) (u ∷ ts))),
      )
  process_items-run ts zero l t d blen plen h hs f e n lt = ground arith

  -- For a name that is not free or custom, is no cover's and has no index in it, and text tags with
  -- values that are not empty (of string type, with the length of their value, with no cover name,
  -- and not trkn), at least one, whose data boxes take less than 2 ^ 32 bytes: mp4tag_process_tag on
  -- the data boxes that the writer makes of them, with their length, ends without a read behind
  -- them, and adds the tags to the list in their order, with the name, the values and lengths they
  -- had and indexes that count on from the list's last tag.
  pub process_tag-items_of :
      (l : Libmp4tag) (t : Mp4tag) (ts : List Mp4tag) (d : ℕ)
      → All IsRead (t ∷ ts)
      → next_dataidx (last_tag (list_of l.tags)) tag ≡ pos d
      → length (items_of (t ∷ ts)) < 2 ^ 32
      → (l' : Libmp4tag) × (process_tag l tag (length (items_of (t ∷ ts))) (items_of (t ∷ ts))
          ≡ Outcome.done l')
        × (list_of l'.tags ≡ list_of l.tags ++ read_back_from tag d (t ∷ ts))
  process_tag-items_of l t ts d h e lt =
      let size : length (items_of (t ∷ ts)) ≡ 16 + t.datalen + length (items_of ts) =
        omega (arith, length-append (item_box t) (items_of ts), length-item_box t h.0.text) in
      let head = item_box-head t (items_of ts) h.0.text in
      let (l', run, all) =
        process_items-run ts (suc (length (items_of (t ∷ ts)))) l t d (length (items_of (t ∷ ts))) 0
          h.0 h.1 (omega (arith, size, length-items_of ts h.1)) e size lt in
      (
        l',
        process_tag-plain l (length (items_of (t ∷ ts))) (items_of (t ∷ ts))
            ∙ subst
                (λ x.
                  process_first l tag (length (items_of (t ∷ ts))) x
                  ≡ process_items (suc (length x)) l tag (length (items_of (t ∷ ts))) 0 t.datalen
                      id_string (value_of t ++ items_of ts))
                (sym head)
                (process_first-item_head l tag _ t.datalen id_string _ (omega (arith, size))
                  (omega arith))
            ∙ run,
        all,
      )
