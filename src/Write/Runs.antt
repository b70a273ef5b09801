-- ===== src/Write/Runs.antt =====
-- mp4tag_build_append of mp4tagwrite.c on a run of text tags that share a name.
use libmp4tag.CString.{Bytes, str_eq}
use libmp4tag.Const.{BoxId, boxhead_sz, data_sz}
use libmp4tag.Prelude.{
  ℕ, suc, ◌+◌, ◌<◌, ◌^◌, ◌≡◌, refl, sym, ap, ◌∙◌, subst, false, Option, none, some, List, [], ◌∷◌,
  ◌++◌, length, All, length-append, arith,
}
use libmp4tag.Prelude.Int.{pos}
use libmp4tag.Tags.Set.{is_tag}
use libmp4tag.Tags.{Mp4tag}
use libmp4tag.Write.Array.{
  box, item_box, IsText, length-box, length-item_box, write_tag-first, write_tag-next,
}
use libmp4tag.Write.Build.{
  Output, box_name, start_name, new_dlen, append_named, build_append, build_priority,
}
use libmp4tag.Write.Item.{box_ident}
use mathlib.Core.List.{append_assoc, append-nil}
use libmp4tag.Write.Full.{
  IsOpen, length-box_ident, append_named-full, new_dlen-first, new_dlen-next, start_name-same,
}

module _ (fresh : ℕ → ℕ) (tag : Bytes) (plain : is_tag tag BoxId.custom ≡ false) (t : Mp4tag)
    (h : IsText t) (named : t.tag ≡ some tag) where
  build_append-plain :
      (o : Output)
      → build_append fresh o t
        ≡ append_named fresh (start_name o (box_name (box_ident tag) none)) t (box_ident tag) none
  unfolding build_append
  build_append-plain o = rw (named, plain) refl

  -- The first text tag of a name begins a box behind what is there.
  build_append-first :
      (o : Output)
      → str_eq (box_name (box_ident tag) none) o.lastbox_nm ≡ false
      → (o' : Output) × (build_append fresh o t ≡ some o') × IsOpen tag o.buf (item_box t) o'
  unfolding start_name
  build_append-first o other =
      let s = record o {
        datacount = 0;
        lastbox_offset = none;
        lastbox_nm = box_name (box_ident tag) none;
      } in
      let size : length (o.buf ++ box (box_ident tag) (item_box t)) ≡ new_dlen s t none = omega (
        arith,
        length-append o.buf (box (box_ident tag) (item_box t)),
        length-box (box_ident tag) (item_box t) (length-box_ident tag),
        length-item_box t h,
        new_dlen-first s t h refl,
      ) in
      (
        _,
        build_append-plain o
            ∙ rw other (
                append_named-full fresh s t (box_ident tag) (length o.buf) _ refl
                  (write_tag-first s t (box_ident tag) h (length-box_ident tag) refl) size),
        record { buf = refl; offset = refl; name = refl; earlier = 0; datacount = refl },
      )

  -- The next one of the same name goes into the box.
  build_append-next :
      (o : Output) (pre items : Bytes)
      → IsOpen tag pre items o
      → boxhead_sz + length items + (data_sz + t.datalen) < 2 ^ 32
      → (o' : Output) × (build_append fresh o t ≡ some o') × IsOpen tag pre (items ++ item_box t) o'
  build_append-next o pre items p lt =
      let same : start_name o (box_name (box_ident tag) none) ≡ o = start_name-same o _ p.name in
      let size : length (pre ++ box (box_ident tag) (items ++ item_box t)) ≡ new_dlen o t none =
        omega (
          arith,
          length-append pre (box (box_ident tag) (items ++ item_box t)),
          length-box (box_ident tag) (items ++ item_box t) (length-box_ident tag),
          length-append items (item_box t),
          length-item_box t h,
          new_dlen-next o t p.earlier h p.datacount,
          ap length p.buf,
          length-append pre (box (box_ident tag) items),
          length-box (box_ident tag) items (length-box_ident tag),
        ) in
      (
        _,
        build_append-plain o
            ∙ rw same (
                append_named-full fresh o t (box_ident tag) (length pre) _
                  (ap (λ (x : Option ℕ). elim x [ none ↦ length o.buf | some n ↦ n ]) p.offset)
                  (write_tag-next o t (box_ident tag) h (length-box_ident tag) pre items p.earlier
                    p.datacount p.buf lt)
                  size),
        record {
          buf = refl;
          offset = refl;
          name = p.name;
          earlier = suc p.earlier;
          datacount = ap (λ k. k + 1) p.datacount ∙ omega arith;
        },
      )

-- What the items of a list take.
abbrev pub items_of : List Mp4tag → Bytes
items_of [] = []
items_of (t ∷ ts) = item_box t ++ items_of ts

-- Text tags with one name and one priority.
abbrev pub AllNamed : Bytes → ℕ → List Mp4tag → Type 0
AllNamed tag p ts = All (λ t. IsText t × (t.tag ≡ some tag) × (t.priority ≡ pos p)) ts

build_priority-cons :
    (fresh : ℕ → ℕ) (p : ℕ) (t : Mp4tag) (ts : List Mp4tag) (o o' : Output)
    → t.priority ≡ pos p
    → build_append fresh o t ≡ some o'
    → build_priority fresh (pos p) (t ∷ ts) o ≡ build_priority fresh (pos p) ts o'
unfolding build_priority
build_priority-cons fresh p t ts o o' e b = ground (arith, e, b)

module _ (fresh : ℕ → ℕ) (tag : Bytes) (plain : is_tag tag BoxId.custom ≡ false) (p : ℕ) where
  build_priority-IsOpen :
      (ts : List Mp4tag) (o : Output) (pre items : Bytes)
      → AllNamed tag p ts
      → IsOpen tag pre items o
      → boxhead_sz + length (items ++ items_of ts) < 2 ^ 32
      → (o' : Output) × (build_priority fresh (pos p) ts o ≡ some o')
        × IsOpen tag pre (items ++ items_of ts) o'
  unfolding build_priority
  build_priority-IsOpen [] o pre items a w lt =
      (o, refl, subst (λ x. IsOpen tag pre x o) (sym (append-nil items)) w)
  build_priority-IsOpen (t ∷ ts) o pre items ((h, named, pri), a) w lt =
      let (o1, e1, w1) = build_append-next fresh tag plain t h named o pre items w (
        omega (
          arith,
          length-append items (item_box t ++ items_of ts),
          length-append (item_box t) (items_of ts),
          length-item_box t h,
        )) in
      let (o2, e2, w2) = build_priority-IsOpen ts o1 pre (items ++ item_box t) a w1 (
        subst (λ (x : Bytes). boxhead_sz + length x < 2 ^ 32)
          (sym (append_assoc items (item_box t) (items_of ts))) lt) in
      (
        o2,
        build_priority-cons fresh p t ts o o1 pri e1 ∙ e2,
        subst (λ x. IsOpen tag pre x o2) (append_assoc items (item_box t) (items_of ts)) w2,
      )

  pub build_run :
      (t : Mp4tag) (ts : List Mp4tag) (o : Output)
      → AllNamed tag p (t ∷ ts)
      → str_eq (box_name (box_ident tag) none) o.lastbox_nm ≡ false
      → boxhead_sz + length (items_of (t ∷ ts)) < 2 ^ 32
      → (o' : Output) × (build_priority fresh (pos p) (t ∷ ts) o ≡ some o')
        × IsOpen tag o.buf (items_of (t ∷ ts)) o'
  build_run t ts o ((h, named, pri), a) other lt =
      let (o1, e1, w1) = build_append-first fresh tag plain t h named o other in
      let (o2, e2, w2) = build_priority-IsOpen ts o1 o.buf (item_box t) a w1 lt in
      (o2, build_priority-cons fresh p t ts o o1 pri e1 ∙ e2, w2)

  -- Text tags (of string type, with the length of their value, with no cover name, and not trkn) of
  -- one priority and one name that is not custom, at least one, of which the box written before does
  -- not have the name, and which together take less than 2 ^ 32 bytes, are written without an access
  -- behind the buffer, as one box behind what was there, whose content is the data boxes of the tags
  -- in their order and whose length covers them all.
  pub build_priority-array :
      (t : Mp4tag) (ts : List Mp4tag) (o : Output)
      → AllNamed tag p (t ∷ ts)
      → str_eq (box_name (box_ident tag) none) o.lastbox_nm ≡ false
      → boxhead_sz + length (items_of (t ∷ ts)) < 2 ^ 32
      → (o' : Output) × (build_priority fresh (pos p) (t ∷ ts) o ≡ some o')
        × (o'.buf ≡ o.buf ++ box (box_ident tag) (items_of (t ∷ ts)))
  build_priority-array t ts o a other lt =
      let (o', e, w) = build_run t ts o a other lt in (o', e, w.buf)
