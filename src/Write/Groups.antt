-- ===== src/Write/Groups.antt =====
-- mp4tag_build_data of mp4tagwrite.c on text tags, of which those with one name follow each other.
use libmp4tag.CString.{Bytes, str_eq}
use libmp4tag.Const.{BoxId, boxhead_sz, pri_max}
use libmp4tag.Prelude.{
  ℕ, zero, suc, ◌+◌, ◌<◌, ◌^◌, ◌≡◌, ◌≢◌, refl, sym, ap, subst, ◌∙◌, Bool, true, false, Bool-cases,
  inl, inr, Option, none, some, List, [], ◌∷◌, ◌++◌, All, map, length, ◌==◌, if◌then◌else◌, arith,
}
use libmp4tag.Prelude.Int.{ℤ, pos, pos_part, eq_ℤ}
use libmp4tag.Tags.Set.{is_tag}
use libmp4tag.Tags.{Mp4tag}
use libmp4tag.Write.Array.{box}
use libmp4tag.Write.Build.{
  Output, box_name, build_append, build_priority, build_priorities, build_data, set_priority,
  empty_output,
}
use libmp4tag.Write.Item.{box_ident}
use libmp4tag.Write.Runs.{items_of, AllNamed, build_run}
use mathlib.Core.List.{append_assoc, append-nil}

-- The texts under one name: the four bytes in the file, and the name as the parser shows it.
pub record Group : Type 0 where
  pub nm : Bytes
  pub tag : Bytes
  pub first : Mp4tag
  pub more : List Mp4tag

abbrev pub group_items : Group → Bytes
group_items g = items_of (g.first ∷ g.more)

abbrev pub contents : List Group → Bytes
contents [] = []
contents (g ∷ gs) = box g.nm (group_items g) ++ contents gs

abbrev pub texts : List Group → List Mp4tag
texts [] = []
texts (g ∷ gs) = (g.first ∷ g.more) ++ texts gs

abbrev pub pri_of : Group → ℕ
pri_of g = pos_part g.first.priority

-- The groups in the order in which they are written.
abbrev pub of_priority : ℕ → List Group → List Group
of_priority p [] = []
of_priority p (g ∷ gs) = let rest = of_priority p gs in if pri_of g == p then g ∷ rest else rest

abbrev pub by_priority : ℕ → ℕ → List Group → List Group
by_priority zero p gs = []
by_priority (suc n) p gs = of_priority p gs ++ by_priority n (suc p) gs

pub record IsSource (g : Group) : Type 0 where
  pub named : box_ident g.tag ≡ g.nm
  pub not_custom : is_tag g.tag BoxId.custom ≡ false
  pub texts : AllNamed g.tag (pri_of g) (g.first ∷ g.more)
  pub short : boxhead_sz + length (group_items g) < 2 ^ 32

-- No group has the name of the box before it, which for the first one is `nm`.
abbrev pub IsApartFrom : Bytes → List Group → Type 0
IsApartFrom nm [] = Unit
IsApartFrom nm (g ∷ gs) =
    (str_eq (box_name g.nm none) nm ≡ false) × IsApartFrom (box_name g.nm none) gs

abbrev when_built : (Output → Option Output) → Option Output → Option Output
when_built f r = elim r [ none ↦ none | some o ↦ f o ]

build_priority-append :
    (fresh : ℕ → ℕ) (pri : ℤ) (xs ys : List Mp4tag) (o o' : Output)
    → build_priority fresh pri xs o ≡ some o'
    → build_priority fresh pri (xs ++ ys) o ≡ build_priority fresh pri ys o'
unfolding build_priority
build_priority-append fresh pri [] ys o o' e =
    ap (λ (r : Option Output). build_priority fresh pri ys (elim r [ none ↦ o | some x ↦ x ])) e
build_priority-append fresh pri (x ∷ xs) ys o o' e =
    chosen (eq_ℤ x.priority pri) (build_append fresh o x)
      (λ o1. build_priority-append fresh pri xs ys o1 o') e
  where
    built :
        (r : Option Output)
        → ((o1 : Output)
            → build_priority fresh pri xs o1 ≡ some o'
            → build_priority fresh pri (xs ++ ys) o1 ≡ build_priority fresh pri ys o')
        → when_built (build_priority fresh pri xs) r ≡ some o'
        → when_built (build_priority fresh pri (xs ++ ys)) r ≡ build_priority fresh pri ys o'
    built none rest h = ground (arith, h)
    built (some o1) rest h = rest o1 h

    chosen :
        (b : Bool) (r : Option Output)
        → ((o1 : Output)
            → build_priority fresh pri xs o1 ≡ some o'
            → build_priority fresh pri (xs ++ ys) o1 ≡ build_priority fresh pri ys o')
        → (if b then when_built (build_priority fresh pri xs) r else build_priority fresh pri xs o)
          ≡ some o'
        → (if b
            then when_built (build_priority fresh pri (xs ++ ys)) r
            else build_priority fresh pri (xs ++ ys) o)
          ≡ build_priority fresh pri ys o'
    chosen true r rest h = built r rest h
    chosen false r rest h = rest o h

build_priority-other :
    (fresh : ℕ → ℕ) (tag : Bytes) (p q : ℕ) (ts ys : List Mp4tag) (o : Output)
    → AllNamed tag q ts
    → q ≢ p
    → build_priority fresh (pos p) (ts ++ ys) o ≡ build_priority fresh (pos p) ys o
unfolding build_priority
build_priority-other fresh tag p q [] ys o a ne = refl
build_priority-other fresh tag p q (t ∷ ts) ys o ((h, named, pri), a) ne =
    let other : eq_ℤ t.priority (pos p) ≡ false = rw pri (ground (arith, ne)) in
    rw other (build_priority-other fresh tag p q ts ys o a ne)

-- What the tags of a priority add, before boxes of other groups.
record Wrote (fresh : ℕ → ℕ) (p : ℕ) (gs behind : List Group) (o o' : Output) : Type 0 where
  run : build_priority fresh (pos p) (texts gs) o ≡ some o'
  buf : o'.buf ≡ o.buf ++ contents (of_priority p gs)
  apart : IsApartFrom o'.lastbox_nm behind

of_priority-same :
    (p : ℕ) (g : Group) (gs : List Group)
    → (pri_of g == p) ≡ true
    → of_priority p (g ∷ gs) ≡ g ∷ of_priority p gs
of_priority-same p g gs e = rw e refl

of_priority-other :
    (p : ℕ) (g : Group) (gs : List Group)
    → (pri_of g == p) ≡ false
    → of_priority p (g ∷ gs) ≡ of_priority p gs
of_priority-other p g gs e = rw e refl

build_priority-groups :
    (fresh : ℕ → ℕ) (p : ℕ) (gs behind : List Group) (o : Output)
    → All IsSource gs
    → IsApartFrom o.lastbox_nm (of_priority p gs ++ behind)
    → (o' : Output) × Wrote fresh p gs behind o o'
unfolding build_priority
build_priority-groups fresh p [] behind o hs apart =
    (o, record { run = refl; buf = sym (append-nil o.buf); apart = apart })
build_priority-groups fresh p (g ∷ gs) behind o hs apart = elim (Bool-cases (pri_of g == p)) [
  | inr other ↦
      let ne : pri_of g ≢ p = ground arith in
      let (o', w) = build_priority-groups fresh p gs behind o hs.1 (
        subst (λ fs. IsApartFrom o.lastbox_nm (fs ++ behind)) (of_priority-other p g gs other)
          apart) in
      (
        o',
        record {
          run =
              build_priority-other fresh g.tag p (pri_of g) (g.first ∷ g.more) (texts gs) o
                hs.0.texts ne
              ∙ w.run;
          buf = w.buf ∙ ap (λ fs. o.buf ++ contents fs) (sym (of_priority-other p g gs other));
          apart = w.apart;
        },
      )
  | inl same ↦
      let eq : pri_of g ≡ p = ground arith in
      let here =
        subst (λ fs. IsApartFrom o.lastbox_nm (fs ++ behind)) (of_priority-same p g gs same)
          apart in
      let (o1, e1, w1) =
        build_run fresh g.tag hs.0.not_custom p g.first g.more o
          (subst (λ q. AllNamed g.tag q (g.first ∷ g.more)) eq hs.0.texts)
          (subst (λ nm. str_eq (box_name nm none) o.lastbox_nm ≡ false) (sym hs.0.named) here.0)
          hs.0.short in
      let (o', w) = build_priority-groups fresh p gs behind o1 hs.1 (
        subst (λ nm. IsApartFrom nm (of_priority p gs ++ behind))
          (sym (w1.name ∙ ap (λ nm. box_name nm none) hs.0.named)) here.1) in
      (
        o',
        record {
          run = build_priority-append fresh (pos p) (g.first ∷ g.more) (texts gs) o o1 e1 ∙ w.run;
          buf =
              w.buf
              ∙ ap (λ b. b ++ contents (of_priority p gs))
                  (w1.buf ∙ ap (λ nm. o.buf ++ box nm (group_items g)) hs.0.named)
              ∙ append_assoc o.buf (box g.nm (group_items g)) (contents (of_priority p gs))
              ∙ ap (λ fs. o.buf ++ contents fs) (sym (of_priority-same p g gs same));
          apart = w.apart;
        },
      )
]

pub contents-append : (gs hs : List Group) → contents (gs ++ hs) ≡ contents gs ++ contents hs
contents-append [] hs = refl
contents-append (g ∷ gs) hs =
    ap (◌++◌ (box g.nm (group_items g))) (contents-append gs hs)
    ∙ sym (append_assoc (box g.nm (group_items g)) (contents gs) (contents hs))

build_priorities-groups :
    (fresh : ℕ → ℕ) (n p : ℕ) (gs : List Group) (o : Output)
    → All IsSource gs
    → IsApartFrom o.lastbox_nm (by_priority n p gs)
    → (o' : Output) × (build_priorities fresh n p (texts gs) o ≡ some o')
      × (o'.buf ≡ o.buf ++ contents (by_priority n p gs))
unfolding build_priorities
build_priorities-groups fresh zero p gs o hs apart = (o, refl, sym (append-nil o.buf))
build_priorities-groups fresh (suc n) p gs o hs apart =
    let (o1, w) = build_priority-groups fresh p gs (by_priority n (suc p) gs) o hs apart in
    let (o2, run, all) = build_priorities-groups fresh n (suc p) gs o1 hs w.apart in
    (
      o2,
      ap (when_built (build_priorities fresh n (suc p) (texts gs))) w.run ∙ run,
      all
          ∙ ap (λ b. b ++ contents (by_priority n (suc p) gs)) w.buf
          ∙ append_assoc o.buf (contents (of_priority p gs)) (contents (by_priority n (suc p) gs))
          ∙ ap (◌++◌ o.buf) (sym (contents-append (of_priority p gs) (by_priority n (suc p) gs))),
    )

abbrev data_of : List Mp4tag → Option Output → Option (List Mp4tag × Bytes)
data_of ts r = elim r [ none ↦ none | some o ↦ some (ts, o.buf) ]

-- The data of a list whose tags, with the priorities of the table, are the texts of groups.
pub build_data-contents :
    (fresh : ℕ → ℕ) (ts : List Mp4tag) (gs : List Group)
    → map set_priority ts ≡ texts gs
    → All IsSource gs
    → IsApartFrom [] (by_priority pri_max 0 gs)
    → build_data fresh ts ≡ some (texts gs, contents (by_priority pri_max 0 gs))
unfolding build_data
build_data-contents fresh ts gs e hs apart =
    let (o, run, all) = build_priorities-groups fresh pri_max 0 gs empty_output hs apart in
    ap (λ us. data_of us (build_priorities fresh pri_max 0 us empty_output)) e
    ∙ ap (data_of (texts gs)) run
    ∙ ap (λ b. some (texts gs, b)) all
