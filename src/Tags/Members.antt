-- ===== src/Tags/Members.antt =====
-- Which tags are in the list after mp4tag_sort_tags and mp4tag_del_tag.
use libmp4tag.Prelude.{
  ℕ, zero, suc, ◌≡◌, refl, sym, ap, subst, ◌∙◌, ◌⊎◌, inl, inr, ◌++◌, some, List, [], ◌∷◌, get_elem?,
}
use libmp4tag.Search.Laws.{insert-cases}
use libmp4tag.Search.{insert, sort}
use libmp4tag.Tags.Find.{number_from, sorted_tags}
use libmp4tag.Tags.{Mp4tag, mp4tag_compare}
use mathlib.Core.Option.{none-ne-some}

-- The tag stands somewhere in the list.
pub record In (t : Mp4tag) (ts : List Mp4tag) : Type 0 where
  pub pos : ℕ
  pub there : get_elem? ts pos ≡ some t

-- The same tag, wherever it stands.
abbrev pub SameTag : Mp4tag → Mp4tag → Type 0
SameTag a b = record a { idx = b.idx } ≡ b

pub In-here : (t : Mp4tag) (ts : List Mp4tag) → In t (t ∷ ts)
In-here t ts = record { pos = 0; there = refl }

pub In-there : {t : Mp4tag} (u : Mp4tag) {ts : List Mp4tag} → In t ts → In t (u ∷ ts)
In-there u m = record { pos = suc m.pos; there = m.there }

pub In-cons : {t : Mp4tag} (u : Mp4tag) (ts : List Mp4tag) → In t (u ∷ ts) → (t ≡ u) ⊎ In t ts
In-cons {t} u ts m = go m.pos m.there
  where
    go : (i : ℕ) → get_elem? (u ∷ ts) i ≡ some t → (t ≡ u) ⊎ In t ts
    go zero e = inl (cc e)
    go (suc i) e = inr (record { pos = i; there = e })

pub In-nil : {t : Mp4tag} → In t [] → ⊥
In-nil {t} m = none-ne-some t m.there

pub In-concat :
    {t : Mp4tag} (ts : List Mp4tag) (u : Mp4tag) → In t (ts ++ (u ∷ [])) → (t ≡ u) ⊎ In t ts
In-concat [] u m = In-cons u [] m
In-concat (x ∷ ts) u m = elim (In-cons x (ts ++ (u ∷ [])) m) [
  | inl e ↦ inr (rw e (In-here x ts))
  | inr later ↦ elim (In-concat ts u later) [ inl e ↦ inl e | inr old ↦ inr (In-there x old) ]
]

pub In-concat_last : (ts : List Mp4tag) (u : Mp4tag) → In u (ts ++ (u ∷ []))
In-concat_last [] u = In-here u []
In-concat_last (x ∷ ts) u = In-there x (In-concat_last ts u)

pub In-concat_old : {t : Mp4tag} (ts : List Mp4tag) (u : Mp4tag) → In t ts → In t (ts ++ (u ∷ []))
In-concat_old [] u m = absurd (In-nil m)
In-concat_old (x ∷ ts) u m = elim (In-cons x ts m) [
  | inl e ↦ rw e (In-here x (ts ++ (u ∷ [])))
  | inr later ↦ In-there x (In-concat_old ts u later)
]

In-insert :
    {t : Mp4tag} (a : Mp4tag) (ts : List Mp4tag)
    → In t (insert mp4tag_compare a ts)
    → (t ≡ a) ⊎ In t ts
In-insert a [] m = In-cons a [] (unfold insert in m)
In-insert {t} a (x ∷ ts) m = elim (insert-cases mp4tag_compare a x ts) [
  | inl (_, e) ↦ In-cons a (x ∷ ts) (subst (In t) e m)
  | inr (_, e) ↦ elim (In-cons x (insert mp4tag_compare a ts) (subst (In t) e m)) [
    | inl same ↦ inr (rw same (In-here x ts))
    | inr later ↦ elim (In-insert a ts later) [ inl new ↦ inl new | inr old ↦ inr (In-there x old) ]
  ]
]

In-insert_new : (a : Mp4tag) (ts : List Mp4tag) → In a (insert mp4tag_compare a ts)
In-insert_new a [] = unfold insert in In-here a []
In-insert_new a (x ∷ ts) = elim (insert-cases mp4tag_compare a x ts) [
  | inl (_, e) ↦ rw e (In-here a (x ∷ ts))
  | inr (_, e) ↦ rw e (In-there x (In-insert_new a ts))
]

In-insert_old :
    {t : Mp4tag} (a : Mp4tag) (ts : List Mp4tag) → In t ts → In t (insert mp4tag_compare a ts)
In-insert_old a [] m = absurd (In-nil m)
In-insert_old a (x ∷ ts) m = elim (insert-cases mp4tag_compare a x ts) [
  | inl (_, e) ↦ rw e (In-there a m)
  | inr (_, e) ↦ rw e (elim (In-cons x ts m) [
    | inl same ↦ rw same (In-here x (insert mp4tag_compare a ts))
    | inr later ↦ In-there x (In-insert_old a ts later)
  ])
]

In-sort : {t : Mp4tag} (ts : List Mp4tag) → In t (sort mp4tag_compare ts) → In t ts
unfolding sort
In-sort [] m = m
In-sort (x ∷ ts) m = elim (In-insert x (sort mp4tag_compare ts) m) [
  | inl e ↦ rw e (In-here x ts)
  | inr old ↦ In-there x (In-sort ts old)
]

In-sort_intro : {t : Mp4tag} (ts : List Mp4tag) → In t ts → In t (sort mp4tag_compare ts)
unfolding sort
In-sort_intro [] m = m
In-sort_intro (x ∷ ts) m = elim (In-cons x ts m) [
  | inl e ↦ rw e (In-insert_new x (sort mp4tag_compare ts))
  | inr later ↦ In-insert_old x (sort mp4tag_compare ts) (In-sort_intro ts later)
]

pub In-number_from :
    {t : Mp4tag} (n : ℕ) (ts : List Mp4tag)
    → In t (number_from n ts)
    → (u : Mp4tag) × In u ts × SameTag u t
unfolding number_from
In-number_from n [] m = absurd (In-nil m)
In-number_from n (x ∷ ts) m = elim (In-cons _ (number_from (suc n) ts) m) [
  | inl e ↦ (x, In-here x ts, ap (λ (y : Mp4tag). record x { idx = y.idx }) e ∙ sym e)
  | inr later ↦ let (u, k, s) = In-number_from (suc n) ts later in (u, In-there x k, s)
]

pub In-number_from_intro :
    {u : Mp4tag} (n : ℕ) (ts : List Mp4tag)
    → In u ts
    → (t : Mp4tag) × In t (number_from n ts) × SameTag u t
unfolding number_from
In-number_from_intro n [] m = absurd (In-nil m)
In-number_from_intro {u} n (x ∷ ts) m = elim (In-cons x ts m) [
  | inl e ↦ (record x { idx = n }, In-here _ _, ap (λ (y : Mp4tag). record y { idx = n }) e)
  | inr later ↦ let (t, k, s) = In-number_from_intro (suc n) ts later in (t, In-there _ k, s)
]

-- Sorting keeps every tag and adds none; only positions change.
pub In-sorted_tags :
    {t : Mp4tag} (ts : List Mp4tag) → In t (sorted_tags ts) → (u : Mp4tag) × In u ts × SameTag u t
unfolding sorted_tags
In-sorted_tags ts m =
    let (u, k, s) = In-number_from 0 (sort mp4tag_compare ts) m in (u, In-sort ts k, s)

pub In-sorted_tags_intro :
    {u : Mp4tag} (ts : List Mp4tag) → In u ts → (t : Mp4tag) × In t (sorted_tags ts) × SameTag u t
unfolding sorted_tags
In-sorted_tags_intro ts m = In-number_from_intro 0 _ (In-sort_intro ts m)
