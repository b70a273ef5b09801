-- ===== src/Search/Laws.antt =====
-- What C asks of a comparator, and qsort.
use mathlib.Core.List.{Perm}
use mathlib.Core.List.Perm
use mathlib.Core.Option.{none-ne-some}
use libmp4tag.Prelude.{
  ℕ, zero, suc, ◌<◌, Ordering, ◌≡◌, ◌≢◌, ◌⊎◌, inl, inr, some, List, [], ◌∷◌, get_elem?, All,
  All-get_elem?, subst, arith,
}
use libmp4tag.Search.{insert, sort}

abbrev pub flip : Ordering → Ordering
flip Ordering.lt = Ordering.gt
flip Ordering.eq = Ordering.eq
flip Ordering.gt = Ordering.lt

-- What C asks of a comparator.
pub record IsCompare {ℓ} {A : Type ℓ} (cmp : A → A → Ordering) : Type ℓ where
  pub swap : (a b : A) → cmp b a ≡ flip (cmp a b)
  pub trans : (a b c : A) → cmp a b ≢ Ordering.gt → cmp b c ≢ Ordering.gt → cmp a c ≢ Ordering.gt

-- Every element compares less than or equal to all that follow it.
abbrev pub IsSorted {ℓ} : {A : Type ℓ} → (A → A → Ordering) → List A → Type 0
IsSorted cmp [] = Unit
IsSorted cmp (x ∷ xs) = All (λ y. cmp x y ≢ Ordering.gt) xs × IsSorted cmp xs

module _ {ℓ} {A : Type ℓ} (cmp : A → A → Ordering) where
  insert-perm : (a : A) (xs : List A) → Perm (insert cmp a xs) (a ∷ xs)
  unfolding insert
  insert-perm a [] = Perm.refl (a ∷ [])
  insert-perm a (x ∷ xs) =
      elim (cmp a x)
        as (λ o.
          Perm (elim o [ Ordering.gt ↦ x ∷ insert cmp a xs | _ ↦ a ∷ x ∷ xs ]) (a ∷ x ∷ xs)) [
            | Ordering.gt ↦ Perm.trans (Perm.cons x (insert-perm a xs)) (Perm.swap a x xs)
            | Ordering.lt ↦ Perm.refl _
            | Ordering.eq ↦ Perm.refl _
          ]

  -- Sorting only reorders.
  pub sort-perm : (xs : List A) → Perm (sort cmp xs) xs
  unfolding sort
  sort-perm [] = Perm.refl []
  sort-perm (x ∷ xs) = Perm.trans (insert-perm x (sort cmp xs)) (Perm.cons x (sort-perm xs))

  pub insert-cases :
      (a x : A) (xs : List A)
      → ((cmp a x ≢ Ordering.gt) × (insert cmp a (x ∷ xs) ≡ a ∷ x ∷ xs))
        ⊎ ((cmp a x ≡ Ordering.gt) × (insert cmp a (x ∷ xs) ≡ x ∷ insert cmp a xs))
  unfolding insert
  insert-cases a x xs = ground arith

  All-insert : (P : A → Type 0) (a : A) (xs : List A) → P a → All P xs → All P (insert cmp a xs)
  unfolding insert
  All-insert P a [] p h = (p, tt)
  All-insert P a (x ∷ xs) p h = ground (arith, All-insert P a xs p h.1)

  module _ (law : IsCompare cmp) where
    gt_swap : (a x : A) → cmp a x ≡ Ordering.gt → cmp x a ≢ Ordering.gt
    gt_swap a x e = ground (arith, law.swap a x)

    All-le :
        (a x : A) (xs : List A)
        → cmp a x ≢ Ordering.gt
        → All (λ y. cmp x y ≢ Ordering.gt) xs
        → All (λ y. cmp a y ≢ Ordering.gt) xs
    All-le a x [] p h = tt
    All-le a x (y ∷ ys) p h = (law.trans a x y p h.0, All-le a x ys p h.1)

    insert-IsSorted : (a : A) (xs : List A) → IsSorted cmp xs → IsSorted cmp (insert cmp a xs)
    insert-IsSorted a [] h = unfold insert in (tt, tt)
    insert-IsSorted a (x ∷ xs) h = elim (insert-cases a x xs) [
      | inl (le, e) ↦ rw e ((le, All-le a x xs le h.0), h)
      | inr (gt, e) ↦ rw e (
        All-insert (λ y. cmp x y ≢ Ordering.gt) a xs (gt_swap a x gt) h.0,
        insert-IsSorted a xs h.1,
      )
    ]

    pub sort-IsSorted : (xs : List A) → IsSorted cmp (sort cmp xs)
    unfolding sort
    sort-IsSorted [] = tt
    sort-IsSorted (x ∷ xs) = insert-IsSorted x _ (sort-IsSorted xs)

    -- A key below one element is below every element that is not less.
    pub lt-le : (k a b : A) → cmp k a ≡ Ordering.lt → cmp a b ≢ Ordering.gt → cmp k b ≡ Ordering.lt
    lt-le k a b p q = ground (arith, law.swap k b, law.swap k a, law.trans k a b, law.trans a b k)

    pub gt-le : (k a b : A) → cmp k b ≡ Ordering.gt → cmp a b ≢ Ordering.gt → cmp k a ≡ Ordering.gt
    gt-le k a b p q = ground (arith, law.swap k b, law.swap k a, law.trans k a b, law.trans a b k)

    pub le_of_index :
        (xs : List A) (i j : ℕ) {a b : A}
        → IsSorted cmp xs
        → i < j
        → get_elem? xs i ≡ some a
        → get_elem? xs j ≡ some b
        → cmp a b ≢ Ordering.gt
    le_of_index [] i j s h p q = absurd (none-ne-some _ p)
    le_of_index (x ∷ xs) i zero s h p q = elim h [ ]
    le_of_index (x ∷ xs) zero (suc j) {a} {b} s h p q =
        subst (λ t. cmp t b ≢ Ordering.gt) (cc p)
          (All-get_elem? (λ y. cmp x y ≢ Ordering.gt) xs j s.0 q)
    le_of_index (x ∷ xs) (suc i) (suc j) s h p q = le_of_index xs i j s.1 (omega arith) p q
