-- ===== src/Search.antt =====
-- qsort and bsearch of <stdlib.h>, as the tag list uses them. A comparator gives the sign that the C
-- comparator returns. `sort` is an insertion sort; the C standard leaves open how qsort orders
-- elements that compare equal, and here they keep their order. `bsearch` halves the
-- range [l, u) as the C libraries do.
pub mod Laws
pub mod Bsearch
use libmp4tag.Prelude.{
  ℕ, zero, suc, ◌+◌, ◌/◌, Ordering, Option, none, some, List, [], ◌∷◌, true, false, ltb, length,
  get_elem?,
}

module _ {ℓ} {A : Type ℓ} where
  unfoldable pub insert : (A → A → Ordering) → A → List A → List A
  insert cmp a [] = a ∷ []
  insert cmp a (x ∷ xs) = elim (cmp a x) [ Ordering.gt ↦ x ∷ insert cmp a xs | _ ↦ a ∷ x ∷ xs ]

  unfoldable pub sort : (A → A → Ordering) → List A → List A
  unfolding insert
  sort cmp [] = []
  sort cmp (x ∷ xs) = insert cmp x (sort cmp xs)

  -- `cmp a` is the sign of the key against the element `a`.
  unfoldable pub bsearch_loop : (A → Ordering) → List A → ℕ → ℕ → ℕ → Option A
  bsearch_loop cmp xs zero l u = none
  bsearch_loop cmp xs (suc fuel) l u = elim (ltb l u) [
    | false ↦ none
    | true ↦ elim (get_elem? xs ((l + u) / 2)) [
      | none ↦ none
      | some a ↦ elim (cmp a) [
        | Ordering.lt ↦ bsearch_loop cmp xs fuel l ((l + u) / 2)
        | Ordering.eq ↦ some a
        | Ordering.gt ↦ bsearch_loop cmp xs fuel ((l + u) / 2 + 1) u
      ]
    ]
  ]

  -- Each round leaves a shorter range, so `length xs + 1` rounds are enough.
  unfoldable pub bsearch : (A → Ordering) → List A → Option A
  unfolding bsearch_loop
  bsearch cmp xs = bsearch_loop cmp xs (suc (length xs)) 0 (length xs)
