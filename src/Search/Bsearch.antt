-- ===== src/Search/Bsearch.antt =====
-- bsearch and the elements of a sorted list.
use mathlib.Core.Option.{none-ne-some}
use libmp4tag.Prelude.{
  ℕ, zero, suc, ◌+◌, ◌-◌, ◌/◌, ◌≤◌, ◌<◌, compare, Ordering, ◌≡◌, ◌⊎◌, inl, inr, some, List, length,
  get_elem?, get_elem?-of_lt, get_elem?-lt, Ordering-cases, arith,
}
use libmp4tag.Search.{bsearch_loop, bsearch}
use libmp4tag.Search.Laws.{IsCompare, IsSorted, lt-le, gt-le, le_of_index}

module _ {ℓ} {A : Type ℓ} where
  module _ (key : A → Ordering) (xs : List A) (fuel l u : ℕ) where
    -- How one round can lead to a result.
    round_found :
        {a : A}
        → bsearch_loop key xs (suc fuel) l u ≡ some a
        → (bsearch_loop key xs fuel l ((l + u) / 2) ≡ some a)
          ⊎ (get_elem? xs ((l + u) / 2) ≡ some a) × (key a ≡ Ordering.eq)
          ⊎ (bsearch_loop key xs fuel ((l + u) / 2 + 1) u ≡ some a)
    unfolding bsearch_loop
    round_found h = ground arith

    -- What one round does with the element in the middle.
    round_lt :
        (m : A)
        → l < u
        → get_elem? xs ((l + u) / 2) ≡ some m
        → key m ≡ Ordering.lt
        → bsearch_loop key xs (suc fuel) l u ≡ bsearch_loop key xs fuel l ((l + u) / 2)
    unfolding bsearch_loop
    round_lt m h g e = ground arith

    round_eq :
        (m : A)
        → l < u
        → get_elem? xs ((l + u) / 2) ≡ some m
        → key m ≡ Ordering.eq
        → bsearch_loop key xs (suc fuel) l u ≡ some m
    unfolding bsearch_loop
    round_eq m h g e = ground arith

    round_gt :
        (m : A)
        → l < u
        → get_elem? xs ((l + u) / 2) ≡ some m
        → key m ≡ Ordering.gt
        → bsearch_loop key xs (suc fuel) l u ≡ bsearch_loop key xs fuel ((l + u) / 2 + 1) u
    unfolding bsearch_loop
    round_gt m h g e = ground arith

  bsearch_loop_sound :
      (key : A → Ordering) (xs : List A) (fuel l u : ℕ) {a : A}
      → bsearch_loop key xs fuel l u ≡ some a
      → (i : ℕ) × (get_elem? xs i ≡ some a) × (key a ≡ Ordering.eq)
  bsearch_loop_sound key xs zero l u {a} h = absurd (none-ne-some a (unfold bsearch_loop in h))
  bsearch_loop_sound key xs (suc fuel) l u h = elim (round_found key xs fuel l u h) [
    | inl low ↦ bsearch_loop_sound key xs fuel l ((l + u) / 2) low
    | inr (inl (g, e)) ↦ ((l + u) / 2, g, e)
    | inr (inr high) ↦ bsearch_loop_sound key xs fuel ((l + u) / 2 + 1) u high
  ]

  -- Whatever the search returns is an element of the list that compares equal to the key.
  pub bsearch_sound :
      (key : A → Ordering) (xs : List A) {a : A}
      → bsearch key xs ≡ some a
      → (i : ℕ) × (get_elem? xs i ≡ some a) × (key a ≡ Ordering.eq)
  unfolding bsearch
  bsearch_sound key xs h = bsearch_loop_sound key xs (suc (length xs)) 0 (length xs) h

  module _ (cmp : A → A → Ordering) (law : IsCompare cmp) (k : A) (xs : List A) where
    below_middle :
        (i j : ℕ) {m a : A}
        → IsSorted cmp xs
        → get_elem? xs i ≡ some m
        → get_elem? xs j ≡ some a
        → cmp k m ≡ Ordering.lt
        → cmp k a ≡ Ordering.eq
        → j < i
    below_middle i j {m} {a} s g p c e = elim (Ordering-cases (compare j i)) [
      | inl h ↦ ground arith
      | inr (inl h) ↦ absurd (ground arith)
      | inr (inr h) ↦
          absurd (
            ground (arith, lt-le cmp law k m a c (le_of_index cmp law xs i j s (ground arith) g p)))
    ]

    above_middle :
        (i j : ℕ) {m a : A}
        → IsSorted cmp xs
        → get_elem? xs i ≡ some m
        → get_elem? xs j ≡ some a
        → cmp k m ≡ Ordering.gt
        → cmp k a ≡ Ordering.eq
        → i < j
    above_middle i j {m} {a} s g p c e = elim (Ordering-cases (compare i j)) [
      | inl h ↦ ground arith
      | inr (inl h) ↦ absurd (ground arith)
      | inr (inr h) ↦
          absurd (
            ground (arith, gt-le cmp law k a m c (le_of_index cmp law xs j i s (ground arith) p g)))
    ]

    bsearch_loop_complete :
        (fuel l u j : ℕ) {a : A}
        → IsSorted cmp xs
        → u - l < fuel
        → l ≤ j
        → j < u
        → u ≤ length xs
        → get_elem? xs j ≡ some a
        → cmp k a ≡ Ordering.eq
        → (b : A) × (bsearch_loop (cmp k) xs fuel l u ≡ some b)
    bsearch_loop_complete zero l u j s f lo hi n p e = elim f [ ]
    bsearch_loop_complete (suc fuel) l u j s f lo hi n p e =
        let (m, g) = get_elem?-of_lt xs ((l + u) / 2) (omega arith) in
        elim (Ordering-cases (cmp k m)) [
          | inl c ↦ rw (round_lt (cmp k) xs fuel l u m (omega arith) g c) (
              bsearch_loop_complete fuel l ((l + u) / 2) j s (omega arith) lo
                (below_middle ((l + u) / 2) j s g p c e) (omega arith) p e)
          | inr (inl c) ↦ (m, round_eq (cmp k) xs fuel l u m (omega arith) g c)
          | inr (inr c) ↦ rw (round_gt (cmp k) xs fuel l u m (omega arith) g c) (
              bsearch_loop_complete fuel ((l + u) / 2 + 1) u j s (omega arith)
                (omega (arith, above_middle ((l + u) / 2) j s g p c e)) hi n p e)
        ]

    -- In a sorted list an element that compares equal to the key is found.
    pub bsearch_complete :
        (j : ℕ) {a : A}
        → IsSorted cmp xs
        → get_elem? xs j ≡ some a
        → cmp k a ≡ Ordering.eq
        → (b : A) × (bsearch (cmp k) xs ≡ some b)
    unfolding bsearch
    bsearch_complete j s p e =
        bsearch_loop_complete (suc (length xs)) 0 (length xs) j s (omega arith) (omega arith)
          (get_elem?-lt xs j p) (omega arith) p e
