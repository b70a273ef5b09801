-- ===== src/Tags/Invariant.antt =====
-- The invariant of the tag list: it is sorted by name and data index, and each tag holds its own
-- position.
use libmp4tag.Prelude.{
  ℕ, zero, suc, ◌+◌, Ordering, ◌≡◌, refl, sym, ap, ◌∙◌, ◌≢◌, some, List, map, [], ◌∷◌, get_elem?,
  set, All, arith,
}
use libmp4tag.Search.Laws.{IsSorted, sort-IsSorted}
use libmp4tag.Tags.Add.{remove_at, clone_tag}
use libmp4tag.Tags.Compare.{mp4tag_compare-IsCompare}
use libmp4tag.Tags.Find.{number_from, sorted_tags}
use libmp4tag.Tags.{Mp4tag, mp4tag_compare}

-- The tags hold their positions, from `n` on.
abbrev pub IsNumbered : ℕ → List Mp4tag → Type 0
IsNumbered n [] = Unit
IsNumbered n (t ∷ ts) = (t.idx ≡ n) × IsNumbered (suc n) ts

pub record IsWellFormed (ts : List Mp4tag) : Type 0 where
  pub sorted : IsSorted mp4tag_compare ts
  pub numbered : IsNumbered 0 ts

-- Two tags with the same name and data index take the same place.
pub record SameKey (a b : Mp4tag) : Type 0 where
  pub tag : a.tag ≡ b.tag
  pub dataidx : a.dataidx ≡ b.dataidx

-- Two lists with the same names and data indices.
abbrev pub SameKeys : List Mp4tag → List Mp4tag → Type 0
SameKeys [] [] = Unit
SameKeys [] (u ∷ us) = ⊥
SameKeys (t ∷ ts) [] = ⊥
SameKeys (t ∷ ts) (u ∷ us) = SameKey t u × SameKeys ts us

pub compare_SameKey :
    {a b c d : Mp4tag} → SameKey a b → SameKey c d → mp4tag_compare a c ≡ mp4tag_compare b d
unfolding mp4tag_compare
compare_SameKey s t = rw (s.tag, s.dataidx, t.tag, t.dataidx)

All-SameKeys :
    {a b : Mp4tag} (ts us : List Mp4tag)
    → SameKey a b
    → SameKeys ts us
    → All (λ y. mp4tag_compare a y ≢ Ordering.gt) ts
    → All (λ y. mp4tag_compare b y ≢ Ordering.gt) us
All-SameKeys [] [] s k h = tt
All-SameKeys [] (u ∷ us) s k h = absurd k
All-SameKeys (t ∷ ts) [] s k h = absurd k
All-SameKeys (t ∷ ts) (u ∷ us) s k h =
    (rw (← compare_SameKey s k.0) h.0, All-SameKeys ts us s k.1 h.1)

pub IsSorted-SameKeys :
    (ts us : List Mp4tag) → SameKeys ts us → IsSorted mp4tag_compare ts → IsSorted mp4tag_compare us
IsSorted-SameKeys [] [] k h = tt
IsSorted-SameKeys [] (u ∷ us) k h = absurd k
IsSorted-SameKeys (t ∷ ts) [] k h = absurd k
IsSorted-SameKeys (t ∷ ts) (u ∷ us) k h =
    (All-SameKeys ts us k.0 k.1 h.0, IsSorted-SameKeys ts us k.1 h.1)

SameKeys-number_from : (n : ℕ) (ts : List Mp4tag) → SameKeys ts (number_from n ts)
unfolding number_from
SameKeys-number_from n [] = tt
SameKeys-number_from n (t ∷ ts) =
    (record { tag = refl; dataidx = refl }, SameKeys-number_from (suc n) ts)

number_from-IsNumbered : (n : ℕ) (ts : List Mp4tag) → IsNumbered n (number_from n ts)
unfolding number_from
number_from-IsNumbered n [] = tt
number_from-IsNumbered n (t ∷ ts) = (refl, number_from-IsNumbered (suc n) ts)

pub number_from-IsWellFormed :
    (ts : List Mp4tag) → IsSorted mp4tag_compare ts → IsWellFormed (number_from 0 ts)
number_from-IsWellFormed ts h = record {
  sorted = IsSorted-SameKeys ts (number_from 0 ts) (SameKeys-number_from 0 ts) h;
  numbered = number_from-IsNumbered 0 ts;
}

-- mp4tag_sort_tags gives any list an order by name and index, with each tag holding its position.
pub sorted_tags-IsWellFormed : (ts : List Mp4tag) → IsWellFormed (sorted_tags ts)
unfolding sorted_tags
sorted_tags-IsWellFormed ts =
    number_from-IsWellFormed _ (sort-IsSorted mp4tag_compare mp4tag_compare-IsCompare ts)

All-remove_at :
    (a : Mp4tag) (i : ℕ) (ts : List Mp4tag)
    → All (λ y. mp4tag_compare a y ≢ Ordering.gt) ts
    → All (λ y. mp4tag_compare a y ≢ Ordering.gt) (remove_at i ts)
unfolding remove_at
All-remove_at a i [] h = tt
All-remove_at a zero (t ∷ ts) h = h.1
All-remove_at a (suc i) (t ∷ ts) h = (h.0, All-remove_at a i ts h.1)

pub remove_at-IsSorted :
    (i : ℕ) (ts : List Mp4tag)
    → IsSorted mp4tag_compare ts
    → IsSorted mp4tag_compare (remove_at i ts)
unfolding remove_at
remove_at-IsSorted i [] h = tt
remove_at-IsSorted zero (t ∷ ts) h = h.1
remove_at-IsSorted (suc i) (t ∷ ts) h = (All-remove_at t i ts h.0, remove_at-IsSorted i ts h.1)

SameKeys-refl : (ts : List Mp4tag) → SameKeys ts ts
SameKeys-refl [] = tt
SameKeys-refl (t ∷ ts) = (record { tag = refl; dataidx = refl }, SameKeys-refl ts)

SameKeys-set :
    (ts : List Mp4tag) (i : ℕ) {t : Mp4tag} (u : Mp4tag)
    → get_elem? ts i ≡ some t
    → SameKey t u
    → SameKeys ts (set ts i u)
SameKeys-set [] i u h s = tt
SameKeys-set (x ∷ ts) zero {t} u h s =
    let e : x ≡ t = cc h in
    (
      record {
        tag = ap (λ (y : Mp4tag). y.tag) e ∙ s.tag;
        dataidx = ap (λ (y : Mp4tag). y.dataidx) e ∙ s.dataidx;
      },
      SameKeys-refl ts,
    )
SameKeys-set (x ∷ ts) (suc i) u h s =
    (record { tag = refl; dataidx = refl }, SameKeys-set ts i u h s)

set-IsNumbered :
    (n : ℕ) (ts : List Mp4tag) (i : ℕ) {t : Mp4tag} (u : Mp4tag)
    → get_elem? ts i ≡ some t
    → t.idx ≡ u.idx
    → IsNumbered n ts
    → IsNumbered n (set ts i u)
set-IsNumbered n [] i u h s k = tt
set-IsNumbered n (x ∷ ts) zero {t} u h s k =
    let e : x ≡ t = cc h in (sym s ∙ sym (ap (λ (y : Mp4tag). y.idx) e) ∙ k.0, k.1)
set-IsNumbered n (x ∷ ts) (suc i) u h s k = (k.0, set-IsNumbered (suc n) ts i u h s k.1)

-- A tag may be changed in place, but for its name, data index and position.
pub set-IsWellFormed :
    (ts : List Mp4tag) (i : ℕ) {t : Mp4tag} (u : Mp4tag)
    → get_elem? ts i ≡ some t
    → SameKey t u
    → t.idx ≡ u.idx
    → IsWellFormed ts
    → IsWellFormed (set ts i u)
set-IsWellFormed ts i u h s k w = record {
  sorted = IsSorted-SameKeys ts _ (SameKeys-set ts i u h s) w.sorted;
  numbered = set-IsNumbered 0 ts i u h k w.numbered;
}

pub remove_at-IsWellFormed :
    (i : ℕ) (ts : List Mp4tag) → IsWellFormed ts → IsWellFormed (number_from 0 (remove_at i ts))
remove_at-IsWellFormed i ts w = number_from-IsWellFormed _ (remove_at-IsSorted i ts w.sorted)

-- A change of each tag that leaves its name, its index and its position.
module _ (f : Mp4tag → Mp4tag) (same : (t : Mp4tag) → SameKey t (f t))
    (idx : (t : Mp4tag) → (f t).idx ≡ t.idx) where
  map-SameKeys : (ts : List Mp4tag) → SameKeys ts (map f ts)
  map-SameKeys [] = tt
  map-SameKeys (t ∷ ts) = (same t, map-SameKeys ts)

  map-IsNumbered : (n : ℕ) (ts : List Mp4tag) → IsNumbered n ts → IsNumbered n (map f ts)
  map-IsNumbered n [] h = tt
  map-IsNumbered n (t ∷ ts) h = (idx t ∙ h.0, map-IsNumbered (suc n) ts h.1)

  pub map-IsWellFormed : (ts : List Mp4tag) → IsWellFormed ts → IsWellFormed (map f ts)
  map-IsWellFormed ts w = record {
    sorted = IsSorted-SameKeys ts _ (map-SameKeys ts) w.sorted;
    numbered = map-IsNumbered 0 ts w.numbered;
  }

-- Copying the tags keeps the invariant.
pub clone_all-IsWellFormed : (ts : List Mp4tag) → IsWellFormed ts → IsWellFormed (map clone_tag ts)
unfolding clone_tag
clone_all-IsWellFormed ts w =
    map-IsWellFormed clone_tag (λ t. record { tag = refl; dataidx = refl }) (λ t. refl) ts w

-- Each tag of a well-formed list holds its own position.
pub idx_of_get_elem? :
    (n : ℕ) (ts : List Mp4tag) (i : ℕ) {t : Mp4tag}
    → IsNumbered n ts
    → get_elem? ts i ≡ some t
    → t.idx ≡ n + i
idx_of_get_elem? n [] i k h = ground arith
idx_of_get_elem? n (x ∷ ts) zero {t} k h =
    let e : x ≡ t = cc h in omega (arith, ap (λ (y : Mp4tag). y.idx) e, k.0)
idx_of_get_elem? n (x ∷ ts) (suc i) k h = omega (arith, idx_of_get_elem? (suc n) ts i k.1 h)
