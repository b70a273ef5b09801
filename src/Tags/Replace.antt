-- ===== src/Tags/Replace.antt =====
-- mp4tag_find_tag of mp4tagutil.c after a tag has been changed in place.
use libmp4tag.CString.{Bytes}
use libmp4tag.Prelude.{
  ℕ, zero, suc, ◌+◌, ◌/◌, Ordering, ◌≡◌, refl, sym, ap, ◌∙◌, ◌⊎◌, inl, inr, some, List, [], ◌∷◌,
  get_elem?, set, length, length-set, arith, true,
}
use libmp4tag.Prelude.Int.{ℤ}
use libmp4tag.Search.{bsearch, bsearch_loop}
use libmp4tag.Tags.Find.{find_tag}
use libmp4tag.Tags.Invariant.{IsWellFormed, SameKey, compare_SameKey, idx_of_get_elem?}
use libmp4tag.Tags.Lookup.{search, find_search, map-eq-some}
use libmp4tag.Tags.{Mp4tag, Libmp4tag, list_of, has_ident}
use native.Mathlib.Nat.{zero-add}

get_elem?-set_cases :
    (ts : List Mp4tag) (i j : ℕ) {t : Mp4tag} (u : Mp4tag)
    → get_elem? ts i ≡ some t
    → (get_elem? (set ts i u) j ≡ get_elem? ts j)
      ⊎ (get_elem? ts j ≡ some t) × (get_elem? (set ts i u) j ≡ some u)
get_elem?-set_cases [] i j u g = inl refl
get_elem?-set_cases (x ∷ ts) zero zero u g = inr (g, refl)
get_elem?-set_cases (x ∷ ts) zero (suc j) u g = inl refl
get_elem?-set_cases (x ∷ ts) (suc i) zero u g = inl refl
get_elem?-set_cases (x ∷ ts) (suc i) (suc j) u g = get_elem?-set_cases ts i j u g

-- The search goes the same way after a change that keeps the key.
bsearch_loop-set :
    (key : Mp4tag → Ordering) (ts : List Mp4tag) (i : ℕ) (t u a : Mp4tag) (fuel lo hi : ℕ)
    → get_elem? ts i ≡ some t
    → key t ≡ key u
    → bsearch_loop key ts fuel lo hi ≡ some a
    → (bsearch_loop key (set ts i u) fuel lo hi ≡ some a)
      ⊎ (bsearch_loop key (set ts i u) fuel lo hi ≡ some u)
unfolding bsearch_loop
bsearch_loop-set key ts i t u a zero lo hi g k h = inl h
bsearch_loop-set key ts i t u a (suc fuel) lo hi g k h = ground (
  arith,
  get_elem?-set_cases ts i ((lo + hi) / 2) u g,
  bsearch_loop-set key ts i t u a fuel lo ((lo + hi) / 2),
  bsearch_loop-set key ts i t u a fuel ((lo + hi) / 2 + 1) hi,
)

bsearch-set :
    (key : Mp4tag → Ordering) (ts : List Mp4tag) (i : ℕ) (t u a : Mp4tag)
    → get_elem? ts i ≡ some t
    → key t ≡ key u
    → bsearch key ts ≡ some a
    → (bsearch key (set ts i u) ≡ some a) ⊎ (bsearch key (set ts i u) ≡ some u)
unfolding bsearch
bsearch-set key ts i t u a g k h =
    rw (length-set ts i u) (bsearch_loop-set key ts i t u a (suc (length ts)) 0 (length ts) g k h)

-- The structure with another tag at `i`.
abbrev pub with_tag : Libmp4tag → ℕ → Mp4tag → Libmp4tag
with_tag l i u = record l { tags = some (set (list_of l.tags) i u) }

pub find_tag-set :
    (l : Libmp4tag) (name : Bytes) (d : ℤ) (i : ℕ) (t u : Mp4tag)
    → has_ident l ≡ true
    → IsWellFormed (list_of l.tags)
    → get_elem? (list_of l.tags) i ≡ some t
    → SameKey t u
    → u.idx ≡ t.idx
    → find_tag l (some name) d ≡ some i
    → find_tag (with_tag l i u) (some name) d ≡ some i
find_tag-set l name d i t u h w g k n e =
    let (a, found, at) = map-eq-some (search l name d) (sym (find_search l name d h) ∙ e) in
    let same = compare_SameKey (record { tag = refl; dataidx = refl }) k in
    let placed = n ∙ idx_of_get_elem? 0 (list_of l.tags) i w.numbered g ∙ zero-add i in
    find_search (with_tag l i u) name d h
    ∙ elim (bsearch-set _ (list_of l.tags) i t u a g same found) [
      | inl same_one ↦ rw same_one (ap some at)
      | inr new_one ↦ rw new_one (ap some placed)
    ]
