-- ===== src/Api/RoundTrip.antt =====
-- mp4tag_preserve_tags, mp4tag_clean_tags and mp4tag_restore_tags in sequence, and the iteration.
use libmp4tag.Api.Get.{iterate_init, iterate_known, iterate}
use libmp4tag.Api.{Handle, Mp4tagpub, Got, copy_to_pub}
use libmp4tag.Prelude.{
  ℕ, zero, suc, Bool, Option-cases, inl, inr, ◌+◌, ◌<◌, ◌≤◌, ◌≡◌, refl, ap, sym, ◌∙◌, true, false,
  Option, none, some, List, [], ◌∷◌, map, ltb, length, take, drop, get_elem?, arith, if◌then◌else◌,
}
use libmp4tag.CString.{Bytes}
use libmp4tag.Tags.Add.{clone_tag}
use libmp4tag.Tags.{Mp4tag, Libmp4tag, Mp4error, has_ident}
use mathlib.Core.Option
use mathlib.Core.Option.{none-ne-some, some-injective}

take_twice : (n : ℕ) (xs : Bytes) → take n (take n xs) ≡ take n xs
take_twice zero xs = refl
take_twice (suc n) [] = refl
take_twice (suc n) (x ∷ xs) = ap (◌∷◌ x) (take_twice n xs)

-- A copy of a copy is the copy.
clone_tag_twice : (t : Mp4tag) → clone_tag (clone_tag t) ≡ clone_tag t
unfolding clone_tag
clone_tag_twice t =
    ap (λ (v : Option Bytes). record t { value = v })
      (value_twice (ltb 0 t.datalen) t.datalen t.value)
  where
    value_twice :
        (b : Bool) (n : ℕ) (v : Option Bytes)
        → (if b then Option.map (take n) (if b then Option.map (take n) v else none) else none)
          ≡ (if b then Option.map (take n) v else none)
    value_twice false n v = refl
    value_twice true n none = refl
    value_twice true n (some x) = ap some (take_twice n x)

pub clone_all_twice : (ts : List Mp4tag) → map clone_tag (map clone_tag ts) ≡ map clone_tag ts
clone_all_twice [] = refl
clone_all_twice (t ∷ ts) = rw (clone_tag_twice t, clone_all_twice ts) refl

-- The calls of an application that reads all the tags, `n` at most: what they give until the first
-- that gives none.
unfoldable pub iterate_all : ℕ → Handle → List Mp4tagpub
iterate_all zero h = []
iterate_all (suc n) h =
    let (h', (p, e)) = iterate h true in
    let rest = iterate_all n h' in elim p [ none ↦ [] | some x ↦ x ∷ rest ]

pub drop-get_elem? :
    (ts : List Mp4tag) (i : ℕ) (t : Mp4tag)
    → get_elem? ts i ≡ some t
    → drop i ts ≡ t ∷ drop (suc i) ts
drop-get_elem? [] i t e = absurd (none-ne-some t e)
drop-get_elem? (x ∷ ts) zero t e = ap (λ y. y ∷ ts) (some-injective _ _ e)
drop-get_elem? (x ∷ ts) (suc i) t e = drop-get_elem? ts i t e

pub drop-none : (ts : List Mp4tag) (i : ℕ) → get_elem? ts i ≡ none → drop i ts ≡ []
drop-none [] zero e = refl
drop-none [] (suc i) e = refl
drop-none (x ∷ ts) zero e = cc
drop-none (x ∷ ts) (suc i) e = drop-none ts i e

drop-past : (ts : List Mp4tag) (i : ℕ) → length ts ≤ i → drop i ts ≡ []
drop-past [] zero h = refl
drop-past [] (suc i) h = refl
drop-past (x ∷ ts) zero h = absurd (omega arith)
drop-past (x ∷ ts) (suc i) h = drop-past ts i (omega arith)

-- The structure after a call that gives a tag.
abbrev pub advanced : Libmp4tag → Libmp4tag
advanced l = record l { iterator = l.iterator + 1; mp4error = Mp4error.ok }

module _ (l : Libmp4tag) (ts : List Mp4tag) (h : has_ident l ≡ true) (p : l.parsed ≡ true)
    (e : l.tags ≡ some ts) where
  pub iterate-some :
      (t : Mp4tag)
      → get_elem? ts l.iterator ≡ some t
      → iterate (some l) true ≡ (some (advanced l), (some (copy_to_pub t), Mp4error.ok))
  unfolding iterate iterate_known
  iterate-some t g = ground arith

  pub iterate-none :
      get_elem? ts l.iterator ≡ none → (iterate (some l) true).1 ≡ (none, Mp4error.finish)
  unfolding iterate iterate_known
  iterate-none g = ground arith

iterate_all-none :
    (n : ℕ) (l : Libmp4tag) {e : Mp4error}
    → (iterate (some l) true).1 ≡ (none, e)
    → iterate_all (suc n) (some l) ≡ []
unfolding iterate_all
iterate_all-none n l g = rw (iterate_all, g) refl

iterate_all-some :
    (n : ℕ) (l : Libmp4tag) {h : Handle} {x : Mp4tagpub} {e : Mp4error}
    → iterate (some l) true ≡ (h, (some x, e))
    → iterate_all (suc n) (some l) ≡ x ∷ iterate_all n h
unfolding iterate_all
iterate_all-some n l {h} {x} {e} g =
    rw (iterate_all, g) (ap (λ (r : Handle × Got). x ∷ iterate_all n r.0) g)

pub iterate_init_lem :
    (l : Libmp4tag)
    → has_ident l ≡ true
    → l.parsed ≡ true
    → (iterate_init (some l)).0 ≡ some (record l { iterator = 0 })
unfolding iterate_init
iterate_init_lem l h p = ground arith

iterate_all-drop :
    (n : ℕ) (l : Libmp4tag) (ts : List Mp4tag)
    → has_ident l ≡ true
    → l.parsed ≡ true
    → l.tags ≡ some ts
    → length ts < n + l.iterator
    → iterate_all n (some l) ≡ map copy_to_pub (drop l.iterator ts)
unfolding iterate_all
iterate_all-drop zero l ts h p e lt = rw (drop-past ts l.iterator (omega arith)) refl
iterate_all-drop (suc n) l ts h p e lt = elim (Option-cases (get_elem? ts l.iterator)) [
  | inl g ↦
      iterate_all-none n l (iterate-none l ts h p e g)
      ∙ sym (ap (map copy_to_pub) (drop-none ts l.iterator g))
  | inr (t, g) ↦
      let more = iterate_all-drop n (advanced l) ts h p e (omega arith) in
      let next : l.iterator + 1 ≡ suc l.iterator = omega arith in
      iterate_all-some n l (iterate-some l ts h p e t g)
      ∙ ap (◌∷◌ (copy_to_pub t)) (more ∙ ap (λ k. map copy_to_pub (drop k ts)) next)
      ∙ sym (ap (map copy_to_pub) (drop-get_elem? ts l.iterator t g))
]

-- On a parsed structure with a list, the iteration from its start gives every tag of the list once,
-- in its order, and then ends: one call more than there are tags is enough.
pub iterate_all-iterate_init :
    (l : Libmp4tag) (ts : List Mp4tag)
    → has_ident l ≡ true
    → l.parsed ≡ true
    → l.tags ≡ some ts
    → iterate_all (suc (length ts)) (iterate_init (some l)).0 ≡ map copy_to_pub ts
iterate_all-iterate_init l ts h p e =
    rw (iterate_init_lem l h p)
      (iterate_all-drop (suc (length ts)) (record l { iterator = 0 }) ts h p e (omega arith))
