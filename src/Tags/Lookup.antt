-- ===== src/Tags/Lookup.antt =====
-- mp4tag_find_tag of mp4tagutil.c on a list that meets the invariant.
use libmp4tag.CString.{Bytes}
use libmp4tag.Prelude.{ℕ, ◌≡◌, refl, sym, subst, ◌∙◌, Option, none, some, get_elem?, true}
use libmp4tag.Prelude.Int.{ℤ}
use libmp4tag.Search.Bsearch.{bsearch_sound, bsearch_complete}
use libmp4tag.Search.{bsearch}
use libmp4tag.Tags.Compare.{mp4tag_compare-IsCompare, mp4tag_compare-eq_iff}
use libmp4tag.Tags.Find.{find_tag, key_of, first_if_negative}
use libmp4tag.Tags.Invariant.{IsWellFormed, idx_of_get_elem?}
use libmp4tag.Tags.{Mp4tag, Libmp4tag, list_of, mp4tag_compare, has_ident}
use mathlib.Core.Option
use native.Mathlib.Nat.{zero-add}

-- `t` is the tag that is asked for: an index that is not given, or negative, means the first item.
pub record Matches (name : Bytes) (d : ℤ) (t : Mp4tag) : Type 0 where
  pub tag : t.tag ≡ some name
  pub dataidx : t.dataidx ≡ first_if_negative d

pub map-eq-some :
    (o : Option Mp4tag) {i : ℕ}
    → Option.map (λ (t : Mp4tag). t.idx) o ≡ some i
    → (t : Mp4tag) × (o ≡ some t) × (t.idx ≡ i)
map-eq-some none h = cc
map-eq-some (some t) h = (t, refl, cc h)

module _ (l : Libmp4tag) (name : Bytes) (dataidx : ℤ) where
  abbrev pub search : Option Mp4tag
  search = bsearch (mp4tag_compare (key_of name (first_if_negative dataidx))) (list_of l.tags)

  pub find_search :
      has_ident l ≡ true
      → find_tag l (some name) dataidx ≡ Option.map (λ (t : Mp4tag). t.idx) search
  unfolding find_tag
  find_search h = rw h

  pub find_tag_sound :
      {i : ℕ}
      → has_ident l ≡ true
      → IsWellFormed (list_of l.tags)
      → find_tag l (some name) dataidx ≡ some i
      → (t : Mp4tag) × (get_elem? (list_of l.tags) i ≡ some t) × Matches name dataidx t
  find_tag_sound h w e =
      let (t, found, at) = map-eq-some search (sym (find_search h) ∙ e) in
      let (j, g, same) = bsearch_sound _ (list_of l.tags) found in
      let (named, indexed) = (mp4tag_compare-eq_iff _ t).0 same in
      (
        t,
        subst (λ n. get_elem? (list_of l.tags) n ≡ some t)
            (sym (idx_of_get_elem? 0 (list_of l.tags) j w.numbered g ∙ zero-add j) ∙ at) g,
        record { tag = sym named; dataidx = sym indexed },
      )

  pub find_tag_complete :
      (j : ℕ) {t : Mp4tag}
      → has_ident l ≡ true
      → IsWellFormed (list_of l.tags)
      → get_elem? (list_of l.tags) j ≡ some t
      → Matches name dataidx t
      → (i : ℕ) × (find_tag l (some name) dataidx ≡ some i)
  find_tag_complete j {t} h w g m =
      let (u, found) =
        bsearch_complete mp4tag_compare mp4tag_compare-IsCompare
          (key_of name (first_if_negative dataidx)) (list_of l.tags) j w.sorted g
          ((mp4tag_compare-eq_iff _ t).1 (sym m.tag, sym m.dataidx)) in
      (u.idx, find_search h ∙ rw found)
