-- ===== src/Api/Lookup.antt =====
-- The search of the public operations of libmp4tag.c: the parsed name and index of a tag, on a
-- consistent structure.
use libmp4tag.Api.{lookup_tag}
use libmp4tag.CString.{Bytes}
use libmp4tag.Prelude.{ℕ, ◌≡◌, subst, inl, inr, Option, none, some, get_elem?, arith, Option-cases}
use libmp4tag.Tags.Consistent.{IsConsistent}
use libmp4tag.Tags.Find.{find_tag}
use libmp4tag.Tags.Lookup.{Matches, find_tag_sound, find_tag_complete}
use libmp4tag.Tags.Members.{In}
use libmp4tag.Tags.Name.{parse_tagname}
use libmp4tag.Tags.{Mp4tag, Libmp4tag, list_of}

-- The tag that the name asks for.
abbrev pub Asked : Bytes → Mp4tag → Type 0
Asked tag t = Matches (parse_tagname tag).name (parse_tagname tag).dataidx t

abbrev found : Libmp4tag → Bytes → Option ℕ
found l tag = find_tag l (some (parse_tagname tag).name) (parse_tagname tag).dataidx

lookup_parts :
    (l : Libmp4tag) (tag : Bytes) {i : ℕ} {t : Mp4tag}
    → lookup_tag l tag ≡ some (i, t)
    → (found l tag ≡ some i) × (get_elem? (list_of l.tags) i ≡ some t)
unfolding lookup_tag
lookup_parts l tag h = ground arith

pub lookup_tag-intro :
    (l : Libmp4tag) (tag : Bytes) {i : ℕ} {t : Mp4tag}
    → found l tag ≡ some i
    → get_elem? (list_of l.tags) i ≡ some t
    → lookup_tag l tag ≡ some (i, t)
unfolding lookup_tag
lookup_tag-intro l tag e g = ground arith

module _ (l : Libmp4tag) (c : IsConsistent l) (tag : Bytes) where
  -- On a consistent structure, what the lookup by a name finds is the tag at the position that it
  -- gives, and that tag has the name and the index that were asked for.
  pub lookup_tag_sound :
      {i : ℕ} {t : Mp4tag}
      → lookup_tag l tag ≡ some (i, t)
      → (get_elem? (list_of l.tags) i ≡ some t) × Asked tag t
  lookup_tag_sound {i} {t} h =
      let (e, g) = lookup_parts l tag h in
      let (u, g', a) = find_tag_sound l _ _ c.ident c.tags e in
      (g, subst (Asked tag) (cc (g, g')) a)

  -- On a consistent structure, if the list has a tag with the name and index that a given name
  -- parses to (the first item, where the name gives no index), then the lookup by that name finds a
  -- tag.
  pub lookup_tag_complete :
      {t : Mp4tag}
      → In t (list_of l.tags)
      → Asked tag t
      → (p : ℕ × Mp4tag) × (lookup_tag l tag ≡ some p)
  lookup_tag_complete m a =
      let (i, e) =
        find_tag_complete l (parse_tagname tag).name (parse_tagname tag).dataidx m.pos c.ident
          c.tags m.there a in
      let (t, g, _) = find_tag_sound l _ _ c.ident c.tags e in ((i, t), lookup_tag-intro l tag e g)

  -- A name that is not asked for by any tag of the list is not found.
  pub lookup_tag-none :
      ((t : Mp4tag) → In t (list_of l.tags) → Asked tag t → ⊥) → lookup_tag l tag ≡ none
  lookup_tag-none h = elim (Option-cases (lookup_tag l tag)) [
    | inl e ↦ e
    | inr ((i, t), e) ↦
        let (g, a) = lookup_tag_sound e in absurd (h t (record { pos = i; there = g }) a)
  ]
