-- ===== src/Api/SetGet.antt =====
-- mp4tag_set_tag followed by mp4tag_get_tag_by_name.
use libmp4tag.Api.Consistent.{clear_error-IsConsistent}
use libmp4tag.Api.Edit.{set_tag, found_idx}
use libmp4tag.Api.Get.{get_tag_by_name}
use libmp4tag.Api.Lookup.{
  Asked, lookup_tag_sound, lookup_tag_complete, lookup_tag-none, lookup_tag-intro,
}
use libmp4tag.Api.Update.{IsTextTag, added, len_of, add_string-tags, set_value-new, set_value-old}
use libmp4tag.Api.{lookup_tag, copy_to_pub, clear_error}
use libmp4tag.CString.{Bytes, c_string}
use libmp4tag.Const.Table.{Mp4tagdef}
use libmp4tag.Files.{FileSystem}
use libmp4tag.Prelude.{
  ℕ, ◌≡◌, refl, sym, ap, subst, ◌∙◌, ◌⊎◌, inl, inr, ◌++◌, none, some, [], ◌∷◌, Option-cases,
  get_elem?-set_self, get_elem?-lt, true, false, length,
}
use libmp4tag.Prelude.Int.{pos, minus_one}
use libmp4tag.Tags.Consistent.{IsConsistent, add_string-IsConsistent}
use libmp4tag.Tags.Find.{sorted_tags}
use libmp4tag.Tags.Members.{
  In, SameTag, In-sorted_tags, In-sorted_tags_intro, In-concat, In-concat_last,
}
use libmp4tag.Tags.Lookup.{find_tag_sound}
use libmp4tag.Tags.Name.{parse_tagname}
use libmp4tag.Tags.Replace.{with_tag, find_tag-set}
use libmp4tag.Tags.Set.{add_string}
use libmp4tag.Tags.Add.{new_tag}
use libmp4tag.Tags.{Mp4tag, Libmp4tag, Mp4error, list_of}
use mathlib.Core.Option.{none-ne-some}
use libmp4tag.Api.{Mp4tagpub}
use libmp4tag.Api.Found.{
  found_lem, lookup_tag-clear_error, set_tag-set_value, get-found, get-missing, minus_one_lem,
}

module _ (fs : FileSystem) (l : Libmp4tag) (c : IsConsistent l) (tag value : Bytes) (d : Mp4tagdef)
    (k : IsTextTag tag d) where
  -- On a consistent, parsed structure, if a name of the table that takes text and is no cover finds
  -- a tag that is not binary, then after mp4tag_set_tag of a value, without forcebinary,
  -- mp4tag_get_tag_by_name gives that tag with the new value and its length, and no error.
  pub set_tag-get_old :
      {i : ℕ} {t : Mp4tag}
      → l.parsed ≡ true
      → lookup_tag l tag ≡ some (i, t)
      → t.binary ≡ false
      → (get_tag_by_name (set_tag fs (some l) (some tag) (some value) false).0 tag true).1 ≡ (
        some (copy_to_pub (record t { value = some value; datalen = length value })),
        Mp4error.ok,
      )
  set_tag-get_old {i} {t} p e b =
      let (f, g) = found_lem (clear_error l) tag (lookup_tag-clear_error l tag ∙ e) in
      let u : Mp4tag = record t { value = some value; datalen = length value } in
      let stays =
        find_tag-set (clear_error l) (parse_tagname tag).name (parse_tagname tag).dataidx i t u
          c.ident c.tags g (record { tag = refl; dataidx = refl }) refl f in
      rw
        (
          set_tag-set_value fs l tag value c.ident p,
          set_value-old fs (clear_error l) (clear_error-IsConsistent l c) tag value d k f g b,
        )
        (get-found (with_tag (clear_error l) i u) tag c.ident p (
          lookup_tag-intro _ tag stays
            (get_elem?-set_self (list_of l.tags) i u (get_elem?-lt (list_of l.tags) i g))))

  -- The call changes the tag in place, and reports no error.
  pub set_tag-with_tag :
      {i : ℕ} {t : Mp4tag}
      → l.parsed ≡ true
      → lookup_tag l tag ≡ some (i, t)
      → t.binary ≡ false
      → set_tag fs (some l) (some tag) (some value) false ≡ (
        some (with_tag (clear_error l) i (record t { value = some value; datalen = length value })),
        Mp4error.ok,
      )
  set_tag-with_tag {i} {t} p e b =
      let (f, g) = found_lem (clear_error l) tag (lookup_tag-clear_error l tag ∙ e) in
      rw
        (
          set_tag-set_value fs l tag value c.ident p,
          set_value-old fs (clear_error l) (clear_error-IsConsistent l c) tag value d k f g b,
        )
        refl

  -- The list after a name that is not there is set.
  abbrev pub after : Libmp4tag
  after =
      (add_string (clear_error l) tag (parse_tagname tag).dataidx value d.identtype
        (len_of value d)).0

  after-IsConsistent : IsConsistent after
  after-IsConsistent =
      add_string-IsConsistent (clear_error l) (clear_error-IsConsistent l c) tag _ value _ _

  new-parts :
      (after.tags ≡ some (sorted_tags (list_of l.tags ++ (added (clear_error l) tag value d ∷ []))))
      × (after.mp4error ≡ Mp4error.ok)
      × (after.parsed ≡ l.parsed)
  new-parts =
      add_string-tags (clear_error l) tag value (parse_tagname tag).dataidx d.identtype
        (len_of value d) c.ident

  -- A tag of the new list is the added one, or one of the old list.
  In-after :
      {t : Mp4tag}
      → In t (list_of after.tags)
      → SameTag (added (clear_error l) tag value d) t
        ⊎ ((u : Mp4tag) × In u (list_of l.tags) × SameTag u t)
  In-after {t} m =
      let (u, n, s) = In-sorted_tags _ (subst (In t) (ap list_of new-parts.0) m) in
      elim (In-concat (list_of l.tags) _ n) [
        | inl e ↦ inl (subst (λ (v : Mp4tag). SameTag v t) e s)
        | inr old ↦ inr (u, old, s)
      ]

  Asked-new : {t u : Mp4tag} → SameTag u t → Asked tag u → Asked tag t
  Asked-new {t} {u} s a = record {
    tag = sym (ap (λ (y : Mp4tag). y.tag) s) ∙ a.tag;
    dataidx = sym (ap (λ (y : Mp4tag). y.dataidx) s) ∙ a.dataidx;
  }

  Asked-same : {t u : Mp4tag} → SameTag u t → Asked tag t → Asked tag u
  Asked-same {t} {u} s a = record {
    tag = ap (λ (y : Mp4tag). y.tag) s ∙ a.tag;
    dataidx = ap (λ (y : Mp4tag). y.dataidx) s ∙ a.dataidx;
  }

  old-missing : lookup_tag l tag ≡ none → (u : Mp4tag) → In u (list_of l.tags) → Asked tag u → ⊥
  old-missing e u m a =
      let (p, found) = lookup_tag_complete l c tag m a in none-ne-some p (sym e ∙ found)

  -- What the caller gets of the added tag.
  abbrev pub new_pub : Mp4tagpub
  new_pub = record {
    tag = some (parse_tagname tag).name;
    value = some (c_string value);
    covername = none;
    datalen = length (c_string value);
    dataidx = (parse_tagname tag).dataidx;
    covertype = d.identtype;
    binary = false;
  }

  copy_to_pub-added : copy_to_pub (added (clear_error l) tag value d) ≡ new_pub
  unfolding copy_to_pub new_tag
  copy_to_pub-added = rw k.not_cover refl

  copy_to_pub-same : (t u : Mp4tag) → SameTag u t → copy_to_pub t ≡ copy_to_pub u
  unfolding copy_to_pub
  copy_to_pub-same t u s = sym (ap copy_to_pub s)

  set_tag-added :
      l.parsed ≡ true
      → lookup_tag l tag ≡ none
      → set_tag fs (some l) (some tag) (some value) false ≡ (some after, Mp4error.ok)
  set_tag-added p e =
      rw
        (
          set_tag-set_value fs l tag value c.ident p,
          set_value-new fs (clear_error l) (clear_error-IsConsistent l c) tag value d k
              (not_found e),
        )
        (ap (λ x. (some after, x)) new-parts.1)
    where
      not_found : lookup_tag l tag ≡ none → found_idx (clear_error l) tag ≡ none
      not_found e' = elim (Option-cases (found_idx (clear_error l) tag)) [
        | inl n ↦ n
        | inr (i, f) ↦
            let (t, g, _) = find_tag_sound (clear_error l) _ _ c.ident c.tags f in
            absurd (
              none-ne-some (i, t)
                (sym (lookup_tag-clear_error l tag ∙ e')
                  ∙ lookup_tag-intro (clear_error l) tag f g))
      ]

  added-Asked :
      {j : ℕ} → (parse_tagname tag).dataidx ≡ pos j → Asked tag (added (clear_error l) tag value d)
  unfolding new_tag
  added-Asked x = record { tag = rw k.not_cover refl; dataidx = rw x refl }

  -- On a consistent, parsed structure, if a name of the table that takes text and is no cover has an
  -- index of at least 0 and finds no tag, then after mp4tag_set_tag of a value, without forcebinary,
  -- mp4tag_get_tag_by_name gives a tag with the parsed name and index, the value as a C string, its
  -- length and the table's type, and no error.
  pub set_tag-get_indexed :
      {j : ℕ}
      → l.parsed ≡ true
      → (parse_tagname tag).dataidx ≡ pos j
      → lookup_tag l tag ≡ none
      → (get_tag_by_name (set_tag fs (some l) (some tag) (some value) false).0 tag true).1
        ≡ (some new_pub, Mp4error.ok)
  set_tag-get_indexed {j} p x e =
      let a : Asked tag (added (clear_error l) tag value d) = added-Asked x in
      let (t, m, s) =
        In-sorted_tags_intro _
          (In-concat_last (list_of l.tags) (added (clear_error l) tag value d)) in
      let ((i, u), found) =
        lookup_tag_complete after after-IsConsistent tag
          (subst (In t) (sym (ap list_of new-parts.0)) m) (Asked-new s a) in
      let (g, asked) = lookup_tag_sound after after-IsConsistent tag found in
      rw (set_tag-added p e) (
        get-found after tag after-IsConsistent.ident (new-parts.2 ∙ p) found
        ∙ elim (In-after (record { pos = i; there = g })) [
          | inl same ↦
              ap (λ v. (some v, Mp4error.ok)) (copy_to_pub-same u _ same ∙ copy_to_pub-added)
          | inr (v, old, same) ↦ absurd (old-missing e v old (Asked-same same asked))
        ])

  -- On a consistent, parsed structure, if a name of the table that takes text and is no cover has no
  -- index and finds no tag, then mp4tag_set_tag of a value, without forcebinary, returns no error,
  -- and mp4tag_get_tag_by_name of the name then returns MP4TAG_ERR_TAG_NOT_FOUND.
  pub set_tag-get_unindexed :
      l.parsed ≡ true
      → (parse_tagname tag).dataidx ≡ minus_one
      → lookup_tag l tag ≡ none
      → ((set_tag fs (some l) (some tag) (some value) false).1 ≡ Mp4error.ok)
        × ((get_tag_by_name (set_tag fs (some l) (some tag) (some value) false).0 tag true).1
            ≡ (none, Mp4error.err_tag_not_found))
  set_tag-get_unindexed p x e =
      let missing : lookup_tag after tag ≡ none =
        lookup_tag-none after after-IsConsistent tag (λ t m a. elim (In-after m) [
          | inl same ↦ minus_one_lem x (ap (λ (y : Mp4tag). y.dataidx) same ∙ a.dataidx)
          | inr (u, old, same) ↦ old-missing e u old (Asked-same same a)
        ]) in
      rw (set_tag-added p e)
        (refl, get-missing after tag after-IsConsistent.ident (new-parts.2 ∙ p) new-parts.0 missing)
