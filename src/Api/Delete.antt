-- ===== src/Api/Delete.antt =====
-- mp4tag_delete_tag of libmp4tag.c and the tags that it leaves in the list.
use libmp4tag.Api.Consistent.{clear_error-IsConsistent}
use libmp4tag.Api.Edit.{delete_found, delete_known, delete_tag}
use libmp4tag.Api.Lookup.{Asked, lookup_tag_complete}
use libmp4tag.Api.Found.{found_lem}
use libmp4tag.Api.{clear_error, lookup_tag}
use libmp4tag.CString.{Bytes}
use libmp4tag.Const.{BoxId}
use libmp4tag.Prelude.{
  ℕ, zero, suc, ◌<◌, ◌≡◌, ◌≢◌, refl, sym, ap, subst, ◌∙◌, true, false, some, List, [], ◌∷◌, length,
  get_elem?, get_elem?-lt, arith,
}
use libmp4tag.Tags.Add.{remove_at, del_tag}
use libmp4tag.Tags.Consistent.{IsConsistent, del_tag-IsConsistent}
use libmp4tag.Tags.Find.{number_from, find_tag}
use libmp4tag.Tags.Members.{In, In-there, In-number_from_intro}
use libmp4tag.Tags.Name.{parse_tagname}
use libmp4tag.Tags.Set.{is_tag}
use libmp4tag.Tags.{Mp4tag, Libmp4tag, Mp4error, list_of, has_ident}

In-remove_at :
    (ts : List Mp4tag) (i j : ℕ) (u : Mp4tag)
    → i ≢ j
    → get_elem? ts j ≡ some u
    → In u (remove_at i ts)
unfolding remove_at
In-remove_at [] i j u n g = record { pos = j; there = g }
In-remove_at (x ∷ ts) zero zero u n g = absurd (n refl)
In-remove_at (x ∷ ts) zero (suc j) u n g = record { pos = j; there = g }
In-remove_at (x ∷ ts) (suc i) zero u n g = record { pos = 0; there = g }
In-remove_at (x ∷ ts) (suc i) (suc j) u n g =
    In-there x (In-remove_at ts i j u (λ e. n (ap suc e)) g)

del_tag-parts :
    (l : Libmp4tag) (i : ℕ)
    → has_ident l ≡ true
    → i < length (list_of l.tags)
    → ((del_tag l i).mp4error ≡ l.mp4error)
      × (list_of (del_tag l i).tags ≡ number_from 0 (remove_at i (list_of l.tags)))
unfolding del_tag
del_tag-parts l i h lt = ground arith

-- The call deletes the tag that the name finds.
delete_tag-del_tag :
    (l : Libmp4tag) (tag : Bytes) {i : ℕ} {t : Mp4tag}
    → has_ident l ≡ true
    → l.parsed ≡ true
    → lookup_tag l tag ≡ some (i, t)
    → is_tag (parse_tagname tag).name BoxId.covr ≡ false
    → delete_tag (some l) (some tag)
      ≡ (some (del_tag (clear_error l) i), (del_tag (clear_error l) i).mp4error)
unfolding delete_tag delete_known delete_found lookup_tag find_tag
delete_tag-del_tag l tag h p e n = ground arith

-- On a consistent, parsed structure, if a name finds a tag and is no cover's, mp4tag_delete_tag of
-- it returns no error, and every tag at another position is still found by the name and index that
-- it had.
pub delete_tag-lookup_tag :
    (l : Libmp4tag) (tag other : Bytes) {i j : ℕ} {t u : Mp4tag}
    → IsConsistent l
    → l.parsed ≡ true
    → lookup_tag l tag ≡ some (i, t)
    → is_tag (parse_tagname tag).name BoxId.covr ≡ false
    → i ≢ j
    → get_elem? (list_of l.tags) j ≡ some u
    → Asked other u
    → (l' : Libmp4tag) × (delete_tag (some l) (some tag) ≡ (some l', Mp4error.ok))
      × ((p : ℕ × Mp4tag) × (lookup_tag l' other ≡ some p))
delete_tag-lookup_tag l tag other {i} {j} {t} {u} c p e n ne g a =
    let (f, at) = found_lem l tag e in
    let parts = del_tag-parts (clear_error l) i c.ident (get_elem?-lt (list_of l.tags) i at) in
    let after = del_tag-IsConsistent (clear_error l) (clear_error-IsConsistent l c) i in
    let (v, m, s) = In-number_from_intro 0 _ (In-remove_at (list_of l.tags) i j u ne g) in
    (
      del_tag (clear_error l) i,
      delete_tag-del_tag l tag c.ident p e n
          ∙ ap (λ x. (some (del_tag (clear_error l) i), x)) parts.0,
      lookup_tag_complete (del_tag (clear_error l) i) after other (subst (In v) (sym parts.1) m)
          (record {
            tag = sym (ap (λ (y : Mp4tag). y.tag) s) ∙ a.tag;
            dataidx = sym (ap (λ (y : Mp4tag). y.dataidx) s) ∙ a.dataidx;
          }),
    )
