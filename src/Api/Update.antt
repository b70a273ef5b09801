-- ===== src/Api/Update.antt =====
-- mp4tag_set_tag of libmp4tag.c on a name that is in the list, and on one that is not.
use libmp4tag.Api.Edit.{set_value, found_idx}
use libmp4tag.Api.{lookup_tag}
use libmp4tag.CString.{Bytes}
use libmp4tag.Const.Table.{Mp4tagdef}
use libmp4tag.Const.{BoxId, id_string}
use libmp4tag.Files.{FileSystem}
use libmp4tag.Prelude.{
  ℕ, ◌≡◌, refl, ap, ◌∙◌, ◌++◌, none, some, List, [], ◌∷◌, get_elem?, arith, true, false, length,
  set, if◌then◌else◌, ◌==◌,
}
use libmp4tag.Prelude.Int.{ℤ, pos}
use libmp4tag.Tags.Add.{add_tag, new_tag}
use libmp4tag.Tags.Consistent.{IsConsistent}
use libmp4tag.Tags.Find.{sorted_tags, sort_tags, check_tag}
use libmp4tag.Tags.Name.{parse_tagname}
use libmp4tag.Tags.Set.{
  is_tag, update_tag, set_existing_string, takes_string, set_dataidx, add_string, add_known,
  set_new_string, set_string_at, set_tag_string,
}
use libmp4tag.Tags.{Mp4tag, Libmp4tag, list_of, has_ident}

-- A name of the table whose value is a string, and no cover.
pub record IsTextTag (tag : Bytes) (d : Mp4tagdef) : Type 0 where
  pub known : check_tag (some tag) ≡ some d
  pub text : takes_string d tag ≡ true
  pub not_cover : is_tag tag BoxId.covr ≡ false
  pub name_not_cover : is_tag (parse_tagname tag).name BoxId.covr ≡ false

get_elem?-concat_last :
    (ts : List Mp4tag) (t : Mp4tag) → get_elem? (ts ++ (t ∷ [])) (length ts) ≡ some t
get_elem?-concat_last [] t = refl
get_elem?-concat_last (x ∷ ts) t = get_elem?-concat_last ts t

set-concat_last :
    (ts : List Mp4tag) (t u : Mp4tag) → set (ts ++ (t ∷ [])) (length ts) u ≡ ts ++ (u ∷ [])
set-concat_last [] t u = refl
set-concat_last (x ∷ ts) t u = ap (◌∷◌ x) (set-concat_last ts t u)

set_dataidx-last :
    (ts : List Mp4tag) (t : Mp4tag) (d : ℤ)
    → set_dataidx (ts ++ (t ∷ [])) (length ts) d ≡ ts ++ (record t { dataidx = d } ∷ [])
set_dataidx-last ts t d =
    ground (arith, get_elem?-concat_last ts t, set-concat_last ts t (record t { dataidx = d }))

abbrev pub len_of : Bytes → Mp4tagdef → ℕ
len_of value d = if d.identtype == id_string then length value else d.len

-- The tag that mp4tag_set_tag_string adds.
abbrev pub added : Libmp4tag → Bytes → Bytes → Mp4tagdef → Mp4tag
added l tag value d = record (new_tag l tag value (pos 0) d.identtype (len_of value d) none) {
  dataidx = (parse_tagname tag).dataidx;
}

sort_tags-tags :
    (l : Libmp4tag) (ts : List Mp4tag)
    → has_ident l ≡ true
    → l.tags ≡ some ts
    → ((sort_tags l).tags ≡ some (sorted_tags ts))
      × ((sort_tags l).mp4error ≡ l.mp4error)
      × ((sort_tags l).parsed ≡ l.parsed)
unfolding sort_tags
sort_tags-tags l ts h e = rw (h, e) (refl, refl, refl)

-- The list after a new string is added: sorted, with the parsed index. Nothing else changes but the
-- counts.
pub add_string-tags :
    (l : Libmp4tag) (tag value : Bytes) (d : ℤ) (flag len : ℕ)
    → has_ident l ≡ true
    → ((add_string l tag d value flag len).0.tags
        ≡ some (
            sorted_tags (
              list_of l.tags
              ++ (record (new_tag l tag value (pos 0) flag len none) { dataidx = d } ∷ []))))
      × ((add_string l tag d value flag len).0.mp4error ≡ l.mp4error)
      × ((add_string l tag d value flag len).0.parsed ≡ l.parsed)
unfolding add_string add_tag
add_string-tags l tag value d flag len h =
    let e = set_dataidx-last (list_of l.tags) (new_tag l tag value (pos 0) flag len none) d in
    let (t, m, p) = sort_tags-tags _ _ h refl in (t ∙ ap (λ ts. some (sorted_tags ts)) e, m, p)

module _ (fs : FileSystem) (l : Libmp4tag) (c : IsConsistent l) (tag value : Bytes) (d : Mp4tagdef)
    (k : IsTextTag tag d) where
  -- A name that is not in the list is added.
  pub set_value-new :
      found_idx l tag ≡ none
      → set_value fs l tag value false ≡ (
          let l' =
            (add_string l tag (parse_tagname tag).dataidx value d.identtype (len_of value d)).0 in
          (l', l'.mp4error))
  unfolding set_value lookup_tag set_tag_string set_string_at set_new_string add_known
  set_value-new e = ground arith

  -- A tag that is there is changed in place.
  pub set_value-old :
      {i : ℕ} {t : Mp4tag}
      → found_idx l tag ≡ some i
      → get_elem? (list_of l.tags) i ≡ some t
      → t.binary ≡ false
      → set_value fs l tag value false
        ≡ update_tag l i (record t { value = some value; datalen = length value })
  unfolding set_value lookup_tag set_tag_string set_string_at set_existing_string
  set_value-old e g b = ground arith
