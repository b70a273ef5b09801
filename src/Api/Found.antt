-- ===== src/Api/Found.antt =====
-- The parts of mp4tag_set_tag and mp4tag_get_tag_by_name on a parsed structure.
use libmp4tag.Api.Edit.{set_value, set_tag, found_idx}
use libmp4tag.Api.Get.{get_known, get_tag_by_name}
use libmp4tag.Api.{lookup_tag, copy_to_pub, clear_error}
use libmp4tag.CString.{Bytes}
use libmp4tag.Files.{FileSystem}
use libmp4tag.Prelude.{ℕ, ◌≡◌, refl, sym, ap, ◌∙◌, none, some, List, get_elem?, arith, true, false}
use libmp4tag.Prelude.Int.{ℤ, minus_one}
use libmp4tag.Tags.Find.{find_tag, first_if_negative}
use libmp4tag.Tags.{Mp4tag, Libmp4tag, Mp4error, list_of, has_ident}

pub found_lem :
    (l : Libmp4tag) (tag : Bytes) {i : ℕ} {t : Mp4tag}
    → lookup_tag l tag ≡ some (i, t)
    → (found_idx l tag ≡ some i) × (get_elem? (list_of l.tags) i ≡ some t)
unfolding lookup_tag
found_lem l tag h = ground arith

pub lookup_tag-clear_error :
    (l : Libmp4tag) (tag : Bytes) → lookup_tag (clear_error l) tag ≡ lookup_tag l tag
unfolding lookup_tag find_tag
lookup_tag-clear_error l tag = refl

pub set_tag-set_value :
    (fs : FileSystem) (l : Libmp4tag) (tag value : Bytes)
    → has_ident l ≡ true
    → l.parsed ≡ true
    → set_tag fs (some l) (some tag) (some value) false
      ≡ (let (l', e) = set_value fs (clear_error l) tag value false in (some l', e))
unfolding set_tag
set_tag-set_value fs l tag value h p = rw (h, p)

pub get-found :
    (l : Libmp4tag) (tag : Bytes) {i : ℕ} {t : Mp4tag}
    → has_ident l ≡ true
    → l.parsed ≡ true
    → lookup_tag l tag ≡ some (i, t)
    → (get_tag_by_name (some l) tag true).1 ≡ (some (copy_to_pub t), Mp4error.ok)
unfolding get_tag_by_name get_known lookup_tag find_tag
get-found l tag h p e = ground arith

pub get-missing :
    (l : Libmp4tag) (tag : Bytes) {ts : List Mp4tag}
    → has_ident l ≡ true
    → l.parsed ≡ true
    → l.tags ≡ some ts
    → lookup_tag l tag ≡ none
    → (get_tag_by_name (some l) tag true).1 ≡ (none, Mp4error.err_tag_not_found)
unfolding get_tag_by_name get_known lookup_tag find_tag
get-missing l tag h p s e = ground arith

pub minus_one_lem : {d : ℤ} → d ≡ minus_one → d ≡ first_if_negative d → ⊥
minus_one_lem {d} x y = cc (sym x ∙ y ∙ ap first_if_negative x)
