-- ===== src/Api/Consistent.antt =====
-- The public operations of libmp4tag.c and the consistency of the structure.
use libmp4tag.Api.Edit.{
  set_from_file, set_value, set_binary_value, delete_found, delete_known, free_tags, found_idx,
  found_binary, is_binary_value,
}
use libmp4tag.Api.Get.{get_known, iterate_known}
use libmp4tag.Api.Preserve.{restore_list}
use libmp4tag.Api.{Handle, with_struct, when_parsed, clear_error, lookup_tag, Got}
use libmp4tag.CString.{Bytes}
use libmp4tag.Const.{BoxId}
use libmp4tag.Files.{FileSystem, FileData, read_file}
use libmp4tag.Prelude.{
  ℕ, ◌≡◌, refl, Bool, true, false, ltb, Option, none, some, List, length, length-map, get_elem?,
  if_ind, option_ind, arith, ◌||◌, not, ◌+◌,
}
use libmp4tag.Tags.Add.{clone_tag}
use libmp4tag.Tags.Consistent.{
  IsConsistent, fail-IsConsistent, update_tag-IsConsistent, set_tag_string-IsConsistent,
  set_tag_binary-IsConsistent, del_tag-IsConsistent,
}
use libmp4tag.Tags.Invariant.{IsWellFormed, clone_all-IsWellFormed}
use libmp4tag.Tags.Name.{parse_tagname}
use libmp4tag.Tags.Set.{is_tag}
use libmp4tag.Prelude.Int.{is_positive}
use libmp4tag.Tags.{Mp4tag, Libmp4tag, Mp4error, list_of, has_ident}
use mathlib.Core.Option

abbrev pub HandleOk : Handle → Type 0
HandleOk none = Unit
HandleOk (some l) = IsConsistent l

pub with_struct-HandleOk {ℓ} :
    {R : Type ℓ} (h : Handle) (bad : R) (f : Libmp4tag → Libmp4tag × R)
    → ((l : Libmp4tag) → IsConsistent l → IsConsistent (f l).0)
    → HandleOk h
    → HandleOk (with_struct h bad f).0
with_struct-HandleOk none bad f k c = tt
with_struct-HandleOk {R} (some l) bad f k c =
    if_ind (λ (r : Handle × R). HandleOk r.0) (has_ident l) (λ e. k l c) (λ e. c)

pub when_parsed-HandleOk :
    (h : Handle) (f : Libmp4tag → Libmp4tag × Mp4error)
    → ((l : Libmp4tag) → IsConsistent l → IsConsistent (f l).0)
    → HandleOk h
    → HandleOk (when_parsed h f).0
when_parsed-HandleOk h f k = with_struct-HandleOk h Mp4error.err_bad_struct _ (λ l c.
    if_ind (λ (r : Libmp4tag × Mp4error). IsConsistent r.0) l.parsed (λ e. k l c)
      (λ e. fail-IsConsistent l c Mp4error.err_not_parsed))

abbrev Keeps : Libmp4tag × Mp4error → Type 0
Keeps r = IsConsistent r.0

pub clear_error-IsConsistent : (l : Libmp4tag) → IsConsistent l → IsConsistent (clear_error l)
clear_error-IsConsistent l c = fail-IsConsistent l c Mp4error.ok

abbrev KeepsGot : Libmp4tag × Got → Type 0
KeepsGot r = IsConsistent r.0

lookup_tag-at :
    (l : Libmp4tag) (tag : Bytes) {p : ℕ × Mp4tag}
    → lookup_tag l tag ≡ some p
    → get_elem? (list_of l.tags) p.0 ≡ some p.1
unfolding lookup_tag
lookup_tag-at l tag h = ground arith

module _ (l : Libmp4tag) (c : IsConsistent l) where
  file_error-IsConsistent :
      (e : Mp4error) → IsConsistent (elim e [ Mp4error.ok ↦ l | e' ↦ record l { mp4error = e' } ])
  file_error-IsConsistent Mp4error.ok = c
  file_error-IsConsistent e = fail-IsConsistent l c e

  set_from_file-IsConsistent :
      (tag : Bytes) (idx : Option ℕ) (fn : Bytes) (file : FileData)
      → IsConsistent (set_from_file l tag idx fn file).0
  unfolding set_from_file
  set_from_file-IsConsistent tag idx fn file =
      option_ind Keeps file.fdata (λ e. file_error-IsConsistent file.mp4error)
        (λ v e.
          set_tag_binary-IsConsistent _ (file_error-IsConsistent file.mp4error) (some tag) idx
            (some v) file.sz (some fn))

  pub set_value-IsConsistent :
      (fs : FileSystem) (tag value : Bytes) (force : Bool)
      → IsConsistent (set_value fs l tag value force).0
  unfolding set_value
  set_value-IsConsistent fs tag value force =
      if_ind Keeps (force || is_binary_value tag (found_binary (lookup_tag l tag) false))
        (λ e. set_from_file-IsConsistent tag (found_idx l tag) value (read_file fs value))
        (λ e. set_tag_string-IsConsistent l c (some tag) (found_idx l tag) (some value))

  pub set_binary_value-IsConsistent :
      (tag value : Bytes) (n : ℕ) → IsConsistent (set_binary_value l tag value n).0
  unfolding set_binary_value
  set_binary_value-IsConsistent tag value n =
      if_ind Keeps (is_binary_value tag (found_binary (lookup_tag l tag) true))
        (λ e. set_tag_binary-IsConsistent l c (some tag) (found_idx l tag) (some value) n none)
        (λ e. fail-IsConsistent l c Mp4error.err_mismatch)

  delete_found-IsConsistent :
      (tag : Bytes) (i : ℕ) (t : Mp4tag)
      → get_elem? (list_of l.tags) i ≡ some t
      → IsConsistent (delete_found l tag i t).0
  unfolding delete_found
  delete_found-IsConsistent tag i t g =
      if_ind Keeps (is_tag (parse_tagname tag).name BoxId.covr)
        (λ e.
          if_ind Keeps (is_positive (parse_tagname tag).offset)
            (λ e'.
              update_tag-IsConsistent (clear_error l) (clear_error-IsConsistent l c) i
                (record t { covername = none }) g (record { tag = refl; dataidx = refl }) refl)
            (λ e'. del_tag-IsConsistent l c i))
        (λ e. del_tag-IsConsistent l c i)

  pub delete_known-IsConsistent : (tag : Bytes) → IsConsistent (delete_known l tag).0
  unfolding delete_known
  delete_known-IsConsistent tag =
      option_ind Keeps l.tags (λ e. fail-IsConsistent l c Mp4error.err_tag_not_found)
        (λ ts e.
          option_ind Keeps (lookup_tag l tag)
            (λ e'. fail-IsConsistent l c Mp4error.err_tag_not_found)
            (λ p e'. delete_found-IsConsistent tag p.0 p.1 (lookup_tag-at l tag e')))

  pub get_known-IsConsistent : (tag : Bytes) (b : Bool) → IsConsistent (get_known l tag b).0
  unfolding get_known
  get_known-IsConsistent tag b =
      if_ind KeepsGot (not b) (λ e. fail-IsConsistent l c Mp4error.err_null_value)
        (λ e.
          option_ind KeepsGot l.tags (λ e'. fail-IsConsistent l c Mp4error.err_no_tags)
            (λ ts e'.
              option_ind KeepsGot (lookup_tag l tag)
                (λ e''. fail-IsConsistent l c Mp4error.err_tag_not_found) (λ p e''. c)))

  pub iterate_known-IsConsistent : (b : Bool) → IsConsistent (iterate_known l b).0
  unfolding iterate_known
  iterate_known-IsConsistent b =
      if_ind KeepsGot (not b) (λ e. fail-IsConsistent l c Mp4error.err_null_value)
        (λ e.
          option_ind KeepsGot l.tags (λ e'. fail-IsConsistent l c Mp4error.err_no_tags)
            (λ ts e'.
              option_ind KeepsGot (get_elem? ts l.iterator) (λ e''. c)
                (λ t e''. moved (l.iterator + 1))))
    where
      moved : (n : ℕ) → IsConsistent (record l { iterator = n })
      moved n = record { ident = c.ident; tags = c.tags; room = c.room; no_array = c.no_array }

  pub restore_list-IsConsistent :
      (ts : List Mp4tag) → IsWellFormed ts → IsConsistent (restore_list l ts)
  unfolding restore_list
  restore_list-IsConsistent ts w =
      if_ind IsConsistent (ltb l.tagalloccount (length ts))
        (λ e. record {
          ident = c.ident;
          tags = clone_all-IsWellFormed ts w;
          room = omega (arith, length-map ts clone_tag);
          no_array = λ q. absurd (Option.some-ne-none _ q);
        })
        (λ e. c)

  pub free_tags-IsConsistent : IsConsistent (free_tags l)
  unfolding free_tags
  free_tags-IsConsistent =
      if_ind IsConsistent (has_ident l)
        (λ e.
          option_ind IsConsistent l.tags (λ e'. c)
            (λ ts e'. record {
              ident = c.ident;
              tags = record { sorted = tt; numbered = tt };
              room = omega arith;
              no_array = λ q. refl;
            }))
        (λ e. c)
