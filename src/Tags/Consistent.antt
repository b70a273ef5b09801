-- ===== src/Tags/Consistent.antt =====
-- The consistency of the structure, and the operations of mp4tagutil.c that change the tag list.
use libmp4tag.CString.{Bytes}
use libmp4tag.Const.Table.{Mp4tagdef}
use libmp4tag.Const.{BoxId, id_string}
use libmp4tag.Prelude.{
  ℕ, ◌+◌, ◌≤◌, ◌≡◌, refl, subst, ◌++◌, Option, none, some, List, [], ◌∷◌, length, length-append,
  length-set, get_elem?, arith, true, if_ind, option_ind, Option-cases, inl, inr, not, ltb, leb,
  ◌==◌, if◌then◌else◌,
}
use libmp4tag.Prelude.Int.{ℤ, is_positive}
use libmp4tag.Tags.Add.{add_tag, remove_at, del_tag}
use libmp4tag.Tags.Find.{number_from, sort_tags, check_tag}
use libmp4tag.Tags.Invariant.{
  SameKey, IsWellFormed, sorted_tags-IsWellFormed, set-IsWellFormed, remove_at-IsWellFormed,
}
use libmp4tag.Tags.Name.{TagName}
use libmp4tag.Tags.Set.{
  is_tag, takes_string, parsed_for, update_tag, set_existing_string, add_string, add_known,
  set_new_string, set_string_at, set_tag_string, set_existing_binary, add_binary, set_new_binary,
  set_binary_at, set_tag_binary,
}
use libmp4tag.Tags.{Mp4tag, Libmp4tag, Mp4error, list_of, has_ident}
use mathlib.Core.Option
use libmp4tag.Tags.Lengths.{
  length-sorted_tags, length-number_from, length-remove_at, length-set_dataidx,
}

-- The structure carries its identifier, the list meets its invariant, and the array has room for
-- it; there is no room where there is no array.
pub record IsConsistent (l : Libmp4tag) : Type 0 where
  pub ident : has_ident l ≡ true
  pub tags : IsWellFormed (list_of l.tags)
  pub room : length (list_of l.tags) ≤ l.tagalloccount
  pub no_array : l.tags ≡ none → l.tagalloccount ≡ 0

-- What is left of it while tags are added at the end of the list.
pub record HasRoom (l : Libmp4tag) : Type 0 where
  pub ident : has_ident l ≡ true
  pub room : length (list_of l.tags) ≤ l.tagalloccount
  pub no_array : l.tags ≡ none → l.tagalloccount ≡ 0

-- Sorting gives the invariant to any list for which the array has room.
sort_tags-IsConsistent :
    (l : Libmp4tag) (ts : List Mp4tag)
    → has_ident l ≡ true
    → l.tags ≡ some ts
    → length ts ≤ l.tagalloccount
    → IsConsistent (sort_tags l)
unfolding sort_tags
sort_tags-IsConsistent l ts h e room =
    rw (h, e)
      (record {
        ident = h;
        tags = sorted_tags-IsWellFormed ts;
        room = omega (arith, length-sorted_tags ts);
        no_array = λ q. absurd (Option.some-ne-none _ q);
      })

-- The array grows by ten when it is full, which is enough for one more tag.
add_room :
    (ts : List Mp4tag) (t : Mp4tag) (n : ℕ)
    → length ts ≤ n
    → length (ts ++ (t ∷ [])) ≤ (if leb n (length ts) then n + 10 else n)
add_room ts t n h = ground (arith, length-append ts (t ∷ []))

pub add_tag-HasRoom :
    (l : Libmp4tag) (tag value : Bytes) (sz : ℤ) (origflag origlen : ℕ) (covername : Option Bytes)
    → HasRoom l
    → HasRoom (add_tag l tag value sz origflag origlen covername).0
unfolding add_tag
add_tag-HasRoom l tag value sz origflag origlen covername h = record {
  ident = h.ident;
  room = add_room (list_of l.tags) _ l.tagalloccount h.room;
  no_array = λ q. absurd (Option.some-ne-none _ q);
}

-- Without an array the list is empty, and sorted.
pub sort_tags-HasRoom : (l : Libmp4tag) → HasRoom l → IsConsistent (sort_tags l)
unfolding sort_tags
sort_tags-HasRoom l h = elim (Option-cases l.tags) [
  | inl e ↦
      rw (h.ident, e)
        (record {
          ident = h.ident;
          tags = record { sorted = tt; numbered = tt };
          room = omega arith;
          no_array = λ q. h.no_array e;
        })
  | inr (ts, e) ↦
      sort_tags-IsConsistent l ts h.ident e
        (subst (λ o. length (list_of o) ≤ l.tagalloccount) e h.room)
]

abbrev Keeps : Libmp4tag × Mp4error → Type 0
Keeps r = IsConsistent r.0

module _ (l : Libmp4tag) (c : IsConsistent l) where
  pub add_binary-IsConsistent :
      (tag value : Bytes) (sz : ℕ) (fn : Option Bytes)
      → IsConsistent (add_binary l tag value sz fn).0
  unfolding add_binary add_tag
  add_binary-IsConsistent tag value sz fn =
      sort_tags-IsConsistent _ _ c.ident refl (add_room (list_of l.tags) _ l.tagalloccount c.room)

  pub add_string-IsConsistent :
      (tag : Bytes) (d : ℤ) (value : Bytes) (tflag tlen : ℕ)
      → IsConsistent (add_string l tag d value tflag tlen).0
  unfolding add_string add_tag
  add_string-IsConsistent tag d value tflag tlen =
      sort_tags-IsConsistent _ _ c.ident refl
        (rw length-set_dataidx (add_room (list_of l.tags) _ l.tagalloccount c.room))

  -- An error, or any other change outside the list, does not touch what is consistent.
  pub fail-IsConsistent : (e : Mp4error) → IsConsistent (record l { mp4error = e })
  fail-IsConsistent e = record {
    ident = c.ident;
    tags = c.tags;
    room = c.room;
    no_array = c.no_array;
  }

  pub update_tag-IsConsistent :
      (i : ℕ) {t : Mp4tag} (u : Mp4tag)
      → get_elem? (list_of l.tags) i ≡ some t
      → SameKey t u
      → t.idx ≡ u.idx
      → IsConsistent (update_tag l i u).0
  update_tag-IsConsistent i u g k n = record {
    ident = c.ident;
    tags = set-IsWellFormed (list_of l.tags) i u g k n c.tags;
    room = rw length-set c.room;
    no_array = λ q. absurd (Option.some-ne-none _ q);
  }

  set_existing_string-IsConsistent :
      (tag : Bytes) (p : TagName) (i : ℕ) (t : Mp4tag) (value : Bytes)
      → get_elem? (list_of l.tags) i ≡ some t
      → IsConsistent (set_existing_string l tag p i t value).0
  unfolding set_existing_string
  set_existing_string-IsConsistent tag p i t value g =
      if_ind Keeps (is_tag tag BoxId.covr)
        (λ e.
          if_ind Keeps (is_positive p.offset)
            (λ e'.
              update_tag-IsConsistent i (record t { covername = some value }) g
                (record { tag = refl; dataidx = refl }) refl)
            (λ e'. fail-IsConsistent Mp4error.err_mismatch))
        (λ e.
          if_ind Keeps t.binary (λ e'. fail-IsConsistent Mp4error.err_mismatch)
            (λ e'.
              update_tag-IsConsistent i (record t { value = some value; datalen = length value }) g
                (record { tag = refl; dataidx = refl }) refl))

  add_known-IsConsistent :
      (tag : Bytes) (d : ℤ) (value : Bytes) (def : Mp4tagdef)
      → IsConsistent (add_known l tag d value def).0
  unfolding add_known
  add_known-IsConsistent tag d value def =
      if_ind Keeps (takes_string def tag)
        (λ e.
          add_string-IsConsistent tag d value def.identtype
            (if def.identtype == id_string then length value else def.len))
        (λ e. fail-IsConsistent Mp4error.err_mismatch)

  set_new_string-IsConsistent :
      (tag : Bytes) (p : TagName) (value : Bytes) → IsConsistent (set_new_string l tag p value).0
  unfolding set_new_string
  set_new_string-IsConsistent tag p value =
      option_ind Keeps (check_tag (some tag))
        (λ e.
          if_ind Keeps (is_tag tag BoxId.custom)
            (λ e'. add_string-IsConsistent tag p.dataidx value _ _)
            (λ e'. fail-IsConsistent Mp4error.err_tag_not_found))
        (λ d e.
          if_ind Keeps _ (λ e'. fail-IsConsistent Mp4error.err_tag_not_found)
            (λ e'. add_known-IsConsistent tag p.dataidx value d))

  set_string_at-IsConsistent :
      (tag value : Bytes) (idx : Option ℕ) → IsConsistent (set_string_at l tag value idx).0
  unfolding set_string_at
  set_string_at-IsConsistent tag value none =
      set_new_string-IsConsistent tag (parsed_for tag none) value
  set_string_at-IsConsistent tag value (some i) =
      option_ind Keeps (get_elem? (list_of l.tags) i)
        (λ e. set_new_string-IsConsistent tag (parsed_for tag (some i)) value)
        (λ t g. set_existing_string-IsConsistent tag (parsed_for tag (some i)) i t value g)

  -- mp4tag_set_tag_string leaves a consistent structure consistent for every name, position and
  -- value, NULL included, whether it changes a tag, adds one, or refuses.
  pub set_tag_string-IsConsistent :
      (tag : Option Bytes) (idx : Option ℕ) (value : Option Bytes)
      → IsConsistent (set_tag_string l tag idx value).0
  unfolding set_tag_string
  set_tag_string-IsConsistent none idx value =
      if_ind Keeps (has_ident l) (λ e. fail-IsConsistent Mp4error.err_null_value) (λ e. c)
  set_tag_string-IsConsistent (some tag) idx none =
      if_ind Keeps (has_ident l) (λ e. fail-IsConsistent Mp4error.err_null_value) (λ e. c)
  set_tag_string-IsConsistent (some tag) idx (some value) =
      if_ind Keeps (has_ident l) (λ e. set_string_at-IsConsistent tag value idx) (λ e. c)

  set_existing_binary-IsConsistent :
      (tag : Bytes) (i : ℕ) (t : Mp4tag) (value : Bytes) (sz : ℕ) (fn : Option Bytes)
      → get_elem? (list_of l.tags) i ≡ some t
      → IsConsistent (set_existing_binary l tag i t value sz fn).0
  unfolding set_existing_binary
  set_existing_binary-IsConsistent tag i t value sz fn g =
      if_ind Keeps (not t.binary) (λ e. fail-IsConsistent Mp4error.err_mismatch)
        (λ e. update_tag-IsConsistent i _ g (record { tag = refl; dataidx = refl }) refl)

  set_new_binary-IsConsistent :
      (tag value : Bytes) (sz : ℕ) (fn : Option Bytes)
      → IsConsistent (set_new_binary l tag value sz fn).0
  unfolding set_new_binary
  set_new_binary-IsConsistent tag value sz fn =
      if_ind Keeps (is_tag tag BoxId.custom) (λ e. add_binary-IsConsistent tag value sz fn)
        (λ e.
          option_ind Keeps (check_tag (some tag))
            (λ e'. fail-IsConsistent Mp4error.err_tag_not_found)
            (λ d e'.
              if_ind Keeps _ (λ e''. fail-IsConsistent Mp4error.err_mismatch)
                (λ e''. add_binary-IsConsistent tag value sz fn)))

  set_binary_at-IsConsistent :
      (tag value : Bytes) (sz : ℕ) (fn : Option Bytes) (idx : Option ℕ)
      → IsConsistent (set_binary_at l tag value sz fn idx).0
  unfolding set_binary_at
  set_binary_at-IsConsistent tag value sz fn none = set_new_binary-IsConsistent tag value sz fn
  set_binary_at-IsConsistent tag value sz fn (some i) =
      option_ind Keeps (get_elem? (list_of l.tags) i)
        (λ e. set_new_binary-IsConsistent tag value sz fn)
        (λ t g. set_existing_binary-IsConsistent tag i t value sz fn g)

  -- mp4tag_set_tag_binary leaves a consistent structure consistent for every name, position, value,
  -- size and file name, NULL included, whether it changes a tag, adds one, or refuses.
  pub set_tag_binary-IsConsistent :
      (tag : Option Bytes) (idx : Option ℕ) (value : Option Bytes) (sz : ℕ) (fn : Option Bytes)
      → IsConsistent (set_tag_binary l tag idx value sz fn).0
  unfolding set_tag_binary
  set_tag_binary-IsConsistent none idx value sz fn =
      if_ind Keeps (has_ident l) (λ e. fail-IsConsistent Mp4error.err_null_value) (λ e. c)
  set_tag_binary-IsConsistent (some tag) idx none sz fn =
      if_ind Keeps (has_ident l) (λ e. fail-IsConsistent Mp4error.err_null_value) (λ e. c)
  set_tag_binary-IsConsistent (some tag) idx (some value) sz fn =
      if_ind Keeps (has_ident l) (λ e. set_binary_at-IsConsistent tag value sz fn idx) (λ e. c)

  -- mp4tag_del_tag leaves a consistent structure consistent for every position, in the list or not.
  pub del_tag-IsConsistent : (i : ℕ) → IsConsistent (del_tag l i)
  unfolding del_tag
  del_tag-IsConsistent i =
      if_ind IsConsistent (has_ident l)
        (λ e.
          option_ind IsConsistent l.tags (λ e'. c)
            (λ ts e'.
              if_ind IsConsistent (ltb i (length ts)) (λ e''. deleted ts e')
                (λ e''. fail-IsConsistent Mp4error.err_no_tags)))
        (λ e. c)
    where
      deleted :
          (ts : List Mp4tag)
          → l.tags ≡ some ts
          → IsConsistent (record l { tags = some (number_from 0 (remove_at i ts)) })
      deleted ts e = record {
        ident = c.ident;
        tags = remove_at-IsWellFormed i ts (subst (λ o. IsWellFormed (list_of o)) e c.tags);
        room = omega (
          arith,
          subst (λ o. length (list_of o) ≤ l.tagalloccount) e c.room,
          length-number_from 0 (remove_at i ts),
          length-remove_at i ts,
        );
        no_array = λ q. absurd (Option.some-ne-none _ q);
      }
