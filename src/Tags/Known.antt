-- ===== src/Tags/Known.antt =====
-- mp4tag_check_tag on the table of known tags.
use libmp4tag.CString.{Bytes, str_eq, strcmp, starts_with}
use libmp4tag.Const.Table.{Mp4tagdef, mp4taglist}
use libmp4tag.Prelude.{
  ℕ, ◌≡◌, refl, Bool, true, false, ◌&&◌, ◌==◌, List, [], ◌∷◌, Option, none, some, All, get_elem?,
  ap, sym, arith,
}
use libmp4tag.Prelude.Int.{eq_ℤ, compare_ℤ-eq}
use libmp4tag.Tags.{compare_name, mp4tag_compare_list}
use libmp4tag.Search.Bsearch.{bsearch_sound}
use libmp4tag.Search.{bsearch}
use libmp4tag.Tags.Compare.{strcmp-eq}
use libmp4tag.Tags.Find.{check_tag, table_key}

same_def : Mp4tagdef → Mp4tagdef → Bool
same_def d e =
    str_eq d.tag e.tag && eq_ℤ d.priority e.priority && d.identtype == e.identtype && d.len == e.len

same_def-eq : (d e : Mp4tagdef) → same_def d e ≡ true → e ≡ d
unfolding same_def
same_def-eq d e h = ground (arith, strcmp-eq d.tag e.tag, compare_ℤ-eq d.priority e.priority)

found_itself : Mp4tagdef → Option Mp4tagdef → Bool
found_itself d none = false
found_itself d (some e) = same_def d e

found_itself-eq : (d : Mp4tagdef) (o : Option Mp4tagdef) → found_itself d o ≡ true → o ≡ some d
unfolding found_itself
found_itself-eq d none h = cc
found_itself-eq d (some e) h = ap some (same_def-eq d e h)

all_found : List Mp4tagdef → Bool
unfolding found_itself same_def
all_found [] = true
all_found (d ∷ ds) = found_itself d (check_tag (some d.tag)) && all_found ds

and-true : (a b : Bool) → (a && b) ≡ true → (a ≡ true) × (b ≡ true)
and-true a b h = ground arith

all_found_sound :
    (ds : List Mp4tagdef) → all_found ds ≡ true → All (λ d. check_tag (some d.tag) ≡ some d) ds
unfolding all_found
all_found_sound [] h = tt
all_found_sound (d ∷ ds) h =
    let (found, rest) = and-true _ (all_found ds) h in
    (found_itself-eq d (check_tag (some d.tag)) found, all_found_sound ds rest)

table_found : all_found mp4taglist ≡ true
unfolding all_found check_tag mp4taglist bsearch mp4tag_compare_list compare_name strcmp starts_with
table_found = refl

-- Every tag of the table of known tags is found by mp4tag_check_tag under its own name, with its
-- priority, type and length.
pub check_tag_complete : All (λ (d : Mp4tagdef). check_tag (some d.tag) ≡ some d) mp4taglist
check_tag_complete = all_found_sound mp4taglist table_found

-- If mp4tag_check_tag finds a tag for a name, it is a tag of the table, and its name is the name
-- that is searched: the first four bytes of a name that begins with covr, the first five of any
-- other.
pub check_tag_sound :
    (tag : Bytes) {d : Mp4tagdef}
    → check_tag (some tag) ≡ some d
    → ((i : ℕ) × (get_elem? mp4taglist i ≡ some d)) × (d.tag ≡ table_key tag)
unfolding check_tag compare_name mp4tag_compare_list
check_tag_sound tag {d} h =
    let (i, g, same) = bsearch_sound _ mp4taglist h in
    ((i, g), sym (strcmp-eq (table_key tag) d.tag same))
