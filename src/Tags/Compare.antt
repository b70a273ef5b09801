-- ===== src/Tags/Compare.antt =====
-- The comparators of mp4tagutil.c as orders.
use libmp4tag.CString.{Bytes, strcmp}
use libmp4tag.Prelude.{Ordering, ◌≡◌, refl, ap, ◌≢◌, ◌↔◌, Option, none, some, [], ◌∷◌, arith}
use libmp4tag.Prelude.Int.{compare_ℤ-eq}
use libmp4tag.Search.Laws.{IsCompare, flip}
use libmp4tag.Tags.{Mp4tag, compare_name, mp4tag_compare, mp4tag_compare_list}

pub strcmp_refl : (a : Bytes) → strcmp a a ≡ Ordering.eq
unfolding strcmp
strcmp_refl [] = refl
strcmp_refl (x ∷ xs) = ground (arith, strcmp_refl xs)

pub strcmp-eq : (a b : Bytes) → strcmp a b ≡ Ordering.eq → a ≡ b
unfolding strcmp
strcmp-eq [] [] h = refl
strcmp-eq [] (y ∷ ys) h = cc
strcmp-eq (x ∷ xs) [] h = cc
strcmp-eq (x ∷ xs) (y ∷ ys) h = ground (arith, strcmp-eq xs ys)

strcmp-flip : (a b : Bytes) → strcmp b a ≡ flip (strcmp a b)
unfolding strcmp
strcmp-flip [] [] = refl
strcmp-flip [] (y ∷ ys) = refl
strcmp-flip (x ∷ xs) [] = refl
strcmp-flip (x ∷ xs) (y ∷ ys) = ground (arith, strcmp-flip xs ys)

strcmp_trans :
    (a b c : Bytes) → strcmp a b ≢ Ordering.gt → strcmp b c ≢ Ordering.gt → strcmp a c ≢ Ordering.gt
unfolding strcmp
strcmp_trans [] b [] p q = λ e. cc
strcmp_trans [] b (z ∷ zs) p q = λ e. cc
strcmp_trans (x ∷ xs) [] c p q = absurd (p refl)
strcmp_trans (x ∷ xs) (y ∷ ys) [] p q = absurd (q refl)
strcmp_trans (x ∷ xs) (y ∷ ys) (z ∷ zs) p q = ground (arith, strcmp_trans xs ys zs)

name-flip : (a b : Option Bytes) → compare_name b a ≡ flip (compare_name a b)
unfolding compare_name
name-flip none none = refl
name-flip none (some b) = refl
name-flip (some a) none = refl
name-flip (some a) (some b) = strcmp-flip a b

name_trans :
    (a b c : Option Bytes)
    → compare_name a b ≢ Ordering.gt
    → compare_name b c ≢ Ordering.gt
    → compare_name a c ≢ Ordering.gt
unfolding compare_name
name_trans none b none p q = λ e. cc
name_trans none b (some c) p q = λ e. cc
name_trans (some a) none c p q = absurd (p refl)
name_trans (some a) (some b) none p q = absurd (q refl)
name_trans (some a) (some b) (some c) p q = strcmp_trans a b c p q

pub name-eq : (a b : Option Bytes) → compare_name a b ≡ Ordering.eq → a ≡ b
unfolding compare_name
name-eq none none h = refl
name-eq none (some b) h = cc
name-eq (some a) none h = cc
name-eq (some a) (some b) h = ap some (strcmp-eq a b h)

pub name_refl : (a : Option Bytes) → compare_name a a ≡ Ordering.eq
unfolding compare_name
name_refl none = refl
name_refl (some a) = strcmp_refl a

-- mp4tag_compare is a comparator: the other order of its arguments gives the other sign, and not
-- greater is transitive.
pub mp4tag_compare-IsCompare : IsCompare mp4tag_compare
unfolding mp4tag_compare
mp4tag_compare-IsCompare = record {
  swap = λ a b. ground (arith, name-flip a.tag b.tag);
  trans = λ a b c p q. ground (
    arith,
    name-flip a.tag b.tag,
    name-flip b.tag c.tag,
    name-flip a.tag c.tag,
    name_trans a.tag b.tag c.tag,
    name_trans b.tag c.tag a.tag,
    name_trans c.tag a.tag b.tag,
    name-eq a.tag b.tag,
    name-eq b.tag c.tag,
  );
}

-- mp4tag_compare gives 0 for two tags if and only if they have the same name and the same index.
pub mp4tag_compare-eq_iff :
    (a b : Mp4tag)
    → (mp4tag_compare a b ≡ Ordering.eq) ↔ ((a.tag ≡ b.tag) × (a.dataidx ≡ b.dataidx))
unfolding mp4tag_compare
mp4tag_compare-eq_iff a b = (
  (λ h. ground (arith, name-eq a.tag b.tag, compare_ℤ-eq a.dataidx b.dataidx)),
  (λ h. ground (arith, name_refl a.tag, name_refl b.tag)),
)

pub mp4tag_compare_list-IsCompare : IsCompare mp4tag_compare_list
unfolding mp4tag_compare_list
mp4tag_compare_list-IsCompare = record {
  swap = λ a b. name-flip (some a.tag) (some b.tag);
  trans = λ a b c p q. name_trans (some a.tag) (some b.tag) (some c.tag) p q;
}
