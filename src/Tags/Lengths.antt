-- ===== src/Tags/Lengths.antt =====
-- The lengths of the lists that the operations of mp4tagutil.c make.
use libmp4tag.Prelude.{
  ℕ, zero, suc, ◌≤◌, ◌≡◌, refl, ap, ◌∙◌, List, [], ◌∷◌, length, length-set, get_elem?, arith,
  option_ind,
}
use libmp4tag.Prelude.Int.{ℤ}
use libmp4tag.Search.{sort, insert}
use libmp4tag.Tags.Add.{remove_at}
use libmp4tag.Tags.Find.{number_from, sorted_tags}
use libmp4tag.Tags.Set.{set_dataidx}
use libmp4tag.Tags.{Mp4tag, mp4tag_compare}

length-insert :
    (t : Mp4tag) (ts : List Mp4tag) → length (insert mp4tag_compare t ts) ≡ suc (length ts)
unfolding insert
length-insert t [] = refl
length-insert t (u ∷ us) = ground (arith, length-insert t us)

length-sort : (ts : List Mp4tag) → length (sort mp4tag_compare ts) ≡ length ts
unfolding sort
length-sort [] = refl
length-sort (t ∷ ts) = length-insert t (sort mp4tag_compare ts) ∙ ap suc (length-sort ts)

pub length-number_from : (n : ℕ) (ts : List Mp4tag) → length (number_from n ts) ≡ length ts
unfolding number_from
length-number_from n [] = refl
length-number_from n (t ∷ ts) = ap suc (length-number_from (suc n) ts)

pub length-sorted_tags : (ts : List Mp4tag) → length (sorted_tags ts) ≡ length ts
unfolding sorted_tags
length-sorted_tags ts = length-number_from 0 _ ∙ length-sort ts

pub length-remove_at : (i : ℕ) (ts : List Mp4tag) → length (remove_at i ts) ≤ length ts
unfolding remove_at
length-remove_at i [] = omega arith
length-remove_at zero (t ∷ ts) = omega arith
length-remove_at (suc i) (t ∷ ts) = omega (arith, length-remove_at i ts)

pub length-set_dataidx :
    (ts : List Mp4tag) (i : ℕ) (d : ℤ) → length (set_dataidx ts i d) ≡ length ts
length-set_dataidx ts i d =
    option_ind (λ us. length us ≡ length ts) (get_elem? ts i) (λ e. refl) (λ t e. length-set ts i _)
