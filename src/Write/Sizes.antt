-- ===== src/Write/Sizes.antt =====
-- The variables of mp4tag_write_inplace of mp4tagwrite.c for a list with free space behind it.
use libmp4tag.Prelude.{ℕ, ◌+◌, ◌-◌, ◌%◌, ◌^◌, ◌<◌, ◌≤◌, ◌≡◌, refl, true, false, ◌==◌, arith}
use libmp4tag.Prelude.Int.{pos, neg, ◌+ℤ◌, sub_ℕ, eq_ℤ, is_positive}
use libmp4tag.Write.Inplace.{list_delta, left_over, outer_delta}
use libmp4tag.Write.Place.{Layout, as_u32, as_i32}

pub as_i32_small : (n : ℕ) → n < 2 ^ 31 → as_i32 n ≡ pos n
as_i32_small n h = ground arith

pub minus_pos : (a b : ℕ) → pos a +ℤ neg (pos b) ≡ sub_ℕ a b
minus_pos a b = ground arith

pub minus_sub : (a b c : ℕ) → pos a +ℤ neg (sub_ℕ b c) ≡ sub_ℕ (a + c) b
minus_sub a b c = ground arith

pub sub_ℕ_le : (a b : ℕ) → b ≤ a → sub_ℕ a b ≡ pos (a - b)
sub_ℕ_le a b h = ground arith

pub eq_ℤ-sub_ℕ : (a b : ℕ) → eq_ℤ (sub_ℕ a b) (pos 0) ≡ (a == b)
eq_ℤ-sub_ℕ a b = ground arith

pub sub_ℕ-plus : (a b c : ℕ) → sub_ℕ a b +ℤ pos c ≡ sub_ℕ (a + c) b
sub_ℕ-plus a b c = ground arith

pub sub_ℕ-minus : (a b c : ℕ) → sub_ℕ a b +ℤ neg (pos c) ≡ sub_ℕ a (b + c)
sub_ℕ-minus a b c = ground arith

pub sub_ℕ_cancel : (k a b : ℕ) → sub_ℕ (k + a) (k + b) ≡ sub_ℕ a b
sub_ℕ_cancel k a b = ground arith

as_i32-sub :
    (a b c : ℕ)
    → a < 2 ^ 31
    → b + c < 2 ^ 31
    → as_i32 (as_u32 (sub_ℕ a b) + (2 ^ 32 - c)) ≡ sub_ℕ a (b + c)
as_i32-sub a b c h k = ground arith

-- The parser's lengths, for a list that is not at the end of the file.
pub record IsMeasured (l : Layout) : Type 0 where
  pub bounded : l.unlimited ≡ false
  pub len : l.taglist_len ≡ l.taglist_orig_data_len + l.interior_free_len + l.exterior_free_len
  pub small : l.taglist_len < 2 ^ 31

module _ (l : Layout) (m : IsMeasured l) (n : ℕ) (fits : n ≤ l.taglist_len) where
  pub list_delta_lem : list_delta l n ≡ sub_ℕ n l.taglist_orig_data_len
  list_delta_lem =
      rw
        (
          as_i32_small n (omega (arith, m.small)),
          as_i32_small l.taglist_orig_data_len (omega (arith, m.small, m.len)),
        )
        (minus_pos n l.taglist_orig_data_len)

  pub left_over_lem :
      0 < l.interior_free_len + l.exterior_free_len → left_over l n ≡ pos (l.taglist_len - n)
  left_over_lem h =
      let all : as_i32 (l.interior_free_len + l.exterior_free_len)
          ≡ pos (l.interior_free_len + l.exterior_free_len) =
        as_i32_small (l.interior_free_len + l.exterior_free_len) (omega (arith, m.small, m.len)) in
      let some_free : is_positive (pos (l.interior_free_len + l.exterior_free_len)) ≡ true =
        ground arith in
      let whole : l.interior_free_len + l.exterior_free_len + l.taglist_orig_data_len
          ≡ l.taglist_len =
        omega (arith, m.len) in
      rw
        (
          all,
          some_free,
          list_delta_lem,
          minus_sub (l.interior_free_len + l.exterior_free_len) n l.taglist_orig_data_len,
          whole,
        )
        (sub_ℕ_le l.taglist_len n fits)

  pub outer_delta_lem : outer_delta l n ≡ sub_ℕ n (l.taglist_orig_data_len + l.interior_free_len)
  outer_delta_lem = rw list_delta_lem (
      as_i32-sub n l.taglist_orig_data_len l.interior_free_len (omega (arith, m.small))
        (omega (arith, m.small, m.len)))

  pub inner_total_lem :
      as_i32 (l.taglist_len + (2 ^ 32 - (n + as_u32 (pos (l.taglist_len - n))) % 2 ^ 32)) ≡ pos 0
  inner_total_lem =
      let small : (l.taglist_len - n) % 2 ^ 32 ≡ l.taglist_len - n = omega (arith, m.small) in
      let back : (n + (l.taglist_len - n)) % 2 ^ 32 ≡ l.taglist_len =
        omega (arith, m.small, fits) in
      let turn : l.taglist_len + (2 ^ 32 - l.taglist_len) ≡ 2 ^ 32 = omega (arith, m.small) in
      rw (small, back, turn) refl
