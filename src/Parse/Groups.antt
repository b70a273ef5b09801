-- ===== src/Parse/Groups.antt =====
-- mp4tag_parse_file of mp4tagparse.c on the data of a tag list: one box for each name, with the data boxes that
-- the writer makes of the texts under it.
use libmp4tag.Const.{BoxId}
use libmp4tag.Parse.Boxes.{Box, is_box, as_u64, as_i64, end_box, level_done, leave_level}
use libmp4tag.Parse.File.{Parsed, next_box}
use libmp4tag.Parse.State.{Parser, put}
use libmp4tag.Prelude.{
  ℕ, suc, ◌+◌, ◌-◌, ◌%◌, ◌^◌, ◌<◌, ◌≤◌, ◌≡◌, refl, ap, ◌∙◌, true, false, Bool, ◌==◌, arith,
}
use libmp4tag.Prelude.Int.{ℤ, pos}

-- What is left of a level behind a box.
pub left_lem :
    (r n : ℕ) → n ≤ r → r < 2 ^ 63 → as_i64 (as_u64 (pos r) + (2 ^ 64 - n % 2 ^ 64)) ≡ pos (r - n)
left_lem r n h k = ground arith

-- The end of a box that is not the list's.
pub end_box-other :
    (b : Box) (level : ℕ) (s : Parser) (r : ℕ)
    → is_box b BoxId.ilst ≡ false
    → s.rem_length level ≡ pos r
    → b.boxlen ≤ r
    → r < 2 ^ 63
    → end_box b level s ≡ record s { rem_length = put s.rem_length level (pos (r - b.boxlen)) }
unfolding end_box
end_box-other b level s r i e h k = rw (end_box, i, e, left_lem r b.boxlen h k) refl

pub put-here : (f : ℕ → ℤ) (i : ℕ) (v : ℤ) → put f i v i ≡ v
put-here f i v = ground arith

pub level_done-more :
    (boxlen level : ℕ) (s : Parser) (n : ℕ)
    → s.rem_length level ≡ pos (suc n)
    → level_done boxlen level s ≡ false
level_done-more boxlen level s n e = rw e (ground arith)

level_done-end :
    (boxlen level : ℕ) (s : Parser)
    → s.rem_length level ≡ pos 0
    → (boxlen == 0) ≡ false
    → level_done boxlen level s ≡ true
level_done-end boxlen level s e b = rw (e, b) refl

module _ (loop : ℕ → ℕ → Parser → Parsed) (b : Box) (boxlen level : ℕ) (s : Parser) (r : ℕ)
    (i : is_box b BoxId.ilst ≡ false) (e : s.rem_length level ≡ pos r) (h : b.boxlen ≤ r)
    (k : r < 2 ^ 63) (nonzero : (boxlen == 0) ≡ false) where
  abbrev pub ended : Parser
  ended = record s { rem_length = put s.rem_length level (pos (r - b.boxlen)) }

  abbrev chosen : Parser → Bool → Parsed
  chosen t last = elim last [
    | true ↦ Parsed.done (leave_level b level t)
    | false ↦ loop boxlen level t
  ]

  next_box-decided : next_box loop b boxlen level s ≡ chosen ended (level_done boxlen level ended)
  unfolding next_box
  next_box-decided =
      ap (λ (t : Parser). chosen t (level_done boxlen level t)) (end_box-other b level s r i e h k)

  -- More boxes follow in the level.
  pub next_box-more : b.boxlen < r → next_box loop b boxlen level s ≡ loop boxlen level ended
  next_box-more lt =
      let some_left : pos (r - b.boxlen) ≡ pos (suc (r - b.boxlen - 1)) = ap pos (omega arith) in
      let here : ended.rem_length level ≡ pos (suc (r - b.boxlen - 1)) =
        put-here s.rem_length level (pos (r - b.boxlen)) ∙ some_left in
      next_box-decided
      ∙ ap (chosen ended) (level_done-more boxlen level ended (r - b.boxlen - 1) here)

  -- The last box of the level.
  pub next_box-last :
      b.boxlen ≡ r → next_box loop b boxlen level s ≡ Parsed.done (leave_level b level ended)
  next_box-last same =
      let none_left : pos (r - b.boxlen) ≡ pos 0 = ap pos (omega arith) in
      let here : ended.rem_length level ≡ pos 0 =
        put-here s.rem_length level (pos (r - b.boxlen)) ∙ none_left in
      next_box-decided ∙ ap (chosen ended) (level_done-end boxlen level ended here nonzero)
