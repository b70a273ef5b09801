-- ===== src/Parse/Rounds.antt =====
-- The rounds of the loop of mp4tag_parse_file of mp4tagparse.c.
use libmp4tag.Const.{boxhead_sz}
use libmp4tag.Parse.Boxes.{
  Box, needs_data, read_head, start_rem, note_box, check_free, after_descent, end_box, level_done,
  leave_level, end_level,
}
use libmp4tag.Parse.Ends.{
  Ends, Enough, Enough-later, later-later, Ends-trans, and_then-Ends, when_read-Ends, when_box-Ends,
  process_box-Ends, descend-Ends, enter_level-Ends, end_box-IsLater, data_seek-IsLater,
}
use libmp4tag.Parse.File.{
  Parsed, process_box, box_data, descend, skip_left, next_box, parse_box, parse_boxes, parse_file,
  enter_level,
}
use libmp4tag.Parse.Later.{
  IsLater, IsLater-refl, IsLater-trans, data_read-IsLater, start_rem-IsLater, note_box-IsLater,
  check_free-IsLater, after_descent-IsLater, end_level-IsLater, end_level-IsConsistent,
  read_head-IsLater, read_head-some, kept,
}
use libmp4tag.Parse.State.{Parser, put, data_read, data_seek}
use libmp4tag.Prelude.{
  ℕ, zero, suc, ◌-◌, ◌<◌, ◌≡◌, ◌≢◌, refl, ap, sym, ◌∙◌, subst, Bool, true, false, not, ◌&&◌, if_ind,
  length, ◌==◌, if◌then◌else◌, arith,
}
use libmp4tag.Prelude.Int.{ℤ, pos, neg, ◌+ℤ◌}
use libmp4tag.Tags.Consistent.{HasRoom, IsConsistent}

module _ (R : Parser → Parser → Type 0) (before : (s t u : Parser) → IsLater s t → R t u → R s u)
    (millis : ℕ → ℕ → ℤ) where
  box_data-Ends :
      (b : Box) (skiplen : ℕ) (s : Parser) (f stop : Parser → Parsed)
      → ((t : Parser) → IsLater s t → Ends R t (f t))
      → ((t : Parser) → Ends R t (stop t))
      → Ends R s (box_data millis b skiplen s f stop)
  unfolding box_data
  box_data-Ends b skiplen s f stop p q =
      let skipped : Parser = if needs_data b s then s else data_seek s skiplen in
      let l : IsLater s skipped =
        if_ind (IsLater s) (needs_data b s) (λ e. IsLater-refl s)
          (λ e. data_seek-IsLater s skiplen) in
      if_ind (Ends R s) (needs_data b s && not (b.len == 0))
        (λ e.
          when_read-Ends R before s (data_read s b.len) _ stop (data_read-IsLater s b.len)
            (λ x t k.
              and_then-Ends R before t (process_box millis b x t) f (process_box-Ends millis b x t)
                (λ u m. p u (IsLater-trans k m)))
            q)
        (λ e. Ends-trans R before s skipped (f skipped) l (p skipped l))

  -- One level, where `R` holds of its ends.
  module _ (boxlen level : ℕ) (stops : (s : Parser) → R s (end_level level s))
      (leaves : (b : Box) (s : Parser)
        → level_done boxlen level (end_box b level s) ≡ true
        → R s (leave_level b level (end_box b level s))) where
    next_box-Ends :
        (loop : ℕ → ℕ → Parser → Parsed) (fuel : ℕ) (b : Box) (s : Parser)
        → ((t : Parser) → Enough fuel t → Ends R t (loop boxlen level t))
        → Enough fuel s
        → Ends R s (next_box loop b boxlen level s)
    unfolding next_box
    next_box-Ends loop fuel b s rest h = go (level_done boxlen level (end_box b level s)) refl
      where
        go :
            (c : Bool)
            → level_done boxlen level (end_box b level s) ≡ c
            → Ends R s (elim c [
              | true ↦ Parsed.done (leave_level b level (end_box b level s))
              | false ↦ loop boxlen level (end_box b level s)
            ])
        go true e = leaves b s e
        go false e =
            let l = end_box-IsLater b level s in
            Ends-trans R before s (end_box b level s) _ l
              (rest (end_box b level s) (Enough-later fuel l h))

    parse_box-Ends :
        (loop : ℕ → ℕ → Parser → Parsed) (fuel : ℕ) (b : Box) (r : Bool × Parser)
        → ((n k : ℕ) (t : Parser) → Enough fuel t → Ends IsLater t (loop n k t))
        → ((t : Parser) → Enough fuel t → Ends R t (loop boxlen level t))
        → Enough fuel r.1
        → Ends R r.1 (parse_box millis loop b boxlen level r)
    unfolding parse_box
    parse_box-Ends loop fuel b (true, s) advances rest h = stops s
    parse_box-Ends loop fuel b (false, s) advances rest h =
        and_then-Ends R before s (descend loop b level s) _
          (descend-Ends loop fuel advances b level s h)
          (λ t l.
            let m = after_descent-IsLater b t in
            Ends-trans R before t (after_descent b t) _ m (
              box_data-Ends b (skip_left b) (after_descent b t) _ _
                (λ u k.
                  next_box-Ends loop fuel b u rest
                    (Enough-later fuel (IsLater-trans l (IsLater-trans m k)) h))
                (λ u. stops u)))

    -- A round, where the loop goes on with less fuel.
    round-Ends :
        (fuel : ℕ) (s : Parser)
        → ((n k : ℕ) (t : Parser) → Enough fuel t → Ends IsLater t (parse_boxes millis fuel n k t))
        → ((t : Parser) → Enough fuel t → Ends R t (parse_boxes millis fuel boxlen level t))
        → Enough (suc fuel) s
        → Ends R s (parse_boxes millis (suc fuel) boxlen level s)
    unfolding parse_boxes
    round-Ends fuel s advances rest h =
        when_box-Ends R before s (read_head s) _ _ (read_head-IsLater s)
          (λ b e.
            let s1 = (read_head s).1 in
            let (there, further) = read_head-some s b e in
            let started = start_rem boxlen b level s1 in
            let noted = note_box b level started in
            let l = IsLater-trans (start_rem-IsLater boxlen b level s1) (
              IsLater-trans (note_box-IsLater b level started)
                (check_free-IsLater b level noted)) in
            let less : Enough fuel s1 =
              omega (arith, h, there, further, ap length (read_head-IsLater s).file) in
            Ends-trans R before s1 (check_free b level noted).1 _ l (
              parse_box-Ends (parse_boxes millis fuel) fuel b (check_free b level noted) advances
                rest (Enough-later fuel l less)))
          (stops (read_head s).1)

parse_boxes-Ends :
    (millis : ℕ → ℕ → ℤ) (fuel boxlen level : ℕ) (s : Parser)
    → Enough fuel s
    → Ends IsLater s (parse_boxes millis fuel boxlen level s)
parse_boxes-Ends millis zero boxlen level s h = ground arith
parse_boxes-Ends millis (suc fuel) boxlen level s h =
    round-Ends IsLater later-later millis boxlen level (end_level-IsLater level)
      (λ b t e.
        IsLater-trans (end_box-IsLater b level t) (kept (end_box b level t) _ refl refl refl))
      fuel s (parse_boxes-Ends millis fuel) (parse_boxes-Ends millis fuel boxlen level) h

-- What the top level leaves.
abbrev Sorted : Parser → Parser → Type 0
Sorted s t = HasRoom s.tags → IsConsistent t.tags

not_left : (t : Parser) → level_done 0 0 t ≡ true → ⊥
not_left t e = ground arith

top_boxes-Ends :
    (millis : ℕ → ℕ → ℤ) (fuel : ℕ) (s : Parser)
    → Enough fuel s
    → Ends Sorted s (parse_boxes millis fuel 0 0 s)
top_boxes-Ends millis zero s h = ground arith
top_boxes-Ends millis (suc fuel) s h =
    round-Ends Sorted (λ s t u l q h. q (l.tags h)) millis 0 0 end_level-IsConsistent
      (λ b t e. absurd (not_left (end_box b 0 t) e)) fuel s (parse_boxes-Ends millis fuel)
      (top_boxes-Ends millis fuel) h

-- With more fuel than there are bytes behind the position in the file, mp4tag_parse_file does not
-- run out of it, on any level, for any length of the container, and in any state.
pub parse_file-ends :
    (millis : ℕ → ℕ → ℤ) (fuel boxlen level : ℕ) (s : Parser)
    → length s.file - s.offset < fuel
    → parse_file millis fuel boxlen level s ≢ Parsed.unfinished
unfolding parse_file
parse_file-ends millis fuel boxlen level s h e = subst (Ends IsLater s) e (
    enter_level-Ends (parse_boxes millis fuel) fuel (parse_boxes-Ends millis fuel) boxlen level s h)

pub parse_file-IsConsistent :
    (millis : ℕ → ℕ → ℤ) (fuel : ℕ) (s t : Parser)
    → length s.file - s.offset < fuel
    → s.parsedone ≡ false
    → HasRoom s.tags
    → parse_file millis fuel 0 0 s ≡ Parsed.done t
    → IsConsistent t.tags
unfolding parse_file enter_level
parse_file-IsConsistent millis fuel s t h p room e =
    let start = record s { rem_length = put s.rem_length 0 (pos 0 +ℤ neg (pos boxhead_sz)) } in
    let opened : parse_file millis fuel 0 0 s ≡ parse_boxes millis fuel 0 0 start =
      ap (λ b. if b then Parsed.done s else parse_boxes millis fuel 0 0 start) p in
    subst (Ends Sorted start) (sym opened ∙ e) (top_boxes-Ends millis fuel start h) room
