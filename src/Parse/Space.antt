-- ===== src/Parse/Space.antt =====
-- mp4tag_parse_file of mp4tagparse.c at the end of the list's box, and on the free box behind it.
use libmp4tag.CString.{Bytes, strcmp, c_string}
use libmp4tag.Const.{boxids, BoxId, boxhead_sz}
use libmp4tag.Parse.Boxes.{Box, make_box, read_head, note_box, after_descent, check_free, end_level}
use libmp4tag.Parse.Contents.{
  kept_place, parse_boxes-head, note_box-none, descend-none, after_descent-none,
}
use libmp4tag.Parse.Reading.{read_head-next}
use libmp4tag.Parse.File.{Parsed, and_then, box_data, skip_left, next_box, parse_box, parse_boxes}
use libmp4tag.Parse.ListBox.{not_dumped}
use libmp4tag.Parse.State.{Parser, rest_of}
use libmp4tag.Prelude.{
  ℕ, suc, ◌+◌, ◌%◌, ◌^◌, ◌<◌, ◌≡◌, refl, ap, ◌∙◌, true, false, some, ◌++◌, length, ◌==◌, arith,
}
use libmp4tag.Prelude.Int.{ℤ}
use libmp4tag.Write.Array.{box}
use libmp4tag.Write.Bytes.{be_value}
use libmp4tag.Write.Place.{Layout}

abbrev pub free_head : ℕ → Box
free_head n = record { boxlen = boxhead_sz + n; len = n; nm = boxids BoxId.free }

make_box-free :
    (n : ℕ)
    → boxhead_sz + n < 2 ^ 32
    → make_box (boxhead_sz + n) boxhead_sz (boxids BoxId.free) ≡ free_head n
unfolding c_string be_value
make_box-free n h = ap (λ (k : ℕ). record (free_head n) { len = k }) (omega (arith, h))

-- The list has the space of a free box of `k` bytes too.
abbrev pub freed : Layout → ℕ → Layout
freed l k = record l {
  interior_free_len = (l.interior_free_len + k) % 2 ^ 32;
  taglist_len = (l.taglist_len + k) % 2 ^ 32;
  after_ilst_offset = l.after_ilst_offset + k;
}

abbrev pub passed : Parser → ℕ → Parser
passed s n = record s { offset = s.offset + boxhead_sz + n; place = freed s.place (boxhead_sz + n) }

module _ (level n : ℕ) (s : Parser) (deep : (level == 0) ≡ false) (c : s.checkforfree ≡ true)
    (p : s.processdata ≡ false) (kept : (s.place.taglist_orig_data_len == 0) ≡ false)
    (h : boxhead_sz + n < 2 ^ 32) where
  abbrev behind_head : Parser
  behind_head = record s { offset = s.offset + boxhead_sz }

  abbrev counted : Parser
  counted = record behind_head { place = freed s.place (boxhead_sz + n) }

  note_box-free : note_box (free_head n) level behind_head ≡ behind_head
  unfolding strcmp
  note_box-free = note_box-none (free_head n) level behind_head refl refl refl refl refl

  check_free-free : check_free (free_head n) level behind_head ≡ (false, counted)
  unfolding check_free strcmp
  check_free-free = rw (c, kept, deep) refl

  after_descent-free : after_descent (free_head n) counted ≡ counted
  unfolding strcmp
  after_descent-free =
      after_descent-none (free_head n) counted refl refl
      ∙ ap (λ (l : Layout). record counted { place = l }) same
    where
      same : kept_place counted.place ≡ counted.place
      same = rw kept refl

  box_data-free :
      (millis : ℕ → ℕ → ℤ) (f stop : Parser → Parsed)
      → box_data millis (free_head n) (skip_left (free_head n)) counted f stop ≡ f (passed s n)
  unfolding box_data strcmp
  box_data-free millis f stop =
      let low : n % 2 ^ 32 ≡ n = omega (arith, h) in rw (not_dumped s.dump_co, p, low) refl

  parse_box-free :
      (millis : ℕ → ℕ → ℤ) (loop : ℕ → ℕ → Parser → Parsed) (boxlen : ℕ)
      → parse_box millis loop (free_head n) boxlen level (false, counted)
        ≡ next_box loop (free_head n) boxlen level (passed s n)
  unfolding parse_box strcmp
  parse_box-free millis loop boxlen =
      let f = next_box loop (free_head n) boxlen level in
      let stop : Parser → Parsed = λ s2. Parsed.done (end_level level s2) in
      ap
        (λ (r : Parsed). and_then r (λ t.
          box_data millis (free_head n) (skip_left (free_head n)) (after_descent (free_head n) t) f
            stop))
        (descend-none loop (free_head n) level counted refl)
      ∙ ap (λ t. box_data millis (free_head n) (skip_left (free_head n)) t f stop)
          after_descent-free
      ∙ box_data-free millis f stop

  -- The round at a free box behind the list, in its container.
  pub parse_boxes-free :
      (millis : ℕ → ℕ → ℤ) (fuel boxlen : ℕ) (body tail : Bytes)
      → length body ≡ n
      → rest_of s ≡ box (boxids BoxId.free) body ++ tail
      → (boxlen == 0) ≡ false
      → parse_boxes millis (suc fuel) boxlen level s
        ≡ next_box (parse_boxes millis fuel) (free_head n) boxlen level (passed s n)
  parse_boxes-free millis fuel boxlen body tail size e nonzero =
      let (next, behind) =
        read_head-next s (boxids BoxId.free) body tail e refl (omega (arith, size, h)) in
      let head : read_head s ≡ (some (free_head n), behind_head) =
        next
        ∙ ap
            (λ (k : ℕ).
              (some (make_box (boxhead_sz + k) boxhead_sz (boxids BoxId.free)), behind_head))
            size
        ∙ ap (λ (b : Box). (some b, behind_head)) (make_box-free n h) in
      parse_boxes-head millis fuel boxlen level s behind_head behind_head (free_head n) head nonzero
        note_box-free
      ∙ ap (parse_box millis (parse_boxes millis fuel) (free_head n) boxlen level) check_free-free
      ∙ parse_box-free millis (parse_boxes millis fuel) boxlen
