-- ===== src/Parse/File.antt =====
-- mp4tag_parse_file of mp4tagparse.c: the loop over the boxes of a level, and the levels in it.
use libmp4tag.CString.{Bytes}
use libmp4tag.Const.{BoxId, boxhead_sz, level_max}
use libmp4tag.Parse.Boxes.{
  Box, is_box, descends, skip_len, needs_data, read_head, start_rem, note_box, check_free,
  store_base, after_descent, end_box, level_done, leave_level, end_level,
}
use libmp4tag.Parse.Covr.{process_covr}
use libmp4tag.Parse.Mdhd.{process_mdhd}
use libmp4tag.Parse.State.{Parser, put, set_error, data_read, data_seek}
use libmp4tag.Parse.Tag.{Outcome, process_tag}
use libmp4tag.Prelude.{
  ℕ, zero, suc, ◌+◌, ◌-◌, ◌%◌, ◌^◌, Bool, true, false, not, ◌&&◌, Option, none, some, length, leb,
  ◌==◌, if◌then◌else◌,
}
use libmp4tag.Prelude.Int.{ℤ, pos, neg, ◌+ℤ◌}
use libmp4tag.Tags.{Mp4error}

-- A parse ends; or it reads behind a box's data; or the loop over a cover does not end; or the fuel is
-- used up.
pub data Parsed : Type 0 where
  done : Parser → Parsed
  overrun : Parsed
  endless : Parsed
  unfinished : Parsed

abbrev pub and_then : Parsed → (Parser → Parsed) → Parsed
and_then (Parsed.done s) f = f s
and_then Parsed.overrun f = Parsed.overrun
and_then Parsed.endless f = Parsed.endless
and_then Parsed.unfinished f = Parsed.unfinished

abbrev pub with_tags : Parser → Outcome → Parsed
with_tags s (Outcome.done l) = Parsed.done (record s { tags = l })
with_tags s Outcome.overrun = Parsed.overrun
with_tags s Outcome.unfinished = Parsed.endless

abbrev pub process_list : Box → Bytes → Parser → Parsed
process_list b bytes s =
    if s.processdata
    then if is_box b BoxId.covr
      then with_tags s (process_covr (suc (length bytes)) s.tags (b.len % 2 ^ 32) bytes)
      else with_tags s (process_tag s.tags b.nm (b.len % 2 ^ 32) bytes)
    else Parsed.done s

-- The data of a box.
unfoldable pub process_box : (ℕ → ℕ → ℤ) → Box → Bytes → Parser → Parsed
process_box millis b bytes s =
    if is_box b BoxId.mdhd
    then elim (process_mdhd millis s bytes) [
      | none ↦ Parsed.overrun
      | some s' ↦ process_list b bytes s'
    ]
    else process_list b bytes s

-- What follows a read: `f` with what was read, `stop` where there was not as much.
abbrev pub when_read :
    Option Bytes × Parser → (Bytes → Parser → Parsed) → (Parser → Parsed) → Parsed
when_read (none, s) f stop = stop s
when_read (some bytes, s) f stop = f bytes s

-- The data of a box is read and processed, or passed over.
unfoldable pub box_data :
    (ℕ → ℕ → ℤ) → Box → ℕ → Parser → (Parser → Parsed) → (Parser → Parsed) → Parsed
box_data millis b skiplen s f stop =
    if needs_data b s && not (b.len == 0)
    then when_read (data_read s b.len) (λ bytes s'. and_then (process_box millis b bytes s') f) stop
    else f (if needs_data b s then s else data_seek s skiplen)

-- A call for another level.
unfoldable pub enter_level : (ℕ → ℕ → Parser → Parsed) → ℕ → ℕ → Parser → Parsed
enter_level loop boxlen level s =
    if leb level_max level
    then Parsed.done (set_error s Mp4error.err_unable_to_process)
    else if s.parsedone
    then Parsed.done s
    else loop boxlen level
        (record s { rem_length = put s.rem_length level (pos boxlen +ℤ neg (pos boxhead_sz)) })

-- The boxes in a container.
unfoldable pub descend : (ℕ → ℕ → Parser → Parsed) → Box → ℕ → Parser → Parsed
descend loop b level s =
    if descends b && not (b.len == 0)
    then enter_level loop ((b.boxlen + (2 ^ 64 - skip_len b)) % 2 ^ 32) (level + 1)
        (data_seek (store_base b level s) (skip_len b))
    else Parsed.done s

abbrev pub skip_left : Box → ℕ
skip_left b = if descends b && not (b.len == 0) then 0 else skip_len b

-- The end of a round.
unfoldable pub next_box : (ℕ → ℕ → Parser → Parsed) → Box → ℕ → ℕ → Parser → Parsed
next_box loop b boxlen level s = elim (level_done boxlen level (end_box b level s)) [
  | true ↦ Parsed.done (leave_level b level (end_box b level s))
  | false ↦ loop boxlen level (end_box b level s)
]

-- A round behind the box's head.
unfoldable pub parse_box :
    (ℕ → ℕ → ℤ) → (ℕ → ℕ → Parser → Parsed) → Box → ℕ → ℕ → Bool × Parser → Parsed
parse_box millis loop b boxlen level (true, s) = Parsed.done (end_level level s)
parse_box millis loop b boxlen level (false, s) = and_then (descend loop b level s) (λ s1.
    box_data millis b (skip_left b) (after_descent b s1) (next_box loop b boxlen level)
      (λ s2. Parsed.done (end_level level s2)))

-- What follows the head of a box.
abbrev pub when_box : Option Box × Parser → (Box → Parser → Parsed) → (Parser → Parsed) → Parsed
when_box (none, s) f stop = stop s
when_box (some b, s) f stop = f b s

unfoldable pub parse_boxes : (ℕ → ℕ → ℤ) → ℕ → ℕ → ℕ → Parser → Parsed
parse_boxes millis zero boxlen level s = Parsed.unfinished
parse_boxes millis (suc fuel) boxlen level s =
    when_box (read_head s)
      (λ b s1.
        parse_box millis (parse_boxes millis fuel) b boxlen level
          (check_free b level (note_box b level (start_rem boxlen b level s1))))
      (λ s1. Parsed.done (end_level level s1))

unfoldable pub parse_file : (ℕ → ℕ → ℤ) → ℕ → ℕ → ℕ → Parser → Parsed
parse_file millis fuel boxlen level s = enter_level (parse_boxes millis fuel) boxlen level s
