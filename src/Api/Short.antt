-- ===== src/Api/Short.antt =====
-- mp4tag_open and mp4tag_parse of libmp4tag.c on a file that is too short for a box.
use libmp4tag.Api.Open.{
  alloc, opened, with_fn, mp4tag_open, set_parsed, repaired, parse_all, finish_parse, parse,
}
use libmp4tag.CString.{Bytes}
use libmp4tag.Const.{boxhead_sz}
use libmp4tag.Files.{FileSystem}
use libmp4tag.Parse.Boxes.{read_head, box_of_head, start_rem, note_box, check_free, end_level}
use libmp4tag.Parse.File.{
  Parsed, and_then, when_box, parse_box, parse_file, parse_boxes, enter_level,
}
use libmp4tag.Parse.Ftyp.{parse_ftyp, parse_ftyp-short}
use libmp4tag.Parse.ListBox.{not_dumped}
use libmp4tag.Parse.State.{Parser, put, rest_of, init_tags, data_read}
use libmp4tag.Prelude.{
  ℕ, suc, ◌+◌, ◌<◌, ◌≡◌, refl, ap, ◌∙◌, Option, Bool, if◌then◌else◌, true, none, some, [], ◌∷◌,
  length, drop, arith,
}
use libmp4tag.Prelude.Int.{ℤ, pos, neg, ◌+ℤ◌}
use libmp4tag.Tags.Find.{sort_tags}
use libmp4tag.Tags.{Mp4error, list_of}
use mathlib.Core.Option

drop-all : (xs : Bytes) → drop (length xs) xs ≡ []
drop-all [] = refl
drop-all (x ∷ xs) = drop-all xs

data_read-end :
    (s : Parser)
    → rest_of s ≡ []
    → data_read s boxhead_sz ≡ (none, record s { offset = s.offset + 0 })
unfolding data_read
data_read-end s e = rw (data_read, e) refl

-- The outermost level ends where the file does.
parse_boxes-end :
    (millis : ℕ → ℕ → ℤ) (fuel boxlen level : ℕ) (s : Parser)
    → rest_of s ≡ []
    → parse_boxes millis (suc fuel) boxlen level s
      ≡ Parsed.done (end_level level (record s { offset = s.offset + 0 }))
unfolding parse_boxes read_head
parse_boxes-end millis fuel boxlen level s e =
    ap
      (λ r.
        when_box (box_of_head r)
          (λ b s1.
            parse_box millis (parse_boxes millis fuel) b boxlen level
              (check_free b level (note_box b level (start_rem boxlen b level s1))))
          (λ s1. Parsed.done (end_level level s1)))
      (data_read-end s e)

module _ (fs : FileSystem) (writable : Bytes → Bool) (fn contents : Bytes) where
  -- The structure behind mp4tag_open, at the end of the file.
  abbrev pub at_end : Parser
  at_end =
      let s = opened fs writable fn contents in
      record s { offset = length contents; place = record s.place { fn = fn } }

  mp4tag_open-short :
      fs.open_read fn ≡ some contents
      → length contents < boxhead_sz
      → mp4tag_open fs writable (some fn) ≡ some (Mp4error.ok, some at_end)
  unfolding mp4tag_open alloc init_tags
  mp4tag_open-short there short =
      ap
        (λ (r : Option Bytes). elim r [
          | none ↦ some (Mp4error.err_file_not_found, none)
          | some c ↦ Option.map (with_fn fn) (parse_ftyp (opened fs writable fn c))
        ])
        there
      ∙ ap (Option.map (with_fn fn)) (parse_ftyp-short (opened fs writable fn contents) short)
      ∙ ap (λ n. some (Mp4error.ok, some (record at_end { offset = n }))) (omega arith)

  parse-short :
      (millis : ℕ → ℕ → ℤ)
      → (t : Parser) × (parse millis at_end ≡ Parsed.done t)
        × (t.tags.mp4error ≡ Mp4error.ok)
        × (t.tags.parsed ≡ true)
        × (list_of t.tags.tags ≡ [])
        × (t.file ≡ contents)
        × (t.offset ≡ length contents)
  unfolding parse parse_file enter_level end_level finish_parse alloc init_tags sort_tags
  parse-short millis =
      let s1 : Parser = record at_end {
        rem_length = put at_end.rem_length 0 (pos 0 +ℤ neg (pos boxhead_sz));
      } in
      let run = parse_boxes-end millis (length contents) 0 0 s1 (drop-all contents) in
      let last = end_level 0 (record s1 { offset = length contents + 0 }) in
      let finish : finish_parse millis (length contents) last ≡ Parsed.done (set_parsed last) =
        ap
          (λ (b : Bool).
            if b
            then and_then (parse_all millis (repaired last (length contents)))
                (λ t. Parsed.done (set_parsed t))
            else Parsed.done (set_parsed last))
          (not_dumped (writable fn)) in
      (
        set_parsed last,
        ap (λ r. and_then r (finish_parse millis (length contents))) run ∙ finish,
        refl,
        refl,
        refl,
        refl,
        omega arith,
      )

  -- A file that can be read and has less than eight bytes passes for an MP4 file without tags:
  -- mp4tag_open gives a structure for it and MP4TAG_OK, and mp4tag_parse ends, for that structure,
  -- with no error, as parsed, with no tags, the file as it was and the position at its end.
  pub parse-short_file :
      (millis : ℕ → ℕ → ℤ)
      → fs.open_read fn ≡ some contents
      → length contents < boxhead_sz
      → (s : Parser) × (t : Parser) × (mp4tag_open fs writable (some fn)
          ≡ some (Mp4error.ok, some s))
        × (parse millis s ≡ Parsed.done t)
        × (t.tags.mp4error ≡ Mp4error.ok)
        × (t.tags.parsed ≡ true)
        × (list_of t.tags.tags ≡ [])
        × (t.file ≡ contents)
        × (t.offset ≡ length contents)
  parse-short_file millis there short =
      let (t, run, ok, parsed, none_read, file, at) = parse-short millis in
      (at_end, t, mp4tag_open-short there short, run, ok, parsed, none_read, file, at)
