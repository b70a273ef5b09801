-- ===== src/Api/FileTests.antt =====
-- Runs of the parser on small files.
use libmp4tag.Api.Open.{alloc, opened, mp4tag_open, parse}
use libmp4tag.Api.Parsing.{parse-mp4tag_open}
use libmp4tag.Api.Short.{parse-short_file}
use libmp4tag.Files.{FileSystem}
use libmp4tag.Api.Save.{Saved, prioritised, write_tags}
use libmp4tag.Api.Saving.{write_tags-IsConsistent, write_tags-kept}
use libmp4tag.Api.Samples.{nul, contents, one_file, millis}
use libmp4tag.CString.{codes, c_string, strcmp, starts_with}
use libmp4tag.Parse.Covr.{process_covr}
use libmp4tag.Parse.Endless.{process_covr-unfinished}
use libmp4tag.Parse.File.{Parsed, parse_file}
use libmp4tag.Parse.Ftyp.{parse_ftyp, count_brands}
use libmp4tag.Parse.Item.{read_be}
use libmp4tag.Parse.Rounds.{parse_file-ends}
use libmp4tag.Parse.State.{Parser, data_read, init_tags, set_error}
use libmp4tag.Parse.Tag.{Outcome}
use libmp4tag.Prelude.{false, none, ℕ, ◌≡◌, ◌≢◌, ◌⊎◌, refl, true, some, [], ◌∷◌, ◌++◌, arith}
use libmp4tag.Tags.Consistent.{IsConsistent}
use libmp4tag.Tags.{Mp4error, list_of}
use libmp4tag.Write.Build.{build_data, build_priorities, build_priority}
use libmp4tag.Write.Inplace.{inplace_bytes, write_inplace}
use libmp4tag.Write.Place.{zeros}
use libmp4tag.Write.Rewrite.{fits_inplace, write_data}
use libmp4tag.Write.Bytes.{be_value}

abbrev file : Parser
file =
    let s = opened one_file (λ fn. true) (codes "a") contents in
    record s { offset = 20; place = record s.place { fn = codes "a" } }

file_opens : mp4tag_open one_file (λ fn. true) (some (codes "a")) ≡ some (Mp4error.ok, some file)
unfolding mp4tag_open parse_ftyp data_read count_brands alloc init_tags strcmp c_string be_value
file_opens = refl

parse-mp4tag_open_example :
    (parse millis file ≢ Parsed.unfinished)
    × ((t : Parser) → parse millis file ≡ Parsed.done t → IsConsistent t.tags)
parse-mp4tag_open_example =
    parse-mp4tag_open millis one_file (λ fn. true) (some (codes "a")) Mp4error.ok file file_opens

parse_file-ends_example : parse_file millis 70 0 0 file ≢ Parsed.unfinished
unfolding alloc init_tags
parse_file-ends_example = parse_file-ends millis 70 0 0 file (omega arith)

abbrev two_bytes : FileSystem
two_bytes = record { stat_size = λ fn. some 2; open_read = λ fn. some (1 ∷ 2 ∷ []) }

parse-short_file_example :
    (s : Parser) × (t : Parser) × (mp4tag_open two_bytes (λ fn. true) (some (codes "a"))
      ≡ some (Mp4error.ok, some s))
    × (parse millis s ≡ Parsed.done t)
    × (t.tags.mp4error ≡ Mp4error.ok)
    × (t.tags.parsed ≡ true)
    × (list_of t.tags.tags ≡ [])
    × (t.file ≡ 1 ∷ 2 ∷ [])
    × (t.offset ≡ 2)
parse-short_file_example =
    parse-short_file two_bytes (λ fn. true) (codes "a") (1 ∷ 2 ∷ []) millis refl (omega arith)

process_covr-unfinished_example :
    process_covr 10 file.tags 8 (nul 0 ++ codes "abcd") ≡ Outcome.unfinished
unfolding read_be be_value starts_with
process_covr-unfinished_example =
    process_covr-unfinished 10 file.tags 8 (nul 0 ++ codes "abcd")
      (record { long = omega arith; zero_len = refl; not_data = refl; not_name = refl })
      (omega arith) (omega arith)

-- A file with a list of three bytes and free space behind it; its tags have been cleaned.
abbrev cleaned : Parser
cleaned = record file {
  file =
      nul 80 ++ codes "meta" ++ nul 11 ++ codes "ilst" ++ (1 ∷ 2 ∷ 3 ∷ []) ++ zeros 60 ++ (9 ∷ []);
  place = record file.place {
    filesz = 80;
    taglist_orig_data_len = 3;
    taglist_base_offset = 8;
    taglist_offset = 16;
    taglist_len = 63;
    interior_free_len = 60;
  };
  tags = record file.tags { parsed = true };
}

abbrev no_bytes : ℕ → ℕ
no_bytes n = 0

abbrev saved : Saved
saved = record {
  handle =
      record (set_error (record cleaned { tags = prioritised no_bytes cleaned.tags [] })
        Mp4error.ok) { file = inplace_bytes cleaned.place cleaned.file [] };
  backup = none;
  bak_deleted = false;
  result = Mp4error.ok;
}

empty_list_written : write_tags (λ p. true) no_bytes cleaned ≡ some saved
unfolding write_tags build_data build_priorities build_priority write_data fits_inplace
    write_inplace alloc init_tags
empty_list_written = refl

cleaned-IsConsistent : IsConsistent cleaned.tags
unfolding alloc init_tags
cleaned-IsConsistent = record {
  ident = refl;
  tags = record { sorted = tt; numbered = tt };
  room = omega arith;
  no_array = λ e. refl;
}

write_tags-IsConsistent_example : IsConsistent saved.handle.tags
write_tags-IsConsistent_example =
    write_tags-IsConsistent (λ p. true) no_bytes cleaned saved cleaned-IsConsistent
      empty_list_written

write_tags-kept_example :
    (inplace_bytes cleaned.place cleaned.file [] ≡ cleaned.file)
    ⊎ ((Mp4error.ok ≡ Mp4error.ok) ⊎ (Mp4error.ok ≡ Mp4error.err_file_read_error))
write_tags-kept_example = write_tags-kept (λ p. true) no_bytes cleaned saved refl empty_list_written
