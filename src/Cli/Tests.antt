-- ===== src/Cli/Tests.antt =====
-- Runs of the command line program on a small file.
use libmp4tag.Api.Get.{get_tag_by_name}
use libmp4tag.Api.Open.{alloc, mp4tag_open, parse}
use libmp4tag.Api.Samples.{
  contents, one_file, millis, title, titled, titled-IsConsistent, nam_def, nam-IsTextTag,
  title_found, no_files, parsed_file,
}
use libmp4tag.Api.{Mp4tagpub}
use libmp4tag.Cli.Arguments.{Edits, run_argument}
use libmp4tag.Cli.Edits.{IsWord, run_argument-cut, run_argument-display_tag}
use libmp4tag.Cli.Ends.{run_changes-IsConsistent, main_ends}
use libmp4tag.Cli.Listing.{listing_lem, tag_lines}
use libmp4tag.Cli.Main.{Job, listing, main, run_job, open_job, run_changes, start}
use libmp4tag.Cli.Reads.{Keeps, run_job-Keeps}
use libmp4tag.Cli.Show.{newline, show_ℤ, label, display_tag}
use libmp4tag.Cli.World.{Env, World, Run, ◌>>=◌}
use libmp4tag.Cli.{defaults, set_tag_name, id_max}
use libmp4tag.Const.{copyright}
use libmp4tag.CString.{codes, strcmp}
use libmp4tag.Api.Open.{finish_parse}
use libmp4tag.Api.Save.{set_option}
use libmp4tag.Tags.Find.{sort_tags}
use libmp4tag.Parse.Boxes.{read_head, end_level}
use libmp4tag.Parse.File.{parse_file, enter_level, parse_boxes}
use libmp4tag.Parse.Ftyp.{parse_ftyp}
use libmp4tag.Parse.State.{data_read, Parser, init_tags}
use libmp4tag.Prelude.{◌≡◌, ◌≢◌, refl, true, false, none, some, [], ◌∷◌, ◌++◌}
use libmp4tag.Prelude.Int.{pos}
use libmp4tag.Tags.Consistent.{IsConsistent}
use libmp4tag.Tags.{Mp4error}

abbrev env : Env
env = record {
  millis = millis;
  writable = λ fn. true;
  creates = λ fn. true;
  fresh = λ n. 0;
  system = λ cmd fs. fs;
  version = codes "2.0.0";
}

abbrev world : World
world = record { fs = one_file; out = []; errors = [] }

-- The file of the samples, parsed, with another list.
abbrev with_title : Parser
with_title = record alloc { file = contents; tags = titled }

abbrev edits : Edits
edits = record { handle = with_title; tagname = []; write = false; rc = Mp4error.ok; errors = [] }

nam_name : set_tag_name (codes "nam") id_max ≡ copyright "nam"
unfolding set_tag_name strcmp
nam_name = refl

nam-IsWord : IsWord (codes "nam")
nam-IsWord = record {
  first = b'n';
  others = codes "am";
  bytes = refl;
  lacks = (refl, (refl, (refl, tt)));
}

other-IsWord : IsWord (codes "New")
other-IsWord = record {
  first = b'N';
  others = codes "ew";
  bytes = refl;
  lacks = (refl, (refl, (refl, tt)));
}

run_argument-cut_example :
    run_argument no_files defaults edits (codes "nam=New=Old")
    ≡ run_argument no_files defaults edits (codes "nam=New")
run_argument-cut_example =
    run_argument-cut no_files defaults edits (codes "nam") nam-IsWord (codes "New") (codes "Old")
      other-IsWord

run_argument-display_tag_example :
    let e' = run_argument no_files defaults edits (codes "nam=New") in
    (e'.write ≡ true)
    × (e'.rc ≡ Mp4error.ok)
    × ((p : Mp4tagpub) × ((get_tag_by_name (some e'.handle.tags) e'.tagname true).1
          ≡ (some p, Mp4error.ok))
        × (display_tag p
            ≡ label (copyright "nam") (pos 0) ++ (codes "=" ++ (codes "New" ++ newline))))
unfolding set_tag_name strcmp
run_argument-display_tag_example =
    run_argument-display_tag no_files defaults edits (codes "nam") (codes "New") nam-IsWord
      other-IsWord nam_def titled-IsConsistent refl nam-IsTextTag title_found refl refl
      (refl, (refl, (refl, tt))) refl refl

listing_lem_example :
    listing with_title
    ≡ some (codes "duration=" ++ (show_ℤ (pos 0) ++ (newline ++ tag_lines (title ∷ []))))
unfolding alloc init_tags
listing_lem_example = listing_lem with_title (title ∷ []) refl refl refl

abbrev without_title : Parser
without_title = record alloc { file = contents; tags = parsed_file }

abbrev job : Job
job = record { set = defaults; infname = codes "a"; copyto = none; preservecmd = none; args = [] }

abbrev stream_job : Job
stream_job = record job { set = record defaults { asstream = true } }

main_ends_example :
    main env (codes "mp4tagcli" ∷ codes "a" ∷ codes "nam=New" ∷ []) [] 1 world ≢ Run.unfinished
main_ends_example = main_ends env (codes "mp4tagcli" ∷ codes "a" ∷ codes "nam=New" ∷ []) [] 1 world

run_job-Keeps_example : Keeps one_file (run_job env stream_job world)
run_job-Keeps_example = run_job-Keeps env stream_job refl refl world

-- A file that is empty, which mp4tag_open takes, and a title for it.
abbrev empty_world : World
empty_world = record {
  fs = record { stat_size = λ fn. some 0; open_read = λ fn. some [] };
  out = [];
  errors = [];
}

abbrev arg_job : Job
arg_job = record job { args = codes "nam=New" ∷ [] }

abbrev changed : Run Edits
changed =
    (open_job env arg_job >>= (λ s. run_changes env arg_job (start env arg_job s))) empty_world

abbrev edits_of : Run Edits → Edits
edits_of (Run.value e w) = e
edits_of r = edits

abbrev world_of : Run Edits → World
world_of (Run.value e w) = w
world_of r = world

changed_value : changed ≡ Run.value (edits_of changed) (world_of changed)
unfolding open_job run_changes mp4tag_open parse_ftyp data_read alloc parse parse_file enter_level
    parse_boxes read_head end_level set_option finish_parse sort_tags
changed_value = refl

run_changes-IsConsistent_example : IsConsistent (edits_of changed).handle.tags
run_changes-IsConsistent_example =
    run_changes-IsConsistent env arg_job empty_world (world_of changed) (edits_of changed)
      changed_value
