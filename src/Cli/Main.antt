-- ===== src/Cli/Main.antt =====
-- main of mp4tagcli.c behind its options.
use libmp4tag.Api.Edit.{clean_tags}
use libmp4tag.Api.Get.{get_tag_by_name, iterate_init, iterate}
use libmp4tag.Api.Messages.{mp4tag_error_str}
use libmp4tag.Api.Open.{is_ok, mp4tag_duration}
use libmp4tag.Api.Preserve.{preserve_tags, restore_tags}
use libmp4tag.Api.Save.{Saved, write_tags, mp4tag_error}
use libmp4tag.Api.{Handle, Got, Mp4tagpub}
use libmp4tag.Cli.Arguments.{Edits, with_handle, run_arguments}
use libmp4tag.Cli.Show.{newline, show_ℤ, display_tag}
use libmp4tag.Cli.World.{
  Env, Run, M, ◌>>=◌, ◌>>◌, pure, print, print_error, quit, store, open_parse, openstream_parse,
  saved_run,
}
use libmp4tag.Cli.{Settings, Getopt, defaults, run_options}
use libmp4tag.CString.{Bytes, codes}
use libmp4tag.Parse.State.{Parser}
use mathlib.Core.Option
use libmp4tag.Prelude.{
  ℕ, zero, suc, Bool, true, false, not, ◌&&◌, Option, none, some, List, [], ◌++◌, take, drop,
  get_elem?, if◌then◌else◌,
}
use libmp4tag.Tags.{Mp4error, tagcount}

-- What the options and the arguments have made of the variables. `files` are the arguments behind the
-- file.
pub record Job : Type 0 where
  pub set : Settings
  pub infname : Bytes
  pub copyto : Option Bytes
  pub preservecmd : Option Bytes
  pub args : List Bytes

abbrev pub is_some {ℓ} : {A : Type ℓ} → Option A → Bool
is_some none = false
is_some (some x) = true

abbrev pub named_job : List Bytes → ℕ → Settings → Option Bytes → M Job
named_job argv optind set none = print_error (codes "no file specified" ++ newline) >> quit 1
named_job argv optind set (some infname) = pure (record {
  set = set;
  infname = infname;
  copyto = none;
  preservecmd = set.preservecmd;
  args = drop (suc optind) argv;
})

abbrev pub from_argument : List Bytes → ℕ → Settings → M Job
from_argument argv optind set = named_job argv optind set (get_elem? argv optind)

-- The file is the first argument behind the options, but for a copy.
unfoldable pub make_job : List Bytes → ℕ → Settings → M Job
make_job argv optind set = elim set.infname [
  | none ↦ from_argument argv optind set
  | some infname ↦ elim set.copyto [
    | none ↦ from_argument argv optind set
    | some copyto ↦ pure (record {
      set = set;
      infname = infname;
      copyto = some copyto;
      preservecmd = set.preservecmd;
      args = [];
    })
  ]
]

abbrev pub copies : Job → Bool
copies job = is_some job.copyto

abbrev pub preserves : Job → Bool
preserves job = is_some job.preservecmd

-- The tags of a file are put in place of those of another, or of the same one as it is now.
unfoldable pub moved_tags : Parser → Parser → Parser × Mp4error
moved_tags from to =
    let kept = (preserve_tags (some from.tags)).1 in
    let (h, rc) = restore_tags (some to.tags) kept in (with_handle to h, rc)

abbrev pub restored : Edits → Parser × Mp4error → Edits
restored e (s, rc) = record e { handle = s; write = true; rc = rc }

abbrev pub show_next : Got → Option Bytes → Option Bytes
show_next (some p, Mp4error.ok) rest = Option.map (λ text. display_tag p ++ text) rest
show_next g rest = some []

-- The loop over mp4tag_iterate, with fuel for each call; `none` means that it ran out.
unfoldable pub show_tags : ℕ → Handle → Option Bytes
show_tags zero h = none
show_tags (suc n) h =
    let (h', got) = iterate h true in let rest = show_tags n h' in show_next got rest

-- What is printed of a file where nothing else is asked for.
unfoldable pub listing : Parser → Option Bytes
unfolding show_tags
listing s =
    let (h, duration) = mp4tag_duration (some s) in
    let shown = show_tags (suc (tagcount s.tags)) (iterate_init (Option.map (λ t. t.tags) h)).0 in
    Option.map (λ text. codes "duration=" ++ (show_ℤ duration ++ (newline ++ text))) shown

abbrev pub maybe_shown : Option Bytes → M (Unit {0})
maybe_shown none w = Run.unfinished
maybe_shown (some text) w = print text w

-- The calls of a run, of which each is made under its conditions.
abbrev pub when : Bool → M (Unit {0}) → M (Unit {0})
when true m w = m w
when false m w = Run.value tt w

abbrev pub after_clean : Edits → Handle × Mp4error → M Edits
after_clean e (h, Mp4error.ok) w =
    Run.value (record e { handle = with_handle e.handle h; write = true }) w
after_clean e (h, rc) w =
    (do
      let s = with_handle e.handle h
      print_error
          (codes "Unable to clean tags (" ++ (mp4tag_error_str (some s) ++ (codes ")" ++ newline)))
      pure (record e { handle = s; write = true; rc = mp4tag_error (some s) }))
      w

abbrev pub report_write : Saved → M (Unit {0})
report_write r = when (not (is_ok r.result)) (
    print_error (
      codes "Unable to write tags ("
      ++ (mp4tag_error_str (some r.handle) ++ (codes ")" ++ newline))))

abbrev pub bytes_of : Option Bytes → Bytes
bytes_of none = []
bytes_of (some bytes) = bytes

-- A file that cannot be created is passed over.
abbrev pub dump_to : Env → Option Bytes → Mp4tagpub → M (Unit {0})
dump_to env none p w = Run.fault
dump_to env (some fn) p w = when (env.creates fn) (store fn (take p.datalen (bytes_of p.value))) w

abbrev pub shown_tag : Env → Settings → Mp4tagpub → M (Unit {0})
shown_tag env set p w =
    if not set.dump
    then print (display_tag p) w
    else when (p.binary && is_some p.tag) (dump_to env set.dumpfn p) w

abbrev pub got_tag : Env → Settings → Bytes → Got → M (Unit {0})
got_tag env set tagname (some p, Mp4error.ok) w = shown_tag env set p w
got_tag env set tagname got w = print (tagname ++ (codes " not found" ++ newline)) w

module _ (env : Env) (job : Job) where
  abbrev pub alone : Bool
  alone = not (copies job) && not (preserves job)

  unfoldable pub open_job : M Parser
  unfolding open_parse openstream_parse
  open_job w =
      if job.set.asstream
      then openstream_parse env job.infname job.set w
      else open_parse env job.infname job.set w

  abbrev pub run_preserve : Edits → M Edits
  run_preserve e w = elim job.preservecmd [
    | none ↦ Run.value e w
    | some cmd ↦
        (open_parse env job.infname job.set >>= (λ s. pure (restored e (moved_tags e.handle s))))
          (record w { fs = env.system cmd w.fs })
  ]

  -- The result of the call is not looked at.
  abbrev pub run_copy : Edits → M Edits
  run_copy e w = elim job.copyto [
    | none ↦ Run.value e w
    | some copyto ↦
        (open_parse env copyto job.set
            >>= (λ s. pure (record (restored e (moved_tags e.handle s)) { rc = e.rc })))
          w
  ]

  abbrev pub run_clean : Edits → M Edits
  run_clean e w =
      if job.set.clean && alone then after_clean e (clean_tags (some e.handle.tags)) w else pure e w

  abbrev pub run_edits : Edits → M Edits
  run_edits e w =
      if is_ok e.rc && not job.set.clean && alone
      then pure (run_arguments w.fs job.set e job.args) w
      else pure e w

  -- What changes the tags.
  unfoldable pub run_changes : Edits → M Edits
  unfolding open_parse moved_tags
  run_changes e w =
      if job.set.asstream
      then pure e w
      else (do
        e1 ← run_preserve e
        e2 ← run_copy e1
        e3 ← run_clean e2
        e4 ← run_edits e3
        print_error e4.errors
        pure e4)
          w

  -- The status of the program does not tell of an error here.
  unfoldable pub run_write : Edits → M Edits
  run_write e w =
      if is_ok e.rc && not job.set.asstream && e.write
      then (do
        r ← saved_run e.handle.place.fn (write_tags env.creates env.fresh e.handle)
        report_write r
        pure (record e { handle = r.handle }))
          w
      else pure e w

  unfoldable pub run_display : Edits → M Edits
  run_display e w =
      if is_ok e.rc && job.set.display && not job.set.clean && alone
      then (let (h, got) = get_tag_by_name (some e.handle.tags) e.tagname true in
          (got_tag env job.set e.tagname got >> pure (record e { handle = with_handle e.handle h }))
            w)
      else pure e w

  abbrev pub wants_duration : Edits → Bool
  wants_duration e = is_ok e.rc && not e.write && job.set.duration && not (preserves job)

  unfoldable pub run_duration : Edits → M (Unit {0})
  run_duration e =
      when (wants_duration e) (print (show_ℤ (mp4tag_duration (some e.handle)).1 ++ newline))

  abbrev pub wants_listing : Edits → Bool
  wants_listing e =
      is_ok e.rc
      && not e.write
      && not job.set.display
      && not job.set.duration
      && not job.set.clean
      && not (preserves job)

  unfoldable pub run_listing : Edits → M (Unit {0})
  unfolding listing
  run_listing e = when (wants_listing e) (maybe_shown (listing e.handle))

  abbrev pub start : Parser → Edits
  start s = record {
    handle = s;
    tagname = job.set.tagname;
    write = false;
    rc = Mp4error.ok;
    errors = [];
  }

  unfoldable pub run_job : M Mp4error
  unfolding open_job run_changes run_write run_display run_duration run_listing
  run_job w =
      (do
        s ← open_job
        e1 ← run_changes (start s)
        e2 ← run_write e1
        e3 ← run_display e2
        run_duration e3
        run_listing e3
        pure e3.rc)
        w

abbrev pub optioned : Env → List Bytes → ℕ → Option Settings → M Mp4error
optioned env argv optind none w =
    (print (codes "mp4tagcli: version " ++ (env.version ++ newline)) >> quit 0) w
optioned env argv optind (some set) w = (make_job argv optind set >>= (λ job. run_job env job)) w

-- With the options that getopt returns, and optind behind them.
unfoldable pub main : Env → List Bytes → List Getopt → ℕ → M Mp4error
unfolding make_job run_job run_options
main env argv options optind = optioned env argv optind (run_options argv options defaults)
