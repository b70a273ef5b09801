-- ===== src/Cli/Ends.antt =====
-- main of mp4tagcli.c as a whole: its loops end, and the tags that it works on are consistent.
use libmp4tag.Cli.Arguments.{Edits}
use libmp4tag.Cli.Consistent.{
  Ensures, >>=-Ensures, Holds, open_parse-Ensures, openstream_parse-Ensures,
}
use libmp4tag.Cli.Main.{
  Job, open_job, run_changes, run_write, run_display, run_duration, run_listing, run_job, start,
  make_job, named_job, from_argument, main, optioned,
}
use libmp4tag.Cli.Stages.{
  Any, run_write-Ensures, run_display-Ensures, run_duration-Ensures, run_listing-Ensures,
}
use libmp4tag.Cli.Runs.{EditsOk, run_changes-Ensures}
use libmp4tag.Cli.World.{Env, World, Run, M, ◌>>=◌}
use libmp4tag.Cli.{Settings, Getopt, run_options, defaults}
use libmp4tag.CString.{Bytes}
use libmp4tag.Prelude.{get_elem?, ℕ, ◌≡◌, ◌≢◌, subst, Option, none, some, List, if_ind, option_ind}
use libmp4tag.Tags.Consistent.{IsConsistent}
use libmp4tag.Tags.{Mp4error}

module _ (env : Env) (job : Job) where
  open_job-Ensures : (w : World) → Ensures Holds (open_job env job w)
  unfolding open_job
  open_job-Ensures w =
      if_ind (Ensures Holds) job.set.asstream
        (λ k. openstream_parse-Ensures env job.set job.infname w)
        (λ k. open_parse-Ensures env job.set job.infname w)

  changed-Ensures :
      (w : World)
      → Ensures EditsOk ((open_job env job >>= (λ s. run_changes env job (start env job s))) w)
  changed-Ensures w =
      >>=-Ensures Holds EditsOk (open_job env job) (λ s. run_changes env job (start env job s)) w
        (open_job-Ensures w) (λ s w' c. run_changes-Ensures env job (start env job s) w' c)

  -- For every job of the command line program: if it gets as far as the tags are to be written,
  -- after it has opened and parsed the file and made its changes (the preserved tags, the copy, the
  -- cleaning, or the arguments), then its structure is consistent: the list is sorted by name and
  -- index, each tag holds its position, and the array has room for the list.
  pub run_changes-IsConsistent :
      (w w' : World) (e : Edits)
      → (open_job env job >>= (λ s. run_changes env job (start env job s))) w ≡ Run.value e w'
      → IsConsistent e.handle.tags
  run_changes-IsConsistent w w' e h = subst (Ensures EditsOk) h (changed-Ensures w)

  run_job-Ensures : (w : World) → Ensures Any (run_job env job w)
  unfolding run_job
  run_job-Ensures w = >>=-Ensures Holds Any (open_job env job) _ w (open_job-Ensures w) (λ s w1 c1.
      >>=-Ensures EditsOk Any (run_changes env job (start env job s)) _ w1
        (run_changes-Ensures env job (start env job s) w1 c1)
        (λ e2 w2 c2.
          >>=-Ensures EditsOk Any (run_write env job e2) _ w2 (run_write-Ensures env job e2 w2 c2)
            (λ e3 w3 c3.
              >>=-Ensures EditsOk Any (run_display env job e3) _ w3
                (run_display-Ensures env job e3 w3 c3)
                (λ e4 w4 c4.
                  >>=-Ensures Any Any (run_duration env job e4) _ w4
                    (run_duration-Ensures env job e4 w4)
                    (λ x w5 y.
                      >>=-Ensures Any Any (run_listing env job e4) _ w5
                        (run_listing-Ensures env job e4 w5 c4) (λ x' w6 y'. tt))))))

named_job-Ensures :
    (argv : List Bytes) (optind : ℕ) (set : Settings) (o : Option Bytes) (w : World)
    → Ensures Any (named_job argv optind set o w)
named_job-Ensures argv optind set none w = tt
named_job-Ensures argv optind set (some infname) w = tt

from_argument-Ensures :
    (argv : List Bytes) (optind : ℕ) (set : Settings) (w : World)
    → Ensures Any (from_argument argv optind set w)
from_argument-Ensures argv optind set w =
    named_job-Ensures argv optind set (get_elem? argv optind) w

make_job-Ensures :
    (argv : List Bytes) (optind : ℕ) (set : Settings) (w : World)
    → Ensures Any (make_job argv optind set w)
unfolding make_job
make_job-Ensures argv optind set w =
    option_ind (λ (m : M Job). Ensures Any (m w)) set.infname
      (λ e. from_argument-Ensures argv optind set w)
      (λ infname e.
        option_ind (λ (m : M Job). Ensures Any (m w)) set.copyto
          (λ k. from_argument-Ensures argv optind set w) (λ copyto k. tt))

optioned-Ensures :
    (env : Env) (argv : List Bytes) (optind : ℕ) (o : Option Settings) (w : World)
    → Ensures Any (optioned env argv optind o w)
optioned-Ensures env argv optind none w = tt
optioned-Ensures env argv optind (some set) w =
    >>=-Ensures Any Any (make_job argv optind set) (λ job. run_job env job) w
      (make_job-Ensures argv optind set w) (λ job w' k. run_job-Ensures env job w')

Ensures-ne-unfinished : (r : Run Mp4error) → Ensures Any r → r ≢ Run.unfinished
Ensures-ne-unfinished r h e = subst (Ensures Any) e h

-- Whatever the arguments, the options that getopt finds in them, and the files are, the command line
-- program does not run out of its fuel: it ends with a status, or it exits, or it accesses what is
-- behind a buffer, or it stays in the loop over a cover.
pub main_ends :
    (env : Env) (argv : List Bytes) (options : List Getopt) (optind : ℕ) (w : World)
    → main env argv options optind w ≢ Run.unfinished
unfolding main
main_ends env argv options optind w =
    Ensures-ne-unfinished (main env argv options optind w)
      (optioned-Ensures env argv optind (run_options argv options defaults) w)
