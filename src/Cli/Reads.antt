-- ===== src/Cli/Reads.antt =====
-- mp4tagcli.c on a stream, and the status of a run that cannot write.
use libmp4tag.Api.Open.{openstream}
use libmp4tag.Api.Save.{Saved, write_tags}
use libmp4tag.Cli.Arguments.{Edits}
use libmp4tag.Cli.Main.{
  Job, open_job, run_changes, run_write, run_display, run_duration, run_listing, run_job, start,
  shown_tag, got_tag, when, maybe_shown, listing, report_write, wants_duration, wants_listing,
  alone,
}
use libmp4tag.Cli.World.{
  Env, World, Run, M, ◌>>=◌, ◌>>◌, pure, parsed_run, opened_run, openstream_parse, configured,
  saved_run, print,
}
use libmp4tag.Cli.{Settings}
use libmp4tag.Api.Open.{parse, mp4tag_duration}
use libmp4tag.Api.Open.{is_ok}
use libmp4tag.Cli.Show.{show_ℤ, newline}
use libmp4tag.Api.Get.{get_tag_by_name}
use libmp4tag.Api.{Got, Mp4tagpub}
use libmp4tag.CString.{Bytes}
use libmp4tag.Files.{FileSystem}
use libmp4tag.Parse.File.{Parsed}
use libmp4tag.Parse.State.{Parser}
use libmp4tag.Prelude.{
  ◌≡◌, refl, subst, ◌++◌, Bool, not, ◌&&◌, true, false, Option, none, some, if_ind, option_ind,
  arith,
}
use libmp4tag.Tags.{Mp4error}

-- The files after a run, wherever it ends, are those from before.
abbrev pub Keeps {ℓ} : {A : Type ℓ} → FileSystem → Run A → Type 0
Keeps fs (Run.value a w) = w.fs ≡ fs
Keeps fs (Run.exit status w) = w.fs ≡ fs
Keeps fs Run.fault = Unit
Keeps fs Run.endless = Unit
Keeps fs Run.unfinished = Unit

>>=-Keeps {ℓ κ} :
    {A : Type ℓ} {B : Type κ} (fs : FileSystem) (m : M A) (f : A → M B) (w : World)
    → Keeps fs (m w)
    → ((a : A) (w' : World) → w'.fs ≡ fs → Keeps fs (f a w'))
    → Keeps fs ((m >>= f) w)
>>=-Keeps {A} {B} fs m f w h k = go (m w) h
  where
    go :
        (r : Run A)
        → Keeps fs r
        → Keeps fs (elim r as (λ r'. Run B) [
          | Run.value a w' ↦ f a w'
          | Run.exit status w' ↦ Run.exit status w'
          | Run.fault ↦ Run.fault
          | Run.endless ↦ Run.endless
          | Run.unfinished ↦ Run.unfinished
        ])
    go (Run.value a w') p = k a w' p
    go (Run.exit status w') p = p
    go Run.fault p = tt
    go Run.endless p = tt
    go Run.unfinished p = tt

parsed_run-Keeps : (r : Parsed) (w : World) → Keeps w.fs (parsed_run r w)
parsed_run-Keeps (Parsed.done s) w = refl
parsed_run-Keeps Parsed.overrun w = tt
parsed_run-Keeps Parsed.endless w = tt
parsed_run-Keeps Parsed.unfinished w = tt

opened_run-Keeps :
    (env : Env) (message : Bytes) (set : Settings) (r : Option (Mp4error × Option Parser))
    (w : World)
    → Keeps w.fs (opened_run env message set r w)
opened_run-Keeps env message set none w = tt
opened_run-Keeps env message set (some (e, none)) w = refl
opened_run-Keeps env message set (some (e, some s)) w =
    parsed_run-Keeps (parse env.millis (configured set s)) w

openstream_parse-Keeps :
    (env : Env) (fname : Bytes) (set : Settings) (w : World)
    → Keeps w.fs (openstream_parse env fname set w)
unfolding openstream_parse
openstream_parse-Keeps env fname set w =
    option_ind (Keeps w.fs) (w.fs.open_read fname) (λ e. tt)
      (λ contents e. opened_run-Keeps env _ set (openstream contents) w)

when-Keeps :
    (fs : FileSystem) (b : Bool) (m : M (Unit {0})) (w : World)
    → w.fs ≡ fs
    → Keeps fs (m w)
    → Keeps fs (when b m w)
when-Keeps fs true m w e h = h
when-Keeps fs false m w e h = e

maybe_shown-Keeps : (o : Option Bytes) (w : World) → Keeps w.fs (maybe_shown o w)
maybe_shown-Keeps none w = tt
maybe_shown-Keeps (some text) w = refl

shown_tag-Keeps :
    (env : Env) (set : Settings) (p : Mp4tagpub) (w : World)
    → set.dump ≡ false
    → Keeps w.fs (shown_tag env set p w)
shown_tag-Keeps env set p w d = rw d refl

got_tag-Keeps :
    (env : Env) (set : Settings) (tagname : Bytes) (got : Got) (w : World)
    → set.dump ≡ false
    → Keeps w.fs (got_tag env set tagname got w)
got_tag-Keeps env set tagname (some p, Mp4error.ok) w d = shown_tag-Keeps env set p w d
got_tag-Keeps env set tagname got w d = refl

module _ (env : Env) (job : Job) (stream : job.set.asstream ≡ true) (d : job.set.dump ≡ false) where
  run_display-Keeps : (e : Edits) (w : World) → Keeps w.fs (run_display env job e w)
  unfolding run_display
  run_display-Keeps e w =
      if_ind (Keeps w.fs) (is_ok e.rc && job.set.display && not job.set.clean && alone env job)
        (λ k.
          let got = get_tag_by_name (some e.handle.tags) e.tagname true in
          >>=-Keeps w.fs (got_tag env job.set e.tagname got.1) _ w
            (got_tag-Keeps env job.set e.tagname got.1 w d) (λ x w' h. h))
        (λ k. refl)

  open_job-Keeps : (w : World) → Keeps w.fs (open_job env job w)
  unfolding open_job
  open_job-Keeps w =
      if_ind (Keeps w.fs) job.set.asstream (λ k. openstream_parse-Keeps env job.infname job.set w)
        (λ k. cc)

  run_changes-Keeps : (e : Edits) (w : World) → Keeps w.fs (run_changes env job e w)
  unfolding run_changes
  run_changes-Keeps e w = if_ind (Keeps w.fs) job.set.asstream (λ k. refl) (λ k. cc)

  run_write-Keeps : (e : Edits) (w : World) → Keeps w.fs (run_write env job e w)
  unfolding run_write
  run_write-Keeps e w =
      if_ind (Keeps w.fs) (is_ok e.rc && not job.set.asstream && e.write) (λ k. ground arith)
        (λ k. refl)

  run_duration-Keeps : (e : Edits) (w : World) → Keeps w.fs (run_duration env job e w)
  unfolding run_duration
  run_duration-Keeps e w =
      when-Keeps w.fs (wants_duration env job e)
        (print (show_ℤ (mp4tag_duration (some e.handle)).1 ++ newline)) w refl refl

  run_listing-Keeps : (e : Edits) (w : World) → Keeps w.fs (run_listing env job e w)
  unfolding run_listing
  run_listing-Keeps e w =
      when-Keeps w.fs (wants_listing env job e) (maybe_shown (listing e.handle)) w refl
        (maybe_shown-Keeps (listing e.handle) w)

  -- Whatever the other options and the arguments are: a run of the command line program on a stream
  -- that dumps nothing leaves every file as it was, also where it exits. Nothing is said of a run
  -- that accesses what is behind a buffer or does not end.
  pub run_job-Keeps : (w : World) → Keeps w.fs (run_job env job w)
  unfolding run_job
  run_job-Keeps w = >>=-Keeps w.fs (open_job env job) _ w (open_job-Keeps w) (λ s w1 h1.
      >>=-Keeps w.fs (run_changes env job (start env job s)) _ w1
        (subst (λ fs. Keeps fs (run_changes env job (start env job s) w1)) h1
          (run_changes-Keeps (start env job s) w1))
        (λ e2 w2 h2.
          >>=-Keeps w.fs (run_write env job e2) _ w2
            (subst (λ fs. Keeps fs (run_write env job e2 w2)) h2 (run_write-Keeps e2 w2))
            (λ e3 w3 h3.
              >>=-Keeps w.fs (run_display env job e3) _ w3
                (subst (λ fs. Keeps fs (run_display env job e3 w3)) h3 (run_display-Keeps e3 w3))
                (λ e4 w4 h4.
                  >>=-Keeps w.fs (run_duration env job e4) _ w4
                    (subst (λ fs. Keeps fs (run_duration env job e4 w4)) h4
                      (run_duration-Keeps e4 w4))
                    (λ x w5 h5.
                      >>=-Keeps w.fs (run_listing env job e4) _ w5
                        (subst (λ fs. Keeps fs (run_listing env job e4 w5)) h5
                          (run_listing-Keeps e4 w5))
                        (λ x' w6 h6. h6))))))

module _ (env : Env) (job : Job) (e : Edits) (w : World) where
  abbrev SameStatus : Run Edits → Type 0
  SameStatus (Run.value e' w') = e'.rc ≡ e.rc
  SameStatus r = Unit

  status_kept :
      (fname : Bytes) (o : Option Saved)
      → SameStatus
          ((saved_run fname o >>= (λ r. report_write r >> pure (record e { handle = r.handle }))) w)
  status_kept fname none = tt
  status_kept fname (some r) = ground arith

  -- The status that main returns does not tell whether the tags were written: it is what it was before
  -- mp4tag_write_tags.
  pub run_write-SameStatus : SameStatus (run_write env job e w)
  unfolding run_write
  run_write-SameStatus =
      if_ind SameStatus (is_ok e.rc && not job.set.asstream && e.write)
        (λ k. status_kept e.handle.place.fn (write_tags env.creates env.fresh e.handle)) (λ k. refl)
