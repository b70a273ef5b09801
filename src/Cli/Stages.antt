-- ===== src/Cli/Stages.antt =====
-- The last stages of main of mp4tagcli.c: writing, and what is printed.
use libmp4tag.Api.Get.{get_tag_by_name, iterate_init, iterate, iterate_known}
use libmp4tag.Api.Handles.{get_tag_by_name-HandleOk}
use libmp4tag.Api.Open.{mp4tag_duration}
use libmp4tag.Api.Save.{Saved, write_tags}
use libmp4tag.Api.Saving.{write_tags-IsConsistent}
use libmp4tag.Api.{Handle, Got, Mp4tagpub}
use libmp4tag.Cli.Arguments.{Edits, with_handle}
use libmp4tag.Cli.Consistent.{Ensures, >>=-Ensures, with_handle-Holds}
use libmp4tag.Cli.Listing.{listing_lem, duration_lem}
use libmp4tag.Api.Open.{is_ok}
use libmp4tag.Cli.Show.{newline, show_ℤ}
use mathlib.Core.Option
use mathlib.Core.Option.{some-ne-none}
use libmp4tag.Cli.Main.{
  show_tags, Job, listing, run_write, run_display, run_duration, run_listing, got_tag, shown_tag,
  dump_to, report_write, when, maybe_shown, wants_duration, wants_listing, is_some, alone, bytes_of,
}
use libmp4tag.Cli.Runs.{EditsOk}
use libmp4tag.Cli.World.{
  Env, World, M, pure, print, ◌>>◌, saved_run, store_backup, delete_backup, store,
}
use libmp4tag.Cli.{Settings}
use libmp4tag.CString.{Bytes, codes}
use libmp4tag.Parse.State.{Parser, set_error}
use libmp4tag.Prelude.{
  ℕ, ◌≡◌, ◌≢◌, refl, Bool, not, ◌&&◌, take, true, false, Option, none, some, ◌⊎◌, ◌++◌, suc,
  Bool-cases, Option-cases, inl, inr, if_ind, arith,
}
use libmp4tag.Tags.Consistent.{IsConsistent}
use libmp4tag.Tags.{Libmp4tag, Mp4error, has_ident, tagcount}
use libmp4tag.Prelude.Int.{ℤ, pos}

abbrev pub Any {ℓ} : {A : Type ℓ} → A → Type 0
Any a = Unit

show_tags-fails :
    (n : ℕ) (h : Handle) {e : Mp4error}
    → (iterate h true).1 ≡ (none, e)
    → show_tags (suc n) h ≢ none
unfolding show_tags
show_tags-fails n h g = rw (show_tags, g) (some-ne-none _)

-- Without a list, or without a parse, the iteration gives nothing.
iterate-nothing :
    (l : Libmp4tag)
    → has_ident l ≡ true
    → (l.parsed ≡ false) ⊎ (l.tags ≡ none)
    → (e : Mp4error) × ((iterate (iterate_init (some l)).0 true).1 ≡ (none, e))
unfolding iterate_init iterate iterate_known
iterate-nothing l h (inl p) = (Mp4error.err_not_parsed, ground arith)
iterate-nothing l h (inr e) = elim (Bool-cases l.parsed) [
  | inl p ↦ (Mp4error.err_no_tags, ground arith)
  | inr p ↦ (Mp4error.err_not_parsed, ground arith)
]

listed-ne-none :
    (l : Libmp4tag) (duration : ℤ) (n : ℕ)
    → show_tags (suc n) (iterate_init (some l)).0 ≢ none
    → Option.map
        (λ text. codes "duration=" ++ (show_ℤ duration ++ (newline ++ text)))
        (show_tags (suc n) (iterate_init (some l)).0)
      ≢ none
listed-ne-none l duration n h = elim (Option-cases (show_tags (suc n) (iterate_init (some l)).0)) [
  | inl e ↦ absurd (h e)
  | inr (text, e) ↦ rw e (some-ne-none _)
]

duration_unparsed :
    (s : Parser)
    → has_ident s.tags ≡ true
    → s.tags.parsed ≡ false
    → mp4tag_duration (some s) ≡ (some (set_error s Mp4error.err_not_parsed), pos 6)
unfolding mp4tag_duration
duration_unparsed s h p = rw (mp4tag_duration, h, p) refl

listing-ne-none : (s : Parser) → IsConsistent s.tags → listing s ≢ none
unfolding listing mp4tag_duration
listing-ne-none s c = elim (Bool-cases s.tags.parsed) [
  | inl p ↦ elim (Option-cases s.tags.tags) [
    | inl e ↦
        rw (listing, duration_lem s c.ident p)
          (listed-ne-none (record s.tags { mp4error = Mp4error.ok }) s.duration (tagcount s.tags)
            (show_tags-fails (tagcount s.tags) _
              (iterate-nothing (record s.tags { mp4error = Mp4error.ok }) c.ident (inr e)).1))
    | inr (ts, e) ↦ rw (listing_lem s ts c.ident p e) (some-ne-none _)
  ]
  | inr p ↦
      let l : Libmp4tag = record s.tags { mp4error = Mp4error.err_not_parsed } in
      rw (listing, duration_unparsed s c.ident p)
        (listed-ne-none l (pos 6) (tagcount s.tags)
          (show_tags-fails (tagcount s.tags) _ (iterate-nothing l c.ident (inl p)).1))
]

-- Printing and the writing of files end.
when-Ensures :
    (b : Bool) (m : M (Unit {0})) (w : World) → Ensures Any (m w) → Ensures Any (when b m w)
when-Ensures true m w h = h
when-Ensures false m w h = tt

maybe_shown-Ensures : (o : Option Bytes) (w : World) → o ≢ none → Ensures Any (maybe_shown o w)
maybe_shown-Ensures none w h = absurd (h refl)
maybe_shown-Ensures (some text) w h = tt

shown_tag-Ensures :
    (env : Env) (set : Settings) (p : Mp4tagpub) (w : World) → Ensures Any (shown_tag env set p w)
shown_tag-Ensures env set p w =
    if_ind (Ensures Any) (not set.dump) (λ k. tt)
      (λ k.
        when-Ensures (p.binary && is_some p.tag) (dump_to env set.dumpfn p) w (dumped set.dumpfn))
  where
    dumped : (fn : Option Bytes) → Ensures Any (dump_to env fn p w)
    dumped none = tt
    dumped (some fn) =
        when-Ensures (env.creates fn) (store fn (take p.datalen (bytes_of p.value))) w tt

got_tag-Ensures :
    (env : Env) (set : Settings) (tagname : Bytes) (got : Got) (w : World)
    → Ensures Any (got_tag env set tagname got w)
got_tag-Ensures env set tagname (some p, Mp4error.ok) w = shown_tag-Ensures env set p w
got_tag-Ensures env set tagname got w = tt

saved_run-Ensures :
    (fname : Bytes) (o : Option Saved) (w : World)
    → ((r : Saved) → o ≡ some r → IsConsistent r.handle.tags)
    → Ensures (λ (r : Saved). IsConsistent r.handle.tags) (saved_run fname o w)
saved_run-Ensures fname none w h = tt
saved_run-Ensures fname (some r) w h =
    >>=-Ensures Any (λ (r' : Saved). IsConsistent r'.handle.tags) (store_backup fname r.backup)
      (λ x. delete_backup fname r.bak_deleted >> (store fname r.handle.file >> pure r)) w
      (backup_stored r.backup)
      (λ x w' k.
        >>=-Ensures Any (λ (r' : Saved). IsConsistent r'.handle.tags)
          (delete_backup fname r.bak_deleted) (λ y. store fname r.handle.file >> pure r) w'
          (backup_deleted r.bak_deleted w') (λ y w'' m. h r refl))
  where
    backup_deleted : (b : Bool) (w' : World) → Ensures Any (delete_backup fname b w')
    backup_deleted true w' = tt
    backup_deleted false w' = tt

    backup_stored : (b : Option Bytes) → Ensures Any (store_backup fname b w)
    backup_stored none = tt
    backup_stored (some copy) = tt

module _ (env : Env) (job : Job) where
  pub run_write-Ensures :
      (e : Edits) (w : World) → EditsOk e → Ensures EditsOk (run_write env job e w)
  unfolding run_write
  run_write-Ensures e w c =
      if_ind (Ensures EditsOk) (is_ok e.rc && not job.set.asstream && e.write)
        (λ k.
          >>=-Ensures (λ (r : Saved). IsConsistent r.handle.tags) EditsOk
            (saved_run e.handle.place.fn (write_tags env.creates env.fresh e.handle))
            (λ r. report_write r >> pure (record e { handle = r.handle })) w
            (saved_run-Ensures e.handle.place.fn (write_tags env.creates env.fresh e.handle) w
              (λ r k'. write_tags-IsConsistent env.creates env.fresh e.handle r c k'))
            (λ r w' h.
              >>=-Ensures Any EditsOk (report_write r) (λ x. pure (record e { handle = r.handle }))
                w' (when-Ensures (not (is_ok r.result)) _ w' tt) (λ x w'' y. h)))
        (λ k. c)

  pub run_display-Ensures :
      (e : Edits) (w : World) → EditsOk e → Ensures EditsOk (run_display env job e w)
  unfolding run_display
  run_display-Ensures e w c =
      if_ind (Ensures EditsOk) (is_ok e.rc && job.set.display && not job.set.clean && alone env job)
        (λ k.
          let got = get_tag_by_name (some e.handle.tags) e.tagname true in
          >>=-Ensures Any EditsOk (got_tag env job.set e.tagname got.1)
            (λ x. pure (record e { handle = with_handle e.handle got.0 })) w
            (got_tag-Ensures env job.set e.tagname got.1 w)
            (λ x w' y.
              with_handle-Holds e.handle got.0 c
                (get_tag_by_name-HandleOk (some e.handle.tags) c e.tagname true)))
        (λ k. c)

  pub run_duration-Ensures : (e : Edits) (w : World) → Ensures Any (run_duration env job e w)
  unfolding run_duration
  run_duration-Ensures e w =
      when-Ensures (wants_duration env job e)
        (print (show_ℤ (mp4tag_duration (some e.handle)).1 ++ newline)) w tt

  pub run_listing-Ensures :
      (e : Edits) (w : World) → EditsOk e → Ensures Any (run_listing env job e w)
  unfolding run_listing
  run_listing-Ensures e w c =
      when-Ensures (wants_listing env job e) (maybe_shown (listing e.handle)) w
        (maybe_shown-Ensures (listing e.handle) w (listing-ne-none e.handle c))
