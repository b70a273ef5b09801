-- ===== src/Cli/Runs.antt =====
-- The stages of main of mp4tagcli.c: each keeps the structure consistent, and the program's loops end.
use libmp4tag.Api.Consistent.{HandleOk}
use libmp4tag.Api.Edit.{clean_tags}
use libmp4tag.Api.Handles.{
  set_tag-HandleOk, set_binary_tag-HandleOk, delete_tag-HandleOk, clean_tags-HandleOk,
}
use libmp4tag.Api.{Handle}
use libmp4tag.Cli.Arguments.{
  Edits, checked, set_file_data, set_argument, edit_value, edit_named, cut_name, unable_to_set,
  unable_to_delete, run_argument, run_arguments, equals,
}
use libmp4tag.Cli.Consistent.{
  Ensures, >>=-Ensures, Holds, with_handle-Holds, moved_tags-Holds, open_parse-Ensures,
}
use libmp4tag.Cli.Main.{
  Job, alone, restored, after_clean, moved_tags, run_preserve, run_copy, run_clean, run_edits,
  run_changes,
}
use libmp4tag.Api.Open.{is_ok}
use libmp4tag.Cli.World.{Env, World, pure, open_parse}
use libmp4tag.Cli.{Settings, id_max, set_tag_name}
use libmp4tag.CString.{Bytes, Token}
use libmp4tag.Files.{FileSystem, read_file}
use libmp4tag.Prelude.{ℕ, not, ◌&&◌, Option, none, some, List, [], ◌∷◌, if_ind, option_ind}
use libmp4tag.Tags.{Mp4error}

abbrev pub EditsOk : Edits → Type 0
EditsOk e = Holds e.handle

checked-EditsOk :
    (e : Edits) (what : Bytes) (r : Handle × Mp4error)
    → EditsOk e
    → HandleOk r.0
    → EditsOk (checked e what r)
checked-EditsOk e what (h, Mp4error.ok) c k = with_handle-Holds e.handle h c k
checked-EditsOk e what (h, rc) c k = with_handle-Holds e.handle h c k

set_file_data-EditsOk :
    (e : Edits) (m : Mp4error) (d : Option Bytes) (n : ℕ)
    → EditsOk e
    → EditsOk (set_file_data e (record { fdata = d; sz = n; mp4error = m }))
set_file_data-EditsOk e Mp4error.ok none n c = c
set_file_data-EditsOk e Mp4error.ok (some bytes) n c =
    checked-EditsOk e unable_to_set _ c
      (set_binary_tag-HandleOk (some e.handle.tags) c (some e.tagname) (some bytes) n)
set_file_data-EditsOk e m d n c = c

module _ (fs : FileSystem) (set : Settings) where
  set_argument-EditsOk :
      (e : Edits) (value : Bytes) → EditsOk e → EditsOk (set_argument fs set e value)
  unfolding set_argument
  set_argument-EditsOk e value c =
      if_ind EditsOk set.testbin
        (λ k.
          let file = read_file fs value in
          set_file_data-EditsOk e file.mp4error file.fdata file.sz c)
        (λ k. checked-EditsOk e unable_to_set _ c (
          set_tag-HandleOk (some e.handle.tags) c fs (some e.tagname) (some value) set.forcebinary))

  edit_value-EditsOk : (e : Edits) (t : Option Token) → EditsOk e → EditsOk (edit_value fs set e t)
  edit_value-EditsOk e none c =
      checked-EditsOk e unable_to_delete _ c
        (delete_tag-HandleOk (some e.handle.tags) c (some e.tagname))
  edit_value-EditsOk e (some t) c = set_argument-EditsOk e t.text c

  edit_named-EditsOk : (e : Edits) (t : Option Token) → EditsOk e → EditsOk (edit_named fs set e t)
  edit_named-EditsOk e none c = c
  edit_named-EditsOk e (some t) c = edit_value-EditsOk e (equals t.rest) c

  run_argument-EditsOk : (e : Edits) (arg : Bytes) → EditsOk e → EditsOk (run_argument fs set e arg)
  unfolding run_argument
  run_argument-EditsOk e arg c =
      edit_named-EditsOk (record e { tagname = set_tag_name (cut_name arg (equals arg)) id_max })
        (equals arg) c

  -- Every list of arguments leaves a consistent structure consistent.
  pub run_arguments-EditsOk :
      (e : Edits) (args : List Bytes) → EditsOk e → EditsOk (run_arguments fs set e args)
  unfolding run_arguments
  run_arguments-EditsOk e [] c = c
  run_arguments-EditsOk e (arg ∷ args) c =
      run_arguments-EditsOk (run_argument fs set e arg) args (run_argument-EditsOk e arg c)

module _ (env : Env) (job : Job) where
  run_preserve-Ensures :
      (e : Edits) (w : World) → EditsOk e → Ensures EditsOk (run_preserve env job e w)
  run_preserve-Ensures e w c =
      option_ind (Ensures EditsOk) job.preservecmd (λ k. c)
        (λ cmd k.
          >>=-Ensures Holds EditsOk (open_parse env job.infname job.set)
            (λ s. pure (restored e (moved_tags e.handle s))) (record w { fs = env.system cmd w.fs })
            (open_parse-Ensures env job.set job.infname (record w { fs = env.system cmd w.fs }))
            (λ s w' h. moved_tags-Holds e.handle s c h))

  run_copy-Ensures : (e : Edits) (w : World) → EditsOk e → Ensures EditsOk (run_copy env job e w)
  run_copy-Ensures e w c =
      option_ind (Ensures EditsOk) job.copyto (λ k. c)
        (λ copyto k.
          >>=-Ensures Holds EditsOk (open_parse env copyto job.set)
            (λ s. pure (record (restored e (moved_tags e.handle s)) { rc = e.rc })) w
            (open_parse-Ensures env job.set copyto w) (λ s w' h. moved_tags-Holds e.handle s c h))

  after_clean-Ensures :
      (e : Edits) (r : Handle × Mp4error) (w : World)
      → EditsOk e
      → HandleOk r.0
      → Ensures EditsOk (after_clean e r w)
  after_clean-Ensures e (h, Mp4error.ok) w c k = with_handle-Holds e.handle h c k
  after_clean-Ensures e (h, rc) w c k = with_handle-Holds e.handle h c k

  run_clean-Ensures : (e : Edits) (w : World) → EditsOk e → Ensures EditsOk (run_clean env job e w)
  run_clean-Ensures e w c =
      if_ind (Ensures EditsOk) (job.set.clean && alone env job)
        (λ k.
          after_clean-Ensures e (clean_tags (some e.handle.tags)) w c
            (clean_tags-HandleOk (some e.handle.tags) c))
        (λ k. c)

  run_edits-Ensures : (e : Edits) (w : World) → EditsOk e → Ensures EditsOk (run_edits env job e w)
  run_edits-Ensures e w c =
      if_ind (Ensures EditsOk) (is_ok e.rc && not job.set.clean && alone env job)
        (λ k. run_arguments-EditsOk w.fs job.set e job.args c) (λ k. c)

  pub run_changes-Ensures :
      (e : Edits) (w : World) → EditsOk e → Ensures EditsOk (run_changes env job e w)
  unfolding run_changes
  run_changes-Ensures e w c =
      if_ind (Ensures EditsOk) job.set.asstream (λ k. c)
        (λ k.
          >>=-Ensures EditsOk EditsOk (run_preserve env job e) _ w (run_preserve-Ensures e w c)
            (λ e1 w1 c1.
              >>=-Ensures EditsOk EditsOk (run_copy env job e1) _ w1 (run_copy-Ensures e1 w1 c1)
                (λ e2 w2 c2.
                  >>=-Ensures EditsOk EditsOk (run_clean env job e2) _ w2
                    (run_clean-Ensures e2 w2 c2)
                    (λ e3 w3 c3.
                      >>=-Ensures EditsOk EditsOk (run_edits env job e3) _ w3
                        (run_edits-Ensures e3 w3 c3) (λ e4 w4 c4. c4)))))
