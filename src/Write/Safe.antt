-- ===== src/Write/Safe.antt =====
-- mp4tag_write_data of mp4tagwrite.c: what becomes of the file that was there.
use libmp4tag.CString.{Bytes}
use libmp4tag.Const.{boxhead_sz}
use libmp4tag.Prelude.{
  ℕ, ◌≡◌, ◌⊎◌, inl, inr, refl, ap, subst, Bool, true, false, ◌&&◌, ◌==◌, leb, if◌then◌else◌, if_ind,
  option_ind, Option, none, some, [], ◌++◌, length, arith,
}
use libmp4tag.Prelude.Int.{ℤ, pos, ◌+ℤ◌}
use libmp4tag.Tags.{Mp4error}
use libmp4tag.Write.Array.{take-length}
use libmp4tag.Write.Copy.{copy_file_data, copy_file_data_lem}
use libmp4tag.Write.Inplace.{Written, inplace_bytes, backed_up, write_inplace, backup_suffix}
use libmp4tag.Write.Offsets.{read_at, block_at, shift_block, update_offset_block, update_offsets}
use libmp4tag.Write.Place.{Layout, as_u32, write_freebox, update_parent_lengths}
use libmp4tag.Write.Rewrite.{
  fits_inplace, write_data, write_rewrite, rewrite_with, rewrite_tail, tail_copied, rewrite_layout,
  relocated, finished, front_len, temp_suffix,
}

-- mp4error after a write that changes the file.
abbrev IsDone : Mp4error → Type 0
IsDone e = (e ≡ Mp4error.ok) ⊎ (e ≡ Mp4error.err_file_read_error)

-- The file as it was, or a write that is done; and the file as it was, or a backup of it.
record IsSafe (file : Bytes) (keep : Bool) (w : Written) : Type 0 where
  pub kept_or_done : (w.fh ≡ some file) ⊎ IsDone w.mp4error
  pub kept_or_backup : (w.fh ≡ some file) ⊎ (w.backup ≡ (if keep then some file else none))

abbrev SafeIn : Bytes → Bool → Option Written → Type 0
SafeIn file keep none = Unit
SafeIn file keep (some w) = IsSafe file keep w

kept_file :
    (file : Bytes) (keep : Bool) (b : Option Bytes) (e : Mp4error)
    → IsSafe file keep (record { fh = some file; backup = b; bak_deleted = false; mp4error = e })
kept_file file keep b e = record { kept_or_done = inl refl; kept_or_backup = inl refl }

abbrev DoneIn : Option (Bytes × Mp4error) → Type 0
DoneIn none = Unit
DoneIn (some (out, e)) = IsDone e

update_offset_block-DoneIn :
    (file : Bytes) (e : Mp4error) (delta : ℤ) (foffset boffset blen w : ℕ)
    → IsDone e
    → DoneIn (update_offset_block file e delta foffset boffset blen w)
unfolding update_offset_block
update_offset_block-DoneIn file e delta foffset boffset blen w d =
    if_ind DoneIn (boffset == 0) (λ k. d)
      (λ k.
        option_ind DoneIn (read_at file (block_at delta foffset boffset) blen) (λ m. inr refl)
          (λ buff m. option_ind DoneIn (shift_block w foffset delta buff) (λ n. tt) (λ b n. d)))

module _ (l : Layout) (file : Bytes) (size : l.filesz ≡ length file) where
  -- The copy that is made before a write in place.
  copy_all : copy_file_data file [] 0 l.filesz ≡ some (file, Mp4error.ok)
  copy_all =
      let all : leb (length file) (length file) ≡ true = ground arith in
      rw
        (size, copy_file_data_lem file [] 0 (length file), take-length file (length file) refl, all)
        refl

  write_inplace-SafeIn :
      (creates : Bytes → Bool) (bytes : Bytes)
      → SafeIn file l.keep_backup (write_inplace creates l (some file) bytes)
  unfolding write_inplace
  write_inplace-SafeIn creates bytes = go l.keep_backup
    where
      go :
          (keep : Bool)
          → SafeIn file keep (
              if keep
              then if creates (l.fn ++ backup_suffix)
                then backed_up l file bytes (copy_file_data file [] 0 l.filesz)
                else some (record {
                  fh = some file;
                  backup = none;
                  bak_deleted = false;
                  mp4error = Mp4error.err_not_open;
                })
              else some (record {
                fh = some (inplace_bytes l file bytes);
                backup = none;
                bak_deleted = false;
                mp4error = Mp4error.ok;
              }))
      go true =
          if_ind (SafeIn file true) (creates (l.fn ++ backup_suffix))
            (λ e. rw copy_all (record { kept_or_done = inr (inl refl); kept_or_backup = inr refl }))
            (λ e. kept_file file true none Mp4error.err_not_open)
      go false = record { kept_or_done = inr (inl refl); kept_or_backup = inr refl }

finished-SafeIn :
    (l : Layout) (file : Bytes) (keep : Bool) (r : Option (Bytes × Mp4error))
    → l.keep_backup ≡ keep
    → DoneIn r
    → SafeIn file keep (finished l file r)
finished-SafeIn l file keep none h d = tt
finished-SafeIn l file keep (some (out, e)) h d = record {
  kept_or_done = inr d;
  kept_or_backup = inr (ap (λ k. if k then some file else none) h);
}

update_offsets-DoneIn :
    (l : Layout) (out : Bytes) (delta : ℤ) (offset : ℕ)
    → DoneIn (update_offsets l.blocks out Mp4error.ok delta offset)
unfolding update_offsets
update_offsets-DoneIn l out delta offset =
    go (update_offset_block out Mp4error.ok delta offset l.blocks.stco_offset l.blocks.stco_len 4) (
      update_offset_block-DoneIn out Mp4error.ok delta offset l.blocks.stco_offset l.blocks.stco_len
        4 (inl refl))
  where
    go :
        (r : Option (Bytes × Mp4error))
        → DoneIn r
        → DoneIn (elim r [
          | none ↦ none
          | some (file', e') ↦
              update_offset_block file' e' delta offset l.blocks.co64_offset l.blocks.co64_len 8
        ])
    go none d = tt
    go (some (f, e)) d =
        update_offset_block-DoneIn f e delta offset l.blocks.co64_offset l.blocks.co64_len 8 d

tail_copied-SafeIn :
    (l : Layout) (file : Bytes) (keep : Bool) (delta : ℤ) (r : Option (Bytes × Mp4error))
    → l.keep_backup ≡ keep
    → SafeIn file keep (tail_copied l file delta r)
tail_copied-SafeIn l file keep delta none h = tt
tail_copied-SafeIn l file keep delta (some (out, Mp4error.ok)) h =
    finished-SafeIn l file keep (relocated l delta l.after_ilst_offset out) h
      (update_offsets-DoneIn l (update_parent_lengths l delta out) delta l.after_ilst_offset)
tail_copied-SafeIn l file keep delta (some (out, rc)) h = kept_file file keep none rc

rewrite_layout-keep_backup :
    (l : Layout) (e : Mp4error) → (rewrite_layout l e).keep_backup ≡ l.keep_backup
rewrite_layout-keep_backup l Mp4error.ok =
    if_ind (λ (m : Layout). m.keep_backup ≡ l.keep_backup) (l.taglist_offset == 0) (λ e. refl)
      (λ e. refl)
rewrite_layout-keep_backup l e = refl

rewrite_with-SafeIn :
    (l : Layout) (file bytes : Bytes) (freelen : ℤ)
    → SafeIn file l.keep_backup (rewrite_with l file bytes freelen)
unfolding rewrite_with rewrite_tail
rewrite_with-SafeIn l file bytes freelen =
    option_ind (SafeIn file l.keep_backup) (copy_file_data file [] 0 (front_len l)) (λ e. tt)
      (λ front e.
        option_ind (SafeIn file l.keep_backup) (write_freebox (as_u32 freelen)) (λ k. tt)
          (λ free k.
            tail_copied-SafeIn (rewrite_layout l front.1) file l.keep_backup _ _
              (rewrite_layout-keep_backup l front.1)))

write_data-SafeIn :
    (creates : Bytes → Bool) (l : Layout) (file bytes : Bytes)
    → l.filesz ≡ length file
    → SafeIn file l.keep_backup (write_data creates l (some file) bytes)
unfolding write_data write_rewrite
write_data-SafeIn creates l file bytes size =
    if_ind (SafeIn file l.keep_backup) (fits_inplace l (length bytes))
      (λ e. write_inplace-SafeIn l file size creates bytes)
      (λ e.
        if_ind (SafeIn file l.keep_backup) (l.taglist_offset == 0 && l.noilst_offset == 0)
          (λ k. kept_file file l.keep_backup none Mp4error.err_unable_to_process)
          (λ k.
            if_ind (SafeIn file l.keep_backup) (creates (l.fn ++ temp_suffix))
              (λ m. rewrite_with-SafeIn l file bytes (pos boxhead_sz +ℤ l.freespacesz))
              (λ m. kept_file file l.keep_backup none Mp4error.err_not_open)))

module _ (creates : Bytes → Bool) (l : Layout) (file bytes : Bytes) (w : Written)
    (size : l.filesz ≡ length file) (e : write_data creates l (some file) bytes ≡ some w) where
  safe : IsSafe file l.keep_backup w
  safe = subst (SafeIn file l.keep_backup) e (write_data-SafeIn creates l file bytes size)

  pub write_data-kept :
      (w.fh ≡ some file)
      ⊎ ((w.mp4error ≡ Mp4error.ok) ⊎ (w.mp4error ≡ Mp4error.err_file_read_error))
  write_data-kept = safe.kept_or_done

  -- If a backup is wanted and filesz is the length of the file, then after mp4tag_write_data the
  -- file's bytes are those from before, or the backup has them.
  pub write_data-backup : l.keep_backup ≡ true → (w.fh ≡ some file) ⊎ (w.backup ≡ some file)
  write_data-backup k =
      subst (λ b. (w.fh ≡ some file) ⊎ (w.backup ≡ (if b then some file else none))) k
        safe.kept_or_backup
