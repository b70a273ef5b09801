-- ===== src/Api/Saving.antt =====
-- mp4tag_write_tags of libmp4tag.c: the list and the file that it leaves.
use libmp4tag.Api.Save.{Saved, refuse, prioritised, with_written, with_data, write_tags}
use libmp4tag.CString.{Bytes}
use libmp4tag.Const.{BoxId, pri_max}
use libmp4tag.Parse.State.{Parser}
use libmp4tag.Prelude.{
  ℕ, ◌≡◌, ◌⊎◌, inl, inr, refl, sym, ap, subst, Bool, Option, none, some, List, map, length, if_ind,
  option_ind, length-map, arith,
}
use libmp4tag.Tags.Consistent.{IsConsistent}
use libmp4tag.Tags.Find.{check_tag}
use libmp4tag.Tags.Invariant.{SameKey, IsWellFormed, map-IsWellFormed}
use libmp4tag.Tags.Set.{is_tag}
use libmp4tag.Tags.{Mp4tag, Libmp4tag, Mp4error, list_of, has_ident}
use libmp4tag.Write.Build.{set_priority, build_priorities, empty_output, build_data}
use libmp4tag.Write.Inplace.{Written}
use libmp4tag.Write.Safe.{write_data-kept}
use mathlib.Core.Option

-- The priorities leave the name, the index and the position of a tag.
record IsSame (t u : Mp4tag) : Type 0 where
  pub key : SameKey t u
  pub idx : u.idx ≡ t.idx

set_priority-IsSame : (t : Mp4tag) → IsSame t (set_priority t)
unfolding set_priority
set_priority-IsSame t =
    option_ind (IsSame t) t.tag
      (λ e. record { key = record { tag = refl; dataidx = refl }; idx = refl })
      (λ tag e.
        if_ind (IsSame t) (is_tag tag BoxId.custom)
          (λ k. record { key = record { tag = refl; dataidx = refl }; idx = refl })
          (λ k.
            option_ind (IsSame t) (check_tag (some tag))
              (λ m. record { key = record { tag = refl; dataidx = refl }; idx = refl })
              (λ d m. record { key = record { tag = refl; dataidx = refl }; idx = refl })))

abbrev Prioritised : List Mp4tag → Option (List Mp4tag × Bytes) → Type 0
Prioritised ts none = Unit
Prioritised ts (some (us, bytes)) = us ≡ map set_priority ts

build_data-Prioritised : (fresh : ℕ → ℕ) (ts : List Mp4tag) → Prioritised ts (build_data fresh ts)
unfolding build_data
build_data-Prioritised fresh ts =
    option_ind (Prioritised ts)
      (build_priorities fresh pri_max 0 (map set_priority ts) empty_output) (λ e. tt) (λ o e. refl)

-- The array with the priorities in it, if there is one.
abbrev with_priorities : Option (List Mp4tag) → Option (List Mp4tag)
with_priorities o = Option.map (λ a. map set_priority (list_of o)) o

with_priorities-IsWellFormed :
    (o : Option (List Mp4tag))
    → IsWellFormed (list_of o)
    → IsWellFormed (list_of (with_priorities o))
with_priorities-IsWellFormed none w = w
with_priorities-IsWellFormed (some ts) w =
    map-IsWellFormed set_priority (λ t. (set_priority-IsSame t).key)
      (λ t. (set_priority-IsSame t).idx) ts w

length-with_priorities :
    (o : Option (List Mp4tag)) → length (list_of (with_priorities o)) ≡ length (list_of o)
length-with_priorities none = refl
length-with_priorities (some ts) = length-map ts set_priority

with_priorities-none : (o : Option (List Mp4tag)) → with_priorities o ≡ none → o ≡ none
with_priorities-none none e = refl
with_priorities-none (some ts) e = absurd (Option.some-ne-none _ e)

prioritised-IsConsistent :
    (fresh : ℕ → ℕ) (l : Libmp4tag)
    → IsConsistent l
    → IsConsistent (prioritised fresh l (map set_priority (list_of l.tags)))
prioritised-IsConsistent fresh l c = record {
  ident = c.ident;
  tags = with_priorities-IsWellFormed l.tags c.tags;
  room = omega (arith, c.room, length-with_priorities l.tags);
  no_array = λ e. c.no_array (with_priorities-none l.tags e);
}

abbrev SavedOk : Option Saved → Type 0
SavedOk none = Unit
SavedOk (some r) = IsConsistent r.handle.tags

with_written-SavedOk :
    (s : Parser) (w : Option Written) → IsConsistent s.tags → SavedOk (with_written s w)
with_written-SavedOk s none c = tt
with_written-SavedOk s (some w) c = record {
  ident = c.ident;
  tags = c.tags;
  room = c.room;
  no_array = c.no_array;
}

refuse-SavedOk : (s : Parser) (e : Mp4error) → IsConsistent s.tags → SavedOk (some (refuse s e))
refuse-SavedOk s e c = record {
  ident = c.ident;
  tags = c.tags;
  room = c.room;
  no_array = c.no_array;
}

with_data-SavedOk :
    (creates : Bytes → Bool) (fresh : ℕ → ℕ) (s : Parser) (d : Option (List Mp4tag × Bytes))
    → IsConsistent s.tags
    → Prioritised (list_of s.tags.tags) d
    → SavedOk (with_data creates fresh s d)
with_data-SavedOk creates fresh s none c p = tt
with_data-SavedOk creates fresh s (some (ts, bytes)) c p =
    with_written-SavedOk (record s { tags = prioritised fresh s.tags ts }) _
      (subst (λ us. IsConsistent (prioritised fresh s.tags us)) (sym p)
        (prioritised-IsConsistent fresh s.tags c))

-- mp4tag_write_tags leaves a consistent structure consistent, whether it writes or refuses.
pub write_tags-IsConsistent :
    (creates : Bytes → Bool) (fresh : ℕ → ℕ) (s : Parser) (r : Saved)
    → IsConsistent s.tags
    → write_tags creates fresh s ≡ some r
    → IsConsistent r.handle.tags
unfolding write_tags
write_tags-IsConsistent creates fresh s r c e =
    let refused = λ (x : Mp4error). refuse-SavedOk s x c in
    subst SavedOk e (
      if_ind SavedOk (has_ident s.tags)
        (λ k.
          if_ind SavedOk s.canwrite
            (λ k1.
              if_ind SavedOk s.tags.parsed
                (λ k2.
                  with_data-SavedOk creates fresh s _ c
                    (build_data-Prioritised fresh (list_of s.tags.tags)))
                (λ k2. refused Mp4error.err_not_parsed))
            (λ k1. refused Mp4error.err_cannot_write))
        (λ k. refused Mp4error.err_bad_struct))

abbrev KeptIn : Bytes → Option Saved → Type 0
KeptIn file none = Unit
KeptIn file (some r) =
    (r.handle.file ≡ file) ⊎ ((r.result ≡ Mp4error.ok) ⊎ (r.result ≡ Mp4error.err_file_read_error))

with_written-KeptIn :
    (s : Parser) (w : Option Written)
    → ((x : Written)
        → w ≡ some x
        → (x.fh ≡ some s.file)
          ⊎ ((x.mp4error ≡ Mp4error.ok) ⊎ (x.mp4error ≡ Mp4error.err_file_read_error)))
    → KeptIn s.file (with_written s w)
with_written-KeptIn s none h = tt
with_written-KeptIn s (some w) h = elim (h w refl) [
  | inl e ↦ inl (ap (λ (o : Option Bytes). elim o [ none ↦ s.file | some file ↦ file ]) e)
  | inr d ↦ inr d
]

with_data-KeptIn :
    (creates : Bytes → Bool) (fresh : ℕ → ℕ) (s : Parser) (d : Option (List Mp4tag × Bytes))
    → s.place.filesz ≡ length s.file
    → KeptIn s.file (with_data creates fresh s d)
with_data-KeptIn creates fresh s none size = tt
with_data-KeptIn creates fresh s (some (ts, bytes)) size =
    with_written-KeptIn (record s { tags = prioritised fresh s.tags ts }) _
      (λ w e. write_data-kept creates s.place s.file bytes w size e)

-- If filesz is the length of the file, then whatever mp4tag_write_tags does, the file's bytes are
-- those from before, or it returns MP4TAG_OK, or MP4TAG_ERR_FILE_READ_ERROR.
pub write_tags-kept :
    (creates : Bytes → Bool) (fresh : ℕ → ℕ) (s : Parser) (r : Saved)
    → s.place.filesz ≡ length s.file
    → write_tags creates fresh s ≡ some r
    → (r.handle.file ≡ s.file)
      ⊎ ((r.result ≡ Mp4error.ok) ⊎ (r.result ≡ Mp4error.err_file_read_error))
unfolding write_tags
write_tags-kept creates fresh s r size e = subst (KeptIn s.file) e (
    if_ind (KeptIn s.file) (has_ident s.tags)
      (λ k.
        if_ind (KeptIn s.file) s.canwrite
          (λ k1.
            if_ind (KeptIn s.file) s.tags.parsed (λ k2. with_data-KeptIn creates fresh s _ size)
              (λ k2. inl refl))
          (λ k1. inl refl))
      (λ k. inl refl))
