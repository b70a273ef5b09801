-- ===== src/Cli/Consistent.antt =====
-- The runs of mp4tagcli.c: the structures that it works on are consistent, and its loops end.
use libmp4tag.Api.Consistent.{HandleOk}
use libmp4tag.Api.Handles.{preserve_kept-KeptOk, restore_tags-HandleOk}
use libmp4tag.Api.Open.{openstream, opened_stream, mp4tag_open, parse, alloc}
use libmp4tag.Api.Parsing.{
  IsFresh, FreshOpen, Good, mp4tag_open-FreshOpen, with_fn-FreshOpen, parse_ftyp-FreshIn,
  parse-Good,
}
use libmp4tag.Api.Preserve.{preserve_tags}
use libmp4tag.Api.Save.{set_option, set_debug_flags, set_free_space}
use libmp4tag.Api.{Handle}
use libmp4tag.Cli.Arguments.{with_handle}
use libmp4tag.Cli.Main.{moved_tags}
use libmp4tag.Cli.World.{
  Env, World, Run, M, ◌>>=◌, with_option, with_debug, with_free_space, configured, parsed_run,
  opened_run, open_parse, openstream_parse,
}
use libmp4tag.Cli.{Settings}
use libmp4tag.CString.{Bytes}
use libmp4tag.Parse.File.{Parsed}
use libmp4tag.Parse.Ftyp.{parse_ftyp}
use libmp4tag.Parse.State.{Parser, init_tags}
use libmp4tag.Prelude.{refl, Option, none, some, [], if_ind, option_ind, arith}
use libmp4tag.Prelude.Int.{pos, eq_ℤ}
use libmp4tag.Tags.Consistent.{IsConsistent}
use libmp4tag.Tags.{Mp4error}

-- A run that goes on does so with a value of `P`, and no run is out of fuel.
abbrev pub Ensures {ℓ} : {A : Type ℓ} → (A → Type 0) → Run A → Type 0
Ensures P (Run.value a w) = P a
Ensures P (Run.exit status w) = Unit
Ensures P Run.fault = Unit
Ensures P Run.endless = Unit
Ensures P Run.unfinished = ⊥

pub >>=-Ensures {ℓ κ} :
    {A : Type ℓ} {B : Type κ} (P : A → Type 0) (Q : B → Type 0) (m : M A) (f : A → M B) (w : World)
    → Ensures P (m w)
    → ((a : A) (w' : World) → P a → Ensures Q (f a w'))
    → Ensures Q ((m >>= f) w)
>>=-Ensures {A} {B} P Q m f w h k = go (m w) h
  where
    go :
        (r : Run A)
        → Ensures P r
        → Ensures Q (elim r as (λ r'. Run B) [
          | Run.value a w' ↦ f a w'
          | Run.exit status w' ↦ Run.exit status w'
          | Run.fault ↦ Run.fault
          | Run.endless ↦ Run.endless
          | Run.unfinished ↦ Run.unfinished
        ])
    go (Run.value a w') p = k a w' p
    go (Run.exit status w') p = tt
    go Run.fault p = tt
    go Run.endless p = tt
    go Run.unfinished p = p

-- A structure with a consistent list.
abbrev pub Holds : Parser → Type 0
Holds s = IsConsistent s.tags

with_option-IsFresh : (set : Settings) (s : Parser) → IsFresh s → IsFresh (with_option set s)
unfolding set_option
with_option-IsFresh set s h = rw h.room.ident (record { room = h.room; parsedone = h.parsedone })

with_debug-IsFresh : (set : Settings) (s : Parser) → IsFresh s → IsFresh (with_debug set s)
unfolding set_debug_flags
with_debug-IsFresh set s h =
    if_ind IsFresh (eq_ℤ set.dbgflags (pos 0)) (λ e. h)
      (λ e. rw h.room.ident (record { room = h.room; parsedone = h.parsedone }))

with_free_space-IsFresh :
    (set : Settings) (s : Parser) → IsFresh s → IsFresh (with_free_space set s)
unfolding set_free_space
with_free_space-IsFresh set s h =
    if_ind IsFresh (eq_ℤ set.freespacesz (pos 0)) (λ e. h)
      (λ e. rw h.room.ident (record { room = h.room; parsedone = h.parsedone }))

configured-IsFresh : (set : Settings) (s : Parser) → IsFresh s → IsFresh (configured set s)
configured-IsFresh set s h =
    with_free_space-IsFresh set (with_debug set (with_option set s))
      (with_debug-IsFresh set (with_option set s) (with_option-IsFresh set s h))

parsed_run-Ensures : (r : Parsed) (w : World) → Good r → Ensures Holds (parsed_run r w)
parsed_run-Ensures (Parsed.done s) w g = g
parsed_run-Ensures Parsed.overrun w g = tt
parsed_run-Ensures Parsed.endless w g = tt
parsed_run-Ensures Parsed.unfinished w g = g

openstream-FreshOpen : (contents : Bytes) → FreshOpen (openstream contents)
unfolding openstream alloc init_tags
openstream-FreshOpen contents = with_fn-FreshOpen [] (parse_ftyp (opened_stream contents)) (
    parse_ftyp-FreshIn (opened_stream contents) (record {
      room = record { ident = refl; room = omega arith; no_array = λ e. refl };
      parsedone = refl;
    }))

module _ (env : Env) (set : Settings) where
  opened_run-Ensures :
      (message : Bytes) (r : Option (Mp4error × Option Parser)) (w : World)
      → FreshOpen r
      → Ensures Holds (opened_run env message set r w)
  opened_run-Ensures message none w h = tt
  opened_run-Ensures message (some (e, none)) w h = tt
  opened_run-Ensures message (some (e, some s)) w h =
      let fresh = configured-IsFresh set s h in
      parsed_run-Ensures (parse env.millis (configured set s)) w
        (parse-Good env.millis (configured set s) fresh.room.ident fresh.parsedone fresh.room)

  pub open_parse-Ensures : (fname : Bytes) (w : World) → Ensures Holds (open_parse env fname set w)
  unfolding open_parse
  open_parse-Ensures fname w =
      >>=-Ensures Holds Holds (opened_run env _ set (mp4tag_open w.fs env.writable (some fname))) _
        w
        (opened_run-Ensures _ (mp4tag_open w.fs env.writable (some fname)) w
          (mp4tag_open-FreshOpen w.fs env.writable (some fname)))
        (λ s w' h. h)

  pub openstream_parse-Ensures :
      (fname : Bytes) (w : World) → Ensures Holds (openstream_parse env fname set w)
  unfolding openstream_parse
  openstream_parse-Ensures fname w =
      option_ind (Ensures Holds) (w.fs.open_read fname) (λ e. tt)
        (λ contents e. opened_run-Ensures _ (openstream contents) w (openstream-FreshOpen contents))

pub with_handle-Holds : (s : Parser) (h : Handle) → Holds s → HandleOk h → Holds (with_handle s h)
with_handle-Holds s none c k = c
with_handle-Holds s (some l) c k = k

pub moved_tags-Holds : (from to : Parser) → Holds from → Holds to → Holds (moved_tags from to).0
unfolding moved_tags
moved_tags-Holds from to c d = with_handle-Holds to _ d (
    restore_tags-HandleOk (some to.tags) d (preserve_tags (some from.tags)).1
      (preserve_kept-KeptOk (some from.tags) c))
