-- ===== src/Api/Parsing.antt =====
-- mp4tag_open and mp4tag_parse of libmp4tag.c: the list that they leave.
use libmp4tag.Api.Consistent.{free_tags-IsConsistent}
use libmp4tag.Api.Open.{
  alloc, opened, is_ok, with_fn, mp4tag_open, set_parsed, repaired, parse_all, finish_parse, parse,
}
use libmp4tag.CString.{Bytes, c_string, str_eq}
use libmp4tag.Const.{boxids, BoxId, boxhead_sz}
use libmp4tag.Files.{FileSystem}
use libmp4tag.Parse.File.{Parsed, and_then}
use libmp4tag.Parse.Ftyp.{Brands, count_brands, with_brands, with_ftyp, with_head, parse_ftyp}
use libmp4tag.Parse.Rounds.{parse_file-ends, parse_file-IsConsistent}
use libmp4tag.Parse.State.{Parser, init_tags, set_error, data_read}
use libmp4tag.Prelude.{
  ℕ, suc, ◌≡◌, ◌≢◌, refl, subst, drop, option_ind, Bool, true, false, ◌&&◌, Option, none, some,
  length, if_ind, arith,
}
use libmp4tag.Prelude.Int.{ℤ}
use mathlib.Core.Option
use libmp4tag.Tags.Consistent.{HasRoom, IsConsistent}
use libmp4tag.Tags.{Mp4error, has_ident}

-- A parse that ends leaves a consistent list.
abbrev pub Good : Parsed → Type 0
Good (Parsed.done t) = IsConsistent t.tags
Good Parsed.overrun = Unit
Good Parsed.endless = Unit
Good Parsed.unfinished = ⊥

and_then-Good :
    (r : Parsed) (f : Parser → Parsed)
    → Good r
    → ((t : Parser) → IsConsistent t.tags → Good (f t))
    → Good (and_then r f)
and_then-Good (Parsed.done t) f g h = h t g
and_then-Good Parsed.overrun f g h = tt
and_then-Good Parsed.endless f g h = tt
and_then-Good Parsed.unfinished f g h = g

parse_all-Good :
    (millis : ℕ → ℕ → ℤ) (s : Parser)
    → s.parsedone ≡ false
    → HasRoom s.tags
    → Good (parse_all millis s)
parse_all-Good millis s p room = go (parse_all millis s) refl
  where
    go : (r : Parsed) → parse_all millis s ≡ r → Good r
    go (Parsed.done t) e =
        parse_file-IsConsistent millis (suc (length s.file)) s t (omega arith) p room e
    go Parsed.overrun e = tt
    go Parsed.endless e = tt
    go Parsed.unfinished e = parse_file-ends millis (suc (length s.file)) 0 0 s (omega arith) e

set_parsed-IsConsistent : (s : Parser) → IsConsistent s.tags → IsConsistent (set_parsed s).tags
set_parsed-IsConsistent s c = record {
  ident = c.ident;
  tags = c.tags;
  room = c.room;
  no_array = c.no_array;
}

repaired-HasRoom :
    (s : Parser) (offset : ℕ) → IsConsistent s.tags → HasRoom (repaired s offset).tags
unfolding init_tags
repaired-HasRoom s offset c = record {
  ident = (free_tags-IsConsistent s.tags c).ident;
  room = omega arith;
  no_array = λ e. refl;
}

repaired-parsedone : (s : Parser) (offset : ℕ) → (repaired s offset).parsedone ≡ false
unfolding init_tags
repaired-parsedone s offset = refl

finish_parse-Good :
    (millis : ℕ → ℕ → ℤ) (offset : ℕ) (s : Parser)
    → IsConsistent s.tags
    → Good (finish_parse millis offset s)
unfolding finish_parse
finish_parse-Good millis offset s c =
    if_ind Good (is_ok s.tags.mp4error)
      (λ e.
        if_ind Good (s.canwrite && s.bug.dofix)
          (λ k.
            and_then-Good (parse_all millis (repaired s offset)) _
              (parse_all-Good millis (repaired s offset) (repaired-parsedone s offset)
                (repaired-HasRoom s offset c))
              (λ t d. set_parsed-IsConsistent t d))
          (λ k. set_parsed-IsConsistent s c))
      (λ e. c)

pub parse-Good :
    (millis : ℕ → ℕ → ℤ) (s : Parser)
    → has_ident s.tags ≡ true
    → s.parsedone ≡ false
    → HasRoom s.tags
    → Good (parse millis s)
unfolding parse
parse-Good millis s i p room = rw i (
    and_then-Good (parse_all millis (set_error s Mp4error.ok)) (finish_parse millis s.offset)
      (parse_all-Good millis (set_error s Mp4error.ok) p
        (record { ident = room.ident; room = room.room; no_array = room.no_array }))
      (λ t c. finish_parse-Good millis s.offset t c))

-- What mp4tag_parse relies on.
pub record IsFresh (s : Parser) : Type 0 where
  pub room : HasRoom s.tags
  pub parsedone : s.parsedone ≡ false

abbrev pub FreshIn : Option (Mp4error × Parser) → Type 0
FreshIn none = Unit
FreshIn (some (e, s)) = IsFresh s

opened-IsFresh :
    (fs : FileSystem) (writable : Bytes → Bool) (fn contents : Bytes)
    → IsFresh (opened fs writable fn contents)
unfolding alloc init_tags
opened-IsFresh fs writable fn contents = record {
  room = record { ident = refl; room = omega arith; no_array = λ e. refl };
  parsedone = refl;
}

data_read-IsFresh : (s : Parser) (n : ℕ) → IsFresh s → IsFresh (data_read s n).1
unfolding data_read
data_read-IsFresh s n h = record { room = h.room; parsedone = h.parsedone }

with_brands-FreshIn : (s : Parser) (r : Option Brands) → IsFresh s → FreshIn (with_brands s r)
with_brands-FreshIn s none h = tt
with_brands-FreshIn s (some r) h = record { room = h.room; parsedone = h.parsedone }

with_ftyp-FreshIn : (r : Option Bytes × Parser) → IsFresh r.1 → FreshIn (with_ftyp r)
with_ftyp-FreshIn (none, s) h = h
with_ftyp-FreshIn (some buff, s) h = with_brands-FreshIn s (count_brands 0 buff _) h

with_head-FreshIn : (r : Option Bytes × Parser) → IsFresh r.1 → FreshIn (with_head r)
with_head-FreshIn (none, s) h = h
with_head-FreshIn (some bh, s) h =
    if_ind FreshIn (str_eq (c_string (drop 4 bh)) (boxids BoxId.ftyp))
      (λ e. with_ftyp-FreshIn (data_read s _) (data_read-IsFresh s _ h))
      (λ e. record {
        room = record { ident = h.room.ident; room = h.room.room; no_array = h.room.no_array };
        parsedone = h.parsedone;
      })

pub parse_ftyp-FreshIn : (s : Parser) → IsFresh s → FreshIn (parse_ftyp s)
unfolding parse_ftyp
parse_ftyp-FreshIn s h =
    with_head-FreshIn (data_read s boxhead_sz) (data_read-IsFresh s boxhead_sz h)

abbrev pub FreshOpen : Option (Mp4error × Option Parser) → Type 0
FreshOpen none = Unit
FreshOpen (some (e, none)) = Unit
FreshOpen (some (e, some s)) = IsFresh s

pub with_fn-FreshOpen :
    (fn : Bytes) (r : Option (Mp4error × Parser))
    → FreshIn r
    → FreshOpen (Option.map (with_fn fn) r)
with_fn-FreshOpen fn none h = tt
with_fn-FreshOpen fn (some (e, s)) h =
    if_ind (λ (r : Mp4error × Option Parser). FreshOpen (some r)) (is_ok e)
      (λ k. record { room = h.room; parsedone = h.parsedone }) (λ k. tt)

pub mp4tag_open-FreshOpen :
    (fs : FileSystem) (writable : Bytes → Bool) (fn : Option Bytes)
    → FreshOpen (mp4tag_open fs writable fn)
unfolding mp4tag_open
mp4tag_open-FreshOpen fs writable none = tt
mp4tag_open-FreshOpen fs writable (some fn) =
    option_ind FreshOpen (fs.open_read fn) (λ e. tt)
      (λ contents e. with_fn-FreshOpen fn (parse_ftyp (opened fs writable fn contents)) (
        parse_ftyp-FreshIn (opened fs writable fn contents)
          (opened-IsFresh fs writable fn contents)))

-- After mp4tag_open has given a structure for a file, whatever the file holds, mp4tag_parse does not
-- run out of its fuel; and where it ends, it leaves a consistent structure: the list is sorted by
-- name and index, each tag holds its position, and the array has room for the list. It may instead
-- read behind a box's data, or stay in the loop over a cover.
pub parse-mp4tag_open :
    (millis : ℕ → ℕ → ℤ) (fs : FileSystem) (writable : Bytes → Bool) (fn : Option Bytes)
    (e : Mp4error) (s : Parser)
    → mp4tag_open fs writable fn ≡ some (e, some s)
    → (parse millis s ≢ Parsed.unfinished)
      × ((t : Parser) → parse millis s ≡ Parsed.done t → IsConsistent t.tags)
parse-mp4tag_open millis fs writable fn e s h =
    let fresh : IsFresh s = subst FreshOpen h (mp4tag_open-FreshOpen fs writable fn) in
    let good = parse-Good millis s fresh.room.ident fresh.parsedone fresh.room in
    (λ k. subst Good k good, λ t k. subst Good k good)
