-- ===== src/Parse/Ends.antt =====
-- The parts of mp4tag_parse_file of mp4tagparse.c: each ends.
use libmp4tag.CString.{Bytes}
use libmp4tag.Const.{BoxId, boxhead_sz, level_max}
use libmp4tag.Parse.Boxes.{Box, is_box, descends, skip_len, store_base, end_box}
use libmp4tag.Parse.File.{
  Parsed, and_then, with_tags, process_list, process_box, when_read, enter_level, descend, when_box,
}
use libmp4tag.Parse.Later.{
  IsLater, IsLater-refl, IsLater-trans, store_base-IsLater, kept, set_error-IsLater,
}
use libmp4tag.Parse.Mdhd.{read_mdhd, process_mdhd}
use libmp4tag.Parse.Room.{Roomy, process_tag-Roomy, process_covr-Roomy}
use libmp4tag.Tags.Consistent.{HasRoom}
use libmp4tag.Tags.{Mp4error}
use libmp4tag.Parse.State.{Parser, put, data_seek}
use libmp4tag.Parse.Tag.{Outcome}
use libmp4tag.Prelude.{
  ℕ, suc, ◌+◌, ◌-◌, ◌%◌, ◌^◌, ◌<◌, ◌≡◌, refl, ap, not, ◌&&◌, if_ind, option_ind, Option, none, some,
  length, leb, ltb, ◌==◌, arith,
}
use libmp4tag.Prelude.Int.{ℤ, pos, neg, ◌+ℤ◌}

-- What a parse from `s` may give: the fuel is not used up, and where it ends, `R` holds.
abbrev pub Ends : (Parser → Parser → Type 0) → Parser → Parsed → Type 0
Ends R s (Parsed.done t) = R s t
Ends R s Parsed.overrun = Unit
Ends R s Parsed.endless = Unit
Ends R s Parsed.unfinished = ⊥

with_tags-Ends :
    (s : Parser) (o : Outcome) → (HasRoom s.tags → Roomy o) → Ends IsLater s (with_tags s o)
with_tags-Ends s (Outcome.done l) h = record { file = refl; offset = omega arith; tags = h }
with_tags-Ends s Outcome.overrun h = tt
with_tags-Ends s Outcome.unfinished h = tt

process_list-Ends : (b : Box) (p : Bytes) (s : Parser) → Ends IsLater s (process_list b p s)
process_list-Ends b p s =
    if_ind (Ends IsLater s) s.processdata
      (λ e.
        if_ind (Ends IsLater s) (is_box b BoxId.covr)
          (λ k. with_tags-Ends s _ (process_covr-Roomy (suc (length p)) s.tags (b.len % 2 ^ 32) p))
          (λ k. with_tags-Ends s _ (process_tag-Roomy s.tags b.nm (b.len % 2 ^ 32) p)))
      (λ e. IsLater-refl s)

abbrev KeptIn : Parser → Option Parser → Type 0
KeptIn s none = Unit
KeptIn s (some t) = IsLater s t

process_mdhd-KeptIn :
    (millis : ℕ → ℕ → ℤ) (s : Parser) (p : Bytes) → KeptIn s (process_mdhd millis s p)
unfolding process_mdhd
process_mdhd-KeptIn millis s p =
    option_ind (KeptIn s) (read_mdhd p) (λ e. tt)
      (λ m e.
        if_ind (IsLater s) (ltb 0 m.duration) (λ k. kept s _ refl refl refl) (λ k. IsLater-refl s))

pub data_seek-IsLater : (s : Parser) (n : ℕ) → IsLater s (data_seek s n)
data_seek-IsLater s n = record { file = refl; offset = omega arith; tags = λ h. h }

-- Where there is more fuel than bytes behind the position, the loop advances.
abbrev pub Enough : ℕ → Parser → Type 0
Enough fuel s = length s.file - s.offset < fuel

pub Enough-later : (fuel : ℕ) {s t : Parser} → IsLater s t → Enough fuel s → Enough fuel t
Enough-later fuel l h = omega (arith, h, ap length l.file, l.offset)

pub later-later : (s t u : Parser) → IsLater s t → IsLater t u → IsLater s u
later-later s t u p q = IsLater-trans p q

-- What holds of the result from a later place holds from the earlier one.
module _ (R : Parser → Parser → Type 0)
    (before : (s t u : Parser) → IsLater s t → R t u → R s u) where
  pub Ends-trans : (s t : Parser) (r : Parsed) → IsLater s t → Ends R t r → Ends R s r
  Ends-trans s t (Parsed.done u) p q = before s t u p q
  Ends-trans s t Parsed.overrun p q = tt
  Ends-trans s t Parsed.endless p q = tt
  Ends-trans s t Parsed.unfinished p q = q

  pub and_then-Ends :
      (s : Parser) (r : Parsed) (f : Parser → Parsed)
      → Ends IsLater s r
      → ((t : Parser) → IsLater s t → Ends R t (f t))
      → Ends R s (and_then r f)
  and_then-Ends s (Parsed.done t) f p q = Ends-trans s t (f t) p (q t p)
  and_then-Ends s Parsed.overrun f p q = tt
  and_then-Ends s Parsed.endless f p q = tt
  and_then-Ends s Parsed.unfinished f p q = p

  pub when_read-Ends :
      (s : Parser) (r : Option Bytes × Parser) (f : Bytes → Parser → Parsed)
      (stop : Parser → Parsed)
      → IsLater s r.1
      → ((p : Bytes) (t : Parser) → IsLater s t → Ends R t (f p t))
      → ((t : Parser) → Ends R t (stop t))
      → Ends R s (when_read r f stop)
  when_read-Ends s (none, t) f stop l p q = Ends-trans s t (stop t) l (q t)
  when_read-Ends s (some x, t) f stop l p q = Ends-trans s t (f x t) l (p x t l)

  pub when_box-Ends :
      (s : Parser) (r : Option Box × Parser) (f : Box → Parser → Parsed) (stop : Parser → Parsed)
      → IsLater s r.1
      → ((b : Box) → r.0 ≡ some b → Ends R r.1 (f b r.1))
      → Ends R r.1 (stop r.1)
      → Ends R s (when_box r f stop)
  when_box-Ends s (none, t) f stop l p q = Ends-trans s t (stop t) l q
  when_box-Ends s (some b, t) f stop l p q = Ends-trans s t (f b t) l (p b refl)

after_mdhd-Ends :
    (b : Box) (p : Bytes) (s : Parser) (o : Option Parser)
    → KeptIn s o
    → Ends IsLater s (elim o [ none ↦ Parsed.overrun | some s' ↦ process_list b p s' ])
after_mdhd-Ends b p s none k = tt
after_mdhd-Ends b p s (some t) k =
    Ends-trans IsLater later-later s t (process_list b p t) k (process_list-Ends b p t)

pub process_box-Ends :
    (millis : ℕ → ℕ → ℤ) (b : Box) (p : Bytes) (s : Parser)
    → Ends IsLater s (process_box millis b p s)
unfolding process_box
process_box-Ends millis b p s =
    if_ind (Ends IsLater s) (is_box b BoxId.mdhd)
      (λ e. after_mdhd-Ends b p s (process_mdhd millis s p) (process_mdhd-KeptIn millis s p))
      (λ e. process_list-Ends b p s)

module _ (loop : ℕ → ℕ → Parser → Parsed) (fuel : ℕ)
    (advances : (boxlen level : ℕ) (s : Parser)
      → Enough fuel s
      → Ends IsLater s (loop boxlen level s)) where
  pub enter_level-Ends :
      (boxlen level : ℕ) (s : Parser)
      → Enough fuel s
      → Ends IsLater s (enter_level loop boxlen level s)
  unfolding enter_level
  enter_level-Ends boxlen level s h =
      let t = record s {
        rem_length = put s.rem_length level (pos boxlen +ℤ neg (pos boxhead_sz));
      } in
      let l : IsLater s t = kept s t refl refl refl in
      if_ind (Ends IsLater s) (leb level_max level)
        (λ e. set_error-IsLater s Mp4error.err_unable_to_process)
        (λ e.
          if_ind (Ends IsLater s) s.parsedone (λ k. IsLater-refl s)
            (λ k.
              Ends-trans IsLater later-later s t (loop boxlen level t) l
                (advances boxlen level t (Enough-later fuel l h))))

  pub descend-Ends :
      (b : Box) (level : ℕ) (s : Parser) → Enough fuel s → Ends IsLater s (descend loop b level s)
  unfolding descend
  descend-Ends b level s h =
      let t = data_seek (store_base b level s) (skip_len b) in
      let l : IsLater s t =
        IsLater-trans (store_base-IsLater b level s)
          (data_seek-IsLater (store_base b level s) (skip_len b)) in
      if_ind (Ends IsLater s) (descends b && not (b.len == 0))
        (λ e.
          Ends-trans IsLater later-later s t _ l
            (enter_level-Ends _ (level + 1) t (Enough-later fuel l h)))
        (λ e. IsLater-refl s)

pub end_box-IsLater : (b : Box) (level : ℕ) (s : Parser) → IsLater s (end_box b level s)
unfolding end_box
end_box-IsLater b level s = kept s _ refl refl refl
