-- ===== src/Parse/Stream.antt =====
-- mp4tag_data_read and mp4tag_data_seek of mp4tagparse.c on a stream. The application's callback is a
-- parameter, with its state, and so is the clock, by what it shows at each look.
use libmp4tag.CString.{Bytes}
use libmp4tag.Parse.State.{Parser, rest_of, data_read}
use libmp4tag.Prelude.{
  ℕ, zero, suc, ◌+◌, ◌-◌, ◌<◌, ◌≤◌, ◌≡◌, ◌≢◌, refl, sym, ap, subst, ◌∙◌, true, false, if_ind,
  Option, none, some, [], ◌∷◌, ◌++◌, length, take, drop, ltb, leb, lt→ltb, ◌==◌, if◌then◌else◌,
  length-append, arith,
}
use mathlib.Core.List.{append_assoc}
use mathlib.Core.Option.{some-ne-none}

-- The bytes that are read, if there are as many before the time is over; how far the offset moves; and the
-- callback's state.
pub record StreamRead {ℓ} (U : Type ℓ) : Type ℓ where
  pub got : Option Bytes
  pub moved : ℕ
  pub userdata : U

module _ {ℓ} {U : Type ℓ} (readcb : U → ℕ → Bytes × U) (now : ℕ → ℕ) where
  -- The loop, of which each round asks for what is missing. `look` counts the looks at the clock.
  unfoldable pub stream_loop : ℕ → ℕ → ℕ → ℕ → Bytes → U → Option (StreamRead U)
  stream_loop zero tmval look bwant read u = none
  stream_loop (suc fuel) tmval look bwant read u =
      let (bytes, u') = readcb u bwant in
      let rest = stream_loop fuel tmval (suc look) (bwant - length bytes) (read ++ bytes) u' in
      if bwant - length bytes == 0
      then some
          (record { got = some (read ++ bytes); moved = length (read ++ bytes); userdata = u' })
      else if ltb tmval (now look)
      then some (record { got = none; moved = length (read ++ bytes); userdata = u' })
      else rest

  unfoldable pub stream_read : ℕ → ℕ → ℕ → U → Option (StreamRead U)
  unfolding stream_loop
  stream_read fuel timeout sz u =
      let rest = stream_loop fuel (now 0 + timeout) 1 sz [] u in
      if sz == 0 then some (record { got = none; moved = 0; userdata = u }) else rest

-- What the application promises: `view` is what the stream still gives, and each call hands out the next
-- bytes of it, no more than were asked for, and perhaps fewer.
pub record Delivers {ℓ} {U : Type ℓ} (readcb : U → ℕ → Bytes × U) (view : U → Bytes) : Type ℓ where
  pub next : (u : U) (n : ℕ) → (readcb u n).0 ++ view (readcb u n).1 ≡ view u
  pub at_most : (u : U) (n : ℕ) → length (readcb u n).0 ≤ n

-- What a read has taken of the stream's bytes `c`.
record IsRead {ℓ} {U : Type ℓ} (view : U → Bytes) (c : Bytes) (sz : ℕ) (r : StreamRead U)
    : Type ℓ where
  read : Bytes
  split : read ++ view r.userdata ≡ c
  moved : r.moved ≡ length read
  got : r.got ≡ (if length read == sz then some read else none)
  small : length read ≤ sz

take-append_all : (xs ys : Bytes) → take (length xs) (xs ++ ys) ≡ xs
take-append_all [] ys = refl
take-append_all (x ∷ xs) ys = ap (◌∷◌ x) (take-append_all xs ys)

drop-append_all : (xs ys : Bytes) → drop (length xs) (xs ++ ys) ≡ ys
drop-append_all [] ys = refl
drop-append_all (x ∷ xs) ys = drop-append_all xs ys

-- A result is what was read, if the read has ended.
abbrev ReadIn {ℓ} : {U : Type ℓ} → (U → Bytes) → Bytes → ℕ → Option (StreamRead U) → Type ℓ
ReadIn view c sz none = Unit
ReadIn view c sz (some r) = IsRead view c sz r

module _ {ℓ} {U : Type ℓ} (readcb : U → ℕ → Bytes × U) (now : ℕ → ℕ) where
  abbrev answer : U → ℕ → Bytes
  answer u n = (readcb u n).0

  -- The clock that passes the time ends the loop.
  stream_loop-ends :
      (fuel tmval look bwant : ℕ) (read : Bytes) (u : U) (k : ℕ)
      → tmval < now (look + k)
      → k < fuel
      → stream_loop readcb now fuel tmval look bwant read u ≢ none
  unfolding stream_loop
  stream_loop-ends zero tmval look bwant read u k late h = absurd (omega arith)
  stream_loop-ends (suc fuel) tmval look bwant read u zero late h =
      let here : look + 0 ≡ look = omega arith in
      let late' : tmval < now look = subst (λ (n : ℕ). tmval < now n) here late in ground arith
  stream_loop-ends (suc fuel) tmval look bwant read u (suc k) late h =
      let here : look + suc k ≡ suc look + k = omega arith in
      let late' : tmval < now (suc look + k) = subst (λ (n : ℕ). tmval < now n) here late in
      let read' = read ++ answer u bwant in
      let more =
        stream_loop-ends fuel tmval (suc look) (bwant - length (answer u bwant)) read'
          (readcb u bwant).1 k late' (omega arith) in
      if_ind (λ (o : Option (StreamRead U)). o ≢ none) (bwant - length (answer u bwant) == 0)
        (λ all. some-ne-none _)
        (λ left.
          if_ind (λ (o : Option (StreamRead U)). o ≢ none) (ltb tmval (now look))
            (λ now_late. some-ne-none _) (λ early. more))

  -- If the clock passes the time at a look at it, the read ends with fuel for each look.
  pub stream_read-ends :
      (fuel timeout sz : ℕ) (u : U) (k : ℕ)
      → now 0 + timeout < now (suc k)
      → k < fuel
      → stream_read readcb now fuel timeout sz u ≢ none
  unfolding stream_read
  stream_read-ends fuel timeout sz u k late h =
      if_ind (λ (o : Option (StreamRead U)). o ≢ none) (sz == 0) (λ nothing. some-ne-none _)
        (λ some_bytes.
          let one : 1 + k ≡ suc k = omega arith in
          stream_loop-ends fuel (now 0 + timeout) 1 sz [] u k
            (subst (λ (n : ℕ). now 0 + timeout < now n) (sym one) late) h)

module _ {ℓ} {U : Type ℓ} (readcb : U → ℕ → Bytes × U) (now : ℕ → ℕ) (view : U → Bytes)
    (law : Delivers readcb view) where
  stream_loop-ReadIn :
      (fuel tmval look bwant : ℕ) (read : Bytes) (u : U)
      → 0 < bwant
      → ReadIn view
          (read ++ view u)
          (length read + bwant)
          (stream_loop readcb now fuel tmval look bwant read u)
  unfolding stream_loop
  stream_loop-ReadIn zero tmval look bwant read u h = tt
  stream_loop-ReadIn (suc fuel) tmval look bwant read u h =
      let u' = (readcb u bwant).1 in
      let read' = read ++ answer readcb now u bwant in
      let split : read' ++ view u' ≡ read ++ view u =
        append_assoc read (answer readcb now u bwant) (view u')
        ∙ ap (◌++◌ read) (law.next u bwant) in
      let size : length read' ≡ length read + length (answer readcb now u bwant) =
        length-append read (answer readcb now u bwant) in
      let small : length (answer readcb now u bwant) ≤ bwant = law.at_most u bwant in
      if_ind (ReadIn view (read ++ view u) (length read + bwant))
        (bwant - length (answer readcb now u bwant) == 0)
        (λ all. record {
          read = read';
          split = split;
          moved = refl;
          got = ground arith;
          small = ground arith;
        })
        (λ left.
          if_ind (ReadIn view (read ++ view u) (length read + bwant)) (ltb tmval (now look))
            (λ late. record {
              read = read';
              split = split;
              moved = refl;
              got = ground arith;
              small = ground arith;
            })
            (λ early.
              let sum : length read' + (bwant - length (answer readcb now u bwant))
                  ≡ length read + bwant =
                ground arith in
              let more =
                stream_loop-ReadIn fuel tmval (suc look)
                  (bwant - length (answer readcb now u bwant)) read' u' (ground arith) in
              subst
                (λ (n : ℕ). ReadIn view (read ++ view u) n (
                  stream_loop readcb now fuel tmval (suc look)
                    (bwant - length (answer readcb now u bwant)) read' u'))
                sum
                (subst
                  (λ (c : Bytes).
                    ReadIn view c (length read' + (bwant - length (answer readcb now u bwant))) (
                      stream_loop readcb now fuel tmval (suc look)
                        (bwant - length (answer readcb now u bwant)) read' u'))
                  split more)))

  stream_read-ReadIn :
      (fuel timeout sz : ℕ) (u : U) (r : StreamRead U)
      → 0 < sz
      → stream_read readcb now fuel timeout sz u ≡ some r
      → IsRead view (view u) sz r
  unfolding stream_read
  stream_read-ReadIn fuel timeout sz u r pos e =
      let nonzero : (sz == 0) ≡ false = ground arith in
      let run : stream_loop readcb now fuel (now 0 + timeout) 1 sz [] u ≡ some r =
        sym (rw (stream_read, nonzero) refl) ∙ e in
      let front : 0 + sz ≡ sz = omega arith in
      subst (ReadIn view (view u) sz) run (
        subst
          (λ (n : ℕ).
            ReadIn view (view u) n (stream_loop readcb now fuel (now 0 + timeout) 1 sz [] u))
          front (stream_loop-ReadIn fuel (now 0 + timeout) 1 sz [] u pos))

  -- On a stream whose callback hands out its bytes in pieces of any size, no more than were asked
  -- for: a mp4tag_data_read of at least one byte that ends moves the offset by no more than was
  -- asked for, and by less where it gives nothing; what it gives is just as long as was asked for.
  pub stream_read_bounds :
      (fuel timeout sz : ℕ) (u : U) (r : StreamRead U)
      → 0 < sz
      → stream_read readcb now fuel timeout sz u ≡ some r
      → (r.moved ≤ sz)
        × (r.got ≡ none → r.moved < sz)
        × ((bytes : Bytes) → r.got ≡ some bytes → (length bytes ≡ sz) × (r.moved ≡ sz))
  stream_read_bounds fuel timeout sz u r pos e =
      let h = stream_read-ReadIn fuel timeout sz u r pos e in
      (
        omega (arith, h.moved, h.small),
        λ g. ground (arith, h.got, h.moved, h.small),
        λ bytes g. (ground (arith, h.got, h.moved), ground (arith, h.got, h.moved)),
      )

  IsRead-data_read :
      (s : Parser) (sz : ℕ) (r : StreamRead U) {bytes : Bytes}
      → IsRead view (rest_of s) sz r
      → 0 < sz
      → r.got ≡ some bytes
      → (data_read s sz ≡ (some bytes, record s { offset = s.offset + r.moved }))
        × (view r.userdata ≡ drop sz (rest_of s))
  unfolding data_read
  IsRead-data_read s sz r {bytes} h pos g =
      let full : length h.read ≡ sz = ground (arith, h.got) in
      let same : h.read ≡ bytes = ground (arith, h.got) in
      let front : take sz (rest_of s) ≡ h.read =
        rw (← full) (rw (← h.split) (take-append_all h.read (view r.userdata))) in
      let back : drop sz (rest_of s) ≡ view r.userdata =
        rw (← full) (rw (← h.split) (drop-append_all h.read (view r.userdata))) in
      let fits : leb sz (length h.read) ≡ true = ground arith in
      (rw (data_read, lt→ltb 0 sz pos, front, fits, h.moved, same) refl, sym back)

  -- On a stream whose callback hands out its bytes in pieces of any size, no more than were asked
  -- for: if mp4tag_data_read of at least one byte gets what it wants before the time is over, it
  -- gives what it gives on a file of these bytes, leaves the same offset, and leaves the stream at
  -- the bytes behind them.
  pub stream_read-data_read :
      (s : Parser) (fuel timeout sz : ℕ) (u : U) (r : StreamRead U) {bytes : Bytes}
      → view u ≡ rest_of s
      → 0 < sz
      → stream_read readcb now fuel timeout sz u ≡ some r
      → r.got ≡ some bytes
      → (data_read s sz ≡ (some bytes, record s { offset = s.offset + r.moved }))
        × (view r.userdata ≡ drop sz (rest_of s))
  stream_read-data_read s fuel timeout sz u r v pos e g =
      let good = stream_read-ReadIn fuel timeout sz u r pos e in
      IsRead-data_read s sz r (subst (λ (c : Bytes). IsRead view c sz r) v good) pos g
