-- ===== src/Parse/Mdhd.antt =====
-- mp4tag_process_mdhd of mp4tagparse.c. The floating-point division is a parameter: `millis` takes the
-- duration and the time scale.
use libmp4tag.CString.{Bytes}
use libmp4tag.Parse.State.{Parser}
use libmp4tag.Prelude.{
  ℕ, ◌/◌, ◌^◌, Option, none, some, length, take, drop, leb, ltb, ◌==◌, if◌then◌else◌,
}
use libmp4tag.Prelude.Int.{ℤ}
use libmp4tag.Write.Bytes.{be_value}

-- boxmdhd8_t without its flags.
pub record Mdhd : Type 0 where
  pub creationdate : ℕ
  pub modifieddate : ℕ
  pub timescale : ℕ
  pub duration : ℕ

abbrev field : Bytes → ℕ → ℕ → ℕ
field p at n = be_value 0 (take n (drop at p))

abbrev mdhd_32 : Bytes → Mdhd
mdhd_32 p = record {
  creationdate = field p 4 4;
  modifieddate = field p 8 4;
  timescale = field p 12 4;
  duration = field p 16 4;
}

abbrev mdhd_64 : Bytes → Mdhd
mdhd_64 p = record {
  creationdate = field p 4 8;
  modifieddate = field p 12 8;
  timescale = field p 20 4;
  duration = field p 24 8;
}

-- The version is the highest byte of the flags. `none` is a read behind the data.
unfoldable pub read_mdhd : Bytes → Option Mdhd
read_mdhd p =
    if leb 4 (length p)
    then if field p 0 4 / 2 ^ 24 == 0
      then if leb 24 (length p) then some (mdhd_32 p) else none
      else if leb 36 (length p)
      then some (mdhd_64 p)
      else none
    else none

abbrev keep_mdhd : (ℕ → ℕ → ℤ) → Parser → Mdhd → Parser
keep_mdhd millis s m =
    if ltb 0 m.duration
    then record s {
      creationdate = m.creationdate;
      modifieddate = m.modifieddate;
      samplerate = m.timescale;
      duration = millis m.duration m.timescale;
    }
    else s

unfoldable pub process_mdhd : (ℕ → ℕ → ℤ) → Parser → Bytes → Option Parser
process_mdhd millis s p = elim (read_mdhd p) [ none ↦ none | some m ↦ some (keep_mdhd millis s m) ]
