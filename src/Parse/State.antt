-- ===== src/Parse/State.antt =====
-- The fields of libmp4tag_t of mp4tagint.h that mp4tagparse.c works on, their start values in
-- mp4tag_init_tags of libmp4tag.c, and mp4tag_data_read and mp4tag_data_seek of mp4tagparse.c on a file. A
-- file is its bytes, and its position is the field `offset`.
use libmp4tag.CString.{Bytes}
use libmp4tag.Prelude.{
  ℕ, ◌+◌, Bool, false, Option, none, some, length, take, drop, leb, ltb, ◌==◌, if◌then◌else◌,
}
use libmp4tag.Prelude.Int.{ℤ, pos}
use libmp4tag.Tags.{Libmp4tag, Mp4error}
use libmp4tag.Write.Place.{Layout}

-- The flags for the bug of version 1.3.0.
pub record Bug : Type 0 where
  pub ilst_remaining : ℤ
  pub ilstremain : Bool
  pub ilstend : Bool
  pub ilstdone : Bool
  pub freeneg : Bool
  pub udtazero : Bool
  pub dofix : Bool

-- The dates are the bits of the fields. The last two are bits of dbgflags.
pub record Parser : Type 0 where
  pub file : Bytes
  pub offset : ℕ
  pub tags : Libmp4tag
  pub place : Layout
  pub bug : Bug
  pub rem_length : ℕ → ℤ
  pub base_offset_count : ℕ
  pub taglist_orig_len : ℕ
  pub creationdate : ℕ
  pub modifieddate : ℕ
  pub samplerate : ℕ
  pub duration : ℤ
  pub processdata : Bool
  pub checkforfree : Bool
  pub parsedone : Bool
  pub mp7meta : Bool
  pub canwrite : Bool
  pub print_structure : Bool
  pub dump_co : Bool

abbrev pub set_error : Parser → Mp4error → Parser
set_error s e = record s { tags = record s.tags { mp4error = e } }

-- An entry of an array.
abbrev pub put {ℓ} : {A : Type ℓ} → (ℕ → A) → ℕ → A → ℕ → A
put f i v j = if j == i then v else f j

-- What is left of the file.
abbrev pub rest_of : Parser → Bytes
rest_of s = drop s.offset s.file

-- The bytes that were read, if there were as many.
unfoldable pub data_read : Parser → ℕ → Option Bytes × Parser
data_read s sz =
    let got = take sz (rest_of s) in
    (
      if ltb 0 sz then if leb sz (length got) then some got else none else none,
      record s { offset = s.offset + length got },
    )

-- A seek behind the end of a file succeeds.
abbrev pub data_seek : Parser → ℕ → Parser
data_seek s skiplen = record s { offset = s.offset + skiplen }

abbrev no_bug : Bug
no_bug = record {
  ilst_remaining = pos 0;
  ilstremain = false;
  ilstend = false;
  ilstdone = false;
  freeneg = false;
  udtazero = false;
  dofix = false;
}

abbrev init_place : Layout → Layout
init_place l = record l {
  base_lengths = λ i. 0;
  base_offsets = λ i. 0;
  taglist_orig_data_len = 0;
  taglist_base_offset = 0;
  taglist_offset = 0;
  taglist_len = 0;
  interior_free_len = 0;
  exterior_free_len = 0;
  parents = 0;
  noilst_offset = 0;
  after_ilst_offset = 0;
  insert_delta = 0;
  blocks = record { stco_offset = 0; stco_len = 0; co64_offset = 0; co64_len = 0 };
  unlimited = false;
}

unfoldable pub init_tags : Parser → Parser
init_tags s = record s {
  offset = 0;
  tags = record s.tags {
    tags = none;
    tagalloccount = 0;
    datacount = 0;
    iterator = 0;
    mp4error = Mp4error.ok;
    parsed = false;
  };
  place = init_place s.place;
  bug = no_bug;
  rem_length = λ i. pos 0;
  base_offset_count = 0;
  taglist_orig_len = 0;
  creationdate = 0;
  modifieddate = 0;
  samplerate = 0;
  duration = pos 0;
  processdata = false;
  checkforfree = false;
  parsedone = false;
  mp7meta = false;
}
