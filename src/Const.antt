-- ===== src/Const.antt =====
-- mp4const.c and the constants of mp4tagint.h: box identifiers, internal values, the table of known
-- tags and the genre list. COPYRIGHT_STR is the two bytes 0xc2 0xa9.
pub mod Table
pub mod Genres
use Prim.Native.String.{String}
use libmp4tag.CString.{Bytes, codes}
use libmp4tag.Prelude.{ℕ, ◌+◌, ◌*◌, ◌∷◌, ◌++◌, List, []}

-- enum of box identifiers, and boxids, the four bytes of each.
pub data BoxId : Type 0 where
  co64 free ftyp hdlr ilst mdhd mdia meta minf moov stbl stco trak udta : BoxId
  covr custom disk gen gnre trkn : BoxId
  data_box mean name : BoxId

abbrev pub boxids : BoxId → Bytes
boxids co64 = codes "co64"
boxids free = codes "free"
boxids ftyp = codes "ftyp"
boxids hdlr = codes "hdlr"
boxids ilst = codes "ilst"
boxids mdhd = codes "mdhd"
boxids mdia = codes "mdia"
boxids meta = codes "meta"
boxids minf = codes "minf"
boxids moov = codes "moov"
boxids stbl = codes "stbl"
boxids stco = codes "stco"
boxids trak = codes "trak"
boxids udta = codes "udta"
boxids covr = codes "covr"
boxids custom = codes "----"
boxids disk = codes "disk"
boxids gen = codes "gen"
boxids gnre = codes "gnre"
boxids trkn = codes "trkn"
boxids data_box = codes "data"
boxids mean = codes "mean"
boxids name = codes "name"

abbrev pub copyright_str : Bytes
copyright_str = 0xc2 ∷ 0xa9 ∷ []

abbrev pub copyright : String → Bytes
copyright s = copyright_str ++ codes s

abbrev pub id_len : ℕ
id_len = 4

-- Room for the two bytes of the copyright symbol, three characters and the terminator.
abbrev pub id_disp_len : ℕ
id_disp_len = 6

abbrev pub prefix_char : ℕ
prefix_char = 0xa9

abbrev pub id_bool : ℕ
id_bool = 0x15

abbrev pub id_string : ℕ
id_string = 0x01

abbrev pub id_data : ℕ
id_data = 0x00

abbrev pub id_num : ℕ
id_num = 0x15

abbrev pub id_jpg : ℕ
id_jpg = 0x0d

abbrev pub id_png : ℕ
id_png = 0x0e

abbrev pub boxhead_sz : ℕ
boxhead_sz = 4 + id_len

-- data length, identifier, flags and reserved.
abbrev pub data_sz : ℕ
data_sz = id_len + 4 + 4 + 4

-- 'hdlr', and 'meta' with its flags.
abbrev pub hdlr_sz : ℕ
hdlr_sz = boxhead_sz + 4 * 6 + 1

abbrev pub meta_sz : ℕ
meta_sz = boxhead_sz + 4

abbrev pub level_max : ℕ
level_max = 15

abbrev pub copy_size : ℕ
copy_size = 5 * 1024 * 1024

abbrev pub pri_custom : ℕ
pri_custom = 8

abbrev pub pri_max : ℕ
pri_max = 20

abbrev pub free_space_sz : ℕ
free_space_sz = 2048

abbrev pub mp4tag_ident : ℕ
mp4tag_ident = 0x6c69626d70347467
