-- ===== src/Const/Table.antt =====
-- mp4taglist: the tags that may be added when the file has none of that name, with the order in which
-- they are written, the type of their data and its length.
use libmp4tag.CString.{Bytes, codes}
use libmp4tag.Const.{copyright, id_string, id_num, id_bool, id_data, id_jpg}
use libmp4tag.Prelude.{ℕ, ◌∷◌, List, []}
use libmp4tag.Prelude.Int.{ℤ, pos, negsuc}

pub record Mp4tagdef : Type 0 where
  pub priority : ℤ
  pub tag : Bytes
  pub identtype : ℕ
  pub len : ℕ

abbrev tagdef : ℤ → Bytes → ℕ → ℕ → Mp4tagdef
tagdef p t i n = record { priority = p; tag = t; identtype = i; len = n }

-- Priority -1 is MP4TAG_PRI_NOWRITE.
unfoldable pub mp4taglist : List Mp4tagdef
mp4taglist =
    tagdef (pos 2) (codes "aART") id_string 0
    ∷ tagdef (pos 6) (codes "akID") id_num 1
    ∷ tagdef (pos 6) (codes "atID") id_num 4
    ∷ tagdef (pos 7) (codes "catg") id_string 0
    ∷ tagdef (pos 6) (codes "cmID") id_num 4
    ∷ tagdef (pos 6) (codes "cnID") id_num 4
    ∷ tagdef (pos 10) (codes "covr") id_jpg 0
    ∷ tagdef (pos 5) (codes "cpil") id_num 1
    ∷ tagdef (pos 7) (codes "cprt") id_string 0
    ∷ tagdef (pos 7) (codes "desc") id_string 0
    ∷ tagdef (pos 4) (codes "disk") id_data 6
    ∷ tagdef (pos 7) (codes "egid") id_string 0
    ∷ tagdef (pos 6) (codes "geID") id_num 4
    ∷ tagdef (negsuc 0) (codes "gnre") id_data 2
    ∷ tagdef (pos 6) (codes "hdvd") id_num 1
    ∷ tagdef (pos 7) (codes "keyw") id_string 0
    ∷ tagdef (pos 7) (codes "ldes") id_string 0
    ∷ tagdef (pos 7) (codes "ownr") id_string 0
    ∷ tagdef (pos 5) (codes "pcst") id_bool 1
    ∷ tagdef (pos 5) (codes "pgap") id_bool 1
    ∷ tagdef (pos 6) (codes "plID") id_num 8
    ∷ tagdef (pos 7) (codes "purd") id_string 0
    ∷ tagdef (pos 7) (codes "purl") id_string 0
    ∷ tagdef (pos 6) (codes "rtng") id_num 1
    ∷ tagdef (pos 6) (codes "sfID") id_num 4
    ∷ tagdef (pos 6) (codes "shwm") id_bool 1
    ∷ tagdef (pos 7) (codes "soaa") id_string 0
    ∷ tagdef (pos 7) (codes "soal") id_string 0
    ∷ tagdef (pos 7) (codes "soar") id_string 0
    ∷ tagdef (pos 7) (codes "soco") id_string 0
    ∷ tagdef (pos 7) (codes "sonm") id_string 0
    ∷ tagdef (pos 7) (codes "sosn") id_string 0
    ∷ tagdef (pos 6) (codes "stik") id_num 1
    ∷ tagdef (pos 5) (codes "tmpo") id_num 2
    ∷ tagdef (pos 4) (codes "trkn") id_data 8
    ∷ tagdef (pos 7) (codes "tven") id_string 0
    ∷ tagdef (pos 6) (codes "tves") id_num 4
    ∷ tagdef (pos 7) (codes "tvnn") id_string 0
    ∷ tagdef (pos 7) (codes "tvsh") id_string 0
    ∷ tagdef (pos 6) (codes "tvsn") id_num 4
    ∷ tagdef (pos 1) (copyright "ART") id_string 0
    ∷ tagdef (pos 2) (copyright "alb") id_string 0
    ∷ tagdef (pos 7) (copyright "cmt") id_string 0
    ∷ tagdef (pos 5) (copyright "day") id_string 0
    ∷ tagdef (pos 7) (copyright "dir") id_string 0
    ∷ tagdef (pos 3) (copyright "gen") id_string 0
    ∷ tagdef (pos 7) (copyright "grp") id_string 0
    ∷ tagdef (pos 9) (copyright "lyr") id_string 0
    ∷ tagdef (pos 6) (copyright "mvc") id_num 2
    ∷ tagdef (pos 6) (copyright "mvi") id_num 2
    ∷ tagdef (pos 7) (copyright "mvn") id_string 0
    ∷ tagdef (pos 0) (copyright "nam") id_string 0
    ∷ tagdef (pos 7) (copyright "nrt") id_string 0
    ∷ tagdef (pos 7) (copyright "pub") id_string 0
    ∷ tagdef (pos 5) (copyright "too") id_string 0
    ∷ tagdef (pos 7) (copyright "wrk") id_string 0
    ∷ tagdef (pos 2) (copyright "wrt") id_string 0
    ∷ []
