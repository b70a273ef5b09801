-- ===== src/Cli/Show.antt =====
-- displayTag of mp4tagcli.c: what is printed of a tag.
use libmp4tag.Api.{Mp4tagpub}
use libmp4tag.CString.{Bytes, codes, str_eq, c_string}
use libmp4tag.Const.{id_png}
use libmp4tag.Parse.Print.{show_u64, show_signed}
use libmp4tag.Prelude.{suc, ◌%◌, ◌^◌, none, some, [], ◌∷◌, ◌++◌, length, ltb, ◌==◌, if◌then◌else◌}
use libmp4tag.Prelude.Int.{ℤ, pos, negsuc, is_positive}

-- A number printed with %d.
abbrev pub show_ℤ : ℤ → Bytes
show_ℤ (pos n) = show_u64 n
show_ℤ (negsuc n) = b'-' ∷ show_u64 (suc n)

abbrev pub newline : Bytes
newline = 10 ∷ []

-- The name, and the index where it is not the first.
abbrev pub label : Bytes → ℤ → Bytes
label tag dataidx = if is_positive dataidx then tag ++ (b':' ∷ show_ℤ dataidx) else tag

abbrev pub show_text : Mp4tagpub → Bytes
show_text p = elim p.tag [
  | none ↦ []
  | some tag ↦ elim p.value [
    | none ↦ []
    | some text ↦ label tag p.dataidx ++ (codes "=" ++ (c_string text ++ newline))
  ]
]

abbrev pub cover_kind : Bytes → Mp4tagpub → Bytes
cover_kind tag p =
    if str_eq tag (codes "covr")
    then if p.covertype == id_png then codes "png " else codes "jpg "
    else []

abbrev pub show_covername : Bytes → Mp4tagpub → Bytes
show_covername tag p = elim p.covername [
  | none ↦ []
  | some name ↦
      if ltb 0 (length (c_string name))
      then tag
        ++ (codes ":" ++ (show_ℤ p.dataidx ++ (codes ":name=" ++ (c_string name ++ newline))))
      else []
]

abbrev pub show_binary : Mp4tagpub → Bytes
show_binary p = elim p.tag [
  | none ↦ []
  | some tag ↦
      label tag p.dataidx
      ++ (codes "=(data: "
          ++ (cover_kind tag p
              ++ (show_signed 64 (p.datalen % 2 ^ 64) ++ (codes " bytes)" ++ newline))))
      ++ show_covername tag p
]

unfoldable pub display_tag : Mp4tagpub → Bytes
display_tag p = if p.binary then show_binary p else show_text p
