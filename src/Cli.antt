-- ===== src/Cli.antt =====
-- mp4tagcli.c, the command line program: the variables of main and the loop over the options. getopt is a
-- parameter, by the options that it returns.
pub mod Show
pub mod Arguments
pub mod World
pub mod Main
pub mod Names
pub mod Edits
pub mod Listing
pub mod Consistent
pub mod Runs
pub mod Stages
pub mod Ends
pub mod Reads
mod Tests
use libmp4tag.CString.{Bytes, codes, str_eq, atoi}
use libmp4tag.Const.{copyright_str}
use libmp4tag.Prelude.{
  ℕ, ◌-◌, Bool, true, false, ◌&&◌, ◌||◌, Option, none, some, List, [], ◌∷◌, ◌++◌, length, take,
  get_elem?, leb, ◌==◌, if◌then◌else◌,
}
use libmp4tag.Prelude.Int.{ℤ, pos}
use libmp4tag.Write.Place.{as_u32, as_i32}

abbrev pub id_max : ℕ
id_max = 255

abbrev fourth_is : ℕ → Bytes → Bool
fourth_is c tag = elim (get_elem? tag 3) [ none ↦ false | some x ↦ x == c ]

abbrev pub renamed : Bytes → Bytes
renamed tag =
    if str_eq tag (codes "art")
    then codes "ART"
    else if str_eq tag (codes "aart")
    then codes "aART"
    else tag

abbrev pub prefixed : Bytes → Bytes
prefixed tag =
    if length tag == 3 || (leb 4 (length tag) && fourth_is b':' tag)
    then copyright_str ++ tag
    else tag

-- setTagName; snprintf leaves a place for the terminator.
unfoldable pub set_tag_name : Bytes → ℕ → Bytes
set_tag_name tag sz = take (sz - 1) (prefixed (renamed tag))

-- What getopt_long_only returns for an option, with optarg and optind.
pub record Getopt : Type 0 where
  pub c : ℕ
  pub optarg : Option Bytes
  pub optind : ℕ

-- The variables of main that the options set.
pub record Settings : Type 0 where
  pub tagname : Bytes
  pub infname : Option Bytes
  pub copyto : Option Bytes
  pub preservecmd : Option Bytes
  pub dumpfn : Option Bytes
  pub asstream : Bool
  pub clean : Bool
  pub display : Bool
  pub dump : Bool
  pub duration : Bool
  pub forcebinary : Bool
  pub testbin : Bool
  pub dbgflags : ℤ
  pub keep_backup : Bool
  pub freespacesz : ℤ

abbrev pub defaults : Settings
defaults = record {
  tagname = [];
  infname = none;
  copyto = none;
  preservecmd = none;
  dumpfn = none;
  asstream = false;
  clean = false;
  display = false;
  dump = false;
  duration = false;
  forcebinary = false;
  testbin = false;
  dbgflags = pos 0;
  keep_backup = false;
  freespacesz = pos 0;
}

-- utf8argv [optind - 1], if there is an argument.
abbrev targ : List Bytes → Getopt → Option Bytes
targ argv o = elim o.optarg [ none ↦ none | some arg ↦ get_elem? argv (o.optind - 1) ]

abbrev or_else : Option Bytes → Option Bytes → Option Bytes
or_else none old = old
or_else (some x) old = some x

abbrev set_display : Settings → Option Bytes → Settings
set_display set none = record set { display = true }
set_display set (some arg) = record set { display = true; tagname = set_tag_name arg id_max }

abbrev set_freespace : Settings → Option Bytes → Settings
set_freespace set none = set
set_freespace set (some arg) = record set { freespacesz = as_i32 (as_u32 (atoi arg)) }

abbrev set_debug : Settings → Option Bytes → Settings
set_debug set none = set
set_debug set (some arg) = record set { dbgflags = as_i32 (as_u32 (atoi arg)) }

-- The switch, but for the version. Long values of atol and atoi are cut to 32 bits.
unfoldable pub apply_option : List Bytes → Settings → Getopt → Settings
unfolding set_tag_name
apply_option argv set o =
    if o.c == b'b'
    then record set { forcebinary = true }
    else if o.c == b'B'
    then record set { testbin = true }
    else if o.c == b'c'
    then record set { clean = true }
    else if o.c == b'D'
    then record set { dump = true; dumpfn = or_else (targ argv o) set.dumpfn }
    else if o.c == b'd'
    then set_display set (targ argv o)
    else if o.c == b'f'
    then record set { infname = or_else (targ argv o) set.infname }
    else if o.c == b'F'
    then set_freespace set (targ argv o)
    else if o.c == b'k'
    then record set { keep_backup = true }
    else if o.c == b's'
    then record set { asstream = true }
    else if o.c == b't'
    then record set { copyto = or_else (targ argv o) set.copyto }
    else if o.c == b'u'
    then record set { duration = true }
    else if o.c == b'P'
    then record set { preservecmd = or_else (targ argv o) set.preservecmd }
    else if o.c == b'x'
    then set_debug set o.optarg
    else set

-- The loop; `none` is the exit behind the version.
unfoldable pub run_options : List Bytes → List Getopt → Settings → Option Settings
unfolding apply_option
run_options argv [] set = some set
run_options argv (o ∷ os) set =
    let rest = run_options argv os (apply_option argv set o) in if o.c == b'v' then none else rest
