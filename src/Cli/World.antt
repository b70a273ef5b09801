-- ===== src/Cli/World.antt =====
-- What the command line program works on: the files, what it has printed, and how a run can end. openparse,
-- openstream_parse and the calls that change files, of mp4tagcli.c.
use libmp4tag.Api.Open.{mp4tag_open, openstream, parse}
use libmp4tag.Api.Save.{Saved, set_option, set_debug_flags, set_free_space}
use libmp4tag.Cli.Show.{newline}
use libmp4tag.Cli.{Settings}
use libmp4tag.CString.{Bytes, codes, str_eq}
use libmp4tag.Files.{FileSystem}
use libmp4tag.Parse.File.{Parsed}
use libmp4tag.Parse.State.{Parser}
use libmp4tag.Prelude.{ℕ, Bool, true, false, Option, none, some, ◌++◌, length, if◌then◌else◌}
use libmp4tag.Prelude.Int.{ℤ, pos, eq_ℤ}
use libmp4tag.Tags.{Mp4error}
use libmp4tag.Write.Inplace.{backup_suffix}

-- What the program does not implement: the floating-point division of the duration, which files can be
-- opened for writing and which can be created, the bytes of new memory,
-- system, and the version, which the build sets.
pub record Env : Type 0 where
  pub millis : ℕ → ℕ → ℤ
  pub writable : Bytes → Bool
  pub creates : Bytes → Bool
  pub fresh : ℕ → ℕ
  pub system : Bytes → FileSystem → FileSystem
  pub version : Bytes

pub record World : Type 0 where
  pub fs : FileSystem
  pub out : Bytes
  pub errors : Bytes

-- A run goes on with a value; it exits; it reads or writes behind a buffer; it stays in the loop over a
-- cover; or the fuel is used up.
pub data Run {ℓ} (A : Type ℓ) : Type ℓ where
  value : A → World → Run A
  exit : ℕ → World → Run A
  fault : Run A
  endless : Run A
  unfinished : Run A

abbrev pub M {ℓ} : Type ℓ → Type ℓ
M A = World → Run A

infixl 5 ◌>>=◌ ◌>>◌
abbrev pub ◌>>=◌ {ℓ κ} : {A : Type ℓ} {B : Type κ} → M A → (A → M B) → M B
◌>>=◌ m f w = elim (m w) [
  | Run.value a w' ↦ f a w'
  | Run.exit status w' ↦ Run.exit status w'
  | Run.fault ↦ Run.fault
  | Run.endless ↦ Run.endless
  | Run.unfinished ↦ Run.unfinished
]

abbrev pub ◌>>◌ {ℓ} : {B : Type ℓ} → M (Unit {0}) → M B → M B
m >> k = m >>= λ _. k

abbrev pub pure {ℓ} : {A : Type ℓ} → A → M A
pure a w = Run.value a w

abbrev pub print : Bytes → M (Unit {0})
print text w = Run.value tt (record w { out = w.out ++ text })

abbrev pub print_error : Bytes → M (Unit {0})
print_error text w = Run.value tt (record w { errors = w.errors ++ text })

abbrev pub quit {ℓ} : {A : Type ℓ} → ℕ → M A
quit status w = Run.exit status w

-- A file gets new contents.
unfoldable pub put_file : Bytes → Bytes → FileSystem → FileSystem
put_file fn contents fs = record {
  stat_size = λ p. if str_eq p fn then some (length contents) else fs.stat_size p;
  open_read = λ p. if str_eq p fn then some contents else fs.open_read p;
}

-- A file is deleted, if it is there.
unfoldable pub drop_file : Bytes → FileSystem → FileSystem
drop_file fn fs = record {
  stat_size = λ p. if str_eq p fn then none else fs.stat_size p;
  open_read = λ p. if str_eq p fn then none else fs.open_read p;
}

abbrev pub remove : Bytes → M (Unit {0})
remove fn w = Run.value tt (record w { fs = drop_file fn w.fs })

abbrev pub store : Bytes → Bytes → M (Unit {0})
store fn contents w = Run.value tt (record w { fs = put_file fn contents w.fs })

abbrev or_same : Option Parser → Parser → Parser
or_same none s = s
or_same (some t) s = t

abbrev pub with_option : Settings → Parser → Parser
with_option set s = or_same (set_option (some s) set.keep_backup) s

abbrev pub with_debug : Settings → Parser → Parser
with_debug set s =
    if eq_ℤ set.dbgflags (pos 0) then s else or_same (set_debug_flags (some s) set.dbgflags) s

abbrev pub with_free_space : Settings → Parser → Parser
with_free_space set s =
    if eq_ℤ set.freespacesz (pos 0) then s else or_same (set_free_space (some s) set.freespacesz) s

abbrev pub configured : Settings → Parser → Parser
configured set s = with_free_space set (with_debug set (with_option set s))

abbrev pub parsed_run : Parsed → M Parser
parsed_run (Parsed.done s) w = Run.value s w
parsed_run Parsed.overrun w = Run.fault
parsed_run Parsed.endless w = Run.endless
parsed_run Parsed.unfinished w = Run.unfinished

module _ (env : Env) where
  abbrev pub opened_run : Bytes → Settings → Option (Mp4error × Option Parser) → M Parser
  opened_run message set none w = Run.fault
  opened_run message set (some (e, none)) w = (print_error message >> quit 1) w
  opened_run message set (some (e, some s)) w = parsed_run (parse env.millis (configured set s)) w

  -- A parse may repair the file.
  unfoldable pub open_parse : Bytes → Settings → M Parser
  open_parse fname set w =
      (do
        s ←
            opened_run (codes "unable to open " ++ (fname ++ newline)) set
              (mp4tag_open w.fs env.writable (some fname))
        store fname s.file
        pure s)
        w

  -- A file that cannot be opened is read through a null pointer.
  unfoldable pub openstream_parse : Bytes → Settings → M Parser
  openstream_parse fname set w = elim (w.fs.open_read fname) [
    | none ↦ Run.fault
    | some contents ↦
        opened_run (codes "unable to open stream" ++ newline) set (openstream contents) w
  ]

abbrev pub store_backup : Bytes → Option Bytes → M (Unit {0})
store_backup fname none w = Run.value tt w
store_backup fname (some copy) w = store (fname ++ backup_suffix) copy w

abbrev pub delete_backup : Bytes → Bool → M (Unit {0})
delete_backup fname false w = Run.value tt w
delete_backup fname true w = remove (fname ++ backup_suffix) w

-- What mp4tag_write_tags leaves.
abbrev pub saved_run : Bytes → Option Saved → M Saved
saved_run fname none w = Run.fault
saved_run fname (some r) w =
    (do
      store_backup fname r.backup
      delete_backup fname r.bak_deleted
      store fname r.handle.file
      pure r)
      w
