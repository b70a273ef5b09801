-- ===== src/Cli/Edits.antt =====
-- The loop of main of mp4tagcli.c over its arguments: what an argument does to the tags.
use libmp4tag.Api.Edit.{delete_tag}
use libmp4tag.Api.Get.{get_tag_by_name}
use libmp4tag.Api.SetGet.{set_tag-get_old, set_tag-with_tag}
use libmp4tag.Api.Update.{IsTextTag}
use libmp4tag.Api.{Handle, Mp4tagpub, copy_to_pub, clear_error, lookup_tag}
use libmp4tag.Cli.Show.{newline, label, display_tag}
use libmp4tag.Const.Table.{Mp4tagdef}
use libmp4tag.Tags.Consistent.{IsConsistent}
use libmp4tag.Tags.Replace.{with_tag}
use libmp4tag.Tags.{Mp4tag, Mp4error}
use libmp4tag.Cli.Arguments.{Edits, checked, edit_value, set_argument, run_argument, equals}
use libmp4tag.Cli.Names.{Lacks, strtok-append, strtok-all}
use libmp4tag.Cli.{Settings, id_max, set_tag_name}
use libmp4tag.CString.{Bytes, codes, strtok, skip, c_string}
use libmp4tag.Files.{FileSystem}
use libmp4tag.Prelude.{
  ℕ, ◌+◌, ◌-◌, ◌≡◌, refl, sym, ap, subst, ◌∙◌, true, false, none, some, [], ◌∷◌, ◌++◌, length, take,
  arith,
}
use libmp4tag.Write.Bytes.{take-append_length}

-- A word of an argument: some bytes, and no equals sign.
pub record IsWord (word : Bytes) : Type 0 where
  pub first : ℕ
  pub others : Bytes
  pub bytes : word ≡ first ∷ others
  pub lacks : Lacks b'=' word

equals-append :
    (word ys : Bytes)
    → IsWord word
    → equals (word ++ (b'=' ∷ ys))
      ≡ some (record { start = word ++ (b'=' ∷ ys); text = word; rest = ys })
equals-append word ys h =
    rw h.bytes (strtok-append b'=' h.first h.others ys (rw h.bytes at h.lacks))

equals-all :
    (word : Bytes)
    → IsWord word
    → equals word ≡ some (record { start = word; text = word; rest = [] })
equals-all word h = rw h.bytes (strtok-all b'=' h.first h.others (rw h.bytes at h.lacks))

take_whole : (xs : Bytes) → take (length xs) xs ≡ xs
take_whole [] = refl
take_whole (x ∷ xs) = ap (◌∷◌ x) (take_whole xs)

-- A string without a zero byte is seen whole.
pub c_string-all : (xs : Bytes) → Lacks 0 xs → c_string xs ≡ xs
unfolding c_string
c_string-all [] h = refl
c_string-all (x ∷ xs) h = rw h.0 (ap (◌∷◌ x) (c_string-all xs h.1))

cut_front :
    (xs ys : Bytes) → take (length (xs ++ ys) - length (xs ++ ys) + length xs) (xs ++ ys) ≡ xs
cut_front xs ys =
    let n : length (xs ++ ys) - length (xs ++ ys) + length xs ≡ length xs = omega arith in
    rw n (take-append_length xs ys (length xs) refl)

module _ (fs : FileSystem) (set : Settings) (e : Edits) (name : Bytes) (n : IsWord name) where
  abbrev pub named : Edits
  named = record e { tagname = set_tag_name name id_max }

  run_argument-named :
      (ys : Bytes)
      → run_argument fs set e (name ++ (b'=' ∷ ys)) ≡ edit_value fs set named (equals ys)
  unfolding run_argument
  run_argument-named ys =
      rw (run_argument, equals-append name ys n, cut_front name (b'=' ∷ ys)) refl

  -- An argument `name=value` sets the tag.
  pub run_argument-set :
      (value : Bytes)
      → IsWord value
      → run_argument fs set e (name ++ (b'=' ∷ value)) ≡ set_argument fs set named value
  run_argument-set value v = rw (run_argument-named value, equals-all value v) refl

  -- An argument `name=value=more` of the command line program, with bytes in name and value and no
  -- further equals sign in them, does just what `name=value` does: the value is cut at its first
  -- equals sign.
  pub run_argument-cut :
      (value more : Bytes)
      → IsWord value
      → run_argument fs set e (name ++ (b'=' ∷ (value ++ (b'=' ∷ more))))
        ≡ run_argument fs set e (name ++ (b'=' ∷ value))
  run_argument-cut value more v =
      rw
        (
          run_argument-named (value ++ (b'=' ∷ more)),
          equals-append value more v,
          run_argument-set value v,
        )
        refl

  -- An argument with a name alone, or with nothing behind the equals sign, deletes the tag.
  pub run_argument-delete :
      (run_argument fs set e name
        ≡ checked named
            (codes "Unable to delete tag: ")
            (delete_tag (some e.handle.tags) (some named.tagname)))
      × (run_argument fs set e (name ++ (b'=' ∷ [])) ≡ run_argument fs set e name)
  unfolding run_argument strtok skip
  run_argument-delete =
      let whole : take (length name - length name + length name) name ≡ name =
        (let n' : length name - length name + length name ≡ length name = omega arith in
          rw n' (take_whole name)) in
      let alone : run_argument fs set e name ≡ edit_value fs set named none =
        rw (run_argument, equals-all name n, whole) refl in
      (alone, run_argument-named [] ∙ sym alone)

module _ (fs : FileSystem) (set : Settings) (e : Edits) (name value : Bytes) (n : IsWord name)
    (v : IsWord value) (d : Mp4tagdef) where
  abbrev asked : Bytes
  asked = set_tag_name name id_max

  -- On a consistent, parsed structure, if an argument `name=value` of the command line names a tag
  -- of the table that takes text and is no cover, and there is such a tag, with a name, which is not
  -- binary, the name and the value have bytes and no equals sign, the value has no zero byte, and no
  -- option asks for binary data, then after the argument the tags are to be written, the status is
  -- what it was, and what the program displays of the tag that mp4tag_get_tag_by_name gives for the
  -- name, without an error, is the tag's name, with its index where that is positive, and the value.
  pub run_argument-display_tag :
      {i : ℕ} {t : Mp4tag} {nm : Bytes}
      → IsConsistent e.handle.tags
      → e.handle.tags.parsed ≡ true
      → IsTextTag asked d
      → lookup_tag e.handle.tags asked ≡ some (i, t)
      → t.binary ≡ false
      → t.tag ≡ some nm
      → Lacks 0 value
      → set.testbin ≡ false
      → set.forcebinary ≡ false
      → let e' = run_argument fs set e (name ++ (b'=' ∷ value)) in
        (e'.write ≡ true)
        × (e'.rc ≡ e.rc)
        × ((p : Mp4tagpub) × ((get_tag_by_name (some e'.handle.tags) e'.tagname true).1
              ≡ (some p, Mp4error.ok))
            × (display_tag p ≡ label nm t.dataidx ++ (codes "=" ++ (value ++ newline))))
  unfolding set_argument display_tag copy_to_pub
  run_argument-display_tag {i} {t} c p k l b m z nt nf =
      let done = set_tag-with_tag fs e.handle.tags c asked value d k p l b in
      let run : run_argument fs set e (name ++ (b'=' ∷ value)) ≡ record e {
        handle = record e.handle {
          tags =
              with_tag (clear_error e.handle.tags) i
                (record t { value = some value; datalen = length value });
        };
        tagname = asked;
        write = true;
      } =
        run_argument-set fs set e name n value v ∙ rw (set_argument, nt, nf, done) refl in
      let got = set_tag-get_old fs e.handle.tags c asked value d k p l b in
      rw run (
        refl,
        refl,
        (
          copy_to_pub (record t { value = some value; datalen = length value }),
          subst
              (λ (r : Handle × Mp4error). (get_tag_by_name r.0 asked true).1 ≡ (
                some (copy_to_pub (record t { value = some value; datalen = length value })),
                Mp4error.ok,
              ))
              done got,
          rw (display_tag, copy_to_pub, b, m, c_string-all value z) refl,
        ),
      )
