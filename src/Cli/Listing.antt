-- ===== src/Cli/Listing.antt =====
-- What mp4tagcli.c prints of a file, and the copy of tags from one file to another.
use libmp4tag.Api.Get.{iterate}
use libmp4tag.Api.Open.{mp4tag_duration}
use libmp4tag.Api.Preserve.{preserve_tags, restore_tags}
use libmp4tag.Api.RoundTrip.{
  advanced, iterate-some, iterate-none, iterate_init_lem, drop-get_elem?, drop-none,
}
use libmp4tag.Api.{copy_to_pub}
use libmp4tag.Cli.Main.{show_tags, listing, moved_tags}
use libmp4tag.Cli.Show.{newline, show_ℤ, display_tag}
use libmp4tag.CString.{Bytes, codes}
use libmp4tag.Parse.State.{Parser, set_error}
use libmp4tag.Prelude.{
  ℕ, zero, suc, ◌+◌, ◌<◌, ◌≡◌, refl, sym, ap, ◌∙◌, inl, inr, Option-cases, true, Option, none, some,
  List, [], ◌∷◌, ◌++◌, length, get_elem?-lt, drop, get_elem?, arith,
}
use libmp4tag.Tags.{Mp4tag, Libmp4tag, Mp4error, has_ident, list_of, tagcount}

-- The lines of all tags in their order.
abbrev pub tag_lines : List Mp4tag → Bytes
tag_lines [] = []
tag_lines (t ∷ ts) = display_tag (copy_to_pub t) ++ tag_lines ts

show_tags-none :
    (n : ℕ) (l : Libmp4tag) {e : Mp4error}
    → (iterate (some l) true).1 ≡ (none, e)
    → show_tags (suc n) (some l) ≡ some []
unfolding show_tags
show_tags-none n l g = rw (show_tags, g) refl

show_tags-some :
    (n : ℕ) (l l' : Libmp4tag) (t : Mp4tag) {text : Bytes}
    → iterate (some l) true ≡ (some l', (some (copy_to_pub t), Mp4error.ok))
    → show_tags n (some l') ≡ some text
    → show_tags (suc n) (some l) ≡ some (display_tag (copy_to_pub t) ++ text)
unfolding show_tags
show_tags-some n l l' t g k = rw (show_tags, g, k) refl

show_tags-drop :
    (n : ℕ) (l : Libmp4tag) (ts : List Mp4tag)
    → has_ident l ≡ true
    → l.parsed ≡ true
    → l.tags ≡ some ts
    → length ts < n + l.iterator
    → l.iterator < suc (length ts)
    → show_tags n (some l) ≡ some (tag_lines (drop l.iterator ts))
show_tags-drop zero l ts h p e lt at = absurd (omega arith)
show_tags-drop (suc n) l ts h p e lt at = elim (Option-cases (get_elem? ts l.iterator)) [
  | inl g ↦
      show_tags-none n l (iterate-none l ts h p e g)
      ∙ ap (λ (us : List Mp4tag). some (tag_lines us)) (sym (drop-none ts l.iterator g))
  | inr (t, g) ↦
      let next : l.iterator + 1 ≡ suc l.iterator = omega arith in
      let more =
        show_tags-drop n (advanced l) ts h p e (omega arith)
          (omega (arith, get_elem?-lt ts l.iterator g)) in
      show_tags-some n l (advanced l) t (iterate-some l ts h p e t g) more
      ∙ ap (λ k. some (display_tag (copy_to_pub t) ++ tag_lines (drop k ts))) next
      ∙ ap (λ (us : List Mp4tag). some (tag_lines us)) (sym (drop-get_elem? ts l.iterator t g))
]

pub duration_lem :
    (s : Parser)
    → has_ident s.tags ≡ true
    → s.tags.parsed ≡ true
    → mp4tag_duration (some s) ≡ (some (set_error s Mp4error.ok), s.duration)
unfolding mp4tag_duration
duration_lem s h p = rw (mp4tag_duration, h, p) refl

-- For a parsed file with a list of tags the command line program prints the duration and then, for
-- each tag once and in the order of the list, what it displays of the tag; the loop has enough fuel.
pub listing_lem :
    (s : Parser) (ts : List Mp4tag)
    → has_ident s.tags ≡ true
    → s.tags.parsed ≡ true
    → s.tags.tags ≡ some ts
    → listing s ≡ some (codes "duration=" ++ (show_ℤ s.duration ++ (newline ++ tag_lines ts)))
unfolding listing
listing_lem s ts h p e =
    let l : Libmp4tag = record s.tags { mp4error = Mp4error.ok } in
    let shown =
      show_tags-drop (suc (length ts)) (record l { iterator = 0 }) ts h p e (omega arith)
        (omega arith) in
    let listed_count : tagcount s.tags ≡ length ts =
      ap (λ (o : Option (List Mp4tag)). length (list_of o)) e in
    rw (listing, duration_lem s h p)
      (rw (iterate_init_lem l h p) (rw (listed_count) (rw shown refl)))

-- From a file without a list nothing is moved: the other file keeps its tags.
pub moved_tags-none :
    (from to : Parser)
    → from.tags.parsed ≡ true
    → from.tags.tags ≡ none
    → has_ident to.tags ≡ true
    → to.tags.parsed ≡ true
    → moved_tags from to ≡ (
      record to { tags = record to.tags { mp4error = Mp4error.err_null_value } },
      Mp4error.err_null_value,
    )
unfolding moved_tags preserve_tags restore_tags
moved_tags-none from to p e h q = rw (moved_tags, p, e, h, q) refl
