-- ===== src/Parse/Placed.antt =====
-- mp4tag_parse_file of mp4tagparse.c on a container that ends in a tag list and a free box.
use libmp4tag.CString.{Bytes, strcmp}
use libmp4tag.Const.{boxids, BoxId, boxhead_sz, level_max}
use libmp4tag.Parse.Boxes.{end_box, level_done, leave_level}
use libmp4tag.Parse.Contents.{kept_place}
use libmp4tag.Parse.Reading.{rest_of-moved}
use libmp4tag.Parse.File.{Parsed, next_box, parse_boxes}
use libmp4tag.Parse.Groups.{left_lem, put-here, level_done-more, next_box-last}
use libmp4tag.Parse.ListBox.{list_box, listed_place}
use libmp4tag.Parse.Listed.{IsGroup, AreApart, length-group, tags_read}
use libmp4tag.Parse.Space.{free_head, freed, passed, parse_boxes-free}
use libmp4tag.Parse.State.{Parser, put, rest_of}
use libmp4tag.Parse.Written.{parse_boxes-ReadsList}
use libmp4tag.Prelude.{
  ℕ, suc, ◌+◌, ◌-◌, ◌^◌, ◌<◌, ◌≤◌, ◌≡◌, refl, sym, ap, subst, ◌∙◌, true, false, Bool, not, ◌||◌,
  List, [], ◌∷◌, ◌++◌, All, length, drop, ◌==◌, arith,
}
use libmp4tag.Prelude.Int.{ℤ, pos, eq_ℤ}
use libmp4tag.Tags.{list_of}
use libmp4tag.Write.Array.{box, length-box}
use libmp4tag.Write.Bytes.{drop-append_length}
use libmp4tag.Write.Fill.{IsPlaced}
use libmp4tag.Write.Groups.{Group, contents}
use libmp4tag.Write.Place.{Layout}

-- Behind the list's box, with `left` bytes of its container before the next one.
abbrev list_ended : Parser → ℕ → ℤ → Parser
list_ended s level left = record s {
  rem_length = put s.rem_length level left;
  bug = record s.bug {
    ilst_remaining = left;
    ilstend = true;
    ilstremain = s.bug.ilstremain || not (eq_ℤ left (pos 0));
  };
}

module _ (n level r : ℕ) (s : Parser) (e : s.rem_length level ≡ pos r) (h : boxhead_sz + n < r)
    (k : r < 2 ^ 63) where
  end_box-list : end_box (list_box n) level s ≡ list_ended s level (pos (r - (boxhead_sz + n)))
  unfolding end_box strcmp
  end_box-list =
      let le : boxhead_sz + n ≤ r = omega (arith, h) in
      rw (e, left_lem r (boxhead_sz + n) le k) refl

  next_box-list :
      (loop : ℕ → ℕ → Parser → Parsed) (boxlen : ℕ)
      → next_box loop (list_box n) boxlen level s
        ≡ loop boxlen level (list_ended s level (pos (r - (boxhead_sz + n))))
  unfolding next_box
  next_box-list loop boxlen =
      let left = list_ended s level (pos (r - (boxhead_sz + n))) in
      let here : left.rem_length level ≡ pos (suc (r - (boxhead_sz + n) - 1)) =
        put-here s.rem_length level (pos (r - (boxhead_sz + n))) ∙ ap pos (omega arith) in
      ap
        (λ (t : Parser). elim (level_done boxlen level t) [
          | true ↦ Parsed.done (leave_level (list_box n) level t)
          | false ↦ loop boxlen level t
        ])
        end_box-list
      ∙ ap
          (λ (b : Bool). elim b [
            | true ↦ Parsed.done (leave_level (list_box n) level left)
            | false ↦ loop boxlen level left
          ])
          (level_done-more boxlen level left (r - (boxhead_sz + n) - 1) here)

-- No list is found yet.
pub record IsFresh (l : Layout) : Type 0 where
  pub bounded : l.unlimited ≡ false
  pub orig : l.taglist_orig_data_len ≡ 0
  pub interior : l.interior_free_len ≡ 0
  pub exterior : l.exterior_free_len ≡ 0

-- The fields behind the list and the free box.
abbrev pub placed : Layout → ℕ → ℕ → ℕ → ℕ → Layout
placed l level at n m = freed (kept_place (listed_place l level at n)) (boxhead_sz + m)

placed-IsPlaced :
    (l : Layout) (level : ℕ) (start old gap : Bytes) (m : ℕ)
    → IsFresh l
    → 0 < length old
    → length gap ≡ boxhead_sz + m
    → length old + (boxhead_sz + m) < 2 ^ 31
    → ((i : ℕ) → i < level → l.base_offsets i + 4 ≤ length start)
    → IsPlaced (placed l level (length start) (length old) m) start old gap
placed-IsPlaced l level start old gap m f some_bytes size small parents = rw f.orig (record {
  measured = record {
    bounded = f.bounded;
    len = omega (arith, small, f.interior, f.exterior);
    small = omega (arith, small);
  };
  base = refl;
  offset = refl;
  orig = refl;
  free = omega (arith, small, size, f.interior, f.exterior);
  parents = parents;
})

-- What the parser knows behind the container.
pub record ReadsPlace (s s' : Parser) (level m : ℕ) (gs : List Group) (start gap : Bytes)
    : Type 0 where
  pub tags : list_of s'.tags.tags ≡ tags_read gs
  pub place : IsPlaced s'.place start (contents gs) gap
  pub fields : s'.place ≡ placed s.place level (length start) (length (contents gs)) m
  pub offset :
      s'.offset ≡ length start + length (box (boxids BoxId.ilst) (contents gs)) + length gap
  pub file : s'.file ≡ s.file
  pub processdata : s'.processdata ≡ false
  pub checkforfree : s'.checkforfree ≡ true

contents-pos : (gs : List Group) → All IsGroup gs → 0 < length gs → 0 < length (contents gs)
contents-pos [] hs some_group = absurd (omega arith)
contents-pos (g ∷ gs) hs some_group = omega (arith, length-group g gs hs.0)

-- The boxes of a list that the parser reads.
pub record IsList (gs : List Group) : Type 0 where
  pub groups : All IsGroup gs
  pub apart : AreApart gs
  pub some_group : 0 < length gs

-- The parser of a file that can be written is at the list's box, and its container ends behind the list and
-- the free box. The containers that it has noted are in front of the list.
pub record IsAtList (s : Parser) (level : ℕ) (gs : List Group) (start body post : Bytes)
    : Type 0 where
  pub file :
      s.file
      ≡ start ++ (box (boxids BoxId.ilst) (contents gs) ++ (box (boxids BoxId.free) body ++ post))
  pub offset : s.offset ≡ length start
  pub none_yet : list_of s.tags.tags ≡ []
  pub checkforfree : s.checkforfree ≡ false
  pub parsedone : s.parsedone ≡ false
  pub canwrite : s.canwrite ≡ true
  pub rem_length :
      s.rem_length level
      ≡ pos (length (box (boxids BoxId.ilst) (contents gs)) + length (box (boxids BoxId.free) body))
  pub small :
      length (box (boxids BoxId.ilst) (contents gs)) + length (box (boxids BoxId.free) body)
      < 2 ^ 31
  pub fresh : IsFresh s.place
  pub parents : (i : ℕ) → i < level → s.place.base_offsets i + 4 ≤ length start

module _ (millis : ℕ → ℕ → ℤ) (fuel boxlen level : ℕ) (s : Parser) (gs : List Group)
    (start body post : Bytes) where
  abbrev pub gap : Bytes
  gap = box (boxids BoxId.free) body

  abbrev pub old : Bytes
  old = box (boxids BoxId.ilst) (contents gs)

  pub parse_boxes-IsPlaced :
      IsList gs
      → IsAtList s level gs start body post
      → length gs < suc fuel
      → (boxlen == 0) ≡ false
      → (level == 0) ≡ false
      → level + 1 < level_max
      → (s' : Parser) × (parse_boxes millis (suc (suc fuel)) boxlen level s ≡ Parsed.done s')
        × ReadsPlace s s' level (length body) gs start gap
  unfolding strcmp
  parse_boxes-IsPlaced l q enough nonzero deep room =
      let n = length (contents gs) in
      let some_bytes = contents-pos gs l.groups l.some_group in
      let m = length body in
      let old_size : length old ≡ boxhead_sz + n =
        length-box (boxids BoxId.ilst) (contents gs) refl in
      let gap_size : length gap ≡ boxhead_sz + m = length-box (boxids BoxId.free) body refl in
      let rest : rest_of s ≡ old ++ (gap ++ post) =
        ap (drop s.offset) q.file
        ∙ drop-append_length start (old ++ (gap ++ post)) s.offset (sym q.offset) in
      let (s1, run, read) =
        parse_boxes-ReadsList millis (suc fuel) boxlen level s gs (gap ++ post) l.some_group
          l.groups l.apart (omega (arith, q.small, old_size)) q.none_yet rest q.checkforfree
          q.parsedone nonzero room enough in
      let total = length old + length gap in
      let rem : s1.rem_length level ≡ pos total = read.others level (omega arith) ∙ q.rem_length in
      let left = list_ended s1 level (pos (total - (boxhead_sz + n))) in
      let behind : rest_of left ≡ gap ++ post =
        rest_of-moved s left (length old) old (gap ++ post) read.file
          (read.offset ∙ omega (arith, old_size)) rest refl in
      let more =
        next_box-list n level total s1 rem (omega (arith, old_size, gap_size))
          (omega (arith, q.small)) (parse_boxes millis (suc fuel)) boxlen in
      let known : s1.place.taglist_orig_data_len ≡ n =
        ap (λ (l : Layout). l.taglist_orig_data_len) read.place ∙ rw q.fresh.orig refl in
      let free =
        parse_boxes-free level m left deep (read.checkforfree ∙ q.canwrite) read.processdata
          (ground (arith, known, some_bytes)) (omega (arith, q.small, gap_size)) millis fuel boxlen
          body post refl behind nonzero in
      let rem2 : (passed left m).rem_length level ≡ pos (boxhead_sz + m) =
        put-here s1.rem_length level _ ∙ ap pos (omega (arith, old_size, gap_size)) in
      let fields : freed s1.place (boxhead_sz + m) ≡ placed s.place level (length start) n m =
        ap (λ l. freed l (boxhead_sz + m)) read.place
        ∙ ap (λ at'. placed s.place level at' n m) q.offset in
      let last =
        next_box-last (parse_boxes millis fuel) (free_head m) boxlen level (passed left m)
          (boxhead_sz + m) refl rem2 (omega arith) (omega (arith, q.small, gap_size)) nonzero
          refl in
      (
        _,
        run ∙ more ∙ free ∙ last,
        record {
          tags = read.tags ∙ ap (λ us. us ++ tags_read gs) q.none_yet;
          place =
              subst (λ l. IsPlaced l start (contents gs) gap) (sym fields)
                (placed-IsPlaced s.place level start (contents gs) gap m q.fresh some_bytes gap_size
                  (omega (arith, q.small, old_size, gap_size)) q.parents);
          fields = fields;
          offset = omega (arith, read.offset, q.offset, old_size, gap_size);
          file = read.file;
          processdata = read.processdata;
          checkforfree = read.checkforfree ∙ q.canwrite;
        },
      )
