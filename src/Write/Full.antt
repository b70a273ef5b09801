-- ===== src/Write/Full.antt =====
-- The size of the buffer in mp4tag_build_append of mp4tagwrite.c, and the box at its end.
use libmp4tag.CString.{Bytes, starts_with}
use libmp4tag.Const.{boxhead_sz, data_sz, id_len, copyright_str}
use libmp4tag.Prelude.{
  ℕ, suc, ◌+◌, ◌-◌, ◌≡◌, refl, sym, ap, subst, none, some, [], ◌∷◌, ◌++◌, if_ind, drop, length,
  take, arith,
}
use libmp4tag.Tags.Compare.{strcmp_refl}
use libmp4tag.Tags.{Mp4tag}
use libmp4tag.Write.Array.{box, IsText, savelen-text}
use libmp4tag.Write.Build.{
  Output, head_len, box_name, start_name, offset_of, write_tag, new_dlen, fill, append_named,
}
use libmp4tag.Write.Item.{box_ident}

pub length-take_3 : (xs : Bytes) → length (take 3 (xs ++ (0 ∷ 0 ∷ 0 ∷ []))) ≡ 3
length-take_3 [] = refl
length-take_3 (a ∷ []) = refl
length-take_3 (a ∷ b ∷ []) = refl
length-take_3 (a ∷ b ∷ c ∷ xs) = refl

pub length-take_4 : (xs : Bytes) → length (take 4 (xs ++ (0 ∷ 0 ∷ 0 ∷ 0 ∷ []))) ≡ 4
length-take_4 [] = refl
length-take_4 (a ∷ []) = refl
length-take_4 (a ∷ b ∷ []) = refl
length-take_4 (a ∷ b ∷ c ∷ []) = refl
length-take_4 (a ∷ b ∷ c ∷ d ∷ xs) = refl

pub length-box_ident : (tag : Bytes) → length (box_ident tag) ≡ id_len
unfolding box_ident
length-box_ident tag =
    if_ind (λ (r : Bytes). length r ≡ id_len) (starts_with tag copyright_str)
      (λ e. ap suc (length-take_3 (drop (length copyright_str) tag))) (λ e. length-take_4 tag)

pub fill-full : (fresh : ℕ → ℕ) (n m : ℕ) (w : Bytes) → n ≡ m → fill fresh (n - m) w ≡ w
unfolding fill
fill-full fresh n m w e = let none_left : n - m ≡ 0 = omega arith in rw none_left refl

-- What is written fills the buffer: nothing is behind it.
pub append_named-full :
    (fresh : ℕ → ℕ) (o : Output) (t : Mp4tag) (tnm : Bytes) (offset : ℕ) (w : Bytes)
    → offset_of o ≡ offset
    → write_tag o offset t tnm none ≡ w
    → length w ≡ new_dlen o t none
    → append_named fresh o t tnm none
      ≡ some (record {
        buf = w;
        datacount = o.datacount + 1;
        lastbox_offset = some offset;
        lastbox_nm = o.lastbox_nm;
      })
unfolding append_named
append_named-full fresh o t tnm offset w at e n =
    rw (at, e) (ground (arith, fill-full fresh (new_dlen o t none) (length w) w (sym n)))

-- The buffer ends in a box that an array's next item goes to.
pub record IsOpen (tag : Bytes) (pre items : Bytes) (o : Output) : Type 0 where
  pub buf : o.buf ≡ pre ++ box (box_ident tag) items
  pub offset : o.lastbox_offset ≡ some (length pre)
  pub name : o.lastbox_nm ≡ box_name (box_ident tag) none
  pub earlier : ℕ
  pub datacount : o.datacount ≡ suc earlier

pub new_dlen-first :
    (o : Output) (t : Mp4tag)
    → IsText t
    → o.datacount ≡ 0
    → new_dlen o t none ≡ length o.buf + (boxhead_sz + (data_sz + t.datalen))
unfolding new_dlen head_len
new_dlen-first o t h z = ground (arith, savelen-text t h, h.no_covername)

pub new_dlen-next :
    (o : Output) (t : Mp4tag) (n : ℕ)
    → IsText t
    → o.datacount ≡ suc n
    → new_dlen o t none ≡ length o.buf + (data_sz + t.datalen)
unfolding new_dlen head_len
new_dlen-next o t n h z = ground (arith, savelen-text t h, h.no_covername)

pub start_name-same : (o : Output) (nm : Bytes) → o.lastbox_nm ≡ nm → start_name o nm ≡ o
unfolding start_name
start_name-same o nm e =
    subst (λ n. start_name o n ≡ o) e (ground (arith, strcmp_refl o.lastbox_nm))
