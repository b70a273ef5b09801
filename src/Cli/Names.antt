-- ===== src/Cli/Names.antt =====
-- The arguments of mp4tagcli.c: how strtok_r cuts them, and the buffer of setTagName.
use libmp4tag.Cli.{set_tag_name, prefixed, renamed}
use libmp4tag.CString.{Bytes, strtok, skip, token, after_token}
use libmp4tag.Prelude.{
  ℕ, ◌-◌, ◌<◌, ◌≡◌, refl, ap, false, some, [], ◌∷◌, ◌++◌, All, length, ◌==◌, length-take_le, arith,
}

-- A string without a byte.
abbrev pub Lacks : ℕ → Bytes → Type 0
Lacks d xs = All (λ c. (c == d) ≡ false) xs

-- setTagName stays within its buffer, the terminator included.
pub length-set_tag_name : (tag : Bytes) (sz : ℕ) → 0 < sz → length (set_tag_name tag sz) < sz
unfolding set_tag_name
length-set_tag_name tag sz h = omega (arith, length-take_le (sz - 1) (prefixed (renamed tag)))

module _ (d : ℕ) where
  token-append : (xs ys : Bytes) → Lacks d xs → token d (xs ++ (d ∷ ys)) ≡ xs
  unfolding token
  token-append [] ys h = ground arith
  token-append (x ∷ xs) ys h = rw h.0 (ap (◌∷◌ x) (token-append xs ys h.1))

  token-all : (xs : Bytes) → Lacks d xs → token d xs ≡ xs
  unfolding token
  token-all [] h = refl
  token-all (x ∷ xs) h = rw h.0 (ap (◌∷◌ x) (token-all xs h.1))

  after_token-append : (xs ys : Bytes) → Lacks d xs → after_token d (xs ++ (d ∷ ys)) ≡ ys
  unfolding after_token
  after_token-append [] ys h = ground arith
  after_token-append (x ∷ xs) ys h = rw h.0 (after_token-append xs ys h.1)

  after_token-all : (xs : Bytes) → Lacks d xs → after_token d xs ≡ []
  unfolding after_token
  after_token-all [] h = refl
  after_token-all (x ∷ xs) h = rw h.0 (after_token-all xs h.1)

  -- A token and the delimiter behind it.
  pub strtok-append :
      (x : ℕ) (xs ys : Bytes)
      → Lacks d (x ∷ xs)
      → strtok d (x ∷ xs ++ (d ∷ ys))
        ≡ some (record { start = x ∷ xs ++ (d ∷ ys); text = x ∷ xs; rest = ys })
  unfolding strtok skip
  strtok-append x xs ys h =
      rw (strtok, h.0, token-append (x ∷ xs) ys h, after_token-append (x ∷ xs) ys h) refl

  -- The last token.
  pub strtok-all :
      (x : ℕ) (xs : Bytes)
      → Lacks d (x ∷ xs)
      → strtok d (x ∷ xs) ≡ some (record { start = x ∷ xs; text = x ∷ xs; rest = [] })
  unfolding strtok skip
  strtok-all x xs h = rw (strtok, h.0, token-all (x ∷ xs) h, after_token-all (x ∷ xs) h) refl
