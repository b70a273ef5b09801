-- ===== src/CString.antt =====
-- C strings as their bytes without the terminator, and what the sources use of <string.h> and
-- <stdlib.h>: strcmp, memcmp against an identifier, strstr and strtok_r with a one-byte pattern,
-- atoi, atoll. A `char` pointer that may be NULL is an `Option Bytes`.
use Prim.Native.Char.{code}
use Prim.Native.String.{String}
use libmp4tag.Prelude.{
  ℕ, ◌+◌, ◌-◌, ◌*◌, ◌^◌, ltb, compare, Ordering, Bool, true, false, ◌&&◌, ◌||◌, Option, none, some,
  List, [], ◌∷◌, leb, ◌==◌, if◌then◌else◌,
}
use libmp4tag.Prelude.Int.{ℤ, pos, negsuc, neg}

abbrev pub Bytes : Type 0
Bytes = List ℕ

-- The bytes of an ASCII literal.
abbrev pub codes : String → Bytes
codes String.[] = []
codes (String.◌∷◌ c s) = code c ∷ codes s

-- The sign of strcmp, which compares unsigned bytes up to the terminator.
unfoldable pub strcmp : Bytes → Bytes → Ordering
strcmp [] [] = Ordering.eq
strcmp [] (y ∷ ys) = Ordering.lt
strcmp (x ∷ xs) [] = Ordering.gt
strcmp (x ∷ xs) (y ∷ ys) = elim (compare x y) [
  | Ordering.lt ↦ Ordering.lt
  | Ordering.eq ↦ strcmp xs ys
  | Ordering.gt ↦ Ordering.gt
]

-- strcmp (a, b) == 0
abbrev pub str_eq : Bytes → Bytes → Bool
str_eq a b = elim (strcmp a b) [ Ordering.eq ↦ true | _ ↦ false ]

-- memcmp (s, p, strlen (p)) == 0 on a terminated `s` and a `p` with no zero byte: the terminator
-- of a shorter `s` differs from the byte of `p` at its place.
unfoldable pub starts_with : Bytes → Bytes → Bool
starts_with s [] = true
starts_with [] (y ∷ ys) = false
starts_with (x ∷ xs) (y ∷ ys) = x == y && starts_with xs ys

-- What a function that takes a C string sees of the bytes at a pointer: those before the first zero.
unfoldable pub c_string : Bytes → Bytes
c_string [] = []
c_string (x ∷ xs) = let rest = c_string xs in if x == 0 then [] else x ∷ rest

-- strrchr (s, d): the rest of `s` from the last `d` on.
unfoldable pub strrchr : Bytes → ℕ → Option Bytes
strrchr [] d = none
strrchr (x ∷ xs) d = elim (strrchr xs d) [
  | some p ↦ some p
  | none ↦ if x == d then some (x ∷ xs) else none
]

-- tolower in the C locale.
abbrev pub tolower : ℕ → ℕ
tolower c = if leb b'A' c && leb c b'Z' then c + 32 else c

-- strstr (s, d) for a one-byte d: the rest of `s` from the first `d` on.
unfoldable pub strstr : Bytes → ℕ → Option Bytes
strstr [] d = none
strstr (x ∷ xs) d = if x == d then some (x ∷ xs) else strstr xs d

-- strtok_r skips leading delimiters; the token ends before the next one, which is overwritten.
unfoldable pub skip : ℕ → Bytes → Bytes
skip d [] = []
skip d (x ∷ xs) = if x == d then skip d xs else x ∷ xs

unfoldable pub token : ℕ → Bytes → Bytes
token d [] = []
token d (x ∷ xs) = let rest = token d xs in if x == d then [] else x ∷ rest

unfoldable pub after_token : ℕ → Bytes → Bytes
after_token d [] = []
after_token d (x ∷ xs) = if x == d then xs else after_token d xs

-- `start` is the string from the token's first byte on, `text` the token, and `rest` what the next
-- call goes on with.
pub record Token : Type 0 where
  pub start : Bytes
  pub text : Bytes
  pub rest : Bytes

abbrev token_at : ℕ → Bytes → Option Token
token_at d [] = none
token_at d (x ∷ xs) =
    some (record { start = x ∷ xs; text = token d (x ∷ xs); rest = after_token d (x ∷ xs) })

unfoldable pub strtok : ℕ → Bytes → Option Token
unfolding skip token after_token
strtok d s = token_at d (skip d s)

-- atoi: white space, one sign, and the decimal digits that follow.
abbrev pub is_space : ℕ → Bool
is_space c = c == b' ' || (leb 9 c && leb c 13)

abbrev pub is_digit : ℕ → Bool
is_digit c = leb b'0' c && leb c b'9'

unfoldable pub digits_value : ℕ → Bytes → ℕ
digits_value acc [] = acc
digits_value acc (c ∷ cs) =
    let more = digits_value (acc * 10 + (c - b'0')) cs in if is_digit c then more else acc

signed_value : Bytes → ℤ
signed_value [] = pos 0
signed_value (c ∷ cs) =
    if c == b'-'
    then neg (pos (digits_value 0 cs))
    else if c == b'+'
    then pos (digits_value 0 cs)
    else pos (digits_value 0 (c ∷ cs))

unfoldable pub atoi : Bytes → ℤ
unfolding digits_value signed_value
atoi [] = pos 0
atoi (c ∷ cs) = let rest = atoi cs in if is_space c then rest else signed_value (c ∷ cs)

-- atoll, which stops at the bounds of a 64-bit number, as strtoll does.
abbrev pub clamp_64 : ℤ → ℤ
clamp_64 (pos n) = if ltb n (2 ^ 63) then pos n else pos (2 ^ 63 - 1)
clamp_64 (negsuc n) = if ltb n (2 ^ 63) then negsuc n else negsuc (2 ^ 63 - 1)

abbrev pub atoll : Bytes → ℤ
atoll s = clamp_64 (atoi s)
