-- ===== src/Parse/Print.antt =====
-- The numbers that mp4tag_process_tag prints with snprintf.
use libmp4tag.CString.{Bytes}
use libmp4tag.Prelude.{ℕ, zero, suc, ◌+◌, ◌-◌, ◌/◌, ◌%◌, ◌^◌, [], ◌∷◌, ◌++◌, ltb, if◌then◌else◌}

-- The digits of a number, of which there are `fuel` at most: twenty are enough for 64 bits.
unfoldable pub decimal : ℕ → ℕ → Bytes
decimal zero n = []
decimal (suc fuel) n =
    let last = (b'0' + n % 10) ∷ [] in
    let front = decimal fuel (n / 10) in if ltb n 10 then last else front ++ last

abbrev pub show_u64 : ℕ → Bytes
show_u64 n = decimal 20 n

-- A number of `w` bits printed as a signed one.
abbrev pub show_signed : ℕ → ℕ → Bytes
show_signed w n = if ltb n (2 ^ (w - 1)) then show_u64 n else b'-' ∷ show_u64 (2 ^ w - n)
