-- ===== src/Vsocket/Address.antt =====
-- `inet_addr` of src/lib/vsocket.c. The text is its characters before the NUL.
pub mod Dotted
use vmodem.Prelude.{
  is_decimal, ℕ, zero, suc, ◌+◌, ◌-◌, ◌*◌, ◌%◌, ◌^◌, bit_or, Bool, true, false, ◌&&◌, ◌||◌, Option,
  none, some, List, [], ◌∷◌, ◌++◌, get_or, ltb, leb, ◌==◌, if◌then◌else◌,
}

abbrev pub inaddr_none : ℕ
inaddr_none = 0xffff_ffff

-- `while (*p >= '0' && *p <= '9')`: the value, an `unsigned long`, the number of digits, which fits
-- an `int` since a text is shorter than 64 KB, and the rest.
unfoldable pub read_octet : List ℕ → ℕ → ℕ → ℕ × ℕ × List ℕ
read_octet [] val n = (val, n, [])
read_octet (c ∷ cs) val n =
    let more = read_octet cs ((val * 10 + (c - b'0')) % 0x1_0000_0000) (n + 1) in
    if is_decimal c then more else (val, n, c ∷ cs)

-- `if (*p != '.') return INADDR_NONE; p++`
unfoldable pub skip_dot : List ℕ → Option (List ℕ)
skip_dot [] = none
skip_dot (c ∷ cs) = if c == b'.' then some cs else none

-- Octet 0 at the lowest address.
unfoldable pub pack : ℕ → ℕ → ℕ → ℕ → ℕ
pack a b c d = bit_or (bit_or (bit_or a (b * 2 ^ 8)) (c * 2 ^ 16)) (d * 2 ^ 24)

-- What follows the digits in a round: `k` rounds are left, and `read` runs them.
unfoldable pub after_octet :
    (List ℕ → List ℕ → Option (List ℕ × List ℕ))
    → ℕ
    → List ℕ
    → ℕ × ℕ × List ℕ
    → Option (List ℕ × List ℕ)
unfolding skip_dot
after_octet read k octets (val, n, rest) =
    let octets' = octets ++ (val ∷ []) in
    if n == 0 || ltb 255 val
    then none
    else if ltb 0 k
    then elim (skip_dot rest) [ none ↦ none | some cs ↦ read cs octets' ]
    else read rest octets'

-- The loop over `i`, with `k` rounds to go: the octets, after those that are read, and the rest.
unfoldable pub read_octets : ℕ → List ℕ → List ℕ → Option (List ℕ × List ℕ)
unfolding read_octet after_octet
read_octets zero cs octets = some (octets, cs)
read_octets (suc k) cs octets = after_octet (read_octets k) k octets (read_octet cs 0 0)

-- The characters behind the fourth octet are refused.
unfoldable pub accepted : Option (List ℕ × List ℕ) → ℕ
unfolding pack
accepted none = inaddr_none
accepted (some (o, [])) = pack (get_or o 0 0) (get_or o 1 0) (get_or o 2 0) (get_or o 3 0)
accepted (some (o, c ∷ cs)) = inaddr_none

unfoldable pub inet_addr : List ℕ → ℕ
unfolding read_octets accepted
inet_addr cp = accepted (read_octets 4 cp [])
