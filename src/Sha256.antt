-- ===== src/Sha256.antt =====
-- The SHA-256 of the TLS client (src/lib/sha256.c). An `unsigned long` is a number below 2^32 whose
-- sums wrap; an `int` has 16 bits.
pub mod Absorb
pub mod Update
pub mod Digest
mod Tests
use Prim.Native.Nat.{bit_xor}
use vmodem.Prelude.{
  ℕ, zero, suc, ◌+◌, ◌-◌, ◌*◌, ◌/◌, ◌%◌, ◌^◌, bit_and, bit_or, Bool, true, false, ◌&&◌, List, [],
  ◌∷◌, ◌++◌, ltb, leb, ◌==◌, if◌then◌else◌, length, get_or, set, take, drop, replicate,
}

abbrev pub word : ℕ
word = 0x1_0000_0000

abbrev round_constants : List ℕ
round_constants =
    0x428a2f98 ∷ 0x71374491 ∷ 0xb5c0fbcf ∷ 0xe9b5dba5 ∷ 0x3956c25b ∷ 0x59f111f1 ∷ 0x923f82a4
    ∷ 0xab1c5ed5 ∷ 0xd807aa98 ∷ 0x12835b01 ∷ 0x243185be ∷ 0x550c7dc3 ∷ 0x72be5d74 ∷ 0x80deb1fe
    ∷ 0x9bdc06a7 ∷ 0xc19bf174 ∷ 0xe49b69c1 ∷ 0xefbe4786 ∷ 0x0fc19dc6 ∷ 0x240ca1cc ∷ 0x2de92c6f
    ∷ 0x4a7484aa ∷ 0x5cb0a9dc ∷ 0x76f988da ∷ 0x983e5152 ∷ 0xa831c66d ∷ 0xb00327c8 ∷ 0xbf597fc7
    ∷ 0xc6e00bf3 ∷ 0xd5a79147 ∷ 0x06ca6351 ∷ 0x14292967 ∷ 0x27b70a85 ∷ 0x2e1b2138 ∷ 0x4d2c6dfc
    ∷ 0x53380d13 ∷ 0x650a7354 ∷ 0x766a0abb ∷ 0x81c2c92e ∷ 0x92722c85 ∷ 0xa2bfe8a1 ∷ 0xa81a664b
    ∷ 0xc24b8b70 ∷ 0xc76c51a3 ∷ 0xd192e819 ∷ 0xd6990624 ∷ 0xf40e3585 ∷ 0x106aa070 ∷ 0x19a4c116
    ∷ 0x1e376c08 ∷ 0x2748774c ∷ 0x34b0bcb5 ∷ 0x391c0cb3 ∷ 0x4ed8aa4a ∷ 0x5b9cca4f ∷ 0x682e6ff3
    ∷ 0x748f82ee ∷ 0x78a5636f ∷ 0x84c87814 ∷ 0x8cc70208 ∷ 0x90befffa ∷ 0xa4506ceb ∷ 0xbef9a3f7
    ∷ 0xc67178f2 ∷ []

unfoldable ror : ℕ → ℕ → ℕ
ror x n = bit_or (x / 2 ^ n) (x * 2 ^ (32 - n) % word)

unfoldable ch : ℕ → ℕ → ℕ → ℕ
ch x y z = bit_xor (bit_and x y) (bit_and (0xffff_ffff - x) z)

unfoldable maj : ℕ → ℕ → ℕ → ℕ
maj x y z = bit_xor (bit_xor (bit_and x y) (bit_and x z)) (bit_and y z)

unfoldable ep0 : ℕ → ℕ
unfolding ror
ep0 x = bit_xor (bit_xor (ror x 2) (ror x 13)) (ror x 22)

unfoldable ep1 : ℕ → ℕ
unfolding ror
ep1 x = bit_xor (bit_xor (ror x 6) (ror x 11)) (ror x 25)

unfoldable sig0 : ℕ → ℕ
unfolding ror
sig0 x = bit_xor (bit_xor (ror x 7) (ror x 18)) (x / 2 ^ 3)

unfoldable sig1 : ℕ → ℕ
unfolding ror
sig1 x = bit_xor (bit_xor (ror x 17) (ror x 19)) (x / 2 ^ 10)

-- The `i`-th word of a block, its first byte the highest.
unfoldable big_endian : List ℕ → ℕ → ℕ
big_endian block i =
    bit_or
      (bit_or
        (bit_or (get_or block (i * 4) 0 * 2 ^ 24 % word)
          (get_or block (i * 4 + 1) 0 * 2 ^ 16 % word))
        (get_or block (i * 4 + 2) 0 * 2 ^ 8 % word))
      (get_or block (i * 4 + 3) 0)

unfoldable load_words : ℕ → ℕ → List ℕ → List ℕ
unfolding big_endian
load_words zero i block = []
load_words (suc n) i block = big_endian block i ∷ load_words n (i + 1) block

-- `W[i]` for `n` more indices, appended to those before.
unfoldable extend : ℕ → ℕ → List ℕ → List ℕ
unfolding sig0 sig1
extend zero i w = w
extend (suc n) i w =
    let at = λ (j : ℕ). get_or w (i - j) 0 in
    extend n (i + 1) (w ++ (((sig1 (at 2) + at 7 + sig0 (at 15) + at 16) % word) ∷ []))

pub record Vars : Type 0 where
  pub a : ℕ
  pub b : ℕ
  pub c : ℕ
  pub d : ℕ
  pub e : ℕ
  pub f : ℕ
  pub g : ℕ
  pub h : ℕ

unfoldable step : ℕ → ℕ → Vars → Vars
unfolding ep0 ep1 ch maj
step k w v =
    let t1 = (v.h + ep1 v.e + ch v.e v.f v.g + k + w) % word in
    let t2 = (ep0 v.a + maj v.a v.b v.c) % word in
    record {
      a = (t1 + t2) % word;
      b = v.a;
      c = v.b;
      d = v.c;
      e = (v.d + t1) % word;
      f = v.e;
      g = v.f;
      h = v.g;
    }

unfoldable rounds : List ℕ → List ℕ → Vars → Vars
unfolding step
rounds [] ws v = v
rounds (k ∷ ks) [] v = v
rounds (k ∷ ks) (w ∷ ws) v = rounds ks ws (step k w v)

-- `sha256_transform`: the eight words of the chain after one block.
unfoldable pub transform : List ℕ → List ℕ → List ℕ
unfolding load_words extend rounds
transform hs block =
    let at = λ (i : ℕ). get_or hs i 0 in
    let w = extend 48 16 (load_words 16 0 block) in
    let v =
      rounds round_constants w (record {
        a = at 0;
        b = at 1;
        c = at 2;
        d = at 3;
        e = at 4;
        f = at 5;
        g = at 6;
        h = at 7;
      }) in
    ((at 0 + v.a) % word)
    ∷ ((at 1 + v.b) % word)
    ∷ ((at 2 + v.c) % word)
    ∷ ((at 3 + v.d) % word)
    ∷ ((at 4 + v.e) % word)
    ∷ ((at 5 + v.f) % word)
    ∷ ((at 6 + v.g) % word)
    ∷ ((at 7 + v.h) % word)
    ∷ []

-- `SHA256_State`.
pub record State : Type 0 where
  pub h : List ℕ
  pub block : List ℕ
  pub blkused : ℕ
  pub totlen : ℕ

abbrev pub initial_chain : List ℕ
initial_chain =
    0x6a09e667 ∷ 0xbb67ae85 ∷ 0x3c6ef372 ∷ 0xa54ff53a ∷ 0x510e527f ∷ 0x9b05688c ∷ 0x1f83d9ab
    ∷ 0x5be0cd19 ∷ []

-- The block keeps the bytes it held.
unfoldable pub init : List ℕ → State
init block = record { h = initial_chain; block = block; blkused = 0; totlen = 0 }

-- `memcpy(block + at, bytes, ...)`.
unfoldable pub copy : List ℕ → ℕ → List ℕ → List ℕ
copy block i [] = block
copy block i (x ∷ xs) = copy (set block i x) (i + 1) xs

-- `while (len >= 64)`: the chain and the bytes left. Every round takes 64, so `length d` is enough fuel.
unfoldable pub whole_blocks : ℕ → List ℕ → List ℕ → List ℕ × List ℕ
whole_blocks zero hs d = (hs, d)
whole_blocks (suc fuel) hs d = elim (leb 64 (length d)) [
  | true ↦ whole_blocks fuel (transform hs (take 64 d)) (drop 64 d)
  | false ↦ (hs, d)
]

-- `s->blkused > 0 && s->blkused + len >= 64`, the sum a 16-bit `int`.
unfoldable pub fills : ℕ → ℕ → Bool
fills used len = ltb 0 used && leb 64 (used + len) && ltb (used + len) 32768

unfoldable pub fill : State → List ℕ → State
unfolding copy
fill s d =
    let block = copy s.block s.blkused (take (64 - s.blkused) d) in
    record s { h = transform s.h block; block = block; blkused = 0 }

-- The loop and the bytes kept for the next call.
unfoldable pub absorb_rest : State → List ℕ → State
unfolding whole_blocks copy
absorb_rest s d =
    let (hs, rest) = whole_blocks (length d) s.h d in
    record s { h = hs; block = copy s.block s.blkused rest; blkused = s.blkused + length rest }

unfoldable pub update : State → List ℕ → State
unfolding fills fill absorb_rest
update s d =
    let s' = record s { totlen = (s.totlen + length d) % word } in
    if fills s.blkused (length d)
    then absorb_rest (fill s' d) (drop (64 - s.blkused) d)
    else absorb_rest s' d

-- `while (s->blkused != 56)`.
unfoldable pub pad : ℕ → State → State
unfolding update
pad zero s = s
pad (suc fuel) s = elim (s.blkused == 56) [ true ↦ s | false ↦ pad fuel (update s (0 ∷ [])) ]

unfoldable pub word_bytes : ℕ → List ℕ
word_bytes w = (w / 2 ^ 24 % 256) ∷ (w / 2 ^ 16 % 256) ∷ (w / 2 ^ 8 % 256) ∷ (w % 256) ∷ []

unfoldable pub chain_bytes : List ℕ → List ℕ
unfolding word_bytes
chain_bytes [] = []
chain_bytes (w ∷ ws) = word_bytes w ++ chain_bytes ws

-- `blkused` passes 56 within 64 rounds.
abbrev pub pad_rounds : ℕ
pad_rounds = 64

unfoldable pub final : State → List ℕ
unfolding update pad word_bytes chain_bytes
final s =
    let bits = s.totlen * 8 % word in
    let s' = pad pad_rounds (update s (0x80 ∷ [])) in
    chain_bytes (update s' (replicate 4 0 ++ word_bytes bits)).h

-- `sha256_simple`; the state is on the stack, so `block` is what was there.
unfoldable pub simple : List ℕ → List ℕ → List ℕ
unfolding init update final
simple block d = final (update (init block) d)
