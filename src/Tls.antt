-- ===== src/Tls.antt =====
-- The TLS client of src/lib/vtls.c: byte order and the blocks of AES. An `int` has 16 bits, a word 32.
-- The AES block cipher and SHA-1 come from PuTTY and are parameters, here and in the children.
pub mod Cbc
pub mod Record
pub mod Prf
mod Tests
use vmodem.Prelude.{
  ℕ, ◌+◌, ◌*◌, ◌/◌, ◌%◌, ◌^◌, ◌<◌, bit_or, bit_xor, ◌≡◌, List, [], ◌∷◌, ◌++◌, get_or, drop,
}

-- `GET32_BE`, of the four bytes at the front.
unfoldable pub get32_be : List ℕ → ℕ
get32_be cp =
    bit_or
      (bit_or (bit_or (get_or cp 0 0 * 2 ^ 24) (get_or cp 1 0 * 2 ^ 16)) (get_or cp 2 0 * 2 ^ 8))
      (get_or cp 3 0)

-- `PUT32_BE`
unfoldable pub put32_be : ℕ → List ℕ
put32_be v = (v / 2 ^ 24 % 256) ∷ (v / 2 ^ 16 % 256) ∷ (v / 2 ^ 8 % 256) ∷ (v % 256) ∷ []

-- `GET16_BE` and `PUT16_BE`
unfoldable pub get16_be : List ℕ → ℕ
get16_be cp = bit_or (get_or cp 0 0 * 2 ^ 8) (get_or cp 1 0)

unfoldable pub put16_be : ℕ → List ℕ
put16_be v = (v / 2 ^ 8 % 256) ∷ (v % 256) ∷ []

-- Four words: a block of AES, or an initialisation vector.
pub record Quad : Type 0 where
  pub w0 : ℕ
  pub w1 : ℕ
  pub w2 : ℕ
  pub w3 : ℕ

unfoldable pub get_quad : List ℕ → Quad
unfolding get32_be
get_quad bs = record {
  w0 = get32_be bs;
  w1 = get32_be (drop 4 bs);
  w2 = get32_be (drop 8 bs);
  w3 = get32_be (drop 12 bs);
}

unfoldable pub put_quad : Quad → List ℕ
unfolding put32_be
put_quad q = put32_be q.w0 ++ (put32_be q.w1 ++ (put32_be q.w2 ++ put32_be q.w3))

unfoldable pub xor_quad : Quad → Quad → Quad
xor_quad p q = record {
  w0 = bit_xor p.w0 q.w0;
  w1 = bit_xor p.w1 q.w1;
  w2 = bit_xor p.w2 q.w2;
  w3 = bit_xor p.w3 q.w3;
}

pub record IsQuad (q : Quad) : Type 0 where
  pub q0 : q.w0 < 2 ^ 32
  pub q1 : q.w1 < 2 ^ 32
  pub q2 : q.w2 < 2 ^ 32
  pub q3 : q.w3 < 2 ^ 32

abbrev pub AllBytes : List ℕ → Type 0
AllBytes [] = Unit {0}
AllBytes (b ∷ bs) = (b < 256) × AllBytes bs

-- The block cipher under a key schedule of type `K`: `aes_encrypt_block` and `aes_decrypt_block`.
pub record Aes (K : Type 0) : Type 0 where
  pub encrypt_block : K → Quad → Quad
  pub decrypt_block : K → Quad → Quad

-- What a block cipher is: each key permutes the blocks.
pub record AesLaws {K : Type 0} (aes : Aes K) : Type 0 where
  pub encrypt-IsQuad : (k : K) (q : Quad) → IsQuad q → IsQuad (aes.encrypt_block k q)
  pub decrypt-encrypt :
      (k : K) (q : Quad) → IsQuad q → aes.decrypt_block k (aes.encrypt_block k q) ≡ q
