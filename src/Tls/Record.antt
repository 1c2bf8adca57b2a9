-- ===== src/Tls/Record.antt =====
-- The record layer of src/lib/vtls.c: the connections, HMAC with SHA-1, and what `tls_write_record`
-- makes of a record and `tls_read_record` of the bytes it has received. The loops that send and
-- receive these bytes are not here.
pub mod Steps
pub mod Roundtrip
use vmodem.Prelude.{
  ℕ, zero, suc, ◌+◌, ◌-◌, ◌%◌, ◌^◌, bit_xor, Bool, true, false, ◌&&◌, ◌||◌, Option, none, some,
  List, [], ◌∷◌, ◌++◌, ltb, leb, ◌==◌, if◌then◌else◌, length, take, drop, replicate, get_or,
}
use vmodem.Tls.{Quad, get_quad, get16_be, put16_be, put32_be, Aes}
use vmodem.Tls.Cbc.{aes_cbc_encrypt, aes_cbc_decrypt}

abbrev pub rt_handshake : ℕ
rt_handshake = 22

abbrev pub rt_application : ℕ
rt_application = 23

abbrev pub max_record : ℕ
max_record = 16384

-- `AES_CTX`: the key schedule and the vector.
pub record AesCtx (K : Type 0) : Type 0 where
  pub keys : K
  pub iv : Quad

-- `VTlsConn`. `app_len` is the length of `app_buf`, `peer_cert_len` that of `peer_cert`.
pub record TlsConn (K : Type 0) : Type 0 where
  pub active : Bool
  pub sockfd : ℕ
  pub enc_ctx : AesCtx K
  pub dec_ctx : AesCtx K
  pub mac_enc_key : List ℕ
  pub mac_dec_key : List ℕ
  pub seq_send : ℕ
  pub seq_recv : ℕ
  pub cipher_active : Bool
  pub app_buf : Option (List ℕ)
  pub app_pos : ℕ
  pub peer_cert : Option (List ℕ)
  pub peer_key_bits : ℕ

-- The key over `n` bytes of `pad`.
unfoldable pub key_pad : ℕ → ℕ → List ℕ → List ℕ
key_pad pad zero key = []
key_pad pad (suc n) [] = pad ∷ key_pad pad n []
key_pad pad (suc n) (x ∷ key) = bit_xor pad x ∷ key_pad pad n key

-- The bytes that the MAC is taken of: the 64-bit sequence number, the type, the version, the length
-- and the data.
unfoldable pub mac_input : ℕ → ℕ → List ℕ → List ℕ
unfolding put32_be put16_be
mac_input seq ct content =
    replicate 4 0 ++ (put32_be seq ++ ((ct % 256) ∷ 3 ∷ 3 ∷ (put16_be (length content) ++ content)))

-- The bytes of padding for `n` bytes of data, less the byte with their number.
unfoldable pub padding_length : ℕ → ℕ
padding_length n = let p = 16 - (n + 20 + 1) % 16 in if p == 16 then 0 else p

unfoldable pub record_header : ℕ → ℕ → List ℕ
unfolding put16_be
record_header ct len = (ct % 256) ∷ (put16_be 0x0303 ++ put16_be len)

-- The length in a header, as a 16-bit `int`: one above the limit is refused, and a negative one is
-- never received.
unfoldable pub record_length : List ℕ → Option ℕ
unfolding get16_be
record_length hdr =
    let len = get16_be (drop 3 hdr) in if leb len (max_record + 2048) then some len else none

-- `memcmp(a, b, n) == 0`
unfoldable pub same_bytes : List ℕ → List ℕ → Bool
same_bytes [] [] = true
same_bytes [] (y ∷ ys) = false
same_bytes (x ∷ xs) [] = false
same_bytes (x ∷ xs) (y ∷ ys) = (x == y) && same_bytes xs ys

module _ (sha1 : List ℕ → List ℕ) where
  unfoldable pub hmac_sha1 : List ℕ → List ℕ → List ℕ
  unfolding key_pad
  hmac_sha1 key content = sha1 (key_pad 0x5c 64 key ++ sha1 (key_pad 0x36 64 key ++ content))

module _ {K : Type 0} (sha1 : List ℕ → List ℕ) where
  -- The content, its MAC and the padding.
  unfoldable pub protected : TlsConn K → ℕ → List ℕ → List ℕ
  unfolding mac_input padding_length hmac_sha1
  protected c ct content =
      let padlen = padding_length (length content) in
      content
      ++ (hmac_sha1 sha1 c.mac_enc_key (mac_input c.seq_send ct content)
          ++ replicate (padlen + 1) padlen)

  unfoldable pub check_mac : ℕ → List ℕ → List ℕ → TlsConn K → Option (List ℕ) × TlsConn K
  unfolding mac_input same_bytes hmac_sha1
  check_mac ct content mac c =
      if same_bytes mac (hmac_sha1 sha1 c.mac_dec_key (mac_input c.seq_recv ct content))
      then (some content, record c { seq_recv = (c.seq_recv + 1) % 2 ^ 32 })
      else (none, c)

  -- From the decrypted bytes: the last one is the length of the padding.
  unfoldable pub check_plain : ℕ → List ℕ → TlsConn K → Option (List ℕ) × TlsConn K
  unfolding check_mac
  check_plain ct plain c =
      let padlen = get_or plain (length plain - 1) 0 in
      let n = length plain - (20 + padlen + 1) in
      if ltb (length plain) (20 + padlen + 1)
      then (none, c)
      else check_mac ct (take n plain) (take 20 (drop n plain)) c

module _ {K : Type 0} (aes : Aes K) (sha1 : List ℕ → List ℕ) where
  -- `tls_write_record` up to the sending, with the 16 random bytes: header, payload, connection.
  unfoldable pub seal_record : List ℕ → ℕ → List ℕ → TlsConn K → List ℕ × List ℕ × TlsConn K
  unfolding record_header protected aes_cbc_encrypt get_quad
  seal_record random ct content c =
      let plain = protected sha1 c ct content in
      let (iv, coded) = aes_cbc_encrypt aes c.enc_ctx.keys (length plain) (get_quad random) plain in
      if c.cipher_active
      then (
        record_header ct (length (random ++ coded)),
        random ++ coded,
        record c {
          enc_ctx = record { keys = c.enc_ctx.keys; iv = iv };
          seq_send = (c.seq_send + 1) % 2 ^ 32;
        },
      )
      else (record_header ct (length content), content, c)

  -- The branch of `tls_read_record` for a record that is encrypted.
  unfoldable pub open_cipher : ℕ → List ℕ → TlsConn K → Option (List ℕ) × TlsConn K
  unfolding check_plain aes_cbc_decrypt get_quad
  open_cipher ct body c =
      let (iv, plain) =
        aes_cbc_decrypt aes c.dec_ctx.keys (length (drop 16 body)) (get_quad body) (drop 16 body) in
      if ltb (length body) 32
      then (none, c)
      else check_plain sha1 ct plain
          (record c { dec_ctx = record { keys = c.dec_ctx.keys; iv = iv } })

  -- `tls_read_record` from where the body has been received.
  unfoldable pub open_record : ℕ → List ℕ → TlsConn K → Option (List ℕ) × TlsConn K
  unfolding open_cipher
  open_record ct body c =
      if c.cipher_active && (ct == rt_handshake || ct == rt_application)
      then open_cipher ct body c
      else (some body, c)
