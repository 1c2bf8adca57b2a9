-- ===== src/Tls/Record/Roundtrip.antt =====
-- What one end of a TLS connection seals, the other end opens (src/lib/vtls.c).
use vmodem.Prelude.{
  ℕ, ◌+◌, ◌%◌, ◌^◌, ◌≤◌, ◌≡◌, ◌⊎◌, sym, ap, ap₂, ◌∙◌, subst, arith, true, some, List, ◌++◌, length,
  replicate, get_or, length-append, length-replicate, take_all,
}
use vmodem.Tls.{Quad, get_quad, put_quad, AllBytes, Aes, AesLaws}
use vmodem.Tls.Cbc.{aes_cbc_encrypt, aes_cbc_decrypt}
use vmodem.Tls.Cbc.Inverse.{aes_cbc_decrypt-encrypt, length-aes_cbc_encrypt, get_quad_lem}
use vmodem.Tls.Record.{
  TlsConn, key_pad, rt_handshake, rt_application, max_record, mac_input, padding_length,
  record_header, record_length, hmac_sha1, protected, seal_record, check_mac, check_plain,
  open_record,
}
use vmodem.Tls.Record.Steps.{
  append-AllBytes, replicate-AllBytes, padding_length_lem, record_length-record_header,
  check_plain_lem, check_mac_same, open_cipher_lem, open_record_lem, seal_record_lem, decrypted,
}

-- `c` seals what `d` opens: the same keys and sequence number, and both encrypt.
pub record Paired {K : Type 0} (c d : TlsConn K) : Type 0 where
  pub keys : c.enc_ctx.keys ≡ d.dec_ctx.keys
  pub mac_keys : c.mac_enc_key ≡ d.mac_dec_key
  pub numbers : c.seq_send ≡ d.seq_recv
  pub sends_coded : c.cipher_active ≡ true
  pub gets_coded : d.cipher_active ≡ true

-- What `d` makes of a sealed record (header, body and the sender afterwards).
pub record Delivered {K : Type 0} (aes : Aes K) (sha1 : List ℕ → List ℕ) (d : TlsConn K) (ct : ℕ)
    (content : List ℕ) (s : List ℕ × List ℕ × TlsConn K) : Type 0 where
  pub typed : get_or s.0 0 0 ≡ ct
  pub sized : record_length s.0 ≡ some (length s.1)
  pub opened : (open_record aes sha1 ct s.1 d).0 ≡ some content
  pub paired : Paired s.2 (open_record aes sha1 ct s.1 d).1

-- What is known of SHA-1: twenty bytes.
pub record Sha1Laws (sha1 : List ℕ → List ℕ) : Type 0 where
  pub size : (m : List ℕ) → length (sha1 m) ≡ 20
  pub sha1-AllBytes : (m : List ℕ) → AllBytes (sha1 m)

module _ {K : Type 0} {aes : Aes K} {sha1 : List ℕ → List ℕ} (laws : AesLaws aes)
    (hash : Sha1Laws sha1) where
  protected_lem :
      (c : TlsConn K) (ct : ℕ) (content : List ℕ)
      → AllBytes content
      → AllBytes (protected sha1 c ct content)
        × (length (protected sha1 c ct content)
            ≡ length content + 20 + padding_length (length content) + 1)
  unfolding protected hmac_sha1
  protected_lem c ct content h =
      let mac = hmac_sha1 sha1 c.mac_enc_key (mac_input c.seq_send ct content) in
      let p = padding_length (length content) in
      let pad = replicate (p + 1) p in
      let (short, _) = padding_length_lem (length content) in
      (
        append-AllBytes content (mac ++ pad) h (
            append-AllBytes mac pad (hash.sha1-AllBytes _)
              (replicate-AllBytes (p + 1) p (omega (arith, short)))),
        omega (
          arith,
          length-append content (mac ++ pad),
          length-append mac pad,
          length-replicate (p + 1) p,
          hash.size (
              key_pad 0x5c 64 c.mac_enc_key
              ++ sha1 (key_pad 0x36 64 c.mac_enc_key ++ mac_input c.seq_send ct content)),
        ),
      )

  check_plain-protected :
      (c d : TlsConn K) (iv : Quad) (ct : ℕ) (content : List ℕ)
      → Paired c d
      → check_plain sha1 ct (protected sha1 c ct content) (decrypted iv d)
        ≡ (some content, record (decrypted iv d) { seq_recv = (d.seq_recv + 1) % 2 ^ 32 })
  unfolding protected hmac_sha1
  check_plain-protected c d iv ct content pair =
      let mac = hmac_sha1 sha1 c.mac_enc_key (mac_input c.seq_send ct content) in
      check_plain_lem sha1 ct content mac (padding_length (length content)) (decrypted iv d) (
        hash.size (
          key_pad 0x5c 64 c.mac_enc_key
          ++ sha1 (key_pad 0x36 64 c.mac_enc_key ++ mac_input c.seq_send ct content)))
      ∙ ap₂
          (λ k n.
            check_mac sha1 ct content (hmac_sha1 sha1 k (mac_input n ct content)) (decrypted iv d))
          pair.mac_keys pair.numbers
      ∙ check_mac_same sha1 ct content (decrypted iv d)

  -- The receiver's end, whatever the vector it is left with.
  opened_lem :
      (c d : TlsConn K) (random content : List ℕ) (ct : ℕ)
      → Paired c d
      → AllBytes random
      → length random ≡ 16
      → AllBytes content
      → (ct ≡ rt_handshake) ⊎ (ct ≡ rt_application)
      → let plain = protected sha1 c ct content in
        let q = get_quad random in
        let coded = (aes_cbc_encrypt aes c.enc_ctx.keys (length plain) q plain).1 in
        let iv = (aes_cbc_decrypt aes d.dec_ctx.keys (length coded) q coded).0 in
        open_record aes sha1 ct (random ++ coded) d
        ≡ (some content, record (decrypted iv d) { seq_recv = (d.seq_recv + 1) % 2 ^ 32 })
  opened_lem c d random content ct pair hr lr hc t =
      let plain = protected sha1 c ct content in
      let q = get_quad random in
      let (whole, hq) = get_quad_lem random hr (omega (arith, lr)) in
      let coded = (aes_cbc_encrypt aes c.enc_ctx.keys (length plain) q plain).1 in
      let iv = (aes_cbc_decrypt aes d.dec_ctx.keys (length coded) q coded).0 in
      let (bytes, size) = protected_lem c ct content hc in
      let same = length-aes_cbc_encrypt aes c.enc_ctx.keys (length plain) q plain in
      let front : random ≡ put_quad q = sym (whole ∙ take_all 16 random (omega (arith, lr))) in
      let back : (aes_cbc_decrypt aes d.dec_ctx.keys (length coded) q coded).1 ≡ plain =
        ap (λ k. (aes_cbc_decrypt aes k (length coded) q coded).1) (sym pair.keys)
        ∙ ap (λ n. (aes_cbc_decrypt aes c.enc_ctx.keys n q coded).1) same
        ∙ aes_cbc_decrypt-encrypt laws c.enc_ctx.keys (length plain) q plain hq bytes in
      ap (λ r. open_record aes sha1 ct (r ++ coded) d) front
      ∙ open_record_lem aes sha1 ct (put_quad q ++ coded) d pair.gets_coded t
      ∙ open_cipher_lem aes sha1 ct q coded d hq
          (omega (arith, same, size, padding_length_lem (length content)))
      ∙ ap (λ l. check_plain sha1 ct l (decrypted iv d)) back
      ∙ check_plain-protected c d iv ct content pair

  -- Where the block cipher can be undone and the digest has twenty bytes: a handshake or application
  -- record of at most 16384 bytes, sealed by one of two paired ends with any 16 bytes as the vector,
  -- has a header that gives its type and its length, and the other end opens it to the same bytes. The
  -- ends are paired afterwards.
  pub open_record-seal_record :
      (c d : TlsConn K) (random content : List ℕ) (ct : ℕ)
      → Paired c d
      → AllBytes random
      → length random ≡ 16
      → AllBytes content
      → length content ≤ max_record
      → (ct ≡ rt_handshake) ⊎ (ct ≡ rt_application)
      → Delivered aes sha1 d ct content (seal_record aes sha1 random ct content c)
  unfolding record_header
  open_record-seal_record c d random content ct pair hr lr hc lc t =
      let plain = protected sha1 c ct content in
      let q = get_quad random in
      let r = aes_cbc_encrypt aes c.enc_ctx.keys (length plain) q plain in
      let opened = opened_lem c d random content ct pair hr lr hc t in
      let (_, size) = protected_lem c ct content hc in
      let same = length-aes_cbc_encrypt aes c.enc_ctx.keys (length plain) q plain in
      let fits : length (random ++ r.1) ≤ max_record + 2048 =
        omega (arith, length-append random r.1, same, size, padding_length_lem (length content)) in
      let byte : ct % 256 ≡ ct = ground arith in
      subst (Delivered aes sha1 d ct content)
        (sym (seal_record_lem aes sha1 random ct content c pair.sends_coded))
        (record {
          typed = byte;
          sized = record_length-record_header ct (length (random ++ r.1)) fits;
          opened = ap (λ x. x.0) opened;
          paired =
              subst
                (λ (e : TlsConn K).
                  Paired
                    (record c {
                      enc_ctx = record { keys = c.enc_ctx.keys; iv = r.0 };
                      seq_send = (c.seq_send + 1) % 2 ^ 32;
                    })
                    e)
                (sym (ap (λ x. x.1) opened))
                (record {
                  keys = pair.keys;
                  mac_keys = pair.mac_keys;
                  numbers = ap (λ (n : ℕ). (n + 1) % 2 ^ 32) pair.numbers;
                  sends_coded = pair.sends_coded;
                  gets_coded = pair.gets_coded;
                });
        })
