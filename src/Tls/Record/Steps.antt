-- ===== src/Tls/Record/Steps.antt =====
-- The steps of sealing and opening a record (src/lib/vtls.c).
use vmodem.Prelude.{
  ℕ, zero, suc, ◌+◌, ◌-◌, ◌/◌, ◌%◌, ◌^◌, ◌≤◌, ◌<◌, ◌≡◌, ◌⊎◌, refl, sym, ap, ap₂, ◌∙◌, arith, true,
  false, some, none, Option, List, [], ◌∷◌, ◌++◌, leb, ltb, ◌==◌, ◌||◌, ◌&&◌, if◌then◌else◌, length,
  take, drop, replicate, get_or, length-append, length-replicate, bit_or-shifted, drop-append,
  take-append, get_or-append_right, get_or-replicate,
}
use vmodem.Tls.{Quad, get_quad, put_quad, get16_be, put16_be, put32_be, AllBytes, IsQuad, Aes}
use vmodem.Tls.Cbc.{aes_cbc_encrypt, aes_cbc_decrypt}
use vmodem.Tls.Cbc.Inverse.{get_quad-put_quad, length-put_quad}
use vmodem.Tls.Record.{
  TlsConn, rt_handshake, rt_application, max_record, mac_input, padding_length, record_header,
  record_length, same_bytes, hmac_sha1, protected, seal_record, check_mac, check_plain, open_cipher,
  open_record,
}

pub append-AllBytes : (xs ys : List ℕ) → AllBytes xs → AllBytes ys → AllBytes (xs ++ ys)
append-AllBytes [] ys h h' = h'
append-AllBytes (x ∷ xs) ys (b, h) h' = (b, append-AllBytes xs ys h h')

pub replicate-AllBytes : (n b : ℕ) → b < 256 → AllBytes (replicate n b)
replicate-AllBytes zero b h = tt
replicate-AllBytes (suc n) b h = (h, replicate-AllBytes n b h)

same_bytes_refl : (xs : List ℕ) → same_bytes xs xs ≡ true
unfolding same_bytes
same_bytes_refl [] = refl
same_bytes_refl (x ∷ xs) = ground (arith, same_bytes_refl xs)

pub padding_length_lem :
    (n : ℕ) → (padding_length n < 16) × ((n + 20 + padding_length n + 1) % 16 ≡ 0)
unfolding padding_length
padding_length_lem n = ground arith

get16_be-put16_be : (v : ℕ) (r : List ℕ) → v < 65536 → get16_be (put16_be v ++ r) ≡ v
unfolding get16_be put16_be
get16_be-put16_be v r h = bit_or-shifted 8 (v / 2 ^ 8 % 256) (v % 256) (omega arith) ∙ omega arith

pub record_length-record_header :
    (ct len : ℕ) → len ≤ max_record + 2048 → record_length (record_header ct len) ≡ some len
unfolding record_length record_header put16_be
record_length-record_header ct len h =
    let e : get16_be (put16_be len ++ []) ≡ len = get16_be-put16_be len [] (omega arith) in
    let t : leb len (max_record + 2048) ≡ true = ground arith in rw (e, record_length) (rw t refl)

module _ {K : Type 0} (sha1 : List ℕ → List ℕ) where
  pub check_plain_lem :
      (ct : ℕ) (content mac : List ℕ) (p : ℕ) (c : TlsConn K)
      → length mac ≡ 20
      → check_plain sha1 ct (content ++ (mac ++ replicate (p + 1) p)) c
        ≡ check_mac sha1 ct content mac c
  unfolding check_plain
  check_plain_lem ct content mac p c h =
      let pad = replicate (suc p) p in
      let plain = content ++ (mac ++ pad) in
      let one : p + 1 ≡ suc p = omega arith in
      let size : length plain ≡ length content + (length mac + suc p) = omega (
        arith,
        length-append content (mac ++ pad),
        length-append mac pad,
        length-replicate (suc p) p,
      ) in
      let at : length plain - 1 ≡ length content + (length mac + p) = omega (arith, size) in
      let last : get_or plain (length plain - 1) 0 ≡ p =
        ap (λ n. get_or plain n 0) at
        ∙ get_or-append_right content (mac ++ pad) (length mac + p) 0
        ∙ get_or-append_right mac pad p 0
        ∙ get_or-replicate p p 0 in
      let fits : ltb (length plain) (20 + p + 1) ≡ false = ground (arith, size) in
      let n : length plain - (20 + p + 1) ≡ length content = omega (arith, size) in
      let front : take (length content) plain ≡ content = take-append content (mac ++ pad) in
      let back : take 20 (drop (length content) plain) ≡ mac =
        ap (take 20) (drop-append content (mac ++ pad))
        ∙ ap (λ k. take k (mac ++ pad)) (sym h)
        ∙ take-append mac pad in
      ap (λ k. check_plain sha1 ct (content ++ (mac ++ replicate k p)) c) one
      ∙ rw (last, check_plain)
          (rw fits (
            ap (λ k. check_mac sha1 ct (take k plain) (take 20 (drop k plain)) c) n
            ∙ ap₂ (λ x y. check_mac sha1 ct x y c) front back))

  pub check_mac_same :
      (ct : ℕ) (content : List ℕ) (c : TlsConn K)
      → check_mac sha1 ct content (hmac_sha1 sha1 c.mac_dec_key (mac_input c.seq_recv ct content)) c
        ≡ (some content, record c { seq_recv = (c.seq_recv + 1) % 2 ^ 32 })
  unfolding check_mac
  check_mac_same ct content c =
      rw
        (
          same_bytes_refl (hmac_sha1 sha1 c.mac_dec_key (mac_input c.seq_recv ct content)),
          check_mac,
        )
        refl

-- A connection whose decryption has come to the vector `iv`.
abbrev pub decrypted : {K : Type 0} → Quad → TlsConn K → TlsConn K
decrypted iv d = record d { dec_ctx = record { keys = d.dec_ctx.keys; iv = iv } }

module _ {K : Type 0} (aes : Aes K) (sha1 : List ℕ → List ℕ) where
  pub open_cipher_lem :
      (ct : ℕ) (q : Quad) (coded : List ℕ) (d : TlsConn K)
      → IsQuad q
      → 16 ≤ length coded
      → let r = aes_cbc_decrypt aes d.dec_ctx.keys (length coded) q coded in
        open_cipher aes sha1 ct (put_quad q ++ coded) d ≡ check_plain sha1 ct r.1 (decrypted r.0 d)
  unfolding open_cipher put_quad put32_be
  open_cipher_lem ct q coded d hq le =
      let long : ltb (length (put_quad q ++ coded)) 32 ≡ false =
        ground (arith, length-put_quad q coded) in
      let after : Quad → Option (List ℕ) × TlsConn K = λ v.
        let r = aes_cbc_decrypt aes d.dec_ctx.keys (length coded) v coded in
        check_plain sha1 ct r.1 (decrypted r.0 d) in
      ap (λ b. if b then (none, d) else after (get_quad (put_quad q ++ coded))) long
      ∙ ap after (get_quad-put_quad q coded hq)

  pub open_record_lem :
      (ct : ℕ) (body : List ℕ) (d : TlsConn K)
      → d.cipher_active ≡ true
      → (ct ≡ rt_handshake) ⊎ (ct ≡ rt_application)
      → open_record aes sha1 ct body d ≡ open_cipher aes sha1 ct body d
  unfolding open_record
  open_record_lem ct body d act t =
      let coded : (ct == rt_handshake || ct == rt_application) ≡ true = ground arith in
      ap (λ b. if b then open_cipher aes sha1 ct body d else (some body, d))
        (ap₂ (λ a b. a && b) act coded)

  pub seal_record_lem :
      (random : List ℕ) (ct : ℕ) (content : List ℕ) (c : TlsConn K)
      → c.cipher_active ≡ true
      → let plain = protected sha1 c ct content in
        let coded = aes_cbc_encrypt aes c.enc_ctx.keys (length plain) (get_quad random) plain in
        seal_record aes sha1 random ct content c ≡ (
          record_header ct (length (random ++ coded.1)),
          random ++ coded.1,
          record c {
            enc_ctx = record { keys = c.enc_ctx.keys; iv = coded.0 };
            seq_send = (c.seq_send + 1) % 2 ^ 32;
          },
        )
  unfolding seal_record
  seal_record_lem random ct content c act =
      let plain = protected sha1 c ct content in
      let coded = aes_cbc_encrypt aes c.enc_ctx.keys (length plain) (get_quad random) plain in
      ap
        (λ b.
          if b
          then (
            record_header ct (length (random ++ coded.1)),
            random ++ coded.1,
            record c {
              enc_ctx = record { keys = c.enc_ctx.keys; iv = coded.0 };
              seq_send = (c.seq_send + 1) % 2 ^ 32;
            },
          )
          else (record_header ct (length content), content, c))
        act
