-- ===== src/Tls/Tests.antt =====
-- A sealed record and a derived key by hand: the cipher is an exclusive or with a fixed block, the digest twenty times the
-- length.
use vmodem.Prelude.{
  take, codes, ◌++◌, ◌≡◌, ℕ, ◌%◌, refl, inr, arith, true, none, List, [], ◌∷◌, length, replicate,
}
use vmodem.Tls.{Quad, IsQuad, xor_quad, Aes, AesLaws}
use vmodem.Tls.Cbc.Inverse.{xor_quad-IsQuad, xor_quad_cancel}
use vmodem.Tls.Record.{AesCtx, TlsConn, seal_record}
use vmodem.Tls.Prf.{tls_prf, hmac, p_hash, tls_prf-p_hash}
use vmodem.Tls.Record.Steps.{replicate-AllBytes}
use vmodem.Tls.Record.Roundtrip.{Paired, Delivered, Sha1Laws, open_record-seal_record}

abbrev mask : Quad
mask = record { w0 = 0x0102_0304; w1 = 0xffff_ffff; w2 = 7; w3 = 0 }

mask-IsQuad : IsQuad mask
mask-IsQuad = record { q0 = omega arith; q1 = omega arith; q2 = omega arith; q3 = omega arith }

abbrev masked : Aes (Unit {0})
masked = record { encrypt_block = λ k q. xor_quad mask q; decrypt_block = λ k q. xor_quad mask q }

masked-AesLaws : AesLaws masked
masked-AesLaws = record {
  encrypt-IsQuad = λ k q h. xor_quad-IsQuad mask q mask-IsQuad h;
  decrypt-encrypt = λ k q h. xor_quad_cancel mask q;
}

abbrev twenty : List ℕ → List ℕ
twenty m = replicate 20 (length m % 256)

twenty-Sha1Laws : Sha1Laws twenty
twenty-Sha1Laws = record {
  size = λ m. refl;
  sha1-AllBytes = λ m. replicate-AllBytes 20 (length m % 256) (omega arith);
}

abbrev ctx : AesCtx (Unit {0})
ctx = record { keys = tt; iv = mask }

abbrev conn : TlsConn (Unit {0})
conn = record {
  active = true;
  sockfd = 3;
  enc_ctx = ctx;
  dec_ctx = ctx;
  mac_enc_key = 1 ∷ 2 ∷ [];
  mac_dec_key = 1 ∷ 2 ∷ [];
  seq_send = 5;
  seq_recv = 5;
  cipher_active = true;
  app_buf = none;
  app_pos = 0;
  peer_cert = none;
  peer_key_bits = 2048;
}

conn-Paired : Paired conn conn
conn-Paired = record {
  keys = refl;
  mac_keys = refl;
  numbers = refl;
  sends_coded = refl;
  gets_coded = refl;
}

open_record-seal_record_example :
    Delivered masked twenty conn 23
      (104 ∷ 105 ∷ [])
      (seal_record masked twenty (replicate 16 9) 23 (104 ∷ 105 ∷ []) conn)
open_record-seal_record_example =
    open_record-seal_record masked-AesLaws twenty-Sha1Laws conn conn (replicate 16 9)
      (104 ∷ 105 ∷ []) 23 conn-Paired (replicate-AllBytes 16 9 (omega arith)) refl
      (omega arith, (omega arith, tt)) (omega arith) (inr refl)

tls_prf-p_hash_example :
    tls_prf (replicate 64 0) (1 ∷ 2 ∷ []) (codes "key") (7 ∷ []) 40
    ≡ take 40 (
        p_hash
          (1 ∷ 2 ∷ [])
          40
          (hmac (1 ∷ 2 ∷ []) (codes "key" ++ (7 ∷ [])))
          (codes "key" ++ (7 ∷ [])))
tls_prf-p_hash_example =
    tls_prf-p_hash (replicate 64 0) (1 ∷ 2 ∷ []) (codes "key") (7 ∷ []) 40 refl (omega arith)
