-- ===== src/Tls/Prf.antt =====
-- `hmac_sha256` and `tls_prf` of src/lib/vtls.c. The hash states are on the stack, so `block` is what was
-- there.
use vmodem.Prelude.{
  map, replicate, bit_xor, bit_xor_zero, ℕ, zero, suc, ◌+◌, ◌-◌, ◌≤◌, ◌<◌, ◌≡◌, refl, sym, ap, ap₂,
  ◌∙◌, arith, min, ltb, lt→ltb, take-nil, if◌then◌else◌, List, [], ◌∷◌, ◌++◌, append-nil, length,
  take, length-append,
}
use vmodem.Sha256.{init, update, final}
use vmodem.Sha256.Digest.{digest, update_all, final-update_all, length-digest}
use vmodem.Tls.Record.{key_pad}

unfoldable pub hmac_sha256 : List ℕ → List ℕ → List ℕ → List ℕ
unfolding key_pad init update final
hmac_sha256 block key content =
    let inner = final (update (update (init block) (key_pad 0x36 64 key)) content) in
    final (update (update (init block) (key_pad 0x5c 64 key)) inner)

length-key_pad : (pad n : ℕ) (key : List ℕ) → length (key_pad pad n key) ≡ n
unfolding key_pad
length-key_pad pad zero key = refl
length-key_pad pad (suc n) [] = ap suc (length-key_pad pad n [])
length-key_pad pad (suc n) (x ∷ key) = ap suc (length-key_pad pad n key)

hashed_two :
    (block p content : List ℕ)
    → length block ≡ 64
    → length p ≡ 64
    → length content < 32705
    → final (update (update (init block) p) content) ≡ digest (p ++ content)
unfolding update_all
hashed_two block p content hb hp hc =
    final-update_all block (p ∷ content ∷ []) hb (omega (arith, hp), (hc, tt))
      (omega (arith, hp, length-append p (content ++ []), length-append content []))
    ∙ ap (λ l. digest (p ++ l)) (append-nil content)

-- HMAC as RFC 2104 has it for keys of at most 64 bytes, by the digest of the whole message: the key is
-- filled up to 64 bytes with zeros, and each byte combined with 0x36 and with 0x5c. Of a longer key,
-- which the RFC would hash first, the first 64 bytes count.
unfoldable pub keyed : ℕ → List ℕ → List ℕ
keyed pad key = map (bit_xor pad) (take 64 (key ++ replicate 64 0))

unfoldable pub hmac : List ℕ → List ℕ → List ℕ
unfolding keyed
hmac key content = digest (keyed 0x5c key ++ digest (keyed 0x36 key ++ content))

-- The code's key is that one.
key_pad_lem :
    (pad n m : ℕ) (key : List ℕ)
    → n ≤ m
    → key_pad pad n key ≡ map (bit_xor pad) (take n (key ++ replicate m 0))
unfolding key_pad
key_pad_lem pad zero m key h = refl
key_pad_lem pad (suc n) zero key h = absurd (omega arith)
key_pad_lem pad (suc n) (suc m) [] h =
    ap₂ (λ x l. x ∷ l) (sym (bit_xor_zero pad)) (key_pad_lem pad n m [] (omega arith))
key_pad_lem pad (suc n) (suc m) (x ∷ key) h =
    ap (λ l. bit_xor pad x ∷ l) (key_pad_lem pad n (suc m) key (omega arith))

pub hmac_sha256_lem :
    (block key content : List ℕ)
    → length block ≡ 64
    → length content < 32705
    → hmac_sha256 block key content ≡ hmac key content
unfolding hmac_sha256 hmac keyed
hmac_sha256_lem block key content hb hc =
    let ipad = key_pad 0x36 64 key in
    let opad = key_pad 0x5c 64 key in
    ap (λ l. final (update (update (init block) opad) l))
      (hashed_two block ipad content hb (length-key_pad 0x36 64 key) hc)
    ∙ hashed_two block opad (digest (ipad ++ content)) hb (length-key_pad 0x5c 64 key)
        (omega (arith, length-digest (ipad ++ content)))
    ∙ ap₂ (λ o p. digest (o ++ digest (p ++ content))) (key_pad_lem 0x5c 64 64 key (omega arith))
        (key_pad_lem 0x36 64 64 key (omega arith))

-- `while (pos < outlen)`, for the `left` bytes still to come: every round gives one at least.
unfoldable pub prf_loop : List ℕ → List ℕ → ℕ → List ℕ → List ℕ → ℕ → List ℕ
unfolding hmac_sha256
prf_loop block secret zero a lseed left = []
prf_loop block secret (suc fuel) a lseed left =
    let tmp = hmac_sha256 block secret (a ++ lseed) in
    let n = min left 32 in
    let rest = prf_loop block secret fuel (hmac_sha256 block secret a) lseed (left - n) in
    if ltb 0 left then take n tmp ++ rest else []

unfoldable pub tls_prf : List ℕ → List ℕ → List ℕ → List ℕ → ℕ → List ℕ
unfolding prf_loop hmac_sha256
tls_prf block secret label seed outlen =
    let lseed = label ++ seed in
    prf_loop block secret outlen (hmac_sha256 block secret lseed) lseed outlen

length-hmac : (key content : List ℕ) → length (hmac key content) ≡ 32
unfolding hmac
length-hmac key content = length-digest (keyed 0x5c key ++ digest (keyed 0x36 key ++ content))

-- `P_SHA256` of RFC 5246: `n` blocks from the value `a` on.
unfoldable pub p_hash : List ℕ → ℕ → List ℕ → List ℕ → List ℕ
p_hash secret zero a seed = []
p_hash secret (suc n) a seed = hmac secret (a ++ seed) ++ p_hash secret n (hmac secret a) seed

take-append_long :
    (n : ℕ) (xs ys : List ℕ) → take n (xs ++ ys) ≡ take n xs ++ take (n - length xs) ys
take-append_long zero xs ys = let e : 0 - length xs ≡ 0 = omega arith in ap (λ k. take k ys) (sym e)
take-append_long (suc n) [] ys = let e : suc n ≡ suc n - 0 = omega arith in ap (λ k. take k ys) e
take-append_long (suc n) (x ∷ xs) ys =
    let e : n - length xs ≡ suc n - suc (length xs) = omega arith in
    ap (λ l. x ∷ l) (take-append_long n xs ys ∙ ap (λ k. take n xs ++ take k ys) e)

take-min : (n m : ℕ) (xs : List ℕ) → length xs ≡ m → take (min n m) xs ≡ take n xs
take-min n m [] h = take-nil ℕ (min n m) ∙ sym (take-nil ℕ n)
take-min zero m (x ∷ xs) h = let e : min 0 m ≡ 0 = omega arith in ap (λ k. take k (x ∷ xs)) e
take-min (suc n) m (x ∷ xs) h =
    let e : min (suc n) m ≡ suc (min n (length xs)) = omega (arith, h) in
    ap (λ k. take k (x ∷ xs)) e ∙ ap (λ l. x ∷ l) (take-min n (length xs) xs refl)

prf_loop_step :
    (block secret : List ℕ) (fuel : ℕ) (a lseed : List ℕ) (left : ℕ)
    → 0 < left
    → prf_loop block secret (suc fuel) a lseed left
      ≡ take (min left 32) (hmac_sha256 block secret (a ++ lseed))
        ++ prf_loop block secret fuel (hmac_sha256 block secret a) lseed (left - min left 32)
unfolding prf_loop
prf_loop_step block secret fuel a lseed left h =
    ap
      (λ b.
        if b
        then take (min left 32) (hmac_sha256 block secret (a ++ lseed))
          ++ prf_loop block secret fuel (hmac_sha256 block secret a) lseed (left - min left 32)
        else [])
      (lt→ltb 0 left h)

prf_loop_lem :
    (block secret : List ℕ) (fuel : ℕ) (a lseed : List ℕ) (left : ℕ)
    → length block ≡ 64
    → length a ≡ 32
    → length lseed < 32673
    → left ≤ fuel
    → prf_loop block secret fuel a lseed left ≡ take left (p_hash secret fuel a lseed)
unfolding p_hash prf_loop
prf_loop_lem block secret zero a lseed zero hb ha hl h = refl
prf_loop_lem block secret zero a lseed (suc left) hb ha hl h = absurd (omega arith)
prf_loop_lem block secret (suc fuel) a lseed zero hb ha hl h = refl
prf_loop_lem block secret (suc fuel) a lseed (suc left) hb ha hl h =
    let x = hmac secret (a ++ lseed) in
    let next = hmac secret a in
    let size : length x ≡ 32 = length-hmac _ _ in
    let less : suc left - min (suc left) 32 ≡ suc left - length x = omega (arith, size) in
    prf_loop_step block secret fuel a lseed (suc left) (omega arith)
    ∙ ap₂
        (λ t b.
          take (min (suc left) 32) t
          ++ prf_loop block secret fuel b lseed (suc left - min (suc left) 32))
        (hmac_sha256_lem block secret (a ++ lseed) hb (omega (arith, ha, length-append a lseed)))
        (hmac_sha256_lem block secret a hb (omega (arith, ha)))
    ∙ ap₂ (λ t u. t ++ u) (take-min (suc left) 32 x size)
        (prf_loop_lem block secret fuel next lseed (suc left - min (suc left) 32) hb
            (length-hmac _ _) hl (omega arith)
          ∙ ap (λ k. take k (p_hash secret fuel next lseed)) less)
    ∙ sym (take-append_long (suc left) x (p_hash secret fuel next lseed))

-- `tls_prf` gives the first `outlen` bytes of P_SHA256 (RFC 5246) of the label and the seed end to end,
-- over HMAC-SHA256 (RFC 2104) by the digest of whole messages, whatever the stack held before. Of a
-- secret of more than 64 bytes the first 64 count.
pub tls_prf-p_hash :
    (block secret label seed : List ℕ) (outlen : ℕ)
    → length block ≡ 64
    → length label + length seed < 32673
    → tls_prf block secret label seed outlen
      ≡ take outlen (p_hash secret outlen (hmac secret (label ++ seed)) (label ++ seed))
unfolding tls_prf
tls_prf-p_hash block secret label seed outlen hb h =
    let size = length-append label seed in
    ap (λ a. prf_loop block secret outlen a (label ++ seed) outlen)
      (hmac_sha256_lem block secret (label ++ seed) hb (omega (arith, size)))
    ∙ prf_loop_lem block secret outlen (hmac secret (label ++ seed)) (label ++ seed) outlen hb
        (length-hmac secret (label ++ seed)) (omega (arith, size)) (omega arith)
