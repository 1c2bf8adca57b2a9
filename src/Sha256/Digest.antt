-- ===== src/Sha256/Digest.antt =====
-- `sha256_final` and `sha256_simple` (src/lib/sha256.c) against the padded message cut into blocks.
use vmodem.Prelude.{
  joined, ℕ, zero, suc, ◌+◌, ◌-◌, ◌*◌, ◌/◌, ◌%◌, ◌≤◌, ◌<◌, ◌≡◌, ◌≢◌, refl, sym, ap, ap₂, ◌∙◌, List,
  [], ◌∷◌, ◌++◌, arith, ◌==◌, length, take, drop, replicate, length-append, length-drop, Bool-cases,
  inl, inr, length-replicate,
}
use vmodem.Sha256.{
  State, transform, word, init, update, pad, word_bytes, chain_bytes, pad_rounds, final,
  initial_chain,
}
use vmodem.Sha256.Absorb.{Sponge, view, sponge_at, absorb_block, absorb, IsValid, absorb-append}
use vmodem.Sha256.Update.{update-absorb, blkused-update}

-- The zeros that bring `used` bytes of a block to 56.
abbrev zeros_to_56 : ℕ → ℕ
zeros_to_56 used = (120 - used) % 64

pad_lem :
    (fuel : ℕ) (s : State)
    → IsValid s
    → zeros_to_56 s.blkused ≤ fuel
    → (view (pad fuel s) ≡ absorb (view s) (replicate (zeros_to_56 s.blkused) 0))
      × IsValid (pad fuel s)
      × ((pad fuel s).blkused ≡ 56)
unfolding pad absorb
pad_lem zero s v h =
    let z : zeros_to_56 s.blkused ≡ 0 = omega arith in
    (ap (λ n. absorb (view s) (replicate n 0)) (sym z), v, omega (arith, v))
pad_lem (suc fuel) s v h = elim (Bool-cases (s.blkused == 56)) [
  | inl e ↦
      let at : s.blkused ≡ 56 = ground arith in
      let z : zeros_to_56 s.blkused ≡ 0 = omega arith in
      rw (e, pad) (ap (λ n. absorb (view s) (replicate n 0)) (sym z), v, at)
  | inr e ↦
      let s' = update s (0 ∷ []) in
      let small : s.blkused + 1 < 32768 = omega (arith, v) in
      let (seen, valid, _) = update-absorb s (0 ∷ []) v small in
      let used = blkused-update s (0 ∷ []) v small in
      let off : s.blkused ≢ 56 = ground arith in
      let more : suc (zeros_to_56 s'.blkused) ≡ zeros_to_56 s.blkused = omega (arith, v) in
      let (seen', valid', at) = pad_lem fuel s' valid (omega arith) in
      rw (e, pad)
        (
          seen'
              ∙ ap (λ t. absorb t (replicate (zeros_to_56 s'.blkused) 0)) seen
              ∙ ap (λ n. absorb (view s) (replicate n 0)) more,
          valid',
          at,
        )
]

-- What is hashed behind a message that leaves `used` bytes in the block and has `total` bytes.
abbrev padding : ℕ → ℕ → List ℕ
padding used total =
    (0x80 ∷ [])
    ++ (replicate (zeros_to_56 ((used + 1) % 64)) 0
        ++ (replicate 4 0 ++ word_bytes (total * 8 % word)))

final_lem :
    (s : State)
    → IsValid s
    → final s ≡ chain_bytes (absorb (view s) (padding s.blkused s.totlen)).chain
unfolding final word_bytes
final_lem s v =
    let s1 = update s (0x80 ∷ []) in
    let zs : List ℕ = replicate (zeros_to_56 ((s.blkused + 1) % 64)) 0 in
    let len : List ℕ = replicate 4 0 ++ word_bytes (s.totlen * 8 % word) in
    let small : s.blkused + 1 < 32768 = omega (arith, v) in
    let (seen1, v1, _) = update-absorb s (0x80 ∷ []) v small in
    let used = blkused-update s (0x80 ∷ []) v small in
    let s2 = pad pad_rounds s1 in
    let (seen2, v2, at) = pad_lem pad_rounds s1 v1 (omega arith) in
    let eight : length len ≡ 8 = refl in
    let (seen3, _, _) = update-absorb s2 len v2 (omega arith) in
    ap (λ (t : Sponge). chain_bytes t.chain)
      (seen3
        ∙ ap (λ t. absorb t len) seen2
        ∙ ap (λ t. absorb (absorb t (replicate (zeros_to_56 s1.blkused) 0)) len) seen1
        ∙ ap (λ u. absorb (absorb (absorb (view s) (0x80 ∷ [])) (replicate (zeros_to_56 u) 0)) len)
            used
        ∙ sym (absorb-append (absorb (view s) (0x80 ∷ [])) zs len)
        ∙ sym (absorb-append (view s) (0x80 ∷ []) (zs ++ len)))

-- `n` blocks of 64 bytes.
unfoldable pub compress_all : ℕ → List ℕ → List ℕ → List ℕ
compress_all zero c m = c
compress_all (suc n) c m = compress_all n (transform c (take 64 m)) (drop 64 m)

abbrev whole_message : List ℕ → List ℕ
whole_message m = m ++ padding (length m % 64) (length m)

-- FIPS 180-4: the message, 0x80, zeros to 56 bytes modulo 64, and the length in bits in 64 bits.
abbrev pub padded : List ℕ → List ℕ
padded m =
    let bits = length m * 8 in
    m
    ++ ((0x80 ∷ [])
        ++ (replicate (zeros_to_56 ((length m % 64 + 1) % 64)) 0
            ++ (word_bytes (bits / word) ++ word_bytes (bits % word))))

pub digest : List ℕ → List ℕ
digest m = chain_bytes (compress_all (length (padded m) / 64) initial_chain (padded m))

whole_message_lem : (m : List ℕ) → length m < 0x2000_0000 → whole_message m ≡ padded m
unfolding word_bytes
whole_message_lem m h =
    let z : 0 ≡ length m * 8 / word = omega arith in
    ap
      (λ hi.
        m
        ++ ((0x80 ∷ [])
            ++ (replicate (zeros_to_56 ((length m % 64 + 1) % 64)) 0
                ++ (word_bytes hi ++ word_bytes (length m * 8 % word)))))
      z

compress_all_lem :
    (n : ℕ) (c m : List ℕ)
    → length m ≡ n * 64
    → absorb (sponge_at c []) m ≡ sponge_at (compress_all n c m) []
unfolding compress_all absorb sponge_at
compress_all_lem zero c [] h = refl
compress_all_lem zero c (x ∷ m) h = absurd (omega arith)
compress_all_lem (suc n) c m h =
    absorb_block c m (omega arith)
    ∙ compress_all_lem n (transform c (take 64 m)) (drop 64 m) (omega (arith, length-drop 64 m))

length-padding : (used total : ℕ) → length (padding used total) ≡ 9 + zeros_to_56 ((used + 1) % 64)
unfolding word_bytes
length-padding used total = omega (
  arith,
  length-append (replicate (zeros_to_56 ((used + 1) % 64)) 0)
      (replicate 4 0 ++ word_bytes (total * 8 % word)),
  length-replicate {A = ℕ} (zeros_to_56 ((used + 1) % 64)) 0,
)

-- The padded message is a whole number of blocks.
length-padded : (m : List ℕ) → length (whole_message m) ≡ length (whole_message m) / 64 * 64
length-padded m = omega (
  arith,
  length-append m (padding (length m % 64) (length m)),
  length-padding (length m % 64) (length m),
)

init-IsValid : (block : List ℕ) → length block ≡ 64 → IsValid (init block)
unfolding init
init-IsValid block h = record { storage = h; room = omega arith }

hashed :
    (s : State) (m : List ℕ)
    → IsValid s
    → length m < 0x2000_0000
    → view s ≡ absorb (sponge_at initial_chain []) m
    → s.blkused ≡ length m % 64
    → s.totlen ≡ length m
    → final s ≡ digest m
unfolding sponge_at digest
hashed s m v small seen used total =
    final_lem s v
    ∙ ap (λ (t : Sponge). chain_bytes t.chain)
        (ap₂ (λ u n. absorb (view s) (padding u n)) used total
          ∙ ap (λ t. absorb t (padding (length m % 64) (length m))) seen
          ∙ sym (absorb-append (sponge_at initial_chain []) m (padding (length m % 64) (length m)))
          ∙ compress_all_lem (length (whole_message m) / 64) initial_chain (whole_message m)
              (length-padded m))
    ∙ ap (λ p. chain_bytes (compress_all (length p / 64) initial_chain p))
        (whole_message_lem m small)

-- Several calls of `sha256_update`.
unfoldable pub update_all : State → List (List ℕ) → State
update_all s [] = s
update_all s (d ∷ ds) = update_all (update s d) ds

-- No call's length makes the 16-bit sum overflow.
abbrev pub Fits : List (List ℕ) → Type 0
Fits [] = Unit {0}
Fits (d ∷ ds) = (length d < 32705) × Fits ds

update_all_lem :
    (s : State) (ds : List (List ℕ))
    → IsValid s
    → Fits ds
    → s.totlen + length (joined ds) < word
    → (view (update_all s ds) ≡ absorb (view s) (joined ds))
      × IsValid (update_all s ds)
      × ((update_all s ds).totlen ≡ s.totlen + length (joined ds))
      × ((update_all s ds).blkused ≡ (s.blkused + length (joined ds)) % 64)
unfolding update_all absorb
update_all_lem s [] v fits small = (refl, v, omega arith, omega (arith, v))
update_all_lem s (d ∷ ds) v (fit, fits) small =
    let len = length-append d (joined ds) in
    let (seen, valid, total) = update-absorb s d v (omega (arith, v)) in
    let used = blkused-update s d v (omega (arith, v)) in
    let (seen', valid', total', used') =
      update_all_lem (update s d) ds valid fits (omega (arith, total, len)) in
    (
      seen' ∙ ap (λ t. absorb t (joined ds)) seen ∙ sym (absorb-append (view s) d (joined ds)),
      valid',
      omega (arith, total, total', len),
      omega (arith, used, used', len),
    )

-- `sha256_init`, any number of calls of `sha256_update` with at most 32704 bytes each and fewer than
-- 2^29 together, and `sha256_final`, whatever the block held before, give the digest of FIPS 180-4
-- of the bytes joined: the big-endian bytes of the chain after the 64-byte blocks of the padded
-- message, the compression of a block being `sha256_transform`.
pub final-update_all :
    (block : List ℕ) (ds : List (List ℕ))
    → length block ≡ 64
    → Fits ds
    → length (joined ds) < 0x2000_0000
    → final (update_all (init block) ds) ≡ digest (joined ds)
unfolding init sponge_at
final-update_all block ds h fits small =
    let v = init-IsValid block h in
    let (seen, valid, total, used) = update_all_lem (init block) ds v fits (omega arith) in
    hashed (update_all (init block) ds) (joined ds) valid small seen (omega (arith, used))
      (omega (arith, total))

length-compress_all : (n : ℕ) (c m : List ℕ) → length c ≡ 8 → length (compress_all n c m) ≡ 8
unfolding compress_all transform
length-compress_all zero c m h = h
length-compress_all (suc n) c m h = length-compress_all n (transform c (take 64 m)) (drop 64 m) refl

length-chain_bytes : (ws : List ℕ) → length (chain_bytes ws) ≡ 4 * length ws
unfolding chain_bytes word_bytes
length-chain_bytes [] = refl
length-chain_bytes (w ∷ ws) = omega (arith, length-chain_bytes ws)

pub length-digest : (m : List ℕ) → length (digest m) ≡ 32
unfolding digest
length-digest m =
    let c = compress_all (length (padded m) / 64) initial_chain (padded m) in
    omega (
      arith,
      length-chain_bytes c,
      length-compress_all (length (padded m) / 64) initial_chain (padded m) refl,
    )
