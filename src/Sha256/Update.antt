-- ===== src/Sha256/Update.antt =====
-- `sha256_update` (src/lib/sha256.c) and the bytes taken one at a time.
use vmodem.Prelude.{
  ℕ, suc, ◌+◌, ◌-◌, ◌%◌, ◌≤◌, ◌<◌, ◌≡◌, refl, sym, ap, ◌∙◌, List, [], ◌∷◌, ◌++◌, arith, length,
  take, drop, append-nil, append_assoc, length-take, length-set, take-set-suc, take_all,
  take-append-drop, Bool-cases, true, false, inl, inr, set, ◌⊎◌,
}
use vmodem.Sha256.{State, transform, copy, whole_blocks, fills, fill, absorb_rest, update, word}
use vmodem.Sha256.Absorb.{
  IsValid, view, absorb, sponge_at, absorb-append, absorb_short, absorb_full, whole_blocks_short,
  whole_blocks_lem, length-absorb, Sponge,
}

pub length-copy : (block : List ℕ) (i : ℕ) (xs : List ℕ) → length (copy block i xs) ≡ length block
unfolding copy
length-copy block i [] = refl
length-copy block i (x ∷ xs) = length-copy (set block i x) (i + 1) xs ∙ length-set block i x

-- `memcpy` behind the bytes that count.
take-copy :
    (block : List ℕ) (i : ℕ) (xs : List ℕ)
    → i + length xs ≤ length block
    → take (i + length xs) (copy block i xs) ≡ take i block ++ xs
unfolding copy
take-copy block i [] h =
    let e : i + 0 ≡ i = omega arith in ap (λ n. take n block) e ∙ sym (append-nil (take i block))
take-copy block i (x ∷ xs) h =
    let e : i + suc (length xs) ≡ (i + 1) + length xs = omega arith in
    let e' : i + 1 ≡ suc i = omega arith in
    ap (λ n. take n (copy (set block i x) (i + 1) xs)) e
    ∙ take-copy (set block i x) (i + 1) xs (omega (arith, length-set block i x))
    ∙ ap (λ n. take n (set block i x) ++ xs) e'
    ∙ ap (λ l. l ++ xs) (take-set-suc i block x (omega arith))
    ∙ append_assoc (take i block) (x ∷ []) xs

absorb_rest-view :
    (s : State) (d : List ℕ) (c r : List ℕ)
    → IsValid s
    → whole_blocks (length d) s.h d ≡ (c, r)
    → s.blkused + length r < 64
    → (view (absorb_rest s d) ≡ sponge_at c (take s.blkused s.block ++ r))
      × IsValid (absorb_rest s d)
unfolding absorb_rest sponge_at
absorb_rest-view s d c r v e lt =
    rw (e, absorb_rest)
      (
        ap (sponge_at c) (take-copy s.block s.blkused r (omega (arith, v))),
        record { storage = omega (arith, v, length-copy s.block s.blkused r); room = lt },
      )

-- What the part behind the first test does, where it starts a block or does not fill one.
absorb_rest_lem :
    (s : State) (d : List ℕ)
    → IsValid s
    → (s.blkused ≡ 0) ⊎ (s.blkused + length d < 64)
    → (view (absorb_rest s d) ≡ absorb (view s) d) × IsValid (absorb_rest s d)
unfolding sponge_at
absorb_rest_lem s d v (inl z) =
    let (eq, lt) = whole_blocks_lem (length d) s.h d (omega arith) in
    let w = whole_blocks (length d) s.h d in
    let (seen, valid) = absorb_rest-view s d w.0 w.1 v refl (omega (arith, lt, z)) in
    (
      seen
          ∙ ap (λ u. sponge_at w.0 (take u s.block ++ w.1)) z
          ∙ sym eq
          ∙ ap (λ u. absorb (sponge_at s.h (take u s.block)) d) (sym z),
      valid,
    )
absorb_rest_lem s d v (inr lt) =
    let (seen, valid) =
      absorb_rest-view s d s.h d v (whole_blocks_short (length d) s.h d (omega arith)) lt in
    (
      seen
          ∙ sym (
              absorb_short s.h (take s.blkused s.block) d
                (omega (arith, v, length-take s.blkused s.block))),
      valid,
    )

-- The first branch fills the block and compresses it.
fill_lem :
    (s : State) (d : List ℕ)
    → IsValid s
    → 64 ≤ s.blkused + length d
    → (view (fill s d) ≡ absorb (view s) (take (64 - s.blkused) d)) × IsValid (fill s d)
unfolding fill sponge_at
fill_lem s d v le =
    let n = 64 - s.blkused in
    let len : length (take n d) ≡ n = omega (arith, length-take n d) in
    let whole : s.blkused + length (take n d) ≡ 64 = omega (arith, v, len) in
    let size = length-copy s.block s.blkused (take n d) in
    let full : copy s.block s.blkused (take n d) ≡ take s.blkused s.block ++ take n d =
      sym (take_all 64 (copy s.block s.blkused (take n d)) (omega (arith, v, size)))
      ∙ ap (λ k. take k (copy s.block s.blkused (take n d))) (sym whole)
      ∙ take-copy s.block s.blkused (take n d) (omega (arith, v)) in
    (
      ap (λ b. sponge_at (transform s.h b) []) full
          ∙ sym (
              absorb_full s.h (take s.blkused s.block) (take n d)
                (omega (arith, v, whole, length-take s.blkused s.block))
                (omega (arith, v, length-take s.blkused s.block))),
      record { storage = omega (arith, v, size); room = omega arith },
    )

fills-true : (u n : ℕ) → fills u n ≡ true → 64 ≤ u + n
unfolding fills
fills-true u n h = ground arith

fills-false : (u n : ℕ) → fills u n ≡ false → u + n < 32768 → (u ≡ 0) ⊎ (u + n < 64)
unfolding fills
fills-false u n h small = ground arith

filled_lem :
    (s : State) (d : List ℕ)
    → IsValid s
    → 64 ≤ s.blkused + length d
    → (view (absorb_rest (fill s d) (drop (64 - s.blkused) d)) ≡ absorb (view s) d)
      × IsValid (absorb_rest (fill s d) (drop (64 - s.blkused) d))
unfolding fill
filled_lem s d v le =
    let n = 64 - s.blkused in
    let (seen, valid) = fill_lem s d v le in
    let (seen', valid') = absorb_rest_lem (fill s d) (drop n d) valid (inl refl) in
    (
      seen'
          ∙ ap (λ t. absorb t (drop n d)) seen
          ∙ sym (absorb-append (view s) (take n d) (drop n d))
          ∙ ap (absorb (view s)) (take-append-drop n d),
      valid',
    )

-- The bytes counted, before the branches.
abbrev counted : State → List ℕ → State
counted s d = record s { totlen = (s.totlen + length d) % word }

-- Where the `int` of the test does not overflow, `sha256_update` does to the chain and to the bytes
-- that wait what taking the bytes one at a time does, keeps the state well formed, and adds the
-- length to `totlen` modulo 2^32.
pub update-absorb :
    (s : State) (d : List ℕ)
    → IsValid s
    → s.blkused + length d < 32768
    → (view (update s d) ≡ absorb (view s) d)
      × IsValid (update s d)
      × ((update s d).totlen ≡ (s.totlen + length d) % word)
unfolding update fill absorb_rest
update-absorb s d v small =
    let v' : IsValid (counted s d) = record { storage = v.storage; room = v.room } in
    elim (Bool-cases (fills s.blkused (length d))) [
      | inl e ↦
          let (seen, valid) = filled_lem (counted s d) d v' (fills-true s.blkused (length d) e) in
          rw e (seen, valid, refl)
      | inr e ↦
          let (seen, valid) =
            absorb_rest_lem (counted s d) d v' (fills-false s.blkused (length d) e small) in
          rw e (seen, valid, refl)
    ]

pub length-view : (s : State) → IsValid s → length (view s).pending ≡ s.blkused
length-view s v = omega (arith, v, length-take s.blkused s.block)

pub blkused-update :
    (s : State) (d : List ℕ)
    → IsValid s
    → s.blkused + length d < 32768
    → (update s d).blkused ≡ (s.blkused + length d) % 64
blkused-update s d v small =
    let (seen, valid, _) = update-absorb s d v small in
    omega (
      arith,
      length-view s v,
      length-view (update s d) valid,
      ap (λ (t : Sponge). length t.pending) seen,
      length-absorb (view s) d (omega (arith, v, length-view s v)),
    )
