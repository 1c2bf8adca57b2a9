-- ===== src/Sha256/Absorb.antt =====
-- A reference for `sha256_update` (src/lib/sha256.c): the bytes one at a time, a block compressed as
-- soon as it is full.
use vmodem.Prelude.{
  ℕ, zero, suc, ◌+◌, ◌%◌, ◌≤◌, ◌<◌, ◌≡◌, refl, sym, ap, ◌∙◌, List, [], ◌∷◌, ◌++◌, arith, ◌==◌,
  if◌then◌else◌, length, take, drop, append-nil, append_assoc, length-append, length-drop,
  length-take, take-append-drop, Bool-cases, leb, inl, inr, leb→le,
}
use vmodem.Sha256.{State, transform, whole_blocks}

-- The chain and the bytes of the block that is not full.
pub record Sponge : Type 0 where
  pub chain : List ℕ
  pub pending : List ℕ

-- What a state stands for: the bytes of its block behind `blkused` are of no account.
abbrev pub view : State → Sponge
view s = record { chain = s.h; pending = take s.blkused s.block }

unfoldable pub push : Sponge → ℕ → Sponge
push v x =
    let p = v.pending ++ (x ∷ []) in
    if length p == 64
    then record { chain = transform v.chain p; pending = [] }
    else record { chain = v.chain; pending = p }

unfoldable pub absorb : Sponge → List ℕ → Sponge
unfolding push
absorb v [] = v
absorb v (x ∷ xs) = absorb (push v x) xs

pub record IsValid (s : State) : Type 0 where
  pub storage : length s.block ≡ 64
  pub room : s.blkused < 64

pub absorb-append : (v : Sponge) (xs ys : List ℕ) → absorb v (xs ++ ys) ≡ absorb (absorb v xs) ys
unfolding absorb
absorb-append v [] ys = refl
absorb-append v (x ∷ xs) ys = absorb-append (push v x) xs ys

unfoldable pub sponge_at : List ℕ → List ℕ → Sponge
sponge_at c p = record { chain = c; pending = p }

push_short :
    (c p : List ℕ) (x : ℕ) → length p < 63 → push (sponge_at c p) x ≡ sponge_at c (p ++ (x ∷ []))
unfolding push sponge_at
push_short c p x h = ground (arith, length-append p (x ∷ []))

push_full :
    (c p : List ℕ) (x : ℕ)
    → length p ≡ 63
    → push (sponge_at c p) x ≡ sponge_at (transform c (p ++ (x ∷ []))) []
unfolding push sponge_at
push_full c p x h = ground (arith, length-append p (x ∷ []))

pub absorb_short :
    (c p xs : List ℕ)
    → length p + length xs < 64
    → absorb (sponge_at c p) xs ≡ sponge_at c (p ++ xs)
unfolding absorb
absorb_short c p [] h = ap (sponge_at c) (sym (append-nil p))
absorb_short c p (x ∷ xs) h =
    ap (λ v. absorb v xs) (push_short c p x (omega arith))
    ∙ absorb_short c (p ++ (x ∷ [])) xs (omega (arith, length-append p (x ∷ [])))
    ∙ ap (sponge_at c) (append_assoc p (x ∷ []) xs)

pub absorb_full :
    (c p xs : List ℕ)
    → length p + length xs ≡ 64
    → length p < 64
    → absorb (sponge_at c p) xs ≡ sponge_at (transform c (p ++ xs)) []
unfolding absorb
absorb_full c p [] h room = absurd (omega arith)
absorb_full c p (x ∷ []) h room = push_full c p x (omega arith)
absorb_full c p (x ∷ y ∷ xs) h room =
    ap (λ v. absorb v (y ∷ xs)) (push_short c p x (omega arith))
    ∙ absorb_full c (p ++ (x ∷ [])) (y ∷ xs) (omega (arith, length-append p (x ∷ [])))
        (omega (arith, length-append p (x ∷ [])))
    ∙ ap (λ q. sponge_at (transform c q) []) (append_assoc p (x ∷ []) (y ∷ xs))

pub absorb_block :
    (c d : List ℕ)
    → 64 ≤ length d
    → absorb (sponge_at c []) d ≡ absorb (sponge_at (transform c (take 64 d)) []) (drop 64 d)
absorb_block c d h =
    ap (absorb (sponge_at c [])) (sym (take-append-drop 64 d))
    ∙ absorb-append (sponge_at c []) (take 64 d) (drop 64 d)
    ∙ ap (λ v. absorb v (drop 64 d))
        (absorb_full c [] (take 64 d) (omega (arith, length-take 64 d)) (omega arith))

pub whole_blocks_short : (fuel : ℕ) (c d : List ℕ) → length d < 64 → whole_blocks fuel c d ≡ (c, d)
unfolding whole_blocks
whole_blocks_short zero c d h = refl
whole_blocks_short (suc fuel) c d h = ground arith

pub whole_blocks_lem :
    (fuel : ℕ) (c d : List ℕ)
    → length d ≤ fuel
    → (absorb (sponge_at c []) d ≡ sponge_at (whole_blocks fuel c d).0 (whole_blocks fuel c d).1)
      × (length (whole_blocks fuel c d).1 < 64)
unfolding whole_blocks
whole_blocks_lem zero c d h = (absorb_short c [] d (omega arith), omega arith)
whole_blocks_lem (suc fuel) c d h = elim (Bool-cases (leb 64 (length d))) [
  | inl e ↦
      let le = leb→le 64 (length d) e in
      let (eq, lt) =
        whole_blocks_lem fuel (transform c (take 64 d)) (drop 64 d)
          (omega (arith, length-drop 64 d)) in
      rw (e, whole_blocks) (absorb_block c d le ∙ eq, lt)
  | inr e ↦ rw (e, whole_blocks) (absorb_short c [] d (ground arith), ground arith)
]

length-push :
    (v : Sponge) (x : ℕ)
    → length v.pending < 64
    → length (push v x).pending ≡ (length v.pending + 1) % 64
unfolding push
length-push v x h = ground (arith, length-append v.pending (x ∷ []))

pub length-absorb :
    (v : Sponge) (d : List ℕ)
    → length v.pending < 64
    → length (absorb v d).pending ≡ (length v.pending + length d) % 64
unfolding absorb
length-absorb v [] h = omega arith
length-absorb v (x ∷ d) h =
    omega (arith, length-absorb (push v x) d (omega (arith, length-push v x h)), length-push v x h)
