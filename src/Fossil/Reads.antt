-- ===== src/Fossil/Reads.antt =====
-- The reading functions AH=18h, AH=02h and AH=0Ch take the RX ring's bytes in order.
use vmodem.Prelude.{
  ℕ, zero, ◌≡◌, refl, ap, ◌∙◌, arith, Option, some, none, List, [], ◌∷◌, take, drop, ltb, get_or,
  if◌then◌else◌, ◌^◌, suc,
}
use vmodem.Mtcp.{Mtcp}
use vmodem.Ring.{RingBuf, get, ring_bits, ring_get}
use vmodem.Ring.Inv.{IsValid, get-IsValid}
use vmodem.Ring.Refine.{contents, get_refines, get-some, segment, dequeue}
use vmodem.Port.{Ctx}
use vmodem.Fossil.{read_byte, read_bytes, block_read, poll_for_data, peek, receive, guarded}

-- A loop step, on what the ring is known to do.
read_byte-contents :
    (n : ℕ) (q : List ℕ) (k : RingBuf → List ℕ × RingBuf) (o : Option ℕ) (r : RingBuf)
    → o ≡ (dequeue q).0
    → contents ring_bits r ≡ (dequeue q).1
    → IsValid ring_bits r
    → (let (out', r') = k r in
        (out' ≡ take n (contents ring_bits r))
        × (contents ring_bits r' ≡ drop n (contents ring_bits r))
        × IsValid ring_bits r')
    → let (out, r'') = read_byte (o, r) k in
      (out ≡ take (suc n) q) × (contents ring_bits r'' ≡ drop (suc n) q) × IsValid ring_bits r''
unfolding read_byte dequeue
read_byte-contents n [] k o r e f v h = rw e (refl, f, v)
read_byte-contents n (x ∷ q) k o r e f v h =
    rw e (ap (λ l. x ∷ l) (h.0 ∙ ap (take n) f), h.1 ∙ ap (drop n) f, h.2)

pub read_bytes-contents :
    (n : ℕ) {r : RingBuf}
    → IsValid ring_bits r
    → let (out, r') = read_bytes n r in
      (out ≡ take n (contents ring_bits r))
      × (contents ring_bits r' ≡ drop n (contents ring_bits r))
      × IsValid ring_bits r'
unfolding read_bytes ring_get
read_bytes-contents zero v = (refl, refl, v)
read_bytes-contents (suc n) {r} v =
    let (o, r1) = get ring_bits r in
    let g = get_refines v in
    let w = get-IsValid v in
    read_byte-contents n (contents ring_bits r) (read_bytes n) o r1 (ap (λ p. p.0) g)
      (ap (λ p. p.1) g) w (read_bytes-contents n w)

-- The oldest byte, or what a call returns when there is none.
abbrev pub head_or : ℕ → List ℕ → ℕ
head_or d [] = d
head_or d (b ∷ q) = b

dequeue-head :
    (d : ℕ) (q : List ℕ) (o : Option ℕ)
    → o ≡ (dequeue q).0
    → elim o as (λ x. ℕ) [ none ↦ d | some b ↦ b ] ≡ head_or d q
unfolding dequeue
dequeue-head d [] o e = rw e refl
dequeue-head d (x ∷ q) o e = rw e refl

dequeue-rest : (q : List ℕ) → (dequeue q).1 ≡ drop 1 q
unfolding dequeue
dequeue-rest [] = refl
dequeue-rest (x ∷ q) = refl

peek_ring :
    (d n : ℕ) (r : RingBuf)
    → IsValid ring_bits r
    → r.count ≡ n
    → (if ltb 0 r.count then get_or r.slots r.head 0 else d) ≡ head_or d (contents ring_bits r)
peek_ring d zero r v e =
    ground (arith, ap (λ m. head_or d (segment r.slots (2 ^ ring_bits) r.head m)) e)
peek_ring d (suc n) r v e = ground (arith, ap (head_or d) (get-some v e).1)

module _ {W : Type 0} (net : Mtcp W) (i : ℕ) where
  -- AH=18h, after its polls: the caller's buffer gets the oldest bytes of the RX ring in order, as
  -- many as there are up to the limit in CX; those and no others are taken off the ring.
  pub block_read_lem :
      (poll : Ctx W → Ctx W) (start : ℕ) (times : List ℕ) (max_chars : ℕ) (c : Ctx W)
      → let c1 = poll_for_data net i poll start times c in
        IsValid ring_bits c1.line.port.rx
        → let (out, c') = block_read net i poll start times max_chars c in
          (out ≡ take max_chars (contents ring_bits c1.line.port.rx))
          × (contents ring_bits c'.line.port.rx
              ≡ drop max_chars (contents ring_bits c1.line.port.rx))
          × IsValid ring_bits c'.line.port.rx
  unfolding block_read
  block_read_lem poll start times max_chars c v = read_bytes-contents max_chars v

module _ {W : Type 0} where
  peek_lem :
      (c : Ctx W)
      → IsValid ring_bits c.line.port.rx
      → peek c ≡ head_or 0xffff (contents ring_bits c.line.port.rx)
  unfolding peek
  peek_lem c v = peek_ring 0xffff c.line.port.rx.count c.line.port.rx v refl

  -- AH=02h after its poll, and AH=0Ch in the same state: both yield the oldest byte of the RX ring,
  -- or say that there is none; the first takes it off the ring, the second leaves the ring alone.
  receive_lem :
      (poll : Ctx W → Ctx W) (c : Ctx W)
      → let c1 = guarded poll c in
        IsValid ring_bits c1.line.port.rx
        → let q = contents ring_bits c1.line.port.rx in
          let (ax, c') = receive poll c in
          (ax ≡ head_or 0x8000 q)
          × (peek c1 ≡ head_or 0xffff q)
          × (contents ring_bits c'.line.port.rx ≡ drop 1 q)
  unfolding receive ring_get
  receive_lem poll c v =
      let c1 = guarded poll c in
      let q = contents ring_bits c1.line.port.rx in
      let g = get_refines v in
      (
        dequeue-head 0x8000 q (get ring_bits c1.line.port.rx).0 (ap (λ p. p.0) g),
        peek_lem c1 v,
        ap (λ p. p.1) g ∙ dequeue-rest q,
      )
