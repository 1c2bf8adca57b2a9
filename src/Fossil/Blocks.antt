-- ===== src/Fossil/Blocks.antt =====
-- The block functions AH=18h and AH=19h, and the single bytes they are made of.
use vmodem.Prelude.{
  ℕ, suc, ◌+◌, ◌≤◌, ◌≡◌, refl, ap, ◌∙◌, sym, arith, true, false, Bool, if◌then◌else◌, inl, inr,
  List, [], ◌∷◌, ◌++◌, length, take, append_assoc, append-nil, ltb, ◌^◌, Bool-cases,
}
use vmodem.Mtcp.{Mtcp, SendLaws}
use vmodem.Ring.{RingBuf, put, tx_ring_bits, txring_put}
use vmodem.Ring.Inv.{IsValid, put-IsValid}
use vmodem.Ring.Refine.{contents, put_refines, enqueue}
use vmodem.Port.{Ctx}
use vmodem.Telnet.Stream.{escape_byte, escape_all}
use vmodem.Tx.{fossil_flush_tx}
use vmodem.Tx.Order.{promised, out_of}
use vmodem.Tx.Sending.{Sending, flush-Sending}
use vmodem.Fossil.{has_call, tx_put, put_or_flush, write_bytes, block_write}

escape_all-append : (xs ys : List ℕ) → escape_all (xs ++ ys) ≡ escape_all xs ++ escape_all ys
escape_all-append [] ys = refl
escape_all-append (x ∷ xs) ys =
    ap (λ l. escape_byte x ++ l) (escape_all-append xs ys)
    ∙ sym (append_assoc (escape_byte x) (escape_all xs) (escape_all ys))

-- The bytes that a call has added to the stream, if it was taken.
abbrev taken : Bool → ℕ → List ℕ
taken done b = if done then b ∷ [] else []

enqueue-taken : (cap b : ℕ) (q : List ℕ) → (enqueue cap q b).1 ≡ q ++ taken (enqueue cap q b).0 b
unfolding enqueue
enqueue-taken cap b q = ground (arith, append-nil q)

put-taken :
    {k : ℕ} {r : RingBuf} (b : ℕ)
    → IsValid k r
    → contents k (put k r b).1 ≡ contents k r ++ taken (put k r b).0 b
put-taken {k} {r} b v =
    let h = put_refines b v in
    ap (λ p. p.1) h
    ∙ enqueue-taken (2 ^ k) b (contents k r)
    ∙ ap (λ p. contents k r ++ taken p.0 b) (sym h)

module _ {W : Type 0} (stream : ℕ → W → List ℕ) where
  -- One byte into the TX ring: at the end of the stream, or refused.
  pub tx_put-Sending :
      (i s b : ℕ) (c : Ctx W)
      → Sending i s c
      → let (done, c') = tx_put b c in
        Sending i s c' × (promised stream s c' ≡ promised stream s c ++ escape_all (taken done b))
  unfolding tx_put txring_put
  tx_put-Sending i s b c v =
      let q = contents tx_ring_bits c.line.tx in
      (
        record {
          on_socket = v.on_socket;
          tx_valid = put-IsValid b v.tx_valid;
          fits = v.fits;
          ours = v.ours;
        },
        ap (λ l. out_of stream s c.shared ++ escape_all l) (put-taken b v.tx_valid)
            ∙ ap (λ l. out_of stream s c.shared ++ l)
                (escape_all-append q (taken (put tx_ring_bits c.line.tx b).0 b))
            ∙ sym (
                append_assoc (out_of stream s c.shared) (escape_all q)
                  (escape_all (taken (put tx_ring_bits c.line.tx b).0 b))),
      )

module _ {W : Type 0} (net : Mtcp W) (i : ℕ) where
  pub put_taken :
      (b : ℕ) (c : Ctx W) → (tx_put b c).0 ≡ true → put_or_flush net i b c ≡ (true, (tx_put b c).1)
  unfolding put_or_flush
  put_taken b c e = rw e refl

  pub put_refused :
      (b : ℕ) (c : Ctx W)
      → (tx_put b c).0 ≡ false
      → put_or_flush net i b c ≡ tx_put b (fossil_flush_tx net i (tx_put b c).1).1
  unfolding put_or_flush
  put_refused b c e = rw e refl

module _ {W : Type 0} (net : Mtcp W) (stream : ℕ → W → List ℕ) (laws : SendLaws net stream) where
  -- One byte, after a flush if the ring is full.
  pub put_or_flush-Sending :
      (i s b : ℕ) (c : Ctx W)
      → Sending i s c
      → let (done, c') = put_or_flush net i b c in
        Sending i s c' × (promised stream s c' ≡ promised stream s c ++ escape_all (taken done b))
  put_or_flush-Sending i s b c v =
      let (done, c1) = tx_put b c in
      let first = tx_put-Sending stream i s b c v in
      let f = flush-Sending net stream laws i s c1 first.0 in
      let c2 = (fossil_flush_tx net i c1).1 in
      let again = tx_put-Sending stream i s b c2 f.0 in
      elim (Bool-cases done) [
        | inl e ↦
            rw (put_taken net i b c e)
              (first.0, first.1 ∙ ap (λ d. promised stream s c ++ escape_all (taken d b)) e)
        | inr e ↦ rw (put_refused net i b c e) (
          again.0,
          again.1
              ∙ ap (λ l. l ++ escape_all (taken (tx_put b c2).0 b))
                  (f.1
                    ∙ first.1
                    ∙ ap (λ d. promised stream s c ++ escape_all (taken d b)) e
                    ∙ append-nil (promised stream s c)),
        )
      ]

  write_bytes-Sending :
      (i s : ℕ) (bs : List ℕ) (c : Ctx W)
      → Sending i s c
      → let (n, c') = write_bytes net i bs c in
        Sending i s c'
        × (n ≤ length bs)
        × (promised stream s c' ≡ promised stream s c ++ escape_all (take n bs))
  unfolding write_bytes
  write_bytes-Sending i s [] c v = (v, omega arith, sym (append-nil (promised stream s c)))
  write_bytes-Sending i s (b ∷ bs) c v =
      let (done, c1) = put_or_flush net i b c in
      let here = put_or_flush-Sending i s b c v in
      let rest = write_bytes-Sending i s bs c1 here.0 in
      let n = (write_bytes net i bs c1).0 in
      elim (Bool-cases done) [
        | inl e ↦ rw e (
          rest.0,
          omega (arith, rest.1),
          rest.2
              ∙ ap (λ l. l ++ escape_all (take n bs))
                  (here.1 ∙ ap (λ d. promised stream s c ++ escape_all (taken d b)) e)
              ∙ append_assoc (promised stream s c) (escape_byte b ++ []) (escape_all (take n bs))
              ∙ ap (λ l. promised stream s c ++ (l ++ escape_all (take n bs)))
                  (append-nil (escape_byte b))
              ∙ ap (λ m. promised stream s c ++ escape_all (take m (b ∷ bs))) {x = suc n}
                  {y = n + 1} (omega arith),
        )
        | inr e ↦ rw e (
          here.0,
          omega arith,
          here.1 ∙ ap (λ d. promised stream s c ++ escape_all (taken d b)) e,
        )
      ]

  -- AH=19h on a port whose output is its own: AX is the number of bytes taken, at most as many as
  -- were offered, and exactly these first bytes (escaped) are added at the end of the stream of
  -- what the socket has taken, what is pending and what the TX ring holds. So the caller can go on
  -- from there: nothing is lost, repeated or reordered, however little the network takes.
  pub block_write_lem :
      (i s : ℕ) (bs : List ℕ) (c : Ctx W)
      → Sending i s c
      → let (n, c') = block_write net i bs c in
        Sending i s c'
        × (n ≤ length bs)
        × (promised stream s c' ≡ promised stream s c ++ escape_all (take n bs))
  unfolding block_write
  block_write_lem i s bs c v =
      let (n, c1) = write_bytes net i bs c in
      let w = write_bytes-Sending i s bs c v in
      let f = flush-Sending net stream laws i s c1 w.0 in
      elim (Bool-cases (has_call c)) [
        | inl call ↦ elim (Bool-cases (ltb 0 n)) [
          | inl some_taken ↦ rw (call, some_taken) (f.0, w.1, f.1 ∙ w.2)
          | inr none_taken ↦ rw (call, none_taken) w
        ]
        | inr no_call ↦ rw no_call (v, omega arith, sym (append-nil (promised stream s c)))
      ]
