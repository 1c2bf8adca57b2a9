-- ===== src/Fossil/Eager.antt =====
-- AH=19h over a network that takes all it is offered.
use vmodem.Prelude.{
  ℕ, ◌<◌, ◌≡◌, refl, ap, ◌∙◌, arith, true, false, Bool-cases, inl, inr, List, [], ◌∷◌, ◌++◌, length,
  take_all, pos_part,
}
use vmodem.Mtcp.{Mtcp, SendLaws}
use vmodem.Ring.{tx_ring_bits, txring_put}
use vmodem.Ring.Inv.{IsValid}
use vmodem.Ring.Refine.{put_refines, enqueue, length-contents}
use vmodem.Port.{Ctx}
use vmodem.Telnet.Stream.{escape_all}
use vmodem.Tx.{fossil_flush_tx}
use vmodem.Tx.Order.{flush_tx-delivers, is_idle, promised}
use vmodem.Tx.Sending.{Sending, flush-Sending}
use vmodem.At.Command.Frame.{flush_tx-frame}
use vmodem.Fossil.{has_call, tx_put, put_or_flush, write_bytes, block_write}
use vmodem.Fossil.Blocks.{put_taken, put_refused, tx_put-Sending, block_write_lem}

tx_put-room :
    {W : Type 0} (b : ℕ) (c : Ctx W)
    → IsValid tx_ring_bits c.line.tx
    → c.line.tx.count < 512
    → (tx_put b c).0 ≡ true
unfolding tx_put txring_put enqueue
tx_put-room b c v h =
    ground (arith, ap (λ p. p.0) (put_refines b v), length-contents tx_ring_bits c.line.tx)

tx_put-at : {W : Type 0} (b : ℕ) (c : Ctx W) → (tx_put b c).1.line.at ≡ c.line.at
unfolding tx_put
tx_put-at b c = refl

module _ {W : Type 0} (net : Mtcp W) (stream : ℕ → W → List ℕ) (laws : SendLaws net stream)
    (eager : (s : ℕ) (bs : List ℕ) (w : W) → pos_part (net.send s bs w).0 ≡ length bs) (i s : ℕ)
    (stays_open : (w : W) → net.is_closed s w ≡ false) where
  -- An answered call.
  record IsReady (c : Ctx W) : Type 0 where
    sending : Sending i s c
    not_ringing : c.line.at.ringing ≡ false
    connected : c.line.at.connect_pending ≡ false

  busy : (c : Ctx W) → IsReady c → is_idle net s c ≡ false
  busy c v = rw (v.not_ringing, v.connected, stays_open) refl

  put-taken :
      (b : ℕ) (c : Ctx W)
      → IsReady c
      → let (done, c') = put_or_flush net i b c in (done ≡ true) × IsReady c'
  put-taken b c v =
      let (done, c1) = tx_put b c in
      let v1 : IsReady c1 = record {
        sending = (tx_put-Sending stream i s b c v.sending).0;
        not_ringing = ap (λ a. a.ringing) (tx_put-at b c) ∙ v.not_ringing;
        connected = ap (λ a. a.connect_pending) (tx_put-at b c) ∙ v.connected;
      } in
      let o = v1.sending in
      let c2 = (fossil_flush_tx net i c1).1 in
      let empty =
        (flush_tx-delivers net stream laws eager i s c1 o.on_socket (busy c1 v1) o.tx_valid o.fits
          o.ours).1 in
      let f = (flush-Sending net stream laws i s c1 o).0 in
      let same = (flush_tx-frame net i c1).1 in
      elim (Bool-cases done) [
        | inl e ↦ rw (put_taken net i b c e) (refl, v1)
        | inr e ↦ rw (put_refused net i b c e) (
          tx_put-room b c2 f.tx_valid (omega (arith, empty)),
          record {
            sending = (tx_put-Sending stream i s b c2 f).0;
            not_ringing =
                ap (λ a. a.ringing) (tx_put-at b c2) ∙ ap (λ a. a.ringing) same ∙ v1.not_ringing;
            connected =
                ap (λ a. a.connect_pending) (tx_put-at b c2)
                ∙ ap (λ a. a.connect_pending) same
                ∙ v1.connected;
          },
        )
      ]

  write_bytes-all : (bs : List ℕ) (c : Ctx W) → IsReady c → (write_bytes net i bs c).0 ≡ length bs
  unfolding write_bytes
  write_bytes-all [] c v = refl
  write_bytes-all (b ∷ bs) c v =
      let p = put-taken b c v in
      let c1 = (put_or_flush net i b c).1 in rw (p.0) (omega (arith, write_bytes-all bs c1 p.1))

  block_write-count :
      (bs : List ℕ) (c : Ctx W)
      → has_call c ≡ true
      → (block_write net i bs c).0 ≡ (write_bytes net i bs c).0
  unfolding block_write
  block_write-count bs c call = rw call refl

  -- Over a network that takes all it is offered, on a socket that stays open, AH=19h of an answered
  -- call takes the whole block, however long: AX is its length, and all its bytes (escaped) are
  -- added at the end of the stream of what the socket has taken, what is pending and what the TX
  -- ring holds.
  pub block_write-all :
      (bs : List ℕ) (c : Ctx W)
      → has_call c ≡ true
      → c.line.at.ringing ≡ false
      → c.line.at.connect_pending ≡ false
      → Sending i s c
      → let (n, c') = block_write net i bs c in
        (n ≡ length bs) × (promised stream s c' ≡ promised stream s c ++ escape_all bs)
  block_write-all bs c call r p v =
      let n = (block_write net i bs c).0 in
      let whole : n ≡ length bs =
        block_write-count bs c call
        ∙ write_bytes-all bs c (record { sending = v; not_ringing = r; connected = p }) in
      (
        whole,
        (block_write_lem net stream laws i s bs c v).2
            ∙ ap (λ l. promised stream s c ++ escape_all l) (take_all n bs (omega (arith, whole))),
      )
