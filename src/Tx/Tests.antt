-- ===== src/Tx/Tests.antt =====
-- Flushes of the TX ring, run by hand.
use vmodem.Prelude.{◌≡◌, refl, arith, false, some, [], ◌∷◌, inl, replicate}
use vmodem.Mtcp.Sink.{World, quiet_world, taking-SendLaws, slow, sink}
use vmodem.Ring.{RingBuf, tx_ring_bits}
use vmodem.Ring.Inv.{IsValid}
use vmodem.Ring.Refine.{contents}
use vmodem.Port.{Ctx, Pending}
use vmodem.Port.Sample.{fresh_at, call_with, holding}
use vmodem.Telnet.Stream.{escape_all}
use vmodem.Tx.{fossil_flush_tx, is_owner}
use vmodem.Tx.Order.{promised, PendingFits, flush_tx-promised, flush_tx-delivers}
use vmodem.Tx.Lost.{flush_tx-discards}

-- 'A', 0xFF, 'B'
abbrev three_bytes : RingBuf
three_bytes = holding (65 ∷ 255 ∷ 66 ∷ replicate 509 0) 3

three_bytes-IsValid : IsValid tx_ring_bits three_bytes
three_bytes-IsValid = record {
  storage = refl;
  small = omega arith;
  head_in = omega arith;
  count_in = omega arith;
  tail_at = refl;
}

three_bytes-contents : contents tx_ring_bits three_bytes ≡ 65 ∷ 255 ∷ 66 ∷ []
three_bytes-contents = refl

abbrev leftover : Pending
leftover = record { bytes = 1 ∷ 2 ∷ 3 ∷ []; off = 1; owner = some 0 }

-- Port 0 has bytes left over; then three more.
abbrev sending : Ctx World
sending = call_with fresh_at three_bytes leftover

flush_tx-promised_example :
    let c' = (fossil_flush_tx slow 0 sending).1 in
    (promised (λ s w. w.bytes) 7 c' ≡ promised (λ s w. w.bytes) 7 sending)
    × IsValid tx_ring_bits c'.line.tx
    × PendingFits c'.shared.pending
flush_tx-promised_example =
    flush_tx-promised slow (λ s w. w.bytes) (taking-SendLaws (λ n. 2)) 0 7 sending refl
      three_bytes-IsValid (omega arith) (inl refl)

flush_tx-delivers_example :
    let c' = (fossil_flush_tx sink 0 sending).1 in
    (c'.shared.world.bytes ≡ promised (λ s w. w.bytes) 7 sending) × (c'.line.tx.count ≡ 0)
flush_tx-delivers_example =
    flush_tx-delivers sink (λ s w. w.bytes) (taking-SendLaws (λ n. n)) (λ s bs w. omega arith) 0 7
      sending refl refl three_bytes-IsValid (omega arith) (inl refl)

flush_tx-discards_example :
    let c' = (fossil_flush_tx slow 1 sending).1 in
    (is_owner c'.shared.pending.owner 0 ≡ false)
    × (c'.shared.world
        ≡ (slow.send 7 (escape_all (contents tx_ring_bits three_bytes)) quiet_world).1)
flush_tx-discards_example =
    flush_tx-discards slow 1 0 7 sending (omega arith) refl refl refl three_bytes-IsValid
      (omega arith)
