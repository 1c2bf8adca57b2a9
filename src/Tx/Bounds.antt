-- ===== src/Tx/Bounds.antt =====
-- A flush, of any port and over any network, keeps the TX ring valid and the pending buffer within
-- its size.
use vmodem.Prelude.{ℕ, ◌≤◌, arith, List, [], ◌∷◌, length}
use vmodem.Mtcp.{Mtcp}
use vmodem.Ring.{tx_ring_bits}
use vmodem.Ring.Inv.{IsValid}
use vmodem.Port.{Shared, Ctx}
use vmodem.Tx.{resume_pending, send_batch, flush_open, fossil_flush_tx}
use vmodem.Tx.Drain.{drain_lem, length-drain}
use vmodem.Tx.Order.{PendingFits}

-- The output of a port is within bounds.
pub record TxSafe {W : Type 0} (c : Ctx W) : Type 0 where
  pub tx_valid : IsValid tx_ring_bits c.line.tx
  pub fits : PendingFits c.shared.pending

module _ {W : Type 0} (net : Mtcp W) where
  resume-fits :
      (i s : ℕ) (sh : Shared W)
      → PendingFits sh.pending
      → PendingFits (resume_pending net i s sh).1.pending
  unfolding resume_pending
  resume-fits i s sh f = ground arith

  batch-fits :
      (i s : ℕ) (out : List ℕ) (sh : Shared W)
      → length out ≤ 1024
      → PendingFits sh.pending
      → PendingFits (send_batch net i s out sh).pending
  unfolding send_batch
  batch-fits i s [] sh h f = f
  batch-fits i s (b ∷ out) sh h f = ground arith

  pub flush_tx-TxSafe : (i : ℕ) (c : Ctx W) → TxSafe c → TxSafe (fossil_flush_tx net i c).1
  unfolding fossil_flush_tx flush_open
  flush_tx-TxSafe i c v =
      grind (arith, resume-fits, batch-fits, length-drain v.tx_valid, drain_lem v.tx_valid)
