-- ===== src/Tx/Sending.antt =====
-- A port whose output is its own, and stays so: what the FOSSIL functions that send rely on.
use vmodem.Prelude.{ℕ, ◌≡◌, ap, ◌∙◌, arith, some, List, [], ◌∷◌}
use vmodem.Mtcp.{Mtcp, SendLaws}
use vmodem.Ring.{tx_ring_bits}
use vmodem.Ring.Inv.{IsValid}
use vmodem.Port.{Shared, Ctx}
use vmodem.Tx.{resume_pending, send_batch, flush_open, fossil_flush_tx}
use vmodem.At.Command.Frame.{flush_tx-frame}
use vmodem.Tx.Order.{PendingFits, IsOurs, promised, flush_tx-promised}

-- Port `i` has an open socket `s`, a valid TX ring, and nothing of another port is pending.
pub record Sending {W : Type 0} (i s : ℕ) (c : Ctx W) : Type 0 where
  pub on_socket : c.line.port.sock ≡ some s
  pub tx_valid : IsValid tx_ring_bits c.line.tx
  pub fits : PendingFits c.shared.pending
  pub ours : IsOurs i c.shared.pending

module _ {W : Type 0} (net : Mtcp W) where
  resume-IsOurs :
      (i s : ℕ) (sh : Shared W)
      → IsOurs i sh.pending
      → IsOurs i (resume_pending net i s sh).1.pending
  unfolding resume_pending
  resume-IsOurs i s sh o = ground arith

  batch-IsOurs :
      (i s : ℕ) (out : List ℕ) (sh : Shared W)
      → IsOurs i sh.pending
      → IsOurs i (send_batch net i s out sh).pending
  unfolding send_batch
  batch-IsOurs i s [] sh o = o
  batch-IsOurs i s (b ∷ out) sh o = ground arith

  flush-IsOurs :
      (i : ℕ) (c : Ctx W)
      → IsOurs i c.shared.pending
      → IsOurs i (fossil_flush_tx net i c).1.shared.pending
  unfolding fossil_flush_tx flush_open
  flush-IsOurs i c o = grind (arith, resume-IsOurs, batch-IsOurs)

module _ {W : Type 0} (net : Mtcp W) (stream : ℕ → W → List ℕ) (laws : SendLaws net stream) where
  -- A flush keeps all of this, and the stream.
  pub flush-Sending :
      (i s : ℕ) (c : Ctx W)
      → Sending i s c
      → let c' = (fossil_flush_tx net i c).1 in
        Sending i s c' × (promised stream s c' ≡ promised stream s c)
  flush-Sending i s c v =
      let f = flush_tx-promised net stream laws i s c v.on_socket v.tx_valid v.fits v.ours in
      (
        record {
          on_socket = ap (λ p. p.sock) (flush_tx-frame net i c).0 ∙ v.on_socket;
          tx_valid = f.1;
          fits = f.2;
          ours = flush-IsOurs net i c v.ours;
        },
        f.0,
      )
