-- ===== src/Tx/Lost.antt =====
-- The pending buffer is one for all ports. A flush of one port discards what another has pending.
use vmodem.Prelude.{
  ℕ, ◌<◌, ◌≡◌, ◌≢◌, arith, true, false, some, List, [], ◌∷◌, length, length-append,
}
use vmodem.Mtcp.{Mtcp}
use vmodem.Ring.{tx_ring_bits}
use vmodem.Ring.Inv.{IsValid}
use vmodem.Ring.Refine.{contents, length-contents}
use vmodem.Port.{Shared, Ctx}
use vmodem.Telnet.Stream.{escape_byte, escape_all}
use vmodem.Tx.{is_owner, resume_pending, send_batch, flush_open, fossil_flush_tx}
use vmodem.Tx.Drain.{drain_lem}
use vmodem.Tx.Order.{is_idle, flush_runs}

batch-owner :
    {W : Type 0} (net : Mtcp W) (i j s : ℕ) (out : List ℕ) (sh : Shared W)
    → 0 < length out
    → i ≢ j
    → let sh' = send_batch net i s out sh in
      (is_owner sh'.pending.owner j ≡ false) × (sh'.world ≡ (net.send s out sh.world).1)
unfolding send_batch
batch-owner net i j s [] sh h ne = absurd (omega arith)
batch-owner net i j s (b ∷ out) sh h ne = ground arith

length-escape_all-pos : (bs : List ℕ) → 0 < length bs → 0 < length (escape_all bs)
length-escape_all-pos [] h = absurd (omega arith)
length-escape_all-pos (b ∷ bs) h = ground (arith, length-append (escape_byte b) (escape_all bs))

resume-other :
    {W : Type 0} (net : Mtcp W) (i j s : ℕ) (sh : Shared W)
    → i ≢ j
    → sh.pending.owner ≡ some j
    → resume_pending net i s sh ≡ (true, sh)
unfolding resume_pending
resume-other net i j s sh ne o = ground arith

-- Whenever port `j` has output pending in the shared buffer and another port `i` flushes a TX ring
-- that is not empty over an open socket, the bytes of `j` are discarded: only the bytes of `i` are
-- offered to the network, and the buffer is no longer that of `j`.
pub flush_tx-discards :
    {W : Type 0} (net : Mtcp W) (i j s : ℕ) (c : Ctx W)
    → i ≢ j
    → c.shared.pending.owner ≡ some j
    → c.line.port.sock ≡ some s
    → is_idle net s c ≡ false
    → IsValid tx_ring_bits c.line.tx
    → 0 < c.line.tx.count
    → let c' = (fossil_flush_tx net i c).1 in
      (is_owner c'.shared.pending.owner j ≡ false)
      × (c'.shared.world
          ≡ (net.send s (escape_all (contents tx_ring_bits c.line.tx)) c.shared.world).1)
unfolding flush_open
flush_tx-discards net i j s c ne o e busy v pos =
    let full = escape_all (contents tx_ring_bits c.line.tx) in
    rw (flush_runs net i s c e busy, resume-other net i j s c.shared ne o, (drain_lem v).escaped)
      (batch-owner net i j s full c.shared
        (length-escape_all-pos (contents tx_ring_bits c.line.tx)
          (omega (arith, length-contents tx_ring_bits c.line.tx)))
        ne)
