-- ===== src/Tx.antt =====
-- The transmit path of src/int14.c: `fossil_flush_tx` and `fossil_clear_tx`.
pub mod Drain
pub mod Order
pub mod Bounds
pub mod Lost
pub mod Sending
mod Tests
use vmodem.Prelude.{
  ℕ, zero, suc, ◌+◌, ◌-◌, ◌%◌, Bool, true, false, ◌&&◌, ◌||◌, Option, none, some, List, [], ◌∷◌,
  ◌++◌, ltb, leb, ◌==◌, if◌then◌else◌, length, drop, ℤ, pos, negsuc, pos_part,
}
use vmodem.Mtcp.{Mtcp}
use vmodem.Ring.{RingBuf, txring_init, txring_get}
use vmodem.Port.{Pending, Shared, Ctx}
use vmodem.Telnet.Stream.{escape_byte}

-- `g_tx_pend_port == i`
abbrev pub is_owner : Option ℕ → ℕ → Bool
is_owner none i = false
is_owner (some j) i = j == i

abbrev pub no_pending : Pending
no_pending = record { bytes = []; off = 0; owner = none }

unfoldable pub fossil_clear_tx : {W : Type 0} → ℕ → Ctx W → Ctx W
fossil_clear_tx i c = record c {
  line = record (c.line) { tx = txring_init c.line.tx };
  shared =
      if is_owner c.shared.pending.owner i
      then record (c.shared) { pending = no_pending }
      else c.shared;
}

-- The loop that empties the TX ring into the pending buffer, doubling 0xFF; the fuel is the count.
-- The number is `sent`.
unfoldable pub drain_byte :
    Option ℕ × RingBuf → (RingBuf → List ℕ × ℕ × RingBuf) → List ℕ × ℕ × RingBuf
drain_byte (none, t) k = ([], 0, t)
drain_byte (some b, t) k = let (out, sent, t') = k t in (escape_byte b ++ out, sent + 1, t')

unfoldable pub drain : ℕ → RingBuf → List ℕ × ℕ × RingBuf
unfolding drain_byte
drain zero t = ([], 0, t)
drain (suc f) t = drain_byte (txring_get t) (drain f)

module _ {W : Type 0} (net : Mtcp W) where
  -- Bytes left over from a partial send come first. The result says whether they are all sent.
  unfoldable pub resume_pending : ℕ → ℕ → Shared W → Bool × Shared W
  resume_pending i s sh =
      if is_owner sh.pending.owner i && ltb sh.pending.off (length sh.pending.bytes)
      then (let (rc, w') = net.send s (drop sh.pending.off sh.pending.bytes) sh.world in
          let off' = (sh.pending.off + pos_part rc % 65536) % 65536 in
          if ltb off' (length sh.pending.bytes)
          then (false, record sh { world = w'; pending = record (sh.pending) { off = off' } })
          else (true, record sh { world = w'; pending = no_pending }))
      else (true, sh)

  -- The fresh batch; what is not taken stays pending.
  unfoldable pub send_batch : ℕ → ℕ → List ℕ → Shared W → Shared W
  send_batch i s [] sh = sh
  send_batch i s (b ∷ out) sh =
      let (rc, w') = net.send s (b ∷ out) sh.world in
      let off' = pos_part rc % 65536 in
      if leb (length (b ∷ out)) off'
      then record sh { world = w'; pending = no_pending }
      else record sh {
        world = w';
        pending = record { bytes = b ∷ out; off = off'; owner = some i };
      }

  unfoldable pub flush_open : ℕ → ℕ → Ctx W → ℕ × Ctx W
  flush_open i s c =
      let (clear, sh) = resume_pending i s c.shared in
      if clear
      then (let (out, sent, t) = drain c.line.tx.count c.line.tx in
          (sent, record { line = record (c.line) { tx = t }; shared = send_batch i s out sh }))
      else (0, record c { shared = sh })

  unfoldable pub fossil_flush_tx : ℕ → Ctx W → ℕ × Ctx W
  fossil_flush_tx i c =
      if c.line.at.ringing || c.line.at.connect_pending then (0, c) else elim (c.line.port.sock) [
        | none ↦ (0, c)
        | some s ↦ if net.is_closed s c.shared.world then (0, c) else flush_open i s c
      ]
