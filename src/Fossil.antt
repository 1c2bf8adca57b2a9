-- ===== src/Fossil.antt =====
-- The FOSSIL functions of INT 14h: the cases of `int14_real_handler` in src/int14.c that work on a
-- port, and `fossil_status`. A function returns AX and the new state. `now` is the BIOS tick count,
-- `poll` the poll cycle (`poll_on_priv_stack`), in which the stack is driven for all ports.
pub mod Init
pub mod Dispatch
pub mod Status
pub mod Blocks
pub mod Reads
pub mod Carrier
pub mod Fresh
pub mod Safe
pub mod Eager
pub mod Calls
mod Tests
use vmodem.Prelude.{
  ℕ, zero, suc, ◌+◌, ◌-◌, ◌*◌, ◌/◌, ◌%◌, ◌^◌, bit_or, Bool, true, false, not, ◌&&◌, ◌||◌, Option,
  none, some, List, [], ◌∷◌, ◌++◌, ltb, leb, ◌==◌, if◌then◌else◌, length, take, get_or,
}
use vmodem.Mtcp.{Mtcp}
use vmodem.Ring.{RingBuf, ring_init, ring_get, ring_count, txring_put}
use vmodem.Port.{Pending, Ctx, with_port}
use vmodem.Net.{ticks_since, is_conn, is_open}
use vmodem.Tx.{is_owner, fossil_clear_tx, fossil_flush_tx}
use vmodem.At.{at_check_ring}
use vmodem.At.Input.{at_input}

-- Unsent bytes of port `i`.
abbrev pub has_pending : ℕ → Pending → Bool
has_pending i p = is_owner p.owner i && ltb p.off (length p.bytes)

abbrev pub flag : Bool → ℕ → ℕ
flag b v = if b then v else 0

-- The status word: THRE and TSRE, RDA, OVRN, then RI, or DCD with its delta bit.
unfoldable pub status_word : Bool → Bool → Bool → Bool → Bool → Bool → ℕ
status_word thre tsre rda ovrn ri dcd =
    bit_or
      (bit_or (flag ovrn 0x02) (bit_or (flag rda 0x01) (bit_or (flag tsre 0x40) (flag thre 0x20)))
        * 256)
      (bit_or (if ri then 0x40 else flag dcd 0x88) (bit_or 0x02 0x31))

module _ {W : Type 0} where
  -- `p->mode == PORT_CONN && p->sock != NULL`
  abbrev pub has_call : Ctx W → Bool
  has_call c = is_conn c.line.port.mode && is_open c.line.port.sock

  -- `p->dtr_ignore`
  abbrev pub dtr_ignored : ℕ → Ctx W → Bool
  dtr_ignored i c = get_or c.shared.dtr_ignore i false

  -- Whether DCD is up on a port that does not ring; for one that rings `status_word` has RI alone.
  abbrev pub has_carrier : ℕ → Ctx W → Bool
  has_carrier i c =
      not c.line.at.connect_pending && has_call c && (ltb c.line.purge_seen 3 || dtr_ignored i c)

  -- Reading the status clears the overrun flag.
  unfoldable pub fossil_status : ℕ → Ctx W → ℕ × Ctx W
  fossil_status i c =
      let pending = has_pending i c.shared.pending in
      (
        status_word (ltb c.line.tx.count 512 && not pending) (c.line.tx.count == 0 && not pending)
            (ltb 0 (ring_count c.line.port.rx)) (c.line.overrun) (c.line.at.ringing)
            (has_carrier i c),
        record c { line = record (c.line) { overrun = false } },
      )

  unfoldable pub tx_put : ℕ → Ctx W → Bool × Ctx W
  tx_put b c =
      let (done, t) = txring_put c.line.tx b in
      (done, record c { line = record (c.line) { tx = t } })

  -- AH=09h. The call must be up for about ten seconds to be noted.
  unfoldable pub purge_output : ℕ → ℕ → Ctx W → Ctx W
  purge_output i now c =
      let c1 = fossil_clear_tx i c in
      if has_call c1
        && ltb c1.line.purge_seen 3
        && not (dtr_ignored i c1)
        && ltb 182 (ticks_since c1.line.port.conn_tick now)
      then record c1 { line = record (c1.line) { purge_seen = 1 } }
      else c1

  -- AH=0Ah
  unfoldable pub purge_input : Ctx W → Ctx W
  purge_input c = with_port (λ p. record p { rx = ring_init p.rx }) c

  -- AH=0Ch
  unfoldable pub peek : Ctx W → ℕ
  peek c =
      if ltb 0 (ring_count c.line.port.rx)
      then get_or c.line.port.rx.slots c.line.port.rx.head 0
      else 0xffff

  -- AH=0Fh
  unfoldable pub set_flow : ℕ → Ctx W → Ctx W
  set_flow al c = record c { line = record (c.line) { flow_ctrl = al } }

  -- The count of status polls after a purge: an unsigned char.
  unfoldable pub count_purge : ℕ → Ctx W → Ctx W
  count_purge i c =
      if ltb 0 c.line.purge_seen && has_call c && not (dtr_ignored i c)
      then record c { line = record (c.line) { purge_seen = (c.line.purge_seen + 1) % 256 } }
      else c

  -- A poll from INT 14h, unless one is running.
  unfoldable pub guarded : (Ctx W → Ctx W) → Ctx W → Ctx W
  guarded poll c =
      if c.shared.busy
      then c
      else (let c1 = poll (record c { shared = record (c.shared) { busy = true } }) in
          record c1 { shared = record (c1.shared) { busy = false } })

  -- AH=02h
  unfoldable pub receive : (Ctx W → Ctx W) → Ctx W → ℕ × Ctx W
  receive poll c =
      let c1 = guarded poll c in
      let (o, rx) = ring_get c1.line.port.rx in
      (elim o [ none ↦ 0x8000 | some b ↦ b ], with_port (λ p. record p { rx = rx }) c1)

  -- The polls that wait up to two ticks for data; the list is the tick count after each.
  unfoldable pub spin : (Ctx W → Ctx W) → ℕ → List ℕ → Ctx W → Ctx W
  spin poll start [] c = c
  spin poll start (now ∷ times) c =
      let c1 = poll c in
      let rest = spin poll start times c1 in
      if ring_count c.line.port.rx == 0
      then (if leb 2 (ticks_since start now) then c1 else rest)
      else c

-- The loop of the block read, `n` times at most.
unfoldable pub read_byte : Option ℕ × RingBuf → (RingBuf → List ℕ × RingBuf) → List ℕ × RingBuf
read_byte (none, r) k = ([], r)
read_byte (some b, r) k = let (out, r') = k r in (b ∷ out, r')

unfoldable pub read_bytes : ℕ → RingBuf → List ℕ × RingBuf
unfolding read_byte
read_bytes zero r = ([], r)
read_bytes (suc n) r = read_byte (ring_get r) (read_bytes n)

module _ {W : Type 0} (net : Mtcp W) (i : ℕ) where
  -- A poll, and more of them if there is still no data on an open connection.
  unfoldable pub poll_data : (Ctx W → Ctx W) → ℕ → List ℕ → Ctx W → Ctx W
  poll_data poll start times c =
      let c1 = poll c in
      if ring_count c1.line.port.rx == 0 && elim (c1.line.port.sock) [
        | none ↦ false
        | some s ↦ not (net.is_closed s c1.shared.world)
      ]
      then spin poll start times c1
      else c1

  -- What precedes the copy of AH=18h.
  unfoldable pub poll_for_data : (Ctx W → Ctx W) → ℕ → List ℕ → Ctx W → Ctx W
  poll_for_data poll start times c = guarded (poll_data poll start times) c

  -- AH=18h: the bytes written at ES:DI; AX is how many they are.
  unfoldable pub block_read : (Ctx W → Ctx W) → ℕ → List ℕ → ℕ → Ctx W → List ℕ × Ctx W
  block_read poll start times max_chars c =
      let c1 = poll_for_data poll start times c in
      let (out, rx) = read_bytes max_chars c1.line.port.rx in
      (out, with_port (λ p. record p { rx = rx }) c1)

  -- A byte into the TX ring; a full ring is flushed first.
  unfoldable pub put_or_flush : ℕ → Ctx W → Bool × Ctx W
  put_or_flush b c =
      let (done, c1) = tx_put b c in
      if done then (true, c1) else tx_put b (fossil_flush_tx net i c1).1

  -- AH=01h
  unfoldable pub transmit : ℕ → ℕ → Ctx W → ℕ × Ctx W
  transmit now b c =
      let (consumed, c1) =
        at_input net i now b (with_port (λ p. record p { last_tx_tick = now }) c) in
      fossil_status i (
        if not consumed && has_call c1 && not c1.line.at.ringing then (put_or_flush b c1).1 else c1)

  -- AH=0Bh
  unfoldable pub transmit_no_wait : ℕ → ℕ → Ctx W → ℕ × Ctx W
  transmit_no_wait now b c =
      let (consumed, c1) = at_input net i now b c in
      if consumed
      then (1, c1)
      else if has_call c1
      then (let (done, c2) = tx_put b c1 in (flag done 1, c2))
      else (0, c1)

  -- AH=03h
  unfoldable pub request_status : (Ctx W → Ctx W) → ℕ → Ctx W → ℕ × Ctx W
  request_status poll now c =
      fossil_status i (count_purge i (at_check_ring net i now (guarded poll c)))

  -- The loop of the block write: how many bytes are taken.
  unfoldable pub write_bytes : List ℕ → Ctx W → ℕ × Ctx W
  write_bytes [] c = (0, c)
  write_bytes (b ∷ bs) c =
      let (done, c1) = put_or_flush b c in
      let (n, c2) = write_bytes bs c1 in if done then (n + 1, c2) else (0, c1)

  -- AH=19h, of the bytes at ES:DI.
  unfoldable pub block_write : List ℕ → Ctx W → ℕ × Ctx W
  block_write bs c =
      let (n, c1) = if has_call c then write_bytes bs c else (0, c) in
      (n, if ltb 0 n then (fossil_flush_tx net i c1).1 else c1)

-- A word, its low byte first.
abbrev pub le16 : ℕ → List ℕ
le16 v = v % 256 ∷ v / 256 % 256 ∷ []

-- AH=1Bh: the first bytes of `FossilInfo`. `ident` is the far pointer to the driver's name.
unfoldable pub driver_info : {W : Type 0} → ℕ → ℕ → Ctx W → List ℕ
driver_info ident max_bytes c = take max_bytes (
    le16 19
    ++ (5 ∷ 1 ∷ [])
    ++ le16 (ident % 65536)
    ++ le16 (ident / 65536)
    ++ le16 4096
    ++ le16 (4096 - ring_count c.line.port.rx)
    ++ le16 512
    ++ le16 (512 - c.line.tx.count)
    ++ (80 ∷ 25 ∷ 0xe3 ∷ []))
