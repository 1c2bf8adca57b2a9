-- ===== src/Ring.antt =====
-- The circular byte buffers: src/ringbuf.c, and the TX ring helpers of src/int14.c.
--
-- Both are the same structure at another size, so the operations take the exponent `k` of the
-- size: `RING_SIZE` is 2 ^ 12, `TX_RING_SIZE` is 2 ^ 9. An operation that updates `*r` returns the
-- new buffer beside its result; the result -1 is `false` or `none`.
pub mod Inv
pub mod Refine
mod Tests
use vmodem.Prelude.{
  ℕ, ◌+◌, ◌-◌, ◌%◌, ◌^◌, bit_and, Bool, true, false, Option, none, some, List, leb, ◌==◌,
  if◌then◌else◌, set, get_or, replicate,
}

-- `RingBuf` and `TxRing`.
pub record RingBuf : Type 0 where
  pub slots : List ℕ
  pub head : ℕ
  pub tail : ℕ
  pub count : ℕ

abbrev pub ring_bits : ℕ
ring_bits = 12

abbrev pub tx_ring_bits : ℕ
tx_ring_bits = 9

-- `(i + 1) & (SIZE - 1)`, stored in an unsigned short.
abbrev pub next_slot : ℕ → ℕ → ℕ
next_slot k i = bit_and ((i + 1) % 65536) (2 ^ k - 1)

pub reset : RingBuf → RingBuf
reset r = record r { head = 0; tail = 0; count = 0 }

pub put : ℕ → RingBuf → ℕ → Bool × RingBuf
put k r b = if leb (2 ^ k) r.count then (false, r) else (
  true,
  record r {
    slots = set r.slots r.tail b;
    tail = next_slot k r.tail;
    count = (r.count + 1) % 65536;
  },
)

-- `r->count--` runs only at a count that is not 0.
pub get : ℕ → RingBuf → Option ℕ × RingBuf
get k r = if r.count == 0 then (none, r) else (
  some (get_or r.slots r.head 0),
  record r { head = next_slot k r.head; count = r.count - 1 },
)

-- A buffer as the loader leaves it, all zero.
abbrev pub zeroed : ℕ → RingBuf
zeroed k = record { slots = replicate (2 ^ k) 0; head = 0; tail = 0; count = 0 }

unfoldable pub ring_init : RingBuf → RingBuf
unfolding reset
ring_init r = reset r

unfoldable pub ring_put : RingBuf → ℕ → Bool × RingBuf
unfolding put
ring_put r b = put ring_bits r b

unfoldable pub ring_get : RingBuf → Option ℕ × RingBuf
unfolding get
ring_get r = get ring_bits r

abbrev pub ring_count : RingBuf → ℕ
ring_count r = r.count

unfoldable pub txring_init : RingBuf → RingBuf
unfolding reset
txring_init r = reset r

unfoldable pub txring_put : RingBuf → ℕ → Bool × RingBuf
unfolding put
txring_put r b = put tx_ring_bits r b

unfoldable pub txring_get : RingBuf → Option ℕ × RingBuf
unfolding get
txring_get r = get tx_ring_bits r
