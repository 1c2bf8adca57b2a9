-- ===== src/Fossil/Tests.antt =====
-- FOSSIL calls, run by hand.
use vmodem.Prelude.{
  ◌≤◌, ◌≡◌, refl, arith, true, false, some, [], ◌∷◌, ◌++◌, inr, replicate, take, drop, codes,
}
use vmodem.Mtcp.Sink.{World, taking-SendLaws, slow, sink}
use vmodem.Ring.{ring_bits, tx_ring_bits, zeroed}
use vmodem.Ring.Inv.{IsValid, zeroed-IsValid}
use vmodem.Ring.Refine.{contents}
use vmodem.Port.{Ctx, with_port}
use vmodem.Port.Sample.{fresh_at, call_with, holding}
use vmodem.Telnet.Stream.{escape_all}
use vmodem.Tx.{no_pending, is_owner}
use vmodem.Tx.Order.{promised}
use vmodem.Tx.Sending.{Sending}
use vmodem.Fossil.{block_write, block_read, poll_data, poll_for_data, peek, guarded}
use vmodem.Fossil.Init.{init_driver}
use vmodem.Fossil.Dispatch.{Regs, Clock, int14, int14_func, int14_wide}
use vmodem.Fossil.Blocks.{block_write_lem}
use vmodem.Fossil.Eager.{block_write-all}
use vmodem.Fossil.Reads.{block_read_lem}
use vmodem.Fossil.Calls.{int14-IsSafe}
use vmodem.At.Input.Bounds.{IsSafe}
use vmodem.Fossil.Fresh.{init_driver_lem}

-- A call with 'H', 'i' in the RX ring.
abbrev greeted : Ctx World
greeted =
    with_port (λ p. record p { rx = holding (72 ∷ 105 ∷ replicate 4094 0) 2 })
      (call_with fresh_at (zeroed tx_ring_bits) no_pending)

greeted-rx-IsValid : IsValid ring_bits greeted.line.port.rx
greeted-rx-IsValid = record {
  storage = refl;
  small = omega arith;
  head_in = omega arith;
  count_in = omega arith;
  tail_at = refl;
}

greeted-Sending : Sending 0 7 greeted
greeted-Sending = record {
  on_socket = refl;
  tx_valid = zeroed-IsValid tx_ring_bits (omega arith) (omega arith);
  fits = omega arith;
  ours = inr refl;
}

abbrev clock : Clock
clock = record { now = 1000; times = 1001 ∷ 1002 ∷ []; ident = 0 }

-- AH=07h: the timer's parameters.
tick_call :
    int14 sink (λ c. c) clock (record { ax = 0x0700; bx = 0; cx = 0; dx = 0; buffer = [] }) greeted
    ≡ some (record { ax = 0x121c; bx = 0; cx = 0; dx = 55; buffer = [] }, greeted)
unfolding int14 int14_func int14_wide
tick_call = refl

block_write_lem_example :
    let (n, c') = block_write slow 0 (codes "AB") greeted in
    Sending 0 7 c'
    × (n ≤ 2)
    × (promised (λ s w. w.bytes) 7 c'
        ≡ promised (λ s w. w.bytes) 7 greeted ++ escape_all (take n (codes "AB")))
block_write_lem_example =
    block_write_lem slow (λ s w. w.bytes) (taking-SendLaws (λ n. 2)) 0 7 (codes "AB") greeted
      greeted-Sending

-- With the guard of a running poll, the state is read as it is.
abbrev busy_greeted : Ctx World
busy_greeted = record greeted { shared = record (greeted.shared) { busy = true } }

block_read_lem_example :
    let (out, c') = block_read sink 0 (λ c. c) 0 [] 1 greeted in
    (out ≡ take 1 (contents ring_bits (poll_for_data sink 0 (λ c. c) 0 [] greeted).line.port.rx))
    × (contents ring_bits c'.line.port.rx
        ≡ drop 1 (contents ring_bits (poll_for_data sink 0 (λ c. c) 0 [] greeted).line.port.rx))
    × IsValid ring_bits c'.line.port.rx
unfolding poll_for_data poll_data guarded
block_read_lem_example = block_read_lem sink 0 (λ c. c) 0 [] 1 greeted greeted-rx-IsValid

init_driver_lem_example :
    let c' = init_driver sink 0 1000 greeted in
    (contents ring_bits c'.line.port.rx ≡ [])
    × (contents tx_ring_bits c'.line.tx ≡ [])
    × (is_owner c'.shared.pending.owner 0 ≡ false)
    × (c'.line.fossil_init ≡ true)
    × (c'.line.purge_seen ≡ 0)
    × (c'.line.port.pending_close ≡ 0)
    × (c'.line.port.sock ≡ some 7)
    × (c'.line.at.ringing ≡ false)
    × (c'.line.at.connect_pending ≡ false)
init_driver_lem_example = init_driver_lem sink 0 1000 greeted

greeted-IsSafe : IsSafe greeted
greeted-IsSafe = record {
  room = omega arith;
  storage = refl;
  rx_valid = greeted-rx-IsValid;
  tx_valid = greeted-Sending.tx_valid;
  fits = omega arith;
}

-- AH=0Ch looks at the first byte.
abbrev peek_regs : Regs
peek_regs = record { ax = 0x0c00; bx = 0; cx = 0; dx = 0; buffer = [] }

abbrev peeked_regs : Regs
peeked_regs = record { ax = 72; bx = 0; cx = 0; dx = 0; buffer = [] }

peeked : int14 sink (λ c. c) clock peek_regs greeted ≡ some (peeked_regs, greeted)
unfolding int14 int14_func peek
peeked = refl

int14-IsSafe_example : IsSafe greeted
int14-IsSafe_example =
    int14-IsSafe sink (λ c. c) (λ c v. v) clock peek_regs peeked_regs greeted greeted greeted-IsSafe
      peeked

block_write-all_example :
    let (n, c') = block_write sink 0 (codes "AB") greeted in
    (n ≡ 2)
    × (promised (λ s w. w.bytes) 7 c'
        ≡ promised (λ s w. w.bytes) 7 greeted ++ escape_all (codes "AB"))
block_write-all_example =
    block_write-all sink (λ s w. w.bytes) (taking-SendLaws (λ n. n)) (λ s bs w. omega arith) 0 7
      (λ w. refl) (codes "AB") greeted refl refl refl greeted-Sending
