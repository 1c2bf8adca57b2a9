-- ===== src/Cycle/Sample.antt =====
-- The resident program of System/Sample is well formed.
use vmodem.Prelude.{ℕ, refl, arith, Bool, [], ◌∷◌, leb}
use vmodem.Mtcp.{Mtcp}
use vmodem.Mtcp.Outgoing.{Outgoing}
use vmodem.Mtcp.Sink.{World, sink}
use vmodem.Port.{Shared}
use vmodem.Ring.{ring_bits, tx_ring_bits}
use vmodem.Ring.Inv.{zeroed-IsValid}
use vmodem.System.Sample.{prompt, in_call, waiting, resident_system}
use vmodem.Cycle.Safe.{LineSafe, SysSafe}
use vmodem.Cycle.Queue.{CloseLaws}

in_call-LineSafe : LineSafe in_call.line
in_call-LineSafe = record {
  room = omega arith;
  storage = refl;
  rx_valid = zeroed-IsValid ring_bits (omega arith) (omega arith);
  tx_valid = zeroed-IsValid tx_ring_bits (omega arith) (omega arith);
}

waiting-LineSafe : LineSafe waiting
waiting-LineSafe = record {
  room = omega arith;
  storage = refl;
  rx_valid = in_call-LineSafe.rx_valid;
  tx_valid = in_call-LineSafe.tx_valid;
}

pub resident-SysSafe : SysSafe resident_system
resident-SysSafe = record {
  lines_safe = (in_call-LineSafe, (in_call-LineSafe, (waiting-LineSafe, (waiting-LineSafe, tt))));
  pending_fits = omega arith;
  slot_count = refl;
  slots_valid = ((refl, refl), (tt, ((refl, refl), ((refl, refl), tt))));
  port_low = omega arith;
  port_high = omega arith;
}

-- A network that closes the sockets up to 6 at once, keeps the others waiting, and notes in `bytes`
-- which sockets were given back.
abbrev pub below_7 : World → ℕ → Bool
below_7 w n = leb n 6

abbrev pub closing_some : Outgoing World
closing_some = record prompt { is_close_done = λ s w. (leb s 6, w) }

abbrev pub noting : Mtcp World
noting = record sink { free_socket = λ s w. record { sends = w.sends; bytes = s ∷ w.bytes } }

pub closing_some-CloseLaws : CloseLaws closing_some noting below_7 (λ w. w.bytes)
closing_some-CloseLaws = record {
  verdict = λ n w. refl;
  done-ask = λ n w. refl;
  done-free = λ n w. refl;
  freed-ask = λ n w. refl;
  freed-free = λ n w. refl;
}

abbrev pub three_closing : Shared World
three_closing = record (in_call.shared) { closing = 5 ∷ 7 ∷ 6 ∷ [] }
