-- ===== src/Poll/Tests.antt =====
-- A port served by hand.
use vmodem.Prelude.{ℕ, ◌≡◌, refl, arith, true, none, some, List, [], ◌∷◌, ◌++◌}
use vmodem.Mtcp.Sink.{World, sink}
use vmodem.Ring.{ring_bits, tx_ring_bits, zeroed}
use vmodem.Ring.Inv.{zeroed-IsValid}
use vmodem.Ring.Refine.{contents}
use vmodem.Port.{Ctx, with_port}
use vmodem.Port.Sample.{fresh_at, call_with}
use vmodem.Tx.{no_pending}
use vmodem.Telnet.Stream.{filter_all}
use vmodem.At.Input.Bounds.{IsSafe}
use vmodem.Poll.{take_bytes, service_port}
use vmodem.Poll.Receive.{IsReceiving, take_bytes-filtered}
use vmodem.Poll.Close.{Ended, service_port-Ended}

abbrev in_call : Ctx World
in_call = call_with fresh_at (zeroed tx_ring_bits) no_pending

in_call-IsSafe : IsSafe in_call
in_call-IsSafe = record {
  room = omega arith;
  storage = refl;
  rx_valid = zeroed-IsValid ring_bits (omega arith) (omega arith);
  tx_valid = zeroed-IsValid tx_ring_bits (omega arith) (omega arith);
  fits = omega arith;
}

-- 'A', IAC IAC
abbrev incoming : List ℕ
incoming = 65 ∷ 255 ∷ 255 ∷ []

in_call-IsReceiving : IsReceiving 3 in_call
in_call-IsReceiving = record {
  not_ringing = refl;
  connected = refl;
  not_pending = refl;
  rx_valid = in_call-IsSafe.rx_valid;
  room = omega arith;
}

take_bytes-filtered_example :
    let (out, t, w) =
      filter_all sink (some 7) in_call.line.port.iac incoming in_call.shared.world in
    let c' = take_bytes sink incoming in_call in
    (contents ring_bits c'.line.port.rx ≡ contents ring_bits in_call.line.port.rx ++ out)
    × (c'.line.port.iac ≡ t)
    × (c'.shared.world ≡ w)
    × IsReceiving 0 c'
take_bytes-filtered_example = take_bytes-filtered sink incoming in_call in_call-IsReceiving

abbrev closing : Ctx World
closing = with_port (λ p. record p { pending_close = 1 }) in_call

service_port-Ended_example : Ended sink 7 none none (service_port sink 0 true 4 100 closing)
service_port-Ended_example =
    service_port-Ended sink 0 4 100 7 closing refl refl refl (omega arith) refl
