-- ===== src/At/Tests.antt =====
-- Command lines, data and rings, run by hand.
use vmodem.Prelude.{◌≡◌, refl, arith, true, false, none, some, [], ◌∷◌, ◌++◌, inl, replicate, codes}
use vmodem.Mtcp.Sink.{World, sink}
use vmodem.Ring.{RingBuf, ring_bits, tx_ring_bits, zeroed}
use vmodem.Ring.Inv.{zeroed-IsValid}
use vmodem.Port.{Ctx, with_port}
use vmodem.Port.Sample.{fresh_at, ringing_at, call_with}
use vmodem.Tx.{no_pending}
use vmodem.Net.{idle_mode}
use vmodem.At.{at_respond, at_ok, respond}
use vmodem.At.Command.{at_commands, at_line, register_text}
use vmodem.At.Command.Fuel.{Runs, at_commands-Runs}
use vmodem.At.Input.{at_input, is_online}
use vmodem.At.Input.Bounds.{IsSafe, at_input-IsSafe}
use vmodem.At.Escape.{input_all, input_all-escape, input_all-plus_lost}
use vmodem.At.Rings.{check_all, check_all-gives_up}
use vmodem.At.Registers.{idle_roundtrip}

abbrev empty_tx : RingBuf
empty_tx = zeroed tx_ring_bits

abbrev in_call : Ctx World
in_call = call_with fresh_at empty_tx no_pending

-- The same call, in command mode, with "ATH" typed.
abbrev ath_typed : Ctx World
ath_typed =
    call_with
      (record fresh_at { buf = b'A' ∷ b'T' ∷ b'H' ∷ replicate 125 0; pos = 3; cmd_mode = true })
      empty_tx no_pending

ath_typed-IsSafe : IsSafe ath_typed
ath_typed-IsSafe = record {
  room = omega arith;
  storage = refl;
  rx_valid = zeroed-IsValid ring_bits (omega arith) (omega arith);
  tx_valid = zeroed-IsValid tx_ring_bits (omega arith) (omega arith);
  fits = omega arith;
}

idle_roundtrip_example :
    at_line sink 0 5
      (codes "ATS30?")
      (at_line sink 0 5 (codes "ATS30=" ++ register_text 120) in_call)
    ≡ respond
        (λ a. at_respond a (register_text 120))
        (respond at_ok (with_port (λ p. record p { idle_timeout = 120 }) in_call))
idle_roundtrip_example = idle_roundtrip sink 0 5 120 in_call (omega arith)

at_commands-Runs_example :
    Runs sink 0 5 (codes "E0 V1") in_call (at_commands sink 0 5 5 (codes "E0 V1") in_call)
at_commands-Runs_example = at_commands-Runs sink 0 5 5 (codes "E0 V1") in_call (omega arith)

at_input-IsSafe_example : IsSafe (at_input sink 0 5 13 ath_typed).1
at_input-IsSafe_example = at_input-IsSafe sink 0 5 13 ath_typed ath_typed-IsSafe

input_all-escape_example :
    let (early, c0) = input_all sink 0 ((5, b'+') ∷ []) in_call in
    let (out, c') = input_all sink 0 ((20, b'+') ∷ (21, b'+') ∷ (40, b'+') ∷ []) in_call in
    (early ≡ b'+' ∷ [])
    × (is_online c0 ≡ true)
    × (c0.line.at.plus_count ≡ 0)
    × (is_online (input_all sink 0 ((20, b'+') ∷ []) in_call).1 ≡ true)
    × (is_online (input_all sink 0 ((20, b'+') ∷ (21, b'+') ∷ []) in_call).1 ≡ true)
    × (out ≡ [])
    × (c'.line.at.cmd_mode ≡ true)
    × (c'.line.at.plus_count ≡ 0)
    × (c'.line.port.mode ≡ in_call.line.port.mode)
    × (c'.line.port.sock ≡ some 7)
input_all-escape_example =
    input_all-escape sink 0 5 20 21 40 in_call refl refl (omega arith) (omega arith)

input_all-plus_lost_example :
    let (out, c') = input_all sink 0 ((20, b'+') ∷ (21, 49) ∷ []) in_call in
    (out ≡ 49 ∷ []) × (is_online c' ≡ true) × (c'.line.at.plus_count ≡ 0)
input_all-plus_lost_example =
    input_all-plus_lost sink 0 20 21 49 in_call refl refl (omega arith) (omega arith)

abbrev ringing_call : Ctx World
ringing_call = call_with (record ringing_at { rings_sent = 9 }) empty_tx no_pending

check_all-gives_up_example :
    let c' = check_all sink 0 (200 ∷ 400 ∷ []) ringing_call in
    (c'.line.at.ringing ≡ false)
    × (c'.line.at.connect_pending ≡ false)
    × (c'.line.port.sock ≡ none)
    × (c'.line.port.mode ≡ idle_mode c'.line.port)
check_all-gives_up_example =
    check_all-gives_up sink 0 (200 ∷ 400 ∷ []) ringing_call
      (record { rings = refl; no_connect = refl; in_count = omega arith; no_answer = inl refl })
      (omega arith, (omega arith, tt)) (omega arith)

abbrev answering_call : Ctx World
answering_call = call_with (record ringing_at { s0 = 1; rings_sent = 1 }) empty_tx no_pending
