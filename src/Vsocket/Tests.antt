-- ===== src/Vsocket/Tests.antt =====
-- The socket library by hand.
use vmodem.Prelude.{
  ℕ, ◌+◌, ◌*◌, ◌^◌, ◌≡◌, refl, false, true, none, some, [], ◌∷◌, arith, codes, subst, sym,
}
use vmodem.Mtcp.Sink.{World, quiet_world}
use vmodem.System.{System}
use vmodem.Vsocket.Address.{inet_addr}
use vmodem.Vsocket.Address.Dotted.{dotted, inet_addr-dotted}
use vmodem.Vsocket.{Client, fd_to_handle, connect, send}
use vmodem.Vsocket.Sending.{Sent, send-Sent}
use vmodem.Vsocket.Midnight.{connect-midnight}
use vmodem.Vsocket.Bytes.{ntohs}
use vmodem.Vsocket.Resident.{
  up, up-IsUp, api, resident-ApiLaws, late_api, with_socket, address, Waits, asked-Waits,
  connect_zero, late_api-Stalls, late_tick,
}

loopback : inet_addr (codes "127.0.0.1") ≡ 0x100_007f
unfolding inet_addr
loopback = refl

inet_addr-dotted_example :
    inet_addr (dotted 4294967297 0 0 1) ≡ 1 + 0 * 2 ^ 8 + 0 * 2 ^ 16 + 1 * 2 ^ 24
inet_addr-dotted_example = inet_addr-dotted 4294967297 0 0 1

-- A program with one socket, over the resident program in the state `s`.
abbrev client : System World → Client (System World)
client s = record {
  mux = s;
  allocated = true ∷ false ∷ false ∷ false ∷ [];
  errno = 0;
  h_errno = 0;
  connect_timeout = 30;
}

client_open : (s : System World) → fd_to_handle 128 (client s) ≡ some 0
unfolding fd_to_handle
client_open s = refl

-- Two bytes a call at most.
abbrev at_most_two : ℕ → ℕ
at_most_two n = 2

abbrev standing : System World
standing = up at_most_two 4 (λ s. 0) quiet_world 0

send-Sent_example :
    Sent
      (λ s. s.shared.world.bytes)
      []
      (1 ∷ 2 ∷ 3 ∷ 4 ∷ [])
      0
      (send (api at_most_two 4 (λ s. 0)) 20000 128 (1 ∷ 2 ∷ 3 ∷ 4 ∷ []) (client standing))
send-Sent_example =
    send-Sent (api at_most_two 4 (λ s. 0)) 0 (λ s. s.shared.world.bytes)
      (resident-ApiLaws at_most_two 4 (λ s. 0)) 20000 128 (1 ∷ 2 ∷ 3 ∷ 4 ∷ []) (client standing)
      (up-IsUp at_most_two 4 (λ s. 0) quiet_world 0) (client_open standing) (omega arith)

port_23 : ntohs 5888 ≡ 23
unfolding ntohs
port_23 = refl

connect_zero_23 : (late_api.connect 0 address (ntohs 5888) with_socket).0 ≡ 0
connect_zero_23 =
    subst (λ p. (late_api.connect 0 address p with_socket).0 ≡ 0) (sym port_23) connect_zero

asked_23 : Waits (late_api.connect 0 address (ntohs 5888) with_socket).1
asked_23 = subst (λ p. Waits (late_api.connect 0 address p with_socket).1) (sym port_23) asked-Waits

connect-midnight_example : connect late_api 1000 128 2 5888 address (client with_socket) ≡ none
connect-midnight_example =
    connect-midnight late_api 0 late_api-Stalls 1000 128 5888 address (client with_socket)
      (client_open with_socket) connect_zero_23 asked_23 (λ s. omega (arith, late_tick s))
      (omega (arith, late_tick (late_api.connect 0 address (ntohs 5888) with_socket).1))
      (omega (arith, late_tick (late_api.connect 0 address (ntohs 5888) with_socket).1))
