-- ===== src/Poll/Safe.antt =====
-- The service of a port keeps the bounds of `IsSafe`.
use vmodem.Prelude.{ℕ, zero, suc, arith, false, Bool, Option, none, some, List, [], ◌∷◌, codes}
use vmodem.Mtcp.{Mtcp}
use vmodem.Ring.{ring_init, ring_put}
use vmodem.Ring.Inv.{reset-IsValid, put-IsValid}
use vmodem.Telnet.{telnet_filter}
use vmodem.Port.{Ctx, with_port, with_world}
use vmodem.Net.{telnet_send_text, sock_close_fast}
use vmodem.Tx.{fossil_flush_tx}
use vmodem.At.{at_send_ring, at_send_no_carrier, at_check_ring}
use vmodem.At.Command.Frame.{at_respond-IsValid, at_no_carrier-IsValid}
use vmodem.At.Input.Bounds.{IsSafe}
use vmodem.At.Rings.Bounds.{check_ring-IsSafe, close_call-IsSafe}
use vmodem.Fossil.Safe.{flush-IsSafe, clear-IsSafe}
use vmodem.Poll.{
  take_call, accept_call, reject_call, end_call, close_pending, store, take_pending, take_byte,
  take_bytes, read_socket, keep_alive, watch_call, run_call, lost_call, serve_call, service_port,
}

module _ {W : Type 0} where
  send_ring-IsSafe : (now : ℕ) (c : Ctx W) → IsSafe c → IsSafe (at_send_ring now c)
  unfolding at_send_ring
  send_ring-IsSafe now c v = grind (arith, v.rx_valid, at_respond-IsValid)

  no_carrier-IsSafe : (c : Ctx W) → IsSafe c → IsSafe (at_send_no_carrier c)
  unfolding at_send_no_carrier
  no_carrier-IsSafe c v = grind (arith, v.rx_valid, at_no_carrier-IsValid)

  store-IsSafe : (o : Option ℕ) (c : Ctx W) → IsSafe c → IsSafe (store o c)
  unfolding store ring_put
  store-IsSafe none c v = v
  store-IsSafe (some b) c v = ground (arith, put-IsValid b v.rx_valid)

  lost-IsSafe : (c : Ctx W) → IsSafe c → IsSafe (lost_call c)
  unfolding lost_call
  lost-IsSafe c v = ground arith

module _ {W : Type 0} (net : Mtcp W) where
  take_pending-IsSafe : (c : Ctx W) → IsSafe c → IsSafe (take_pending c)
  unfolding take_pending ring_put
  take_pending-IsSafe c v = ground (arith, put-IsValid c.line.port.iac.iac_pending v.rx_valid)

  take_byte-IsSafe : (b : ℕ) (c : Ctx W) → IsSafe c → IsSafe (take_byte net b c)
  unfolding take_byte
  take_byte-IsSafe b c v =
      let (o, iac, w) = telnet_filter net c.line.port.sock c.line.port.iac b c.shared.world in
      let c1 = with_port (λ p. record p { iac = iac }) (with_world (λ u. w) c) in
      let v1 : IsSafe c1 = ground arith in
      ground (arith, v1, take_pending-IsSafe (store o c1) (store-IsSafe o c1 v1))

  take_bytes-IsSafe : (bs : List ℕ) (c : Ctx W) → IsSafe c → IsSafe (take_bytes net bs c)
  unfolding take_bytes
  take_bytes-IsSafe [] c v = v
  take_bytes-IsSafe (b ∷ bs) c v = take_bytes-IsSafe bs (take_byte net b c) (take_byte-IsSafe b c v)

  read_socket-IsSafe : (f now s : ℕ) (c : Ctx W) → IsSafe c → IsSafe (read_socket net f now s c)
  unfolding read_socket
  read_socket-IsSafe zero now s c v = v
  read_socket-IsSafe (suc f) now s c v =
      let (bs, w) = net.recv s 256 c.shared.world in
      let d = with_port (λ p. record p { last_rx_tick = now }) (with_world (λ u. w) c) in
      let vd : IsSafe d = ground arith in
      let c2 = take_bytes net bs d in
      ground (arith, v, read_socket-IsSafe f now s c2 (take_bytes-IsSafe bs d vd))

  pub take_call-IsSafe : (i now s : ℕ) (c : Ctx W) → IsSafe c → IsSafe (take_call net i now s c)
  unfolding take_call telnet_send_text ring_init
  take_call-IsSafe i now s c v =
      grind (arith, reset-IsValid v.rx_valid, clear-IsSafe, send_ring-IsSafe)

  accept-IsSafe : (i now : ℕ) (c : Ctx W) → IsSafe c → IsSafe (accept_call net i now c)
  unfolding accept_call
  accept-IsSafe i now c v =
      let c1 = with_world (λ u. (net.accept c.shared.world).1) c in
      let v1 : IsSafe c1 = ground arith in
      grind (arith, v, v1, close_call-IsSafe net c1 v1, take_call-IsSafe)

  reject-IsSafe : (c : Ctx W) → IsSafe c → IsSafe (reject_call net c)
  unfolding reject_call sock_close_fast
  reject-IsSafe c v = ground arith

  end_call-IsSafe : (silent : Bool) (c : Ctx W) → IsSafe c → IsSafe (end_call net silent c)
  unfolding end_call ring_init
  end_call-IsSafe silent c v =
      let w = close_call-IsSafe net c v in
      grind (arith, w, reset-IsValid w.rx_valid, no_carrier-IsSafe)

  pending-IsSafe : (c : Ctx W) → IsSafe c → IsSafe (close_pending net c)
  unfolding close_pending telnet_send_text
  pending-IsSafe c v = grind (arith, end_call-IsSafe)

  text-IsSafe : (msg : List ℕ) (c : Ctx W) → IsSafe c → IsSafe (telnet_send_text net msg c)
  unfolding telnet_send_text
  text-IsSafe msg c v = ground arith

  keep_alive-IsSafe : (now : ℕ) (c : Ctx W) → IsSafe c → IsSafe (keep_alive net now c)
  unfolding keep_alive
  keep_alive-IsSafe now c v = ground arith

  watch-IsSafe :
      (safe : Bool) (now s : ℕ) (c : Ctx W) → IsSafe c → IsSafe (watch_call net safe now s c)
  unfolding watch_call
  watch-IsSafe safe now s c v =
      let c1 = keep_alive net now c in
      let v1 = keep_alive-IsSafe now c v in
      let c2 = telnet_send_text net (codes "\r\nClosing idle connection.\r\n") c1 in
      ground
        (arith, v1, end_call-IsSafe false c1 v1, end_call-IsSafe false c2 (text-IsSafe _ c1 v1))

  run-IsSafe :
      (i : ℕ) (safe : Bool) (f now s : ℕ) (c : Ctx W)
      → IsSafe c
      → IsSafe (run_call net i safe f now s c)
  unfolding run_call
  run-IsSafe i safe f now s c v =
      let c1 = (fossil_flush_tx net i c).1 in
      let c2 = read_socket net f now s c1 in
      let v2 = read_socket-IsSafe f now s c1 (flush-IsSafe net i c v) in
      grind (arith, pending-IsSafe c v, v2, watch-IsSafe)

  serve-IsSafe :
      (i : ℕ) (safe : Bool) (f now : ℕ) (c : Ctx W)
      → IsSafe c
      → IsSafe (serve_call net i safe f now c)
  unfolding serve_call
  serve-IsSafe i safe f now c v =
      let c1 = at_check_ring net i now (reject_call net c) in
      let v1 = check_ring-IsSafe net i now (reject_call net c) (reject-IsSafe c v) in
      grind (arith, lost-IsSafe c1 v1, v1, run-IsSafe)

  -- The service of a port in the poll cycle keeps the bounds, whatever the network does and at
  -- whatever time: the line buffer has room for one more byte and the NUL, both rings are valid,
  -- and the pending buffer is within its size.
  pub service_port-IsSafe :
      (i : ℕ) (safe : Bool) (f now : ℕ) (c : Ctx W)
      → IsSafe c
      → IsSafe (service_port net i safe f now c)
  unfolding service_port
  service_port-IsSafe i safe f now c v =
      ground (arith, v, accept-IsSafe i now c v, serve-IsSafe i safe f now c v)
