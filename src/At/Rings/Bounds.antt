-- ===== src/At/Rings/Bounds.antt =====
-- A check for rings keeps the bounds of `IsSafe`.
use vmodem.Prelude.{ℕ, arith, false, codes}
use vmodem.Mtcp.{Mtcp}
use vmodem.Ring.{ring_init}
use vmodem.Ring.Inv.{reset-IsValid}
use vmodem.Port.{Ctx, with_at, with_world}
use vmodem.Net.{close_call, telnet_send_text, sock_close_fast}
use vmodem.At.{at_check_ring, deliver_connect, ring_timeout, ring_again, at_send_connect}
use vmodem.At.Command.Frame.{at_respond-IsValid, at_no_carrier-IsValid}
use vmodem.At.Input.Bounds.{IsSafe}

module _ {W : Type 0} (net : Mtcp W) where
  deliver-IsSafe : (i now : ℕ) (c : Ctx W) → IsSafe c → IsSafe (deliver_connect net i now c)
  unfolding deliver_connect telnet_send_text
  deliver-IsSafe i now c v = grind (arith, v.rx_valid, at_respond-IsValid)

  pub close_call-IsSafe : (c : Ctx W) → IsSafe c → IsSafe (close_call net c)
  unfolding close_call sock_close_fast
  close_call-IsSafe c v = ground arith

  timeout-IsSafe : (c : Ctx W) → IsSafe c → IsSafe (ring_timeout net c)
  unfolding ring_timeout telnet_send_text ring_init
  timeout-IsSafe c v =
      let c1 = with_world net.drive_packets (
        telnet_send_text net (codes "\r\nThe host didn't answer :(\r\n")
          (with_at (λ a. record a { ringing = false; rings_sent = 0 }) c)) in
      let before : IsSafe c1 = ground arith in
      let w = close_call-IsSafe c1 before in
      grind (arith, w, reset-IsValid w.rx_valid, at_no_carrier-IsValid)

  again-IsSafe : (now : ℕ) (c : Ctx W) → IsSafe c → IsSafe (ring_again net now c)
  unfolding ring_again telnet_send_text
  again-IsSafe now c v = grind (arith, v.rx_valid, at_respond-IsValid)

  pub check_ring-IsSafe : (i now : ℕ) (c : Ctx W) → IsSafe c → IsSafe (at_check_ring net i now c)
  unfolding at_check_ring at_send_connect
  check_ring-IsSafe i now c v =
      ground (arith, deliver-IsSafe i now c v, timeout-IsSafe c v, again-IsSafe now c v)
