-- ===== src/At.antt =====
-- The Hayes command interpreter of src/atcmd.c: responses, rings and the answer of a call.
-- `now` is the BIOS tick count at the time of the call; the calls of the debug log are left out.
pub mod Command
pub mod Input
pub mod Rings
pub mod Registers
pub mod Escape
mod Tests
use vmodem.Prelude.{
  ℕ, ◌+◌, ◌%◌, Bool, true, false, not, ◌&&◌, Option, none, some, List, [], ◌∷◌, ltb, leb,
  if◌then◌else◌, replicate, codes,
}
use vmodem.Mtcp.{Mtcp}
use vmodem.Ring.{RingBuf, ring_init, ring_put}
use vmodem.Port.{AtState, Ctx, with_port, with_at, with_world}
use vmodem.Net.{ticks_since, idle_mode, close_call, telnet_send_text}

abbrev pub at_buf_size : ℕ
at_buf_size = 128

abbrev pub ring_interval_ticks : ℕ
ring_interval_ticks = 110

abbrev pub crlf : List ℕ
crlf = 13 ∷ 10 ∷ []

unfoldable pub at_send_str : RingBuf → List ℕ → RingBuf
at_send_str rx [] = rx
at_send_str rx (b ∷ str) = at_send_str (ring_put rx b).1 str

unfoldable pub at_respond : AtState → List ℕ → RingBuf → RingBuf
at_respond a str rx =
    if a.quiet
    then rx
    else if a.verbose
    then at_send_str (at_send_str (at_send_str rx crlf) str) crlf
    else at_send_str (at_send_str rx str) (13 ∷ [])

unfoldable pub at_ok : AtState → RingBuf → RingBuf
at_ok a = at_respond a (if a.verbose then codes "OK" else codes "0")

unfoldable pub at_error : AtState → RingBuf → RingBuf
at_error a = at_respond a (if a.verbose then codes "ERROR" else codes "4")

unfoldable pub at_no_carrier : AtState → RingBuf → RingBuf
at_no_carrier a = at_respond a (if a.verbose then codes "NO CARRIER" else codes "3")

-- A response into the RX ring of the port.
abbrev pub respond : {W : Type 0} → (AtState → RingBuf → RingBuf) → Ctx W → Ctx W
respond f c = with_port (λ p. record p { rx = f c.line.at p.rx }) c

unfoldable pub at_send_connect : ℕ → AtState → AtState
at_send_connect now a = record a {
  ringing = false;
  rings_sent = 0;
  cmd_mode = false;
  connect_pending = true;
  connect_tick = now;
}

unfoldable pub at_send_ring : {W : Type 0} → ℕ → Ctx W → Ctx W
at_send_ring now c =
    with_at (λ a. record a { ringing = true; rings_sent = 1; ring_tick = now })
      (respond (λ a. at_respond a (if a.verbose then codes "RING" else codes "2")) c)

unfoldable pub at_send_no_carrier : {W : Type 0} → Ctx W → Ctx W
at_send_no_carrier c = respond at_no_carrier (
    with_at
      (λ a. record a {
        cmd_mode = true;
        ringing = false;
        rings_sent = 0;
        connect_pending = false;
        pos = 0;
      })
      c)

unfoldable pub at_set_ringing_silent : ℕ → AtState → AtState
at_set_ringing_silent now a = record a { ringing = true; rings_sent = 0; ring_tick = now }

unfoldable pub at_set_cmd_mode : AtState → AtState
at_set_cmd_mode a = record a { cmd_mode = true }

-- `memset` to zero, then echo and verbose on.
unfoldable pub at_init : AtState → AtState
at_init a = record {
  buf = replicate at_buf_size 0;
  pos = 0;
  echo = true;
  quiet = false;
  verbose = true;
  s0 = 0;
  ringing = false;
  rings_sent = 0;
  cmd_mode = false;
  connect_pending = false;
  ring_tick = 0;
  connect_tick = 0;
  plus_count = 0;
  last_tx_tick = 0;
}

module _ {W : Type 0} (net : Mtcp W) where
  -- The CONNECT that was put off, two seconds later.
  unfoldable pub deliver_connect : ℕ → ℕ → Ctx W → Ctx W
  deliver_connect i now c =
      if leb 36 (ticks_since c.line.at.connect_tick now)
      then respond (λ a. at_respond a (if a.verbose then codes "CONNECT 57600" else codes "1"))
          (with_world (net.set_mcr i 0x0b) (
            telnet_send_text net (codes "Connected!\r\n")
              (with_at (λ a. record a { connect_pending = false }) c)))
      else c

  -- Ten rings and no answer.
  unfoldable pub ring_timeout : Ctx W → Ctx W
  ring_timeout c =
      with_port (λ p. record p { mode = idle_mode p })
        (respond at_no_carrier (
          with_port (λ p. record p { rx = ring_init p.rx })
            (close_call net (
              with_world net.drive_packets (
                telnet_send_text net (codes "\r\nThe host didn't answer :(\r\n")
                  (with_at (λ a. record a { ringing = false; rings_sent = 0 }) c))))))

  unfoldable pub ring_again : ℕ → Ctx W → Ctx W
  ring_again now c = telnet_send_text net (codes "RING...\r\n") (
      with_at (λ a. record a { rings_sent = (a.rings_sent + 1) % 256; ring_tick = now })
        (respond (λ a. at_respond a (if a.verbose then codes "RING" else codes "2")) c))

  unfoldable pub at_check_ring : ℕ → ℕ → Ctx W → Ctx W
  at_check_ring i now c =
      if c.line.at.connect_pending
      then deliver_connect i now c
      else if not c.line.at.ringing
      then c
      else if ltb (ticks_since c.line.at.ring_tick now) ring_interval_ticks
      then c
      else if ltb 0 c.line.at.s0 && leb c.line.at.s0 c.line.at.rings_sent && c.line.fossil_init
      then with_at (at_send_connect now) c
      else if leb 10 c.line.at.rings_sent
      then ring_timeout c
      else ring_again now c
