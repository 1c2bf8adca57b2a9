-- ===== src/At/Input.antt =====
-- One byte from the application: `at_input` of src/atcmd.c.
pub mod Bounds
use vmodem.Prelude.{
  ℕ, ◌+◌, ◌-◌, ◌%◌, Bool, true, false, not, ◌&&◌, ◌||◌, List, [], ltb, leb, ◌==◌, if◌then◌else◌,
  set, codes,
}
use vmodem.Mtcp.{Mtcp}
use vmodem.Ring.{ring_put}
use vmodem.Port.{AtState, Ctx, with_port, with_at}
use vmodem.Net.{ticks_since, is_conn, is_open}
use vmodem.At.{at_respond, respond, at_buf_size}
use vmodem.At.Command.{at_execute}

-- The call is up and the line is not in command mode: bytes are data.
abbrev pub is_online : {W : Type 0} → Ctx W → Bool
is_online c =
    is_conn c.line.port.mode
    && is_open c.line.port.sock
    && not c.line.at.ringing
    && not c.line.at.cmd_mode

module _ {W : Type 0} where
  -- A '+' that is counted: the third enters command mode. It is consumed.
  unfoldable pub count_plus : ℕ → Ctx W → Ctx W
  count_plus n c =
      if leb 3 n
      then respond (λ a. at_respond a (if a.verbose then codes "OK" else codes "0"))
          (with_at (λ a. record a { cmd_mode = true; plus_count = 0 }) c)
      else with_at (λ a. record a { plus_count = n }) c

  -- The result is `true` if the byte is consumed, `false` if it is data for the network.
  unfoldable pub data_byte : ℕ → ℕ → Ctx W → Bool × Ctx W
  data_byte now b c =
      if b == b'+'
      then (if c.line.at.plus_count == 0
          then (if leb 9 (ticks_since c.line.at.last_tx_tick now)
              then (true, count_plus 1 c)
              else (false, with_at (λ a. record a { last_tx_tick = now }) c))
          else (true, count_plus ((c.line.at.plus_count + 1) % 256) c))
      else (false, with_at (λ a. record a { plus_count = 0; last_tx_tick = now }) c)

  unfoldable pub echo_byte : ℕ → Ctx W → Ctx W
  echo_byte b c =
      if c.line.at.echo then with_port (λ p. record p { rx = (ring_put p.rx b).1 }) c else c

  -- CR is not among these: `pos` is an unsigned char.
  unfoldable pub edit_byte : ℕ → Ctx W → Ctx W
  edit_byte b c =
      if b == 8 || b == 0x7f
      then (if ltb 0 c.line.at.pos then with_at (λ a. record a { pos = a.pos - 1 }) c else c)
      else if b == 10
      then c
      else if ltb c.line.at.pos (at_buf_size - 1)
      then with_at (λ a. record a { buf = set a.buf a.pos b; pos = (a.pos + 1) % 256 }) c
      else c

module _ {W : Type 0} (net : Mtcp W) (i now : ℕ) where
  -- CR: the line is ended by a NUL and executed, if there is one.
  unfoldable pub enter : Ctx W → Ctx W
  enter c =
      let c1 = with_at (λ a. record a { buf = set a.buf a.pos 0 }) c in
      let c2 = if ltb 0 c1.line.at.pos then at_execute net i now c1 else c1 in
      with_at (λ a. record a { pos = 0 }) c2

  unfoldable pub command_byte : ℕ → Ctx W → Ctx W
  command_byte b c = let c1 = echo_byte b c in if b == 13 then enter c1 else edit_byte b c1

  unfoldable pub at_input : ℕ → Ctx W → Bool × Ctx W
  at_input b c = if is_online c then data_byte now b c else (true, command_byte b c)
