-- ===== src/Fossil/Dispatch.antt =====
-- `int14_real_handler` of src/int14.c: the choice of the function, and the registers.
use vmodem.Prelude.{
  ℕ, ◌+◌, ◌*◌, ◌/◌, ◌%◌, bit_and, Bool, ◌||◌, Option, none, some, List, ◌==◌, if◌then◌else◌, length,
  take,
}
use vmodem.Mtcp.{Mtcp}
use vmodem.Port.{Ctx, with_world}
use vmodem.Tx.{fossil_flush_tx}
use vmodem.Fossil.{
  fossil_status, purge_output, purge_input, peek, set_flow, receive, block_read, transmit,
  transmit_no_wait, request_status, block_write, driver_info,
}
use vmodem.Fossil.Init.{init_driver, deinit_driver, set_dtr}

-- The registers of the caller that the handler reads or writes, and the bytes at ES:DI.
pub record Regs : Type 0 where
  pub ax : ℕ
  pub bx : ℕ
  pub cx : ℕ
  pub dx : ℕ
  pub buffer : List ℕ

-- What the machine gives to a call: the tick count, those after each poll that waits for data, and
-- the far pointer to the driver's name.
pub record Clock : Type 0 where
  pub now : ℕ
  pub times : List ℕ
  pub ident : ℕ

abbrev pub func_of : Regs → ℕ
func_of r = r.ax / 256

-- `port_idx` before it is limited, and after.
abbrev pub dx_low : Regs → ℕ
dx_low r = r.dx % 256

abbrev pub port_of : Regs → ℕ
port_of r = bit_and (dx_low r) 0x03

-- The keyboard functions, and those of the screen that return nothing; AH=17h, the reboot, does
-- not come back.
abbrev pub is_keyboard : ℕ → Bool
is_keyboard func = func == 0x0d || func == 0x0e

abbrev pub is_silent : ℕ → Bool
is_silent func = func == 0x11 || func == 0x13 || func == 0x15 || func == 0x17

module _ {W : Type 0} (net : Mtcp W) (poll : Ctx W → Ctx W) where
  -- AX is set, the other registers stay.
  abbrev pub with_ax : Regs → ℕ × Ctx W → Regs × Ctx W
  with_ax r (ax, c) = (record r { ax = ax }, c)

  -- The functions that may change BX, DX or the caller's memory.
  unfoldable pub int14_wide : Clock → Regs → ℕ → Ctx W → Regs × Ctx W
  int14_wide k r i c =
      let func = func_of r in
      if func == 0x04
      then (record r { ax = 0x1954; bx = 0x051b }, init_driver net i k.now c)
      else if func == 0x07
      then (record r { ax = 18 * 256 + 0x1c; dx = 55 }, c)
      else if func == 0x18
      then (let (out, c1) = block_read net i poll k.now k.times r.cx c in
          (record r { ax = length out; buffer = out }, c1))
      else if func == 0x1b
      then (let out = driver_info k.ident r.cx c in (record r { ax = length out; buffer = out }, c))
      else if is_keyboard func || func == 0x12 || is_silent func
      then (let (v, w) = net.bios func r.ax r.dx c.shared.world in
          (
            if is_keyboard func
                then record r { ax = v }
                else if func == 0x12
                then record r { ax = 0; dx = v }
                else record r { ax = 0 },
            with_world (λ u. w) c,
          ))
      else with_ax r (fossil_status i c)

  -- The functions whose only result is AX; `ret_ax` is 0 where none sets it.
  unfoldable pub int14_func : Clock → Regs → ℕ → Ctx W → Regs × Ctx W
  int14_func k r i c =
      let func = func_of r in
      let al = r.ax % 256 in
      if func == 0x01
      then with_ax r (transmit net i k.now al c)
      else if func == 0x02
      then with_ax r (receive poll c)
      else if func == 0x03
      then with_ax r (request_status net i poll k.now c)
      else if func == 0x05
      then with_ax r (0, deinit_driver net i c)
      else if func == 0x06
      then with_ax r (0, set_dtr i k.now al c)
      else if func == 0x08
      then with_ax r (0, (fossil_flush_tx net i c).1)
      else if func == 0x09
      then with_ax r (0, purge_output i k.now c)
      else if func == 0x0a
      then with_ax r (0, purge_input c)
      else if func == 0x0b
      then with_ax r (transmit_no_wait net i k.now al c)
      else if func == 0x0c
      then with_ax r (peek c, c)
      else if func == 0x0f
      then with_ax r (0, set_flow al c)
      else if func == 0x10 || func == 0x14 || func == 0x1a
      then with_ax r (0, c)
      else if func == 0x16
      then with_ax r (0xffff, c)
      else if func == 0x19
      then with_ax r (block_write net i (take r.cx r.buffer) c)
      else int14_wide k r i c

  -- The state is that of port `port_of r`; `none` means that the old handler is called.
  unfoldable pub int14 : Clock → Regs → Ctx W → Option (Regs × Ctx W)
  int14 k r c =
      if dx_low r == 0xff
      then some (if func_of r == 0x04 then record r { ax = 0x1954; bx = 0x051b } else r, c)
      else if c.line.port.initialized
      then some (int14_func k r (port_of r) c)
      else none
