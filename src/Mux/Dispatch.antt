-- ===== src/Mux/Dispatch.antt =====
-- `int2f_handler` and `int28_handler` of src/int8.c. `buffer` is the caller's bytes at ES:BX. Left out
-- here: the pointer to the state that MUX_INSTALL_CHK returns, the block of MUX_STATUS (its ports are
-- Control.cmd_status), MUX_DEBUGLOG (in Log), and the interrupt vectors that MUX_UNLOAD restores.
use vmodem.Prelude.{ℕ, ◌+◌, ◌*◌, ◌/◌, ◌%◌, Bool, true, false, List, ◌==◌, if◌then◌else◌}
use vmodem.Mtcp.{Mtcp}
use vmodem.Mtcp.Outgoing.{Outgoing}
use vmodem.System.{System}
use vmodem.Cycle.{do_mtcp_poll}
use vmodem.Control.{cmd_listen, cmd_disconnect_port, cmd_hunt_listen}
use vmodem.Mux.{
  sock_alloc, sock_connect, sock_status, sock_send, sock_recv, sock_close, sock_recv_ready,
}
use vmodem.Mux.Names.{sock_resolve, sock_resolve_result, dns_flush}
use vmodem.Mux.Ports.{port_naws, port_ttype, icmp_request, icmp_poll, icmp_fetch}

-- The registers that the handler reads or writes, and the caller's bytes.
pub record MuxRegs : Type 0 where
  pub ax : ℕ
  pub cx : ℕ
  pub dx : ℕ
  pub si : ℕ
  pub buffer : List ℕ

abbrev pub mux_id : ℕ
mux_id = 0xc3

module _ {W : Type 0} (net : Mtcp W) (out : Outgoing W) where
  abbrev set_busy : Bool → System W → System W
  set_busy b s = record s { shared = record (s.shared) { busy = b } }

  -- A poll cycle, unless one is running.
  unfoldable pub poll_guarded : Bool → ℕ → ℕ → System W → System W
  unfolding do_mtcp_poll
  poll_guarded safe fuel now s =
      if s.shared.busy
      then s
      else set_busy false (do_mtcp_poll net out safe fuel now (set_busy true s))

  -- The previous handler, which is called in either case, is not part of it.
  unfoldable pub int28_handler : ℕ → ℕ → System W → System W
  unfolding poll_guarded
  int28_handler fuel now s = poll_guarded true fuel now s

  -- The functions that only change the state.
  unfoldable pub mux_command : ℕ → ℕ → ℕ → MuxRegs → System W → System W
  unfolding poll_guarded
  mux_command func fuel now r s =
      if func == 0x01
      then cmd_listen r.cx r.dx s
      else if func == 0x03
      then cmd_disconnect_port r.cx s
      else if func == 0x05
      then poll_guarded false fuel now s
      else if func == 0x07
      then cmd_hunt_listen (r.cx % 256) r.dx s
      else if func == 0x10
      then sock_alloc net out s
      else if func == 0x11
      then sock_connect r.cx r.dx r.buffer s
      else if func == 0x12
      then sock_status net out r.cx s
      else if func == 0x13
      then sock_send net out r.cx r.dx r.buffer s
      else if func == 0x15
      then sock_close r.cx s
      else if func == 0x17
      then sock_resolve out r.buffer s
      else if func == 0x1b
      then sock_recv_ready net out r.cx s
      else if func == 0x1c
      then dns_flush out r.buffer s
      else if func == 0x20
      then icmp_request now r.cx r.dx r.buffer s
      else if func == 0x21
      then icmp_poll now s
      else s

  abbrev with_buffer : MuxRegs → List ℕ × System W → MuxRegs × System W
  with_buffer r (buf, s) = (record r { buffer = buf }, s)

  -- The functions that answer in a register or in the caller's bytes.
  unfoldable pub mux_func : ℕ → ℕ → ℕ → MuxRegs → System W → MuxRegs × System W
  unfolding mux_command
  mux_func func fuel now r s =
      if func == 0x00
      then (record r { ax = r.ax / 256 * 256 + 0xff }, s)
      else if func == 0x14
      then with_buffer r (sock_recv net out r.cx r.dx r.buffer s)
      else if func == 0x16
      then (record r { ax = s.mux_sock_result }, s)
      else if func == 0x18
      then with_buffer r (sock_resolve_result out r.buffer s)
      else if func == 0x19
      then (record r { dx = (port_naws r.cx s).0; si = (port_naws r.cx s).1 }, s)
      else if func == 0x1a
      then (
        record r {
          ax = (port_ttype r.cx r.dx r.buffer s).0;
          buffer = (port_ttype r.cx r.dx r.buffer s).1;
        },
        s,
      )
      else if func == 0x22
      then with_buffer r (icmp_fetch r.buffer s)
      else if func == 0xff
      then (record r { ax = r.ax / 256 * 256 }, s)
      else (r, mux_command func fuel now r s)

  -- Another AH belongs to the previous handler.
  unfoldable pub int2f_handler : ℕ → ℕ → MuxRegs → System W → MuxRegs × System W
  unfolding mux_func
  int2f_handler fuel now r s =
      if r.ax / 256 % 256 == mux_id then mux_func (r.ax % 256) fuel now r s else (r, s)
