-- ===== src/Poll.antt =====
-- The service of a port in the poll cycle: step 2b of `do_mtcp_poll` in src/poll.c. `safe` says
-- whether DOS may be called (`g_dos_safe || g_int14_safe`).
pub mod Safe
pub mod Receive
pub mod Close
mod Tests
use vmodem.Prelude.{
  ℕ, zero, suc, ◌+◌, ◌-◌, ◌*◌, ◌/◌, ◌%◌, Bool, true, false, not, ◌&&◌, ◌||◌, Option, none, some,
  List, [], ◌∷◌, ltb, leb, ◌==◌, if◌then◌else◌, codes,
}
use vmodem.Mtcp.{Mtcp}
use vmodem.Ring.{RingBuf, ring_init, ring_put, ring_count}
use vmodem.Telnet.{telnet_filter, telnet_on_connect, telnet_send_raw, Iac}
use vmodem.Port.{PortMode, port_disc, port_listen, port_conn, Ctx, with_port, with_at, with_world}
use vmodem.Net.{ticks_since, is_open, idle_mode, sock_close_fast, close_call, telnet_send_text}
use vmodem.Tx.{fossil_clear_tx, fossil_flush_tx}
use vmodem.At.{at_send_ring, at_send_no_carrier, at_check_ring}

module _ {W : Type 0} where
  -- A byte of the filter's output into the RX ring.
  unfoldable pub store : Option ℕ → Ctx W → Ctx W
  store none c = c
  store (some b) c = with_port (λ p. record p { rx = (ring_put p.rx b).1 }) c

  -- The byte that the filter has put off.
  unfoldable pub take_pending : Ctx W → Ctx W
  take_pending c =
      if c.line.port.iac.iac_has_pending
      then with_port
          (λ p. record p {
            iac = record (p.iac) { iac_has_pending = false };
            rx = (ring_put p.rx p.iac.iac_pending).1;
          })
          c
      else c

  -- Neither side has sent for the time set in S30.
  abbrev pub is_timed_out : ℕ → Ctx W → Bool
  is_timed_out now c =
      let limit = c.line.port.idle_timeout * 18 in
      ltb 0 c.line.port.idle_timeout
      && ltb limit (ticks_since c.line.port.last_tx_tick now)
      && ltb limit (ticks_since c.line.port.last_rx_tick now)

  -- A port that has lost its socket while the rings were checked.
  unfoldable pub lost_call : Ctx W → Ctx W
  lost_call c =
      with_port (λ p. elim (p.mode) [ port_listen ↦ p | _ ↦ record p { mode = idle_mode p } ]) c

module _ {W : Type 0} (net : Mtcp W) where
  -- A new call is put on the port.
  unfoldable pub take_call : ℕ → ℕ → ℕ → Ctx W → Ctx W
  take_call i now s c =
      let (ip, port) = net.peer s c.shared.world in
      let c1 = fossil_clear_tx i (
        with_port
          (λ p. record p {
            sock = some s;
            mode = port_conn;
            remote_port = port;
            remote_ip = ip;
            conn_tick = now;
            last_rx_tick = now;
            last_tx_tick = now;
            rx = ring_init p.rx;
          })
          c) in
      let (iac, w) = telnet_on_connect net c1.line.port.sock c1.line.port.iac c1.shared.world in
      at_send_ring now (
        telnet_send_text net (codes "\r\nRinging the host, please wait...\r\n")
          (with_port (λ p. record p { iac = iac }) (with_world (λ v. w) c1)))

  -- The case PORT_LISTEN; a member of a hunt group is left to its group.
  unfoldable pub accept_call : ℕ → ℕ → Ctx W → Ctx W
  accept_call i now c =
      if is_open c.line.port.hunt_group_idx
      then c
      else (let (ns, w) = net.accept c.shared.world in
          let c1 = with_world (λ v. w) c in
          elim ns [ none ↦ c1 | some s ↦ take_call i now s (close_call net c1) ])

  -- A second caller of a port of its own is told that the line is engaged.
  unfoldable pub reject_call : Ctx W → Ctx W
  reject_call c =
      if not (is_open c.line.port.hunt_group_idx)
        && is_open c.line.port.listen_sock
        && ltb 0 (net.pending_accept c.shared.world)
      then (let (ns, w) = net.accept c.shared.world in
          let c1 = with_world (λ v. w) c in
          elim ns [
            | none ↦ c1
            | some s ↦
                let w1 =
                  (net.send s (codes "\r\nLine is engaged. Please try again later.\r\n")
                    c1.shared.world).1 in
                record c1 { shared = sock_close_fast net s (record (c1.shared) { world = w1 }) }
          ])
      else c

  -- The end of a call: the socket is closed and the port is free again.
  unfoldable pub end_call : Bool → Ctx W → Ctx W
  end_call silent c =
      let c1 =
        with_port
          (λ p. record p { remote_ip = 0 ∷ 0 ∷ 0 ∷ 0 ∷ []; remote_port = 0; rx = ring_init p.rx })
          (close_call net c) in
      with_port (λ p. record p { mode = idle_mode p })
        (if silent then c1 else at_send_no_carrier c1)

  -- A close that INT 14h has asked for; 2 asks for a silent one.
  unfoldable pub close_pending : Ctx W → Ctx W
  close_pending c =
      let silent = leb 2 c.line.port.pending_close in
      let c1 = with_port (λ p. record p { pending_close = 0 }) c in
      end_call silent
        (if silent then c1 else telnet_send_text net (codes "\r\nSession finished.\r\n") c1)

  -- A byte of the caller: before the answer only the telnet commands count.
  unfoldable pub take_byte : ℕ → Ctx W → Ctx W
  take_byte b c =
      let (o, iac, w) = telnet_filter net c.line.port.sock c.line.port.iac b c.shared.world in
      let c1 = with_port (λ p. record p { iac = iac }) (with_world (λ v. w) c) in
      if c1.line.at.ringing || c1.line.at.connect_pending then c1 else take_pending (store o c1)

  unfoldable pub take_bytes : List ℕ → Ctx W → Ctx W
  take_bytes [] c = c
  take_bytes (b ∷ bs) c = take_bytes bs (take_byte b c)

  -- The loop that reads the socket, as long as a whole buffer of 256 fits in the RX ring. The fuel
  -- bounds the number of buffers read.
  unfoldable pub read_socket : ℕ → ℕ → ℕ → Ctx W → Ctx W
  read_socket zero now s c = c
  read_socket (suc f) now s c =
      let (bs, w) = net.recv s 256 c.shared.world in
      let c1 = with_world (λ v. w) c in
      let c2 = take_bytes bs (with_port (λ p. record p { last_rx_tick = now }) c1) in
      let rest = read_socket f now s c2 in
      if net.recv_waiting s c.shared.world && leb (ring_count c.line.port.rx) 3840
      then elim bs [ [] ↦ c1 | b ∷ bs' ↦ rest ]
      else c

  -- IAC NOP about every three seconds without input.
  unfoldable pub keep_alive : ℕ → Ctx W → Ctx W
  keep_alive now c =
      let idle = ticks_since c.line.port.last_rx_tick now in
      if ltb 36 idle && ltb (idle - idle / 55 * 55) 2
      then with_world (telnet_send_raw net c.line.port.sock (0xff ∷ 0xf1 ∷ [])) c
      else c

  abbrev pub is_gone : ℕ → ℕ → Ctx W → Bool
  is_gone now s c =
      net.is_closed s c.shared.world
      || (ltb 182 (ticks_since c.line.port.conn_tick now)
          && net.is_remote_closed s c.shared.world
          && not (net.recv_waiting s c.shared.world))

  -- What follows the reading of the socket.
  unfoldable pub watch_call : Bool → ℕ → ℕ → Ctx W → Ctx W
  watch_call safe now s c =
      let c1 = keep_alive now c in
      if safe && is_timed_out now c1
      then end_call false (telnet_send_text net (codes "\r\nClosing idle connection.\r\n") c1)
      else if safe && is_gone now s c1
      then end_call false c1
      else c1

  -- The part of the case PORT_CONN that has a socket `s` after the rings.
  unfoldable pub run_call : ℕ → Bool → ℕ → ℕ → ℕ → Ctx W → Ctx W
  run_call i safe f now s c =
      if ltb 0 c.line.port.pending_close && safe
      then close_pending c
      else watch_call safe now s (
          with_world (λ w. net.drive_packets (net.process_packets (net.open_window s w)))
            (read_socket f now s (fossil_flush_tx net i c).1))

  unfoldable pub serve_call : ℕ → Bool → ℕ → ℕ → Ctx W → Ctx W
  serve_call i safe f now c =
      let c1 = at_check_ring net i now (reject_call c) in
      elim (c1.line.port.sock) [ none ↦ lost_call c1 | some s ↦ run_call i safe f now s c1 ]

  unfoldable pub service_port : ℕ → Bool → ℕ → ℕ → Ctx W → Ctx W
  service_port i safe f now c = if not c.line.port.initialized then c else elim (c.line.port.mode) [
    | port_listen ↦ accept_call i now c
    | port_disc ↦ c
    | port_conn ↦
        if is_open c.line.port.sock
        then serve_call i safe f now c
        else with_port (λ p. record p { mode = idle_mode p }) c
  ]
