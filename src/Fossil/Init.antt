-- ===== src/Fossil/Init.antt =====
-- AH=04h, 05h and 06h of INT 14h in src/int14.c: an application takes a port, leaves it, and
-- raises or lowers DTR.
use vmodem.Prelude.{
  ℕ, ◌==◌, bit_or, Bool, true, false, not, ◌&&◌, ◌||◌, Option, none, some, [], ◌∷◌, leb,
  if◌then◌else◌, set, get_elem?, codes,
}
use vmodem.Mtcp.{Mtcp}
use vmodem.Ring.{ring_init}
use vmodem.Port.{port_listen, Ctx, with_port, with_at, with_world}
use vmodem.Net.{is_conn, is_open, idle_mode, close_call, telnet_send_text}
use vmodem.Tx.{fossil_clear_tx, fossil_flush_tx}
use vmodem.At.{at_init, at_set_ringing_silent, at_send_connect}
use vmodem.Fossil.{has_call, dtr_ignored}

module _ {W : Type 0} where
  -- An old connection to be closed: a close is pending, or DCD has been dropped.
  abbrev pub is_stale : Ctx W → Bool
  is_stale c = not (c.line.port.pending_close == 0) || (has_call c && leb 3 c.line.purge_seen)

  -- The AT settings anew; a call that was not yet answered goes on ringing.
  unfoldable pub reset_at : ℕ → Ctx W → Ctx W
  reset_at now c =
      let c1 = with_at at_init c in
      if c.line.at.ringing && has_call c && (c.line.port.pending_close == 0)
      then with_at (at_set_ringing_silent now) c1
      else c1

  unfoldable pub reset_line : ℕ → Ctx W → Ctx W
  reset_line now c =
      with_port (λ p. record p { last_tx_tick = now; last_rx_tick = now; idle_timeout = 0 })
        (record c {
          line = record (c.line) {
            fossil_init = true;
            flow_ctrl = 0;
            overrun = false;
            dtr = true;
            purge_seen = 0;
          };
        })

module _ {W : Type 0} (net : Mtcp W) where
  unfoldable pub close_stale : ℕ → Ctx W → Ctx W
  close_stale i c =
      if is_stale c
      then with_port
          (λ p. record p { remote_ip = 0 ∷ 0 ∷ 0 ∷ 0 ∷ []; remote_port = 0; mode = idle_mode p })
          (close_call net (
            telnet_send_text net (codes "\r\nSession finished.\r\n") (
              with_port (λ p. record p { pending_close = 0 })
                (record c {
                  shared = record (c.shared) { dtr_ignore = set c.shared.dtr_ignore i false };
                }))))
      else c

  -- A socket that listens at a TCP port, or none.
  unfoldable pub new_listener : ℕ → W → Option ℕ × W
  new_listener port w =
      let (ls, w1) = net.get_socket w in
      elim ls [
        | none ↦ (none, w1)
        | some s ↦
            let (done, w2) = net.listen s port w1 in
            if done then (some s, w2) else (none, net.free_socket s w2)
      ]

  -- The shared listening socket of hunt group `k`, made if there is none.
  unfoldable pub listen_hunt : ℕ → Ctx W → Ctx W
  listen_hunt k c = elim (get_elem? c.shared.hunt_groups k) [
    | none ↦ c
    | some g ↦
        if g.active && not (is_open g.listen_sock)
        then (let (ls, w) = new_listener g.tcp_port c.shared.world in
            record c {
              shared = record (c.shared) {
                world = w;
                hunt_groups = set c.shared.hunt_groups k (record g { listen_sock = ls });
              };
            })
        else c
  ]

  -- The listening socket of a port of its own.
  unfoldable pub listen_alone : Ctx W → Ctx W
  listen_alone c =
      if is_open c.line.port.listen_sock
      then with_port (λ p. record p { mode = port_listen }) c
      else (let (ls, w) = new_listener c.line.port.local_port c.shared.world in
          with_port
            (λ p. if is_open ls then record p { listen_sock = ls; mode = port_listen } else p)
            (with_world (λ v. w) c))

  unfoldable pub start_listen : Ctx W → Ctx W
  start_listen c = elim (c.line.port.hunt_group_idx) [
    | some k ↦
        with_port (λ p. if is_conn p.mode then p else record p { mode = port_listen })
          (listen_hunt k c)
    | none ↦
        if not (c.line.port.local_port == 0) && not (is_conn c.line.port.mode)
        then listen_alone c
        else c
  ]

  unfoldable pub raise_uart_dtr : ℕ → W → W
  raise_uart_dtr i w = net.set_mcr i (bit_or (net.get_mcr i w) 0x01) w

  -- AH=04h
  unfoldable pub init_driver : ℕ → ℕ → Ctx W → Ctx W
  init_driver i now c =
      let c1 = fossil_clear_tx i (with_port (λ p. record p { rx = ring_init p.rx }) c) in
      with_world (raise_uart_dtr i)
        (start_listen (reset_at now (reset_line now (close_stale i c1))))

  -- AH=05h
  unfoldable pub deinit_driver : ℕ → Ctx W → Ctx W
  deinit_driver i c =
      let c1 = (fossil_flush_tx net i c).1 in
      let c2 = record c1 { line = record (c1.line) { fossil_init = false } } in
      if dtr_ignored i c2
      then c2
      else if c2.line.dtr && has_call c2
      then with_port (λ p. record p { pending_close = 1 }) c2
      else c2

module _ {W : Type 0} where
  -- AH=06h: dropping DTR asks for a close, raising it answers a call that rings.
  unfoldable pub set_dtr : ℕ → ℕ → ℕ → Ctx W → Ctx W
  set_dtr i now al c =
      let c1 = record c { line = record (c.line) { dtr = not (al == 0) } } in
      if al == 0
      then (if dtr_ignored i c1
          then c1
          else if has_call c1
          then with_port (λ p. record p { pending_close = 1 }) c1
          else c1)
      else if c1.line.at.ringing && is_conn c1.line.port.mode
      then with_at (at_send_connect now) c1
      else c1
