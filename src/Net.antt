-- ===== src/Net.antt =====
-- The helpers of src/vmodem.h, src/telnet.c and src/vmodem.c by which a port talks to its socket.
use vmodem.Prelude.{
  ℕ, ◌+◌, ◌-◌, ◌%◌, ◌^◌, Bool, true, false, Option, none, some, List, [], ◌∷◌, ◌++◌, ltb,
  if◌then◌else◌, length,
}
use vmodem.Mtcp.{Mtcp}
use vmodem.Port.{
  PortMode, port_disc, port_listen, port_conn, PortState, Shared, Ctx, with_port, with_world,
}
use vmodem.Telnet.{telnet_send_raw}

-- The difference of two tick counts, unsigned long.
abbrev pub ticks_since : ℕ → ℕ → ℕ
ticks_since t now = (now + 2 ^ 32 - t) % 2 ^ 32

abbrev pub max_closing_sockets : ℕ
max_closing_sockets = 4

-- `p->mode == PORT_CONN`
abbrev pub is_conn : PortMode → Bool
is_conn port_conn = true
is_conn port_listen = false
is_conn port_disc = false

-- `p->sock != NULL`
abbrev pub is_open : Option ℕ → Bool
is_open none = false
is_open (some s) = true

-- The mode of a port that has lost its call: listening, if it has a listening socket of its own
-- or is in a hunt group.
unfoldable pub idle_mode : PortState → PortMode
idle_mode p =
    if is_open p.listen_sock
    then port_listen
    else if is_open p.hunt_group_idx
    then port_listen
    else port_disc

unfoldable pub cmd_disconnect : PortState → PortState
cmd_disconnect p = if is_open p.sock then record p { pending_close = 1 } else p

module _ {W : Type 0} (net : Mtcp W) where
  unfoldable pub sock_close_fast : ℕ → Shared W → Shared W
  sock_close_fast s sh =
      let w = net.drive_packets (net.close_nonblocking s sh.world) in
      if ltb (length sh.closing) max_closing_sockets
      then record sh { world = w; closing = sh.closing ++ (s ∷ []) }
      else record sh { world = net.free_socket s w }

  -- `if (p->sock) { sock_close_fast(p->sock); p->sock = NULL; }`
  unfoldable pub close_call : Ctx W → Ctx W
  close_call c = elim (c.line.port.sock) [
    | none ↦ c
    | some s ↦
        with_port (λ p. record p { sock = none }) (record c { shared = sock_close_fast s c.shared })
  ]

  unfoldable pub telnet_send_text : List ℕ → Ctx W → Ctx W
  telnet_send_text msg c = with_world (telnet_send_raw net c.line.port.sock msg) c
