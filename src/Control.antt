-- ===== src/Control.antt =====
-- The commands of src/vmodem.c on the resident state, and what its `main` does to that state at
-- installation.
pub mod Args
pub mod Install
mod Tests
use vmodem.Prelude.{
  ℕ, zero, suc, ◌+◌, ◌-◌, ◌*◌, ◌%◌, ◌^◌, bit_and, bit_or, Bool, true, false, not, ◌&&◌, Option,
  none, some, List, [], ◌∷◌, ltb, leb, ◌==◌, if◌then◌else◌, set, get_or, map,
}
use vmodem.Mtcp.{Mtcp}
use vmodem.Ring.{ring_init, ring_count}
use vmodem.Port.{
  PortMode, port_disc, port_listen, port_conn, PortState, Line, HuntGroup, Shared, Ctx, with_port,
  with_world,
}
use vmodem.Net.{is_open, cmd_disconnect}
use vmodem.System.{System, sys_world, with_sys_world}
use vmodem.Cycle.{on_line}

abbrev pub max_ports : ℕ
max_ports = 4

-- What `cmd_listen` leaves of a port.
unfoldable pub listen_port : ℕ → PortState → PortState
listen_port tcp_port p =
    let p1 = cmd_disconnect p in
    record p1 {
      listen_sock = none;
      sock = none;
      local_port = tcp_port;
      mode = port_disc;
      initialized = true;
      rx = ring_init p1.rx;
    }

-- What `cmd_hunt_listen` leaves of a member.
unfoldable pub hunt_port : ℕ → ℕ → PortState → PortState
hunt_port group tcp_port p = record p {
  listen_sock = none;
  sock = none;
  local_port = tcp_port;
  mode = port_disc;
  initialized = true;
  hunt_group_idx = some group;
  rx = ring_init p.rx;
}

-- The first group that is not active, from the index `j` on.
unfoldable pub free_group : ℕ → List HuntGroup → Option ℕ
free_group j [] = none
free_group j (g ∷ gs) = if not g.active then some j else free_group (j + 1) gs

-- `mask & (1 << j)`
abbrev pub has_bit : ℕ → ℕ → Bool
has_bit mask j = not (bit_and mask (2 ^ j) == 0)

-- The bytes of a port in the `StatusBlock`.
pub record PortStatus : Type 0 where
  pub mode : ℕ
  pub initialized : Bool
  pub local_port : ℕ
  pub remote_port : ℕ
  pub remote_ip : List ℕ
  pub rx_count : ℕ

-- The constants of `PortMode`, in their order.
abbrev pub mode_code : PortMode → ℕ
mode_code port_disc = 0
mode_code port_listen = 1
mode_code port_conn = 2

unfoldable pub port_status : Line → PortStatus
port_status l = record {
  mode = mode_code l.port.mode;
  initialized = l.port.initialized;
  local_port = l.port.local_port;
  remote_port = l.port.remote_port;
  remote_ip = l.port.remote_ip;
  rx_count = ring_count l.port.rx % 65536;
}

module _ {W : Type 0} where
  unfoldable pub cmd_listen : ℕ → ℕ → System W → System W
  unfolding on_line listen_port
  cmd_listen port_idx tcp_port s =
      if ltb port_idx max_ports then on_line port_idx (with_port (listen_port tcp_port)) s else s

  unfoldable pub cmd_disconnect_port : ℕ → System W → System W
  unfolding on_line
  cmd_disconnect_port port_idx s =
      if ltb port_idx max_ports then on_line port_idx (with_port cmd_disconnect) s else s

  -- The members among the ports from `j` on, `n` of them.
  unfoldable pub join_ports : ℕ → ℕ → ℕ → ℕ → ℕ → System W → System W
  unfolding on_line hunt_port
  join_ports group mask tcp_port j zero s = s
  join_ports group mask tcp_port j (suc n) s =
      join_ports group mask tcp_port (j + 1) n
        (if has_bit mask j then on_line j (with_port (hunt_port group tcp_port)) s else s)

  -- The group `g` as `cmd_hunt_listen` sets it up.
  unfoldable pub open_group : ℕ → ℕ → ℕ → System W → System W
  open_group g mask tcp_port s = record s {
    shared = record (s.shared) {
      hunt_groups =
          set s.shared.hunt_groups g
            (record { listen_sock = none; tcp_port = tcp_port; port_mask = mask; active = true });
    };
  }

  unfoldable pub cmd_hunt_listen : ℕ → ℕ → System W → System W
  unfolding free_group join_ports open_group
  cmd_hunt_listen mask tcp_port s = elim (free_group 0 s.shared.hunt_groups) [
    | none ↦ s
    | some g ↦ join_ports g mask tcp_port 0 max_ports (open_group g mask tcp_port s)
  ]

  -- The part of `cmd_status` that is about the ports.
  unfoldable pub cmd_status : System W → List PortStatus
  unfolding port_status
  cmd_status s = map port_status s.lines
