-- ===== src/Port.antt =====
-- The state of a COM port and what the ports share: `PortState` of src/vmodem.h, `AtState` of
-- src/atcmd.c, and the per-port and shared variables of src/int14.c and src/vmodem.c.
--
-- The source keeps one array for each variable; here a `Line` holds what the arrays have at one
-- index. `dtr_ignore` alone stays an array, since a command of one port writes it for all.
pub mod Sample
use vmodem.Prelude.{ℕ, Bool, Option, List}
use vmodem.Ring.{RingBuf}
use vmodem.Telnet.{Iac}

-- `PortMode`
pub data PortMode : Type 0 where
  port_disc port_listen port_conn : PortMode

pub record PortState : Type 0 where
  pub mode : PortMode
  pub sock : Option ℕ
  pub listen_sock : Option ℕ
  pub rx : RingBuf
  pub remote_ip : List ℕ
  pub remote_port : ℕ
  pub local_port : ℕ
  pub initialized : Bool
  -- `none` is -1
  pub hunt_group_idx : Option ℕ
  pub iac : Iac
  pub pending_close : ℕ
  pub conn_tick : ℕ
  pub last_rx_tick : ℕ
  pub last_tx_tick : ℕ
  pub idle_timeout : ℕ

pub record AtState : Type 0 where
  pub buf : List ℕ
  pub pos : ℕ
  pub echo : Bool
  pub quiet : Bool
  pub verbose : Bool
  pub s0 : ℕ
  pub ringing : Bool
  pub rings_sent : ℕ
  pub cmd_mode : Bool
  pub connect_pending : Bool
  pub ring_tick : ℕ
  pub connect_tick : ℕ
  pub plus_count : ℕ
  pub last_tx_tick : ℕ

pub record Line : Type 0 where
  pub port : PortState
  pub at : AtState
  pub tx : RingBuf
  pub fossil_init : Bool
  pub flow_ctrl : ℕ
  pub overrun : Bool
  pub dtr : Bool
  pub purge_seen : ℕ

-- `g_tx_pending`: its first `g_tx_pend_len` bytes, how many of them are sent, and whose they are.
pub record Pending : Type 0 where
  pub bytes : List ℕ
  pub off : ℕ
  pub owner : Option ℕ

-- An element of `huntGroups`.
pub record HuntGroup : Type 0 where
  pub listen_sock : Option ℕ
  pub tcp_port : ℕ
  pub port_mask : ℕ
  pub active : Bool

-- What the ports share. `closing` is `g_closing_sockets` up to `g_closing_count`.
pub record Shared (W : Type 0) : Type 0 where
  pub world : W
  pub pending : Pending
  pub closing : List ℕ
  pub dtr_ignore : List Bool
  pub hunt_groups : List HuntGroup
  -- `g_state.busy`: the stack is being polled
  pub busy : Bool

-- One port and what it shares with the others.
pub record Ctx (W : Type 0) : Type 0 where
  pub line : Line
  pub shared : Shared W

abbrev pub with_port : {W : Type 0} → (PortState → PortState) → Ctx W → Ctx W
with_port f c = record c { line = record (c.line) { port = f c.line.port } }

abbrev pub with_at : {W : Type 0} → (AtState → AtState) → Ctx W → Ctx W
with_at f c = record c { line = record (c.line) { at = f c.line.at } }

abbrev pub with_world : {W : Type 0} → (W → W) → Ctx W → Ctx W
with_world f c = record c { shared = record (c.shared) { world = f c.shared.world } }
