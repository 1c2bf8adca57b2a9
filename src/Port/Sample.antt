-- ===== src/Port/Sample.antt =====
-- Ports for examples: one in a call, with an empty RX ring and the AT settings of `at_init`.
use vmodem.Prelude.{ℕ, true, false, none, some, List, [], ◌∷◌, replicate}
use vmodem.Mtcp.Sink.{World, quiet_world}
use vmodem.Ring.{RingBuf, ring_bits, zeroed}
use vmodem.Telnet.{iac_zero}
use vmodem.Port.{PortState, port_conn, AtState, Pending, Ctx}

abbrev pub call_port : PortState
call_port = record {
  mode = port_conn;
  sock = some 7;
  listen_sock = none;
  rx = zeroed ring_bits;
  remote_ip = 0 ∷ 0 ∷ 0 ∷ 0 ∷ [];
  remote_port = 0;
  local_port = 0;
  initialized = true;
  hunt_group_idx = none;
  iac = iac_zero;
  pending_close = 0;
  conn_tick = 0;
  last_rx_tick = 0;
  last_tx_tick = 0;
  idle_timeout = 0;
}

abbrev pub fresh_at : AtState
fresh_at = record {
  buf = replicate 128 0;
  pos = 0;
  echo = true;
  quiet = false;
  verbose = true;
  s0 = 0;
  ringing = false;
  rings_sent = 0;
  cmd_mode = false;
  connect_pending = false;
  ring_tick = 0;
  connect_tick = 0;
  plus_count = 0;
  last_tx_tick = 0;
}

-- A call that rings.
abbrev pub ringing_at : AtState
ringing_at = record fresh_at { ringing = true }

-- A TX ring that holds some bytes from index 0 on.
abbrev pub holding : List ℕ → ℕ → RingBuf
holding slots n = record { slots = slots; head = 0; tail = n; count = n }

abbrev pub call_with : AtState → RingBuf → Pending → Ctx World
call_with at tx pending = record {
  line = record {
    port = call_port;
    at = at;
    tx = tx;
    fossil_init = true;
    flow_ctrl = 0;
    overrun = false;
    dtr = true;
    purge_seen = 0;
  };
  shared = record {
    world = quiet_world;
    pending = pending;
    closing = [];
    dtr_ignore = replicate 4 false;
    hunt_groups = [];
    busy = false;
  };
}
