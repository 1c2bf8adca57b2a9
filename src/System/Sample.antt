-- ===== src/System/Sample.antt =====
-- A resident program for examples: four lines of one hunt group, which listen, and an external socket.
use vmodem.Prelude.{false, true, none, some, [], ◌∷◌}
use vmodem.Mtcp.Sink.{World}
use vmodem.Mtcp.Outgoing.{Outgoing}
use vmodem.Ring.{tx_ring_bits, zeroed}
use vmodem.Port.{PortMode, PortState, Line, HuntGroup, Ctx}
use vmodem.Port.Sample.{call_port, fresh_at, call_with}
use vmodem.Tx.{no_pending}
use vmodem.System.{ext_established, ExtSocket, dns_idle, icmp_idle, System, no_ext}

-- Every connection is complete at once, and no name is known.
abbrev pub prompt : Outgoing World
prompt = record {
  set_recv_buffer = λ s n w. (true, w);
  connect_nonblocking = λ s p ip q w. (true, w);
  is_connect_complete = λ s w. true;
  is_close_done = λ s w. (true, w);
  resolve = λ name ask w. (2, [], w);
  is_query_pending = λ w. false;
  delete_from_cache = λ name w. w;
  drive_stack = λ now w. ([], w);
  send_echo = λ r w. (true, w);
}

abbrev pub in_call : Ctx World
in_call = call_with fresh_at (zeroed tx_ring_bits) no_pending

abbrev pub listening_port : PortState
listening_port = record call_port {
  mode = PortMode.port_listen;
  sock = none;
  hunt_group_idx = some 0;
}

abbrev pub waiting : Line
waiting = record (in_call.line) { port = listening_port }

-- The ports 1 and 2
abbrev pub group : HuntGroup
group = record { listen_sock = some 5; tcp_port = 23; port_mask = 6; active = true }

abbrev pub outgoing_slot : ExtSocket
outgoing_slot = record no_ext { sock = some 9; state = ext_established }

abbrev pub resident_system : System World
resident_system = record {
  lines = in_call.line ∷ in_call.line ∷ waiting ∷ waiting ∷ [];
  shared = record (in_call.shared) { hunt_groups = group ∷ [] };
  ext_sockets = no_ext ∷ outgoing_slot ∷ no_ext ∷ no_ext ∷ [];
  ephemeral_port = 16384;
  mux_sock_result = 0;
  dns = record { state = dns_idle; hostname = []; resolved_ip = [] };
  icmp = record {
    state = icmp_idle;
    send_pending = false;
    ttl = 0;
    seq = 0;
    dest_ip = [];
    send_tick = 0;
    result = [];
  };
}
