-- ===== src/System.antt =====
-- The state of the resident program, `VModemState` of src/vmodem.h: the four lines and what they
-- share, the external sockets, and the requests of the multiplex interface. The debug log stands in
-- Log; the counters that only `cmd_status` reads are left out.
pub mod Sample
use vmodem.Prelude.{ℕ, Bool, Option, none, List, []}
use vmodem.Port.{Line, Shared, Ctx}

-- `EXT_SOCK_*` of src/vmodem_mux.h, in their order
pub data ExtState : Type 0 where
  ext_free ext_connecting ext_established ext_remote_closed ext_error ext_closing : ExtState

-- An element of `ext_sockets`.
pub record ExtSocket : Type 0 where
  pub sock : Option ℕ
  pub state : ExtState
  pub pending_connect : Bool
  pub conn_ip : List ℕ
  pub conn_port : ℕ

-- `DNS_RESOLVE_*`
pub data DnsState : Type 0 where
  dns_idle dns_pending dns_ok dns_error : DnsState

-- `dns_resolve_state`, `dns_hostname` up to its NUL, `dns_resolved_ip`
pub record Dns : Type 0 where
  pub state : DnsState
  pub hostname : List ℕ
  pub resolved_ip : List ℕ

-- `ICMP_STATE_*`
pub data IcmpState : Type 0 where
  icmp_idle icmp_waiting icmp_reply icmp_timeout : IcmpState

-- The `icmp_*` fields; `result` is the bytes of an `IcmpMuxResult`.
pub record Icmp : Type 0 where
  pub state : IcmpState
  pub send_pending : Bool
  pub ttl : ℕ
  pub seq : ℕ
  pub dest_ip : List ℕ
  pub send_tick : ℕ
  pub result : List ℕ

pub record System (W : Type 0) : Type 0 where
  pub lines : List Line
  pub shared : Shared W
  pub ext_sockets : List ExtSocket
  -- `ephemeral_port`, static in the poll cycle
  pub ephemeral_port : ℕ
  pub mux_sock_result : ℕ
  pub dns : Dns
  pub icmp : Icmp

abbrev pub ext_code : ExtState → ℕ
ext_code ext_free = 0
ext_code ext_connecting = 1
ext_code ext_established = 2
ext_code ext_remote_closed = 3
ext_code ext_error = 4
ext_code ext_closing = 5

abbrev pub dns_code : DnsState → ℕ
dns_code dns_idle = 0
dns_code dns_pending = 1
dns_code dns_ok = 2
dns_code dns_error = 3

abbrev pub icmp_code : IcmpState → ℕ
icmp_code icmp_idle = 0
icmp_code icmp_waiting = 1
icmp_code icmp_reply = 2
icmp_code icmp_timeout = 3

abbrev pub no_ext : ExtSocket
no_ext = record {
  sock = none;
  state = ext_free;
  pending_connect = Bool.false;
  conn_ip = [];
  conn_port = 0;
}

module _ {W : Type 0} where
  abbrev pub sys_world : System W → W
  sys_world s = s.shared.world

  abbrev pub with_sys_world : W → System W → System W
  with_sys_world w s = record s { shared = record (s.shared) { world = w } }

  abbrev pub answer : ℕ → System W → System W
  answer r s = record s { mux_sock_result = r }
