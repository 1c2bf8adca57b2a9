-- ===== src/Mtcp/Outgoing.antt =====
-- What the outgoing side of VMODEM asks of mTCP: connections that it opens itself, the names service
-- and the end of a close. `W` is the state of the outside world; a socket is a number.
use vmodem.Prelude.{ℕ, Bool, List}

-- An ICMP message that has come in: its type and code, the first bytes of its payload, the address it
-- came from and the TTL of its IP header.
pub record IcmpPacket : Type 0 where
  pub kind : ℕ
  pub code : ℕ
  pub payload : List ℕ
  pub source : List ℕ
  pub ttl : ℕ

-- What VMODEM puts in an echo request; the headers' checksums are mTCP's.
pub record EchoRequest : Type 0 where
  pub dest_ip : List ℕ
  pub ttl : ℕ
  pub ident : ℕ
  pub seq : ℕ
  pub payload : List ℕ

pub record Outgoing (W : Type 0) : Type 0 where
  -- `TcpSocket::setRecvBuffer` and `connectNonBlocking` with the local port, the address and the
  -- port of the peer: is the result 0?
  pub set_recv_buffer : ℕ → ℕ → W → Bool × W
  pub connect_nonblocking : ℕ → ℕ → List ℕ → ℕ → W → Bool × W
  -- `isConnectComplete`; `isCloseDone`, which also frees what a finished close has held
  pub is_connect_complete : ℕ → W → Bool
  pub is_close_done : ℕ → W → Bool × W
  -- `Dns::resolve` with its last argument: 0 is done, with the address; 1 is pending; else an error
  pub resolve : List ℕ → Bool → W → ℕ × List ℕ × W
  pub is_query_pending : W → Bool
  pub delete_from_cache : List ℕ → W → W
  -- the ARP keepalive, the packets received, `driveArp`, `drivePackets`, `drivePendingQuery` at a
  -- tick: the ICMP messages among the packets
  pub drive_stack : ℕ → W → List IcmpPacket × W
  -- `setDestEth` and, if it succeeds, `Packet_send_pkt`: is the request sent?
  pub send_echo : EchoRequest → W → Bool × W
