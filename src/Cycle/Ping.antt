-- ===== src/Cycle/Ping.antt =====
-- The ICMP side of the poll cycle: `vmodem_icmp_handler` and step 1b of `do_mtcp_poll` (src/poll.c).
use vmodem.Prelude.{
  ℕ, zero, suc, ◌+◌, ◌*◌, ◌/◌, ◌%◌, Bool, true, false, ◌&&◌, ◌||◌, List, [], ◌∷◌, ◌==◌,
  if◌then◌else◌, get_or,
}
use vmodem.Mtcp.Outgoing.{Outgoing, IcmpPacket}
use vmodem.Net.{ticks_since}
use vmodem.System.{IcmpState, icmp_waiting, icmp_reply, Icmp, System, sys_world, with_sys_world}
use vmodem.Vsocket.Bytes.{htons}

-- A 16-bit word of the payload, as the processor reads it.
abbrev pub word_at : List ℕ → ℕ → ℕ
word_at p i = get_or p i 0 + get_or p (i + 1) 0 * 256

abbrev pub vmodem_ident : ℕ
vmodem_ident = 0xc3c3

-- The length of an IP header, from its first byte (`getIpHlen`).
abbrev ip_hlen : ℕ → ℕ
ip_hlen b = b % 16 * 4

-- Is the packet the answer to the request that waits?
unfoldable pub answers : Icmp → IcmpPacket → Bool
answers m p =
    if p.kind == 0
    then word_at p.payload 0 == vmodem_ident && word_at p.payload 2 == htons m.seq
    else if p.kind == 11 || p.kind == 3
    then word_at p.payload (4 + ip_hlen (get_or p.payload 4 0) + 4) == vmodem_ident
    else false

abbrev pub is_waiting : IcmpState → Bool
is_waiting icmp_waiting = true
is_waiting IcmpState.icmp_idle = false
is_waiting icmp_reply = false
is_waiting IcmpState.icmp_timeout = false

-- The bytes of an `IcmpMuxResult`.
unfoldable pub reply_bytes : ℕ → Icmp → IcmpPacket → List ℕ
reply_bytes now m p =
    let rtt = ticks_since m.send_tick now % 65536 in
    p.kind
    ∷ p.code
    ∷ get_or p.source 0 0
    ∷ get_or p.source 1 0
    ∷ get_or p.source 2 0
    ∷ get_or p.source 3 0
    ∷ (m.seq % 256)
    ∷ (m.seq / 256 % 256)
    ∷ (rtt % 256)
    ∷ (rtt / 256)
    ∷ p.ttl
    ∷ 0
    ∷ []

unfoldable pub icmp_handler : ℕ → IcmpPacket → Icmp → Icmp
unfolding answers reply_bytes
icmp_handler now p m =
    if is_waiting m.state && answers m p
    then record m { result = reply_bytes now m p; state = icmp_reply }
    else m

module _ {W : Type 0} where
  unfoldable pub icmp_received : ℕ → List IcmpPacket → System W → System W
  unfolding icmp_handler
  icmp_received now [] s = s
  icmp_received now (p ∷ ps) s =
      icmp_received now ps (record s { icmp = icmp_handler now p s.icmp })

-- `(i % 26) + 'A'` for `n` more indices.
unfoldable pub ping_payload : ℕ → ℕ → List ℕ
ping_payload zero i = []
ping_payload (suc n) i = (i % 26 + b'A') ∷ ping_payload n (i + 1)

abbrev icmp_payload_size : ℕ
icmp_payload_size = 32

module _ {W : Type 0} (out : Outgoing W) where
  -- A request that is not sent, since its address is not resolved yet, is left for the next cycle.
  unfoldable pub icmp_send : ℕ → System W → System W
  unfolding ping_payload
  icmp_send now s =
      let (sent, w) =
        out.send_echo
          (record {
            dest_ip = s.icmp.dest_ip;
            ttl = s.icmp.ttl;
            ident = vmodem_ident;
            seq = htons s.icmp.seq;
            payload = ping_payload icmp_payload_size 0;
          })
          (sys_world s) in
      if s.icmp.send_pending
      then (let s1 = with_sys_world w s in
          if sent
          then record s1 { icmp = record (s1.icmp) { send_tick = now; send_pending = false } }
          else s1)
      else s
