-- ===== src/Mux/Ports.antt =====
-- What the multiplex interface (src/int8.c) tells of a port, MUX_PORT_NAWS and MUX_PORT_TTYPE, and its
-- echo requests, MUX_ICMP_SEND, MUX_ICMP_POLL and MUX_ICMP_RESULT.
use vmodem.Prelude.{
  ℕ, ◌+◌, ◌-◌, ◌%◌, true, not, ◌&&◌, none, some, List, [], ◌∷◌, ◌++◌, ltb, if◌then◌else◌, length,
  get_or, get_elem?, drop, take,
}
use vmodem.Net.{ticks_since}
use vmodem.System.{icmp_idle, icmp_waiting, icmp_timeout, Icmp, System, icmp_code, answer}
use vmodem.Cycle.Ping.{is_waiting}
use vmodem.Mux.Names.{copy_name}

-- A request that has been sent is given up after 91 ticks.
unfoldable pub icmp_timed : ℕ → Icmp → Icmp
icmp_timed now m =
    if is_waiting m.state && not m.send_pending && ltb 91 (ticks_since m.send_tick now)
    then record m { state = icmp_timeout }
    else m

module _ {W : Type 0} where
  -- The columns and rows of the port's terminal; 0 where there is no such port.
  unfoldable pub port_naws : ℕ → System W → ℕ × ℕ
  port_naws cx s = elim (get_elem? s.lines (cx % 256)) [
    | none ↦ (0, 0)
    | some l ↦ (l.port.iac.naws_cols, l.port.iac.naws_rows)
  ]

  -- The length of the terminal type that fits in `dx` bytes with a NUL, and the caller's buffer.
  unfoldable pub port_ttype : ℕ → ℕ → List ℕ → System W → ℕ × List ℕ
  unfolding copy_name
  port_ttype cx dx buf s = elim (get_elem? s.lines (cx % 256)) [
    | none ↦ (0, buf)
    | some l ↦
        let name = copy_name (dx - 1) l.port.iac.ttype in
        if ltb 0 dx then (length name, name ++ (0 ∷ drop (length name + 1) buf)) else (0, buf)
  ]

  unfoldable pub icmp_request : ℕ → ℕ → ℕ → List ℕ → System W → System W
  icmp_request now cx dx buf s = answer 0 (record s {
    icmp = record (s.icmp) {
      ttl = cx % 256;
      seq = dx;
      dest_ip = get_or buf 0 0 ∷ get_or buf 1 0 ∷ get_or buf 2 0 ∷ get_or buf 3 0 ∷ [];
      send_tick = now;
      send_pending = true;
      state = icmp_waiting;
    };
  })

  unfoldable pub icmp_poll : ℕ → System W → System W
  unfolding icmp_timed
  icmp_poll now s =
      let m = icmp_timed now s.icmp in answer (icmp_code m.state) (record s { icmp = m })

  -- The twelve bytes of the result over the caller's, and the state.
  unfoldable pub icmp_fetch : List ℕ → System W → List ℕ × System W
  icmp_fetch buf s = (
    take 12 s.icmp.result ++ drop 12 buf,
    answer 0 (record s { icmp = record (s.icmp) { state = icmp_idle } }),
  )
