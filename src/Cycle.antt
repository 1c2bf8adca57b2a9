-- ===== src/Cycle.antt =====
-- A whole poll cycle, `do_mtcp_poll` in src/poll.c, on the state of the resident program. The service
-- of one port stands in Poll.
pub mod Ping
pub mod External
pub mod Safe
pub mod Whole
pub mod Hunt
pub mod Queue
pub mod Sample
mod Tests
use vmodem.Prelude.{
  ℕ, zero, suc, ◌+◌, ◌-◌, ◌^◌, bit_and, Bool, true, false, not, ◌&&◌, Option, none, some, List, [],
  ◌∷◌, ltb, ◌==◌, if◌then◌else◌, length, get_or, get_elem?, set, take, codes,
}
use vmodem.Mtcp.{Mtcp}
use vmodem.Mtcp.Outgoing.{Outgoing}
use vmodem.Port.{PortMode, port_disc, port_listen, port_conn, Line, HuntGroup, Shared, Ctx}
use vmodem.Net.{is_open, sock_close_fast}
use vmodem.Poll.{take_call, service_port}
use vmodem.System.{System, sys_world, with_sys_world}
use vmodem.Cycle.Ping.{icmp_received, icmp_send}
use vmodem.Cycle.External.{service_external}

abbrev pub is_listening : PortMode → Bool
is_listening port_listen = true
is_listening port_conn = false
is_listening port_disc = false

-- A member of the group that listens and has no call.
unfoldable pub is_free : ℕ → ℕ → Line → Bool
is_free mask j l =
    not (bit_and mask (2 ^ j) == 0) && is_listening l.port.mode && not (is_open l.port.sock)

-- The first free port of a group, from the line `j` on.
unfoldable pub first_free : ℕ → ℕ → List Line → Option ℕ
unfolding is_free
first_free mask j [] = none
first_free mask j (l ∷ ls) = if is_free mask j l then some j else first_free mask (j + 1) ls

module _ {W : Type 0} where
  -- A routine of one port run on the line `j`.
  unfoldable pub on_line : ℕ → (Ctx W → Ctx W) → System W → System W
  on_line j f s = elim (get_elem? s.lines j) [
    | none ↦ s
    | some l ↦
        let c = f (record { line = l; shared = s.shared }) in
        record s { lines = set s.lines j c.line; shared = c.shared }
  ]

module _ {W : Type 0} (out : Outgoing W) (net : Mtcp W) where
  -- The element `i` of the close queue: if its close is done, the last one takes its place.
  unfoldable pub drain_one : ℕ → Shared W → Shared W
  drain_one i sh =
      let n = get_or sh.closing i 0 in
      let (done, w) = out.is_close_done n sh.world in
      let last = length sh.closing - 1 in
      if done
      then record sh {
        world = net.free_socket n w;
        closing = take last (set sh.closing i (get_or sh.closing last 0));
      }
      else record sh { world = w }

  -- The elements below `i`, from the last one down.
  unfoldable pub drain_closing : ℕ → Shared W → Shared W
  unfolding drain_one
  drain_closing zero sh = sh
  drain_closing (suc i) sh = drain_closing i (drain_one i sh)

module _ {W : Type 0} (net : Mtcp W) where
  -- A caller of a group is put on its first free port, or told that all lines are engaged.
  unfoldable pub dispatch : ℕ → HuntGroup → ℕ → System W → System W
  unfolding first_free on_line
  dispatch now g n s = elim (first_free g.port_mask 0 s.lines) [
    | some j ↦ on_line j (take_call net j now n) s
    | none ↦
        let w =
          (net.send n (codes "\r\nAll lines are engaged. Please try again later.\r\n")
            (sys_world s)).1 in
        record s { shared = sock_close_fast net n (record (s.shared) { world = w }) }
  ]

  unfoldable pub service_group : ℕ → HuntGroup → System W → System W
  unfolding dispatch
  service_group now g s =
      let (ns, w) = net.accept (sys_world s) in
      let s1 = with_sys_world w s in
      if g.active && is_open g.listen_sock
      then elim ns [ none ↦ s1 | some n ↦ dispatch now g n s1 ]
      else s

  unfoldable pub service_groups : ℕ → List HuntGroup → System W → System W
  unfolding service_group
  service_groups now [] s = s
  service_groups now (g ∷ gs) s = service_groups now gs (service_group now g s)

  -- The ports from `j` on, `n` of them.
  unfoldable pub service_ports : Bool → ℕ → ℕ → ℕ → ℕ → System W → System W
  unfolding on_line
  service_ports safe fuel now j zero s = s
  service_ports safe fuel now j (suc n) s =
      service_ports safe fuel now (j + 1) n (on_line j (service_port net j safe fuel now) s)

module _ {W : Type 0} (net : Mtcp W) (out : Outgoing W) where
  abbrev pub drained : System W → System W
  drained s = record s { shared = drain_closing out net (length s.shared.closing) s.shared }

  unfoldable pub drive : ℕ → System W → System W
  unfolding icmp_received
  drive now s =
      let (packets, w) = out.drive_stack now (sys_world s) in
      icmp_received now packets (with_sys_world w s)

  unfoldable pub do_mtcp_poll : Bool → ℕ → ℕ → System W → System W
  unfolding drain_closing drive icmp_send service_groups service_ports service_external
  do_mtcp_poll safe fuel now s =
      let s1 = icmp_send out now (drive now (drained s)) in
      service_external net out
        (service_ports net safe fuel now 0 4 (service_groups net now s1.shared.hunt_groups s1))
