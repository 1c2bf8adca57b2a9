-- ===== src/Cycle/Whole.antt =====
-- `do_mtcp_poll` (src/poll.c) keeps the state of the resident program well formed.
use vmodem.Prelude.{
  ℕ, zero, suc, ◌+◌, ◌≡◌, refl, ◌∙◌, Bool, Bool-cases, ◌&&◌, Option-cases, inl, inr, List, [], ◌∷◌,
  arith, length,
}
use vmodem.Mtcp.{Mtcp}
use vmodem.Mtcp.Outgoing.{Outgoing, IcmpPacket}
use vmodem.Port.{HuntGroup, Shared}
use vmodem.Net.{is_open}
use vmodem.Poll.{take_call, service_port}
use vmodem.Poll.Safe.{take_call-IsSafe, service_port-IsSafe}
use vmodem.System.{System, sys_world, with_sys_world}
use vmodem.Mux.{max_ext_sockets}
use vmodem.Cycle.{
  first_free, drain_one, drain_closing, dispatch, service_group, service_groups, service_ports,
  drained, drive, do_mtcp_poll,
}
use vmodem.Cycle.Ping.{icmp_received, icmp_handler, icmp_send}
use vmodem.Cycle.External.{service_external}
use vmodem.Cycle.Safe.{SysSafe, shared-SysSafe, on_line-SysSafe, slots-SysSafe, fast-pending}

module _ {W : Type 0} (net : Mtcp W) (out : Outgoing W) where
  drain-pending : (i : ℕ) (sh : Shared W) → (drain_closing out net i sh).pending ≡ sh.pending
  unfolding drain_closing drain_one
  drain-pending zero sh = refl
  drain-pending (suc i) sh = drain-pending i (drain_one out net i sh) ∙ ground arith

  received-SysSafe :
      (now : ℕ) (ps : List IcmpPacket) (s : System W) → SysSafe s → SysSafe (icmp_received now ps s)
  unfolding icmp_received
  received-SysSafe now [] s v = v
  received-SysSafe now (p ∷ ps) s v =
      received-SysSafe now ps (record s { icmp = icmp_handler now p s.icmp }) (ground (arith, v))

  dispatch-SysSafe :
      (now : ℕ) (g : HuntGroup) (n : ℕ) (s : System W)
      → SysSafe s
      → SysSafe (dispatch net now g n s)
  unfolding dispatch
  dispatch-SysSafe now g n s v = elim (Option-cases (first_free g.port_mask 0 s.lines)) [
    | inl e ↦ rw (e, dispatch) (shared-SysSafe _ s (fast-pending net out n _) v)
    | inr (j, e) ↦
        rw (e, dispatch)
          (on_line-SysSafe j (take_call net j now n) s (take_call-IsSafe net j now n) v)
  ]

  group-SysSafe :
      (now : ℕ) (g : HuntGroup) (s : System W) → SysSafe s → SysSafe (service_group net now g s)
  unfolding service_group
  group-SysSafe now g s v =
      let s1 = with_sys_world (net.accept (sys_world s)).1 s in
      let v1 : SysSafe s1 = ground (arith, v) in
      elim (Bool-cases (g.active && is_open g.listen_sock)) [
        | inr e ↦ rw (e, service_group) v
        | inl e ↦ elim (Option-cases (net.accept (sys_world s)).0) [
          | inl o ↦ rw (e, service_group, o) v1
          | inr (n, o) ↦ rw (e, service_group, o) (dispatch-SysSafe now g n s1 v1)
        ]
      ]

  groups-SysSafe :
      (now : ℕ) (gs : List HuntGroup) (s : System W)
      → SysSafe s
      → SysSafe (service_groups net now gs s)
  unfolding service_groups
  groups-SysSafe now [] s v = v
  groups-SysSafe now (g ∷ gs) s v =
      groups-SysSafe now gs (service_group net now g s) (group-SysSafe now g s v)

  ports-SysSafe :
      (safe : Bool) (fuel now j n : ℕ) (s : System W)
      → SysSafe s
      → SysSafe (service_ports net safe fuel now j n s)
  unfolding service_ports
  ports-SysSafe safe fuel now j zero s v = v
  ports-SysSafe safe fuel now j (suc n) s v = ports-SysSafe safe fuel now (j + 1) n _ (
      on_line-SysSafe j (service_port net j safe fuel now) s
        (service_port-IsSafe net j safe fuel now) v)

  drive-SysSafe : (now : ℕ) (s : System W) → SysSafe s → SysSafe (drive net out now s)
  unfolding drive
  drive-SysSafe now s v =
      let (packets, w) = out.drive_stack now (sys_world s) in
      received-SysSafe now packets (with_sys_world w s) (ground (arith, v))

  send-SysSafe : (now : ℕ) (s : System W) → SysSafe s → SysSafe (icmp_send out now s)
  unfolding icmp_send
  send-SysSafe now s v = ground (arith, v)

  -- A poll cycle keeps the state well formed, whatever the network does, at whatever time and with
  -- any number of buffers read: on each line both rings are valid and the line buffer has room for
  -- one more byte and the NUL, the pending buffer is within its size, there are four slots for
  -- external sockets, a slot without a socket is free and has nothing to connect, and the local port
  -- of the next connection stays between 16384 and 32000.
  pub do_mtcp_poll-SysSafe :
      (safe : Bool) (fuel now : ℕ) (s : System W)
      → SysSafe s
      → SysSafe (do_mtcp_poll net out safe fuel now s)
  unfolding do_mtcp_poll service_external
  do_mtcp_poll-SysSafe safe fuel now s v =
      let s0 = drained net out s in
      let v0 : SysSafe s0 =
        shared-SysSafe _ s (drain-pending (length s.shared.closing) s.shared) v in
      let s1 = icmp_send out now (drive net out now s0) in
      let v1 = send-SysSafe now (drive net out now s0) (drive-SysSafe now s0 v0) in
      slots-SysSafe net out 0 max_ext_sockets _
        (ports-SysSafe safe fuel now 0 4 _ (groups-SysSafe now s1.shared.hunt_groups s1 v1))
