-- ===== src/Mux/Safe.antt =====
-- Every call of the multiplex interface (src/int8.c, src/vmodem.c) keeps the state well formed.
use vmodem.Prelude.{
  ℕ, zero, suc, ◌+◌, ◌%◌, ◌≡◌, refl, Bool, Bool-cases, true, false, some, Option-cases, inl, inr,
  List, arith, if◌then◌else◌,
}
use vmodem.Mtcp.{Mtcp}
use vmodem.Mtcp.Outgoing.{Outgoing}
use vmodem.Ring.{ring_init}
use vmodem.Ring.Inv.{reset-IsValid}
use vmodem.Port.{Ctx, with_port}
use vmodem.Net.{cmd_disconnect}
use vmodem.At.Input.Bounds.{IsSafe}
use vmodem.System.{ExtSocket, System, answer, sys_world, with_sys_world}
use vmodem.Cycle.{on_line}
use vmodem.Cycle.Safe.{SysSafe, some-SlotValid, with_slot-SysSafe, on_line-SysSafe}
use vmodem.Cycle.Whole.{do_mtcp_poll-SysSafe}
use vmodem.Control.{
  cmd_listen, listen_port, hunt_port, cmd_disconnect_port, join_ports, cmd_hunt_listen, open_group,
  free_group, has_bit, max_ports,
}
use vmodem.Mux.{
  slot, with_slot, handle_sock, first_vacant, alloc_at, sock_alloc, sock_connect, sock_status,
  sock_send, sock_recv, sock_close, sock_recv_ready,
}
use vmodem.Mux.Names.{sock_resolve, sock_resolve_result, look_up, dns_flush}
use vmodem.Mux.Ports.{icmp_request, icmp_poll, icmp_fetch}
use vmodem.Mux.Dispatch.{poll_guarded, mux_command, mux_func, int2f_handler, MuxRegs}

handle_slot :
    (h : ℕ) (es : List ExtSocket) {n : ℕ} → handle_sock h es ≡ some n → (slot h es).sock ≡ some n
unfolding handle_sock
handle_slot h es e = ground arith

module _ {W : Type 0} where
  listen-IsSafe :
      (tcp_port : ℕ) (c : Ctx W) → IsSafe c → IsSafe (with_port (listen_port tcp_port) c)
  unfolding listen_port ring_init cmd_disconnect
  listen-IsSafe tcp_port c v = ground (arith, reset-IsValid v.rx_valid)

  hunt-IsSafe :
      (g tcp_port : ℕ) (c : Ctx W) → IsSafe c → IsSafe (with_port (hunt_port g tcp_port) c)
  unfolding hunt_port ring_init
  hunt-IsSafe g tcp_port c v = ground (arith, reset-IsValid v.rx_valid)

  disconnect-IsSafe : (c : Ctx W) → IsSafe c → IsSafe (with_port cmd_disconnect c)
  unfolding cmd_disconnect
  disconnect-IsSafe c v = ground arith

  cmd_listen-SysSafe : (i p : ℕ) (s : System W) → SysSafe s → SysSafe (cmd_listen i p s)
  unfolding cmd_listen
  cmd_listen-SysSafe i p s v =
      ground (arith, v, on_line-SysSafe i (with_port (listen_port p)) s (listen-IsSafe p) v)

  cmd_disconnect-SysSafe : (i : ℕ) (s : System W) → SysSafe s → SysSafe (cmd_disconnect_port i s)
  unfolding cmd_disconnect_port
  cmd_disconnect-SysSafe i s v =
      ground (arith, v, on_line-SysSafe i (with_port cmd_disconnect) s disconnect-IsSafe v)

  join_ports-SysSafe :
      (g mask p j n : ℕ) (s : System W) → SysSafe s → SysSafe (join_ports g mask p j n s)
  unfolding join_ports
  join_ports-SysSafe g mask p j zero s v = v
  join_ports-SysSafe g mask p j (suc n) s v =
      let w = on_line-SysSafe j (with_port (hunt_port g p)) s (hunt-IsSafe g p) v in
      let s' = if has_bit mask j then on_line j (with_port (hunt_port g p)) s else s in
      let v' : SysSafe s' = elim (Bool-cases (has_bit mask j)) [
        | inl e ↦ rw e w
        | inr e ↦ rw e v
      ] in
      join_ports-SysSafe g mask p (j + 1) n s' v'

  open_group-SysSafe : (g mask p : ℕ) (s : System W) → SysSafe s → SysSafe (open_group g mask p s)
  unfolding open_group
  open_group-SysSafe g mask p s v = ground (arith, v)

  cmd_hunt-SysSafe : (mask p : ℕ) (s : System W) → SysSafe s → SysSafe (cmd_hunt_listen mask p s)
  unfolding cmd_hunt_listen
  cmd_hunt-SysSafe mask p s v = elim (Option-cases (free_group 0 s.shared.hunt_groups)) [
    | inl e ↦ rw (e, cmd_hunt_listen) v
    | inr (g, e) ↦
        rw (e, cmd_hunt_listen)
          (join_ports-SysSafe g mask p 0 max_ports (open_group g mask p s)
            (open_group-SysSafe g mask p s v))
  ]

  -- What is not part of the invariant.
  answer-SysSafe : (r : ℕ) (s : System W) → SysSafe s → SysSafe (answer r s)
  answer-SysSafe r s v = ground (arith, v)

  world-SysSafe : (w : W) (s : System W) → SysSafe s → SysSafe (with_sys_world w s)
  world-SysSafe w s v = ground (arith, v)

  -- A slot that has a socket gets another state.
  slot-SysSafe :
      (r h n : ℕ) (e : ExtSocket) (s : System W)
      → e.sock ≡ some n
      → SysSafe s
      → SysSafe (answer r (with_slot h e s))
  slot-SysSafe r h n e s z v = answer-SysSafe r _ (with_slot-SysSafe h e s (some-SlotValid n e z) v)

  connect-SysSafe :
      (cx dx : ℕ) (buf : List ℕ) (s : System W) → SysSafe s → SysSafe (sock_connect cx dx buf s)
  unfolding sock_connect
  connect-SysSafe cx dx buf s v = elim (Option-cases (handle_sock (cx % 256) s.ext_sockets)) [
    | inl e ↦ rw (e, sock_connect) (answer-SysSafe 0xff s v)
    | inr (n, e) ↦
        rw (e, sock_connect) (slot-SysSafe 0 (cx % 256) n _ s (handle_slot _ s.ext_sockets e) v)
  ]

  close-SysSafe : (cx : ℕ) (s : System W) → SysSafe s → SysSafe (sock_close cx s)
  unfolding sock_close
  close-SysSafe cx s v = elim (Option-cases (handle_sock (cx % 256) s.ext_sockets)) [
    | inl e ↦ rw (e, sock_close) (answer-SysSafe 0 s v)
    | inr (n, e) ↦
        rw (e, sock_close) (slot-SysSafe 0 (cx % 256) n _ s (handle_slot _ s.ext_sockets e) v)
  ]

module _ {W : Type 0} (net : Mtcp W) (out : Outgoing W) where
  alloc_at-SysSafe : (j : ℕ) (s : System W) → SysSafe s → SysSafe (alloc_at net out j s)
  unfolding alloc_at
  alloc_at-SysSafe j s v =
      let (ns, w) = net.get_socket (sys_world s) in
      elim (Option-cases (net.get_socket (sys_world s)).0) [
        | inl e ↦ rw (e, alloc_at) (ground (arith, v))
        | inr (n, e) ↦ elim (Bool-cases (out.set_recv_buffer n 4096 w).0) [
          | inl b ↦
              rw (e, alloc_at, b)
                (slot-SysSafe j j n _ (with_sys_world (out.set_recv_buffer n 4096 w).1 s) refl
                  (world-SysSafe _ s v))
          | inr b ↦ rw (e, alloc_at, b) (ground (arith, v))
        ]
      ]

  alloc-SysSafe : (s : System W) → SysSafe s → SysSafe (sock_alloc net out s)
  unfolding sock_alloc
  alloc-SysSafe s v = elim (Option-cases (first_vacant 0 s.ext_sockets)) [
    | inl e ↦ rw (e, sock_alloc) (answer-SysSafe 0xff s v)
    | inr (j, e) ↦ rw (e, sock_alloc) (alloc_at-SysSafe j s v)
  ]

  status-SysSafe : (cx : ℕ) (s : System W) → SysSafe s → SysSafe (sock_status net out cx s)
  unfolding sock_status
  status-SysSafe cx s v = elim (Option-cases (handle_sock (cx % 256) s.ext_sockets)) [
    | inl e ↦ rw (e, sock_status) (answer-SysSafe 4 s v)
    | inr (n, e) ↦
        rw (e, sock_status)
          (slot-SysSafe _ (cx % 256) n _ s (handle_slot (cx % 256) s.ext_sockets e) v)
  ]

  send-SysSafe :
      (cx dx : ℕ) (buf : List ℕ) (s : System W)
      → SysSafe s
      → SysSafe (sock_send net out cx dx buf s)
  unfolding sock_send
  send-SysSafe cx dx buf s v = ground (arith, v)

  recv-SysSafe :
      (cx dx : ℕ) (buf : List ℕ) (s : System W)
      → SysSafe s
      → SysSafe (sock_recv net out cx dx buf s).1
  unfolding sock_recv
  recv-SysSafe cx dx buf s v = ground (arith, v)

  ready-SysSafe : (cx : ℕ) (s : System W) → SysSafe s → SysSafe (sock_recv_ready net out cx s)
  unfolding sock_recv_ready
  ready-SysSafe cx s v = ground (arith, v)

  resolve-SysSafe : (buf : List ℕ) (s : System W) → SysSafe s → SysSafe (sock_resolve out buf s)
  unfolding sock_resolve
  resolve-SysSafe buf s v = ground (arith, v)

  result-SysSafe :
      (buf : List ℕ) (s : System W) → SysSafe s → SysSafe (sock_resolve_result out buf s).1
  unfolding sock_resolve_result look_up
  result-SysSafe buf s v = ground (arith, v)

  poll-SysSafe :
      (safe : Bool) (fuel now : ℕ) (s : System W)
      → SysSafe s
      → SysSafe (poll_guarded net out safe fuel now s)
  unfolding poll_guarded
  poll-SysSafe safe fuel now s v =
      let s1 = record s { shared = record (s.shared) { busy = true } } in
      let v1 : SysSafe s1 = ground (arith, v) in
      ground (arith, v, do_mtcp_poll-SysSafe net out safe fuel now s1 v1)

  command-SysSafe :
      (func fuel now : ℕ) (r : MuxRegs) (s : System W)
      → SysSafe s
      → SysSafe (mux_command net out func fuel now r s)
  unfolding mux_command dns_flush icmp_request icmp_poll
  command-SysSafe func fuel now r s v = ground (
    arith,
    v,
    cmd_listen-SysSafe r.cx r.dx s v,
    cmd_disconnect-SysSafe r.cx s v,
    poll-SysSafe false fuel now s v,
    cmd_hunt-SysSafe (r.cx % 256) r.dx s v,
    alloc-SysSafe s v,
    connect-SysSafe r.cx r.dx r.buffer s v,
    status-SysSafe r.cx s v,
    send-SysSafe r.cx r.dx r.buffer s v,
    close-SysSafe r.cx s v,
    resolve-SysSafe r.buffer s v,
    ready-SysSafe r.cx s v,
  )

  -- Every call of INT 2Fh keeps the state well formed, whatever its function and its registers and
  -- whatever the network does: the bounds of each line and of the pending buffer hold, there are four
  -- slots for external sockets, a slot without a socket is free and has nothing to connect, and the
  -- next local port is in its range.
  pub int2f_handler-SysSafe :
      (fuel now : ℕ) (r : MuxRegs) (s : System W)
      → SysSafe s
      → SysSafe (int2f_handler net out fuel now r s).1
  unfolding int2f_handler mux_func icmp_fetch
  int2f_handler-SysSafe fuel now r s v = ground (
    arith,
    v,
    recv-SysSafe r.cx r.dx r.buffer s v,
    result-SysSafe r.buffer s v,
    command-SysSafe (r.ax % 256) fuel now r s v,
  )
