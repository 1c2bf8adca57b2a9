-- ===== src/Cycle/External.antt =====
-- Step 3 of `do_mtcp_poll` (src/poll.c): the external sockets.
use vmodem.Prelude.{ℕ, zero, suc, ◌+◌, false, not, ◌&&◌, none, some, ltb, if◌then◌else◌}
use vmodem.Mtcp.{Mtcp}
use vmodem.Mtcp.Outgoing.{Outgoing}
use vmodem.Net.{sock_close_fast}
use vmodem.System.{
  ExtState, ext_free, ext_connecting, ext_established, ext_remote_closed, ext_error, ext_closing,
  System, sys_world, with_sys_world,
}
use vmodem.Mux.{slot, with_slot, max_ext_sockets}

-- `if (++ephemeral_port > 32000) ephemeral_port = 16384`
unfoldable pub next_port : ℕ → ℕ
next_port p = if ltb 32000 (p + 1) then 16384 else p + 1

module _ {W : Type 0} (net : Mtcp W) (out : Outgoing W) where
  -- The deferred connect of the socket `n` in the slot `h`.
  unfoldable pub deferred_connect : ℕ → ℕ → System W → System W
  unfolding next_port
  deferred_connect h n s =
      let e = slot h s.ext_sockets in
      let p = next_port s.ephemeral_port in
      let (done, w) = out.connect_nonblocking n p e.conn_ip e.conn_port (sys_world s) in
      if e.pending_connect
      then with_slot h
          (record e { pending_connect = false; state = if done then e.state else ext_error })
          (with_sys_world w (record s { ephemeral_port = p }))
      else s

  -- The state that the socket has reached.
  unfoldable pub tracked : ℕ → ExtState → W → ExtState
  tracked n ext_connecting w =
      if out.is_connect_complete n w
      then ext_established
      else if net.is_closed n w
      then ext_error
      else ext_connecting
  tracked n ext_established w =
      if net.is_closed n w
      then ext_error
      else if net.is_remote_closed n w && not (net.recv_waiting n w)
      then ext_remote_closed
      else ext_established
  tracked n ext_free w = ext_free
  tracked n ext_remote_closed w = ext_remote_closed
  tracked n ext_error w = ext_error
  tracked n ext_closing w = ext_closing

  -- The deferred close, or the new state.
  unfoldable pub close_or_track : ℕ → ℕ → System W → System W
  unfolding tracked
  close_or_track h n s =
      let e = slot h s.ext_sockets in
      let s' = with_slot h (record e { state = tracked n e.state (sys_world s) }) s in
      elim (e.state) [
        | ext_closing ↦
            with_slot h (record e { sock = none; state = ext_free })
              (record s { shared = sock_close_fast net n s.shared })
        | _ ↦ s'
      ]

  unfoldable pub service_slot : ℕ → System W → System W
  unfolding deferred_connect close_or_track
  service_slot h s = elim ((slot h s.ext_sockets).sock) [
    | none ↦ s
    | some n ↦ close_or_track h n (deferred_connect h n s)
  ]

  -- The slots from `h` on, `k` of them.
  unfoldable pub service_slots : ℕ → ℕ → System W → System W
  unfolding service_slot
  service_slots h zero s = s
  service_slots h (suc k) s = service_slots (h + 1) k (service_slot h s)

  unfoldable pub service_external : System W → System W
  unfolding service_slots
  service_external s = service_slots 0 max_ext_sockets s
