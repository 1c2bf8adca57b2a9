-- ===== src/Mux.antt =====
-- The external sockets of the multiplex interface: MUX_SOCK_* of `int2f_handler` in src/int8.c. A
-- caller's CX, DX and bytes at ES:BX are arguments; the result goes to `mux_sock_result`.
pub mod Names
pub mod Ports
pub mod Dispatch
pub mod Safe
pub mod Closing
mod Tests
use vmodem.Prelude.{
  ℕ, zero, suc, ◌+◌, ◌%◌, Bool, true, false, not, ◌&&◌, Option, none, some, List, [], ◌∷◌, ltb,
  if◌then◌else◌, length, get_or, set, take, drop, ◌++◌, pos_part, min,
}
use vmodem.Mtcp.{Mtcp}
use vmodem.Mtcp.Outgoing.{Outgoing}
use vmodem.System.{
  ExtState, ext_free, ext_connecting, ext_established, ext_remote_closed, ext_error, ext_closing,
  ExtSocket, System, ext_code, no_ext, sys_world, with_sys_world, answer,
}

abbrev pub max_ext_sockets : ℕ
max_ext_sockets = 4

-- `state == EXT_SOCK_FREE && sock == NULL`
unfoldable pub is_vacant : ExtSocket → Bool
is_vacant e = elim (e.sock) [
  | some s ↦ false
  | none ↦ elim (e.state) [ ext_free ↦ true | _ ↦ false ]
]

-- The first such element, from index `j` on.
unfoldable pub first_vacant : ℕ → List ExtSocket → Option ℕ
unfolding is_vacant
first_vacant j [] = none
first_vacant j (e ∷ es) = if is_vacant e then some j else first_vacant (j + 1) es

-- `ext_sockets[h]`, of which the code reads only what is there
abbrev pub slot : ℕ → List ExtSocket → ExtSocket
slot h es = get_or es h no_ext

-- The socket of a handle: `none` where the handle is out of range or its socket is NULL.
unfoldable pub handle_sock : ℕ → List ExtSocket → Option ℕ
handle_sock h es = if ltb h max_ext_sockets then (slot h es).sock else none

abbrev pub is_established : ExtState → Bool
is_established ext_established = true
is_established ext_free = false
is_established ext_connecting = false
is_established ext_remote_closed = false
is_established ext_error = false
is_established ext_closing = false

module _ {W : Type 0} where
  abbrev pub with_slot : ℕ → ExtSocket → System W → System W
  with_slot h e s = record s { ext_sockets = set s.ext_sockets h e }

  unfoldable pub sock_connect : ℕ → ℕ → List ℕ → System W → System W
  unfolding handle_sock
  sock_connect cx dx buf s =
      let h = cx % 256 in
      elim (handle_sock h s.ext_sockets) [
        | none ↦ answer 0xff s
        | some n ↦ answer 0 (
            with_slot h
              (record (slot h s.ext_sockets) {
                conn_ip = get_or buf 0 0 ∷ get_or buf 1 0 ∷ get_or buf 2 0 ∷ get_or buf 3 0 ∷ [];
                conn_port = dx;
                pending_connect = true;
                state = ext_connecting;
              })
              s)
      ]

  -- The close itself is left to the poll cycle.
  unfoldable pub sock_close : ℕ → System W → System W
  unfolding handle_sock
  sock_close cx s =
      let h = cx % 256 in
      elim (handle_sock h s.ext_sockets) [
        | none ↦ answer 0 s
        | some n ↦ answer 0 (with_slot h (record (slot h s.ext_sockets) { state = ext_closing }) s)
      ]

module _ {W : Type 0} (net : Mtcp W) (out : Outgoing W) where
  -- A socket for the slot `j`.
  unfoldable pub alloc_at : ℕ → System W → System W
  alloc_at j s =
      let (ns, w) = net.get_socket (sys_world s) in
      elim ns [
        | none ↦ answer 0xff (with_sys_world w s)
        | some n ↦
            let (done, w1) = out.set_recv_buffer n 4096 w in
            if done
            then answer j (
                with_slot j (record (slot j s.ext_sockets) { sock = some n; state = ext_free })
                  (with_sys_world w1 s))
            else answer 0xff (with_sys_world (net.free_socket n w1) s)
      ]

  unfoldable pub sock_alloc : System W → System W
  unfolding first_vacant alloc_at
  sock_alloc s = elim (first_vacant 0 s.ext_sockets) [
    | none ↦ answer 0xff s
    | some j ↦ alloc_at j s
  ]

  -- What MUX_SOCK_STATUS makes of a socket `n` whose state is `old`.
  unfoldable pub status_of : ℕ → ExtState → W → ExtState
  status_of n old w =
      let st =
        if out.is_connect_complete n w
        then ext_established
        else if net.is_closed n w
        then ext_error
        else old in
      if is_established st && net.is_remote_closed n w && not (net.recv_waiting n w)
      then ext_remote_closed
      else st

  unfoldable pub sock_status : ℕ → System W → System W
  unfolding handle_sock status_of
  sock_status cx s =
      let h = cx % 256 in
      elim (handle_sock h s.ext_sockets) [
        | none ↦ answer (ext_code ext_error) s
        | some n ↦
            let e = slot h s.ext_sockets in
            let st = status_of n e.state (sys_world s) in
            answer (ext_code st) (with_slot h (record e { state = st }) s)
      ]

  -- At most 256 bytes of the caller's, and only on an established connection.
  unfoldable pub sock_send : ℕ → ℕ → List ℕ → System W → System W
  unfolding handle_sock
  sock_send cx dx buf s =
      let h = cx % 256 in
      elim (handle_sock h s.ext_sockets) [
        | none ↦ answer 0 s
        | some n ↦
            let (rc, w) = net.send n (take (min dx 256) buf) (sys_world s) in
            if is_established (slot h s.ext_sockets).state
            then answer (pos_part rc) (with_sys_world w s)
            else answer 0 s
      ]

  -- The caller's buffer after the call, and the state.
  unfoldable pub sock_recv : ℕ → ℕ → List ℕ → System W → List ℕ × System W
  unfolding handle_sock
  sock_recv cx dx buf s =
      let h = cx % 256 in
      elim (handle_sock h s.ext_sockets) [
        | none ↦ (buf, answer 0 s)
        | some n ↦
            let (bs, w) = net.recv n (min dx 256) (sys_world s) in
            if net.recv_waiting n (sys_world s)
            then (bs ++ drop (length bs) buf, answer (length bs) (with_sys_world w s))
            else (buf, answer 0 s)
      ]

  unfoldable pub sock_recv_ready : ℕ → System W → System W
  unfolding handle_sock
  sock_recv_ready cx s = elim (handle_sock (cx % 256) s.ext_sockets) [
    | none ↦ answer 0 s
    | some n ↦ answer (if net.recv_waiting n (sys_world s) then 1 else 0) s
  ]
