-- ===== src/Vsocket/Resident.antt =====
-- The resident program as the interface of the socket library: one external connection on an otherwise
-- idle machine, over a network whose `send` takes what it has room for.
use vmodem.Prelude.{
  Bool, ℕ, ◌+◌, ◌≡◌, ◌≤◌, refl, sym, ap, ◌∙◌, subst, length-take, take-take, arith, false, true,
  none, some, List, [], ◌∷◌, ◌++◌, length, take, min,
}
use vmodem.Mtcp.Sink.{World, quiet_world, taking}
use vmodem.Mtcp.Outgoing.{Outgoing}
use vmodem.Port.{PortMode, Line}
use vmodem.System.{System, ExtState, ext_free, ext_established, ext_connecting, no_ext}
use vmodem.System.Sample.{prompt, resident_system, listening_port, waiting}
use vmodem.Vsocket.Api.{MuxApi, ApiLaws, resident, call, call_result}
use vmodem.Mux.Dispatch.{int2f_handler, int28_handler, mux_func, mux_command, poll_guarded}
use vmodem.Vsocket.Midnight.{Stalls}
use vmodem.Mux.{sock_connect, sock_status, sock_send, handle_sock, status_of}
use vmodem.Cycle.{do_mtcp_poll, drain_closing, drive, service_groups, service_ports, on_line}
use vmodem.Cycle.Ping.{icmp_send, icmp_received}
use vmodem.Cycle.External.{
  next_port, tracked, service_external, service_slots, service_slot, deferred_connect,
  close_or_track,
}
use vmodem.Poll.{service_port}

abbrev idle_line : Line
idle_line = record waiting {
  port = record listening_port {
    mode = PortMode.port_disc;
    hunt_group_idx = none;
    initialized = false;
  };
}

-- The slot 0 has the socket 9 in the state `e`; `w` is the outside world and `r` the last result.
abbrev pub one_slot : ExtState → World → ℕ → System World
one_slot e w r = record resident_system {
  lines = idle_line ∷ idle_line ∷ idle_line ∷ idle_line ∷ [];
  shared = record (resident_system.shared) { world = w; hunt_groups = [] };
  ext_sockets = record no_ext { sock = some 9; state = e } ∷ no_ext ∷ no_ext ∷ no_ext ∷ [];
  mux_sock_result = r;
}

module _ (room : ℕ → ℕ) (fuel : ℕ) (clock : System World → ℕ) where
  abbrev pub api : MuxApi (System World)
  api = resident (taking room) prompt fuel clock

  abbrev pub up : World → ℕ → System World
  up w r = one_slot ext_established w r

  -- The connection stands.
  pub record IsUp (s : System World) : Type 0 where
    pub world : World
    pub result : ℕ
    pub is_up : s ≡ up world result

  pub up-IsUp : (w : World) (r : ℕ) → IsUp (up w r)
  up-IsUp w r = record { world = w; result = r; is_up = refl }

  -- What MUX_SOCK_SEND takes of `bs`.
  abbrev offer : List ℕ → List ℕ
  offer bs = take (min (length bs) 256) bs

  abbrev count : List ℕ → ℕ
  count bs = min (room (length (offer bs))) (length (offer bs))

  send_lem :
      (bs : List ℕ) (w : World) (r : ℕ)
      → api.send 0 bs (up w r) ≡ (
        count bs,
        up
            (record { sends = w.sends + 1; bytes = w.bytes ++ take (count bs) (offer bs) })
            (count bs),
      )
  unfolding resident call_result call int2f_handler mux_func mux_command sock_send handle_sock
  send_lem bs w r = refl

  status_lem : (w : World) (r : ℕ) → api.status 0 (up w r) ≡ (2, up w 2)
  unfolding resident call_result call int2f_handler mux_func mux_command sock_status handle_sock
      status_of
  status_lem w r = refl

  poll_lem : (w : World) (r : ℕ) → api.poll (up w r) ≡ up w r
  unfolding resident call int2f_handler mux_func mux_command poll_guarded do_mtcp_poll drain_closing
      drive service_groups service_ports on_line icmp_send icmp_received service_external
      service_port service_slots service_slot deferred_connect close_or_track
  poll_lem w r = refl

  idle_lem : (w : World) (r : ℕ) → api.idle (up w r) ≡ up w r
  unfolding resident int28_handler poll_guarded do_mtcp_poll drain_closing drive service_groups
      service_ports on_line icmp_send icmp_received service_external service_port service_slots
      service_slot deferred_connect close_or_track
  idle_lem w r = refl

  -- What a call does to the state that `one_slot` gives, it does to an equal one.
  along :
      {s : System World} (P : System World → Type 0) (v : IsUp s) → P (up v.world v.result) → P s
  along P v p = subst P (sym v.is_up) p

  -- The resident program obeys the laws.
  pub resident-ApiLaws : ApiLaws api IsUp 0 (λ s. s.shared.world.bytes)
  resident-ApiLaws = record {
    send-Up = λ bs s v.
        along (λ t. IsUp (api.send 0 bs t).1) v
          (subst (λ p. IsUp p.1) (sym (send_lem bs v.world v.result)) (up-IsUp _ _));
    status-Up = λ s v.
        along (λ t. IsUp (api.status 0 t).1) v
          (subst (λ p. IsUp p.1) (sym (status_lem v.world v.result)) (up-IsUp _ _));
    poll-Up = λ s v.
        along (λ t. IsUp (api.poll t)) v
          (subst IsUp (sym (poll_lem v.world v.result)) (up-IsUp _ _));
    idle-Up = λ s v.
        along (λ t. IsUp (api.idle t)) v
          (subst IsUp (sym (idle_lem v.world v.result)) (up-IsUp _ _));
    taken_le = λ bs s v.
        along (λ t. (api.send 0 bs t).0 ≤ length bs) v
          (subst (λ p. p.0 ≤ length bs) (sym (send_lem bs v.world v.result))
            (omega (arith, length-take (min (length bs) 256) bs)));
    stream-send = λ bs s v.
        along
          (λ t.
            (api.send 0 bs t).1.shared.world.bytes
            ≡ t.shared.world.bytes ++ take (api.send 0 bs t).0 bs)
          v
          (subst (λ p. p.1.shared.world.bytes ≡ v.world.bytes ++ take p.0 bs)
            (sym (send_lem bs v.world v.result))
            (ap (λ l. v.world.bytes ++ l)
              (take-take (count bs) (min (length bs) 256) bs
                (omega (arith, length-take (min (length bs) 256) bs)))));
    stream-status = λ s v.
        along (λ t. (api.status 0 t).1.shared.world.bytes ≡ t.shared.world.bytes) v
          (ap (λ p. p.1.shared.world.bytes) (status_lem v.world v.result));
    stream-poll = λ s v.
        along (λ t. (api.poll t).shared.world.bytes ≡ t.shared.world.bytes) v
          (ap (λ t. t.shared.world.bytes) (poll_lem v.world v.result));
    stream-idle = λ s v.
        along (λ t. (api.idle t).shared.world.bytes ≡ t.shared.world.bytes) v
          (ap (λ t. t.shared.world.bytes) (idle_lem v.world v.result));
  }

-- A connection that is never complete.
abbrev pub stalled : Outgoing World
stalled = record prompt { is_connect_complete = λ s w. false }

-- The resident program over it, a quarter of a minute before midnight.
abbrev pub late_api : MuxApi (System World)
late_api = resident (taking (λ n. n)) stalled 4 (λ s. 1572766)

-- A slot with a socket; and the slot with a connect to `address`, port 23, that is asked for (`pending`)
-- or begun.
abbrev pub with_socket : System World
with_socket = one_slot ext_free quiet_world 0

abbrev pub address : List ℕ
address = 10 ∷ 0 ∷ 0 ∷ 1 ∷ []

abbrev dialling : Bool → ℕ → ℕ → System World
dialling pending port r = record (one_slot ext_connecting quiet_world r) {
  ext_sockets =
      record {
        sock = some 9;
        state = ext_connecting;
        pending_connect = pending;
        conn_ip = address;
        conn_port = 23;
      }
      ∷ no_ext
      ∷ no_ext
      ∷ no_ext
      ∷ [];
  ephemeral_port = port;
}

abbrev dialled : System World
dialled = dialling true 16384 0

abbrev connecting : System World
connecting = dialling false 16385 1

connect_lem : late_api.connect 0 address 23 with_socket ≡ (0, dialled)
unfolding resident call_result call int2f_handler mux_func mux_command sock_connect handle_sock
connect_lem = refl

-- A round of the wait.
abbrev wait_round : System World → ℕ × System World
wait_round s = late_api.status 0 (late_api.poll (late_api.idle s))

idle_dialled : late_api.idle dialled ≡ dialling false 16385 0
unfolding resident call_result call int28_handler int2f_handler mux_func mux_command sock_connect
    sock_status handle_sock status_of poll_guarded do_mtcp_poll drain_closing drive service_groups
    service_ports on_line icmp_send icmp_received service_external service_port service_slots
    service_slot deferred_connect next_port tracked close_or_track
idle_dialled = refl

idle_connecting : (r : ℕ) → late_api.idle (dialling false 16385 r) ≡ dialling false 16385 r
unfolding resident call_result call int28_handler int2f_handler mux_func mux_command sock_connect
    sock_status handle_sock status_of poll_guarded do_mtcp_poll drain_closing drive service_groups
    service_ports on_line icmp_send icmp_received service_external service_port service_slots
    service_slot deferred_connect next_port tracked close_or_track
idle_connecting r = refl

poll_connecting : (r : ℕ) → late_api.poll (dialling false 16385 r) ≡ dialling false 16385 r
unfolding resident call_result call int28_handler int2f_handler mux_func mux_command sock_connect
    sock_status handle_sock status_of poll_guarded do_mtcp_poll drain_closing drive service_groups
    service_ports on_line icmp_send icmp_received service_external service_port service_slots
    service_slot deferred_connect next_port tracked close_or_track
poll_connecting r = refl

status_connecting : (r : ℕ) → late_api.status 0 (dialling false 16385 r) ≡ (1, connecting)
unfolding resident call_result call int2f_handler mux_func mux_command sock_status handle_sock
    status_of
status_connecting r = refl

round_lem :
    (s : System World) (r : ℕ)
    → late_api.idle s ≡ dialling false 16385 r
    → wait_round s ≡ (1, connecting)
round_lem s r e =
    ap (λ t. late_api.status 0 (late_api.poll t)) e
    ∙ ap (late_api.status 0) (poll_connecting r)
    ∙ status_connecting r

pub data Waits (s : System World) : Type 0 where
  asked : s ≡ dialled → Waits s
  made : s ≡ connecting → Waits s

pub asked-Waits : Waits (late_api.connect 0 address 23 with_socket).1
asked-Waits = asked (ap (λ p. p.1) connect_lem)

pub connect_zero : (late_api.connect 0 address 23 with_socket).0 ≡ 0
connect_zero = ap (λ p. p.0) connect_lem

Waits-round : (s : System World) → Waits s → wait_round s ≡ (1, connecting)
Waits-round s (asked e) = ap wait_round e ∙ round_lem dialled 0 idle_dialled
Waits-round s (made e) = ap wait_round e ∙ round_lem connecting 1 (idle_connecting 1)

pub late_api-Stalls : Stalls late_api 0 Waits
late_api-Stalls = record {
  connecting = λ s w. ap (λ p. p.0) (Waits-round s w);
  still = λ s w. made (ap (λ p. p.1) (Waits-round s w));
}

pub late_tick : (s : System World) → late_api.tick s ≡ 1572766
unfolding resident
late_tick s = refl
