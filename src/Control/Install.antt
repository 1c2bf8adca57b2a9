-- ===== src/Control/Install.antt =====
-- What `main` of src/vmodem.c does to the resident state: the port arguments, and the listening sockets
-- that are made in advance.
use vmodem.Prelude.{
  ℕ, zero, suc, ◌+◌, ◌-◌, ◌%◌, ◌^◌, bit_or, Bool, not, ◌&&◌, Option, none, some, List, [], ◌∷◌,
  ◌==◌, if◌then◌else◌, set,
}
use vmodem.Mtcp.{Mtcp}
use vmodem.Port.{port_listen, PortState, HuntGroup, Ctx, with_port, with_world}
use vmodem.Net.{is_open}
use vmodem.System.{System, sys_world, with_sys_world}
use vmodem.Cycle.{on_line}
use vmodem.Control.{cmd_listen, cmd_hunt_listen, has_bit, max_ports}
use vmodem.Control.Args.{PortArg}

-- `mask |= (1 << j)` for `n` ports from `j` on
unfoldable pub port_mask : ℕ → ℕ → ℕ → ℕ
port_mask mask j zero = mask
port_mask mask j (suc n) = port_mask (bit_or mask (2 ^ j) % 256) (j + 1) n

module _ {W : Type 0} where
  unfoldable pub apply_arg : PortArg → System W → System W
  unfolding port_mask
  apply_arg a s = elim (a.last_com) [
    | none ↦ cmd_listen a.first_com a.tcp_port s
    | some l ↦ cmd_hunt_listen (port_mask 0 a.first_com (l + 1 - a.first_com)) a.tcp_port s
  ]

  unfoldable pub apply_args : List PortArg → System W → System W
  unfolding apply_arg
  apply_args [] s = s
  apply_args (a ∷ as') s = apply_args as' (apply_arg a s)

module _ {W : Type 0} (net : Mtcp W) where
  -- A new socket that listens on the port.
  unfoldable pub make_listener : ℕ → W → Option ℕ × W
  make_listener tcp_port w =
      let (ls, w1) = net.get_socket w in
      elim ls [
        | none ↦ (none, w1)
        | some n ↦
            let (done, w2) = net.listen n tcp_port w1 in
            if done then (some n, w2) else (none, net.free_socket n w2)
      ]

  abbrev needs_listener : PortState → Bool
  needs_listener p =
      p.initialized
      && not (p.local_port == 0)
      && not (is_open p.listen_sock)
      && not (is_open p.hunt_group_idx)

  -- With /E the port listens at once.
  unfoldable pub listen_ahead : Bool → Ctx W → Ctx W
  unfolding make_listener
  listen_ahead eager c =
      let (ls, w) = make_listener c.line.port.local_port c.shared.world in
      if needs_listener c.line.port
      then elim ls [
        | none ↦ with_world (λ v. w) c
        | some n ↦
            with_port
              (λ p. record p { listen_sock = some n; mode = if eager then port_listen else p.mode })
              (with_world (λ v. w) c)
      ]
      else c

  unfoldable pub listen_ports : Bool → ℕ → ℕ → System W → System W
  unfolding listen_ahead on_line
  listen_ports eager j zero s = s
  listen_ports eager j (suc n) s = listen_ports eager (j + 1) n (on_line j (listen_ahead eager) s)

  -- The members of a group that listens, with /E.
  unfoldable pub open_members : ℕ → ℕ → ℕ → System W → System W
  unfolding on_line
  open_members mask j zero s = s
  open_members mask j (suc n) s =
      open_members mask (j + 1) n (
        if has_bit mask j
        then on_line j (with_port (λ p. record p { mode = port_listen })) s
        else s)

  unfoldable pub group_ahead : Bool → ℕ → HuntGroup → System W → System W
  unfolding make_listener open_members
  group_ahead eager i g s =
      let (ls, w) = make_listener g.tcp_port (sys_world s) in
      let s1 = with_sys_world w s in
      if g.active && not (is_open g.listen_sock)
      then elim ls [
        | none ↦ s1
        | some n ↦
            let s2 = record s1 {
              shared = record (s1.shared) {
                hunt_groups = set s1.shared.hunt_groups i (record g { listen_sock = some n });
              };
            } in
            if eager then open_members g.port_mask 0 max_ports s2 else s2
      ]
      else s

  unfoldable pub listen_groups : Bool → ℕ → List HuntGroup → System W → System W
  unfolding group_ahead
  listen_groups eager i [] s = s
  listen_groups eager i (g ∷ gs) s = listen_groups eager (i + 1) gs (group_ahead eager i g s)

  unfoldable pub install : Bool → List PortArg → System W → System W
  unfolding apply_args listen_ports listen_groups
  install eager port_args s =
      let s1 = listen_ports eager 0 max_ports (apply_args port_args s) in
      listen_groups eager 0 s1.shared.hunt_groups s1
