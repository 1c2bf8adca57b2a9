-- ===== src/Poll/Close.antt =====
-- How a call ends in the poll cycle.
use vmodem.Prelude.{
  ℕ, ◌<◌, ◌≡◌, refl, sym, ap, ◌∙◌, subst, arith, true, false, Bool, Bool-cases, inl, inr, none,
  some, Option, leb, codes, if◌then◌else◌,
}
use vmodem.Mtcp.{Mtcp}
use vmodem.Port.{PortMode, port_conn, port_listen, port_disc, Line, Shared, Ctx, with_port}
use vmodem.Net.{sock_close_fast, close_call, telnet_send_text, idle_mode}
use vmodem.At.{at_send_no_carrier, at_check_ring, deliver_connect}
use vmodem.Poll.{
  end_call, close_pending, reject_call, lost_call, run_call, serve_call, service_port,
}

-- The mode of a port without a call: it listens if it has a listening socket or is in a hunt group.
abbrev pub free_mode : Option ℕ → Option ℕ → PortMode
free_mode (some l) g = port_listen
free_mode none (some g) = port_listen
free_mode none none = port_disc

module _ {W : Type 0} (net : Mtcp W) where
  end_call_lem :
      (silent : Bool) (s : ℕ) (c : Ctx W)
      → c.line.port.sock ≡ some s
      → let c' = end_call net silent c in
        (c'.line.port.sock ≡ none)
        × (c'.line.port.pending_close ≡ c.line.port.pending_close)
        × (c'.line.port.mode ≡ free_mode c.line.port.listen_sock c.line.port.hunt_group_idx)
        × (c'.line.port.listen_sock ≡ c.line.port.listen_sock)
        × (c'.line.port.hunt_group_idx ≡ c.line.port.hunt_group_idx)
        × (c'.shared ≡ sock_close_fast net s c.shared)
  unfolding end_call close_call at_send_no_carrier idle_mode
  end_call_lem silent s c e = ground arith

  -- The state of a port after its call on the socket `s`, as far as the end of the call decides it.
  pub record Ended (s : ℕ) (listen group : Option ℕ) (c' : Ctx W) : Type 0 where
    pub no_sock : c'.line.port.sock ≡ none
    pub none_pending : c'.line.port.pending_close ≡ 0
    pub idle : c'.line.port.mode ≡ free_mode listen group
    pub same_listen : c'.line.port.listen_sock ≡ listen
    pub same_group : c'.line.port.hunt_group_idx ≡ group
    pub before : Shared W
    pub closed : c'.shared ≡ sock_close_fast net s before

  end_call-Ended :
      (silent : Bool) (s : ℕ) (c : Ctx W)
      → c.line.port.sock ≡ some s
      → c.line.port.pending_close ≡ 0
      → Ended s c.line.port.listen_sock c.line.port.hunt_group_idx (end_call net silent c)
  end_call-Ended silent s c e z =
      let (sock, pending, mode, listen, group, closed) = end_call_lem silent s c e in
      record {
        no_sock = sock;
        none_pending = pending ∙ z;
        idle = mode;
        same_listen = listen;
        same_group = group;
        before = c.shared;
        closed = closed;
      }

  close_pending-Ended :
      (s : ℕ) (c : Ctx W)
      → c.line.port.sock ≡ some s
      → Ended s c.line.port.listen_sock c.line.port.hunt_group_idx (close_pending net c)
  unfolding close_pending telnet_send_text
  close_pending-Ended s c e =
      let c1 = with_port (λ p. record p { pending_close = 0 }) c in
      let told = telnet_send_text net (codes "\r\nSession finished.\r\n") c1 in
      let after : Bool → Type 0 = λ b.
        Ended s c.line.port.listen_sock c.line.port.hunt_group_idx
          (end_call net b (if b then c1 else told)) in
      elim (Bool-cases (leb 2 c.line.port.pending_close)) [
        | inl t ↦ subst after (sym t) (end_call-Ended true s c1 e refl)
        | inr t ↦ subst after (sym t) (end_call-Ended false s told e refl)
      ]

  reject_call-line : (c : Ctx W) → (reject_call net c).line ≡ c.line
  unfolding reject_call
  reject_call-line c = ground arith

  -- What a ring check does to a call that does not ring.
  check_ring-port :
      (i now : ℕ) (c : Ctx W)
      → c.line.at.ringing ≡ false
      → let p = (at_check_ring net i now c).line.port in
        (p.sock ≡ c.line.port.sock)
        × (p.pending_close ≡ c.line.port.pending_close)
        × (p.listen_sock ≡ c.line.port.listen_sock)
        × (p.hunt_group_idx ≡ c.line.port.hunt_group_idx)
  unfolding at_check_ring deliver_connect telnet_send_text
  check_ring-port i now c r = ground arith

  run_call_lem :
      (i f now s : ℕ) (c : Ctx W)
      → 0 < c.line.port.pending_close
      → run_call net i true f now s c ≡ close_pending net c
  unfolding run_call
  run_call_lem i f now s c h = ground arith

  serve_call_lem :
      (i f now s : ℕ) (c : Ctx W)
      → (at_check_ring net i now (reject_call net c)).line.port.sock ≡ some s
      → serve_call net i true f now c
        ≡ run_call net i true f now s (at_check_ring net i now (reject_call net c))
  unfolding serve_call
  serve_call_lem i f now s c e =
      let c1 = at_check_ring net i now (reject_call net c) in
      ap
        (λ o. elim o as (λ _. Ctx W) [
          | none ↦ lost_call c1
          | some n ↦ run_call net i true f now n c1
        ])
        e

  service_port_lem :
      (i f now s : ℕ) (c : Ctx W)
      → c.line.port.initialized ≡ true
      → c.line.port.mode ≡ port_conn
      → c.line.port.sock ≡ some s
      → service_port net i true f now c ≡ serve_call net i true f now c
  unfolding service_port
  service_port_lem i f now s c u m e = ground arith

  -- A close that was asked for is done when a port in a call that does not ring is next served, if DOS
  -- may be called: the socket goes to `sock_close_fast`, the port has no socket and no close pending
  -- any more, keeps its listening socket and its hunt group, and listens again if it has one of these.
  pub service_port-Ended :
      (i f now s : ℕ) (c : Ctx W)
      → c.line.port.initialized ≡ true
      → c.line.port.mode ≡ port_conn
      → c.line.port.sock ≡ some s
      → 0 < c.line.port.pending_close
      → c.line.at.ringing ≡ false
      → Ended s c.line.port.listen_sock c.line.port.hunt_group_idx (service_port net i true f now c)
  service_port-Ended i f now s c u m e h r =
      let c0 = reject_call net c in
      let same = reject_call-line c in
      let c1 = at_check_ring net i now c0 in
      let (sock, pending, listen, group) =
        check_ring-port i now c0 (ap (λ l. l.at.ringing) same ∙ r) in
      let open_sock : c1.line.port.sock ≡ some s = sock ∙ ap (λ l. l.port.sock) same ∙ e in
      let asked : 0 < c1.line.port.pending_close =
        omega (arith, pending, ap (λ (l : Line). l.port.pending_close) same) in
      let done : service_port net i true f now c ≡ close_pending net c1 =
        service_port_lem i f now s c u m e
        ∙ serve_call_lem i f now s c open_sock
        ∙ run_call_lem i f now s c1 asked in
      subst (Ended s c.line.port.listen_sock c.line.port.hunt_group_idx) (sym done) (
        subst (λ l. Ended s l c.line.port.hunt_group_idx (close_pending net c1))
          (listen ∙ ap (λ l. l.port.listen_sock) same)
          (subst (λ g. Ended s c1.line.port.listen_sock g (close_pending net c1))
            (group ∙ ap (λ l. l.port.hunt_group_idx) same) (close_pending-Ended s c1 open_sock)))
