-- ===== src/Fossil/Fresh.antt =====
-- What AH=04h leaves: a port that starts afresh.
use vmodem.Prelude.{ℕ, ◌≡◌, arith, true, false, not, ◌&&◌, none, [], ap, ap₂, ◌∙◌, if◌then◌else◌}
use vmodem.Mtcp.{Mtcp}
use vmodem.Net.{close_call, telnet_send_text, sock_close_fast, idle_mode}
use vmodem.At.{at_init, at_set_ringing_silent}
use vmodem.Ring.{ring_init, txring_init, ring_bits, tx_ring_bits}
use vmodem.Ring.Refine.{contents}
use vmodem.Port.{Ctx, with_port}
use vmodem.Tx.{is_owner, fossil_clear_tx}
use vmodem.Fossil.{has_call}
use vmodem.Fossil.Init.{is_stale, init_driver, start_listen, reset_at, reset_line, close_stale}

module _ {W : Type 0} (net : Mtcp W) where
  -- The listening sockets do not touch what is asked for here.
  start_listen-frame :
      (c : Ctx W)
      → let c' = start_listen net c in
        (c'.line.port.rx ≡ c.line.port.rx)
        × (c'.line.port.sock ≡ c.line.port.sock)
        × (c'.line.port.pending_close ≡ c.line.port.pending_close)
        × (c'.line.at ≡ c.line.at)
        × (c'.line.tx ≡ c.line.tx)
        × (c'.line.fossil_init ≡ c.line.fossil_init)
        × (c'.line.purge_seen ≡ c.line.purge_seen)
        × (c'.shared.pending ≡ c.shared.pending)
  unfolding start_listen vmodem.Fossil.Init.listen_hunt vmodem.Fossil.Init.listen_alone
      vmodem.Fossil.Init.new_listener
  start_listen-frame c = ground arith

  close_stale-frame :
      (i : ℕ) (c : Ctx W)
      → let c' = close_stale net i c in
        (c'.line.port.rx ≡ c.line.port.rx)
        × (c'.line.tx ≡ c.line.tx)
        × (c'.line.at ≡ c.line.at)
        × (c'.shared.pending ≡ c.shared.pending)
        × (c'.line.port.pending_close ≡ 0)
        × (c'.line.port.sock ≡ (if is_stale c then none else c.line.port.sock))
        × (has_call c' ≡ has_call c && not (is_stale c))
  unfolding close_stale close_call telnet_send_text sock_close_fast idle_mode
  close_stale-frame i c = ground arith

  reset-frame :
      (now : ℕ) (c : Ctx W)
      → c.line.port.pending_close ≡ 0
      → let c' = reset_at now (reset_line now c) in
        (c'.line.port.rx ≡ c.line.port.rx)
        × (c'.line.port.sock ≡ c.line.port.sock)
        × (c'.line.port.pending_close ≡ 0)
        × (c'.line.tx ≡ c.line.tx)
        × (c'.shared.pending ≡ c.shared.pending)
        × (c'.line.fossil_init ≡ true)
        × (c'.line.purge_seen ≡ 0)
        × (c'.line.at.ringing ≡ c.line.at.ringing && has_call c)
        × (c'.line.at.connect_pending ≡ false)
  unfolding reset_at reset_line at_init at_set_ringing_silent
  reset-frame now c e = ground arith

  clear_tx-frame :
      (i : ℕ) (c : Ctx W)
      → let c' = fossil_clear_tx i (with_port (λ p. record p { rx = ring_init p.rx }) c) in
        (contents ring_bits c'.line.port.rx ≡ [])
        × (contents tx_ring_bits c'.line.tx ≡ [])
        × (is_owner c'.shared.pending.owner i ≡ false)
        × (c'.line.port.sock ≡ c.line.port.sock)
        × (c'.line.at ≡ c.line.at)
        × (has_call c' ≡ has_call c)
        × (is_stale c' ≡ is_stale c)
  unfolding fossil_clear_tx ring_init txring_init
  clear_tx-frame i c = ground arith

  -- AH=04h: both rings are empty and nothing of the port is pending; the driver is initialised, no
  -- purge is noted, no close is pending and no CONNECT is due. An old connection (one to be closed,
  -- or whose carrier a purge has dropped) has lost its socket; another keeps it, and its call rings
  -- afterwards exactly if it rang before and is still up.
  pub init_driver_lem :
      (i now : ℕ) (c : Ctx W)
      → let c' = init_driver net i now c in
        (contents ring_bits c'.line.port.rx ≡ [])
        × (contents tx_ring_bits c'.line.tx ≡ [])
        × (is_owner c'.shared.pending.owner i ≡ false)
        × (c'.line.fossil_init ≡ true)
        × (c'.line.purge_seen ≡ 0)
        × (c'.line.port.pending_close ≡ 0)
        × (c'.line.port.sock ≡ (if is_stale c then none else c.line.port.sock))
        × (c'.line.at.ringing ≡ c.line.at.ringing && (has_call c && not (is_stale c)))
        × (c'.line.at.connect_pending ≡ false)
  unfolding init_driver
  init_driver_lem i now c =
      let c1 = fossil_clear_tx i (with_port (λ p. record p { rx = ring_init p.rx }) c) in
      let c2 = close_stale net i c1 in
      let c3 = reset_at now (reset_line now c2) in
      let a = clear_tx-frame i c in
      let b = close_stale-frame i c1 in
      let r = reset-frame now c2 b.4 in
      let s = start_listen-frame c3 in
      (
        ap (contents ring_bits) (s.0 ∙ r.0 ∙ b.0) ∙ a.0,
        ap (contents tx_ring_bits) (s.4 ∙ r.3 ∙ b.1) ∙ a.1,
        ap (λ p. is_owner p.owner i) (s.7 ∙ r.4 ∙ b.3) ∙ a.2,
        s.5 ∙ r.5,
        s.6 ∙ r.6,
        s.2 ∙ r.2,
        s.1 ∙ r.1 ∙ b.5 ∙ ap₂ (λ t k. if t then none else k) a.6 a.3,
        ap (λ t. t.ringing) s.3
            ∙ r.7
            ∙ ap₂ (λ t u. t && u) (ap (λ t. t.ringing) (b.2 ∙ a.4))
                (b.6 ∙ ap₂ (λ t u. t && not u) a.5 a.6),
        ap (λ t. t.connect_pending) s.3 ∙ r.8,
      )
