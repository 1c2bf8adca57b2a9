-- ===== src/At/Rings.antt =====
-- An incoming call over time: when `at_check_ring` answers it, and when it gives up.
pub mod Bounds
use vmodem.Prelude.{
  codes, if◌then◌else◌, ℕ, ◌+◌, ◌≤◌, ◌<◌, ◌≡◌, ◌⊎◌, ◌∙◌, subst, sym, arith, true, false, none, List,
  [], ◌∷◌, length,
}
use native.Mathlib.Decide.{dec_lt}
use vmodem.Mtcp.{Mtcp}
use vmodem.Port.{AtState, Ctx}
use vmodem.Net.{ticks_since, idle_mode, close_call, telnet_send_text}
use vmodem.At.{ring_interval_ticks, deliver_connect, ring_timeout, ring_again, at_check_ring}

-- Times that are at least a ring interval apart, from `t` on.
abbrev pub Spaced : ℕ → List ℕ → Type 0
Spaced t [] = Unit {0}
Spaced t (now ∷ ts) = (ring_interval_ticks ≤ ticks_since t now) × Spaced now ts

-- The call rings, and nobody will answer it by itself: S0 is 0, or no application is there.
pub record IsUnanswered {W : Type 0} (c : Ctx W) : Type 0 where
  pub rings : c.line.at.ringing ≡ true
  pub no_connect : c.line.at.connect_pending ≡ false
  pub in_count : c.line.at.rings_sent ≤ 10
  pub no_answer : (c.line.at.s0 ≡ 0) ⊎ (c.line.fossil_init ≡ false)

-- The message of a call that is answered, in words or as a number.
abbrev connect_text : AtState → List ℕ
connect_text a = if a.verbose then codes "CONNECT 57600" else codes "1"

module _ {W : Type 0} (net : Mtcp W) (i : ℕ) where
  unfoldable pub check_all : List ℕ → Ctx W → Ctx W
  check_all [] c = c
  check_all (now ∷ ts) c = check_all ts (at_check_ring net i now c)

  -- A line that does not ring keeps its call: at most the CONNECT is delivered.
  check-quiet :
      (now : ℕ) (c : Ctx W)
      → c.line.at.ringing ≡ false
      → let c' = at_check_ring net i now c in
        (c'.line.at.ringing ≡ false)
        × (c'.line.port.sock ≡ c.line.port.sock)
        × (c'.line.port.mode ≡ c.line.port.mode)
        × (idle_mode c'.line.port ≡ idle_mode c.line.port)
        × (c.line.at.connect_pending ≡ false → c'.line.at.connect_pending ≡ false)
  unfolding at_check_ring deliver_connect telnet_send_text idle_mode
  check-quiet now c r = ground arith

  check_all-quiet :
      (ts : List ℕ) (c : Ctx W)
      → c.line.at.ringing ≡ false
      → let c' = check_all ts c in
        (c'.line.at.ringing ≡ false)
        × (c'.line.port.sock ≡ c.line.port.sock)
        × (c'.line.port.mode ≡ c.line.port.mode)
        × (idle_mode c'.line.port ≡ idle_mode c.line.port)
        × (c.line.at.connect_pending ≡ false → c'.line.at.connect_pending ≡ false)
  unfolding check_all
  check_all-quiet [] c r = ground arith
  check_all-quiet (now ∷ ts) c r =
      ground (arith, check-quiet now c r, check_all-quiet ts (at_check_ring net i now c))

  -- One more ring.
  check-rings :
      (now : ℕ) (c : Ctx W)
      → IsUnanswered c
      → ring_interval_ticks ≤ ticks_since c.line.at.ring_tick now
      → c.line.at.rings_sent < 10
      → let c' = at_check_ring net i now c in
        IsUnanswered c'
        × (c'.line.at.rings_sent ≡ c.line.at.rings_sent + 1)
        × (c'.line.at.ring_tick ≡ now)
  unfolding at_check_ring ring_again telnet_send_text
  check-rings now c v sp lt = ground arith

  -- The tenth ring was the last.
  check-timeout :
      (now : ℕ) (c : Ctx W)
      → IsUnanswered c
      → ring_interval_ticks ≤ ticks_since c.line.at.ring_tick now
      → c.line.at.rings_sent ≡ 10
      → at_check_ring net i now c ≡ ring_timeout net c
  unfolding at_check_ring
  check-timeout now c v sp e = ground arith

  timeout_lem :
      (c : Ctx W)
      → c.line.at.connect_pending ≡ false
      → let c' = ring_timeout net c in
        (c'.line.at.ringing ≡ false)
        × (c'.line.at.connect_pending ≡ false)
        × (c'.line.port.sock ≡ none)
        × (c'.line.port.mode ≡ idle_mode c'.line.port)
        × (c'.line.port.listen_sock ≡ c.line.port.listen_sock)
        × (c'.line.port.hunt_group_idx ≡ c.line.port.hunt_group_idx)
  unfolding ring_timeout close_call telnet_send_text idle_mode
  timeout_lem c e = ground arith

  -- A call that nobody answers ends: checked at times a ring interval apart, once for each ring up
  -- to the tenth and once more, it no longer rings, is not being connected, has no socket, and the
  -- port is listening again, or disconnected if it has nothing to listen with.
  pub check_all-gives_up :
      (ts : List ℕ) (c : Ctx W)
      → IsUnanswered c
      → Spaced c.line.at.ring_tick ts
      → 11 ≤ length ts + c.line.at.rings_sent
      → let c' = check_all ts c in
        (c'.line.at.ringing ≡ false)
        × (c'.line.at.connect_pending ≡ false)
        × (c'.line.port.sock ≡ none)
        × (c'.line.port.mode ≡ idle_mode c'.line.port)
  unfolding check_all
  check_all-gives_up [] c v sp n = absurd (omega (arith, v.in_count))
  check_all-gives_up (now ∷ ts) c v sp n = elim (dec_lt c.line.at.rings_sent 10) [
    | yes lt ↦
        let (v', count, tick) = check-rings now c v sp.0 lt in
        check_all-gives_up ts (at_check_ring net i now c) v'
          (subst (λ t. Spaced t ts) (sym tick) sp.1) (omega arith)
    | no ge ↦
        let d = ring_timeout net c in
        let out = timeout_lem c v.no_connect in
        let later = check_all-quiet ts d out.0 in
        rw (check_all, check-timeout now c v sp.0 (omega (arith, v.in_count)))
          (later.0, later.4 out.1, later.1 ∙ out.2, later.2 ∙ out.3 ∙ sym later.3)
  ]
