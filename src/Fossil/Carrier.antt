-- ===== src/Fossil/Carrier.antt =====
-- The carrier after a purge: AH=09h, then AH=03h again and again.
use vmodem.Prelude.{ℕ, zero, suc, ◌<◌, ◌≡◌, true, false}
use vmodem.Mtcp.{Mtcp}
use vmodem.Port.{Ctx}
use vmodem.Net.{ticks_since}
use vmodem.Fossil.{has_call, dtr_ignored, request_status}

-- An answered call whose port does not ignore DTR, with `m` polls counted since a purge (from 1).
pub record Counted {W : Type 0} (i m : ℕ) (c : Ctx W) : Type 0 where
  pub seen : c.line.purge_seen ≡ m
  pub call : has_call c ≡ true
  pub answered : c.line.at.connect_pending ≡ false
  pub silent : c.line.at.ringing ≡ false
  pub heeds_dtr : dtr_ignored i c ≡ false

module _ {W : Type 0} (net : Mtcp W) (i : ℕ) (now : ℕ) where
  -- AH=03h while nothing happens on the network; AX and the state.
  abbrev pub ask : Ctx W → ℕ × Ctx W
  ask c = request_status net i (λ d. d) now c

  -- The state after so many of them.
  unfoldable pub asks : ℕ → Ctx W → Ctx W
  asks zero c = c
  asks (suc n) c = asks n (ask c).1

  -- A call that is up for more than ten seconds, answered, and whose port does not ignore DTR.
  pub record IsLongUp (c : Ctx W) : Type 0 where
    pub call : has_call c ≡ true
    pub answered : c.line.at.connect_pending ≡ false
    pub silent : c.line.at.ringing ≡ false
    pub heeds_dtr : dtr_ignored i c ≡ false
    pub few_polls : c.line.purge_seen < 3
    pub long_up : 182 < ticks_since c.line.port.conn_tick now
