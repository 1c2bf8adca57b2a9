-- ===== src/Vsocket/Midnight.antt =====
-- The deadline of `connect` in src/lib/vsocket.c and the BIOS clock, which starts again at midnight.
use vmodem.Prelude.{ℕ, zero, suc, ◌+◌, ◌*◌, ◌%◌, ◌^◌, ◌≤◌, ◌<◌, ◌≡◌, refl, none, some, List, arith}
use vmodem.Vsocket.Api.{MuxApi}
use vmodem.Vsocket.Bytes.{ntohs}
use vmodem.Vsocket.{Client, with_mux, fd_to_handle, connect_loop, connect}

-- The ticks of a day.
abbrev pub day : ℕ
day = 0x1800b0

-- The connection `h` stays in its making: from each of the states `Waits`, a round of the wait finds
-- MUX_SOCK_CONNECTING and leads to one of them.
pub record Stalls {V : Type 0} (api : MuxApi V) (h : ℕ) (Waits : V → Type 0) : Type 0 where
  pub connecting : (v : V) → Waits v → (api.status h (api.poll (api.idle v))).0 ≡ 1
  pub still : (v : V) → Waits v → Waits (api.status h (api.poll (api.idle v))).1

module _ {V : Type 0} (api : MuxApi V) (h : ℕ) {Waits : V → Type 0}
    (stalls : Stalls api h Waits) where
  loop-Waits :
      (fuel deadline : ℕ) (c : Client V)
      → Waits c.mux
      → ((v : V) → api.tick v < deadline)
      → connect_loop api fuel h deadline c ≡ none
  unfolding connect_loop
  loop-Waits zero deadline c w tk = refl
  loop-Waits (suc fuel) deadline c w tk =
      let v = api.poll (api.idle c.mux) in
      ground (
        arith,
        stalls.connecting c.mux w,
        tk (api.status h v).1,
        loop-Waits fuel deadline (with_mux (api.status h v).1 c) (stalls.still c.mux w) tk,
      )

  -- Where the deadline of `connect` falls behind midnight and the connection stays in its making from
  -- the call of MUX_SOCK_CONNECT on, `connect` never returns: the clock never reaches the deadline, so
  -- no number of rounds is enough.
  pub connect-midnight :
      (fuel fd port : ℕ) (ip : List ℕ) (c : Client V)
      → fd_to_handle fd c ≡ some h
      → (api.connect h ip (ntohs port) c.mux).0 ≡ 0
      → Waits (api.connect h ip (ntohs port) c.mux).1
      → ((v : V) → api.tick v < day)
      → day ≤ api.tick (api.connect h ip (ntohs port) c.mux).1 + c.connect_timeout * 18
      → api.tick (api.connect h ip (ntohs port) c.mux).1 + c.connect_timeout * 18 < 2 ^ 32
      → connect api fuel fd 2 port ip c ≡ none
  unfolding connect
  connect-midnight fuel fd port ip c e zero_result w tk late fits =
      let v = (api.connect h ip (ntohs port) c.mux).1 in
      let deadline = (api.tick v + c.connect_timeout * 18) % 2 ^ 32 in
      rw (e, connect)
        (ground (
          arith,
          zero_result,
          loop-Waits fuel deadline (with_mux v c) w (λ u. omega (arith, tk u, late, fits)),
        ))
