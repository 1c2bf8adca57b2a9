-- ===== src/Fossil/Calls.antt =====
-- Every call of INT 14h keeps the bounds of `IsSafe`: the dispatcher.
use vmodem.Prelude.{ℕ, ◌≡◌, arith, some, take, ◌%◌}
use vmodem.Mtcp.{Mtcp}
use vmodem.Port.{Ctx}
use vmodem.At.Input.Bounds.{IsSafe}
use vmodem.Fossil.{set_flow}
use vmodem.Fossil.Dispatch.{Regs, Clock, port_of, int14_wide, int14_func, int14}
use vmodem.Fossil.Safe.{
  flush-IsSafe, purge_output-IsSafe, purge_input-IsSafe, status-IsSafe, set_dtr-IsSafe,
  transmit-IsSafe, no_wait-IsSafe, block_write-IsSafe, init-IsSafe, deinit-IsSafe, receive-IsSafe,
  request_status-IsSafe, block_read-IsSafe,
}

module _ {W : Type 0} (net : Mtcp W) (poll : Ctx W → Ctx W)
    (poll-IsSafe : (c : Ctx W) → IsSafe c → IsSafe (poll c)) where
  wide-IsSafe :
      (k : Clock) (r : Regs) (i : ℕ) (c : Ctx W) → IsSafe c → IsSafe (int14_wide net poll k r i c).1
  unfolding int14_wide
  wide-IsSafe k r i c v = ground (
    arith,
    v,
    init-IsSafe net i k.now c v,
    block_read-IsSafe net i poll poll-IsSafe k.now k.times r.cx c v,
    status-IsSafe i c v,
  )

  func-IsSafe :
      (k : Clock) (r : Regs) (i : ℕ) (c : Ctx W) → IsSafe c → IsSafe (int14_func net poll k r i c).1
  unfolding int14_func set_flow
  func-IsSafe k r i c v =
      let al = r.ax % 256 in
      ground (
        arith,
        v,
        wide-IsSafe k r i c v,
        transmit-IsSafe net i k.now al c v,
        receive-IsSafe net i poll poll-IsSafe c v,
        request_status-IsSafe net i poll poll-IsSafe k.now c v,
        deinit-IsSafe net i c v,
        set_dtr-IsSafe i k.now al c v,
        flush-IsSafe net i c v,
        purge_output-IsSafe i k.now c v,
        purge_input-IsSafe c v,
        no_wait-IsSafe net i k.now al c v,
        block_write-IsSafe net i (take r.cx r.buffer) c v,
      )

  -- Whatever the registers hold, a call of INT 14h keeps the bounds, if the poll cycle does: the
  -- line buffer has room for one more byte and the NUL, both rings are valid, and the pending
  -- buffer is within its size.
  pub int14-IsSafe :
      (k : Clock) (r r' : Regs) (c c' : Ctx W)
      → IsSafe c
      → int14 net poll k r c ≡ some (r', c')
      → IsSafe c'
  unfolding int14
  int14-IsSafe k r r' c c' v e = ground (arith, v, func-IsSafe k r (port_of r) c v)
