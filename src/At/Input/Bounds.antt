-- ===== src/At/Input/Bounds.antt =====
-- The line buffer is never overrun, and data bytes pass untouched.
use vmodem.Prelude.{ℕ, ◌<◌, ◌≡◌, arith, length, set, length-set}
use vmodem.Mtcp.{Mtcp}
use vmodem.Tx.Bounds.{TxSafe}
use vmodem.Tx.Order.{PendingFits}
use vmodem.Ring.{tx_ring_bits, ring_bits, ring_put}
use vmodem.Ring.Inv.{IsValid, put-IsValid}
use vmodem.Port.{Ctx, with_at}
use vmodem.At.Command.Frame.{at_execute-frame, at_respond-IsValid}
use vmodem.At.Input.{count_plus, data_byte, echo_byte, edit_byte, enter, command_byte, at_input}

-- The line buffer has room for one more byte and the NUL, the rings are valid, and the pending
-- buffer is within its size.
pub record IsSafe {W : Type 0} (c : Ctx W) : Type 0 where
  pub room : c.line.at.pos < 128
  pub storage : length c.line.at.buf ≡ 128
  pub rx_valid : IsValid ring_bits c.line.port.rx
  pub tx_valid : IsValid tx_ring_bits c.line.tx
  pub fits : PendingFits c.shared.pending

module _ {W : Type 0} where
  echo-IsSafe : (b : ℕ) (c : Ctx W) → IsSafe c → IsSafe (echo_byte b c)
  unfolding echo_byte ring_put
  echo-IsSafe b c v = ground (arith, put-IsValid b v.rx_valid)

  edit-IsSafe : (b : ℕ) (c : Ctx W) → IsSafe c → IsSafe (edit_byte b c)
  unfolding edit_byte
  edit-IsSafe b c v = ground (arith, length-set c.line.at.buf c.line.at.pos b)

  count_plus-IsSafe : (n : ℕ) (c : Ctx W) → IsSafe c → IsSafe (count_plus n c)
  unfolding count_plus
  count_plus-IsSafe n c v = grind (arith, at_respond-IsValid)

  data-IsSafe : (now b : ℕ) (c : Ctx W) → IsSafe c → IsSafe (data_byte now b c).1
  unfolding data_byte
  data-IsSafe now b c v = grind (arith, count_plus-IsSafe)

module _ {W : Type 0} (net : Mtcp W) (i now : ℕ) where
  enter-IsSafe : (c : Ctx W) → IsSafe c → IsSafe (enter net i now c)
  unfolding enter
  enter-IsSafe c v =
      let c1 = with_at (λ a. record a { buf = set a.buf a.pos 0 }) c in
      let tx : TxSafe c1 = record { tx_valid = v.tx_valid; fits = v.fits } in
      ground (
        arith,
        at_execute-frame net i now c1 v.rx_valid tx,
        length-set c.line.at.buf c.line.at.pos 0,
      )

  -- Any byte keeps the bounds: the line buffer is not overrun (there is always room for the next
  -- byte or the NUL), the rings stay valid, and the pending buffer stays within its size.
  pub at_input-IsSafe : (b : ℕ) (c : Ctx W) → IsSafe c → IsSafe (at_input net i now b c).1
  unfolding at_input command_byte
  at_input-IsSafe b c v = ground (
    arith,
    data-IsSafe now b c v,
    enter-IsSafe (echo_byte b c) (echo-IsSafe b c v),
    edit-IsSafe b (echo_byte b c) (echo-IsSafe b c v),
  )
