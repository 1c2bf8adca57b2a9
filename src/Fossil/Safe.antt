-- ===== src/Fossil/Safe.antt =====
-- Every call of INT 14h keeps the bounds of `IsSafe`: the functions one by one.
use vmodem.Prelude.{ℕ, arith, List, [], ◌∷◌, length-replicate}
use vmodem.Mtcp.{Mtcp}
use vmodem.Ring.{ring_init, txring_init, txring_put, ring_get}
use vmodem.Ring.Inv.{get-IsValid, reset-IsValid, put-IsValid}
use vmodem.Port.{Ctx, with_port}
use vmodem.Net.{close_call, telnet_send_text, sock_close_fast}
use vmodem.Tx.{fossil_flush_tx, fossil_clear_tx}
use vmodem.Tx.Bounds.{flush_tx-TxSafe}
use vmodem.At.{at_check_ring, at_send_connect, at_init, at_set_ringing_silent}
use vmodem.At.Command.Frame.{flush_tx-frame}
use vmodem.At.Rings.Bounds.{check_ring-IsSafe}
use vmodem.At.Input.{at_input}
use vmodem.At.Input.Bounds.{IsSafe, at_input-IsSafe}
use vmodem.Fossil.{
  fossil_status, tx_put, purge_output, purge_input, count_purge, guarded, receive, spin, poll_data,
  poll_for_data, block_read, put_or_flush, transmit, transmit_no_wait, request_status, write_bytes,
  block_write,
}
use vmodem.Fossil.Reads.{read_bytes-contents}
use vmodem.Fossil.Init.{
  reset_at, reset_line, close_stale, new_listener, listen_hunt, listen_alone, start_listen,
  init_driver, deinit_driver, set_dtr,
}

pub flush-IsSafe :
    {W : Type 0} (net : Mtcp W) (i : ℕ) (c : Ctx W) → IsSafe c → IsSafe (fossil_flush_tx net i c).1
flush-IsSafe net i c v =
    let w = flush_tx-TxSafe net i c (record { tx_valid = v.tx_valid; fits = v.fits }) in
    ground (arith, flush_tx-frame net i c)

module _ {W : Type 0} where
  pub clear-IsSafe : (i : ℕ) (c : Ctx W) → IsSafe c → IsSafe (fossil_clear_tx i c)
  unfolding fossil_clear_tx txring_init
  clear-IsSafe i c v = ground (arith, reset-IsValid v.tx_valid)

  pub purge_output-IsSafe : (i now : ℕ) (c : Ctx W) → IsSafe c → IsSafe (purge_output i now c)
  unfolding purge_output
  purge_output-IsSafe i now c v = ground (arith, clear-IsSafe i c v)

  pub purge_input-IsSafe : (c : Ctx W) → IsSafe c → IsSafe (purge_input c)
  unfolding purge_input ring_init
  purge_input-IsSafe c v = ground (arith, reset-IsValid v.rx_valid)

  count_purge-IsSafe : (i : ℕ) (c : Ctx W) → IsSafe c → IsSafe (count_purge i c)
  unfolding count_purge
  count_purge-IsSafe i c v = ground arith

  pub status-IsSafe : (i : ℕ) (c : Ctx W) → IsSafe c → IsSafe (fossil_status i c).1
  unfolding fossil_status
  status-IsSafe i c v = ground arith

  tx_put-IsSafe : (b : ℕ) (c : Ctx W) → IsSafe c → IsSafe (tx_put b c).1
  unfolding tx_put txring_put
  tx_put-IsSafe b c v = ground (arith, put-IsValid b v.tx_valid)

  pub set_dtr-IsSafe : (i now al : ℕ) (c : Ctx W) → IsSafe c → IsSafe (set_dtr i now al c)
  unfolding set_dtr at_send_connect
  set_dtr-IsSafe i now al c v = ground arith

  reset-IsSafe : (now : ℕ) (c : Ctx W) → IsSafe c → IsSafe (reset_at now (reset_line now c))
  unfolding reset_at reset_line at_init at_set_ringing_silent
  reset-IsSafe now c v = ground (arith, length-replicate {A = ℕ} 128 0)

module _ {W : Type 0} (net : Mtcp W) (i : ℕ) where
  put_or_flush-IsSafe : (b : ℕ) (c : Ctx W) → IsSafe c → IsSafe (put_or_flush net i b c).1
  unfolding put_or_flush
  put_or_flush-IsSafe b c v =
      let c1 = (tx_put b c).1 in
      let w = tx_put-IsSafe b c v in
      let c2 = (fossil_flush_tx net i c1).1 in
      ground (arith, w, tx_put-IsSafe b c2 (flush-IsSafe net i c1 w))

  pub transmit-IsSafe : (now b : ℕ) (c : Ctx W) → IsSafe c → IsSafe (transmit net i now b c).1
  unfolding transmit
  transmit-IsSafe now b c v =
      let d = with_port (λ p. record p { last_tx_tick = now }) c in
      let w : IsSafe d = ground arith in
      let (consumed, c1) = at_input net i now b d in
      let x = at_input-IsSafe net i now b d w in
      grind (arith, x, put_or_flush-IsSafe b c1 x, status-IsSafe)

  pub no_wait-IsSafe :
      (now b : ℕ) (c : Ctx W) → IsSafe c → IsSafe (transmit_no_wait net i now b c).1
  unfolding transmit_no_wait
  no_wait-IsSafe now b c v =
      let (consumed, c1) = at_input net i now b c in
      let x = at_input-IsSafe net i now b c v in ground (arith, x, tx_put-IsSafe b c1 x)

  write_bytes-IsSafe : (bs : List ℕ) (c : Ctx W) → IsSafe c → IsSafe (write_bytes net i bs c).1
  unfolding write_bytes
  write_bytes-IsSafe [] c v = v
  write_bytes-IsSafe (b ∷ bs) c v =
      let c1 = (put_or_flush net i b c).1 in
      let w = put_or_flush-IsSafe b c v in ground (arith, w, write_bytes-IsSafe bs c1 w)

  pub block_write-IsSafe : (bs : List ℕ) (c : Ctx W) → IsSafe c → IsSafe (block_write net i bs c).1
  unfolding block_write
  block_write-IsSafe bs c v =
      let c1 = (write_bytes net i bs c).1 in
      let w = write_bytes-IsSafe bs c v in ground (arith, v, w, flush-IsSafe net i c1 w)

  close_stale-IsSafe : (c : Ctx W) → IsSafe c → IsSafe (close_stale net i c)
  unfolding close_stale close_call telnet_send_text sock_close_fast
  close_stale-IsSafe c v = ground arith

  start_listen-IsSafe : (c : Ctx W) → IsSafe c → IsSafe (start_listen net c)
  unfolding start_listen listen_hunt listen_alone new_listener
  start_listen-IsSafe c v = ground arith

  pub init-IsSafe : (now : ℕ) (c : Ctx W) → IsSafe c → IsSafe (init_driver net i now c)
  unfolding init_driver ring_init
  init-IsSafe now c v =
      let c1 = with_port (λ p. record p { rx = ring_init p.rx }) c in
      let w1 : IsSafe c1 = ground (arith, reset-IsValid v.rx_valid) in
      let c2 = fossil_clear_tx i c1 in
      let c3 = close_stale net i c2 in
      let c4 = reset_at now (reset_line now c3) in
      let w4 = reset-IsSafe now c3 (close_stale-IsSafe c2 (clear-IsSafe i c1 w1)) in
      ground (arith, start_listen-IsSafe c4 w4)

  pub deinit-IsSafe : (c : Ctx W) → IsSafe c → IsSafe (deinit_driver net i c)
  unfolding deinit_driver
  deinit-IsSafe c v = ground (arith, flush-IsSafe net i c v)

  module _ (poll : Ctx W → Ctx W) (poll-IsSafe : (c : Ctx W) → IsSafe c → IsSafe (poll c)) where
    guarded-IsSafe : (c : Ctx W) → IsSafe c → IsSafe (guarded poll c)
    unfolding guarded
    guarded-IsSafe c v = grind (arith, poll-IsSafe)

    pub receive-IsSafe : (c : Ctx W) → IsSafe c → IsSafe (receive poll c).1
    unfolding receive ring_get
    receive-IsSafe c v = let w = guarded-IsSafe c v in ground (arith, w, get-IsValid w.rx_valid)

    pub request_status-IsSafe :
        (now : ℕ) (c : Ctx W) → IsSafe c → IsSafe (request_status net i poll now c).1
    unfolding request_status
    request_status-IsSafe now c v =
        let c1 = guarded poll c in
        let c2 = at_check_ring net i now c1 in
        status-IsSafe i (count_purge i c2)
          (count_purge-IsSafe i c2 (check_ring-IsSafe net i now c1 (guarded-IsSafe c v)))

    spin-IsSafe :
        (start : ℕ) (times : List ℕ) (c : Ctx W) → IsSafe c → IsSafe (spin poll start times c)
    unfolding spin
    spin-IsSafe start [] c v = v
    spin-IsSafe start (now ∷ times) c v =
        let w = poll-IsSafe c v in ground (arith, v, w, spin-IsSafe start times (poll c) w)

    poll_data-IsSafe :
        (start : ℕ) (times : List ℕ) (d : Ctx W)
        → IsSafe d
        → IsSafe (poll_data net i poll start times d)
    unfolding poll_data
    poll_data-IsSafe start times d v =
        let w = poll-IsSafe d v in ground (arith, w, spin-IsSafe start times (poll d) w)

  module _ (poll : Ctx W → Ctx W) (poll-IsSafe : (c : Ctx W) → IsSafe c → IsSafe (poll c)) where
    pub block_read-IsSafe :
        (start : ℕ) (times : List ℕ) (n : ℕ) (c : Ctx W)
        → IsSafe c
        → IsSafe (block_read net i poll start times n c).1
    unfolding block_read poll_for_data
    block_read-IsSafe start times n c v =
        let w =
          guarded-IsSafe (poll_data net i poll start times)
            (poll_data-IsSafe poll poll-IsSafe start times) c v in
        ground (arith, w, read_bytes-contents n w.rx_valid)
