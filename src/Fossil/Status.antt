-- ===== src/Fossil/Status.antt =====
-- What the status word tells, bit by bit.
use vmodem.Prelude.{ℕ, ◌≡◌, refl, arith, Bool, false, bit_and, ltb, ◌==◌, not, ◌&&◌}
use vmodem.Port.{Ctx}
use vmodem.Fossil.{flag, status_word, has_pending, has_carrier, fossil_status}

bits :
    (thre tsre rda ovrn ri dcd : Bool)
    → let ax = status_word thre tsre rda ovrn ri dcd in
      (bit_and ax 0x2000 ≡ flag thre 0x2000)
      × (bit_and ax 0x4000 ≡ flag tsre 0x4000)
      × (bit_and ax 0x0100 ≡ flag rda 0x0100)
      × (bit_and ax 0x0200 ≡ flag ovrn 0x0200)
      × (bit_and ax 0x0040 ≡ flag ri 0x0040)
      × (bit_and ax 0x0088 ≡ flag (not ri && dcd) 0x0088)
      × (bit_and ax 0x0033 ≡ 0x0033)
unfolding status_word
bits thre tsre rda ovrn ri dcd = ground arith

module _ {W : Type 0} where
  -- AX of a status call, bit by bit: THRE when the TX ring has room and TSRE when it is empty, but
  -- neither while bytes of the port are pending; RDA when the RX ring holds data; OVRN when an
  -- overrun was noted; RI when the call rings; DCD and its delta bit when the call is answered and
  -- connected and a purge has not dropped the carrier; CTS, DSR and their delta bits always. The
  -- overrun is forgotten and nothing else changes.
  pub fossil_status_lem :
      (i : ℕ) (c : Ctx W)
      → let (ax, c') = fossil_status i c in
        let clear = not (has_pending i c.shared.pending) in
        (bit_and ax 0x2000 ≡ flag (ltb c.line.tx.count 512 && clear) 0x2000)
        × (bit_and ax 0x4000 ≡ flag (c.line.tx.count == 0 && clear) 0x4000)
        × (bit_and ax 0x0100 ≡ flag (ltb 0 c.line.port.rx.count) 0x0100)
        × (bit_and ax 0x0200 ≡ flag c.line.overrun 0x0200)
        × (bit_and ax 0x0040 ≡ flag c.line.at.ringing 0x0040)
        × (bit_and ax 0x0088 ≡ flag (not c.line.at.ringing && has_carrier i c) 0x0088)
        × (bit_and ax 0x0033 ≡ 0x0033)
        × (c' ≡ record c { line = record (c.line) { overrun = false } })
  unfolding fossil_status
  fossil_status_lem i c =
      let clear = not (has_pending i c.shared.pending) in
      let b =
        bits (ltb c.line.tx.count 512 && clear) (c.line.tx.count == 0 && clear)
          (ltb 0 c.line.port.rx.count) (c.line.overrun) (c.line.at.ringing) (has_carrier i c) in
      (b.0, b.1, b.2, b.3, b.4, b.5, b.6, refl)
