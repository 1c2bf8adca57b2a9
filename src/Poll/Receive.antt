-- ===== src/Poll/Receive.antt =====
-- The receive path of an answered call: the socket's bytes, through the telnet filter, into the RX
-- ring.
use vmodem.Prelude.{
  ℕ, ◌+◌, ◌<◌, ◌≤◌, ◌≡◌, refl, ap, ap₂, ◌∙◌, sym, subst, arith, false, Option, none, some, List, [],
  ◌∷◌, ◌++◌, length, length-append, append_assoc, append-nil,
}
use vmodem.Mtcp.{Mtcp}
use vmodem.Ring.{RingBuf, put, ring_bits, ring_put}
use vmodem.Ring.Inv.{IsValid, put-IsValid}
use vmodem.Ring.Refine.{contents, put_refines, enqueue, length-contents}
use vmodem.Telnet.{
  Iac, telnet_filter, filter_in, telnet_handle_option, handle_do, handle_will, sb_store, sb_finish,
}
use vmodem.Telnet.Stream.{filter_all, push}
use vmodem.Port.{Ctx, with_port, with_world}
use vmodem.Poll.{store, take_pending, take_byte, take_bytes}

module _ {W : Type 0} (net : Mtcp W) where
  -- The filter puts no byte off.
  filter-not_pending :
      (sock : Option ℕ) (t : Iac) (b : ℕ) (w : W)
      → (telnet_filter net sock t b w).1.iac_has_pending ≡ t.iac_has_pending
  unfolding telnet_filter filter_in telnet_handle_option handle_do handle_will sb_store sb_finish
  filter-not_pending sock t b w = ground arith

-- A call that is answered, with an RX ring that has room for `n` bytes.
pub record IsReceiving {W : Type 0} (n : ℕ) (c : Ctx W) : Type 0 where
  pub not_ringing : c.line.at.ringing ≡ false
  pub connected : c.line.at.connect_pending ≡ false
  pub not_pending : c.line.port.iac.iac_has_pending ≡ false
  pub rx_valid : IsValid ring_bits c.line.port.rx
  pub room : c.line.port.rx.count + n ≤ 4096

put-room :
    {r : RingBuf} (b : ℕ)
    → IsValid ring_bits r
    → r.count < 4096
    → let r' = (put ring_bits r b).1 in
      (contents ring_bits r' ≡ contents ring_bits r ++ (b ∷ [])) × (r'.count ≡ r.count + 1)
unfolding enqueue
put-room {r} b v h =
    let q = contents ring_bits r in
    let r' = (put ring_bits r b).1 in
    let e : contents ring_bits r' ≡ q ++ (b ∷ []) =
      ground (arith, put_refines b v, length-contents ring_bits r) in
    (
      e,
      omega (
        arith,
        length-contents ring_bits r,
        length-contents ring_bits r',
        ap length e,
        length-append q (b ∷ []),
      ),
    )

push-nil : (o : Option ℕ) (out : List ℕ) → push o [] ++ out ≡ push o out
push-nil none out = refl
push-nil (some b) out = refl

module _ {W : Type 0} where
  store-lem :
      (n : ℕ) (o : Option ℕ) (c : Ctx W)
      → IsReceiving (n + 1) c
      → let c' = store o c in
        IsReceiving n c'
        × (contents ring_bits c'.line.port.rx ≡ contents ring_bits c.line.port.rx ++ push o [])
        × (c'.line.port.iac ≡ c.line.port.iac)
        × (c'.line.port.sock ≡ c.line.port.sock)
        × (c'.shared ≡ c.shared)
  unfolding store ring_put
  store-lem n none c v = (
    record {
      not_ringing = v.not_ringing;
      connected = v.connected;
      not_pending = v.not_pending;
      rx_valid = v.rx_valid;
      room = omega (arith, v.room);
    },
    sym (append-nil (contents ring_bits c.line.port.rx)),
    refl,
    refl,
    refl,
  )
  store-lem n (some b) c v =
      let p = put-room b v.rx_valid (omega (arith, v.room)) in
      (
        record {
          not_ringing = v.not_ringing;
          connected = v.connected;
          not_pending = v.not_pending;
          rx_valid = put-IsValid b v.rx_valid;
          room = omega (arith, v.room, p.1);
        },
        p.0,
        refl,
        refl,
        refl,
      )

  no_pending_byte : (c : Ctx W) → c.line.port.iac.iac_has_pending ≡ false → take_pending c ≡ c
  unfolding take_pending
  no_pending_byte c e = rw e refl

module _ {W : Type 0} (net : Mtcp W) where
  -- The state after the filter has run.
  abbrev filtered : ℕ → Ctx W → Ctx W
  filtered b c =
      let (o, iac, w) = telnet_filter net c.line.port.sock c.line.port.iac b c.shared.world in
      with_port (λ p. record p { iac = iac }) (with_world (λ u. w) c)

  take_byte-step :
      (b : ℕ) (c : Ctx W)
      → c.line.at.ringing ≡ false
      → c.line.at.connect_pending ≡ false
      → take_byte net b c
        ≡ take_pending (
            store
              (telnet_filter net c.line.port.sock c.line.port.iac b c.shared.world).0
              (filtered b c))
  unfolding take_byte
  take_byte-step b c r p = ground arith

  -- What the bytes that a socket yields do to an answered call whose RX ring has room for them: the
  -- ring gets, after what it holds, exactly the bytes that the telnet filter lets through, in
  -- order; the telnet state and the outside world are those that the filter leaves.
  pub take_bytes-filtered :
      (bs : List ℕ) (c : Ctx W)
      → IsReceiving (length bs) c
      → let (out, t, w) = filter_all net c.line.port.sock c.line.port.iac bs c.shared.world in
        let c' = take_bytes net bs c in
        (contents ring_bits c'.line.port.rx ≡ contents ring_bits c.line.port.rx ++ out)
        × (c'.line.port.iac ≡ t)
        × (c'.shared.world ≡ w)
        × IsReceiving 0 c'
  unfolding take_bytes filter_all
  take_bytes-filtered [] c v = (sym (append-nil (contents ring_bits c.line.port.rx)), refl, refl, v)
  take_bytes-filtered (b ∷ bs) c v =
      let (o, iac, w) = telnet_filter net c.line.port.sock c.line.port.iac b c.shared.world in
      let d = filtered b c in
      let vd : IsReceiving (length bs + 1) d = record {
        not_ringing = v.not_ringing;
        connected = v.connected;
        not_pending =
            filter-not_pending net c.line.port.sock c.line.port.iac b c.shared.world
            ∙ v.not_pending;
        rx_valid = v.rx_valid;
        room = omega (arith, v.room);
      } in
      let s = store-lem (length bs) o d vd in
      let e = store o d in
      let step : take_byte net b c ≡ e =
        take_byte-step b c v.not_ringing v.connected ∙ no_pending_byte e s.0.not_pending in
      let rest = take_bytes-filtered bs e s.0 in
      let q = contents ring_bits c.line.port.rx in
      let out = (filter_all net c.line.port.sock iac bs w).0 in
      let same : filter_all net e.line.port.sock e.line.port.iac bs e.shared.world
          ≡ filter_all net c.line.port.sock iac bs w =
        ap (λ k. filter_all net k e.line.port.iac bs e.shared.world) s.3
        ∙ ap (λ k. filter_all net c.line.port.sock k bs e.shared.world) s.2
        ∙ ap (λ k. filter_all net c.line.port.sock iac bs k.world) s.4 in
      let go : take_bytes net (b ∷ bs) c ≡ take_bytes net bs e = ap (take_bytes net bs) step in
      (
        ap (λ k. contents ring_bits k.line.port.rx) go
            ∙ rest.0
            ∙ ap₂ ◌++◌ s.1 (ap (λ p. p.0) same)
            ∙ append_assoc q (push o []) out
            ∙ ap (λ l. q ++ l) (push-nil o out),
        ap (λ k. k.line.port.iac) go ∙ rest.1 ∙ ap (λ p. p.1) same,
        ap (λ k. k.shared.world) go ∙ rest.2 ∙ ap (λ p. p.2) same,
        subst (IsReceiving 0) (sym go) rest.3,
      )
