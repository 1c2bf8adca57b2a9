-- ===== src/Tx/Drain.antt =====
-- The loop of `fossil_flush_tx` that empties the TX ring.
use vmodem.Prelude.{
  ℕ, zero, suc, ◌+◌, ◌*◌, ◌≤◌, ◌≡◌, refl, ap, ◌∙◌, sym, arith, Option, some, List, [], ◌∷◌, ◌++◌,
  length, length-append, get_or,
}
use vmodem.Ring.{RingBuf, get, txring_get, tx_ring_bits}
use vmodem.Ring.Inv.{IsValid, get-IsValid}
use vmodem.Ring.Refine.{contents, length-contents, get-some, segment}
use vmodem.Telnet.Stream.{escape_byte, escape_all}
use vmodem.Tx.{drain, drain_byte}

pub record Drained (t : RingBuf) (r : List ℕ × ℕ × RingBuf) : Type 0 where
  pub escaped : r.0 ≡ escape_all (contents tx_ring_bits t)
  pub counted : r.1 ≡ t.count
  pub valid : IsValid tx_ring_bits r.2
  pub emptied : r.2.count ≡ 0

drain_byte-Drained :
    (t t' : RingBuf) (x : ℕ) (k : RingBuf → List ℕ × ℕ × RingBuf) (g : Option ℕ × RingBuf)
    → g ≡ (some x, t')
    → contents tx_ring_bits t ≡ x ∷ contents tx_ring_bits t'
    → t.count ≡ t'.count + 1
    → Drained t' (k t')
    → Drained t (drain_byte g k)
unfolding drain_byte
drain_byte-Drained t t' x k g e c n d = rw e (record {
  escaped = ap (λ l. escape_byte x ++ l) d.escaped ∙ ap escape_all (sym c);
  counted = omega (arith, d.counted);
  valid = d.valid;
  emptied = d.emptied;
})

drain_fuel : (n : ℕ) {t : RingBuf} → IsValid tx_ring_bits t → t.count ≡ n → Drained t (drain n t)
unfolding drain txring_get
drain_fuel zero {t} v e = record {
  escaped = ap (λ n. escape_all (segment t.slots 512 t.head n)) (sym e);
  counted = sym e;
  valid = v;
  emptied = e;
}
drain_fuel (suc n) {t} v e =
    let step = get-some v e in
    let t' = (get tx_ring_bits t).1 in
    drain_byte-Drained t t' (get_or t.slots t.head 0) (drain n) (get tx_ring_bits t)
      (ap (λ o. (o, t')) step.0) step.1 (omega (arith, step.2))
      (drain_fuel n (get-IsValid v) step.2)

-- The count is fuel enough: the ring is emptied, and its bytes come out in order, escaped.
pub drain_lem : {t : RingBuf} → IsValid tx_ring_bits t → Drained t (drain t.count t)
drain_lem {t} v = drain_fuel t.count v refl

length-escape_all : (bs : List ℕ) → length (escape_all bs) ≤ 2 * length bs
length-escape_all [] = omega arith
length-escape_all (b ∷ bs) =
    ground (arith, length-escape_all bs, length-append (escape_byte b) (escape_all bs))

-- The escaped bytes of a whole ring fit in `g_tx_pending`.
pub length-drain : {t : RingBuf} → IsValid tx_ring_bits t → length (drain t.count t).0 ≤ 1024
length-drain {t} v =
    let d = drain_lem v in
    rw (d.escaped) (
      omega (
        arith,
        length-escape_all (contents tx_ring_bits t),
        length-contents tx_ring_bits t,
        v.count_in,
      ))
