-- ===== src/Tx/Order.antt =====
-- `fossil_flush_tx` keeps the order of the output: what the socket has taken, what is pending and
-- what is in the TX ring, end to end, stays the same.
use vmodem.Prelude.{
  ℕ, ◌+◌, ◌≤◌, ◌≡◌, ◌⊎◌, inl, inr, refl, ap, ap₂, ◌∙◌, sym, arith, Bool, true, false, ◌||◌, some,
  List, [], ◌∷◌, ◌++◌, length, take, drop, take-append-drop, length-drop, drop-drop, drop_all,
  append-nil, append_assoc, pos_part, Bool-cases,
}
use vmodem.Mtcp.{Mtcp, SendLaws}
use vmodem.Ring.{tx_ring_bits}
use vmodem.Ring.Inv.{IsValid}
use vmodem.Ring.Refine.{contents, segment}
use vmodem.Port.{Pending, Shared, Ctx}
use vmodem.Telnet.Stream.{escape_all}
use vmodem.Tx.{is_owner, drain, resume_pending, send_batch, flush_open, fossil_flush_tx}
use vmodem.Tx.Drain.{drain_lem, length-drain}

-- The bytes of the pending buffer that are still to be sent.
abbrev pub unsent : Pending → List ℕ
unsent p = drop p.off p.bytes

-- The pending buffer holds at most `sizeof g_tx_pending` bytes.
abbrev pub PendingFits : Pending → Type 0
PendingFits p = length p.bytes ≤ 1024

-- The call is ringing or waits for its CONNECT, or the socket is closed.
abbrev pub is_idle : {W : Type 0} → Mtcp W → ℕ → Ctx W → Bool
is_idle net s c = c.line.at.ringing || c.line.at.connect_pending || net.is_closed s c.shared.world

pub flush_runs :
    {W : Type 0} (net : Mtcp W) (i s : ℕ) (c : Ctx W)
    → c.line.port.sock ≡ some s
    → is_idle net s c ≡ false
    → fossil_flush_tx net i c ≡ flush_open net i s c
unfolding fossil_flush_tx
flush_runs net i s c e busy = ground arith

flush_cases :
    {W : Type 0} (net : Mtcp W) (i s : ℕ) (c : Ctx W)
    → c.line.port.sock ≡ some s
    → (fossil_flush_tx net i c ≡ (0, c)) ⊎ (fossil_flush_tx net i c ≡ flush_open net i s c)
unfolding fossil_flush_tx
flush_cases net i s c e = elim (Bool-cases (is_idle net s c)) [
  | inl idle ↦ inl (ground arith)
  | inr busy ↦ inr (flush_runs net i s c e busy)
]

-- No other port than `i` has unsent bytes in the pending buffer.
abbrev pub IsOurs : ℕ → Pending → Type 0
IsOurs i p = (is_owner p.owner i ≡ true) ⊎ (unsent p ≡ [])

module _ {W : Type 0} (stream : ℕ → W → List ℕ) where
  -- What the socket took, then what is pending.
  abbrev pub out_of : ℕ → Shared W → List ℕ
  out_of s sh = stream s sh.world ++ unsent sh.pending

  -- The bytes that the socket took, the bytes pending and the bytes of the TX ring (escaped).
  abbrev pub promised : ℕ → Ctx W → List ℕ
  promised s c = out_of s c.shared ++ escape_all (contents tx_ring_bits c.line.tx)

module _ {W : Type 0} (net : Mtcp W) (stream : ℕ → W → List ℕ) (laws : SendLaws net stream) where
  resume-out :
      (i s : ℕ) (sh : Shared W)
      → PendingFits sh.pending
      → (is_owner sh.pending.owner i ≡ true) ⊎ (unsent sh.pending ≡ [])
      → let (clear, sh') = resume_pending net i s sh in
        (out_of stream s sh' ≡ out_of stream s sh)
        × (clear ≡ true → unsent sh'.pending ≡ [])
        × PendingFits sh'.pending
  unfolding resume_pending
  resume-out i s sh fits own =
      let p = sh.pending in
      let u = drop p.off p.bytes in
      let n = pos_part (net.send s u sh.world).0 in
      ground (
        arith,
        laws.taken_le s u sh.world,
        laws.stream-send s u sh.world,
        length-drop p.off p.bytes,
        drop-drop p.off n p.bytes,
        drop_all p.off p.bytes,
        drop_all (p.off + n) p.bytes,
        take-append-drop n u,
        append_assoc (stream s sh.world) (take n u) (drop n u),
      )

  batch-out :
      (i s : ℕ) (out : List ℕ) (sh : Shared W)
      → length out ≤ 1024
      → unsent sh.pending ≡ []
      → PendingFits sh.pending
      → let sh' = send_batch net i s out sh in
        (out_of stream s sh' ≡ stream s sh.world ++ out) × PendingFits sh'.pending
  unfolding send_batch
  batch-out i s [] sh h e f = (ap (λ l. stream s sh.world ++ l) e, f)
  batch-out i s (b ∷ out) sh h e f =
      let n = pos_part (net.send s (b ∷ out) sh.world).0 in
      ground (
        arith,
        laws.taken_le s (b ∷ out) sh.world,
        laws.stream-send s (b ∷ out) sh.world,
        take-append-drop n (b ∷ out),
        drop_all n (b ∷ out),
        append_assoc (stream s sh.world) (take n (b ∷ out)) (drop n (b ∷ out)),
      )

  -- Once nothing is pending, the ring's escaped bytes are all that is missing.
  resumed-promised :
      (i s : ℕ) (c : Ctx W)
      → IsValid tx_ring_bits c.line.tx
      → PendingFits c.shared.pending
      → IsOurs i c.shared.pending
      → (resume_pending net i s c.shared).0 ≡ true
      → stream s (resume_pending net i s c.shared).1.world ++ (drain c.line.tx.count c.line.tx).0
        ≡ promised stream s c
  resumed-promised i s c v f own clear =
      let r = resume-out i s c.shared f own in
      let w = (resume_pending net i s c.shared).1.world in
      ap₂ ◌++◌ (sym (append-nil (stream s w)) ∙ ap (λ l. stream s w ++ l) (sym (r.1 clear)) ∙ r.0)
        (drain_lem v).escaped

  flush_open-promised :
      (i s : ℕ) (c : Ctx W)
      → IsValid tx_ring_bits c.line.tx
      → PendingFits c.shared.pending
      → IsOurs i c.shared.pending
      → let c' = (flush_open net i s c).1 in
        (promised stream s c' ≡ promised stream s c)
        × IsValid tx_ring_bits c'.line.tx
        × PendingFits c'.shared.pending
  unfolding flush_open
  flush_open-promised i s c v f own =
      let r = resume-out i s c.shared f own in
      let sh = (resume_pending net i s c.shared).1 in
      let d = drain_lem v in
      let (out, sent, t) = drain c.line.tx.count c.line.tx in
      elim (Bool-cases (resume_pending net i s c.shared).0) [
        | inl e ↦
            let b = batch-out i s out sh (length-drain v) (r.1 e) r.2 in
            rw e (
              ap₂ ◌++◌ b.0 (ap (λ n. escape_all (segment t.slots 512 t.head n)) d.emptied)
                  ∙ append-nil _
                  ∙ resumed-promised i s c v f own e,
              d.valid,
              b.1,
            )
        | inr e ↦ rw e (ap (λ l. l ++ escape_all (contents tx_ring_bits c.line.tx)) r.0, v, r.2)
      ]

  -- `fossil_flush_tx` of the only port with unsent output neither loses nor repeats nor reorders a
  -- byte: what the socket has taken, what is pending and what the TX ring holds (escaped) are, end
  -- to end, the same before and after. The ring stays valid, and the pending buffer is not overrun.
  pub flush_tx-promised :
      (i s : ℕ) (c : Ctx W)
      → c.line.port.sock ≡ some s
      → IsValid tx_ring_bits c.line.tx
      → PendingFits c.shared.pending
      → IsOurs i c.shared.pending
      → let c' = (fossil_flush_tx net i c).1 in
        (promised stream s c' ≡ promised stream s c)
        × IsValid tx_ring_bits c'.line.tx
        × PendingFits c'.shared.pending
  unfolding fossil_flush_tx
  flush_tx-promised i s c e v f own = elim (flush_cases net i s c e) [
    | inl idle ↦ rw idle (refl, v, f)
    | inr run ↦ rw run (flush_open-promised i s c v f own)
  ]

  module _ (eager : (s : ℕ) (bs : List ℕ) (w : W) → pos_part (net.send s bs w).0 ≡ length bs) where
    resume-eager :
        (i s : ℕ) (sh : Shared W) → PendingFits sh.pending → (resume_pending net i s sh).0 ≡ true
    unfolding resume_pending
    resume-eager i s sh fits =
        ground
          (arith, eager s (unsent sh.pending) sh.world, length-drop sh.pending.off sh.pending.bytes)

    batch-eager :
        (i s : ℕ) (out : List ℕ) (sh : Shared W)
        → length out ≤ 1024
        → unsent sh.pending ≡ []
        → unsent (send_batch net i s out sh).pending ≡ []
    unfolding send_batch
    batch-eager i s [] sh fits e = e
    batch-eager i s (b ∷ out) sh fits e = ground (arith, eager s (b ∷ out) sh.world)

    -- With a socket that is open and takes all it is offered, and a call that is neither ringing
    -- nor waiting for its CONNECT, `fossil_flush_tx` delivers everything: what was pending, then
    -- the TX ring's bytes with each 0xFF doubled, in order.
    pub flush_tx-delivers :
        (i s : ℕ) (c : Ctx W)
        → c.line.port.sock ≡ some s
        → is_idle net s c ≡ false
        → IsValid tx_ring_bits c.line.tx
        → PendingFits c.shared.pending
        → IsOurs i c.shared.pending
        → let c' = (fossil_flush_tx net i c).1 in
          (stream s c'.shared.world ≡ promised stream s c) × (c'.line.tx.count ≡ 0)
    unfolding flush_open
    flush_tx-delivers i s c e busy v f own =
        let sh = (resume_pending net i s c.shared).1 in
        let clear = resume-eager i s c.shared f in
        let r = resume-out i s c.shared f own in
        let out = (drain c.line.tx.count c.line.tx).0 in
        let b = batch-out i s out sh (length-drain v) (r.1 clear) r.2 in
        let gone = batch-eager i s out sh (length-drain v) (r.1 clear) in
        rw (flush_runs net i s c e busy, clear)
          (
            sym (append-nil _)
                ∙ ap (λ l. stream s (send_batch net i s out sh).world ++ l) (sym gone)
                ∙ b.0
                ∙ resumed-promised i s c v f own clear,
            (drain_lem v).emptied,
          )
