-- ===== src/Cycle/Safe.antt =====
-- The state of the resident program is well formed, and a poll cycle (src/poll.c) keeps it so.
use vmodem.Prelude.{
  ℕ, zero, suc, ◌+◌, ◌≤◌, ◌<◌, ◌≡◌, refl, ltb, if◌then◌else◌, false, none, some, Option-cases, inl,
  inr, List, [], ◌∷◌, arith, length, get_elem?, set, length-set, get_or-set_self, Bool-cases, ap,
  sym, subst,
}
use vmodem.Mtcp.{Mtcp}
use vmodem.Mtcp.Outgoing.{Outgoing}
use vmodem.Ring.{ring_bits, tx_ring_bits}
use vmodem.Ring.Inv.{IsValid}
use vmodem.Tx.Order.{PendingFits}
use vmodem.Port.{Line, Shared, Ctx}
use vmodem.At.Input.Bounds.{IsSafe}
use vmodem.System.{ext_free, ext_error, ExtSocket, System, sys_world, with_sys_world}
use vmodem.Net.{sock_close_fast}
use vmodem.Mux.{slot, with_slot}
use vmodem.System.{no_ext}
use vmodem.Cycle.{on_line}
use vmodem.Cycle.External.{
  deferred_connect, next_port, close_or_track, service_slot, service_slots, tracked,
}

pub record LineSafe (l : Line) : Type 0 where
  pub room : l.at.pos < 128
  pub storage : length l.at.buf ≡ 128
  pub rx_valid : IsValid ring_bits l.port.rx
  pub tx_valid : IsValid tx_ring_bits l.tx

abbrev pub AllSafe : List Line → Type 0
AllSafe [] = Unit {0}
AllSafe (l ∷ ls) = LineSafe l × AllSafe ls

-- A slot without a socket is free and has nothing to connect.
abbrev pub SlotValid : ExtSocket → Type 0
SlotValid e = elim (e.sock) [
  | none ↦ (e.state ≡ ext_free) × (e.pending_connect ≡ false)
  | some n ↦ Unit {0}
]

abbrev pub AllValid : List ExtSocket → Type 0
AllValid [] = Unit {0}
AllValid (e ∷ es) = SlotValid e × AllValid es

pub record SysSafe {W : Type 0} (s : System W) : Type 0 where
  pub lines_safe : AllSafe s.lines
  pub pending_fits : PendingFits s.shared.pending
  pub slot_count : length s.ext_sockets ≡ 4
  pub slots_valid : AllValid s.ext_sockets
  pub port_low : 16384 ≤ s.ephemeral_port
  pub port_high : s.ephemeral_port ≤ 32000

AllSafe-get :
    (ls : List Line) (j : ℕ) {l : Line} → AllSafe ls → get_elem? ls j ≡ some l → LineSafe l
AllSafe-get [] j h e = cc
AllSafe-get (k ∷ ls) zero (h, hs) e = ground (arith, h)
AllSafe-get (k ∷ ls) (suc j) (h, hs) e = AllSafe-get ls j hs e

AllSafe-set : (ls : List Line) (j : ℕ) (l : Line) → AllSafe ls → LineSafe l → AllSafe (set ls j l)
AllSafe-set [] j l h v = tt
AllSafe-set (k ∷ ls) zero l (h, hs) v = (v, hs)
AllSafe-set (k ∷ ls) (suc j) l (h, hs) v = (h, AllSafe-set ls j l hs v)

module _ {W : Type 0} where
  ctx_IsSafe :
      (l : Line) (sh : Shared W)
      → LineSafe l
      → PendingFits sh.pending
      → IsSafe (record { line = l; shared = sh })
  ctx_IsSafe l sh v h = record {
    room = v.room;
    storage = v.storage;
    rx_valid = v.rx_valid;
    tx_valid = v.tx_valid;
    fits = h;
  }

  line_LineSafe : (c : Ctx W) → IsSafe c → LineSafe c.line
  line_LineSafe c v = record {
    room = v.room;
    storage = v.storage;
    rx_valid = v.rx_valid;
    tx_valid = v.tx_valid;
  }

  pub on_line-SysSafe :
      (j : ℕ) (f : Ctx W → Ctx W) (s : System W)
      → ((c : Ctx W) → IsSafe c → IsSafe (f c))
      → SysSafe s
      → SysSafe (on_line j f s)
  unfolding on_line
  on_line-SysSafe j f s keep v = elim (Option-cases (get_elem? s.lines j)) [
    | inl e ↦ rw (e, on_line) v
    | inr (l, e) ↦
        let w =
          keep (record { line = l; shared = s.shared })
            (ctx_IsSafe l s.shared (AllSafe-get s.lines j v.lines_safe e) v.pending_fits) in
        rw (e, on_line)
          (record {
            lines_safe =
                AllSafe-set s.lines j (f (record { line = l; shared = s.shared })).line v.lines_safe
                  (line_LineSafe _ w);
            pending_fits = w.fits;
            slot_count = v.slot_count;
            slots_valid = v.slots_valid;
            port_low = v.port_low;
            port_high = v.port_high;
          })
  ]

AllValid-get : (es : List ExtSocket) (h : ℕ) → AllValid es → SlotValid (slot h es)
AllValid-get [] h v = (refl, refl)
AllValid-get (e ∷ es) zero (v, vs) = v
AllValid-get (e ∷ es) (suc h) (v, vs) = AllValid-get es h vs

AllValid-set :
    (es : List ExtSocket) (h : ℕ) (e : ExtSocket)
    → AllValid es
    → SlotValid e
    → AllValid (set es h e)
AllValid-set [] h e v w = tt
AllValid-set (d ∷ es) zero e (v, vs) w = (w, vs)
AllValid-set (d ∷ es) (suc h) e (v, vs) w = (v, AllValid-set es h e vs w)

pub some-SlotValid : (n : ℕ) (e : ExtSocket) → e.sock ≡ some n → SlotValid e
some-SlotValid n e h = ground (arith, h)

slot_in : (es : List ExtSocket) (h : ℕ) {n : ℕ} → (slot h es).sock ≡ some n → h < length es
slot_in [] h e = cc
slot_in (d ∷ es) zero e = omega arith
slot_in (d ∷ es) (suc h) e = omega (arith, slot_in es h e)

module _ {W : Type 0} where
  pub with_slot-SysSafe :
      (h : ℕ) (e : ExtSocket) (s : System W) → SlotValid e → SysSafe s → SysSafe (with_slot h e s)
  with_slot-SysSafe h e s w v =
      let vs = AllValid-set s.ext_sockets h e v.slots_valid w in
      ground (arith, v, vs, length-set s.ext_sockets h e)

  -- What the lines and the slots do not depend on.
  pub shared-SysSafe :
      (sh : Shared W) (s : System W)
      → sh.pending ≡ s.shared.pending
      → SysSafe s
      → SysSafe (record s { shared = sh })
  shared-SysSafe sh s e v =
      let f : PendingFits sh.pending = subst PendingFits (sym e) v.pending_fits in
      ground (arith, v, f)

module _ {W : Type 0} (net : Mtcp W) (out : Outgoing W) where
  pub fast-pending : (n : ℕ) (sh : Shared W) → (sock_close_fast net n sh).pending ≡ sh.pending
  unfolding sock_close_fast
  fast-pending n sh = ground arith

  connect-SysSafe :
      (h n : ℕ) (s : System W)
      → (slot h s.ext_sockets).sock ≡ some n
      → SysSafe s
      → SysSafe (deferred_connect net out h n s)
  unfolding deferred_connect next_port
  connect-SysSafe h n s e v =
      let d = slot h s.ext_sockets in
      let p = if ltb 32000 (s.ephemeral_port + 1) then 16384 else s.ephemeral_port + 1 in
      let (done, w) = out.connect_nonblocking n p d.conn_ip d.conn_port (sys_world s) in
      let s1 = with_sys_world w (record s { ephemeral_port = p }) in
      let v1 : SysSafe s1 = ground (arith, v) in
      let d1 = record d { pending_connect = false; state = if done then d.state else ext_error } in
      ground (arith, v, with_slot-SysSafe h d1 s1 (some-SlotValid n d1 e) v1)

  connect-idle :
      (h n : ℕ) (s : System W)
      → h < length s.ext_sockets
      → (slot h (deferred_connect net out h n s).ext_sockets).pending_connect ≡ false
  unfolding deferred_connect
  connect-idle h n s lt = elim (Bool-cases (slot h s.ext_sockets).pending_connect) [
    | inl e ↦
        rw (e, deferred_connect)
          (ap (λ (d : ExtSocket). d.pending_connect) (get_or-set_self s.ext_sockets h _ no_ext lt))
    | inr e ↦ rw (e, deferred_connect) e
  ]

  tracked-SlotValid :
      (n : ℕ) (w : W) (e : ExtSocket)
      → SlotValid e
      → SlotValid (record e { state = tracked net out n e.state w })
  unfolding tracked
  tracked-SlotValid n w e v = elim (Option-cases e.sock) [
    | inl z ↦ ground (arith, v, z)
    | inr (m, z) ↦ some-SlotValid m (record e { state = tracked net out n e.state w }) z
  ]

  track-SysSafe :
      (h n : ℕ) (s : System W)
      → (slot h s.ext_sockets).pending_connect ≡ false
      → SysSafe s
      → SysSafe (close_or_track net out h n s)
  unfolding close_or_track
  track-SysSafe h n s idle v =
      let e = slot h s.ext_sockets in
      let kept =
        with_slot-SysSafe h (record e { state = tracked net out n e.state (sys_world s) }) s
          (tracked-SlotValid n (sys_world s) e (AllValid-get s.ext_sockets h v.slots_valid)) v in
      let s1 = record s { shared = sock_close_fast net n s.shared } in
      let closed =
        with_slot-SysSafe h (record e { sock = none; state = ext_free }) s1 (refl, idle)
          (shared-SysSafe (sock_close_fast net n s.shared) s (fast-pending n s.shared) v) in
      ground (arith, kept, closed)

  slot-SysSafe : (h : ℕ) (s : System W) → SysSafe s → SysSafe (service_slot net out h s)
  unfolding service_slot
  slot-SysSafe h s v = elim (Option-cases (slot h s.ext_sockets).sock) [
    | inl e ↦ rw (e, service_slot) v
    | inr (n, e) ↦
        rw (e, service_slot)
          (track-SysSafe h n (deferred_connect net out h n s)
            (connect-idle h n s (slot_in s.ext_sockets h e)) (connect-SysSafe h n s e v))
  ]

  pub slots-SysSafe : (h k : ℕ) (s : System W) → SysSafe s → SysSafe (service_slots net out h k s)
  unfolding service_slots
  slots-SysSafe h zero s v = v
  slots-SysSafe h (suc k) s v =
      slots-SysSafe (h + 1) k (service_slot net out h s) (slot-SysSafe h s v)
