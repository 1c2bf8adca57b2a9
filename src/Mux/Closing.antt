-- ===== src/Mux/Closing.antt =====
-- What becomes of a close that MUX_SOCK_CLOSE asks for (src/int8.c) in step 3 of the next poll cycle
-- (src/poll.c).
use vmodem.Prelude.{
  ℕ, ◌%◌, ◌<◌, ◌&&◌, not, ◌≡◌, ◌≢◌, refl, ap, sym, ◌∙◌, Bool-cases, true, false, none, some, inl,
  inr, ◌⊎◌, List, arith, length, lt→ltb, set, get_or-set_self, get_or-set_ne, subst, length-set,
}
use vmodem.Mtcp.{Mtcp}
use vmodem.Mtcp.Outgoing.{Outgoing}
use vmodem.Net.{sock_close_fast}
use vmodem.System.{
  ExtState, ext_free, ext_established, ext_remote_closed, ext_error, ext_closing, ExtSocket, System,
  no_ext, sys_world, answer, ext_code,
}
use vmodem.Mux.{slot, with_slot, handle_sock, sock_close, sock_status, status_of}
use vmodem.Cycle.External.{deferred_connect, close_or_track, tracked, service_slot}

slot_self : (es : List ExtSocket) (h : ℕ) (e : ExtSocket) → h < length es → slot h (set es h e) ≡ e
slot_self es h e lt = get_or-set_self es h e no_ext lt

slot_other :
    (es : List ExtSocket) {h k : ℕ} (e : ExtSocket) → h ≢ k → slot k (set es h e) ≡ slot k es
slot_other es e ne = get_or-set_ne es e no_ext ne

-- The slot `h` has the socket `n`.
pub record HasSocket {W : Type 0} (h n : ℕ) (s : System W) : Type 0 where
  pub in_range : h < 4
  pub slots : length s.ext_sockets ≡ 4
  pub owned : (slot h s.ext_sockets).sock ≡ some n

module _ {W : Type 0} where
  handle_lem :
      {h n : ℕ} {s : System W} → HasSocket h n s → handle_sock (h % 256) s.ext_sockets ≡ some n
  unfolding handle_sock
  handle_lem {h} {n} {s} v =
      let e : h % 256 ≡ h = omega (arith, v) in
      ap (λ k. handle_sock k s.ext_sockets) e ∙ rw (lt→ltb h 4 v.in_range) v.owned

  -- The slot after the request.
  abbrev closing_slot : ℕ → System W → ExtSocket
  closing_slot h s = record (slot h s.ext_sockets) { state = ext_closing }

  sock_close_lem :
      (h n : ℕ) (s : System W)
      → HasSocket h n s
      → sock_close h s ≡ answer 0 (with_slot h (closing_slot h s) s)
  unfolding sock_close
  sock_close_lem h n s v =
      let e : h % 256 ≡ h = omega (arith, v) in
      rw (handle_lem v, sock_close) (ap (λ k. answer 0 (with_slot k (closing_slot k s) s)) e)

module _ {W : Type 0} (net : Mtcp W) (out : Outgoing W) where
  service_lem :
      (h n : ℕ) (s : System W)
      → (slot h s.ext_sockets).sock ≡ some n
      → service_slot net out h s ≡ close_or_track net out h n (deferred_connect net out h n s)
  unfolding service_slot
  service_lem h n s e =
      ap
        (λ o. elim o as (λ x. System W) [
          | none ↦ s
          | some m ↦ close_or_track net out h m (deferred_connect net out h m s)
        ])
        e

  connect_lem :
      (h n : ℕ) (s : System W)
      → (slot h s.ext_sockets).pending_connect ≡ false
      → deferred_connect net out h n s ≡ s
  unfolding deferred_connect
  connect_lem h n s e = ground (arith, e)

  close_lem :
      (h n : ℕ) (s : System W)
      → (slot h s.ext_sockets).state ≡ ext_closing
      → close_or_track net out h n s
        ≡ with_slot h
            (record (slot h s.ext_sockets) { sock = none; state = ext_free })
            (record s { shared = sock_close_fast net n s.shared })
  unfolding close_or_track
  close_lem h n s e = ground (arith, e)

  -- The shared state and the slots after the request and the service of its slot.
  abbrev closed : ℕ → System W → System W
  closed h s = service_slot net out h (sock_close h s)

  -- A close that is asked for on a slot with a socket and no connect to come: the service of the slot
  -- gives the socket to `sock_close_fast`, frees the slot and leaves the other slots as they are.
  pub close-service :
      (h n : ℕ) (s : System W)
      → HasSocket h n s
      → (slot h s.ext_sockets).pending_connect ≡ false
      → ((closed h s).shared ≡ sock_close_fast net n s.shared)
        × ((slot h (closed h s).ext_sockets).sock ≡ none)
        × ((slot h (closed h s).ext_sockets).state ≡ ext_free)
        × ((k : ℕ) → h ≢ k → slot k (closed h s).ext_sockets ≡ slot k s.ext_sockets)
  close-service h n s v idle =
      let lt : h < length s.ext_sockets = omega (arith, v) in
      let s1 = answer 0 (with_slot h (closing_slot h s) s) in
      let own = slot_self s.ext_sockets h (closing_slot h s) lt in
      let lt1 : h < length s1.ext_sockets =
        omega (arith, v, length-set s.ext_sockets h (closing_slot h s)) in
      let e1 = record (slot h s1.ext_sockets) { sock = none; state = ext_free } in
      let all =
        ap (service_slot net out h) (sock_close_lem h n s v)
        ∙ service_lem h n s1 (ap (λ (d : ExtSocket). d.sock) own ∙ v.owned)
        ∙ ap (close_or_track net out h n)
            (connect_lem h n s1 (ap (λ (d : ExtSocket). d.pending_connect) own ∙ idle))
        ∙ close_lem h n s1 (ap (λ (d : ExtSocket). d.state) own) in
      let freed =
        ap (λ (t : System W). slot h t.ext_sockets) all ∙ slot_self s1.ext_sockets h e1 lt1 in
      (
        ap (λ (t : System W). t.shared) all,
        ap (λ (d : ExtSocket). d.sock) freed,
        ap (λ (d : ExtSocket). d.state) freed,
        λ k ne.
            ap (λ (t : System W). slot k t.ext_sockets) all
            ∙ slot_other s1.ext_sockets e1 ne
            ∙ slot_other s.ext_sockets (closing_slot h s) ne,
      )

  status_lem :
      (h n : ℕ) (s : System W) (st : ExtState)
      → HasSocket h n s
      → status_of net out n (slot h s.ext_sockets).state (sys_world s) ≡ st
      → sock_status net out h s
        ≡ answer (ext_code st) (with_slot h (record (slot h s.ext_sockets) { state = st }) s)
  unfolding sock_status
  status_lem h n s st v e =
      let m : h % 256 ≡ h = omega (arith, v) in
      rw (handle_lem v, sock_status)
        (ap
            (λ k.
              let x = status_of net out n (slot k s.ext_sockets).state (sys_world s) in
              answer (ext_code x) (with_slot k (record (slot k s.ext_sockets) { state = x }) s))
            m
          ∙ ap
              (λ x.
                answer (ext_code x) (with_slot h (record (slot h s.ext_sockets) { state = x }) s))
              e)

  -- A complete connection stands as such, whatever the state was.
  complete_lem :
      (n : ℕ) (old : ExtState) (w : W)
      → out.is_connect_complete n w ≡ true
      → (status_of net out n old w ≡ ext_established)
        ⊎ (status_of net out n old w ≡ ext_remote_closed)
        ⊎ (status_of net out n old w ≡ ext_error)
  unfolding status_of
  complete_lem n old w e =
      let gone = net.is_remote_closed n w && not (net.recv_waiting n w) in
      elim (Bool-cases gone) [
        | inl g ↦ inr (inl (ground (arith, e, g)))
        | inr g ↦ inl (ground (arith, e, g))
      ]

  kept_lem :
      (h n : ℕ) (s : System W)
      → ((slot h s.ext_sockets).state ≡ ext_established)
        ⊎ ((slot h s.ext_sockets).state ≡ ext_remote_closed)
        ⊎ ((slot h s.ext_sockets).state ≡ ext_error)
      → close_or_track net out h n s
        ≡ with_slot h
            (record (slot h s.ext_sockets) {
              state = tracked net out n (slot h s.ext_sockets).state (sys_world s);
            })
            s
  unfolding close_or_track
  kept_lem h n s (inl e) = ground (arith, e)
  kept_lem h n s (inr (inl e)) = ground (arith, e)
  kept_lem h n s (inr (inr e)) = ground (arith, e)

  -- A slot that has its socket and whose state is not `ext_closing` keeps the socket.
  stays_lem :
      (h n : ℕ) (s : System W) (e : ExtSocket)
      → HasSocket h n s
      → e.sock ≡ some n
      → e.pending_connect ≡ false
      → (e.state ≡ ext_established) ⊎ (e.state ≡ ext_remote_closed) ⊎ (e.state ≡ ext_error)
      → ((slot h (service_slot net out h (with_slot h e s)).ext_sockets).sock ≡ some n)
        × ((service_slot net out h (with_slot h e s)).shared ≡ s.shared)
  stays_lem h n s e v z idle st =
      let lt : h < length s.ext_sockets = omega (arith, v) in
      let s1 = with_slot h e s in
      let own = slot_self s.ext_sockets h e lt in
      let lt1 : h < length s1.ext_sockets = omega (arith, v, length-set s.ext_sockets h e) in
      let st1 =
        subst
          (λ (d : ExtSocket).
            (d.state ≡ ext_established) ⊎ (d.state ≡ ext_remote_closed) ⊎ (d.state ≡ ext_error))
          (sym own) st in
      let e1 = record (slot h s1.ext_sockets) {
        state = tracked net out n (slot h s1.ext_sockets).state (sys_world s1);
      } in
      let all =
        service_lem h n s1 (ap (λ (d : ExtSocket). d.sock) own ∙ z)
        ∙ ap (close_or_track net out h n)
            (connect_lem h n s1 (ap (λ (d : ExtSocket). d.pending_connect) own ∙ idle))
        ∙ kept_lem h n s1 st1 in
      (
        ap (λ (t : System W). (slot h t.ext_sockets).sock) all
            ∙ ap (λ (d : ExtSocket). d.sock) (slot_self s1.ext_sockets h e1 lt1)
            ∙ ap (λ (d : ExtSocket). d.sock) own
            ∙ z,
        ap (λ (t : System W). t.shared) all,
      )

  -- A close is lost when the state of the slot is asked for before the next poll cycle and the
  -- connection is complete: the service of the slot then leaves it its socket and closes nothing.
  pub close-status_lost :
      (h n : ℕ) (s : System W)
      → HasSocket h n s
      → (slot h s.ext_sockets).pending_connect ≡ false
      → out.is_connect_complete n (sys_world s) ≡ true
      → ((slot h (service_slot net out h (sock_status net out h (sock_close h s))).ext_sockets).sock
          ≡ some n)
        × ((service_slot net out h (sock_status net out h (sock_close h s))).shared ≡ s.shared)
  close-status_lost h n s v idle complete =
      let lt : h < length s.ext_sockets = omega (arith, v) in
      let s1 = answer 0 (with_slot h (closing_slot h s) s) in
      let own = slot_self s.ext_sockets h (closing_slot h s) lt in
      let owned = ap (λ (d : ExtSocket). d.sock) own ∙ v.owned in
      let v1 : HasSocket h n s1 = record {
        in_range = v.in_range;
        slots = length-set s.ext_sockets h (closing_slot h s) ∙ v.slots;
        owned = owned;
      } in
      let st = status_of net out n (slot h s1.ext_sockets).state (sys_world s1) in
      let s2 = answer (ext_code st) s1 in
      let v2 : HasSocket h n s2 = record {
        in_range = v.in_range;
        slots = v1.slots;
        owned = owned;
      } in
      let all =
        ap (λ t. service_slot net out h (sock_status net out h t)) (sock_close_lem h n s v)
        ∙ ap (service_slot net out h) (status_lem h n s1 st v1 refl) in
      let (kept, same) =
        stays_lem h n s2 (record (slot h s1.ext_sockets) { state = st }) v2 owned
          (ap (λ (d : ExtSocket). d.pending_connect) own ∙ idle)
          (complete_lem n (slot h s1.ext_sockets).state (sys_world s1) complete) in
      (
        ap (λ (t : System W). (slot h t.ext_sockets).sock) all ∙ kept,
        ap (λ (t : System W). t.shared) all ∙ same,
      )
