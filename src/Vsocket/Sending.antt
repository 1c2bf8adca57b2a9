-- ===== src/Vsocket/Sending.antt =====
-- `send` of src/lib/vsocket.c returns, and what it returns is what has been taken.
use vmodem.Prelude.{
  take-take, take_add, ℕ, zero, suc, ◌+◌, ◌-◌, ◌*◌, ◌≤◌, ◌<◌, ◌≡◌, refl, sym, ap, ◌∙◌, Bool-cases,
  true, false, Option, none, some, Option-cases, inl, inr, ◌⊎◌, List, [], ◌∷◌, ◌++◌, append_assoc,
  append-nil, take, drop, length, length-take, length-drop, arith, ltb, subst,
}
use vmodem.Vsocket.Api.{MuxApi, ApiLaws}
use vmodem.Vsocket.{Client, with_mux, partial, send_wait, send_loop, send, fd_to_handle}

-- The bytes that a result reports: -1 reports none.
abbrev pub reported : Option ℕ → ℕ
reported none = 0
reported (some n) = n

-- How a call of `send` ends: the result and the state, what the stream of the connection has got and
-- whether everything was taken or the reason why not is in `errno`.
pub record Sent {V : Type 0} (stream : V → List ℕ) (before p : List ℕ) (total : ℕ)
    (o : Option (Option ℕ × Client V)) : Type 0 where
  pub result : Option ℕ
  pub after : Client V
  pub ends : o ≡ some (result, after)
  pub count : ℕ
  pub count_le : count ≤ length p
  pub reports : reported result ≡ total + count
  pub streamed : stream after.mux ≡ before ++ take count p
  pub whole_or_error : (count ≡ length p) ⊎ ((after.errno ≡ 104) ⊎ (after.errno ≡ 110))

module _ {V : Type 0} (api : MuxApi V) {Up : V → Type 0} (h : ℕ) (stream : V → List ℕ)
    (laws : ApiLaws api Up h stream) where
  -- What one call of the interface takes of `p`, and the state after it.
  abbrev taken : List ℕ → Client V → ℕ
  taken p c = (api.send h (take 1024 p) c.mux).0

  abbrev offered : List ℕ → Client V → Client V
  offered p c = with_mux (api.send h (take 1024 p) c.mux).1 c

  wait-stream :
      (total retries : ℕ) (c : Client V)
      → Up c.mux
      → (stream (send_wait api h total retries c).1.mux ≡ stream c.mux)
        × Up (send_wait api h total retries c).1.mux
  unfolding send_wait
  wait-stream total retries c u =
      let v = (api.status h c.mux).1 in
      let u1 = laws.status-Up c.mux u in
      let u2 = laws.poll-Up v u1 in
      let u3 = laws.idle-Up (api.poll v) u2 in
      let s1 = laws.stream-status c.mux u in
      let s2 = laws.stream-poll v u1 ∙ s1 in
      let s3 = laws.stream-idle (api.poll v) u2 ∙ s2 in ground (arith, s1, s2, s3, u1, u2, u3)

  wait-over :
      (total retries : ℕ) (c : Client V) {r : Option ℕ}
      → (send_wait api h total retries c).0 ≡ some r
      → (r ≡ partial total)
        × (((send_wait api h total retries c).1.errno ≡ 104)
            ⊎ ((send_wait api h total retries c).1.errno ≡ 110))
  unfolding send_wait
  wait-over total retries c e = ground (arith, e)

  wait-goes_on :
      (total retries : ℕ) (c : Client V)
      → (send_wait api h total retries c).0 ≡ none
      → retries < 2000
  unfolding send_wait
  wait-goes_on total retries c e = ground (arith, e)

  step_taken :
      (fuel b : ℕ) (p : List ℕ) (total retries : ℕ) (c : Client V)
      → ltb 0 (taken (b ∷ p) c) ≡ true
      → send_loop api (suc fuel) h (b ∷ p) total retries c
        ≡ send_loop api fuel h
            (drop (taken (b ∷ p) c) (b ∷ p))
            (total + taken (b ∷ p) c)
            0
            (offered (b ∷ p) c)
  unfolding send_loop
  step_taken fuel b p total retries c e = ground (arith, e)

  step_over :
      (fuel b : ℕ) (p : List ℕ) (total retries : ℕ) (c : Client V) {r : Option ℕ}
      → ltb 0 (taken (b ∷ p) c) ≡ false
      → (send_wait api h total retries (offered (b ∷ p) c)).0 ≡ some r
      → send_loop api (suc fuel) h (b ∷ p) total retries c
        ≡ some (r, (send_wait api h total retries (offered (b ∷ p) c)).1)
  unfolding send_loop
  step_over fuel b p total retries c e o = ground (arith, e, o)

  step_again :
      (fuel b : ℕ) (p : List ℕ) (total retries : ℕ) (c : Client V)
      → ltb 0 (taken (b ∷ p) c) ≡ false
      → (send_wait api h total retries (offered (b ∷ p) c)).0 ≡ none
      → send_loop api (suc fuel) h (b ∷ p) total retries c
        ≡ send_loop api fuel h
            (b ∷ p)
            total
            (retries + 1)
            (send_wait api h total retries (offered (b ∷ p) c)).1
  unfolding send_loop
  step_again fuel b p total retries c e o = ground (arith, e, o)

  offered-stream :
      (p : List ℕ) (c : Client V)
      → Up c.mux
      → (taken p c ≤ length p)
        × (stream (offered p c).mux ≡ stream c.mux ++ take (taken p c) p)
        × Up (offered p c).mux
  offered-stream p c u =
      let le = laws.taken_le (take 1024 p) c.mux u in
      let len = length-take 1024 p in
      (
        omega (arith, le, len),
        laws.stream-send (take 1024 p) c.mux u
            ∙ ap (λ l. stream c.mux ++ l) (take-take (taken p c) 1024 p (omega (arith, le, len))),
        laws.send-Up (take 1024 p) c.mux u,
      )

  -- Enough rounds for `len` bytes: each takes a byte at least or is one of 2000 that may fail.
  abbrev rounds_needed : ℕ → ℕ → ℕ
  rounds_needed len retries = len * 2001 + (2000 - retries)

  over_lem :
      (p : List ℕ) (total retries : ℕ) (c c1 : Client V) (r : Option ℕ)
      (o : Option (Option ℕ × Client V))
      → o ≡ some (r, c1)
      → r ≡ partial total
      → stream c1.mux ≡ stream c.mux
      → (c1.errno ≡ 104) ⊎ (c1.errno ≡ 110)
      → Sent stream (stream c.mux) p total o
  over_lem p total retries c c1 r o e er es err = record {
    result = r;
    after = c1;
    ends = e;
    count = 0;
    count_le = omega arith;
    reports = ap reported er ∙ ground arith;
    streamed = es ∙ sym (append-nil (stream c.mux));
    whole_or_error = inr err;
  }

  more_lem :
      (p : List ℕ) (total n : ℕ) (before : List ℕ) (o o' : Option (Option ℕ × Client V))
      → n ≤ length p
      → o ≡ o'
      → Sent stream (before ++ take n p) (drop n p) (total + n) o'
      → Sent stream before p total o
  more_lem p total n before o o' le e v = record {
    result = v.result;
    after = v.after;
    ends = e ∙ v.ends;
    count = n + v.count;
    count_le = omega (arith, v.count_le, length-drop n p);
    reports = omega (arith, v.reports);
    streamed =
        v.streamed
        ∙ append_assoc before (take n p) (take v.count (drop n p))
        ∙ ap (λ l. before ++ l) (take_add n v.count p);
    whole_or_error = elim (v.whole_or_error) [
      | inl w ↦ inl (omega (arith, w, le, length-drop n p))
      | inr w ↦ inr w
    ];
  }

  send_loop_lem :
      (fuel : ℕ) (p : List ℕ) (total retries : ℕ) (c : Client V)
      → Up c.mux
      → retries ≤ 2000
      → rounds_needed (length p) retries < fuel
      → Sent stream (stream c.mux) p total (send_loop api fuel h p total retries c)
  unfolding send_loop
  send_loop_lem zero p total retries c u r f = absurd (omega arith)
  send_loop_lem (suc fuel) [] total retries c u r f = record {
    result = some total;
    after = with_mux (api.poll c.mux) c;
    ends = refl;
    count = 0;
    count_le = omega arith;
    reports = omega arith;
    streamed = laws.stream-poll c.mux u ∙ sym (append-nil (stream c.mux));
    whole_or_error = inl refl;
  }
  send_loop_lem (suc fuel) (b ∷ p) total retries c u r f =
      let n = taken (b ∷ p) c in
      let c1 = offered (b ∷ p) c in
      let (le, seen, u1) = offered-stream (b ∷ p) c u in
      elim (Bool-cases (ltb 0 n)) [
        | inl e ↦
            let rest =
              send_loop_lem fuel (drop n (b ∷ p)) (total + n) 0 c1 u1 (omega arith)
                (ground (arith, le, length-drop n (b ∷ p))) in
            more_lem (b ∷ p) total n (stream c.mux) _ _ le (step_taken fuel b p total retries c e) (
              subst
                (λ t.
                  Sent stream t (drop n (b ∷ p)) (total + n)
                    (send_loop api fuel h (drop n (b ∷ p)) (total + n) 0 c1))
                seen rest)
        | inr e ↦
            let z : n ≡ 0 = ground arith in
            let same : stream c1.mux ≡ stream c.mux =
              seen ∙ ap (λ k. stream c.mux ++ take k (b ∷ p)) z ∙ append-nil (stream c.mux) in
            let c2 = (send_wait api h total retries c1).1 in
            let (quiet, u2) = wait-stream total retries c1 u1 in
            let kept = quiet ∙ same in
            elim (Option-cases (send_wait api h total retries c1).0) [
              | inr (x, o) ↦
                  let (part, err) = wait-over total retries c1 o in
                  over_lem (b ∷ p) total retries c c2 x _ (step_over fuel b p total retries c e o)
                    part kept err
              | inl o ↦
                  let more = wait-goes_on total retries c1 o in
                  let rest =
                    send_loop_lem fuel (b ∷ p) total (retries + 1) c2 u2 (omega (arith, more))
                      (omega (arith, more)) in
                  subst (Sent stream (stream c.mux) (b ∷ p) total)
                    (sym (step_again fuel b p total retries c e o))
                    (subst
                      (λ t.
                        Sent stream t (b ∷ p) total
                          (send_loop api fuel h (b ∷ p) total (retries + 1) c2))
                      kept rest)
            ]
      ]

  -- `send` on an open descriptor, whose connection `h` is up and stays up under the calls that `send`
  -- makes, returns, within 2001 rounds for each byte: as many bytes as it reports, a first part of the
  -- caller's, have reached the end of the connection's stream, and it reports either all of them, or
  -- `errno` is ECONNRESET or ETIMEDOUT; -1 stands for none.
  pub send-Sent :
      (fuel fd : ℕ) (buf : List ℕ) (c : Client V)
      → Up c.mux
      → fd_to_handle fd c ≡ some h
      → length buf * 2001 + 2000 < fuel
      → Sent stream (stream c.mux) buf 0 (send api fuel fd buf c)
  unfolding send
  send-Sent fuel fd buf c u e f =
      rw (e, send) (send_loop_lem fuel buf 0 0 c u (omega arith) (omega (arith, f)))
