-- ===== src/Cycle/Queue.antt =====
-- The close queue of src/poll.c: what a round of `do_mtcp_poll` leaves in it. A finished close makes
-- room for the last element, so that the order is lost; what counts is the bag of the sockets.
use mathlib.Core.List.{Perm}
use mathlib.Core.List.Perm
use mathlib.Core.Quot.{Quot, mk, sound}
use vmodem.Prelude.{
  ℕ, zero, suc, ◌-◌, ◌≤◌, ◌<◌, ◌≡◌, refl, sym, ap, ◌∙◌, subst, Bool, true, false, not, List, [],
  ◌∷◌, ◌++◌, append-nil, append_assoc, arith, Bool-cases, inl, inr, length, get_or, set, take, drop,
  if◌then◌else◌, take_all, drop_all, drop-get_or, length-take,
}
use vmodem.Mtcp.{Mtcp}
use vmodem.Mtcp.Outgoing.{Outgoing}
use vmodem.Port.{Shared}
use vmodem.Cycle.{drain_one, drain_closing}

-- The sockets without their order.
abbrev pub bag : List ℕ → Quot (Perm {A = ℕ})
bag xs = mk xs

abbrev pub select : (ℕ → Bool) → List ℕ → List ℕ
select p [] = []
select p (x ∷ xs) = if p x then x ∷ select p xs else select p xs

-- What is documented of the end of a close: `isCloseDone` tells the state of the socket, which
-- neither asking nor freeing changes, for any socket; `freed` lists the sockets given back, the latest first.
pub record CloseLaws {W : Type 0} (out : Outgoing W) (net : Mtcp W) (done : W → ℕ → Bool)
    (freed : W → List ℕ) : Type 0 where
  pub verdict : (n : ℕ) (w : W) → (out.is_close_done n w).0 ≡ done w n
  pub done-ask : (n : ℕ) (w : W) → done (out.is_close_done n w).1 ≡ done w
  pub done-free : (n : ℕ) (w : W) → done (net.free_socket n w) ≡ done w
  pub freed-ask : (n : ℕ) (w : W) → freed (out.is_close_done n w).1 ≡ freed w
  pub freed-free : (n : ℕ) (w : W) → freed (net.free_socket n w) ≡ n ∷ freed w

-- The last element takes the place of the element `i`.
abbrev swap_at : ℕ → ℕ → List ℕ → List ℕ
swap_at i last xs = take last (set xs i (get_or xs last 0))

abbrev swap_out : ℕ → List ℕ → List ℕ
swap_out i xs = swap_at i (length xs - 1) xs

pred-length : (x : ℕ) (xs : List ℕ) → length (x ∷ xs) - 1 ≡ length xs
pred-length x xs = omega arith

last-Perm :
    (y : ℕ) (ys : List ℕ)
    → Perm (get_or (y ∷ ys) (length ys) 0 ∷ take (length ys) (y ∷ ys)) (y ∷ ys)
last-Perm y [] = Perm.refl (y ∷ [])
last-Perm y (z ∷ zs) =
    Perm.trans (Perm.swap y (get_or (z ∷ zs) (length zs) 0) (take (length zs) (z ∷ zs)))
      (Perm.cons y (last-Perm z zs))

swap_out-cons : (i x y : ℕ) (ys : List ℕ) → swap_out (suc i) (x ∷ y ∷ ys) ≡ x ∷ swap_out i (y ∷ ys)
swap_out-cons i x y ys =
    ap (λ m. swap_at (suc i) m (x ∷ y ∷ ys)) (pred-length x (y ∷ ys))
    ∙ ap (λ m. x ∷ swap_at i m (y ∷ ys)) (sym (pred-length y ys))

take-swap_out : (i : ℕ) (xs : List ℕ) → i < length xs → take i (swap_out i xs) ≡ take i xs
take-swap_out i [] h = absurd (omega arith)
take-swap_out zero (x ∷ xs) h = refl
take-swap_out (suc i) (x ∷ []) h = absurd (omega arith)
take-swap_out (suc i) (x ∷ y ∷ ys) h =
    ap (take (suc i)) (swap_out-cons i x y ys)
    ∙ ap (λ l. x ∷ l) (take-swap_out i (y ∷ ys) (omega arith))

drop-swap_out-Perm :
    (i : ℕ) (xs : List ℕ) → i < length xs → Perm (drop i (swap_out i xs)) (drop (suc i) xs)
drop-swap_out-Perm i [] h = absurd (omega arith)
drop-swap_out-Perm zero (x ∷ []) h = Perm.nil
drop-swap_out-Perm zero (x ∷ y ∷ ys) h =
    subst (λ m. Perm (swap_at 0 m (x ∷ y ∷ ys)) (y ∷ ys)) (sym (pred-length x (y ∷ ys)))
      (last-Perm y ys)
drop-swap_out-Perm (suc i) (x ∷ []) h = absurd (omega arith)
drop-swap_out-Perm (suc i) (x ∷ y ∷ ys) h =
    subst (λ l. Perm (drop (suc i) l) (drop (suc i) (y ∷ ys))) (sym (swap_out-cons i x y ys))
      (drop-swap_out-Perm i (y ∷ ys) (omega arith))

select-append : (p : ℕ → Bool) (xs ys : List ℕ) → select p (xs ++ ys) ≡ select p xs ++ select p ys
select-append p [] ys = refl
select-append p (x ∷ xs) ys = elim (Bool-cases (p x)) [
  | inl e ↦ rw e (ap (λ l. x ∷ l) (select-append p xs ys))
  | inr e ↦ rw e (select-append p xs ys)
]

take-suc :
    (i : ℕ) (xs : List ℕ) → i < length xs → take (suc i) xs ≡ take i xs ++ (get_or xs i 0 ∷ [])
take-suc i [] h = absurd (omega arith)
take-suc zero (x ∷ xs) h = refl
take-suc (suc i) (x ∷ xs) h = ap (λ l. x ∷ l) (take-suc i xs (omega arith))

select-take-suc :
    (p : ℕ → Bool) (i : ℕ) (xs : List ℕ) (r : List ℕ)
    → i < length xs
    → select p (take (suc i) xs) ++ r ≡ select p (take i xs) ++ (select p (get_or xs i 0 ∷ []) ++ r)
select-take-suc p i xs r h =
    ap (λ l. select p l ++ r) (take-suc i xs h)
    ∙ ap (λ l. l ++ r) (select-append p (take i xs) (get_or xs i 0 ∷ []))
    ∙ append_assoc (select p (take i xs)) (select p (get_or xs i 0 ∷ [])) r

module _ {W : Type 0} (out : Outgoing W) (net : Mtcp W) {done : W → ℕ → Bool} {freed : W → List ℕ}
    (laws : CloseLaws out net done freed) where
  -- One element: those before it stay, those behind it may change places.
  drain_one_lem :
      (i : ℕ) (sh : Shared W)
      → i < length sh.closing
      → let sh' = drain_one out net i sh in
        let n = get_or sh.closing i 0 in
        (take i sh'.closing ≡ take i sh.closing)
        × Perm
            (drop i sh'.closing)
            (select (λ m. not (done sh.world m)) (n ∷ []) ++ drop (suc i) sh.closing)
        × (done sh'.world ≡ done sh.world)
        × (freed sh'.world ≡ select (done sh.world) (n ∷ []) ++ freed sh.world)
  unfolding drain_one
  drain_one_lem i sh h =
      let n = get_or sh.closing i 0 in
      let answer = laws.verdict n sh.world in
      elim (Bool-cases (done sh.world n)) [
        | inl e ↦
            let says : (out.is_close_done n sh.world).0 ≡ true = answer ∙ e in
            rw (e, says, drain_one)
              (
                take-swap_out i sh.closing h,
                drop-swap_out-Perm i sh.closing h,
                laws.done-free n (out.is_close_done n sh.world).1 ∙ laws.done-ask n sh.world,
                laws.freed-free n (out.is_close_done n sh.world).1
                    ∙ ap (λ l. n ∷ l) (laws.freed-ask n sh.world),
              )
        | inr e ↦
            let says : (out.is_close_done n sh.world).0 ≡ false = answer ∙ e in
            rw (e, says, drain_one)
              (
                refl,
                subst (λ l. Perm l (n ∷ drop (suc i) sh.closing))
                    (sym (drop-get_or i sh.closing 0 h)) (Perm.refl (n ∷ drop (suc i) sh.closing)),
                laws.done-ask n sh.world,
                laws.freed-ask n sh.world,
              )
      ]

  length-drain_one_le :
      (i : ℕ) (sh : Shared W) → i < length sh.closing → i ≤ length (drain_one out net i sh).closing
  length-drain_one_le i sh h = omega (
    arith,
    length-take i sh.closing,
    length-take i (drain_one out net i sh).closing,
    ap length (drain_one_lem i sh h).0,
  )

  drain_closing_lem :
      (i : ℕ) (sh : Shared W)
      → i ≤ length sh.closing
      → Perm
          (drain_closing out net i sh).closing
          (select (λ m. not (done sh.world m)) (take i sh.closing) ++ drop i sh.closing)
        × (freed (drain_closing out net i sh).world
            ≡ select (done sh.world) (take i sh.closing) ++ freed sh.world)
  unfolding drain_closing
  drain_closing_lem zero sh h = (Perm.refl sh.closing, refl)
  drain_closing_lem (suc i) sh h =
      let s1 = drain_one out net i sh in
      let q = drain_closing out net i s1 in
      let waits : ℕ → Bool = λ m. not (done sh.world m) in
      let (front, back, same, given) = drain_one_lem i sh (omega arith) in
      let (ih, ihf) = drain_closing_lem i s1 (length-drain_one_le i sh (omega arith)) in
      let seen =
        subst
          (λ d. Perm q.closing (select (λ m. not (d m)) (take i s1.closing) ++ drop i s1.closing))
          same ih in
      let seen' = subst (λ l. Perm q.closing (select waits l ++ drop i s1.closing)) front seen in
      (
        subst (Perm q.closing)
            (sym (select-take-suc waits i sh.closing (drop (suc i) sh.closing) h))
            (Perm.trans seen' (Perm.append_left (select waits (take i sh.closing)) back)),
        ihf
            ∙ ap (λ d. select d (take i s1.closing) ++ freed s1.world) same
            ∙ ap (λ l. select (done sh.world) l ++ freed s1.world) front
            ∙ ap (λ l. select (done sh.world) (take i sh.closing) ++ l) given
            ∙ sym (select-take-suc (done sh.world) i sh.closing (freed sh.world) h),
      )

  -- A round over the close queue, of a network whose `isCloseDone` tells the state of a socket: the
  -- queue keeps exactly the sockets whose close is not done, as a bag, and the others are given back
  -- once each, the last one of the queue first.
  pub drain_closing-select :
      (sh : Shared W)
      → (bag (drain_closing out net (length sh.closing) sh).closing
          ≡ bag (select (λ n. not (done sh.world n)) sh.closing))
        × (freed (drain_closing out net (length sh.closing) sh).world
            ≡ select (done sh.world) sh.closing ++ freed sh.world)
  drain_closing-select sh =
      let xs = sh.closing in
      let (kept, given) = drain_closing_lem (length xs) sh (omega arith) in
      let waits : ℕ → Bool = λ m. not (done sh.world m) in
      let whole = take_all (length xs) xs (omega arith) in
      (
        sound kept
            ∙ ap (λ l. bag (select waits l ++ drop (length xs) xs)) whole
            ∙ ap (λ l. bag (select waits xs ++ l)) (drop_all (length xs) xs (omega arith))
            ∙ ap bag (append-nil (select waits xs)),
        given ∙ ap (λ l. select (done sh.world) l ++ freed sh.world) whole,
      )
