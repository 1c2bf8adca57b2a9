-- ===== src/Ring/Refine.antt =====
-- What the circular buffers hold: a bounded queue of bytes.
use vmodem.Prelude.{
  ℕ, zero, suc, ◌+◌, ◌-◌, ◌%◌, ◌^◌, ◌<◌, ◌≡◌, ◌≢◌, refl, ap, ap₂, sym, ◌∙◌, arith, Bool, true,
  false, Option, none, some, List, [], ◌∷◌, ◌++◌, length, set, get_or, get_or-set_self,
  get_or-set_ne, leb, if◌then◌else◌,
}
use native.Mathlib.Nat.{mod-mod, mod-add-mod, mod-lt, mod-eq_of_lt, mod-eq-sub-mod}
use native.Mathlib.Decide.{dec_lt}
use vmodem.Ring.{RingBuf, reset, put, get}
use vmodem.Ring.Inv.{IsValid, next_slot_lem, tail_in, put-IsValid, get-IsValid, reset-IsValid}

-- The bounded queue, oldest byte first.
abbrev pub Queue : Type 0
Queue = List ℕ

unfoldable pub enqueue : ℕ → Queue → ℕ → Bool × Queue
enqueue cap q b = if leb cap (length q) then (false, q) else (true, q ++ (b ∷ []))

unfoldable pub dequeue : Queue → Option ℕ × Queue
dequeue [] = (none, [])
dequeue (b ∷ q) = (some b, q)

module _ (slots : List ℕ) (m : ℕ) where
  -- The `n` bytes from index `h` on, an index being taken modulo `m`.
  abbrev pub segment : ℕ → ℕ → Queue
  segment h zero = []
  segment h (suc n) = get_or slots (h % m) 0 ∷ segment (h + 1) n

  pub length-segment : (h n : ℕ) → length (segment h n) ≡ n
  length-segment h zero = refl
  length-segment h (suc n) = ap suc (length-segment (h + 1) n)

  -- Only the remainder of the start matters.
  segment_cong : (h j n : ℕ) → h % m ≡ j % m → segment h n ≡ segment j n
  segment_cong h j zero e = refl
  segment_cong h j (suc n) e =
      ap₂ ◌∷◌ (ap (λ t. get_or slots t 0) e) (segment_cong (h + 1) (j + 1) n step)
    where
      step : (h + 1) % m ≡ (j + 1) % m
      step = sym (mod-add-mod h m 1) ∙ ap (λ t. (t + 1) % m) e ∙ mod-add-mod j m 1

  pub segment-mod : (h n : ℕ) → segment (h % m) n ≡ segment h n
  segment-mod h n = segment_cong (h % m) h n (mod-mod h m)

-- Fewer than `m` steps round do not come back.
mod-ne-mod_add : (h e m : ℕ) → 0 < e → e < m → h % m ≢ (h + e) % m
mod-ne-mod_add h e m pos lt = elim (dec_lt (h % m + e) m) [
  | yes p ↦ omega (arith, mod-add-mod h m e, mod-eq_of_lt p)
  | no p ↦ omega (
    arith,
    mod-lt h {m = m} (omega arith),
    mod-add-mod h m e,
    mod-eq-sub-mod {n = h % m + e} {m = m} (omega arith),
    mod-eq_of_lt {n = h % m + e - m} {m = m} (omega (arith, mod-lt h {m = m} (omega arith))),
  )
]

-- A write `d` places past a segment leaves it alone.
segment-set :
    (slots : List ℕ) (m i x h n d : ℕ)
    → n + d < m
    → i ≡ (h + n + d) % m
    → segment (set slots i x) m h n ≡ segment slots m h n
segment-set slots m i x h zero d lt e = refl
segment-set slots m i x h (suc n) d lt e =
    ap₂ ◌∷◌
      (get_or-set_ne slots x 0
        (λ q. mod-ne-mod_add h (suc n + d) m (omega arith) (omega arith) (sym q ∙ e ∙ shift)))
      (segment-set slots m i x (h + 1) n d (omega arith) (e ∙ ap (λ t. t % m) (omega arith)))
  where
    shift : (h + suc n + d) % m ≡ (h + (suc n + d)) % m
    shift = ap (λ t. t % m) (omega arith)

-- A segment one longer.
segment-suc :
    (slots : List ℕ) (m h n : ℕ)
    → segment slots m h (suc n) ≡ segment slots m h n ++ (get_or slots ((h + n) % m) 0 ∷ [])
segment-suc slots m h zero = ap (λ t. get_or slots (t % m) 0 ∷ []) (omega arith)
segment-suc slots m h (suc n) =
    ap (λ l. get_or slots (h % m) 0 ∷ l)
      (segment-suc slots m (h + 1) n
        ∙ ap (λ t. segment slots m (h + 1) n ++ (get_or slots (t % m) 0 ∷ [])) (omega arith))

abbrev pub contents : ℕ → RingBuf → Queue
contents k r = segment r.slots (2 ^ k) r.head r.count

pub length-contents : (k : ℕ) (r : RingBuf) → length (contents k r) ≡ r.count
length-contents k r = length-segment r.slots (2 ^ k) r.head r.count

-- `put` adds the byte at the end, if the buffer is not full, and is refused if it is.
pub put_refines :
    {k : ℕ} {r : RingBuf} (b : ℕ)
    → IsValid k r
    → let (done, r') = put k r b in (done, contents k r') ≡ enqueue (2 ^ k) (contents k r) b
unfolding put enqueue
put_refines {k} {r} b v = ground (
  arith,
  length-contents k r,
  segment-suc (set r.slots r.tail b) (2 ^ k) r.head r.count,
  segment-set r.slots (2 ^ k) r.tail b r.head r.count 0,
  get_or-set_self r.slots r.tail b 0,
  tail_in v,
)

segment_of_ne_zero :
    (slots : List ℕ) (m h n : ℕ)
    → n ≢ 0
    → segment slots m h n ≡ get_or slots (h % m) 0 ∷ segment slots m (h + 1) (n - 1)
segment_of_ne_zero slots m h zero p = absurd (p refl)
segment_of_ne_zero slots m h (suc n) p =
    ap (λ t. get_or slots (h % m) 0 ∷ segment slots m (h + 1) t) (omega arith)

-- `get` takes the oldest byte, if there is one.
pub get_refines :
    {k : ℕ} {r : RingBuf}
    → IsValid k r
    → let (b, r') = get k r in (b, contents k r') ≡ dequeue (contents k r)
unfolding get dequeue
get_refines {k} {r} v = ground (
  arith,
  segment_of_ne_zero r.slots (2 ^ k) r.head r.count,
  segment-mod r.slots (2 ^ k) (r.head + 1) (r.count - 1),
  next_slot_lem k r.head,
  mod-eq_of_lt {n = r.head} {m = 2 ^ k},
)

-- A read of a buffer that is not empty.
pub get-some :
    {k n : ℕ} {r : RingBuf}
    → IsValid k r
    → r.count ≡ suc n
    → let x = get_or r.slots r.head 0 in
      ((get k r).0 ≡ some x) × (contents k r ≡ x ∷ contents k (get k r).1) × ((get k r).1.count ≡ n)
unfolding get
get-some {k} {n} {r} v e = ground (
  arith,
  segment_of_ne_zero r.slots (2 ^ k) r.head r.count,
  segment-mod r.slots (2 ^ k) (r.head + 1) (r.count - 1),
  next_slot_lem k r.head,
  mod-eq_of_lt {n = r.head} {m = 2 ^ k},
)

pub contents-reset : (k : ℕ) (r : RingBuf) → contents k (reset r) ≡ []
unfolding reset
contents-reset k r = refl

-- A client's calls, in order.
pub data Op : Type 0 where
  put_byte : ℕ → Op
  get_byte : Op
  init : Op

-- What a call returns: whether the byte was taken, or the byte that was read.
abbrev pub Reply : Type 0
Reply = Bool × Option ℕ

unfoldable pub run : ℕ → RingBuf → List Op → List Reply
run k r [] = []
run k r (put_byte b ∷ ops) = let (done, r') = put k r b in (done, none) ∷ run k r' ops
run k r (get_byte ∷ ops) = let (b, r') = get k r in (true, b) ∷ run k r' ops
run k r (init ∷ ops) = (true, none) ∷ run k (reset r) ops

unfoldable pub run_queue : ℕ → Queue → List Op → List Reply
run_queue cap q [] = []
run_queue cap q (put_byte b ∷ ops) =
    let (done, q') = enqueue cap q b in (done, none) ∷ run_queue cap q' ops
run_queue cap q (get_byte ∷ ops) = let (b, q') = dequeue q in (true, b) ∷ run_queue cap q' ops
run_queue cap q (init ∷ ops) = (true, none) ∷ run_queue cap [] ops

-- No sequence of puts, gets and resets tells a valid ring of 2 ^ k slots from the first-in
-- first-out queue of at most 2 ^ k bytes that starts with the ring's contents.
pub run_refines :
    (k : ℕ) (ops : List Op) {r : RingBuf}
    → IsValid k r
    → run k r ops ≡ run_queue (2 ^ k) (contents k r) ops
unfolding run run_queue
run_refines k [] v = refl
run_refines k (put_byte b ∷ ops) v = rw (run_refines k ops (put-IsValid b v), ← put_refines b v)
run_refines k (get_byte ∷ ops) v = rw (run_refines k ops (get-IsValid v), ← get_refines v)
run_refines k (init ∷ ops) {r} v =
    ap (λ rs. (true, none) ∷ rs)
      (run_refines k ops (reset-IsValid v) ∙ ap (λ q. run_queue (2 ^ k) q ops) (contents-reset k r))
