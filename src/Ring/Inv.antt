-- ===== src/Ring/Inv.antt =====
-- The representation invariant of the circular buffers.
use vmodem.Prelude.{
  ℕ, ◌+◌, ◌-◌, ◌%◌, ◌^◌, ◌≤◌, ◌<◌, ◌≡◌, ap, arith, length, length-set, length-replicate,
  bit_and-mask,
}
use native.Mathlib.Nat.{mod-add-mod, mod-lt, mod-eq_of_lt}
use vmodem.Ring.{RingBuf, reset, put, get, next_slot, zeroed}

-- The indices stay inside the storage, and `tail` is where `head` and `count` say.
pub record IsValid (k : ℕ) (r : RingBuf) : Type 0 where
  pub storage : length r.slots ≡ 2 ^ k
  pub small : 2 ^ k < 65536
  pub head_in : r.head < 2 ^ k
  pub count_in : r.count ≤ 2 ^ k
  pub tail_at : r.tail ≡ (r.head + r.count) % 2 ^ k

-- Inside the storage, the next slot is the next index, going round.
pub next_slot_lem : (k i : ℕ) → 2 ^ k < 65536 → i < 2 ^ k → next_slot k i ≡ (i + 1) % 2 ^ k
next_slot_lem k i s h = omega (
  arith,
  bit_and-mask k ((i + 1) % 65536),
  ap (λ (t : ℕ). t % 2 ^ k) (mod-eq_of_lt {n = i + 1} {m = 65536} (omega arith)),
)

pub tail_in : {k : ℕ} {r : RingBuf} → IsValid k r → r.tail < 2 ^ k
tail_in {k} {r} v = omega (arith, v, mod-lt (r.head + r.count) {m = 2 ^ k})

pub zeroed-IsValid : (k : ℕ) → 2 ^ k < 65536 → 0 < 2 ^ k → IsValid k (zeroed k)
zeroed-IsValid k s h =
    ground (arith, length-replicate {A = ℕ} (2 ^ k) 0, mod-eq_of_lt {n = 0} {m = 2 ^ k} h)

pub reset-IsValid : {k : ℕ} {r : RingBuf} → IsValid k r → IsValid k (reset r)
unfolding reset
reset-IsValid {k} {r} v = ground (arith, mod-eq_of_lt {n = 0} {m = 2 ^ k})

pub put-IsValid : {k : ℕ} {r : RingBuf} (b : ℕ) → IsValid k r → IsValid k (put k r b).1
unfolding put
put-IsValid {k} {r} b v = ground (
  arith,
  length-set r.slots r.tail b,
  next_slot_lem k r.tail,
  tail_in v,
  mod-add-mod (r.head + r.count) (2 ^ k) 1,
)

pub get-IsValid : {k : ℕ} {r : RingBuf} → IsValid k r → IsValid k (get k r).1
unfolding get
get-IsValid {k} {r} v = ground (
  arith,
  next_slot_lem k r.head,
  mod-lt (r.head + 1) {m = 2 ^ k},
  mod-add-mod (r.head + 1) (2 ^ k) (r.count - 1),
)
