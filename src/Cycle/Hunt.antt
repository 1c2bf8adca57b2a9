-- ===== src/Cycle/Hunt.antt =====
-- Where a caller of a hunt group is put: step 2a of `do_mtcp_poll` in src/poll.c.
use vmodem.Prelude.{
  Option-cases, ℕ, bit_and, ◌^◌, zero, suc, ◌+◌, ◌≡◌, ◌≢◌, ◌<◌, refl, sym, ap, ◌∙◌, true, false,
  Bool-cases, inl, inr, none, some, List, [], ◌∷◌, arith, get_elem?, set, length, get_elem?-set_ne,
  get_elem?-set_self, subst,
}
use vmodem.Mtcp.{Mtcp}
use vmodem.Port.{port_conn, port_listen, Line, HuntGroup, Ctx}
use vmodem.At.{at_send_ring}
use vmodem.Net.{sock_close_fast, telnet_send_text}
use vmodem.Tx.{fossil_clear_tx}
use vmodem.Poll.{take_call}
use vmodem.System.{System}
use vmodem.Cycle.{is_free, first_free, on_line, dispatch}

-- The line `l`, of index `t`, is in the group, listens and has no call.
abbrev pub IsAvailable : ℕ → ℕ → Line → Type 0
IsAvailable mask t l =
    (bit_and mask (2 ^ t) ≢ 0) × (l.port.mode ≡ port_listen) × (l.port.sock ≡ none)

-- Of the first `t` lines, counted from `j`, none is available.
abbrev pub NoneBefore : ℕ → ℕ → List Line → ℕ → Type 0
NoneBefore mask j ls t =
    (k : ℕ) (m : Line) → k < t → get_elem? ls k ≡ some m → ¬ IsAvailable mask (j + k) m

is_free_lem : (mask t : ℕ) (l : Line) → is_free mask t l ≡ true → IsAvailable mask t l
unfolding is_free
is_free_lem mask t l f = ground (arith, f)

not_free_lem : (mask t : ℕ) (l : Line) → is_free mask t l ≡ false → ¬ IsAvailable mask t l
unfolding is_free
not_free_lem mask t l f (member, listens, no_call) = ground (arith, f)

step_free :
    (mask j : ℕ) (l : Line) (ls : List Line)
    → is_free mask j l ≡ true
    → first_free mask j (l ∷ ls) ≡ some j
unfolding first_free
step_free mask j l ls f = rw (f, first_free) refl

step_taken :
    (mask j : ℕ) (l : Line) (ls : List Line)
    → is_free mask j l ≡ false
    → first_free mask j (l ∷ ls) ≡ first_free mask (j + 1) ls
unfolding first_free
step_taken mask j l ls f = rw (f, first_free) refl

-- One line more in front.
before_step :
    (mask j : ℕ) (l : Line) (ls : List Line) (t : ℕ)
    → is_free mask j l ≡ false
    → NoneBefore mask (j + 1) ls t
    → NoneBefore mask j (l ∷ ls) (suc t)
before_step mask j l ls t f h zero m lt e =
    let z : j + 0 ≡ j = omega arith in
    let same : l ≡ m = cc in
    subst (λ x. ¬ IsAvailable mask (j + 0) x) same
      (subst (λ k. ¬ IsAvailable mask k l) (sym z) (not_free_lem mask j l f))
before_step mask j l ls t f h (suc k) m lt e =
    let z : j + suc k ≡ j + 1 + k = omega arith in
    subst (λ i. ¬ IsAvailable mask i m) (sym z) (h k m (omega arith) e)

-- The `t`-th line is available, and none before it is.
pub record Found (mask j : ℕ) (ls : List Line) (t : ℕ) : Type 0 where
  pub offset : ℕ
  pub at : t ≡ j + offset
  pub line : Line
  pub there : get_elem? ls offset ≡ some line
  pub available : IsAvailable mask t line
  pub none_before : NoneBefore mask j ls offset

first_free-Found :
    (mask j : ℕ) (ls : List Line) (t : ℕ) → first_free mask j ls ≡ some t → Found mask j ls t
unfolding first_free
first_free-Found mask j [] t e = cc
first_free-Found mask j (l ∷ ls) t e = elim (Bool-cases (is_free mask j l)) [
  | inl f ↦
      let same : j ≡ t = ground (arith, step_free mask j l ls f, e) in
      let free = ap (λ k. is_free mask k l) (sym same) ∙ f in
      record {
        offset = 0;
        at = omega (arith, same);
        line = l;
        there = refl;
        available = is_free_lem mask t l free;
        none_before = λ k m lt. absurd (omega arith);
      }
  | inr f ↦
      let v = first_free-Found mask (j + 1) ls t (sym (step_taken mask j l ls f) ∙ e) in
      record {
        offset = suc v.offset;
        at = omega (arith, v.at);
        line = v.line;
        there = v.there;
        available = v.available;
        none_before = before_step mask j l ls v.offset f v.none_before;
      }
]

first_free-none :
    (mask j : ℕ) (ls : List Line) → first_free mask j ls ≡ none → NoneBefore mask j ls (length ls)
unfolding first_free
first_free-none mask j [] e = λ k m lt h. absurd (omega arith)
first_free-none mask j (l ∷ ls) e = elim (Bool-cases (is_free mask j l)) [
  | inl f ↦ cc (step_free mask j l ls f, e)
  | inr f ↦
      before_step mask j l ls (length ls) f
        (first_free-none mask (j + 1) ls (sym (step_taken mask j l ls f) ∙ e))
]

get_elem?-lt : (ls : List Line) (t : ℕ) {l : Line} → get_elem? ls t ≡ some l → t < length ls
get_elem?-lt [] t e = cc
get_elem?-lt (l ∷ ls) zero e = omega arith
get_elem?-lt (l ∷ ls) (suc t) e = omega (arith, get_elem?-lt ls t e)

take_call_connects :
    {W : Type 0} (net : Mtcp W) (i now n : ℕ) (c : Ctx W)
    → ((take_call net i now n c).line.port.mode ≡ port_conn)
      × ((take_call net i now n c).line.port.sock ≡ some n)
unfolding take_call at_send_ring telnet_send_text fossil_clear_tx
take_call_connects net i now n c = ground arith

-- What dispatching the caller `n` makes of the state `s`: either on the first available line of the
-- group the call stands and the other lines are as they were, or no line is available, the socket is
-- closed and every line is as it was.
pub data Dispatched {W : Type 0} (net : Mtcp W) (g : HuntGroup) (n : ℕ) (s s' : System W)
    : Type 0 where
  on_line_of :
      (t : ℕ) (l : Line)
      → Found g.port_mask 0 s.lines t
      → get_elem? s'.lines t ≡ some l
      → l.port.mode ≡ port_conn
      → l.port.sock ≡ some n
      → ((k : ℕ) → t ≢ k → get_elem? s'.lines k ≡ get_elem? s.lines k)
      → Dispatched net g n s s'
  all_engaged :
      (w : W)
      → NoneBefore g.port_mask 0 s.lines (length s.lines)
      → s'.lines ≡ s.lines
      → s'.shared ≡ sock_close_fast net n (record (s.shared) { world = w })
      → Dispatched net g n s s'

module _ {W : Type 0} (net : Mtcp W) where
  on_free_lem :
      (now : ℕ) (g : HuntGroup) (n : ℕ) (s : System W) (t : ℕ)
      → first_free g.port_mask 0 s.lines ≡ some t
      → dispatch net now g n s ≡ on_line t (take_call net t now n) s
  unfolding dispatch
  on_free_lem now g n s t e = rw (e, dispatch) refl

  on_line_at :
      (j : ℕ) (f : Ctx W → Ctx W) (s : System W) (l : Line)
      → get_elem? s.lines j ≡ some l
      → (on_line j f s).lines ≡ set s.lines j (f (record { line = l; shared = s.shared })).line
  unfolding on_line
  on_line_at j f s l e = rw (e, on_line) refl

  engaged_lem :
      (now : ℕ) (g : HuntGroup) (n : ℕ) (s : System W)
      → first_free g.port_mask 0 s.lines ≡ none
      → ((dispatch net now g n s).lines ≡ s.lines)
        × ((w : W) × ((dispatch net now g n s).shared
              ≡ sock_close_fast net n (record (s.shared) { world = w })))
  unfolding dispatch
  engaged_lem now g n s e = rw (e, dispatch) (refl, (_, refl))

  -- A caller of a hunt group is put on the first line that is in the group, listens and has no call:
  -- that line is then connected to the caller's socket, and no other line changes. Where no line is in
  -- the group, listens and has no call, no line changes and the socket goes to `sock_close_fast`.
  pub dispatch-Dispatched :
      (now : ℕ) (g : HuntGroup) (n : ℕ) (s : System W)
      → Dispatched net g n s (dispatch net now g n s)
  dispatch-Dispatched now g n s = elim (Option-cases (first_free g.port_mask 0 s.lines)) [
    | inl e ↦
        let (lines, (w, closed)) = engaged_lem now g n s e in
        all_engaged w (first_free-none g.port_mask 0 s.lines e) lines closed
    | inr (t, e) ↦
        let found = first_free-Found g.port_mask 0 s.lines t e in
        let f = take_call net t now n in
        let there : get_elem? s.lines t ≡ some found.line =
          (let z : t ≡ found.offset = omega (arith, found.at) in
            ap (get_elem? s.lines) z ∙ found.there) in
        let lines =
          ap (λ (x : System W). x.lines) (on_free_lem now g n s t e)
          ∙ on_line_at t f s found.line there in
        let l' = (f (record { line = found.line; shared = s.shared })).line in
        let (mode, sock) =
          take_call_connects net t now n (record { line = found.line; shared = s.shared }) in
        let own = get_elem?-set_self s.lines t l' (get_elem?-lt s.lines t there) in
        on_line_of t l' found (ap (λ x. get_elem? x t) lines ∙ own) mode sock
          (λ k ne. ap (λ x. get_elem? x k) lines ∙ get_elem?-set_ne s.lines l' ne)
  ]
