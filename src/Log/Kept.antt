-- ===== src/Log/Kept.antt =====
-- The debug log (src/vmodem.c, src/int8.c) keeps the last 2048 bytes written, in their order.
use vmodem.Prelude.{
  joined, drop-get_or, drop_all, get_or-append_last, get_or-append_left, append-nil, subst, ℕ, zero,
  suc, ◌+◌, ◌-◌, ◌%◌, ◌≤◌, ◌<◌, min, ◌≡◌, ◌≢◌, sym, ap, ap₂, ◌∙◌, List, [], ◌∷◌, ◌++◌, arith,
  length, length-append, length-set, get_or, set, get_or-set_self, get_or-set_ne, drop,
  append_assoc, ltb, if◌then◌else◌,
}
use vmodem.Log.{Log, dbglog_size, dbg_byte, dbg, copy_log, debuglog}

-- The log holds the end of `h`, which is what has been written.
pub record Holds (h : List ℕ) (l : Log) : Type 0 where
  pub storage : length l.bytes ≡ dbglog_size
  pub head_in : l.head < dbglog_size
  pub counted : l.count ≡ min dbglog_size (length h)
  pub kept :
      (k : ℕ)
      → k < l.count
      → get_or l.bytes ((l.head + 2047 - k) % dbglog_size) 0 ≡ get_or h (length h - suc k) 0

dbg_byte-Holds : (h : List ℕ) (c : ℕ) (l : Log) → Holds h l → Holds (h ++ (c ∷ [])) (dbg_byte c l)
unfolding dbg_byte
dbg_byte-Holds h c l v = record {
  storage = length-set l.bytes l.head c ∙ v.storage;
  head_in = omega arith;
  counted = ground (arith, v, length-append h (c ∷ []));
  kept = λ k lt. at k lt;
}
  where
    at :
        (k : ℕ)
        → k < (dbg_byte c l).count
        → get_or (set l.bytes l.head c) (((l.head + 1) % dbglog_size + 2047 - k) % dbglog_size) 0
          ≡ get_or (h ++ (c ∷ [])) (length (h ++ (c ∷ [])) - suc k) 0
    at zero lt =
        let i : ((l.head + 1) % dbglog_size + 2047 - 0) % dbglog_size ≡ l.head = omega (arith, v) in
        let j : length (h ++ (c ∷ [])) - 1 ≡ length h = omega (arith, length-append h (c ∷ [])) in
        ap (λ n. get_or (set l.bytes l.head c) n 0) i
        ∙ get_or-set_self l.bytes l.head c 0 (omega (arith, v))
        ∙ sym (ap (λ n. get_or (h ++ (c ∷ [])) n 0) j ∙ get_or-append_last h c 0)
    at (suc k) lt =
        let lt' : k < l.count = ground (arith, v) in
        let full : suc k < dbglog_size = ground (arith, v, lt) in
        let i : ((l.head + 1) % dbglog_size + 2047 - suc k) % dbglog_size
            ≡ (l.head + 2047 - k) % dbglog_size =
          omega (arith, v) in
        let ne : l.head ≢ (l.head + 2047 - k) % dbglog_size = λ e. omega (arith, v, e) in
        let j : length (h ++ (c ∷ [])) - suc (suc k) ≡ length h - suc k =
          omega (arith, length-append h (c ∷ [])) in
        ap (λ n. get_or (set l.bytes l.head c) n 0) i
        ∙ get_or-set_ne l.bytes c 0 ne
        ∙ v.kept k lt'
        ∙ sym (
            ap (λ n. get_or (h ++ (c ∷ [])) n 0) j
            ∙ get_or-append_left h (c ∷ []) (length h - suc k) 0 (omega (arith, v)))

dbg-Holds : (h msg : List ℕ) (l : Log) → Holds h l → Holds (h ++ msg) (dbg msg l)
unfolding dbg
dbg-Holds h [] l v = subst (λ t. Holds t l) (sym (append-nil h)) v
dbg-Holds h (c ∷ msg) l v =
    subst (λ t. Holds t (dbg msg (dbg_byte c l))) (append_assoc h (c ∷ []) msg)
      (dbg-Holds (h ++ (c ∷ [])) msg (dbg_byte c l) (dbg_byte-Holds h c l v))

-- Several calls of `dbg`.
unfoldable pub dbg_all : List (List ℕ) → Log → Log
dbg_all [] l = l
dbg_all (m ∷ ms) l = dbg_all ms (dbg m l)

dbg_all-Holds :
    (h : List ℕ) (ms : List (List ℕ)) (l : Log) → Holds h l → Holds (h ++ joined ms) (dbg_all ms l)
unfolding dbg_all
dbg_all-Holds h [] l v = subst (λ t. Holds t l) (sym (append-nil h)) v
dbg_all-Holds h (m ∷ ms) l v =
    subst (λ t. Holds t (dbg_all ms (dbg m l))) (append_assoc h m (joined ms))
      (dbg_all-Holds (h ++ m) ms (dbg m l) (dbg-Holds h m l v))

copy_log_lem :
    (n : ℕ) (h : List ℕ) (l : Log)
    → Holds h l
    → n ≤ l.count
    → copy_log n ((l.head + dbglog_size - n) % dbglog_size) l.bytes ≡ drop (length h - n) h
unfolding copy_log
copy_log_lem zero h l v le = sym (drop_all (length h - 0) h (omega arith))
copy_log_lem (suc n) h l v le =
    let i : (l.head + dbglog_size - suc n) % dbglog_size ≡ (l.head + 2047 - n) % dbglog_size =
      omega (arith, v) in
    let j : ((l.head + dbglog_size - suc n) % dbglog_size + 1) % dbglog_size
        ≡ (l.head + dbglog_size - n) % dbglog_size =
      omega (arith, v) in
    let at : suc (length h - suc n) ≡ length h - n = omega (arith, v) in
    ap₂ (λ (x : ℕ) xs. x ∷ xs) (ap (λ k. get_or l.bytes k 0) i ∙ v.kept n (omega arith))
      (ap (λ k. copy_log n k l.bytes) j
        ∙ copy_log_lem n h l v (omega arith)
        ∙ ap (λ k. drop k h) (sym at))
    ∙ sym (drop-get_or (length h - suc n) h 0 (omega (arith, v)))

-- How much of `len` bytes written a reader with a buffer of `bufsz` bytes gets.
abbrev pub shown : ℕ → ℕ → ℕ
shown bufsz len = min bufsz (min dbglog_size len)

-- MUX_DEBUGLOG hands over the end of what `dbg` has written since the log was last handed over, in
-- the order of writing, as much as the log of 2048 bytes and the reader's buffer hold.
pub debuglog-last :
    (first bufsz : ℕ) (ms : List (List ℕ)) (l : Log)
    → length l.bytes ≡ dbglog_size
    → (debuglog bufsz (dbg_all ms (debuglog first l).1)).0
      ≡ drop (length (joined ms) - shown bufsz (length (joined ms))) (joined ms)
unfolding debuglog
debuglog-last first bufsz ms l size =
    let l0 = record l { count = 0; head = 0 } in
    let v0 : Holds [] l0 = record {
      storage = size;
      head_in = omega arith;
      counted = omega arith;
      kept = λ k lt. absurd (omega arith);
    } in
    let l1 = dbg_all ms l0 in
    let v = dbg_all-Holds [] ms l0 v0 in
    let n = if ltb bufsz l1.count then bufsz else l1.count in
    let e : n ≡ shown bufsz (length (joined ms)) = ground (arith, v.counted) in
    copy_log_lem n (joined ms) l1 v (ground arith)
    ∙ ap (λ k. drop (length (joined ms) - k) (joined ms)) e
