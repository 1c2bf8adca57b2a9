-- ===== src/Telnet/Ttype.antt =====
-- The terminal type that a peer sends: IAC SB TTYPE IS <string> IAC SE.
use vmodem.Prelude.{
  ℕ, zero, suc, ◌+◌, ◌≤◌, ◌<◌, min, ◌≡◌, ◌≢◌, refl, ap, ◌∙◌, sym, arith, Option, List, [], ◌∷◌,
  ◌++◌, ◌==◌, if◌then◌else◌, length, take, take_all, take-append_le, take-set-suc, set, length-set,
  length-append, append-nil, append_assoc,
}
use native.Mathlib.Decide.{dec_lt}
use vmodem.Mtcp.{Mtcp}
use vmodem.Telnet.{Iac, normal, tel_iac, tel_sb, tel_se, telopt_ttype, sb_store, sb_finish}
use vmodem.Telnet.Stream.{filter_all, AllPlain}
use vmodem.Telnet.Subneg.{sb_step, sb_all, sb_start, sb_end, filter_all-subneg}

-- The characters before the terminating NUL.
unfoldable pub c_string : List ℕ → List ℕ
c_string [] = []
c_string (x ∷ xs) = if x == 0 then [] else x ∷ c_string xs

abbrev pub NoNul : List ℕ → Type 0
NoNul [] = Unit {0}
NoNul (x ∷ xs) = (x ≢ 0) × NoNul xs

-- After the bytes `p` of the string.
record Holds (t : Iac) (p : List ℕ) : Type 0 where
  option_is : t.sb_opt ≡ telopt_ttype
  counted : t.sb_len ≡ length p + 2
  storage : length t.ttype ≡ 41
  copied : take (min 40 (length p)) t.ttype ≡ take 40 p

step-stores :
    (t : Iac) (n x : ℕ)
    → t.sb_opt ≡ telopt_ttype
    → t.sb_len ≡ n + 2
    → n < 40
    → sb_step t x ≡ record t { ttype = set t.ttype n x; sb_len = n + 3 }
unfolding sb_step sb_store
step-stores t n x o c lt = ground arith

-- A byte that still fits.
step-fits :
    (t : Iac) (p : List ℕ) (x : ℕ) → Holds t p → length p < 40 → Holds (sb_step t x) (p ++ (x ∷ []))
step-fits t p x v lt = rw (step-stores t (length p) x v.option_is v.counted lt) (record {
  option_is = v.option_is;
  counted = omega (arith, length-append p (x ∷ []));
  storage = length-set t.ttype (length p) x ∙ v.storage;
  copied = copied_more;
})
  where
    known : take (length p) t.ttype ≡ p
    known = ap (λ n. take n t.ttype) (omega arith) ∙ v.copied ∙ take_all 40 p (omega arith)

    copied_more :
        take (min 40 (length (p ++ (x ∷ [])))) (set t.ttype (length p) x) ≡ take 40 (p ++ (x ∷ []))
    copied_more =
        ap (λ n. take n (set t.ttype (length p) x)) {y = suc (length p)}
          (omega (arith, length-append p (x ∷ [])))
        ∙ take-set-suc (length p) t.ttype x (omega (arith, v.storage))
        ∙ ap (λ l. l ++ (x ∷ [])) known
        ∙ sym (take_all 40 (p ++ (x ∷ [])) (omega (arith, length-append p (x ∷ []))))

-- A byte past the fortieth.
step-beyond :
    (t : Iac) (p : List ℕ) (x : ℕ)
    → Holds t p
    → 40 ≤ length p
    → length p + 3 < 256
    → Holds (sb_step t x) (p ++ (x ∷ []))
unfolding sb_step sb_store
step-beyond t p x v ge lt = ground (arith, length-append p (x ∷ []), take-append_le 40 p (x ∷ []))

sb_all-Holds :
    (t : Iac) (p s : List ℕ)
    → Holds t p
    → length p + length s + 2 < 256
    → Holds (sb_all t s) (p ++ s)
unfolding sb_all
sb_all-Holds t p [] v h = rw append-nil v
sb_all-Holds t p (x ∷ s) v h =
    rw (← append_assoc p (x ∷ []) s)
      (sb_all-Holds (sb_step t x) (p ++ (x ∷ [])) s step (omega (arith, length-append p (x ∷ []))))
  where
    step : Holds (sb_step t x) (p ++ (x ∷ []))
    step = elim (dec_lt (length p) 40) [
      | yes lt ↦ step-fits t p x v lt
      | no ge ↦ step-beyond t p x v (omega arith) (omega arith)
    ]

c_string-set :
    (buf : List ℕ) (m : ℕ)
    → m < length buf
    → NoNul (take m buf)
    → c_string (set buf m 0) ≡ take m buf
unfolding c_string
c_string-set [] m h z = absurd (omega arith)
c_string-set (x ∷ buf) zero h z = refl
c_string-set (x ∷ buf) (suc m) h z = ground (arith, c_string-set buf m)

NoNul-take : (n : ℕ) (s : List ℕ) → NoNul s → NoNul (take n s)
NoNul-take zero s z = tt
NoNul-take (suc n) [] z = tt
NoNul-take (suc n) (x ∷ s) z = (z.0, NoNul-take n s z.1)

finish-c_string :
    (t : Iac) (p : List ℕ)
    → Holds t p
    → 0 < length p
    → length p + 2 < 256
    → NoNul p
    → c_string (sb_end t).ttype ≡ take 40 p
unfolding sb_finish
finish-c_string t p v pos lt z =
    ground (arith, c_string-set t.ttype (min 40 (length p)), NoNul-take 40 p z)

module _ {W : Type 0} (net : Mtcp W) (sock : Option ℕ) where
  -- The terminal type that a peer reports, a string of 1 to 253 bytes without NUL and 0xFF, is
  -- stored as a C string: the first forty bytes of it. Nothing reaches the ring buffer.
  pub ttype_report :
      (t : Iac) (w : W) (is : ℕ) (s : List ℕ)
      → t.iac_state ≡ normal
      → length t.ttype ≡ 41
      → is ≢ tel_iac
      → AllPlain s
      → NoNul s
      → 0 < length s
      → length s ≤ 253
      → let (out, t', w') =
          filter_all net sock t
            (tel_iac ∷ tel_sb ∷ ((telopt_ttype ∷ is ∷ s) ++ (tel_iac ∷ tel_se ∷ [])))
            w in
        (out ≡ []) × (t'.iac_state ≡ normal) × (c_string t'.ttype ≡ take 40 s)
  unfolding sb_all sb_step sb_store
  ttype_report t w is s e len ne p z pos lt =
      let t2 = sb_step (sb_step (sb_start t) telopt_ttype) is in
      let held : Holds t2 [] = ground arith in
      rw (filter_all-subneg net sock t (telopt_ttype ∷ is ∷ s) w e ((λ q. cc), (ne, p))) (
        refl,
        refl,
        finish-c_string (sb_all t2 s) s (sb_all-Holds t2 [] s held (omega arith)) pos (omega arith)
            z,
      )
