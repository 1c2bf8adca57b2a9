-- ===== src/Telnet/Subneg.antt =====
-- Subnegotiations: the window size (NAWS) and the terminal type (TTYPE) that a peer sends.
use vmodem.Prelude.{
  zero, suc, replicate, append-nil, subst, ℕ, ◌+◌, ◌%◌, ◌<◌, ◌≡◌, ◌≢◌, refl, ap, ◌∙◌, sym, arith,
  Option, none, List, [], ◌∷◌, ◌++◌, length,
}
use vmodem.Mtcp.{Mtcp}
use vmodem.Telnet.{
  Iac, normal, in_sb, sb_iac, tel_iac, tel_sb, tel_se, telopt_naws, sb_store, sb_finish, filter_in,
  telnet_filter,
}
use vmodem.Telnet.Stream.{filter_all, AllPlain}

-- One byte inside a subnegotiation.
unfoldable pub sb_step : Iac → ℕ → Iac
sb_step t b = let t' = sb_store t b in record t' { sb_len = (t'.sb_len + 1) % 256 }

unfoldable pub sb_all : Iac → List ℕ → Iac
sb_all t [] = t
sb_all t (b ∷ bs) = sb_all (sb_step t b) bs

-- The state after IAC SB.
abbrev pub sb_start : Iac → Iac
sb_start t = record t { sb_len = 0; sb_opt = 0; iac_state = in_sb }

-- The state after IAC SE.
abbrev pub sb_end : Iac → Iac
sb_end t = record (sb_finish (record t { iac_state = sb_iac })) { iac_state = normal }

sb_all-append : (t : Iac) (xs ys : List ℕ) → sb_all t (xs ++ ys) ≡ sb_all (sb_all t xs) ys
unfolding sb_all
sb_all-append t [] ys = refl
sb_all-append t (x ∷ xs) ys = sb_all-append (sb_step t x) xs ys

module _ {W : Type 0} (net : Mtcp W) (sock : Option ℕ) where
  filter_all-step :
      (t t' : Iac) (w w' : W) (b : ℕ) (bs : List ℕ)
      → telnet_filter net sock t b w ≡ (none, t', w')
      → filter_all net sock t (b ∷ bs) w ≡ filter_all net sock t' bs w'
  unfolding filter_all
  filter_all-step t t' w w' b bs e = rw e

  sb_step-in :
      (t : Iac) (b : ℕ) (w : W)
      → t.iac_state ≡ in_sb
      → b ≢ tel_iac
      → (telnet_filter net sock t b w ≡ (none, sb_step t b, w)) × ((sb_step t b).iac_state ≡ in_sb)
  unfolding telnet_filter filter_in sb_step sb_store
  sb_step-in t b w e p = ground arith

  sb_start_lem :
      (t : Iac) (rest : List ℕ) (w : W)
      → t.iac_state ≡ normal
      → filter_all net sock t (tel_iac ∷ tel_sb ∷ rest) w ≡ filter_all net sock (sb_start t) rest w
  unfolding filter_all telnet_filter filter_in
  sb_start_lem t rest w e = rw e

  sb_end_lem :
      (t : Iac) (w : W)
      → t.iac_state ≡ in_sb
      → filter_all net sock t (tel_iac ∷ tel_se ∷ []) w ≡ ([], sb_end t, w)
  unfolding filter_all telnet_filter filter_in
  sb_end_lem t w e = rw e

  in_sb-eta : (t : Iac) → t.iac_state ≡ in_sb → record t { iac_state = in_sb } ≡ t
  in_sb-eta t e = ground arith

  -- An IAC pair inside a subnegotiation is lost.
  sb_pair_lem :
      (t : Iac) (rest : List ℕ) (w : W)
      → t.iac_state ≡ in_sb
      → filter_all net sock t (tel_iac ∷ tel_iac ∷ rest) w ≡ filter_all net sock t rest w
  unfolding filter_all telnet_filter filter_in
  sb_pair_lem t rest w e =
      filter_all-step t (record t { iac_state = sb_iac }) w w tel_iac (tel_iac ∷ rest)
        (ground arith)
      ∙ ap (λ s. filter_all net sock s rest w) (in_sb-eta t e)

  pub filter_all-sb_all :
      (t : Iac) (body rest : List ℕ) (w : W)
      → t.iac_state ≡ in_sb
      → AllPlain body
      → (filter_all net sock t (body ++ rest) w ≡ filter_all net sock (sb_all t body) rest w)
        × ((sb_all t body).iac_state ≡ in_sb)
  unfolding sb_all
  filter_all-sb_all t [] rest w e p = (refl, e)
  filter_all-sb_all t (b ∷ body) rest w e p =
      let here = sb_step-in t b w e p.0 in
      let later = filter_all-sb_all (sb_step t b) body rest w here.1 p.1 in
      (filter_all-step t (sb_step t b) w w b (body ++ rest) here.0 ∙ later.0, later.1)

module _ {W : Type 0} (net : Mtcp W) (sock : Option ℕ) where
  -- A whole subnegotiation, from the normal state: nothing for the ring buffer, nothing sent, and
  -- the state that storing the body and finishing leaves.
  pub filter_all-subneg :
      (t : Iac) (body : List ℕ) (w : W)
      → t.iac_state ≡ normal
      → AllPlain body
      → filter_all net sock t (tel_iac ∷ tel_sb ∷ (body ++ (tel_iac ∷ tel_se ∷ []))) w
        ≡ ([], sb_end (sb_all (sb_start t) body), w)
  filter_all-subneg t body w e p =
      let stored = filter_all-sb_all net sock (sb_start t) body (tel_iac ∷ tel_se ∷ []) w refl p in
      sb_start_lem net sock t (body ++ (tel_iac ∷ tel_se ∷ [])) w e
      ∙ stored.0
      ∙ sb_end_lem net sock (sb_all (sb_start t) body) w stored.1

  -- A doubled 0xFF in the body is lost: the subnegotiation ends as it does without the pair.
  filter_all-subneg_pair :
      (t : Iac) (body rest : List ℕ) (w : W)
      → t.iac_state ≡ normal
      → AllPlain body
      → AllPlain rest
      → filter_all net sock t
          (tel_iac ∷ tel_sb ∷ (body ++ (tel_iac ∷ tel_iac ∷ (rest ++ (tel_iac ∷ tel_se ∷ [])))))
          w
        ≡ ([], sb_end (sb_all (sb_start t) (body ++ rest)), w)
  filter_all-subneg_pair t body rest w e p q =
      let tail = tel_iac ∷ tel_se ∷ [] in
      let first =
        filter_all-sb_all net sock (sb_start t) body (tel_iac ∷ tel_iac ∷ (rest ++ tail)) w refl
          p in
      let mid = sb_all (sb_start t) body in
      let second = filter_all-sb_all net sock mid rest tail w first.1 q in
      sb_start_lem net sock t (body ++ (tel_iac ∷ tel_iac ∷ (rest ++ tail))) w e
      ∙ first.0
      ∙ sb_pair_lem net sock mid (rest ++ tail) w first.1
      ∙ second.0
      ∙ sb_end_lem net sock (sb_all mid rest) w second.1
      ∙ ap (λ s. ([], sb_end s, w)) (sym (sb_all-append (sb_start t) body rest))

module _ {W : Type 0} (net : Mtcp W) (sock : Option ℕ) where
  -- A window size report whose width has the low byte 255, doubled on the wire as it must be, is
  -- dropped: the filter loses both bytes of the pair, and the stored size stays what it was.
  pub naws_255_dropped :
      (t : Iac) (w : W) (ch rh rl : ℕ)
      → t.iac_state ≡ normal
      → AllPlain (ch ∷ rh ∷ rl ∷ [])
      → let (out, t', w') =
          filter_all net sock t
            (tel_iac ∷ tel_sb ∷ telopt_naws ∷ ch ∷ tel_iac ∷ tel_iac ∷ rh ∷ rl ∷ tel_iac ∷ tel_se
              ∷ [])
            w in
        (out ≡ [])
        × (t'.iac_state ≡ normal)
        × (t'.naws_cols ≡ t.naws_cols)
        × (t'.naws_rows ≡ t.naws_rows)
  unfolding sb_all sb_step sb_store sb_finish
  naws_255_dropped t w ch rh rl e p =
      rw
        (filter_all-subneg_pair net sock t (telopt_naws ∷ ch ∷ []) (rh ∷ rl ∷ []) w e
          ((λ q. cc), (p.0, tt)) p.1)
        (refl, refl, refl, refl)

sb_step-len : (t : Iac) (b : ℕ) → (sb_step t b).sb_len ≡ (t.sb_len + 1) % 256
unfolding sb_step sb_store
sb_step-len t b = ground arith

sb_all-len :
    (t : Iac) (body : List ℕ)
    → t.sb_len < 256
    → (sb_all t body).sb_len ≡ (t.sb_len + length body) % 256
unfolding sb_all
sb_all-len t [] h = omega arith
sb_all-len t (b ∷ body) h =
    omega (arith, sb_all-len (sb_step t b) body (omega (arith, sb_step-len t b)), sb_step-len t b)

opt_lem :
    (t : Iac) (body : List ℕ) (b : ℕ)
    → length body ≡ 256
    → (sb_all (sb_start t) (body ++ (b ∷ []))).sb_opt ≡ b
unfolding sb_all sb_step sb_store
opt_lem t body b h =
    rw (sb_all-append (sb_start t) body (b ∷ [])) (ground (arith, sb_all-len (sb_start t) body))

pub replicate-AllPlain : (n b : ℕ) → b ≢ tel_iac → AllPlain (replicate n b)
replicate-AllPlain zero b h = tt
replicate-AllPlain (suc n) b h = (h, replicate-AllPlain n b h)

append-AllPlain :
    (body : List ℕ) (b : ℕ) → AllPlain body → b ≢ tel_iac → AllPlain (body ++ (b ∷ []))
append-AllPlain [] b p q = (q, tt)
append-AllPlain (x ∷ body) b (px, p) q = (px, append-AllPlain body b p q)

module _ {W : Type 0} (net : Mtcp W) (sock : Option ℕ) where
  -- `sb_len` is a byte: the filter takes the 257th byte of a subnegotiation without 0xFF for the option
  -- code, whatever the subnegotiation was about. None of the bytes gets through.
  pub sb_opt_overwritten :
      (t : Iac) (w : W) (body : List ℕ) (b : ℕ)
      → t.iac_state ≡ normal
      → AllPlain body
      → b ≢ tel_iac
      → length body ≡ 256
      → let (out, t', w') = filter_all net sock t (tel_iac ∷ tel_sb ∷ (body ++ (b ∷ []))) w in
        (out ≡ []) × (t'.iac_state ≡ in_sb) × (t'.sb_opt ≡ b)
  unfolding filter_all
  sb_opt_overwritten t w body b e p q h =
      let all = body ++ (b ∷ []) in
      let stored =
        filter_all-sb_all net sock (sb_start t) all [] w refl (append-AllPlain body b p q) in
      let whole : filter_all net sock t (tel_iac ∷ tel_sb ∷ all) w
          ≡ ([], sb_all (sb_start t) all, w) =
        sb_start_lem net sock t all w e
        ∙ ap (λ l. filter_all net sock (sb_start t) l w) (sym (append-nil all))
        ∙ stored.0 in
      subst (λ (r : List ℕ × Iac × W). (r.0 ≡ []) × (r.1.iac_state ≡ in_sb) × (r.1.sb_opt ≡ b))
        (sym whole) (refl, stored.1, opt_lem t body b h)
