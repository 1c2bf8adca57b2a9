-- ===== src/Telnet/Tests.antt =====
-- Telnet streams, run by hand.
use vmodem.Prelude.{
  ℕ, ◌+◌, ◌≤◌, ◌≡◌, refl, arith, some, List, [], ◌∷◌, ◌++◌, replicate, take, inl, inr, codes,
  length-replicate,
}
use vmodem.Mtcp.Sink.{quiet_world, sink}
use vmodem.Telnet.{iac_zero, normal, tel_iac, tel_sb, tel_se, tel_do, telopt_naws, telopt_ttype}
use vmodem.Telnet.Stream.{
  filter_all, Token, user, command, option, subneg, encode_all, filter_all-encode_all,
}
use vmodem.Telnet.Options.{do_echo, do_sga, will_naws, handle_all, handle_all-counted, open_options}
use vmodem.Telnet.{in_sb}
use vmodem.Telnet.Subneg.{replicate-AllPlain, naws_255_dropped, sb_opt_overwritten}
use vmodem.Telnet.Ttype.{c_string, ttype_report}

crlf_codes : codes "\r\n" ≡ 13 ∷ 10 ∷ []
crlf_codes = refl

abbrev stream : List Token
stream =
    user 65
    ∷ option tel_do 3
    ∷ user 255
    ∷ command 241
    ∷ subneg (telopt_naws ∷ 0 ∷ 80 ∷ 0 ∷ 25 ∷ [])
    ∷ user 66
    ∷ []

filter_all-encode_all_example :
    let (out, t', w') = filter_all sink (some 1) iac_zero (encode_all stream) quiet_world in
    (out ≡ 65 ∷ 255 ∷ 66 ∷ []) × (t'.iac_state ≡ normal)
filter_all-encode_all_example =
    filter_all-encode_all sink (some 1) iac_zero stream quiet_world refl (
      tt,
      (
        inr (inr (inl refl)),
        (
          tt,
          (
            (omega arith, omega arith, omega arith, omega arith, omega arith, omega arith),
            (
              (omega arith, (omega arith, (omega arith, (omega arith, (omega arith, tt))))),
              (tt, tt),
            ),
          ),
        ),
      ),
    )

abbrev plain_80_25 : List ℕ
plain_80_25 = 0 ∷ 80 ∷ 0 ∷ 25 ∷ []

naws_255_dropped_example :
    let (out, t', w') =
      filter_all sink
        (some 1)
        iac_zero
        (tel_iac ∷ tel_sb ∷ telopt_naws ∷ 0 ∷ tel_iac ∷ tel_iac ∷ 0 ∷ 25 ∷ tel_iac ∷ tel_se ∷ [])
        quiet_world in
    (out ≡ []) × (t'.iac_state ≡ normal) × (t'.naws_cols ≡ 0) × (t'.naws_rows ≡ 0)
naws_255_dropped_example =
    naws_255_dropped sink (some 1) iac_zero quiet_world 0 0 25 refl
      (omega arith, (omega arith, (omega arith, tt)))

sb_opt_overwritten_example :
    let (out, t', w') =
      filter_all sink
        (some 1)
        iac_zero
        (tel_iac ∷ tel_sb ∷ (replicate 256 88 ++ (31 ∷ [])))
        quiet_world in
    (out ≡ []) × (t'.iac_state ≡ in_sb) × (t'.sb_opt ≡ 31)
sb_opt_overwritten_example =
    sb_opt_overwritten sink (some 1) iac_zero quiet_world (replicate 256 88) 31 refl
      (replicate-AllPlain 256 88 (λ e. omega arith)) (λ e. omega arith)
      (omega (arith, length-replicate {A = ℕ} 256 88))

ttype_report_example :
    let (out, t', w') =
      filter_all sink
        (some 1)
        iac_zero
        (tel_iac ∷ tel_sb ∷ ((telopt_ttype ∷ 0 ∷ codes "vt") ++ (tel_iac ∷ tel_se ∷ [])))
        quiet_world in
    (out ≡ []) × (t'.iac_state ≡ normal) × (c_string t'.ttype ≡ take 40 (codes "vt"))
ttype_report_example =
    ttype_report sink (some 1) iac_zero quiet_world 0 (codes "vt") refl refl (omega arith)
      (omega arith, (omega arith, tt)) (omega arith, (omega arith, tt)) (omega arith) (omega arith)

handle_all-counted_example :
    let (t', w') =
      handle_all sink (some 1) iac_zero (do_sga ∷ do_echo ∷ do_sga ∷ will_naws ∷ []) quiet_world in
    (w'.sends + open_options t' ≤ 0 + open_options iac_zero) × (w'.sends ≤ 0 + 5)
handle_all-counted_example =
    handle_all-counted sink (λ w. w.sends) (λ s bs w. omega arith) (some 1) iac_zero
      (do_sga ∷ do_echo ∷ do_sga ∷ will_naws ∷ []) quiet_world
