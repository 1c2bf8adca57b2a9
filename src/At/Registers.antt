-- ===== src/At/Registers.antt =====
-- The S registers: what ATSn=v stores and what ATSn? prints.
use vmodem.Prelude.{
  ℕ, ◌+◌, ◌*◌, ◌/◌, ◌%◌, ◌<◌, ◌≡◌, refl, zero, suc, ap, ◌∙◌, arith, List, [], ◌∷◌, ◌++◌, codes,
}
use vmodem.Mtcp.{Mtcp}
use vmodem.Ring.{RingBuf}
use vmodem.Port.{AtState, Ctx, with_port}
use vmodem.At.{at_respond, respond, at_ok}
use vmodem.At.Command.{
  done, more, read_digits, int_digit, register_text, set_register, cmd_register_rest, cmd_register,
  cmd_letter, at_command, at_commands, at_line, register_value,
}

int_digit-small : (val d : ℕ) → val < 32768 → int_digit val d ≡ b'0' + (val / d) % 10
unfolding int_digit
int_digit-small val d h = ground arith

-- One digit of a number.
read_digit :
    (val d : ℕ) (r : List ℕ)
    → d < 10
    → read_digits val ((b'0' + d) ∷ r) ≡ read_digits ((val * 10 + d) % 65536) r
unfolding read_digits
read_digit val d r h = ground arith

three_digits :
    (a b d : ℕ)
    → a < 10
    → b < 10
    → d < 10
    → read_digits 0 ((b'0' + a) ∷ (b'0' + b) ∷ (b'0' + d) ∷ []) ≡ (a * 100 + b * 10 + d, [])
unfolding read_digits
three_digits a b d ha hb hd =
    read_digit 0 a ((b'0' + b) ∷ (b'0' + d) ∷ []) ha
    ∙ read_digit ((0 * 10 + a) % 65536) b ((b'0' + d) ∷ []) hb
    ∙ read_digit (((0 * 10 + a) % 65536 * 10 + b) % 65536) d [] hd
    ∙ ap (λ v. (v, [])) (omega arith)

-- Reading back the three digits that a register query prints gives the value modulo 1000.
read_digits-register_text :
    (val : ℕ) → val < 32768 → read_digits 0 (register_text val) ≡ (val % 1000, [])
unfolding register_text
read_digits-register_text val h =
    rw (int_digit-small val 100 h, int_digit-small val 10 h, int_digit-small val 1 h)
      (three_digits (val / 100 % 10) (val / 10 % 10) (val / 1 % 10) (omega arith) (omega arith)
          (omega arith)
        ∙ ap (λ v. (v, [])) (omega arith))

module _ {W : Type 0} (net : Mtcp W) (i now : ℕ) where
  -- ATS30=<three digits>, as the rest of a command line.
  set_idle :
      (val : ℕ) (c : Ctx W)
      → val < 1000
      → at_command net i now b'S' (codes "30=" ++ register_text val) c
        ≡ more [] (with_port (λ p. record p { idle_timeout = val }) c)
  unfolding at_command cmd_letter cmd_register cmd_register_rest set_register read_digits
  set_idle val c h =
      ap (λ q. more q.1 (with_port (λ p. record p { idle_timeout = q.0 }) c))
        (read_digits-register_text val (omega arith) ∙ ap (λ v. (v, [])) (omega arith))

  commands_more :
      (f x : ℕ) (r r' : List ℕ) (c c' : Ctx W)
      → at_command net i now x r c ≡ more r' c'
      → at_commands net i now (suc f) (x ∷ r) c ≡ at_commands net i now f r' c'
  unfolding at_commands
  commands_more f x r r' c c' e =
      ap (λ y. elim y as (λ _. Ctx W) [ done d ↦ d | more q d ↦ at_commands net i now f q d ]) e

  commands_end : (f : ℕ) (c : Ctx W) → at_commands net i now f [] c ≡ respond at_ok c
  unfolding at_commands
  commands_end zero c = refl
  commands_end (suc f) c = refl

  -- A line that sets S30 to a number below 1000, given in three digits, does that and answers OK.
  at_line-set_idle :
      (val : ℕ) (c : Ctx W)
      → val < 1000
      → at_line net i now (codes "ATS30=" ++ register_text val) c
        ≡ respond at_ok (with_port (λ p. record p { idle_timeout = val }) c)
  unfolding at_line register_text
  at_line-set_idle val c h =
      let c1 = with_port (λ p. record p { idle_timeout = val }) c in
      commands_more 6 b'S' (codes "30=" ++ register_text val) [] c c1 (set_idle val c h)
      ∙ commands_end 6 c1

  ask_idle :
      (c : Ctx W)
      → at_line net i now (codes "ATS30?") c
        ≡ respond (λ a. at_respond a (register_text (c.line.port.idle_timeout))) c
  unfolding at_line at_commands at_command cmd_letter cmd_register cmd_register_rest read_digits
      register_value
  ask_idle c = refl

  -- Answering a line touches no field of the port.
  respond-idle :
      (g : AtState → RingBuf → RingBuf) (c : Ctx W)
      → (respond g c).line.port.idle_timeout ≡ c.line.port.idle_timeout
  respond-idle g c = refl

  -- Setting S30 to a number below 1000, given in three digits, and then asking for it prints
  -- the same three digits.
  pub idle_roundtrip :
      (val : ℕ) (c : Ctx W)
      → val < 1000
      → at_line net i now
          (codes "ATS30?")
          (at_line net i now (codes "ATS30=" ++ register_text val) c)
        ≡ respond
            (λ a. at_respond a (register_text val))
            (respond at_ok (with_port (λ p. record p { idle_timeout = val }) c))
  idle_roundtrip val c h =
      let c1 = with_port (λ p. record p { idle_timeout = val }) c in
      ap (at_line net i now (codes "ATS30?")) (at_line-set_idle val c h)
      ∙ ask_idle (respond at_ok c1)
      ∙ ap (λ v. respond (λ a. at_respond a (register_text v)) (respond at_ok c1))
          (respond-idle at_ok c1)
