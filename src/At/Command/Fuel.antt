-- ===== src/At/Command/Fuel.antt =====
-- The loop of `at_execute` ends: every command leaves a shorter rest, so the length is fuel enough.
use vmodem.Prelude.{
  ℕ, zero, suc, ◌+◌, ◌-◌, ◌*◌, ◌%◌, ◌≤◌, ◌≡◌, refl, arith, List, [], ◌∷◌, length, bit_and,
}
use vmodem.Mtcp.{Mtcp}
use vmodem.Port.{Ctx}
use vmodem.At.{at_ok, respond}
use vmodem.At.Command.{
  Next, done, more, skip_digits, skip_digit, read_digits, cmd_ampersand, cmd_skip, cmd_reset,
  cmd_echo, cmd_quiet, cmd_verbose, cmd_online, cmd_answer, cmd_register_rest, cmd_register,
  cmd_hangup, cmd_letter, at_command, at_commands,
}

abbrev pub Within : {W : Type 0} → ℕ → Next W → Type 0
Within n (done c) = Unit {0}
Within n (more r c) = length r ≤ n

skip_digits-le : (r : List ℕ) → length (skip_digits r) ≤ length r
unfolding skip_digits
skip_digits-le [] = omega arith
skip_digits-le (x ∷ r) = ground (arith, skip_digits-le r)

read_digits-le : (val : ℕ) (r : List ℕ) → length (read_digits val r).1 ≤ length r
unfolding read_digits
read_digits-le val [] = omega arith
read_digits-le val (x ∷ r) = ground (arith, read_digits-le ((val * 10 + (x - b'0')) % 65536) r)

module _ {W : Type 0} where
  ampersand-Within : (r : List ℕ) (c : Ctx W) → Within (length r) (cmd_ampersand r c)
  unfolding cmd_ampersand
  ampersand-Within [] c = omega arith
  ampersand-Within (x ∷ r) c = ground (arith, read_digits-le 0 r)

  skip-Within : (r : List ℕ) (c : Ctx W) → Within (length r) (cmd_skip r c)
  unfolding cmd_skip
  skip-Within [] c = omega arith
  skip-Within (x ∷ r) c = omega (arith, skip_digits-le r)

  echo-Within : (r : List ℕ) (c : Ctx W) → Within (length r) (cmd_echo r c)
  unfolding cmd_echo
  echo-Within [] c = omega arith
  echo-Within (x ∷ r) c = ground arith

  quiet-Within : (r : List ℕ) (c : Ctx W) → Within (length r) (cmd_quiet r c)
  unfolding cmd_quiet
  quiet-Within [] c = omega arith
  quiet-Within (x ∷ r) c = ground arith

  verbose-Within : (r : List ℕ) (c : Ctx W) → Within (length r) (cmd_verbose r c)
  unfolding cmd_verbose
  verbose-Within [] c = omega arith
  verbose-Within (x ∷ r) c = ground arith

  online-Within : (n now : ℕ) (c : Ctx W) → Within n (cmd_online now c)
  unfolding cmd_online
  online-Within n now c = ground arith

  answer-Within : (n now : ℕ) (c : Ctx W) → Within n (cmd_answer now c)
  unfolding cmd_answer
  answer-Within n now c = ground arith

  register_rest-Within :
      (reg : ℕ) (r : List ℕ) (c : Ctx W) → Within (length r) (cmd_register_rest reg r c)
  unfolding cmd_register_rest
  register_rest-Within reg [] c = omega arith
  register_rest-Within reg (x ∷ r) c = ground (arith, read_digits-le 0 r)

  Within-mono : (m n : ℕ) (x : Next W) → m ≤ n → Within m x → Within n x
  Within-mono m n (done c) h w = tt
  Within-mono m n (more r c) h w = omega arith

  register-Within : (r : List ℕ) (c : Ctx W) → Within (length r) (cmd_register r c)
  unfolding cmd_register
  register-Within r c =
      let (reg, r') = read_digits 0 r in
      Within-mono (length r') (length r) (cmd_register_rest reg r' c) (read_digits-le 0 r)
        (register_rest-Within reg r' c)

module _ {W : Type 0} (net : Mtcp W) (i now : ℕ) where
  hangup-Within : (r : List ℕ) (c : Ctx W) → Within (length r) (cmd_hangup net i now r c)
  unfolding cmd_hangup skip_digit
  hangup-Within [] c = ground arith
  hangup-Within (x ∷ r) c = ground arith

  letter-Within : (x : ℕ) (r : List ℕ) (c : Ctx W) → Within (length r) (cmd_letter net i now x r c)
  unfolding cmd_letter cmd_reset
  letter-Within x r c = ground (
    arith,
    echo-Within r c,
    quiet-Within r c,
    verbose-Within r c,
    online-Within (length r) now c,
    answer-Within (length r) now c,
    register-Within r c,
    hangup-Within r c,
    skip_digits-le r,
  )

  -- A command never leaves more than the text after its own character.
  command-Within : (x : ℕ) (r : List ℕ) (c : Ctx W) → Within (length r) (at_command net i now x r c)
  unfolding at_command
  command-Within x r c =
      ground (arith, ampersand-Within r c, skip-Within r c, letter-Within (bit_and x 0xdf) r c)

  -- The runs of the source's `while (i < len)` from the rest `r` on, without fuel: a derivation is a
  -- run that ends, at the end of the line or by a `return`.
  pub data Runs : List ℕ → Ctx W → Ctx W → Type 0 where
    at_end : (c : Ctx W) → Runs [] c (respond at_ok c)
    returns :
        {x : ℕ} {r : List ℕ} {c d : Ctx W} → at_command net i now x r c ≡ done d → Runs (x ∷ r) c d
    goes_on :
        {x : ℕ} {r r' : List ℕ} {c c' d : Ctx W}
        → at_command net i now x r c ≡ more r' c'
        → Runs r' c' d
        → Runs (x ∷ r) c d

  ran :
      (f x : ℕ) (r : List ℕ) (c : Ctx W) (y : Next W)
      → at_command net i now x r c ≡ y
      → Within (length r) y
      → ((r' : List ℕ) (c' : Ctx W)
          → length r' ≤ length r
          → Runs r' c' (at_commands net i now f r' c'))
      → Runs
          (x ∷ r)
          c
          (elim y as (λ _. Ctx W) [ done d ↦ d | more r' c' ↦ at_commands net i now f r' c' ])
  ran f x r c (done d) e w ih = returns e
  ran f x r c (more r' c') e w ih = goes_on e (ih r' c' w)

  -- The loop of `at_execute` ends on every command line, and what it returns is the result of a run of
  -- the source's `while`: command after command up to the end of the line or a `return`, however much
  -- more fuel than the length of the line it is given. No run ends for want of fuel.
  pub at_commands-Runs :
      (f : ℕ) (r : List ℕ) (c : Ctx W) → length r ≤ f → Runs r c (at_commands net i now f r c)
  unfolding at_commands
  at_commands-Runs zero [] c h = at_end c
  at_commands-Runs (suc f) [] c h = at_end c
  at_commands-Runs zero (x ∷ r) c h = absurd (omega arith)
  at_commands-Runs (suc f) (x ∷ r) c h =
      ran f x r c (at_command net i now x r c) refl (command-Within x r c)
        (λ r' c' le. at_commands-Runs f r' c' (omega arith))
