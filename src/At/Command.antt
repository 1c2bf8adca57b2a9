-- ===== src/At/Command.antt =====
-- The command lines: `at_execute` of src/atcmd.c.
--
-- The text that is still to be read, `cmd[i..len)`, is a list. A command either ends the line or
-- goes on with a shorter rest. The numbers are 16-bit ints, which wrap.
pub mod Fuel
pub mod Frame
use vmodem.Prelude.{
  ℕ, zero, suc, ◌+◌, ◌-◌, ◌*◌, ◌/◌, ◌%◌, bit_and, Bool, true, false, ◌&&◌, ◌||◌, Option, none, some,
  List, [], ◌∷◌, ltb, leb, ◌==◌, if◌then◌else◌, length, take, set, replicate, codes,
}
use vmodem.Mtcp.{Mtcp}
use vmodem.Port.{AtState, PortState, Line, Shared, Ctx, with_port, with_at}
use vmodem.Net.{is_conn, is_open, cmd_disconnect}
use vmodem.Tx.{fossil_flush_tx}
use vmodem.At.{at_respond, at_ok, at_error, at_no_carrier, at_send_connect, respond}

-- What a command does: it ends the line, or leaves a rest to be read.
pub data Next (W : Type 0) : Type 0 where
  done : Ctx W → Next W
  more : List ℕ → Ctx W → Next W

abbrev pub is_digit : ℕ → Bool
is_digit c = leb b'0' c && leb c b'9'

-- `while (i < len && cmd[i] >= '0' && cmd[i] <= '9') i++;`
unfoldable pub skip_digits : List ℕ → List ℕ
skip_digits [] = []
skip_digits (c ∷ r) = if is_digit c then skip_digits r else c ∷ r

-- Leading spaces and tabs.
unfoldable pub skip_blanks : List ℕ → List ℕ
skip_blanks [] = []
skip_blanks (x ∷ r) = if x == b' ' || x == 9 then skip_blanks r else x ∷ r

-- One digit at most.
unfoldable pub skip_digit : List ℕ → List ℕ
skip_digit [] = []
skip_digit (c ∷ r) = if is_digit c then r else c ∷ r

-- `val = val * 10 + (cmd[i] - '0')` over the digits.
unfoldable pub read_digits : ℕ → List ℕ → ℕ × List ℕ
read_digits val [] = (val, [])
read_digits val (c ∷ r) =
    let rest = read_digits ((val * 10 + (c - b'0')) % 65536) r in
    if is_digit c then rest else (val, c ∷ r)

-- A digit of an int, `(char)('0' + (val / d) % 10)`: division goes towards zero, so that a
-- negative number gives a character below '0'.
unfoldable pub int_digit : ℕ → ℕ → ℕ
int_digit val d = if ltb val 32768 then b'0' + (val / d) % 10 else b'0' - ((65536 - val) / d) % 10

unfoldable pub register_text : ℕ → List ℕ
register_text val = int_digit val 100 ∷ int_digit val 10 ∷ int_digit val 1 ∷ []

-- X, L, M, N, W, Y, C, F, P and T are accepted.
abbrev pub is_accepted : ℕ → Bool
is_accepted x =
    x == b'X'
    || x == b'L'
    || x == b'M'
    || x == b'N'
    || x == b'W'
    || x == b'Y'
    || x == b'C'
    || x == b'F'
    || x == b'P'
    || x == b'T'

module _ {W : Type 0} where
  -- AT&: `dtr_ignore` of every port, by &D; others are accepted.
  unfoldable pub cmd_ampersand : List ℕ → Ctx W → Next W
  cmd_ampersand [] c = more [] c
  cmd_ampersand (sub ∷ r) c =
      let (val, r') = read_digits 0 r in
      if sub == b'D' || sub == b'd'
      then more r' (record c { shared = record (c.shared) { dtr_ignore = replicate 4 (val == 0) } })
      else more r' c

  -- AT\ and AT%
  unfoldable pub cmd_skip : List ℕ → Ctx W → Next W
  cmd_skip [] c = more [] c
  cmd_skip (sub ∷ r) c = more (skip_digits r) c

  -- ATZ
  unfoldable pub cmd_reset : ℕ → Ctx W → Next W
  cmd_reset i c =
      let c1 =
        with_at
          (λ a. record a {
            echo = true;
            quiet = false;
            verbose = true;
            s0 = 0;
            cmd_mode = true;
            plus_count = 0;
          })
          (record c {
            shared = record (c.shared) { dtr_ignore = set c.shared.dtr_ignore i false };
          }) in
      done (
        respond at_ok
          (with_port (λ p. if is_conn p.mode && is_open p.sock then cmd_disconnect p else p) c1))

  -- ATE: no digit is E0.
  unfoldable pub cmd_echo : List ℕ → Ctx W → Next W
  cmd_echo [] c = more [] (with_at (λ a. record a { echo = false }) c)
  cmd_echo (x ∷ r) c =
      if x == b'0'
      then more r (with_at (λ a. record a { echo = false }) c)
      else if x == b'1'
      then more r (with_at (λ a. record a { echo = true }) c)
      else more (x ∷ r) (with_at (λ a. record a { echo = false }) c)

  -- ATQ
  unfoldable pub cmd_quiet : List ℕ → Ctx W → Next W
  cmd_quiet [] c = more [] (with_at (λ a. record a { quiet = false }) c)
  cmd_quiet (x ∷ r) c =
      if x == b'1'
      then more r (with_at (λ a. record a { quiet = true }) c)
      else more (if x == b'0' then r else x ∷ r) (with_at (λ a. record a { quiet = false }) c)

  -- ATV
  unfoldable pub cmd_verbose : List ℕ → Ctx W → Next W
  cmd_verbose [] c = more [] (with_at (λ a. record a { verbose = true }) c)
  cmd_verbose (x ∷ r) c =
      if x == b'0'
      then more r (with_at (λ a. record a { verbose = false }) c)
      else more (if x == b'1' then r else x ∷ r) (with_at (λ a. record a { verbose = true }) c)

  -- ATO
  unfoldable pub cmd_online : ℕ → Ctx W → Next W
  cmd_online now c =
      let c1 = with_at (λ a. record a { cmd_mode = false; plus_count = 0 }) c in
      if is_conn c1.line.port.mode
      then done (with_at (at_send_connect now) c1)
      else done (respond at_no_carrier c1)

  -- ATA
  unfoldable pub cmd_answer : ℕ → Ctx W → Next W
  cmd_answer now c =
      if is_conn c.line.port.mode
      then done (with_at (λ a. at_send_connect now (record a { ringing = false })) c)
      else done (respond at_no_carrier c)

  -- ATSn=v
  unfoldable pub set_register : ℕ → ℕ → Ctx W → Ctx W
  set_register reg val c =
      if reg == 0
      then with_at (λ a. record a { s0 = val % 256 }) c
      else if reg == 30
      then with_port (λ p. record p { idle_timeout = val }) c
      else c

  -- ATSn?: three digits.
  unfoldable pub register_value : ℕ → Ctx W → ℕ
  register_value reg c =
      if reg == 0 then c.line.at.s0 else if reg == 30 then c.line.port.idle_timeout else 0

  -- What follows the register's number.
  unfoldable pub cmd_register_rest : ℕ → List ℕ → Ctx W → Next W
  cmd_register_rest reg [] c = more [] c
  cmd_register_rest reg (x ∷ r) c =
      if x == b'='
      then (let (val, r') = read_digits 0 r in more r' (set_register reg val c))
      else if x == b'?'
      then done (respond (λ a. at_respond a (register_text (register_value reg c))) c)
      else more (x ∷ r) c

  unfoldable pub cmd_register : List ℕ → Ctx W → Next W
  cmd_register r c = let (reg, r') = read_digits 0 r in cmd_register_rest reg r' c

module _ {W : Type 0} (net : Mtcp W) (i now : ℕ) where
  -- The end of an answered call: the close is left to the poll cycle.
  unfoldable pub hang_up : Ctx W → Ctx W
  hang_up c =
      respond at_no_carrier
        (with_port (λ p. record p { pending_close = 1 }) (fossil_flush_tx net i c).1)

  -- ATH
  unfoldable pub cmd_hangup : List ℕ → Ctx W → Next W
  cmd_hangup r c =
      let c1 = with_at (λ a. record a { cmd_mode = false; plus_count = 0 }) c in
      if c1.line.at.ringing
      then more (skip_digit r) c1
      else if is_conn c1.line.port.mode && is_open c1.line.port.sock
      then done (hang_up c1)
      else more (skip_digit r) (with_at (λ a. record a { ringing = false }) c1)

  -- The switch over the upper-case letter `x`.
  unfoldable pub cmd_letter : ℕ → List ℕ → Ctx W → Next W
  cmd_letter x r c =
      if x == b'Z'
      then cmd_reset i c
      else if x == b'E'
      then cmd_echo r c
      else if x == b'Q'
      then cmd_quiet r c
      else if x == b'V'
      then cmd_verbose r c
      else if x == b'H'
      then cmd_hangup r c
      else if x == b'O'
      then cmd_online now c
      else if x == b'A'
      then cmd_answer now c
      else if x == b'S'
      then cmd_register r c
      else if x == b'D'
      then done (respond at_ok c)
      else if x == b'I'
      then done (respond (λ a. at_respond a (codes "VMODEM 1.0")) c)
      else if is_accepted x
      then more (skip_digits r) c
      else more r c

  unfoldable pub at_command : ℕ → List ℕ → Ctx W → Next W
  at_command x r c =
      if x == b' '
      then more r c
      else if x == b'&'
      then cmd_ampersand r c
      else if x == 92 || x == b'%'
      then cmd_skip r c
      else cmd_letter (bit_and x 0xdf) r c

  -- `while (i < len)`, then `at_ok`. The fuel is the length of the rest: it ends with the rest.
  unfoldable pub at_commands : ℕ → List ℕ → Ctx W → Ctx W
  at_commands f [] c = respond at_ok c
  at_commands zero (x ∷ r) c = respond at_ok c
  at_commands (suc f) (x ∷ r) c = elim (at_command x r c) [
    | done c' ↦ c'
    | more r' c' ↦ at_commands f r' c'
  ]

  -- A line must begin with AT.
  unfoldable pub at_line : List ℕ → Ctx W → Ctx W
  at_line [] c = respond at_error c
  at_line (x ∷ []) c = respond at_error c
  at_line (x ∷ y ∷ r) c =
      if (x == b'A' || x == b'a') && (y == b'T' || y == b't')
      then at_commands (length r) r c
      else respond at_error c

  unfoldable pub at_execute : Ctx W → Ctx W
  at_execute c = at_line (skip_blanks (take c.line.at.pos c.line.at.buf)) c
