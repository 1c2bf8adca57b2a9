-- ===== src/At/Command/Frame.antt =====
-- What a command line leaves alone: the line buffer, and the connection itself.
use vmodem.Prelude.{
  Bool, ◌⊎◌, inl, inr, refl, ℕ, zero, suc, ◌≡◌, ap, ◌∙◌, subst, codes, sym, arith, false, List, [],
  ◌∷◌, length, bit_and, take,
}
use vmodem.Mtcp.{Mtcp}
use vmodem.Ring.{RingBuf, ring_bits, ring_put}
use vmodem.Ring.Inv.{IsValid, put-IsValid}
use vmodem.Port.{AtState, PortState, Ctx, with_at}
use vmodem.Net.{cmd_disconnect}
use vmodem.Tx.{fossil_flush_tx, flush_open}
use vmodem.Tx.Bounds.{TxSafe, flush_tx-TxSafe}
use vmodem.At.{at_send_str, at_respond, at_ok, at_error, at_no_carrier, at_send_connect, crlf}
use vmodem.At.Command.{
  Next, done, more, cmd_ampersand, cmd_skip, cmd_reset, cmd_echo, read_digits, cmd_quiet,
  cmd_verbose, cmd_online, cmd_answer, set_register, cmd_register_rest, cmd_register, cmd_hangup,
  hang_up, cmd_letter, at_command, at_commands, at_line, at_execute, skip_blanks,
}

at_send_str-IsValid :
    (str : List ℕ) {rx : RingBuf} → IsValid ring_bits rx → IsValid ring_bits (at_send_str rx str)
unfolding at_send_str ring_put
at_send_str-IsValid [] v = v
at_send_str-IsValid (b ∷ str) v = at_send_str-IsValid str (put-IsValid b v)

pub at_respond-IsValid :
    (a : AtState) (str : List ℕ) {rx : RingBuf}
    → IsValid ring_bits rx
    → IsValid ring_bits (at_respond a str rx)
unfolding at_respond
at_respond-IsValid a str {rx} v =
    let plain = at_send_str-IsValid str v in
    ground (
      arith,
      at_send_str-IsValid (13 ∷ []) plain,
      at_send_str-IsValid crlf (at_send_str-IsValid str (at_send_str-IsValid crlf v)),
    )

pub at_ok-IsValid :
    (a : AtState) {rx : RingBuf} → IsValid ring_bits rx → IsValid ring_bits (at_ok a rx)
unfolding at_ok
at_ok-IsValid a v = at_respond-IsValid a _ v

pub at_error-IsValid :
    (a : AtState) {rx : RingBuf} → IsValid ring_bits rx → IsValid ring_bits (at_error a rx)
unfolding at_error
at_error-IsValid a v = at_respond-IsValid a _ v

pub at_no_carrier-IsValid :
    (a : AtState) {rx : RingBuf} → IsValid ring_bits rx → IsValid ring_bits (at_no_carrier a rx)
unfolding at_no_carrier
at_no_carrier-IsValid a v = at_respond-IsValid a _ v

-- What the FOSSIL functions keep of a line, besides the TX ring: initialised, flow control, overrun,
-- DTR and the purge noted.
abbrev pub fossil_state : {W : Type 0} → Ctx W → Bool × ℕ × Bool × Bool × ℕ
fossil_state c =
    (c.line.fossil_init, c.line.flow_ctrl, c.line.overrun, c.line.dtr, c.line.purge_seen)

-- A port as another one, but for its RX ring, a close asked for and the timeout of S30.
abbrev pub as_before : PortState → PortState → PortState
as_before p q = record p {
  rx = q.rx;
  pending_close = q.pending_close;
  idle_timeout = q.idle_timeout;
}

pub flush_tx-frame :
    {W : Type 0} (net : Mtcp W) (i : ℕ) (c : Ctx W)
    → let c' = (fossil_flush_tx net i c).1 in
      (c'.line.port ≡ c.line.port)
      × (c'.line.at ≡ c.line.at)
      × (c'.line.fossil_init ≡ c.line.fossil_init)
      × (fossil_state c' ≡ fossil_state c)
unfolding fossil_flush_tx flush_open
flush_tx-frame net i c = ground arith

-- From one state of a line to another.
pub record Keeps {W : Type 0} (c c' : Ctx W) : Type 0 where
  pub same_pos : c'.line.at.pos ≡ c.line.at.pos
  pub same_buf : c'.line.at.buf ≡ c.line.at.buf
  pub same_mode : c'.line.port.mode ≡ c.line.port.mode
  pub same_sock : c'.line.port.sock ≡ c.line.port.sock
  pub same_fossil : fossil_state c' ≡ fossil_state c
  pub same_port : c'.line.port ≡ as_before c.line.port c'.line.port
  pub asks :
      (c'.line.port.pending_close ≡ c.line.port.pending_close) ⊎ (c'.line.port.pending_close ≡ 1)
  pub rx_valid : IsValid ring_bits c.line.port.rx → IsValid ring_bits c'.line.port.rx
  pub tx_safe : TxSafe c → TxSafe c'

abbrev NextKeeps : {W : Type 0} → Ctx W → Next W → Type 0
NextKeeps c (done c') = Keeps c c'
NextKeeps c (more r c') = Keeps c c'

ruleset rings = (arith, at_ok-IsValid, at_error-IsValid, at_no_carrier-IsValid, at_respond-IsValid)

Keeps-trans : {W : Type 0} {c d e : Ctx W} → Keeps c d → Keeps d e → Keeps c e
Keeps-trans {e} h k = record {
  same_pos = k.same_pos ∙ h.same_pos;
  same_buf = k.same_buf ∙ h.same_buf;
  same_mode = k.same_mode ∙ h.same_mode;
  same_sock = k.same_sock ∙ h.same_sock;
  same_fossil = k.same_fossil ∙ h.same_fossil;
  same_port = k.same_port ∙ ap (λ p. as_before p e.line.port) h.same_port;
  asks = elim (k.asks) [
    | inl a ↦ elim (h.asks) [ inl b ↦ inl (a ∙ b) | inr b ↦ inr (a ∙ b) ]
    | inr a ↦ inr a
  ];
  rx_valid = λ v. k.rx_valid (h.rx_valid v);
  tx_safe = λ v. k.tx_safe (h.tx_safe v);
}

module _ {W : Type 0} where
  ampersand-Keeps : (r : List ℕ) (c : Ctx W) → NextKeeps c (cmd_ampersand r c)
  unfolding cmd_ampersand
  ampersand-Keeps [] c = ground arith
  ampersand-Keeps (x ∷ r) c = ground arith

  skip-Keeps : (r : List ℕ) (c : Ctx W) → NextKeeps c (cmd_skip r c)
  unfolding cmd_skip
  skip-Keeps [] c = ground arith
  skip-Keeps (x ∷ r) c = ground arith

  echo-Keeps : (r : List ℕ) (c : Ctx W) → NextKeeps c (cmd_echo r c)
  unfolding cmd_echo
  echo-Keeps [] c = ground arith
  echo-Keeps (x ∷ r) c = ground arith

  quiet-Keeps : (r : List ℕ) (c : Ctx W) → NextKeeps c (cmd_quiet r c)
  unfolding cmd_quiet
  quiet-Keeps [] c = ground arith
  quiet-Keeps (x ∷ r) c = ground arith

  verbose-Keeps : (r : List ℕ) (c : Ctx W) → NextKeeps c (cmd_verbose r c)
  unfolding cmd_verbose
  verbose-Keeps [] c = ground arith
  verbose-Keeps (x ∷ r) c = ground arith

  online-Keeps : (now : ℕ) (c : Ctx W) → NextKeeps c (cmd_online now c)
  unfolding cmd_online at_send_connect
  online-Keeps now c = grind rings

  answer-Keeps : (now : ℕ) (c : Ctx W) → NextKeeps c (cmd_answer now c)
  unfolding cmd_answer at_send_connect
  answer-Keeps now c = grind rings

  reset-Keeps : (i : ℕ) (c : Ctx W) → NextKeeps c (cmd_reset i c)
  unfolding cmd_reset cmd_disconnect
  reset-Keeps i c = grind rings

  register_rest-Keeps : (reg : ℕ) (r : List ℕ) (c : Ctx W) → NextKeeps c (cmd_register_rest reg r c)
  unfolding cmd_register_rest set_register
  register_rest-Keeps reg [] c = ground arith
  register_rest-Keeps reg (x ∷ r) c = grind rings

module _ {W : Type 0} (net : Mtcp W) (i now : ℕ) where
  hang_up-Keeps : (c : Ctx W) → Keeps c (hang_up net i now c)
  unfolding hang_up
  hang_up-Keeps c =
      let f = flush_tx-frame net i c in
      record {
        same_pos = ap (λ a. a.pos) f.1;
        same_buf = ap (λ a. a.buf) f.1;
        same_mode = ap (λ p. p.mode) f.0;
        same_sock = ap (λ p. p.sock) f.0;
        same_fossil = f.3;
        same_port = ap (λ p. as_before p (hang_up net i now c).line.port) f.0;
        asks = inr refl;
        rx_valid = λ v. at_no_carrier-IsValid _ (subst (λ p. IsValid ring_bits p.rx) (sym f.0) v);
        tx_safe = λ v.
            let w = flush_tx-TxSafe net i c v in record { tx_valid = w.tx_valid; fits = w.fits };
      }

  hangup-Keeps : (r : List ℕ) (c : Ctx W) → NextKeeps c (cmd_hangup net i now r c)
  unfolding cmd_hangup
  hangup-Keeps r c =
      ground (arith, hang_up-Keeps (with_at (λ a. record a { cmd_mode = false; plus_count = 0 }) c))

  letter-Keeps : (x : ℕ) (r : List ℕ) (c : Ctx W) → NextKeeps c (cmd_letter net i now x r c)
  unfolding cmd_letter cmd_register
  letter-Keeps x r c =
      let (reg, r') = read_digits 0 r in
      ground (
        arith,
        reset-Keeps i c,
        echo-Keeps r c,
        quiet-Keeps r c,
        verbose-Keeps r c,
        online-Keeps now c,
        answer-Keeps now c,
        register_rest-Keeps reg r' c,
        hangup-Keeps r c,
        at_ok-IsValid c.line.at {rx = c.line.port.rx},
        at_respond-IsValid c.line.at (codes "VMODEM 1.0") {rx = c.line.port.rx},
      )

  command-Keeps : (x : ℕ) (r : List ℕ) (c : Ctx W) → NextKeeps c (at_command net i now x r c)
  unfolding at_command
  command-Keeps x r c =
      ground (arith, ampersand-Keeps r c, skip-Keeps r c, letter-Keeps (bit_and x 0xdf) r c)

  next-Keeps :
      (f : ℕ) (c : Ctx W) (x : Next W)
      → NextKeeps c x
      → ((r : List ℕ) (d : Ctx W) → Keeps d (at_commands net i now f r d))
      → Keeps c (elim x as (λ _. Ctx W) [ done d ↦ d | more r d ↦ at_commands net i now f r d ])
  next-Keeps f c (done d) k ih = k
  next-Keeps f c (more r d) k ih = Keeps-trans k (ih r d)

  at_commands-Keeps : (f : ℕ) (r : List ℕ) (c : Ctx W) → Keeps c (at_commands net i now f r c)
  unfolding at_commands
  at_commands-Keeps zero [] c = grind rings
  at_commands-Keeps zero (x ∷ r) c = grind rings
  at_commands-Keeps (suc f) [] c = grind rings
  at_commands-Keeps (suc f) (x ∷ r) c =
      next-Keeps f c (at_command net i now x r c) (command-Keeps x r c) (at_commands-Keeps f)

  at_line-Keeps : (r : List ℕ) (c : Ctx W) → Keeps c (at_line net i now r c)
  unfolding at_line
  at_line-Keeps [] c = grind rings
  at_line-Keeps (x ∷ []) c = grind rings
  at_line-Keeps (x ∷ y ∷ r) c =
      ground
        (arith, at_commands-Keeps (length r) r c, at_error-IsValid c.line.at {rx = c.line.port.rx})

  pub at_execute-Keeps : (c : Ctx W) → Keeps c (at_execute net i now c)
  unfolding at_execute
  at_execute-Keeps c = at_line-Keeps (skip_blanks (take c.line.at.pos c.line.at.buf)) c

  pub at_execute-frame :
      (c : Ctx W)
      → IsValid ring_bits c.line.port.rx
      → TxSafe c
      → let c' = at_execute net i now c in
        (c'.line.at.pos ≡ c.line.at.pos)
        × (c'.line.at.buf ≡ c.line.at.buf)
        × (fossil_state c' ≡ fossil_state c)
        × (c'.line.port ≡ as_before c.line.port c'.line.port)
        × ((c'.line.port.pending_close ≡ c.line.port.pending_close)
            ⊎ (c'.line.port.pending_close ≡ 1))
        × IsValid ring_bits c'.line.port.rx
        × TxSafe c'
  at_execute-frame c v w =
      let k = at_execute-Keeps c in
      (k.same_pos, k.same_buf, k.same_fossil, k.same_port, k.asks, k.rx_valid v, k.tx_safe w)
