-- ===== src/Telnet/Options.antt =====
-- Option negotiation: `telnet_handle_option` does not answer an answer.
use vmodem.Prelude.{ℕ, ◌+◌, ◌≤◌, ◌≡◌, arith, Bool, true, false, Option, none, some, List, [], ◌∷◌}
use vmodem.Mtcp.{Mtcp}
use vmodem.Telnet.{
  Iac, tel_will, tel_wont, tel_do, tel_dont, telopt_binary, telopt_echo, telopt_sga, telopt_naws,
  telopt_ttype, telnet_send_raw, telnet_send_response, handle_do, handle_will, telnet_handle_option,
}

-- The option commands of a peer that asks for nothing that VMODEM lacks.
pub data Request : Type 0 where
  do_binary do_echo do_sga will_binary will_sga will_naws will_ttype : Request
  wont dont : ℕ → Request

abbrev pub cmd_of : Request → ℕ
cmd_of do_binary = tel_do
cmd_of do_echo = tel_do
cmd_of do_sga = tel_do
cmd_of will_binary = tel_will
cmd_of will_sga = tel_will
cmd_of will_naws = tel_will
cmd_of will_ttype = tel_will
cmd_of (wont o) = tel_wont
cmd_of (dont o) = tel_dont

abbrev pub opt_of : Request → ℕ
opt_of do_binary = telopt_binary
opt_of do_echo = telopt_echo
opt_of do_sga = telopt_sga
opt_of will_binary = telopt_binary
opt_of will_sga = telopt_sga
opt_of will_naws = telopt_naws
opt_of will_ttype = telopt_ttype
opt_of (wont o) = o
opt_of (dont o) = o

abbrev missing : Bool → ℕ
missing true = 0
missing false = 1

-- How many options are not yet agreed on.
unfoldable pub open_options : Iac → ℕ
open_options t =
    missing t.neg_binary
    + missing t.neg_echo
    + missing t.neg_sga
    + missing t.neg_naws
    + missing t.neg_ttype

module _ {W : Type 0} (net : Mtcp W) (sock : Option ℕ) where
  abbrev pub handle : Iac → Request → W → Iac × W
  handle t r w = telnet_handle_option net sock t (cmd_of r) (opt_of r) w

  -- A supported request that comes again right away changes nothing and is not answered.
  handle_option_twice :
      (t : Iac) (r : Request) (w : W) → let (t', w') = handle t r w in handle t' r w' ≡ (t', w')
  unfolding telnet_handle_option handle_do handle_will
  handle_option_twice t do_binary w = ground arith
  handle_option_twice t _ w = ground arith

  unfoldable pub handle_all : Iac → List Request → W → Iac × W
  handle_all t [] w = (t, w)
  handle_all t (r ∷ rs) w = let (t', w') = handle t r w in handle_all t' rs w'

module _ {W : Type 0} (net : Mtcp W) (sends : W → ℕ)
    (send_counted : (s : ℕ) (bs : List ℕ) (w : W) → sends (net.send s bs w).1 ≤ sends w + 1) where
  send_raw-counted :
      (sock : Option ℕ) (bs : List ℕ) (w : W) → sends (telnet_send_raw net sock bs w) ≤ sends w + 1
  unfolding telnet_send_raw
  send_raw-counted none bs w = omega arith
  send_raw-counted (some s) bs w = grind (arith, send_counted)

  -- Each answer settles an option.
  handle-counted :
      (sock : Option ℕ) (t : Iac) (r : Request) (w : W)
      → let (t', w') = handle net sock t r w in
        sends w' + open_options t' ≤ sends w + open_options t
  unfolding telnet_handle_option handle_do handle_will telnet_send_response open_options
  handle-counted sock t do_binary w = grind (arith, send_raw-counted)
  handle-counted sock t _ w = grind (arith, send_raw-counted)

  -- However many supported requests and refusals a peer sends, and in whatever order, VMODEM calls
  -- `send` at most once for each option that was not yet agreed on, and never more than five times
  -- in all. (`sends` counts the calls: a call of `send` raises it by one at most.)
  pub handle_all-counted :
      (sock : Option ℕ) (t : Iac) (rs : List Request) (w : W)
      → let (t', w') = handle_all net sock t rs w in
        (sends w' + open_options t' ≤ sends w + open_options t) × (sends w' ≤ sends w + 5)
  unfolding handle_all open_options
  handle_all-counted sock t [] w = ground arith
  handle_all-counted sock t (r ∷ rs) w =
      let (t', w') = handle net sock t r w in
      ground (arith, handle-counted sock t r w, handle_all-counted sock t' rs w')
