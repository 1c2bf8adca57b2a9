-- ===== src/Telnet.antt =====
-- The telnet protocol machine of src/telnet.c.
--
-- `Iac` holds the telnet fields of `PortState`. A routine gets the port's socket (`none` is NULL)
-- and the outside world beside them, and returns both anew. The calls that only write the debug
-- log are left out.
pub mod Stream
pub mod Options
pub mod Subneg
pub mod Ttype
mod Tests
use vmodem.Prelude.{
  ℕ, zero, suc, ◌+◌, ◌-◌, ◌*◌, ◌%◌, bit_or, Bool, true, false, not, ◌&&◌, ◌||◌, Option, none, some,
  List, [], ◌∷◌, ltb, leb, ◌==◌, if◌then◌else◌, set, get_or, replicate,
}
use vmodem.Mtcp.{Mtcp}

abbrev pub tel_iac : ℕ
tel_iac = 0xff

abbrev pub tel_will : ℕ
tel_will = 0xfb

abbrev pub tel_wont : ℕ
tel_wont = 0xfc

abbrev pub tel_do : ℕ
tel_do = 0xfd

abbrev pub tel_dont : ℕ
tel_dont = 0xfe

abbrev pub tel_sb : ℕ
tel_sb = 0xfa

abbrev pub tel_se : ℕ
tel_se = 0xf0

abbrev pub telopt_binary : ℕ
telopt_binary = 0x00

abbrev pub telopt_echo : ℕ
telopt_echo = 0x01

abbrev pub telopt_sga : ℕ
telopt_sga = 0x03

abbrev pub telopt_ttype : ℕ
telopt_ttype = 0x18

abbrev pub telopt_naws : ℕ
telopt_naws = 0x1f

-- `IAC_NORMAL` to `IAC_SB_IAC`. The `default` of the switch over them is never reached.
pub data IacState : Type 0 where
  normal saw_ff saw_cmd in_sb sb_iac : IacState

pub record Iac : Type 0 where
  pub iac_state : IacState
  pub iac_cmd : ℕ
  pub neg_echo : Bool
  pub neg_sga : Bool
  pub neg_binary : Bool
  pub neg_naws : Bool
  pub neg_ttype : Bool
  pub sb_opt : ℕ
  pub sb_buf : List ℕ
  pub sb_len : ℕ
  pub naws_cols : ℕ
  pub naws_rows : ℕ
  pub ttype : List ℕ
  pub iac_has_pending : Bool
  pub iac_pending : ℕ

-- As the loader leaves it.
abbrev pub iac_zero : Iac
iac_zero = record {
  iac_state = normal;
  iac_cmd = 0;
  neg_echo = false;
  neg_sga = false;
  neg_binary = false;
  neg_naws = false;
  neg_ttype = false;
  sb_opt = 0;
  sb_buf = replicate 8 0;
  sb_len = 0;
  naws_cols = 0;
  naws_rows = 0;
  ttype = replicate 41 0;
  iac_has_pending = false;
  iac_pending = 0;
}

-- A subnegotiation byte: the option first, then the data, by the rule of the option.
unfoldable pub sb_store : Iac → ℕ → Iac
sb_store t b =
    if t.sb_len == 0
    then record t { sb_opt = b }
    else if t.sb_opt == telopt_ttype && leb 2 t.sb_len
    then (let ti = (t.sb_len - 2) % 256 in
        if ltb ti 40 then record t { ttype = set t.ttype ti b } else t)
    else if leb t.sb_len 8
    then record t { sb_buf = set t.sb_buf (t.sb_len - 1) b }
    else t

-- What IAC SE does with the bytes that were stored.
unfoldable pub sb_finish : Iac → Iac
sb_finish t =
    if t.sb_opt == telopt_ttype && ltb 2 t.sb_len
    then (let n = (t.sb_len - 2) % 256 in
        record t { ttype = set t.ttype (if ltb 40 n then 40 else n) 0 })
    else if t.sb_opt == telopt_naws && leb 5 t.sb_len
    then record t {
      naws_cols = bit_or (get_or t.sb_buf 0 0 * 256) (get_or t.sb_buf 1 0);
      naws_rows = bit_or (get_or t.sb_buf 2 0 * 256) (get_or t.sb_buf 3 0);
    }
    else t

module _ {W : Type 0} (net : Mtcp W) where
  unfoldable pub telnet_send_raw : Option ℕ → List ℕ → W → W
  telnet_send_raw none buf w = w
  telnet_send_raw (some s) buf w = if net.is_closed s w then w else (net.send s buf w).1

  unfoldable pub telnet_send_response : Option ℕ → ℕ → ℕ → W → W
  telnet_send_response sock cmd opt w = telnet_send_raw sock (tel_iac ∷ cmd ∷ opt ∷ []) w

  unfoldable pub telnet_on_connect : Option ℕ → Iac → W → Iac × W
  telnet_on_connect sock t w = (
    record t {
      iac_state = normal;
      iac_cmd = 0;
      iac_has_pending = false;
      iac_pending = 0;
      neg_binary = false;
      neg_echo = false;
      neg_sga = false;
      neg_naws = false;
      neg_ttype = false;
      sb_opt = 0;
      sb_len = 0;
      naws_cols = 0;
      naws_rows = 0;
      ttype = set t.ttype 0 0;
    },
    telnet_send_raw sock second_batch (telnet_send_raw sock first_batch w),
  )
    where
      first_batch : List ℕ
      first_batch =
          tel_iac ∷ tel_will ∷ telopt_binary ∷ tel_iac ∷ tel_do ∷ telopt_binary ∷ tel_iac ∷ tel_will
          ∷ telopt_echo ∷ tel_iac ∷ tel_will ∷ telopt_sga ∷ tel_iac ∷ tel_do ∷ telopt_sga ∷ []

      second_batch : List ℕ
      second_batch = tel_iac ∷ tel_do ∷ telopt_naws ∷ tel_iac ∷ tel_do ∷ telopt_ttype ∷ []

  -- IAC DO opt
  unfoldable pub handle_do : Option ℕ → Iac → ℕ → W → Iac × W
  handle_do sock t opt w =
      if opt == telopt_binary && not t.neg_binary
      then (record t { neg_binary = true }, telnet_send_response sock tel_will opt w)
      else if opt == telopt_echo && not t.neg_echo
      then (record t { neg_echo = true }, telnet_send_response sock tel_will opt w)
      else if opt == telopt_sga && not t.neg_sga
      then (record t { neg_sga = true }, telnet_send_response sock tel_will opt w)
      else if opt == telopt_binary || opt == telopt_echo || opt == telopt_sga
      then (t, w)
      else (t, telnet_send_response sock tel_wont opt w)

  -- IAC WILL opt
  unfoldable pub handle_will : Option ℕ → Iac → ℕ → W → Iac × W
  handle_will sock t opt w =
      if opt == telopt_binary && not t.neg_binary
      then (record t { neg_binary = true }, telnet_send_response sock tel_do opt w)
      else if opt == telopt_sga && not t.neg_sga
      then (record t { neg_sga = true }, telnet_send_response sock tel_do opt w)
      else if opt == telopt_naws && not t.neg_naws
      then (record t { neg_naws = true }, telnet_send_response sock tel_do opt w)
      else if opt == telopt_ttype && not t.neg_ttype
      then (record t { neg_ttype = true }, telnet_send_raw sock ttype_req w)
      else if opt == telopt_binary || opt == telopt_sga || opt == telopt_naws || opt == telopt_ttype
      then (t, w)
      else (t, telnet_send_response sock tel_dont opt w)
    where
      ttype_req : List ℕ
      ttype_req = tel_iac ∷ tel_sb ∷ telopt_ttype ∷ 0x01 ∷ tel_iac ∷ tel_se ∷ []

  unfoldable pub telnet_handle_option : Option ℕ → Iac → ℕ → ℕ → W → Iac × W
  telnet_handle_option sock t cmd opt w =
      if cmd == tel_do
      then handle_do sock t opt w
      else if cmd == tel_will
      then handle_will sock t opt w
      else (t, w)

  -- The result is the byte for the ring buffer, or `none` for -1.
  unfoldable pub filter_in : IacState → Option ℕ → Iac → ℕ → W → Option ℕ × Iac × W
  filter_in normal sock t b w =
      if b == tel_iac then (none, record t { iac_state = saw_ff }, w) else (some b, t, w)
  filter_in saw_ff sock t b w =
      if b == tel_iac
      then (some 0xff, record t { iac_state = normal }, w)
      else if b == tel_will || b == tel_wont || b == tel_do || b == tel_dont
      then (none, record t { iac_cmd = b; iac_state = saw_cmd }, w)
      else if b == tel_sb
      then (none, record t { sb_len = 0; sb_opt = 0; iac_state = in_sb }, w)
      else (none, record t { iac_state = normal }, w)
  filter_in saw_cmd sock t b w =
      let (t', w') = telnet_handle_option sock t t.iac_cmd b w in
      (none, record t' { iac_state = normal }, w')
  filter_in in_sb sock t b w =
      if b == tel_iac
      then (none, record t { iac_state = sb_iac }, w)
      else (let t' = sb_store t b in (none, record t' { sb_len = (t'.sb_len + 1) % 256 }, w))
  filter_in sb_iac sock t b w =
      if b == tel_se
      then (let t' = sb_finish t in (none, record t' { iac_state = normal }, w))
      else (none, record t { iac_state = in_sb }, w)

  unfoldable pub telnet_filter : Option ℕ → Iac → ℕ → W → Option ℕ × Iac × W
  telnet_filter sock t b w = filter_in t.iac_state sock t b w

  unfoldable pub telnet_send_byte : Option ℕ → ℕ → W → W
  telnet_send_byte none b w = w
  telnet_send_byte (some s) b w =
      if net.is_closed s w
      then w
      else if b == 0xff
      then (net.send s (0xff ∷ 0xff ∷ []) w).1
      else (net.send s (b ∷ []) w).1
