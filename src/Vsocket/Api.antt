-- ===== src/Vsocket/Api.antt =====
-- What src/lib/vsocket.c asks of INT 2Fh and of the machine, and the resident program as what answers.
use vmodem.Prelude.{ℕ, ◌+◌, ◌*◌, ◌≤◌, ◌≡◌, List, [], ◌∷◌, ◌++◌, length, take, replicate}
use vmodem.Mtcp.{Mtcp}
use vmodem.Mtcp.Outgoing.{Outgoing}
use vmodem.System.{System}
use vmodem.Mux.Dispatch.{MuxRegs, int2f_handler, int28_handler, mux_id}

pub record MuxApi (V : Type 0) : Type 0 where
  -- the calls with the result that MUX_SOCK_RESULT then returns
  pub alloc : V → ℕ × V
  pub connect : ℕ → List ℕ → ℕ → V → ℕ × V
  pub status : ℕ → V → ℕ × V
  pub send : ℕ → List ℕ → V → ℕ × V
  -- the bytes that are put in the caller's buffer
  pub recv : ℕ → ℕ → V → List ℕ × V
  pub close : ℕ → V → V
  pub recv_ready : ℕ → V → ℕ × V
  pub resolve : List ℕ → V → ℕ × V
  -- the state of the request and the address
  pub resolve_result : V → ℕ × List ℕ × V
  pub dns_flush : List ℕ → V → V
  -- MUX_POLL, INT 28h and the BIOS tick count
  pub poll : V → V
  pub idle : V → V
  pub tick : V → ℕ

-- What `send` of the library relies on for the connection `h`, in the states `Up`, which the calls it
-- makes do not leave: MUX_SOCK_SEND takes a first part of what it is offered, which reaches the end of
-- the connection's stream, and no other of these calls writes to that stream.
pub record ApiLaws {V : Type 0} (api : MuxApi V) (Up : V → Type 0) (h : ℕ) (stream : V → List ℕ)
    : Type 0 where
  pub send-Up : (bs : List ℕ) (v : V) → Up v → Up (api.send h bs v).1
  pub status-Up : (v : V) → Up v → Up (api.status h v).1
  pub poll-Up : (v : V) → Up v → Up (api.poll v)
  pub idle-Up : (v : V) → Up v → Up (api.idle v)
  pub taken_le : (bs : List ℕ) (v : V) → Up v → (api.send h bs v).0 ≤ length bs
  pub stream-send :
      (bs : List ℕ) (v : V)
      → Up v
      → stream (api.send h bs v).1 ≡ stream v ++ take (api.send h bs v).0 bs
  pub stream-status : (v : V) → Up v → stream (api.status h v).1 ≡ stream v
  pub stream-poll : (v : V) → Up v → stream (api.poll v) ≡ stream v
  pub stream-idle : (v : V) → Up v → stream (api.idle v) ≡ stream v

module _ {W : Type 0} (net : Mtcp W) (out : Outgoing W) (fuel : ℕ) (clock : System W → ℕ) where
  -- A call of INT 2Fh.
  unfoldable pub call : ℕ → ℕ → ℕ → List ℕ → System W → MuxRegs × System W
  unfolding int2f_handler
  call al cx dx buf s =
      int2f_handler net out fuel (clock s)
        (record { ax = mux_id * 256 + al; cx = cx; dx = dx; si = 0; buffer = buf }) s

  -- The call, and the result that the next call reads.
  unfoldable pub call_result : ℕ → ℕ → ℕ → List ℕ → System W → ℕ × System W
  unfolding call
  call_result al cx dx buf s =
      let s1 = (call al cx dx buf s).1 in let (r, s2) = call 0x16 0 0 [] s1 in (r.ax, s2)

  -- The resident program, as the library calls it.
  unfoldable pub resident : MuxApi (System W)
  unfolding call call_result int28_handler
  resident = record {
    alloc = call_result 0x10 0 0 [];
    connect = λ h ip port. call_result 0x11 h port ip;
    status = λ h. call_result 0x12 h 0 [];
    send = λ h bs. call_result 0x13 h (length bs) bs;
    recv = λ h n s.
        let (r, s1) = call 0x14 h n (replicate 1024 0) s in
        let (res, s2) = call 0x16 0 0 [] s1 in (take res.ax r.buffer, s2);
    close = λ h s. (call 0x15 h 0 [] s).1;
    recv_ready = λ h. call_result 0x1b h 0 [];
    resolve = λ name. call_result 0x17 0 0 (name ++ (0 ∷ []));
    resolve_result = λ s.
        let (r, s1) = call 0x18 0 0 (replicate 4 0) s in
        let (res, s2) = call 0x16 0 0 [] s1 in (res.ax, take 4 r.buffer, s2);
    dns_flush = λ name s. (call 0x1c 0 0 (name ++ (0 ∷ [])) s).1;
    poll = λ s. (call 0x05 0 0 [] s).1;
    idle = λ s. int28_handler net out fuel (clock s) s;
    tick = clock;
  }
