-- ===== src/Mtcp/Sink.antt =====
-- An outside world for examples: it counts the calls of `send` and keeps the bytes taken. Of `n`
-- bytes offered, `send` takes `room n` at most.
use vmodem.Prelude.{
  ℕ, ◌+◌, min, refl, arith, false, true, none, some, List, [], ◌++◌, length, take, pos,
}
use vmodem.Mtcp.{Mtcp, SendLaws}

pub record World : Type 0 where
  pub sends : ℕ
  pub bytes : List ℕ

abbrev pub quiet_world : World
quiet_world = record { sends = 0; bytes = [] }

abbrev pub taking : (ℕ → ℕ) → Mtcp World
taking room = record {
  send = λ s bs w. (
    pos (min (room (length bs)) (length bs)),
    record { sends = w.sends + 1; bytes = w.bytes ++ take (min (room (length bs)) (length bs)) bs },
  );
  is_closed = λ s w. false;
  close_nonblocking = λ s w. w;
  free_socket = λ s w. w;
  drive_packets = λ w. w;
  accept = λ w. (none, w);
  pending_accept = λ w. 0;
  peer = λ s w. ([], 0);
  recv_waiting = λ s w. false;
  recv = λ s n w. ([], w);
  is_remote_closed = λ s w. false;
  open_window = λ s w. w;
  process_packets = λ w. w;
  set_mcr = λ i v w. w;
  get_socket = λ w. (some 9, w);
  listen = λ s port w. (true, w);
  get_mcr = λ i w. 0;
  bios = λ func ax dx w. (0, w);
}

-- `send` takes everything.
abbrev pub sink : Mtcp World
sink = taking (λ n. n)

-- `send` takes two bytes at most.
abbrev pub slow : Mtcp World
slow = taking (λ n. 2)

pub taking-SendLaws : (room : ℕ → ℕ) → SendLaws (taking room) (λ s w. w.bytes)
taking-SendLaws room = record { taken_le = λ s bs w. omega arith; stream-send = λ s bs w. refl }
