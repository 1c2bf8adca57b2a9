-- ===== src/Mtcp.antt =====
-- What VMODEM asks of the mTCP stack and of the machine: the interface of code that is not part of
-- the repository. `W` is the state of that outside world; a socket is a number.
pub mod Sink
pub mod Outgoing
use vmodem.Prelude.{ℕ, ◌≤◌, ◌≡◌, Bool, Option, List, ◌++◌, length, take, ℤ, pos_part}

pub record Mtcp (W : Type 0) : Type 0 where
  -- `TcpSocket::send`: how many bytes were taken, or a negative error.
  pub send : ℕ → List ℕ → W → ℤ × W
  -- `TcpSocket::isClosed`
  pub is_closed : ℕ → W → Bool
  -- `TcpSocket::closeNonblocking`
  pub close_nonblocking : ℕ → W → W
  -- `TcpSocketMgr::freeSocket`
  pub free_socket : ℕ → W → W
  -- `TcpSocketMgr::getSocket`, and `TcpSocket::listen` with its socket and port: is the result 0?
  pub get_socket : W → Option ℕ × W
  pub listen : ℕ → ℕ → W → Bool × W
  -- `TcpSocketMgr::accept`, `getSocketsPendingAccept`, and the peer's address and port
  pub accept : W → Option ℕ × W
  pub pending_accept : W → ℕ
  pub peer : ℕ → W → List ℕ × ℕ
  -- `TcpSocket::recvDataWaiting`; `recv` with the size of the buffer, empty for 0 or an error;
  -- `isRemoteClosed`; the reset of the window restriction
  pub recv_waiting : ℕ → W → Bool
  pub recv : ℕ → ℕ → W → List ℕ × W
  pub is_remote_closed : ℕ → W → Bool
  pub open_window : ℕ → W → W
  -- the packets that the packet driver has delivered are processed
  pub process_packets : W → W
  -- `Tcp::drivePackets`
  pub drive_packets : W → W
  -- the UART's modem control register of a port, if its base address is not 0: `outp(base + 4, v)`
  pub set_mcr : ℕ → ℕ → W → W
  -- what `inp(base + 4)` reads there
  pub get_mcr : ℕ → W → ℕ
  -- the BIOS and DOS services that a FOSSIL function passes on to (keyboard, screen, reboot): the
  -- function and its AX and DX, with the key or the cursor position that comes back
  pub bios : ℕ → ℕ → ℕ → W → ℕ × W

-- The documented behaviour of `send`, for a client that reads off what a socket has taken: the
-- bytes taken are a first part of those offered, and reach the end of that socket's stream.
pub record SendLaws {W : Type 0} (net : Mtcp W) (stream : ℕ → W → List ℕ) : Type 0 where
  pub taken_le : (s : ℕ) (bs : List ℕ) (w : W) → pos_part (net.send s bs w).0 ≤ length bs
  pub stream-send :
      (s : ℕ) (bs : List ℕ) (w : W)
      → stream s (net.send s bs w).1 ≡ stream s w ++ take (pos_part (net.send s bs w).0) bs
