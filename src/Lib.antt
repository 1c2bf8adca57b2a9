-- ===== src/Lib.antt =====
-- VMODEM, a virtual modem for DOS: a resident program that stands in for the serial ports. A BBS
-- talks to it by the FOSSIL interface of INT 14h and by Hayes commands, a caller by telnet over
-- the mTCP stack. This library models the program's core and proves what it must do.
--
-- The parts and their files:
--   Ring      the circular buffers: src/ringbuf.c (RX, 4096 bytes) and the TX ring of src/int14.c
--             (512 bytes). `put`, `get` and `reset` take the exponent of the size.
--   Telnet    src/telnet.c: the IAC state machine, option negotiation, subnegotiation.
--   Port      the state: `PortState` of src/vmodem.h, `AtState` of src/atcmd.c, the variables of
--             src/int14.c.
--   Tx        `fossil_flush_tx` and `fossil_clear_tx` of src/int14.c.
--   Net       `sock_close_fast` of src/vmodem.h, `cmd_disconnect` of src/vmodem.c.
--   At        src/atcmd.c: responses and rings (At), the command line (At/Command), the bytes of
--             the application (At/Input).
--   Fossil    `fossil_status` and `int14_real_handler` of src/int14.c: the functions (Fossil),
--             taking and leaving a port (Fossil/Init), the registers (Fossil/Dispatch).
--   Poll      the service of a port in `do_mtcp_poll` of src/poll.c.
--   System    the whole resident state, `VModemState` of src/vmodem.h: four lines, the hunt
--             groups, the external sockets, the names and echo requests.
--   Cycle     `do_mtcp_poll` of src/poll.c on that state: the close queue and the hunt groups
--             (Cycle), `vmodem_icmp_handler` and the echo request (Cycle/Ping), the external
--             sockets (Cycle/External).
--   Mux       `int2f_handler` of src/int8.c: the external sockets (Mux), the names service
--             (Mux/Names), terminals and echo requests (Mux/Ports), the registers and
--             `int28_handler` (Mux/Dispatch).
--   Control   src/vmodem.c: the commands (Control), `parse_args` (Control/Args), what `main` does
--             to the state at installation (Control/Install).
--   Log       `dbg` and `dbg_hex` of src/vmodem.c and MUX_DEBUGLOG of src/int8.c.
--   Vsocket   src/lib/vsocket.c: the socket calls (Vsocket), byte orders (Vsocket/Bytes),
--             `inet_addr` (Vsocket/Address). Vsocket/Api is its interface to INT 2Fh, as a record
--             of operations, with laws and the resident program as one that fills it;
--             Vsocket/Resident is that program with one external connection, as an instance of
--             the laws.
--   Sha256    src/lib/sha256.c.
--   Tls       src/lib/vtls.c: byte order and blocks (Tls), `aes_cbc_encrypt` and `aes_cbc_decrypt`
--             (Tls/Cbc), what `tls_write_record` and `tls_read_record` make of a record
--             (Tls/Record), `hmac_sha256` and `tls_prf` (Tls/Prf). `Aes` is the block cipher, with
--             `AesLaws`; SHA-1 is a function, with `Sha1Laws`.
--   Mtcp      the interface of the mTCP stack and of the UART and BIOS, which are not in the
--             repository: a record of operations on a world of unknown type; Mtcp/Outgoing the
--             part of it for connections that VMODEM opens. Its `send` may take a part of what is
--             offered, or fail. `SendLaws` states what is documented of it. Mtcp/Sink is an
--             example of such a world.
--   Prelude   tests, lists, bit operations and texts that the parts share.
-- A byte of the application comes by `transmit` through `at_input` and, if it is data, into the TX
-- ring, from where `fossil_flush_tx` sends it with 0xFF doubled. A byte of the caller goes through
-- `telnet_filter` into the RX ring, which also takes the interpreter's responses.
--
-- How state is modelled. A routine takes the state that it may change and returns it anew. The
-- source keeps an array for each per-port variable; a `Line` holds the entries of one port, and a
-- `Ctx` that line and what the ports share. `dtr_ignore` alone stays an array, since AT&D writes
-- it for all ports. NULL and -1 are `none`. The pending buffer is its first `g_tx_pend_len` bytes.
-- Numbers are natural numbers, with the wrap-around of their C type written out: ticks modulo 2^32,
-- ring counts, offsets and 16-bit `int` values modulo 2 ^ 16, `unsigned char` counters modulo
-- 2 ^ 8. The BIOS tick count is an argument, read once in a call.
--
-- Loops. The loop that empties the TX ring runs on the ring's count; the loop over a command line
-- on the length of the line; both are proved to need no more. The loop that reads a socket takes
-- as fuel how many buffers may be read, and the wait for data of AH=18h the list of the tick
-- counts it sees. The loops of the socket library that wait take as fuel how often they may go
-- round: `send` is proved to end within 2001 rounds for each byte, `connect` and `gethostbyname`
-- wait for a clock. The padding of SHA-256 has 64 rounds, proved to be enough. The other loops run
-- over lists.
--
-- Not modelled: the calls of the debug log in other parts, which change nothing else, and its
-- file; the counters that are only shown; the stack switch, the interrupt vectors and the
-- residency code; the pointer that MUX_INSTALL_CHK returns; the FOSSIL functions take the poll
-- cycle as an argument on one line and the shared state, not as the function of Cycle; of the TLS
-- client the handshake, the certificates, the loops that send and receive a record, the block
-- cipher, SHA-1 and the big numbers; the diagnostic programs; the `default` of the switch over the
-- IAC states, which is never reached; interrupts within a routine; failures of malloc; ICMP
-- messages among the packets that the service of one port takes in, since the reads of its socket
-- may also reach the ICMP handler.
pub mod Prelude
pub mod Mtcp
pub mod Ring
pub mod Telnet
pub mod Port
pub mod Tx
pub mod Net
pub mod At
pub mod Fossil
pub mod Poll
pub mod Sha256
pub mod Tls
pub mod Log
pub mod System
pub mod Cycle
pub mod Control
pub mod Mux
pub mod Vsocket
