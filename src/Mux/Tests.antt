-- ===== src/Mux/Tests.antt =====
-- Calls of the multiplex interface by hand.
use vmodem.Prelude.{ℕ, ◌*◌, ◌+◌, ◌≡◌, ◌≢◌, refl, none, some, [], arith}
use vmodem.Mtcp.Sink.{sink}
use vmodem.Net.{sock_close_fast}
use vmodem.System.{ext_free}
use vmodem.System.Sample.{prompt, resident_system}
use vmodem.Cycle.Safe.{SysSafe}
use vmodem.Cycle.Sample.{resident-SysSafe}
use vmodem.Cycle.External.{service_slot}
use vmodem.Mux.{slot, sock_close, sock_status}
use vmodem.Mux.Closing.{HasSocket, close-service, close-status_lost}
use vmodem.Mux.Dispatch.{MuxRegs, int2f_handler}
use vmodem.Mux.Safe.{int2f_handler-SysSafe}

-- MUX_SOCK_CLOSE of the handle 1
abbrev close_request : MuxRegs
close_request = record { ax = 0xc3 * 256 + 0x15; cx = 1; dx = 0; si = 0; buffer = [] }

int2f_handler-SysSafe_example :
    SysSafe (int2f_handler sink prompt 4 100 close_request resident_system).1
int2f_handler-SysSafe_example =
    int2f_handler-SysSafe sink prompt 4 100 close_request resident_system resident-SysSafe

resident-HasSocket : HasSocket 1 9 resident_system
resident-HasSocket = record { in_range = omega arith; slots = refl; owned = refl }

close-service_example :
    let s' = service_slot sink prompt 1 (sock_close 1 resident_system) in
    (s'.shared ≡ sock_close_fast sink 9 resident_system.shared)
    × ((slot 1 s'.ext_sockets).sock ≡ none)
    × ((slot 1 s'.ext_sockets).state ≡ ext_free)
    × ((k : ℕ) → 1 ≢ k → slot k s'.ext_sockets ≡ slot k resident_system.ext_sockets)
close-service_example = close-service sink prompt 1 9 resident_system resident-HasSocket refl

close-status_lost_example :
    let s' =
      service_slot sink prompt 1 (sock_status sink prompt 1 (sock_close 1 resident_system)) in
    ((slot 1 s'.ext_sockets).sock ≡ some 9) × (s'.shared ≡ resident_system.shared)
close-status_lost_example =
    close-status_lost sink prompt 1 9 resident_system resident-HasSocket refl refl
