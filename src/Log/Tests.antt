-- ===== src/Log/Tests.antt =====
-- The debug log by hand.
use vmodem.Prelude.{ℕ, ◌≡◌, refl, List, [], ◌∷◌, replicate, codes, joined, drop}
use vmodem.Log.{Log, debuglog}
use vmodem.Log.Kept.{dbg_all, debuglog-last}

abbrev fresh : Log
fresh = record { bytes = replicate 2048 0; head = 2040; count = 9 }

abbrev messages : List (List ℕ)
messages = codes "[POLL]" ∷ codes "[RX+]" ∷ []

debuglog-last_example :
    (debuglog 4 (dbg_all messages (debuglog 100 fresh).1)).0 ≡ drop 7 (joined messages)
debuglog-last_example = debuglog-last 100 4 messages fresh refl
