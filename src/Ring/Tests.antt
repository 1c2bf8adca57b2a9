-- ===== src/Ring/Tests.antt =====
-- A small ring, run by hand.
use vmodem.Prelude.{◌≡◌, refl, arith, true, false, none, some, List, [], ◌∷◌}
use vmodem.Ring.{reset, put, get, zeroed}
use vmodem.Ring.Inv.{zeroed-IsValid}
use vmodem.Ring.Refine.{Op, put_byte, get_byte, init, run, run_queue, contents, run_refines}

abbrev calls : List Op
calls =
    put_byte 1
    ∷ put_byte 2
    ∷ put_byte 3
    ∷ get_byte
    ∷ put_byte 4
    ∷ get_byte
    ∷ get_byte
    ∷ init
    ∷ get_byte
    ∷ []

-- A ring of two slots refuses the third byte, wraps round, and is empty after a reset.
two_slots :
    run 1 (zeroed 1) calls
    ≡ (true, none)
      ∷ (true, none)
      ∷ (false, none)
      ∷ (true, some 1)
      ∷ (true, none)
      ∷ (true, some 2)
      ∷ (true, some 4)
      ∷ (true, none)
      ∷ (true, none)
      ∷ []
unfolding run put get reset
two_slots = refl

run_refines_example : run 1 (zeroed 1) calls ≡ run_queue 2 (contents 1 (zeroed 1)) calls
run_refines_example = run_refines 1 calls (zeroed-IsValid 1 (omega arith) (omega arith))
