-- ===== src/Cycle/Tests.antt =====
-- A poll cycle by hand.
use vmodem.Prelude.{true, ◌≡◌, [], ◌∷◌}
use vmodem.Mtcp.Sink.{sink}
use vmodem.System.Sample.{prompt, group, resident_system}
use vmodem.Cycle.{drain_closing, dispatch, do_mtcp_poll}
use vmodem.Cycle.Safe.{SysSafe}
use vmodem.Cycle.Sample.{
  resident-SysSafe, closing_some, noting, three_closing, closing_some-CloseLaws,
}
use vmodem.Cycle.Queue.{bag, drain_closing-select}
use vmodem.Cycle.Whole.{do_mtcp_poll-SysSafe}
use vmodem.Cycle.Hunt.{Dispatched, dispatch-Dispatched}

do_mtcp_poll-SysSafe_example : SysSafe (do_mtcp_poll sink prompt true 4 100 resident_system)
do_mtcp_poll-SysSafe_example =
    do_mtcp_poll-SysSafe sink prompt true 4 100 resident_system resident-SysSafe

dispatch-Dispatched_example :
    Dispatched sink group 8 resident_system (dispatch sink 100 group 8 resident_system)
dispatch-Dispatched_example = dispatch-Dispatched sink 100 group 8 resident_system

drain_closing-select_example :
    (bag (drain_closing closing_some noting 3 three_closing).closing ≡ bag (7 ∷ []))
    × ((drain_closing closing_some noting 3 three_closing).world.bytes ≡ 5 ∷ 6 ∷ [])
drain_closing-select_example =
    drain_closing-select closing_some noting closing_some-CloseLaws three_closing
