-- ===== src/StackC/Labels/Tests.antt =====
-- The labels of a small function.
use mes_replacement.Prelude.{refl, [], codes, Bytes, Member, here, there}
use mes_replacement.StackC.State.{Compiler}
use mes_replacement.StackC.Program.{
  Ended, finished, stopped, out_of_fuel, run, rounds, prepare, initial, compiling,
}
use mes_replacement.StackC.Moves.Trace.{functions_at_top}
use mes_replacement.StackC.Labels.{label_at, loop_end, defines, all_labels}
use mes_replacement.StackC.Labels.Run.{run-labels_resolved}

abbrev source : Bytes
source = codes "void f { do { 1 if { break } else { continue } } }"

abbrev last_state : Ended → Compiler
last_state (finished c) = c
last_state (stopped status c) = c
last_state out_of_fuel = initial []

run-labels_resolved_example :
    Member (label_at loop_end (codes "f") 1) (
      all_labels defines
        (last_state (run (rounds (prepare [] source)) (prepare [] source))).lex.out)
unfolding compiling functions_at_top
run-labels_resolved_example =
    run-labels_resolved [] source refl refl refl (label_at loop_end (codes "f") 1) (there here)
