-- ===== src/StackC/Errors/Tests.antt =====
-- An undeclared name.
use mes_replacement.Prelude.{◌≡◌, refl, [], ◌++◌, codes, Bytes}
use mes_replacement.StackC.State.{Compiler, one_status}
use mes_replacement.StackC.Program.{
  Ended, finished, stopped, out_of_fuel, run, prepare, initial, compiling, result, conclude,
}
use mes_replacement.StackC.Program.Data.{data_section}
use mes_replacement.StackC.Errors.{run-undeclared}

abbrev last_state : Ended → Compiler
last_state (finished c) = c
last_state (stopped status c) = c
last_state out_of_fuel = initial []

abbrev source : Bytes
source = codes "x 1 ="

abbrev last : Compiler
last = last_state (run 9 (prepare [] source))

run-undeclared_example :
    conclude (finished last) ≡ result one_status (last.lex.out ++ data_section last)
unfolding compiling
run-undeclared_example = run-undeclared 8 (prepare [] source) refl refl refl
