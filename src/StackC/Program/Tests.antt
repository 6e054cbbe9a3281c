-- ===== src/StackC/Program/Tests.antt =====
-- Runs of the compiler.
use mes_replacement.Prelude.{ℕ, ◌≡◌, ◌≢◌, refl, [], ◌∷◌, codes}
use mes_replacement.StackC.Emit.{
  function_start, loop_label, push_number, jump_loop_end, if_test, else_missing, loop_close,
  operator, data_header, data_end, push_string, string_def, jump_switch_end, jump_loop,
}
use mes_replacement.StackC.State.{
  zero_status, NestType, block, loop, switch, if_arm, Nest, Compiler, next, emit,
}
use mes_replacement.StackC.Handlers.Blocks.{handle_break, handle_continue}
use mes_replacement.StackC.Handlers.Jumps.{handle_break-handle_continue}
use mes_replacement.StackC.Program.{compile, compiling, prepare, result, no_result}
use mes_replacement.StackC.Program.Termination.{compile-ne-no_result}

run_loop :
    compile [] (codes "void f { do { 1 if { break } } \"hi\" ; }")
    ≡ result zero_status (
        function_start (codes "f")
        ∷ loop_label (codes "f") 1
        ∷ push_number 1
        ∷ if_test (codes "f") 2
        ∷ jump_loop_end (codes "f") 1
        ∷ else_missing (codes "f") 2
        ∷ loop_close (codes "f") 1
        ∷ push_string (codes "hi") 0
        ∷ operator b';'
        ∷ data_header
        ∷ string_def 0 (codes "hi")
        ∷ data_end
        ∷ [])
unfolding compiling
run_loop = refl

compile-ne-no_result_example : compile [] (codes "void f { \"open") ≢ no_result
compile-ne-no_result_example = compile-ne-no_result [] (codes "void f { \"open")

abbrev nest : NestType → ℕ → Nest
nest type id = record { type = type; id = id; nr_vars = 0; pos = 0 }

-- Inside an `if` of a switch of a loop.
abbrev inside : Compiler
inside = record (prepare [] (codes "")) {
  nesting = nest if_arm 3 ∷ nest switch 2 ∷ nest block 0 ∷ nest loop 1 ∷ nest block 0 ∷ [];
}

handle_break-handle_continue_example :
    (handle_break inside ≡ next (emit (jump_switch_end inside.function_name 2) inside))
    × (handle_continue inside ≡ next (emit (jump_loop inside.function_name 1) inside))
handle_break-handle_continue_example =
    handle_break-handle_continue inside (nest if_arm 3 ∷ []) (nest block 0 ∷ []) (nest block 0 ∷ [])
      (nest switch 2) (nest loop 1) refl refl refl refl refl
