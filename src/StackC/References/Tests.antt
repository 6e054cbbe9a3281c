-- ===== src/StackC/References/Tests.antt =====
-- The string pool and the scopes at concrete lists.
use mes_replacement.Prelude.{
  ℕ, ◌≡◌, ◌≢◌, refl, List, [], ◌∷◌, ◌++◌, some, codes, get_elem?, Bytes, Member, here, there,
}
use mes_replacement.StackC.Emit.{string_def}
use mes_replacement.StackC.Program.{
  Ended, finished, stopped, out_of_fuel, run, prepare, initial, compiling,
}
use mes_replacement.StackC.Program.Data.{data_section}
use mes_replacement.StackC.References.Strings.{run-strings_defined}
use mes_replacement.StackC.State.{Compiler, Ident, local, find_ident, nr_for_string}
use mes_replacement.StackC.References.Pool.{
  IsDistinct, nr_for_string-finds, nr_for_string-keeps, nr_for_string-IsDistinct,
}
use mes_replacement.StackC.References.Scopes.{find_ident-innermost}

abbrev pool : List Bytes
pool = codes "a" ∷ codes "b" ∷ []

nr_for_string-finds_example :
    get_elem? (nr_for_string (codes "b") pool).1 (nr_for_string (codes "b") pool).0
    ≡ some (codes "b")
nr_for_string-finds_example = nr_for_string-finds (codes "b") pool

nr_for_string-keeps_example : get_elem? (nr_for_string (codes "c") pool).1 1 ≡ some (codes "b")
nr_for_string-keeps_example = nr_for_string-keeps (codes "c") pool 1 (codes "b") refl

singleton-IsDistinct : IsDistinct (codes "a" ∷ [])
singleton-IsDistinct ℕ.zero ℕ.zero t h k = refl
singleton-IsDistinct ℕ.zero (ℕ.suc m) t h k = cc
singleton-IsDistinct (ℕ.suc n) m t h k = cc

nr_for_string-IsDistinct_example : IsDistinct (nr_for_string (codes "b") (codes "a" ∷ [])).1
nr_for_string-IsDistinct_example =
    nr_for_string-IsDistinct (codes "b") (codes "a" ∷ []) singleton-IsDistinct

abbrev variable : ℕ → Ident
variable p = record { type = local; name = codes "x"; pos = p; size = 1; value = 0 }

find_ident-innermost_example :
    (newer older : List Ident) × (variable 2 ∷ variable 1 ∷ [] ≡ newer ++ (variable 2 ∷ older))
    × ((variable 2).name ≡ codes "x")
    × ((j : Ident) → Member j newer → j.name ≢ codes "x")
unfolding find_ident
find_ident-innermost_example =
    find_ident-innermost (codes "x") (variable 2 ∷ variable 1 ∷ []) {i = variable 2} refl

abbrev last_state : Ended → Compiler
last_state (finished c) = c
last_state (stopped status c) = c
last_state out_of_fuel = initial []

abbrev two_strings : Bytes
two_strings = codes "\"a\" \"b\""

run-strings_defined_example :
    Member (string_def 1 (codes "b")) (data_section (last_state (run 9 (prepare [] two_strings))))
unfolding compiling
run-strings_defined_example = run-strings_defined [] two_strings 9 refl (codes "b") 1 (there here)
