-- ===== src/StackC/Moves/Trace.antt =====
-- A run of the compiler to the end of its source, as moves.
use mes_replacement.Prelude.{
  ℕ, zero, suc, ◌≡◌, refl, inl, inr, Bool, true, false, List, [], ◌∷◌, arith, ◌==◌, if◌then◌else◌,
  Bool-cases, subst,
}
use mes_replacement.StackC.Lexer.{get_token}
use mes_replacement.StackC.Lexer.Output.{get_token-Follows}
use mes_replacement.StackC.State.{Nest, Compiler, Outcome, next, again, exits, sym_of, next_token}
use mes_replacement.StackC.Program.{Kind, function_word, kind_of, step, Ended, finished, after, run}
use mes_replacement.StackC.Moves.{Moves, start, then_move, Moves-trans, lexes}
use mes_replacement.StackC.Moves.Ends.{Ends}
use mes_replacement.StackC.Moves.Refines.{step-Ends}

-- A `void` stands outside every block.
top_level : Kind → List Nest → Bool
top_level function_word [] = true
top_level function_word (n ∷ rest) = false
top_level _ nests = true

top_level-nil :
    (k : Kind) (nests : List Nest) → top_level k nests ≡ true → k ≡ function_word → nests ≡ []
unfolding top_level
top_level-nil function_word [] h e = refl
top_level-nil function_word (n ∷ rest) h e = cc
top_level-nil _ nests h e = cc

abbrev follow : (Compiler → Bool) → Outcome → Bool
follow rest (next c) = rest (next_token c)
follow rest (again c) = rest c
follow rest (exits status c) = true

-- The functions of the source begin at the top level, in every round of a run.
unfoldable pub functions_at_top : ℕ → Compiler → Bool
unfolding top_level
functions_at_top zero c = true
functions_at_top (suc fuel) c =
    let rest = follow (functions_at_top fuel) (step c) in
    if sym_of c == 0 then true else if top_level (kind_of (sym_of c)) c.nesting then rest else false

-- For a strict trace the functions must begin at the top level.
abbrev Fits : Bool → Bool → Type 0
Fits strict flat = strict ≡ true → flat ≡ true

after-Moves :
    (strict : Bool) (rest : Compiler → Ended) (flat : Compiler → Bool) (c : Compiler) (o : Outcome)
    {k : Compiler}
    → Ends strict c o
    → ((d : Compiler) → Fits strict (flat d) → rest d ≡ finished k → Moves strict d k)
    → Fits strict (follow flat o)
    → after rest o ≡ finished k
    → Moves strict c k
after-Moves strict rest flat c (next d) m more f e =
    Moves-trans (then_move m (lexes (get_token d.lex) (get_token-Follows d.lex)))
      (more (next_token d) f e)
after-Moves strict rest flat c (again d) m more f e = Moves-trans m (more d f e)
after-Moves strict rest flat c (exits status d) m more f e = cc

both_true : (a b : Bool) → (if a then b else false) ≡ true → (a ≡ true) × (b ≡ true)
both_true a b h = ground arith

-- A run that reaches the end of the source is a sequence of moves, of the strict machine if every
-- function begins at the top level.
pub run-Moves :
    (strict : Bool) (fuel : ℕ) (c : Compiler) {k : Compiler}
    → Fits strict (functions_at_top fuel c)
    → run fuel c ≡ finished k
    → Moves strict c k
unfolding run functions_at_top
run-Moves strict zero c f e = cc
run-Moves strict (suc fuel) c {k} f e = elim (Bool-cases (sym_of c == 0)) [
  | inl end ↦ let same : c ≡ k = ground arith in subst (Moves strict c) same start
  | inr live ↦
      let both : strict ≡ true
          → (top_level (kind_of (sym_of c)) c.nesting ≡ true)
            × (follow (functions_at_top fuel) (step c) ≡ true) =
        λ s. both_true _ _ (rw live at (f s)) in
      after-Moves strict (run fuel) (functions_at_top fuel) c (step c)
        (step-Ends strict c (λ s. top_level-nil (kind_of (sym_of c)) c.nesting (both s).0))
        (λ d g h. run-Moves strict fuel d g h) (λ s. (both s).1) (rw live at e)
]
