-- ===== src/StackC/Moves/Ends.antt =====
-- Where a branch of the compiler leaves the block machine.
use mes_replacement.Prelude.{refl, Bool}
use mes_replacement.StackC.Lexer.{get_token}
use mes_replacement.StackC.Lexer.Output.{get_token-Follows, quiet}
use mes_replacement.StackC.State.{Compiler, Outcome, next, again, exits, next_token, set_error}
use mes_replacement.StackC.Moves.{lexes, Moves, Moves-trans, one}

-- The branch goes on in a state that moves lead to, or returns from `main`.
abbrev pub Ends : Bool → Compiler → Outcome → Type 0
Ends strict c (next k) = Moves strict c k
Ends strict c (again k) = Moves strict c k
Ends strict c (exits status k) = Unit

module _ (strict : Bool) where
  pub Ends-trans :
      {c k : Compiler} (o : Outcome) → Moves strict c k → Ends strict k o → Ends strict c o
  Ends-trans (next j) m e = Moves-trans m e
  Ends-trans (again j) m e = Moves-trans m e
  Ends-trans (exits status j) m e = tt

  pub read_token : (c : Compiler) → Moves strict c (next_token c)
  read_token c = one (lexes (get_token c.lex) (get_token-Follows c.lex))

  pub flag_error : (c : Compiler) → Moves strict c (set_error c)
  flag_error c = one (lexes _ (quiet c.lex _ refl (λ e. refl)))
