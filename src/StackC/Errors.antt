-- ===== src/StackC/Errors.antt =====
-- The error flag over a run of the compiler.
mod Tests
use mes_replacement.Prelude.{
  ℕ, zero, suc, ◌≡◌, refl, sym, ap, ◌∙◌, subst, List, [], ◌∷◌, ◌++◌, Bool, true, false, inl, inr,
  Option, none, some, arith, ◌==◌, if◌then◌else◌, Bytes,
}
use mes_replacement.StackC.Emit.{Emit, function_start, else_jump, else_label}
use mes_replacement.StackC.Lexer.{get_token}
use mes_replacement.StackC.Lexer.Output.{get_token-Follows}
use mes_replacement.StackC.State.{
  Compiler, Outcome, next, one_status, sym_of, token_of, next_token, set_error, find_ident,
}
use mes_replacement.StackC.Handlers.Values.{handle_ident}
use mes_replacement.StackC.Program.{
  kind_of, ident, handle, step, Ended, finished, after, run, Result, result, conclude,
}
use mes_replacement.StackC.Program.Data.{data_section}
use mes_replacement.StackC.Moves.{
  opening, closing, emits, leave, Move, lexes, renames, places, declares, declares_static, starts,
  opens_block, opens, closes, closes_for_else, jumps, writes, pushes, pushes_string, Moves, start,
  then_move,
}
use mes_replacement.StackC.Moves.Trace.{run-Moves}

abbrev Flagged : Compiler → Type 0
Flagged c = c.lex.error ≡ true

emits-Flagged : (es : List Emit) (c : Compiler) → Flagged c → Flagged (emits es c)
emits-Flagged [] c h = h
emits-Flagged (e ∷ es) c h = emits-Flagged es _ h

module _ {strict : Bool} where
  Move-Flagged : {c d : Compiler} → Move strict c d → Flagged c → Flagged d
  Move-Flagged (lexes l f) h = f.flagged h
  Move-Flagged {c} (opens type nb ne) h = emits-Flagged (opening type c.function_name c.id) c h
  Move-Flagged {c} (closes n rest e l f) h =
      emits-Flagged (closing n.type c.function_name n.id) (leave n rest (record c { lex = l }))
        (f.flagged h)
  Move-Flagged (closes_for_else n rest e t l f) h = f.flagged h
  Move-Flagged _ h = h

  Moves-Flagged : {c d : Compiler} → Moves strict c d → Flagged c → Flagged d
  Moves-Flagged start h = h
  Moves-Flagged (then_move ms s) h = Move-Flagged s (Moves-Flagged ms h)

conclude-Flagged :
    (c : Compiler)
    → Flagged c
    → conclude (finished c) ≡ result one_status (c.lex.out ++ data_section c)
unfolding conclude
conclude-Flagged c h = rw h refl

kind_of-ident : kind_of b'A' ≡ ident
unfolding kind_of
kind_of-ident = refl

handle_ident-undeclared :
    (c : Compiler) → find_ident (token_of c) c.idents ≡ none → handle_ident c ≡ next (set_error c)
unfolding handle_ident
handle_ident-undeclared c h = rw (handle_ident, h) refl

handle-ident : (c : Compiler) → handle ident c ≡ handle_ident c
unfolding handle
handle-ident c = refl

step-undeclared :
    (c : Compiler)
    → sym_of c ≡ b'A'
    → find_ident (token_of c) c.idents ≡ none
    → step c ≡ next (set_error c)
unfolding step
step-undeclared c e h =
    ap (λ s. handle (kind_of s) c) e
    ∙ ap (λ k. handle k c) kind_of-ident
    ∙ handle-ident c
    ∙ handle_ident-undeclared c h

-- When the symbol is a name that is not declared, the compiler may go on to the end of the source,
-- but then it returns status 1, whatever the rest of the source says.
pub run-undeclared :
    (fuel : ℕ) (c : Compiler) {d : Compiler}
    → sym_of c ≡ b'A'
    → find_ident (token_of c) c.idents ≡ none
    → run (suc fuel) c ≡ finished d
    → conclude (finished d) ≡ result one_status (d.lex.out ++ data_section d)
unfolding run
run-undeclared fuel c {d} e h r =
    let live : (sym_of c == 0) ≡ false = rw e refl in
    let rest : run fuel (next_token (set_error c)) ≡ finished d =
      ap (after (run fuel)) (sym (step-undeclared c e h)) ∙ (rw live at r) in
    let trace = run-Moves false fuel (next_token (set_error c)) (λ s. cc) rest in
    conclude-Flagged d (Moves-Flagged trace ((get_token-Follows (set_error c).lex).flagged refl))
