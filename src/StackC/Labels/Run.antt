-- ===== src/StackC/Labels/Run.antt =====
-- The labels of a whole compilation.
use mes_replacement.Prelude.{
  ◌≡◌, refl, [], ◌∷◌, true, inl, inr, subst, Bytes, Member, not_Member-nil,
}
use mes_replacement.StackC.Emit.{echo}
use mes_replacement.StackC.Lexer.{Lexer, read, write}
use mes_replacement.StackC.Lexer.Output.{
  Follows, Follows-refl, Follows-trans, quiet, get_token-Follows,
}
use mes_replacement.StackC.Lexer.Quoted.{set_char}
use mes_replacement.StackC.State.{Compiler, add_function}
use mes_replacement.StackC.Program.{finished, run, rounds, copy_intro, initial, prepare}
use mes_replacement.StackC.Moves.Trace.{functions_at_top, run-Moves}
use mes_replacement.StackC.Labels.{Label, uses, defines, all_labels, pending}
use mes_replacement.StackC.Labels.Linked.{IsLinked, Follows-Linked, no_nest, Moves-IsLinked}

copy_intro-Follows : (intro : Bytes) (l : Lexer) → Follows l (copy_intro intro l)
unfolding copy_intro
copy_intro-Follows [] l = Follows-refl l
copy_intro-Follows (b ∷ rest) l =
    Follows-trans (record { copied = b ∷ []; written = refl; flagged = λ e. e })
      (copy_intro-Follows rest (write (echo b) (set_char b l)))

-- Before the loop, nothing is written but the intro file and comments.
pub prepare-Follows :
    (intro source : Bytes) → Follows (initial source).lex (prepare intro source).lex
unfolding prepare add_function
prepare-Follows intro source =
    let l = (initial source).lex in
    Follows-trans (copy_intro-Follows intro l)
      (Follows-trans (quiet _ (read (copy_intro intro l)) refl (λ e. e)) (get_token-Follows _))

prepare-IsLinked : (intro source : Bytes) → IsLinked (prepare intro source)
prepare-IsLinked intro source =
    unfold prepare add_function in
    Follows-Linked (prepare-Follows intro source)
      (record { jumps_to = λ l m. absurd (not_Member-nil m); loops = λ n e t. absurd (no_nest e) })

-- If every function of the source begins outside all blocks, and the compiler reaches its end with
-- every block closed, then each label that the emitted code jumps to is a label that it defines.
pub run-labels_resolved :
    (intro source : Bytes) {c : Compiler}
    → functions_at_top (rounds (prepare intro source)) (prepare intro source) ≡ true
    → run (rounds (prepare intro source)) (prepare intro source) ≡ finished c
    → c.nesting ≡ []
    → (l : Label) → Member l (all_labels uses c.lex.out)
    → Member l (all_labels defines c.lex.out)
run-labels_resolved intro source {c} flat e closed l m =
    let trace =
      run-Moves true (rounds (prepare intro source)) (prepare intro source) (λ s. flat) e in
    elim ((Moves-IsLinked trace (prepare-IsLinked intro source)).jumps_to l m) [
      | inl d ↦ d
      | inr p ↦
          absurd (not_Member-nil (subst (λ ns. Member l (pending c.function_name ns)) closed p))
    ]
