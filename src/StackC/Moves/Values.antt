-- ===== src/StackC/Moves/Values.antt =====
-- The branches that name identifiers and labels, as moves.
use mes_replacement.Prelude.{
  [], ◌∷◌, Bool, Option, none, some, inl, inr, ◌==◌, Bool-cases, Option-cases,
}
use mes_replacement.StackC.Emit.{arrow}
use mes_replacement.StackC.State.{
  IdentType, constant, Ident, Compiler, next, sym_of, token_of, next_token, set_error, find_ident,
}
use mes_replacement.StackC.Handlers.Values.{
  handle_ident, handle_goto, handle_label, handle_arrow, arrow_to,
}
use mes_replacement.StackC.Moves.{writes, pushes, then_move, one, emits}
use mes_replacement.StackC.Moves.Ends.{Ends, Ends-trans, read_token, flag_error}

module _ (strict : Bool) where
  pub handle_ident-Ends : (c : Compiler) → Ends strict c (handle_ident c)
  unfolding handle_ident
  handle_ident-Ends c = elim (Option-cases (find_ident (token_of c) c.idents)) [
    | inl e ↦ rw (e, handle_ident) (flag_error strict c)
    | inr (i, e) ↦ rw (e, handle_ident) (one (pushes (token_of c) i e))
  ]

  arrow_to-Ends : (o : Option Ident) (c : Compiler) → Ends strict c (arrow_to o c)
  unfolding arrow_to
  arrow_to-Ends none c = flag_error strict c
  arrow_to-Ends (some i) c = at_type i.type
    where
      at_type :
          (t : IdentType)
          → Ends strict c
              (elim t [ constant ↦ next (emits (arrow i.value ∷ []) c) | _ ↦ next (set_error c) ])
      at_type constant = one (writes (arrow i.value) tt)
      at_type _ = flag_error strict c

  pub handle_arrow-Ends : (c : Compiler) → Ends strict c (handle_arrow c)
  unfolding handle_arrow
  handle_arrow-Ends c₀ =
      let c = next_token c₀ in
      elim (Bool-cases (sym_of c == b'A')) [
        | inl e ↦ rw e (
            Ends-trans strict (arrow_to (find_ident (token_of c) c.idents) c) (read_token strict c₀)
              (arrow_to-Ends _ c))
        | inr e ↦ rw e tt
      ]

  pub handle_goto-Ends : (c : Compiler) → Ends strict c (handle_goto c)
  unfolding handle_goto
  handle_goto-Ends c = elim (Bool-cases (sym_of (next_token c) == b'A')) [
    | inl e ↦ rw e (then_move (read_token strict c) (writes _ tt))
    | inr e ↦ rw e tt
  ]

  pub handle_label-Ends : (c : Compiler) → Ends strict c (handle_label c)
  unfolding handle_label
  handle_label-Ends c = elim (Bool-cases (sym_of (next_token c) == b'A')) [
    | inl e ↦ rw e (then_move (read_token strict c) (writes _ tt))
    | inr e ↦ rw e tt
  ]
