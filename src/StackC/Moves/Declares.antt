-- ===== src/StackC/Moves/Declares.antt =====
-- The branches that declare, as moves.
use mes_replacement.Prelude.{
  ℕ, ◌%◌, ◌≡◌, refl, [], ◌∷◌, Bool, true, Option, none, some, inl, inr, arith, ◌==◌, leb, length,
  Bool-cases, List,
}
use mes_replacement.StackC.State.{
  IdentType, global, static, Ident, Compiler, sym_of, token_of, next_token, find_ident,
  add_function, idents_full, Nest, max_nr_statics,
}
use mes_replacement.StackC.Handlers.Declare.{
  function_body, declare_function, handle_function, handle_const, declare_variable, variable_type,
  declared, handle_variable, word32,
}
use mes_replacement.StackC.Moves.{
  renames, places, declares, declares_static, starts, Moves, start, then_move, Moves-trans, one,
}
use mes_replacement.StackC.Moves.Ends.{Ends, Ends-trans, read_token}

module _ (strict : Bool) where
  function_body-Ends : (c : Compiler) → Ends strict c (function_body c)
  unfolding function_body
  function_body-Ends c = elim (Bool-cases (sym_of c == b';')) [
    | inl e ↦ rw e start
    | inr e ↦ rw e (elim (Bool-cases (sym_of c == b'{')) [
      | inl f ↦ rw f (then_move (one (places 1)) starts)
      | inr f ↦ rw f tt
    ])
  ]

  declare_function-Ends : (o : Option Ident) (c : Compiler) → Ends strict c (declare_function o c)
  unfolding declare_function add_function
  declare_function-Ends (some i) c =
      Ends-trans strict (function_body (next_token c)) (read_token strict c)
        (function_body-Ends (next_token c))
  declare_function-Ends none c = elim (Bool-cases (idents_full c)) [
    | inl e ↦ rw e tt
    | inr e ↦
        let k = add_function (token_of c) c in
        rw e (
          Ends-trans strict (function_body (next_token k))
            (Moves-trans (one (declares _ (λ f. cc) (λ f. cc))) (read_token strict k))
            (function_body-Ends (next_token k)))
  ]

  pub handle_function-Ends :
      (c : Compiler) → (strict ≡ true → c.nesting ≡ []) → Ends strict c (handle_function c)
  unfolding handle_function
  handle_function-Ends c flat = elim (Bool-cases (sym_of (next_token c) == b'A')) [
    | inl e ↦
        let k = record (next_token c) { function_name = token_of (next_token c) } in
        rw e (
          Ends-trans strict (declare_function (find_ident (token_of k) k.idents) k)
            (then_move (read_token strict c) (renames (token_of (next_token c)) flat))
            (declare_function-Ends _ k))
    | inr e ↦ rw e tt
  ]

  pub handle_const-Ends : (c : Compiler) → Ends strict c (handle_const c)
  unfolding handle_const
  handle_const-Ends c = elim (Bool-cases (sym_of (next_token c) == b'A')) [
    | inl e ↦ rw e (elim (Bool-cases (idents_full (next_token c))) [
      | inl f ↦ rw f tt
      | inr f ↦ rw f (elim (Bool-cases (sym_of (next_token (next_token c)) == b'0')) [
        | inl g ↦ rw g (
            then_move (Moves-trans (read_token strict c) (read_token strict (next_token c)))
              (declares _ (λ h. cc) (λ h. cc)))
        | inr g ↦ rw g tt
      ])
    ])
    | inr e ↦ rw e tt
  ]

  declared-Moves :
      (type : IdentType) (size : ℕ) (c : Compiler)
      → (type ≡ global → c.nesting ≡ [])
      → Moves strict c (declared type size c)
  declared-Moves static size c top = one (declares_static (token_of c) size)
  declared-Moves global size c top =
      then_move (one (declares _ (λ h. cc) (λ h. top refl))) (places _)
  declared-Moves _ size c top = then_move (one (declares _ (λ h. cc) (λ h. cc))) (places _)

  declare_variable-Ends :
      (type : IdentType) (size : ℕ) (c : Compiler)
      → (type ≡ global → c.nesting ≡ [])
      → Ends strict c (declare_variable type size c)
  unfolding declare_variable
  declare_variable-Ends type size c top = elim (Bool-cases (sym_of c == b'A')) [
    | inl e ↦ rw e (elim (Bool-cases (idents_full c)) [
      | inl f ↦ rw f tt
      | inr f ↦ rw f (elim (Bool-cases (leb max_nr_statics (length c.statics))) [
        | inl g ↦ rw g tt
        | inr g ↦ rw g (declared-Moves type size c top)
      ])
    ])
    | inr e ↦ rw e tt
  ]

no_nesting : (nests : List Nest) → (length nests == 0) ≡ true → nests ≡ []
no_nesting [] h = refl
no_nesting (n ∷ rest) h = absurd (ground arith)

global_at_top : (c : Compiler) → variable_type c ≡ global → c.nesting ≡ []
unfolding variable_type
global_at_top c e = no_nesting c.nesting (ground arith)

module _ (strict : Bool) where
  pub handle_variable-Ends : (c : Compiler) → Ends strict c (handle_variable c)
  unfolding handle_variable
  handle_variable-Ends c₀ =
      let type = variable_type c₀ in
      let c = next_token c₀ in
      elim (Bool-cases (sym_of c == b'0')) [
        | inl e ↦
            let size = c.lex.int_value % word32 in
            rw e (
              Ends-trans strict (declare_variable type size (next_token c))
                (Moves-trans (read_token strict c₀) (read_token strict c))
                (declare_variable-Ends strict type size (next_token c) (global_at_top c₀)))
        | inr e ↦ rw e (
            Ends-trans strict (declare_variable type 1 c) (read_token strict c₀)
              (declare_variable-Ends strict type 1 c (global_at_top c₀)))
      ]
