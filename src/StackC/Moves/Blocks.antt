-- ===== src/StackC/Moves/Blocks.antt =====
-- The branches that open and close blocks, and the jumps out of them, as moves.
use mes_replacement.Prelude.{
  ◌≡◌, refl, ◌≢◌, [], ◌∷◌, Bool, true, false, Option, none, some, inl, inr, ◌⊎◌, arith, ◌==◌, leb,
  length, if◌then◌else◌, Bool-cases, List, subst,
}
use mes_replacement.StackC.Emit.{jump_loop, else_missing}
use mes_replacement.StackC.Lexer.{Lexer}
use mes_replacement.StackC.Lexer.Output.{Follows, get_token-Follows, Follows-refl, Follows-trans}
use mes_replacement.StackC.State.{
  Compiler, next, exits, one_status, sym_of, next_token, NestType, block, loop, switch, if_arm,
  else_arm, and_arm, or_arm, Nest, nesting_full, max_nesting,
}
use mes_replacement.StackC.Handlers.Blocks.{
  handle_loop, handle_switch, handle_break, handle_continue, handle_if, handle_and, handle_or,
  close_if, close_nest, close_block, find_target, jump_out, open_numbered,
}
use mes_replacement.StackC.Moves.{
  Move, opens, closes, closes_for_else, jumps, Moves, one, leave, closing, to_loop_end,
  to_switch_end, to_loop, Encloses, innermost, further, opening, emits,
}
use mes_replacement.StackC.Moves.Ends.{Ends, Ends-trans, read_token}

module _ (strict : Bool) where
  open_numbered-Ends :
      (type : NestType) (c : Compiler)
      → type ≢ block
      → type ≢ else_arm
      → Ends strict c (open_numbered type (emits (opening type c.function_name c.id) c))
  open_numbered-Ends type c nb ne =
      elim (Bool-cases (nesting_full (emits (opening type c.function_name c.id) c))) [
        | inl e ↦ rw e tt
        | inr e ↦ rw e (one (opens type nb ne))
      ]

  pub handle_loop-Ends : (c : Compiler) → Ends strict c (handle_loop c)
  unfolding handle_loop
  handle_loop-Ends c₀ =
      let c = next_token c₀ in
      elim (Bool-cases (sym_of c == b'{')) [
        | inl e ↦ rw e (
            Ends-trans strict _ (read_token strict c₀)
              (open_numbered-Ends loop c (λ f. cc) (λ f. cc)))
        | inr e ↦ rw e tt
      ]

  pub handle_switch-Ends : (c : Compiler) → Ends strict c (handle_switch c)
  unfolding handle_switch
  handle_switch-Ends c₀ =
      let c = next_token c₀ in
      elim (Bool-cases (sym_of c == b'{')) [
        | inl e ↦ rw e (
            Ends-trans strict _ (read_token strict c₀)
              (open_numbered-Ends switch c (λ f. cc) (λ f. cc)))
        | inr e ↦ rw e tt
      ]

  pub handle_if-Ends : (c : Compiler) → Ends strict c (handle_if c)
  unfolding handle_if
  handle_if-Ends c₀ =
      let c = next_token c₀ in
      elim (Bool-cases (sym_of c == b'{')) [
        | inl e ↦ rw e (
            Ends-trans strict _ (read_token strict c₀)
              (open_numbered-Ends if_arm c (λ f. cc) (λ f. cc)))
        | inr e ↦ rw e tt
      ]

  pub handle_and-Ends : (c : Compiler) → Ends strict c (handle_and c)
  unfolding handle_and
  handle_and-Ends c₀ =
      let c = next_token c₀ in
      elim (Bool-cases (sym_of c == b'{')) [
        | inl e ↦ rw e (
            Ends-trans strict _ (read_token strict c₀)
              (open_numbered-Ends and_arm c (λ f. cc) (λ f. cc)))
        | inr e ↦ rw e tt
      ]

  pub handle_or-Ends : (c : Compiler) → Ends strict c (handle_or c)
  unfolding handle_or
  handle_or-Ends c₀ =
      let c = next_token c₀ in
      elim (Bool-cases (sym_of c == b'{')) [
        | inl e ↦ rw e (
            Ends-trans strict _ (read_token strict c₀)
              (open_numbered-Ends or_arm c (λ f. cc) (λ f. cc)))
        | inr e ↦ rw e tt
      ]

-- The entry that `break` or `continue` finds is a loop, or for `break` a switch.
abbrev Target : Bool → List Nest → Option Nest → Type 0
Target breaks nests none = Unit
Target breaks nests (some n) =
    Encloses n nests × ((n.type ≡ loop) ⊎ ((n.type ≡ switch) × (breaks ≡ true)))

Target-further :
    (breaks : Bool) (m : Nest) (rest : List Nest) (o : Option Nest)
    → Target breaks rest o
    → Target breaks (m ∷ rest) o
Target-further breaks m rest none t = tt
Target-further breaks m rest (some n) (e, k) = (further e, k)

Target-if :
    (breaks : Bool) (nests : List Nest) (x y : Option Nest) (b : Bool)
    → (b ≡ true → Target breaks nests x)
    → Target breaks nests y
    → Target breaks nests (if b then x else y)
Target-if breaks nests x y true f t = f refl
Target-if breaks nests x y false f t = t

find_target-Target :
    (breaks : Bool) (nests : List Nest) → Target breaks nests (find_target breaks nests)
unfolding find_target
find_target-Target breaks [] = tt
find_target-Target breaks (n ∷ rest) =
    at_head n.type refl (Target-further breaks n rest _ (find_target-Target breaks rest))
  where
    at_head :
        (t : NestType)
        → n.type ≡ t
        → Target breaks (n ∷ rest) (find_target breaks rest)
        → Target breaks (n ∷ rest) (elim t [
          | loop ↦ some n
          | switch ↦ if breaks then some n else find_target breaks rest
          | _ ↦ find_target breaks rest
        ])
    at_head loop e later = (innermost, inl e)
    at_head switch e later =
        Target-if breaks (n ∷ rest) (some n) (find_target breaks rest) breaks
          (λ b. (innermost, inr (e, b))) later
    at_head _ e later = later

module _ (strict : Bool) where
  pub handle_break-Ends : (c : Compiler) → Ends strict c (handle_break c)
  unfolding handle_break jump_out
  handle_break-Ends c = found (find_target true c.nesting) (find_target-Target true c.nesting)
    where
      at_target :
          (n : Nest) (t : NestType)
          → n.type ≡ t
          → Encloses n c.nesting
          → (n.type ≡ loop) ⊎ ((n.type ≡ switch) × (true ≡ true))
          → Moves strict c (emits (jump_out t c.function_name n.id ∷ []) c)
      at_target n loop e enc k = one (jumps n _ enc (to_loop_end e))
      at_target n switch e enc k = one (jumps n _ enc (to_switch_end e))
      at_target n _ e enc k = absurd (ground arith)

      found :
          (o : Option Nest)
          → Target true c.nesting o
          → Ends strict c (elim o [
            | none ↦ exits one_status c
            | some n ↦ next (emits (jump_out n.type c.function_name n.id ∷ []) c)
          ])
      found none t = tt
      found (some n) (enc, k) = at_target n n.type refl enc k

  pub handle_continue-Ends : (c : Compiler) → Ends strict c (handle_continue c)
  unfolding handle_continue
  handle_continue-Ends c = found (find_target false c.nesting) (find_target-Target false c.nesting)
    where
      found :
          (o : Option Nest)
          → Target false c.nesting o
          → Ends strict c (elim o [
            | none ↦ exits one_status c
            | some n ↦ next (emits (jump_loop c.function_name n.id ∷ []) c)
          ])
      found none t = tt
      found (some n) (enc, k) = one (jumps n _ enc (to_loop (ground arith)))

  close_if-Ends :
      (n : Nest) (rest : List Nest) (c : Compiler)
      → c.nesting ≡ n ∷ rest
      → n.type ≡ if_arm
      → Ends strict c (close_if n.id (leave n rest c))
  unfolding close_if
  close_if-Ends n rest c₀ e t =
      let c = next_token (leave n rest c₀) in
      elim (Bool-cases (sym_of c == b'E')) [
        | inl f ↦ rw f (elim (Bool-cases (sym_of (next_token c) == b'{')) [
          | inl g ↦ rw g (elim (Bool-cases (leb max_nesting (length rest))) [
            | inl h ↦ rw h tt
            | inr h ↦ rw h (
                one (
                  closes_for_else n rest e t (next_token c).lex
                    (Follows-trans (get_token-Follows c₀.lex) (get_token-Follows c.lex))))
          ])
          | inr g ↦ rw g tt
        ])
        | inr f ↦ rw f (one (missing c.lex (get_token-Follows c₀.lex)))
      ]
    where
      missing :
          (l : Lexer)
          → Follows c₀.lex l
          → Move strict c₀ (
              emits
                (else_missing c₀.function_name n.id ∷ [])
                (leave n rest (record c₀ { lex = l })))
      missing l f =
          subst
            (λ t.
              Move strict c₀
                (emits (closing t c₀.function_name n.id) (leave n rest (record c₀ { lex = l }))))
            t (closes n rest e l f)

  pub close_block-Ends : (c : Compiler) → Ends strict c (close_block c.nesting c)
  unfolding close_block close_nest
  close_block-Ends c = at_nests c.nesting refl
    where
      closed :
          (n : Nest) (rest : List Nest) (t : NestType)
          → c.nesting ≡ n ∷ rest
          → n.type ≡ t
          → Ends strict c (close_nest t n.id (leave n rest c))
      closed n rest if_arm e t = close_if-Ends n rest c e t
      closed n rest _ e t = one (
          subst (λ t. Move strict c (emits (closing t c.function_name n.id) (leave n rest c))) t
            (closes n rest e c.lex (Follows-refl c.lex)))

      at_nests : (nests : List Nest) → c.nesting ≡ nests → Ends strict c (close_block nests c)
      at_nests [] e = tt
      at_nests (n ∷ rest) e = closed n rest n.type e refl
