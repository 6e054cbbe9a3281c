-- ===== src/StackC/Handlers/Jumps.antt =====
-- `break` and `continue` inside several blocks.
use mes_replacement.Prelude.{
  ◌≡◌, refl, ap, ◌∙◌, sym, subst, if◌then◌else◌, List, [], ◌∷◌, ◌++◌, some, Bool, true, false, not,
  ◌&&◌, arith, and-left, and-right,
}
use mes_replacement.StackC.Emit.{jump_loop, jump_switch_end}
use mes_replacement.StackC.State.{
  NestType, block, loop, switch, if_arm, else_arm, and_arm, or_arm, Nest, Compiler, next, emit,
}
use mes_replacement.StackC.Handlers.Blocks.{find_target, jump_out, handle_break, handle_continue}

-- A loop, or where the flag is set a loop or a switch.
abbrev pub takes_jump : Bool → NestType → Bool
takes_jump breaks loop = true
takes_jump breaks switch = breaks
takes_jump breaks _ = false

abbrev pub none_takes_jump : Bool → List Nest → Bool
none_takes_jump breaks [] = true
none_takes_jump breaks (n ∷ rest) = not (takes_jump breaks n.type) && none_takes_jump breaks rest

find_target-past :
    (breaks : Bool) (inner nests : List Nest)
    → none_takes_jump breaks inner ≡ true
    → find_target breaks (inner ++ nests) ≡ find_target breaks nests
unfolding find_target
find_target-past breaks [] nests h = refl
find_target-past breaks (n ∷ inner) nests h =
    past breaks n.type refl (and-left (not (takes_jump breaks n.type)) _ h)
      (find_target-past breaks inner nests (and-right (not (takes_jump breaks n.type)) _ h))
  where
    past :
        (b : Bool) (t : NestType)
        → n.type ≡ t
        → not (takes_jump b n.type) ≡ true
        → find_target b (inner ++ nests) ≡ find_target b nests
        → find_target b (n ∷ (inner ++ nests)) ≡ find_target b nests
    past b loop e free later = absurd (ground (arith, rw e at free))
    past true switch e free later = absurd (ground (arith, rw e at free))
    past false switch e free later = rw (find_target, e) later
    past b block e free later = rw (find_target, e) later
    past b if_arm e free later = rw (find_target, e) later
    past b else_arm e free later = rw (find_target, e) later
    past b and_arm e free later = rw (find_target, e) later
    past b or_arm e free later = rw (find_target, e) later

find_target-loop :
    (breaks : Bool) (n : Nest) (rest : List Nest)
    → n.type ≡ loop
    → find_target breaks (n ∷ rest) ≡ some n
unfolding find_target
find_target-loop breaks n rest e =
    subst
      (λ t.
        elim t [
          | loop ↦ some n
          | switch ↦ if breaks then some n else find_target breaks rest
          | _ ↦ find_target breaks rest
        ]
        ≡ some n)
      (sym e) refl

find_target-switch :
    (n : Nest) (rest : List Nest) → n.type ≡ switch → find_target true (n ∷ rest) ≡ some n
unfolding find_target
find_target-switch n rest e =
    subst
      (λ t.
        elim t [
          | loop ↦ some n
          | switch ↦ if true then some n else find_target true rest
          | _ ↦ find_target true rest
        ]
        ≡ some n)
      (sym e) refl

handle_break-at :
    (c : Compiler) (n : Nest)
    → find_target true c.nesting ≡ some n
    → handle_break c ≡ next (emit (jump_out n.type c.function_name n.id) c)
unfolding handle_break
handle_break-at c n h = rw (handle_break, h) refl

handle_continue-at :
    (c : Compiler) (n : Nest)
    → find_target false c.nesting ≡ some n
    → handle_continue c ≡ next (emit (jump_loop c.function_name n.id) c)
unfolding handle_continue
handle_continue-at c n h = rw (handle_continue, h) refl

none_takes_break :
    (nests : List Nest) → none_takes_jump true nests ≡ true → none_takes_jump false nests ≡ true
none_takes_break [] h = refl
none_takes_break (n ∷ nests) h =
    at_type n.type refl (and-left (not (takes_jump true n.type)) _ h)
      (none_takes_break nests (and-right (not (takes_jump true n.type)) _ h))
  where
    at_type :
        (t : NestType)
        → n.type ≡ t
        → not (takes_jump true n.type) ≡ true
        → none_takes_jump false nests ≡ true
        → none_takes_jump false (n ∷ nests) ≡ true
    at_type loop e free later = absurd (ground (arith, rw e at free))
    at_type switch e free later = absurd (ground (arith, rw e at free))
    at_type block e free later = rw e later
    at_type if_arm e free later = rw e later
    at_type else_arm e free later = rw e later
    at_type and_arm e free later = rw e later
    at_type or_arm e free later = rw e later

-- Inside a switch that stands inside a loop, with any other blocks around and between them, `break`
-- jumps to the end of the switch and `continue` to the start of the loop: no loop or switch is nearer
-- than the switch, and no loop is nearer than the loop. Nothing else changes.
pub handle_break-handle_continue :
    (c : Compiler) (inner between outer : List Nest) (n m : Nest)
    → c.nesting ≡ inner ++ n ∷ (between ++ m ∷ outer)
    → none_takes_jump true inner ≡ true
    → n.type ≡ switch
    → none_takes_jump false between ≡ true
    → m.type ≡ loop
    → (handle_break c ≡ next (emit (jump_switch_end c.function_name n.id) c))
      × (handle_continue c ≡ next (emit (jump_loop c.function_name m.id) c))
unfolding jump_out
handle_break-handle_continue c inner between outer n m nests near is_switch far is_loop =
    let rest = between ++ m ∷ outer in
    let out : find_target true c.nesting ≡ some n =
      ap (find_target true) nests
      ∙ find_target-past true inner (n ∷ rest) near
      ∙ find_target-switch n rest is_switch in
    let back : find_target false c.nesting ≡ some m =
      ap (find_target false) nests
      ∙ find_target-past false inner (n ∷ rest) (none_takes_break inner near)
      ∙ find_target-past false (n ∷ []) rest (rw is_switch refl)
      ∙ find_target-past false between (m ∷ outer) far
      ∙ find_target-loop false m outer is_loop in
    (handle_break-at c n out ∙ rw is_switch refl, handle_continue-at c m back)
