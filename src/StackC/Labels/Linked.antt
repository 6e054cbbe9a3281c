-- ===== src/StackC/Labels/Linked.antt =====
-- Every move keeps the jumps linked to labels.
use mes_replacement.Prelude.{
  ℕ, ◌≡◌, refl, ap, sym, ◌∙◌, subst, ◌⊎◌, inl, inr, List, [], ◌∷◌, ◌++◌, true, append-nil,
  append_assoc, arith, length, Bytes, Member, here, there, Member-append_left, Member-append_right,
  Member-append, not_Member-nil,
}
use mes_replacement.StackC.Emit.{Emit, function_start, push_string, else_jump, else_label}
use mes_replacement.StackC.Lexer.{Lexer}
use mes_replacement.StackC.Lexer.Output.{Follows, echoes}
use mes_replacement.StackC.State.{
  IdentType, NestType, loop, switch, if_arm, else_arm, and_arm, or_arm, block, Nest, Compiler,
  Ident, oldest,
}
use mes_replacement.StackC.Handlers.Values.{push_ident}
use mes_replacement.StackC.Moves.{
  IsPlain, opening, closing, emits, JumpTo, to_loop_end, to_switch_end, to_loop, Encloses,
  innermost, further, leave, open_numbered_at, Move, lexes, renames, places, declares,
  declares_static, starts, opens_block, opens, closes, closes_for_else, jumps, writes, pushes,
  pushes_string, Moves, start, then_move,
}
use mes_replacement.StackC.Labels.{
  Label, label_at, loop_start, else_start, else_end, uses, defines, all_labels, end_label, pending,
  all_labels-append,
}

-- A label that is jumped to is defined already, or will be where an open block closes; and the start
-- of every open loop is defined.
pub record Linked (out : List Emit) (f : Bytes) (nests : List Nest) : Type 0 where
  pub jumps_to :
      (l : Label)
      → Member l (all_labels uses out)
      → Member l (all_labels defines out) ⊎ Member l (pending f nests)
  pub loops :
      (n : Nest)
      → Encloses n nests
      → n.type ≡ loop
      → Member (label_at loop_start f n.id) (all_labels defines out)

-- New pieces `es` that use only labels known before or after them.
Linked-grows :
    {out : List Emit} {f : Bytes} {nests nests' : List Nest} (es : List Emit)
    → Linked out f nests
    → ((l : Label)
        → Member l (all_labels uses es)
        → Member l (all_labels defines (out ++ es)) ⊎ Member l (pending f nests'))
    → ((l : Label)
        → Member l (pending f nests)
        → Member l (all_labels defines (out ++ es)) ⊎ Member l (pending f nests'))
    → ((n : Nest)
        → Encloses n nests'
        → n.type ≡ loop
        → Encloses n nests ⊎ Member (label_at loop_start f n.id) (all_labels defines (out ++ es)))
    → Linked (out ++ es) f nests'
Linked-grows {out} {f} es k new old enclosed = record {
  jumps_to = λ l m.
      elim (Member-append (all_labels uses out) (all_labels uses es)
        (subst (Member l) (all_labels-append uses out es) m)) [
          | inl before ↦ elim (k.jumps_to l before) [ inl d ↦ inl (earlier l d) | inr p ↦ old l p ]
          | inr after ↦ new l after
        ];
  loops = λ n e t. elim (enclosed n e t) [ inl outer ↦ earlier _ (k.loops n outer t) | inr d ↦ d ];
}
  where
    earlier :
        (l : Label) → Member l (all_labels defines out) → Member l (all_labels defines (out ++ es))
    earlier l d =
        subst (Member l) (sym (all_labels-append defines out es))
          (Member-append_left (all_labels defines es) d)

-- A label that the new pieces define.
defined_now :
    (out es : List Emit) (l : Label)
    → Member l (all_labels defines es)
    → Member l (all_labels defines (out ++ es))
defined_now out es l d =
    subst (Member l) (sym (all_labels-append defines out es))
      (Member-append_right (all_labels defines out) d)

-- Pieces with no label leave everything linked.
Linked-silent :
    {out : List Emit} {f : Bytes} {nests : List Nest} (es : List Emit)
    → Linked out f nests
    → all_labels uses es ≡ []
    → Linked (out ++ es) f nests
Linked-silent es k u =
    Linked-grows es k (λ l m. absurd (not_Member-nil (subst (Member l) u m))) (λ l m. inr m)
      (λ n e t. inl e)

Linked-open :
    {out : List Emit} {f : Bytes} {nests : List Nest} (es : List Emit) (n : Nest)
    → Linked out f nests
    → ((l : Label) → Member l (all_labels uses es) → Member l (end_label n.type f n.id))
    → (n.type ≡ loop → Member (label_at loop_start f n.id) (all_labels defines es))
    → Linked (out ++ es) f (n ∷ nests)
Linked-open {out} {f} {nests} es n k ends starts_loop =
    Linked-grows es k (λ l m. inr (Member-append_left (pending f nests) (ends l m)))
      (λ l m. inr (Member-append_right (end_label n.type f n.id) m)) outer
  where
    outer :
        (m : Nest)
        → Encloses m (n ∷ nests)
        → m.type ≡ loop
        → Encloses m nests ⊎ Member (label_at loop_start f m.id) (all_labels defines (out ++ es))
    outer m innermost t = inr (defined_now out es _ (starts_loop t))
    outer m (further e) t = inl e

Linked-close :
    {out : List Emit} {f : Bytes} (es : List Emit) (n : Nest) (rest : List Nest)
    → Linked out f (n ∷ rest)
    → ((l : Label)
        → Member l (all_labels uses es)
        → (n.type ≡ loop) × (l ≡ label_at loop_start f n.id))
    → ((l : Label) → Member l (end_label n.type f n.id) → Member l (all_labels defines es))
    → Linked (out ++ es) f rest
Linked-close {out} {f} es n rest k back ends =
    Linked-grows es k
      (λ l m.
        let (t, e) = back l m in
        inl (subst (λ l. Member l (all_labels defines (out ++ es))) (sym e) (loop_known t)))
      (λ l m. elim (Member-append (end_label n.type f n.id) (pending f rest) m) [
        | inl own ↦ inl (defined_now out es l (ends l own))
        | inr outer ↦ inr outer
      ])
      (λ m e t. inl (further e))
  where
    loop_known :
        n.type ≡ loop → Member (label_at loop_start f n.id) (all_labels defines (out ++ es))
    loop_known t =
        subst (Member _) (sym (all_labels-append defines out es))
          (Member-append_left (all_labels defines es) (k.loops n innermost t))

closing-uses :
    (t : NestType) (f : Bytes) (id : ℕ) (l : Label)
    → Member l (all_labels uses (closing t f id))
    → (t ≡ loop) × (l ≡ label_at loop_start f id)
closing-uses loop f id l here = (refl, refl)
closing-uses loop f id l (there m) = absurd (not_Member-nil m)
closing-uses block f id l m = absurd (not_Member-nil m)
closing-uses switch f id l m = absurd (not_Member-nil m)
closing-uses if_arm f id l m = absurd (not_Member-nil m)
closing-uses else_arm f id l m = absurd (not_Member-nil m)
closing-uses and_arm f id l m = absurd (not_Member-nil m)
closing-uses or_arm f id l m = absurd (not_Member-nil m)

closing-defines :
    (t : NestType) (f : Bytes) (id : ℕ) (l : Label)
    → Member l (end_label t f id)
    → Member l (all_labels defines (closing t f id))
closing-defines block f id l m = m
closing-defines _ f id l m = m

opening-uses :
    (t : NestType) (f : Bytes) (id : ℕ) (l : Label)
    → Member l (all_labels uses (opening t f id))
    → Member l (end_label t f id)
opening-uses if_arm f id l m = m
opening-uses and_arm f id l m = m
opening-uses or_arm f id l m = m
opening-uses _ f id l m = absurd (not_Member-nil m)

opening-defines :
    (t : NestType) (f : Bytes) (id : ℕ)
    → t ≡ loop
    → Member (label_at loop_start f id) (all_labels defines (opening t f id))
opening-defines loop f id e = here
opening-defines block f id e = cc
opening-defines _ f id e = cc

pub emits_lem :
    (es : List Emit) (c : Compiler)
    → emits es c ≡ record c { lex = record (c.lex) { out = c.lex.out ++ es } }
emits_lem [] c =
    ap (λ o. record c { lex = record (c.lex) { out = o } }) (sym (append-nil c.lex.out))
emits_lem (e ∷ es) c =
    emits_lem es _
    ∙ ap (λ o. record c { lex = record (c.lex) { out = o } }) (append_assoc c.lex.out (e ∷ []) es)

echoes-uses : (cs : Bytes) → all_labels uses (echoes cs) ≡ []
echoes-uses [] = refl
echoes-uses (c ∷ cs) = echoes-uses cs

-- The invariant of a state.
abbrev pub IsLinked : Compiler → Type 0
IsLinked c = Linked c.lex.out c.function_name c.nesting

pub Follows-Linked :
    {f : Bytes} {nests : List Nest} {l k : Lexer}
    → Follows l k
    → Linked l.out f nests
    → Linked k.out f nests
Follows-Linked {f} {nests} fo h =
    subst (λ o. Linked o f nests) (sym fo.written)
      (Linked-silent (echoes fo.copied) h (echoes-uses fo.copied))

-- A jump out of an enclosing block goes to a label that is pending or defined.
pending_of :
    (f : Bytes) (n : Nest) {nests : List Nest} {l : Label}
    → Encloses n nests
    → Member l (end_label n.type f n.id)
    → Member l (pending f nests)
pending_of f n innermost m = Member-append_left _ m
pending_of f n (further {m = o} e) m =
    Member-append_right (end_label o.type f o.id) (pending_of f n e m)

jump-Linked :
    {out : List Emit} {f : Bytes} {nests : List Nest} (n : Nest) (e : Emit)
    → Encloses n nests
    → JumpTo f n e
    → Linked out f nests
    → Linked (out ++ e ∷ []) f nests
jump-Linked {out} {f} {nests} n e enc j k =
    Linked-grows (e ∷ []) k (target j) (λ l m. inr m) (λ m e t. inl e)
  where
    target :
        {e : Emit}
        → JumpTo f n e
        → (l : Label) → Member l (all_labels uses (e ∷ []))
        → Member l (all_labels defines (out ++ e ∷ [])) ⊎ Member l (pending f nests)
    target (to_loop_end t) l here = inr (pending_of f n enc (rw t here))
    target (to_loop_end t) l (there m) = absurd (not_Member-nil m)
    target (to_switch_end t) l here = inr (pending_of f n enc (rw t here))
    target (to_switch_end t) l (there m) = absurd (not_Member-nil m)
    target (to_loop t) l here = inl (
        subst (Member _) (sym (all_labels-append defines out _))
          (Member-append_left _ (k.loops n enc t)))
    target (to_loop t) l (there m) = absurd (not_Member-nil m)

plain-uses : (e : Emit) → IsPlain e → all_labels uses (e ∷ []) ≡ []
plain-uses (Emit.operator s) p = refl
plain-uses (Emit.push_number s) p = refl
plain-uses (Emit.push_char s) p = refl
plain-uses (Emit.call s) p = refl
plain-uses (Emit.arrow s) p = refl
plain-uses (Emit.goto_label f s) p = refl
plain-uses (Emit.define_label f s) p = refl
plain-uses _ p = absurd p

push_ident-uses :
    (t : IdentType) (i : Ident) (name : Bytes) → all_labels uses (push_ident t i name ∷ []) ≡ []
unfolding push_ident
push_ident-uses IdentType.global i name = refl
push_ident-uses _ i name = refl

pub no_nest : {n : Nest} → ¬ (Encloses n [])
no_nest e = none_in e
  where
    none_in : {n : Nest} → Encloses n [] → ⊥
    none_in e = elim e [ ]

-- With no block open, the name of the function does not matter.
Linked-renamed :
    {out : List Emit} {f : Bytes} {nests : List Nest} (g : Bytes)
    → nests ≡ []
    → Linked out f nests
    → Linked out g nests
Linked-renamed {out} {f} {nests} g e k = record {
  jumps_to = λ l m. elim (k.jumps_to l m) [
    | inl d ↦ inl d
    | inr p ↦ absurd (not_Member-nil (subst (λ ns. Member l (pending f ns)) e p))
  ];
  loops = λ n enc t. absurd (no_nest (subst (Encloses n) e enc));
}

-- The state behind some pieces, in terms of the state before them.
IsLinked-emits :
    (es : List Emit) (c : Compiler)
    → Linked (c.lex.out ++ es) c.function_name c.nesting
    → IsLinked (emits es c)
IsLinked-emits es c k = subst IsLinked (sym (emits_lem es c)) k

module _ (c : Compiler) (k : IsLinked c) where
  opens-IsLinked :
      (type : NestType)
      → IsLinked (open_numbered_at type (emits (opening type c.function_name c.id) c))
  opens-IsLinked type =
      subst (λ s. IsLinked (open_numbered_at type s))
        (sym (emits_lem (opening type c.function_name c.id) c))
        (Linked-open (opening type c.function_name c.id) _ k
          (opening-uses type c.function_name c.id) (opening-defines type c.function_name c.id))

  closes-IsLinked :
      (n : Nest) (rest : List Nest)
      → c.nesting ≡ n ∷ rest
      → (l : Lexer) → Follows c.lex l
      → IsLinked (emits (closing n.type c.function_name n.id) (leave n rest (record c { lex = l })))
  closes-IsLinked n rest e l fo = IsLinked-emits (closing n.type c.function_name n.id) _ (
      Linked-close (closing n.type c.function_name n.id) n rest
        (subst (Linked l.out c.function_name) e (Follows-Linked fo k))
        (closing-uses n.type c.function_name n.id) (closing-defines n.type c.function_name n.id))

-- The block of an `if` makes way for that of its `else`.
Linked-else :
    {out : List Emit} {f : Bytes} (n m : Nest) (rest : List Nest)
    → Linked out f (n ∷ rest)
    → n.type ≡ if_arm
    → m.type ≡ else_arm
    → m.id ≡ n.id
    → Linked (out ++ else_jump f n.id ∷ else_label f n.id ∷ []) f (m ∷ rest)
Linked-else {out} {f} n m rest k t u same = Linked-grows es k new old enclosed
  where
    es : List Emit
    es = else_jump f n.id ∷ else_label f n.id ∷ []

    new :
        (l : Label)
        → Member l (label_at else_end f n.id ∷ [])
        → Member l (all_labels defines (out ++ es)) ⊎ Member l (pending f (m ∷ rest))
    new l here = inr (Member-append_left (pending f rest) (rw (u, same) here))
    new l (there m) = absurd (not_Member-nil m)

    started :
        (l : Label)
        → Member l (label_at else_start f n.id ∷ [])
        → Member l (all_labels defines (out ++ es))
    started l d = defined_now out es l d

    old :
        (l : Label)
        → Member l (pending f (n ∷ rest))
        → Member l (all_labels defines (out ++ es)) ⊎ Member l (pending f (m ∷ rest))
    old l p = elim (Member-append (end_label n.type f n.id) (pending f rest) p) [
      | inl own ↦ inl (started l (subst (λ t. Member l (end_label t f n.id)) t own))
      | inr outer ↦ inr (Member-append_right (end_label m.type f m.id) outer)
    ]

    enclosed :
        (o : Nest)
        → Encloses o (m ∷ rest)
        → o.type ≡ loop
        → Encloses o (n ∷ rest)
          ⊎ Member (label_at loop_start f o.id) (all_labels defines (out ++ es))
    enclosed o innermost v = absurd (ground arith)
    enclosed o (further e) v = inl (further e)

-- Every move of the strict machine keeps the jumps linked.
Move-IsLinked : {c d : Compiler} → Move true c d → IsLinked c → IsLinked d
Move-IsLinked (lexes l fo) k = Follows-Linked fo k
Move-IsLinked (renames name top) k = Linked-renamed name (top refl) k
Move-IsLinked (places p) k = k
Move-IsLinked (declares i h g) k = k
Move-IsLinked (declares_static name size) k = k
Move-IsLinked starts k =
    Linked-open (function_start _ ∷ []) _ k (λ l m. absurd (not_Member-nil m)) (λ e. cc)
Move-IsLinked {c} opens_block k =
    let n : Nest = record { type = block; id = 0; nr_vars = length c.idents; pos = c.pos } in
    subst (λ o. Linked o c.function_name (n ∷ c.nesting)) (append-nil c.lex.out)
      (Linked-open [] n k (λ l m. absurd (not_Member-nil m)) (λ e. cc))
Move-IsLinked {c} (opens type nb ne) k = opens-IsLinked c k type
Move-IsLinked {c} (closes n rest e l fo) k = closes-IsLinked c k n rest e l fo
Move-IsLinked {c} (closes_for_else n rest e t l fo) k =
    let m : Nest = record {
      type = else_arm;
      id = n.id;
      nr_vars = length (oldest n.nr_vars c.idents);
      pos = n.pos;
    } in
    subst (λ o. Linked o c.function_name (m ∷ rest))
      (sym (append_assoc l.out (else_jump c.function_name n.id ∷ []) _))
      (Linked-else n m rest (subst (Linked l.out c.function_name) e (Follows-Linked fo k)) t refl
        refl)
Move-IsLinked (jumps n e enc j) k = jump-Linked n e enc j k
Move-IsLinked (writes e p) k = Linked-silent (e ∷ []) k (plain-uses e p)
Move-IsLinked (pushes name i found) k = Linked-silent _ k (push_ident-uses i.type i name)
Move-IsLinked (pushes_string text) k = Linked-silent (push_string _ _ ∷ []) k refl

pub Moves-IsLinked : {c d : Compiler} → Moves true c d → IsLinked c → IsLinked d
Moves-IsLinked start k = k
Moves-IsLinked (then_move m s) k = Move-IsLinked s (Moves-IsLinked m k)
