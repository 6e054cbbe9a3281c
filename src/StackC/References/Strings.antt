-- ===== src/StackC/References/Strings.antt =====
-- The strings that the emitted code names, and the data section.
use mes_replacement.Prelude.{
  ℕ, zero, suc, ◌+◌, ◌≡◌, refl, sym, subst, List, [], ◌∷◌, ◌++◌, Bool, true, false, inl, inr, some,
  arith, if◌then◌else◌, get_elem?, Bytes, Member, here, there, Member-append, Member-append_left,
  not_Member-nil,
}
use mathlib.Core.Option.{some-injective}
use mes_replacement.StackC.Emit.{
  Emit, push_string, string_def, function_start, else_jump, else_label,
}
use mes_replacement.StackC.Lexer.{Lexer}
use mes_replacement.StackC.Lexer.Output.{Follows, echoes}
use mes_replacement.StackC.State.{IdentType, Ident, NestType, Compiler, nr_for_string, add_function}
use mes_replacement.StackC.Handlers.Values.{push_ident}
use mes_replacement.StackC.Program.{run, finished, prepare}
use mes_replacement.StackC.Program.Data.{string_defs, data_section}
use mes_replacement.StackC.Moves.{
  IsPlain, to_loop_end, to_switch_end, to_loop, opening, closing, emits, leave, Move, lexes,
  renames, places, declares, declares_static, starts, opens_block, opens, closes, closes_for_else,
  jumps, writes, pushes, pushes_string, Moves, start, then_move,
}
use mes_replacement.StackC.Moves.Trace.{run-Moves}
use mes_replacement.StackC.Labels.Linked.{emits_lem}
use mes_replacement.StackC.Labels.Run.{prepare-Follows}
use mes_replacement.StackC.References.Pool.{nr_for_string-finds, nr_for_string-keeps}

abbrev is_quote : Emit → Bool
is_quote (push_string s nr) = true
is_quote _ = false

abbrev quotes_none : List Emit → Bool
quotes_none [] = true
quotes_none (e ∷ es) = if is_quote e then false else quotes_none es

not_quoted :
    (es : List Emit) (s : Bytes) (nr : ℕ) → quotes_none es ≡ true → ¬ (Member (push_string s nr) es)
not_quoted [] s nr h m = not_Member-nil m
not_quoted (_ ∷ es) s nr h here = cc
not_quoted (e ∷ es) s nr h (there m) = not_quoted es s nr (ground arith) m

-- Each string that the output pushes has the number in the pool that it is pushed with.
record Known (out : List Emit) (pool : List Bytes) : Type 0 where
  number : (s : Bytes) (nr : ℕ) → Member (push_string s nr) out → get_elem? pool nr ≡ some s

Known-silent :
    {out : List Emit} {pool : List Bytes} (es : List Emit)
    → quotes_none es ≡ true
    → Known out pool
    → Known (out ++ es) pool
Known-silent {out} es h k = record {
  number = λ s nr m. elim (Member-append out es m) [
    | inl old ↦ k.number s nr old
    | inr new ↦ absurd (not_quoted es s nr h new)
  ];
}

Known-push :
    {out : List Emit} {pool : List Bytes} (text : Bytes)
    → Known out pool
    → Known (out ++ push_string text (nr_for_string text pool).0 ∷ []) (nr_for_string text pool).1
Known-push {out} {pool} text k = record {
  number = λ s nr m. elim (Member-append out _ m) [
    | inl old ↦ nr_for_string-keeps text pool nr s (k.number s nr old)
    | inr new ↦ pushed new
  ];
}
  where
    pushed :
        {s : Bytes} {nr : ℕ}
        → Member (push_string s nr) (push_string text (nr_for_string text pool).0 ∷ [])
        → get_elem? (nr_for_string text pool).1 nr ≡ some s
    pushed here = nr_for_string-finds text pool
    pushed (there m) = absurd (not_Member-nil m)

echoes-quotes_none : (cs : Bytes) → quotes_none (echoes cs) ≡ true
echoes-quotes_none [] = refl
echoes-quotes_none (c ∷ cs) = echoes-quotes_none cs

abbrev IsKnown : Compiler → Type 0
IsKnown c = Known c.lex.out c.strings

Follows-Known :
    {pool : List Bytes} {l k : Lexer} → Follows l k → Known l.out pool → Known k.out pool
Follows-Known {pool} f h =
    subst (λ o. Known o pool) (sym f.written)
      (Known-silent (echoes f.copied) (echoes-quotes_none f.copied) h)

emits-Known :
    (es : List Emit) (c : Compiler) → quotes_none es ≡ true → IsKnown c → IsKnown (emits es c)
emits-Known es c h k = subst IsKnown (sym (emits_lem es c)) (Known-silent es h k)

opening-quotes_none : (t : NestType) (f : Bytes) (id : ℕ) → quotes_none (opening t f id) ≡ true
opening-quotes_none NestType.block f id = refl
opening-quotes_none NestType.loop f id = refl
opening-quotes_none NestType.switch f id = refl
opening-quotes_none NestType.if_arm f id = refl
opening-quotes_none NestType.else_arm f id = refl
opening-quotes_none NestType.and_arm f id = refl
opening-quotes_none NestType.or_arm f id = refl

closing-quotes_none : (t : NestType) (f : Bytes) (id : ℕ) → quotes_none (closing t f id) ≡ true
closing-quotes_none NestType.block f id = refl
closing-quotes_none NestType.loop f id = refl
closing-quotes_none NestType.switch f id = refl
closing-quotes_none NestType.if_arm f id = refl
closing-quotes_none NestType.else_arm f id = refl
closing-quotes_none NestType.and_arm f id = refl
closing-quotes_none NestType.or_arm f id = refl

plain-quotes_none : (e : Emit) → IsPlain e → quotes_none (e ∷ []) ≡ true
plain-quotes_none (push_string s nr) p = absurd p
plain-quotes_none _ p = refl

push_ident-quotes_none :
    (t : IdentType) (i : Ident) (name : Bytes) → quotes_none (push_ident t i name ∷ []) ≡ true
unfolding push_ident
push_ident-quotes_none IdentType.global i name = refl
push_ident-quotes_none _ i name = refl

module _ {strict : Bool} where
  Move-IsKnown : {c d : Compiler} → Move strict c d → IsKnown c → IsKnown d
  Move-IsKnown (lexes l f) k = Follows-Known f k
  Move-IsKnown (renames name top) k = k
  Move-IsKnown (places p) k = k
  Move-IsKnown (declares i h g) k = k
  Move-IsKnown (declares_static name size) k = k
  Move-IsKnown {c} starts k = Known-silent (function_start c.function_name ∷ []) refl k
  Move-IsKnown opens_block k = k
  Move-IsKnown {c} (opens type nb ne) k =
      emits-Known (opening type c.function_name c.id) c
        (opening-quotes_none type c.function_name c.id) k
  Move-IsKnown {c} (closes n rest e l f) k =
      emits-Known (closing n.type c.function_name n.id) (leave n rest (record c { lex = l }))
        (closing-quotes_none n.type c.function_name n.id) (Follows-Known f k)
  Move-IsKnown {c} (closes_for_else n rest e t l f) k =
      emits-Known (else_jump c.function_name n.id ∷ else_label c.function_name n.id ∷ [])
        (leave n rest (record c { lex = l })) refl (Follows-Known f k)
  Move-IsKnown (jumps n e enc (to_loop_end t)) k = Known-silent _ refl k
  Move-IsKnown (jumps n e enc (to_switch_end t)) k = Known-silent _ refl k
  Move-IsKnown (jumps n e enc (to_loop t)) k = Known-silent _ refl k
  Move-IsKnown (writes e p) k = Known-silent (e ∷ []) (plain-quotes_none e p) k
  Move-IsKnown (pushes name i found) k = Known-silent _ (push_ident-quotes_none i.type i name) k
  Move-IsKnown (pushes_string text) k = Known-push text k

  Moves-IsKnown : {c d : Compiler} → Moves strict c d → IsKnown c → IsKnown d
  Moves-IsKnown start k = k
  Moves-IsKnown (then_move ms s) k = Move-IsKnown s (Moves-IsKnown ms k)

-- The strings of the pool are defined by their numbers.
string_defs-Member :
    (first nr : ℕ) (pool : List Bytes) (s : Bytes)
    → get_elem? pool nr ≡ some s
    → Member (string_def (first + nr) s) (string_defs first pool)
unfolding string_defs
string_defs-Member first nr [] s h = absurd (ground arith)
string_defs-Member first zero (t ∷ pool) s h =
    let e : first + 0 ≡ first = omega arith in rw (e, some-injective _ _ h) here
string_defs-Member first (suc nr) (t ∷ pool) s h =
    let e : first + 1 + nr ≡ first + suc nr = omega arith in
    there (
      subst (λ k. Member (string_def k s) (string_defs (first + 1) pool)) e
        (string_defs-Member (first + 1) nr pool s h))

prepare-IsKnown : (intro source : Bytes) → IsKnown (prepare intro source)
prepare-IsKnown intro source =
    unfold prepare add_function in
    Follows-Known (prepare-Follows intro source)
      (record { number = λ s nr m. absurd (not_Member-nil m) })

-- In a compilation that reaches the end of its source, each string that the emitted code pushes is
-- defined in the data section under the number that it is pushed with.
pub run-strings_defined :
    (intro source : Bytes) (fuel : ℕ) {c : Compiler}
    → run fuel (prepare intro source) ≡ finished c
    → (s : Bytes) (nr : ℕ) → Member (push_string s nr) c.lex.out
    → Member (string_def nr s) (data_section c)
unfolding data_section
run-strings_defined intro source fuel {c} e s nr m =
    let trace = run-Moves false fuel (prepare intro source) (λ s. cc) e in
    let known = Moves-IsKnown trace (prepare-IsKnown intro source) in
    let zero_first : 0 + nr ≡ nr = omega arith in
    let defined = string_defs-Member 0 nr c.strings s (known.number s nr m) in
    there (
      Member-append_left _
        (subst (λ k. Member (string_def k s) (string_defs 0 c.strings)) zero_first defined))
