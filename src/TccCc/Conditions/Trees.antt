-- ===== src/TccCc/Conditions/Trees.antt =====
-- Conditions as trees, with their tokens and their values.
use mes_replacement.Prelude.{
  ℕ, suc, ◌+◌, List, [], ◌∷◌, ◌++◌, Bool, true, not, ◌&&◌, ◌||◌, ◌==◌, leb, codes, Bytes,
}
use mes_replacement.TccCc.Environment.{Token, Macro}
use mes_replacement.TccCc.Tokens.Kinds.{tk_eq, tk_ne, tk_dd_oper, tk_defined}
use mes_replacement.TccCc.Tokens.Values.{string_int_value}
use mes_replacement.TccCc.Conditions.{truth, defined_value}

pub data Condition : Type 0 where
  number : Bytes → Condition
  name : Bytes → Condition
  defined : Bytes → Condition
  defined_in : Bytes → Condition
  parenthesis : Condition → Condition
  negation : Condition → Condition
  equal : Condition → Condition → Condition
  unequal : Condition → Condition → Condition
  both : Condition → Condition → Condition
  either : Condition → Condition → Condition

abbrev pub mark : ℕ → Bytes → Token
mark kind cs = record { kind = kind; token = cs }

abbrev pub tokens_of : Condition → List Token → List Token
tokens_of (number cs) rest = mark b'0' cs ∷ rest
tokens_of (name n) rest = mark b'i' n ∷ rest
tokens_of (defined n) rest = mark tk_defined (codes "defined") ∷ mark b'i' n ∷ rest
tokens_of (defined_in n) rest =
    mark tk_defined (codes "defined")
    ∷ mark b'(' (codes "(")
    ∷ mark b'i' n
    ∷ mark b')' (codes ")")
    ∷ rest
tokens_of (parenthesis c) rest = mark b'(' (codes "(") ∷ tokens_of c (mark b')' (codes ")") ∷ rest)
tokens_of (negation c) rest = mark b'!' (codes "!") ∷ tokens_of c rest
tokens_of (equal a b) rest = tokens_of a (mark tk_eq (codes "==") ∷ tokens_of b rest)
tokens_of (unequal a b) rest = tokens_of a (mark tk_ne (codes "!=") ∷ tokens_of b rest)
tokens_of (both a b) rest = tokens_of a (mark (tk_dd_oper + b'&') (codes "&&") ∷ tokens_of b rest)
tokens_of (either a b) rest = tokens_of a (mark (tk_dd_oper + b'|') (codes "||") ∷ tokens_of b rest)

-- 0 for a primary expression, up to 4 for a disjunction.
abbrev pub level : Condition → ℕ
level (negation c) = 1
level (equal a b) = 2
level (unequal a b) = 2
level (both a b) = 3
level (either a b) = 4
level _ = 0

-- The tree is the one that the grammar of the code has for its tokens.
abbrev pub is_tree : Condition → Bool
is_tree (parenthesis c) = is_tree c
is_tree (negation c) = is_tree c && level c == 0
is_tree (equal a b) = (is_tree a && leb (level a) 1) && (is_tree b && leb (level b) 1)
is_tree (unequal a b) = (is_tree a && leb (level a) 1) && (is_tree b && leb (level b) 1)
is_tree (both a b) = (is_tree a && leb (level a) 3) && (is_tree b && leb (level b) 2)
is_tree (either a b) = is_tree a && (is_tree b && leb (level b) 3)
is_tree _ = true

abbrev pub depth : Condition → ℕ
depth (parenthesis c) = suc (depth c)
depth (negation c) = depth c
depth (equal a b) = depth a + depth b
depth (unequal a b) = depth a + depth b
depth (both a b) = depth a + depth b
depth (either a b) = depth a + depth b
depth _ = 0

module _ (environment : List Macro) (of_name : Bytes → ℕ) where
  abbrev pub value_of : Condition → ℕ
  value_of (number cs) = string_int_value cs
  value_of (name n) = of_name n
  value_of (defined n) = defined_value environment n
  value_of (defined_in n) = defined_value environment n
  value_of (parenthesis c) = value_of c
  value_of (negation c) = truth (value_of c == 0)
  value_of (equal a b) = truth (value_of a == value_of b)
  value_of (unequal a b) = truth (not (value_of a == value_of b))
  value_of (both a b) = truth (not (value_of a == 0) && not (value_of b == 0))
  value_of (either a b) = truth (not (value_of a == 0) || not (value_of b == 0))

-- The names that the condition has the value of.
abbrev pub names_of : Condition → List Bytes
names_of (name n) = n ∷ []
names_of (parenthesis c) = names_of c
names_of (negation c) = names_of c
names_of (equal a b) = names_of a ++ names_of b
names_of (unequal a b) = names_of a ++ names_of b
names_of (both a b) = names_of a ++ names_of b
names_of (either a b) = names_of a ++ names_of b
names_of _ = []
