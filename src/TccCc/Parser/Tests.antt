-- ===== src/TccCc/Parser/Tests.antt =====
-- Concrete runs of the parser of expressions.
use mes_replacement.Prelude.{ℕ, List, [], ◌∷◌, none, some, false, codes}
use mes_replacement.TccCc.Environment.{Token}
use mes_replacement.TccCc.Types.{BaseType, base, function, Target, Decl, no_storage}
use mes_replacement.TccCc.Parser.Specifiers.{Specified}
use mes_replacement.TccCc.Parser.Trees.{
  Tree, identifier, number, strings, grouped, call, prefix, minus, binary, assign, comma, one_item,
  more_items, tokens_of_tree, sign,
}

abbrev some_target : Target
some_target = record { long_long_size = 8; su_size = λ n. 0; su_members = λ n. [] }

abbrev some_decls : List Decl
some_decls =
    record { name = codes "x"; type = some (base BaseType.s32); storage = no_storage }
    ∷ record {
      name = codes "f";
      type = some (function (base BaseType.s32) 2 false);
      storage = no_storage;
    }
    ∷ []

abbrev no_tag : ℕ → List Token → Specified
no_tag kind ts = (none, ts)

abbrev no_struct : List Token → Specified
no_struct ts = (none, ts)

-- `x = f(-x, "a") + 2 * (x + 1), 3`
abbrev some_tree : Tree
some_tree =
    let x = identifier (codes "x") in
    let called =
      call (identifier (codes "f"))
        (more_items (prefix minus x) (one_item (strings (codes "a") []))) in
    let product = binary b'*' (number (codes "2")) (grouped (binary b'+' x (number (codes "1")))) in
    comma (assign b'=' x (binary b'+' called product)) (one_item (number (codes "3")))

abbrev some_tokens : List Token
some_tokens = tokens_of_tree some_tree (sign b';' ∷ [])
