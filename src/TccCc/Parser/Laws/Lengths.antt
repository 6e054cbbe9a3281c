-- ===== src/TccCc/Parser/Laws/Lengths.antt =====
-- The lengths of the tokens of trees.
use mes_replacement.Prelude.{◌+◌, ◌≤◌, List, [], ◌∷◌, arith, length, Bytes}
use mes_replacement.TccCc.Environment.{Token}
use mes_replacement.TccCc.Tokens.Kinds.{tk_inc, tk_dec, tk_arrow}
use mes_replacement.TccCc.Conditions.Trees.{mark}
use mes_replacement.TccCc.Parser.Trees.{
  Tree, identifier, number, character, strings, grouped, index, call, dot, arrow, increment,
  decrement, prefix, binary, choice, assign, comma, no_items, one_item, more_items, string_tokens,
  tokens_of_tree, sign, nesting_of,
}

pub length-string_tokens :
    (ss : List Bytes) (rest : List Token) → length rest ≤ length (string_tokens ss rest)
length-string_tokens [] rest = omega arith
length-string_tokens (s ∷ ss) rest = let h = length-string_tokens ss rest in omega (arith, h)

pub length-tokens_of_tree :
    (a : Tree) (rest : List Token) → nesting_of a + length rest ≤ length (tokens_of_tree a rest)
length-tokens_of_tree (identifier n) rest = omega arith
length-tokens_of_tree (number cs) rest = omega arith
length-tokens_of_tree (character c) rest = omega arith
length-tokens_of_tree (strings s ss) rest = let h = length-string_tokens ss rest in omega (arith, h)
length-tokens_of_tree (grouped a) rest =
    let h0 = length-tokens_of_tree a (sign b')' ∷ rest) in omega (arith, h0)
length-tokens_of_tree (index a i) rest =
    let h0 = length-tokens_of_tree i (sign b']' ∷ rest) in
    let h1 = length-tokens_of_tree a (sign b'[' ∷ tokens_of_tree i (sign b']' ∷ rest)) in
    omega (arith, h0, h1)
length-tokens_of_tree (call a args) rest =
    let h0 = length-tokens_of_tree args (sign b')' ∷ rest) in
    let h1 = length-tokens_of_tree a (sign b'(' ∷ tokens_of_tree args (sign b')' ∷ rest)) in
    omega (arith, h0, h1)
length-tokens_of_tree (dot a n) rest =
    let h0 = length-tokens_of_tree a (sign b'.' ∷ mark b'i' n ∷ rest) in omega (arith, h0)
length-tokens_of_tree (arrow a n) rest =
    let h0 = length-tokens_of_tree a (sign tk_arrow ∷ mark b'i' n ∷ rest) in omega (arith, h0)
length-tokens_of_tree (increment a) rest =
    let h0 = length-tokens_of_tree a (sign tk_inc ∷ rest) in omega (arith, h0)
length-tokens_of_tree (decrement a) rest =
    let h0 = length-tokens_of_tree a (sign tk_dec ∷ rest) in omega (arith, h0)
length-tokens_of_tree (prefix o a) rest = let h0 = length-tokens_of_tree a rest in omega (arith, h0)
length-tokens_of_tree (binary k a b) rest =
    let h0 = length-tokens_of_tree b rest in
    let h1 = length-tokens_of_tree a (sign k ∷ tokens_of_tree b rest) in omega (arith, h0, h1)
length-tokens_of_tree (choice c a b) rest =
    let h0 = length-tokens_of_tree b rest in
    let h1 = length-tokens_of_tree a (sign b':' ∷ tokens_of_tree b rest) in
    let h2 =
      length-tokens_of_tree c (sign b'?' ∷ tokens_of_tree a (sign b':' ∷ tokens_of_tree b rest)) in
    omega (arith, h0, h1, h2)
length-tokens_of_tree (assign k a b) rest =
    let h0 = length-tokens_of_tree b rest in
    let h1 = length-tokens_of_tree a (sign k ∷ tokens_of_tree b rest) in omega (arith, h0, h1)
length-tokens_of_tree (comma a bs) rest =
    let h0 = length-tokens_of_tree bs rest in
    let h1 = length-tokens_of_tree a (sign b',' ∷ tokens_of_tree bs rest) in omega (arith, h0, h1)
length-tokens_of_tree no_items rest = omega arith
length-tokens_of_tree (one_item a) rest = let h0 = length-tokens_of_tree a rest in omega (arith, h0)
length-tokens_of_tree (more_items a bs) rest =
    let h0 = length-tokens_of_tree bs rest in
    let h1 = length-tokens_of_tree a (sign b',' ∷ tokens_of_tree bs rest) in omega (arith, h0, h1)
