-- ===== src/TccCc/Tokens/Laws/Shapes.antt =====
-- The branch for operators on a spelling of one, two or three characters.
use mes_replacement.Prelude.{ℕ, ◌≡◌, List, [], ◌∷◌, ◌++◌, false, Bytes}
use mes_replacement.TccCc.Chars.{CharIterator, Yields}
use mes_replacement.TccCc.Chars.Strip.Laws.{Yields-head}
use mes_replacement.TccCc.Chars.Strip.Pieces.{head_of}
use mes_replacement.TccCc.Tokens.{Tokenizer}
use mes_replacement.TccCc.Tokens.Operators.{operator}
use mes_replacement.TccCc.Tokens.Lexemes.{operators, spells}

module _ {S : Type 0} (it : CharIterator S) where
  -- The branch takes the whole spelling.
  abbrev pub Takes : Bytes → ℕ → Type 0
  Takes cs kind =
      (t : Tokenizer S) (rest : Bytes)
      → t.token ≡ []
      → spells operators (cs ++ head_of rest ∷ []) ≡ false
      → Yields it t.chars (cs ++ rest)
      → (s : S) × (operator it t ≡ record t { kind = kind; token = cs; chars = s })
        × Yields it s rest

  -- A state without a token yet, at the character `c` with `d` behind it.
  abbrev pub At : ℕ → ℕ → Tokenizer S → Type 0
  At c d t = (t.token ≡ []) × (it.ch t.chars ≡ c) × (it.ch (it.next t.chars) ≡ d)

  pub lone-Takes :
      (c kind : ℕ)
      → ((t : Tokenizer S) (d : ℕ)
          → At c d t
          → spells operators (c ∷ d ∷ []) ≡ false
          → operator it t ≡ record t { kind = kind; token = c ∷ []; chars = it.next t.chars })
      → Takes (c ∷ []) kind
  lone-Takes c kind run t rest empty h (e, live, bound, y) = (
    it.next t.chars,
    run t (head_of rest) (empty, e, Yields-head it (it.next t.chars) rest y) h,
    y,
  )

  pub two-Takes :
      (c d kind : ℕ)
      → ((t : Tokenizer S) (x : ℕ)
          → At c d t
          → it.ch (it.next (it.next t.chars)) ≡ x
          → spells operators (c ∷ d ∷ x ∷ []) ≡ false
          → operator it t
            ≡ record t { kind = kind; token = c ∷ d ∷ []; chars = it.next (it.next t.chars) })
      → Takes (c ∷ d ∷ []) kind
  two-Takes c d kind run t rest empty h (e, l, b, (f, l', b', y)) = (
    it.next (it.next t.chars),
    run t (head_of rest) (empty, e, f) (Yields-head it (it.next (it.next t.chars)) rest y) h,
    y,
  )

  pub three-Takes :
      (c d x kind : ℕ)
      → ((t : Tokenizer S)
          → At c d t
          → it.ch (it.next (it.next t.chars)) ≡ x
          → operator it t ≡ record t {
            kind = kind;
            token = c ∷ d ∷ x ∷ [];
            chars = it.next (it.next (it.next t.chars));
          })
      → Takes (c ∷ d ∷ x ∷ []) kind
  three-Takes c d x kind run t rest empty h (e, l, b, (f, l', b', (g, l'', b'', y))) =
      (it.next (it.next (it.next t.chars)), run t (empty, e, f) g, y)

  -- The branch takes each spelling of the table.
  abbrev pub Every : List (Bytes × ℕ) → Type 0
  Every [] = Unit
  Every ((cs, kind) ∷ table) = Takes cs kind × Every table

  pub Every-append : (a b : List (Bytes × ℕ)) → Every a → Every b → Every (a ++ b)
  Every-append [] b x y = y
  Every-append ((cs, kind) ∷ a) b (t, x) y = (t, Every-append a b x y)
