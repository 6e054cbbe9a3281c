-- ===== src/TccCc/Parser/Laws/Basics.antt =====
-- The tokens that end an expression, and what a parser does in front of them.
use mes_replacement.Prelude.{
  ℕ, ◌≤◌, ◌<◌, ◌≡◌, refl, sym, subst, List, some, Bool, true, false, not, ◌&&◌, ◌||◌, ◌==◌, leb,
  ltb, inl, inr, Bool-cases, arith, ==→≡,
}
use mes_replacement.TccCc.Environment.{Token}
use mes_replacement.TccCc.Tokens.Kinds.{tk_inc, tk_dec, tk_arrow}
use mes_replacement.TccCc.Types.{Target, Decl}
use mes_replacement.TccCc.Parser.{Parser, Parsers, cur_kind, operator_level, assigns}
use mes_replacement.TccCc.Parser.Trees.{Tree, tokens_of_tree, rank, is_tree_of, nesting_of, expr_of}

-- The token does not go on with a postfix expression.
unfoldable pub is_quiet : ℕ → Bool
is_quiet kind =
    not (kind == b'[')
    && (not (kind == b'(')
        && (not (kind == b'.')
            && (not (kind == tk_arrow)
                && (not (kind == tk_inc) && (not (kind == tk_dec) && not (kind == b'"'))))))

-- No binary operator of the level or below, and no postfix operator.
abbrev pub stops_at : ℕ → ℕ → Bool
stops_at level kind = is_quiet kind && (operator_level kind == 0 || ltb level (operator_level kind))

pub quiet-parts :
    (kind : ℕ)
    → is_quiet kind ≡ true
    → ((kind == b'[') ≡ false)
      × ((kind == b'(') ≡ false)
      × ((kind == b'.') ≡ false)
      × ((kind == tk_arrow) ≡ false)
      × ((kind == tk_inc) ≡ false)
      × ((kind == tk_dec) ≡ false)
      × ((kind == b'"') ≡ false)
unfolding is_quiet
quiet-parts kind h = (
  ground (arith, h),
  ground (arith, h),
  ground (arith, h),
  ground (arith, h),
  ground (arith, h),
  ground (arith, h),
  ground (arith, h),
)

noisy-cases :
    (P : ℕ → Type 0)
    → P b'['
    → P b'('
    → P b'.'
    → P tk_arrow
    → P tk_inc
    → P tk_dec
    → P b'"'
    → (kind : ℕ) → is_quiet kind ≡ false
    → P kind
unfolding is_quiet
noisy-cases P a b c d e f q kind h =
    let go : (k : ℕ) → P k → (kind == k) ≡ true → P kind =
      λ k p e. subst P (sym (==→≡ kind k e)) p in
    elim (Bool-cases (kind == b'[')) [
      | inl x ↦ go b'[' a x
      | inr x₁ ↦ elim (Bool-cases (kind == b'(')) [
        | inl x ↦ go b'(' b x
        | inr x₂ ↦ elim (Bool-cases (kind == b'.')) [
          | inl x ↦ go b'.' c x
          | inr x₃ ↦ elim (Bool-cases (kind == tk_arrow)) [
            | inl x ↦ go tk_arrow d x
            | inr x₄ ↦ elim (Bool-cases (kind == tk_inc)) [
              | inl x ↦ go tk_inc e x
              | inr x₅ ↦ elim (Bool-cases (kind == tk_dec)) [
                | inl x ↦ go tk_dec f x
                | inr x₆ ↦ elim (Bool-cases (kind == b'"')) [
                  | inl x ↦ go b'"' q x
                  | inr x₇ ↦
                      let k : is_quiet kind ≡ true = rw (x₁, x₂, x₃, x₄, x₅, x₆, x₇) refl in
                      absurd (ground (arith, k, h))
                ]
              ]
            ]
          ]
        ]
      ]
    ]

pub operator-quiet : (kind : ℕ) → 0 < operator_level kind → is_quiet kind ≡ true
operator-quiet kind h = elim (Bool-cases (is_quiet kind)) [
  | inl e ↦ e
  | inr e ↦ absurd (noisy-cases (λ k. 0 < operator_level k → ⊥) no no no no no no no kind e h)
]
  where
    no : 0 < 0 → ⊥
    no x = omega (arith, x)

-- The kinds that end an operand of the conditional operator, of an assignment and of a comma.
abbrev pub ends_conditional : ℕ → Bool
ends_conditional kind = stops_at 9 kind && not (kind == b'?')

above : (kind x : ℕ) → 600 ≤ kind → x < 600 → (kind == x) ≡ false
above kind x h k = ground (arith, h, k)

below : (kind x : ℕ) → kind < 727 → 727 ≤ x → (kind == x) ≡ false
below kind x h k = ground (arith, h, k)

high-ends : (kind : ℕ) → 600 ≤ kind → kind < 727 → ends_conditional kind ≡ true
unfolding is_quiet
high-ends kind h k =
    rw
      (
        above kind 91 h (omega arith),
        above kind 40 h (omega arith),
        above kind 46 h (omega arith),
        above kind 507 h (omega arith),
        above kind 505 h (omega arith),
        above kind 506 h (omega arith),
        above kind 34 h (omega arith),
        above kind 42 h (omega arith),
        above kind 47 h (omega arith),
        above kind 37 h (omega arith),
        above kind 43 h (omega arith),
        above kind 45 h (omega arith),
        above kind 501 h (omega arith),
        above kind 502 h (omega arith),
        above kind 503 h (omega arith),
        above kind 504 h (omega arith),
        above kind 60 h (omega arith),
        above kind 62 h (omega arith),
        above kind 94 h (omega arith),
        above kind 38 h (omega arith),
        above kind 124 h (omega arith),
        above kind 63 h (omega arith),
        below kind 860 k (omega arith),
        below kind 862 k (omega arith),
        below kind 838 k (omega arith),
        below kind 924 k (omega arith),
      )
      refl

pub assigns-ends : (kind : ℕ) → assigns kind ≡ true → ends_conditional kind ≡ true
unfolding is_quiet
assigns-ends kind h = elim (Bool-cases (kind == b'=')) [
  | inl e ↦ subst (λ k. ends_conditional k ≡ true) (sym (==→≡ kind b'=' e)) refl
  | inr e ↦
      let range : (leb 600 kind && ltb kind 727) ≡ true = ground (arith, e, h) in
      high-ends kind (ground (arith, range)) (ground (arith, range))
]

abbrev pub ends_assignment : ℕ → Bool
ends_assignment kind = ends_conditional kind && not (assigns kind)

abbrev pub ends_expr : ℕ → Bool
ends_expr kind = ends_assignment kind && not (kind == b',')

module _ (g : Target) (decls : List Decl) where
  -- What the parser does on trees of less than the depth, up to the rank, in front of such a token.
  abbrev pub Reads : ℕ → ℕ → (ℕ → Bool) → Parser → Type 0
  Reads depth n ends parser =
      (a : Tree) (rest : List Token)
      → nesting_of a < depth
      → is_tree_of g decls true a ≡ true
      → rank a ≤ n
      → ends (cur_kind rest) ≡ true
      → parser (tokens_of_tree a rest) ≡ some (expr_of g decls a, rest)

  abbrev pub ReadsAll : ℕ → Parsers → Type 0
  ReadsAll depth p =
      Reads depth 13 ends_expr p.expr
      × Reads depth 12 ends_assignment p.assignment
      × Reads depth 1 (stops_at 0) p.unary
      × Reads depth 11 ends_conditional p.conditional
