-- ===== src/TccCc/Code/Laws/Branches.antt =====
-- What the branches of `gen_expr` do to the stack, when the children push a value each.
use mes_replacement.Prelude.{
  ℕ, suc, ◌≡◌, refl, List, [], ◌∷◌, ◌++◌, Option, none, some, Bool, true, false, ◌==◌,
  if◌then◌else◌, inl, inr, Option-cases, arith,
}
use mes_replacement.TccCc.Types.{CType, BaseType, Target, base_of}
use mes_replacement.TccCc.Exprs.{type_of}
use mes_replacement.TccCc.Code.{◌>>=◌, Word, push_number}
use mes_replacement.TccCc.Code.Operands.{gen_canonical_cast, is_lvalue}
use mes_replacement.TccCc.Code.Operators.{binary_words}
use mes_replacement.TccCc.Code.Branches.{
  Child, child, value_of_child, address_of_child, type_of_child, same_base, cast_to_base,
  cast_to_other, is_pointer_kind, cast_code, unary_code, shifts_out, binary_code,
}
use mes_replacement.TccCc.Code.Effect.{
  run, follow, Pushes, Keeps, Joins, Makes, some-Makes, if-Makes, bind-Makes, run-Makes,
}
use mes_replacement.TccCc.Code.Laws.Operands.{
  get_value-Keeps, gen_canonical_cast-Keeps, if_cast-Keeps, binary_words-Joins,
}

-- Each child pushes one value, as a value and not.
abbrev pub AllPush : List Child → Type 0
AllPush cs =
    (n : ℕ) (c : Child) → child n cs ≡ some c → Makes Pushes c.value × Makes Pushes c.address

pub then_Keeps : (xs ys : List Word) → Pushes xs → Keeps ys → Pushes (xs ++ ys)
then_Keeps xs ys p k d fs = follow xs ys (d, fs) (p d fs) (k d fs)

pub then_Joins :
    (xs ys zs : List Word) → Pushes xs → Pushes ys → Joins zs → Pushes (xs ++ (ys ++ zs))
then_Joins xs ys zs p q j d fs =
    follow xs (ys ++ zs) (d, fs) (p d fs) (follow ys zs (suc d, fs) (q (suc d) fs) (j d fs))

number_Pushes : (n : ℕ) → Pushes (push_number n ∷ [])
unfolding run ◌>>=◌
number_Pushes n d fs = refl

module _ (cs : List Child) (all : AllPush cs) where
  pub value_of_child-Pushes : (n : ℕ) → Makes Pushes (value_of_child n cs)
  value_of_child-Pushes n = bind-Makes Pushes (child n cs) _ (λ c e. (all n c e).0)

  pub address_of_child-Pushes : (n : ℕ) → Makes Pushes (address_of_child n cs)
  address_of_child-Pushes n = bind-Makes Pushes (child n cs) _ (λ c e. (all n c e).1)

  kept_cast :
      (b : Bool) (g : Target) (type : Option CType)
      → Keeps (if b then [] else gen_canonical_cast g type)
  unfolding run
  kept_cast true g type d fs = refl
  kept_cast false g type d fs = gen_canonical_cast-Keeps g type d fs

  cast_to_base-Pushes :
      (g : Target) (t : CType) (b : BaseType) → Makes Pushes (cast_to_base g t b cs)
  cast_to_base-Pushes g t b = run-Makes Pushes Pushes _ _ (value_of_child-Pushes 0) (λ ws p.
      bind-Makes Pushes (type_of_child 0 cs) _ (λ type e. bind-Makes Pushes type _ (λ d f.
        some-Makes Pushes _ (then_Keeps ws _ p (kept_cast (same_base (base_of d) b) g (some t))))))

  ignored-Pushes :
      (type : Option CType) (t : CType) (ws : List Word)
      → Pushes ws
      → Makes Pushes
          (elim type [ none ↦ if is_pointer_kind t then none else some ws | some d ↦ some ws ])
  ignored-Pushes none t ws p =
      if-Makes Pushes (is_pointer_kind t) none (some ws) (λ vs e. absurd (ground (arith, e)))
        (some-Makes Pushes ws p)
  ignored-Pushes (some d) t ws p = some-Makes Pushes ws p

  cast_to_other-Pushes : (g : Target) (t : CType) → Makes Pushes (cast_to_other g t cs)
  cast_to_other-Pushes g t = run-Makes Pushes Pushes _ _ (address_of_child-Pushes 0) (λ ws p.
      bind-Makes Pushes (child 0 cs) _ (λ c e. bind-Makes Pushes (is_lvalue c.of) _ (λ place f.
        if-Makes Pushes place _ _
          (some-Makes Pushes _ (then_Keeps ws _ p (get_value-Keeps g (some t))))
          (ignored-Pushes (type_of c.of) t ws p))))

  pub cast_code-Pushes : (g : Target) (type : Option CType) → Makes Pushes (cast_code g type cs)
  unfolding cast_code
  cast_code-Pushes g none = λ ws e. absurd (ground (arith, e))
  cast_code-Pushes g (some t) = elim (Option-cases (base_of t)) [
    | inl h ↦ rw (cast_code, h) (cast_to_other-Pushes g t)
    | inr (b, h) ↦ rw (cast_code, h) (cast_to_base-Pushes g t b)
  ]

  pub unary_code-Pushes :
      (g : Target) (kind : ℕ) (type : Option CType) → Makes Pushes (unary_code g kind type cs)
  unfolding unary_code run ◌>>=◌
  unary_code-Pushes g kind type =
      run-Makes Pushes Pushes _ _ (value_of_child-Pushes 0)
        (λ ws p. some-Makes Pushes _ (then_Keeps ws _ p (if_cast-Keeps (kind == b'~') g type)))

  -- An operator over the values of two children.
  two_children-Pushes :
      (f : Option CType → Option CType → Option (List Word))
      → ((l r : Option CType) → Makes Joins (f l r))
      → Makes Pushes (
          value_of_child 0 cs >>= λ a. value_of_child 1 cs >>= λ b. type_of_child 0 cs >>= λ l.
          type_of_child 1 cs >>= λ r. f l r >>= λ ws. some (a ++ (b ++ ws)))
  two_children-Pushes f j = run-Makes Pushes Pushes _ _ (value_of_child-Pushes 0) (λ a p.
      run-Makes Pushes Pushes _ _ (value_of_child-Pushes 1) (λ b q.
        bind-Makes Pushes (type_of_child 0 cs) _ (λ l e.
          bind-Makes Pushes (type_of_child 1 cs) _ (λ r h.
            run-Makes Joins Pushes (f l r) _ (j l r)
              (λ ws k. some-Makes Pushes _ (then_Joins a b ws p q k))))))

  pub binary_code-Pushes :
      (g : Target) (kind : ℕ) (type : Option CType) → Makes Pushes (binary_code g kind type cs)
  unfolding binary_code run
  binary_code-Pushes g kind type = bind-Makes Pushes (shifts_out g kind cs) _ (λ out e.
      if-Makes Pushes out _ _ (some-Makes Pushes _ (number_Pushes 0))
        (two_children-Pushes (binary_words g kind type) (binary_words-Joins g kind type)))
