-- ===== src/TccCc/Code/Laws/Places.antt =====
-- The branches of `gen_expr` for places, assignments and choices.
use mes_replacement.Prelude.{
  ℕ, suc, ◌≡◌, refl, List, [], ◌∷◌, ◌++◌, Option, none, some, Bool, true, false, if◌then◌else◌,
  codes, Bytes,
}
use mes_replacement.TccCc.Types.{CType, Target, size_of}
use mes_replacement.TccCc.Code.{
  ◌>>=◌, Word, push_number, push_member, arrow_member, store, two, copy,
}
use mes_replacement.TccCc.Code.Operands.{
  size_ind, is_multiple, gen_canonical_cast, is_lvalue, get_value,
}
use mes_replacement.TccCc.Code.Branches.{
  Child, child, type_of_child, store_value, set_value, set_code, compare_code, assign_code,
  arrow_code, dot_code, index_code, step_code, negative_code,
}
use mes_replacement.TccCc.Code.Effect.{
  Frame, run, follow, Pushes, Keeps, Joins, Makes, some-Makes, if-Makes, bind-Makes, run-Makes,
}
use mes_replacement.TccCc.Code.Laws.Operands.{
  get_value-Keeps, gen_canonical_cast-Keeps, scale-Joins, compare_words-Joins,
}
use mes_replacement.TccCc.Code.Laws.Branches.{
  AllPush, then_Keeps, then_Joins, value_of_child-Pushes, address_of_child-Pushes,
}
use mes_replacement.TccCc.Code.Laws.Steps.{
  JoinsThree, assign_words-Joins, step_words-Keeps, copy_words-Joins,
}

module _ (cs : List Child) (all : AllPush cs) where
  stored :
      (g : Target) (type : Option CType)
      → Joins (gen_canonical_cast g type ++ (store (size_ind g type) ∷ []))
  unfolding run ◌>>=◌
  stored g type d fs =
      follow (gen_canonical_cast g type) _ (suc (suc d), fs)
        (gen_canonical_cast-Keeps g type (suc d) fs) refl

  -- On top of a place, a value that takes the place away.
  abbrev Fills : List Word → Type 0
  Fills ws = (d : ℕ) (fs : List Frame) → run ws (suc d, fs) ≡ some (suc d, fs)

  fill : (a ws : List Word) → Pushes a → Joins ws → Fills (a ++ ws)
  fill a ws p j d fs = follow a ws (suc d, fs) (p (suc d) fs) (j d fs)

  store_value-Fills : (g : Target) (type : Option CType) → Makes Fills (store_value g type cs)
  store_value-Fills g type =
      run-Makes Pushes Fills _ _ (value_of_child-Pushes cs all 1)
        (λ b q. some-Makes Fills _ (fill b _ q (stored g type)))

  set_value-Fills : (g : Target) (type : Option CType) → Makes Fills (set_value g type cs)
  set_value-Fills g none = store_value-Fills g none
  set_value-Fills g (some t) =
      if-Makes Fills (is_multiple g (some t)) _ _
        (run-Makes Pushes Fills _ _ (address_of_child-Pushes cs all 1)
          (λ b q. some-Makes Fills _ (fill b _ q (copy_words-Joins g t))))
        (store_value-Fills g (some t))

  pub set_code-Pushes : (g : Target) (type : Option CType) → Makes Pushes (set_code g type cs)
  unfolding set_code
  set_code-Pushes g type = run-Makes Pushes Pushes _ _ (address_of_child-Pushes cs all 0) (λ a p.
      run-Makes Fills Pushes _ _ (set_value-Fills g type)
        (λ ws k. some-Makes Pushes _ (then_Keeps a ws p k)))

  pub compare_code-Pushes :
      (g : Target) (kind : ℕ) (type : Option CType) → Makes Pushes (compare_code g kind type cs)
  unfolding compare_code
  compare_code-Pushes g kind type =
      run-Makes Pushes Pushes _ _ (value_of_child-Pushes cs all 0) (λ a p.
        run-Makes Pushes Pushes _ _ (value_of_child-Pushes cs all 1) (λ b q.
          bind-Makes Pushes (type_of_child 0 cs) _ (λ l e.
            bind-Makes Pushes (type_of_child 1 cs) _ (λ r h.
              some-Makes Pushes _ (then_Joins a b _ p q (compare_words-Joins g kind type l r))))))

  assigned :
      (g : Target) (type : Option CType) (a b ws : List Word)
      → Pushes a
      → Pushes b
      → JoinsThree ws
      → Pushes (a ++ (copy ∷ (get_value g type ++ (b ++ ws))))
  unfolding run ◌>>=◌
  assigned g type a b ws p q j d fs =
      follow a _ (d, fs) (p d fs)
        (follow (get_value g type) _ (suc (suc d), fs) (get_value-Keeps g type (suc d) fs)
          (follow b ws (suc (suc d), fs) (q (suc (suc d)) fs) (j d fs)))

  pub assign_code-Pushes :
      (g : Target) (kind : ℕ) (type : Option CType) → Makes Pushes (assign_code g kind type cs)
  unfolding assign_code
  assign_code-Pushes g kind type =
      run-Makes Pushes Pushes _ _ (address_of_child-Pushes cs all 0) (λ a p.
        run-Makes Pushes Pushes _ _ (value_of_child-Pushes cs all 1) (λ b q.
          bind-Makes Pushes (type_of_child 0 cs) _ (λ l e.
            bind-Makes Pushes (type_of_child 1 cs) _ (λ r h.
              run-Makes JoinsThree Pushes _ _ (assign_words-Joins g kind type l r)
                (λ ws j. some-Makes Pushes _ (assigned g type a b ws p q j))))))

  member_Keeps :
      (place : Bool) (nr : ℕ) (name : Bytes)
      → Keeps
          (if place then arrow_member nr name ∷ [] else push_member nr name ∷ two (codes "+") ∷ [])
  unfolding run ◌>>=◌
  member_Keeps true nr name d fs = refl
  member_Keeps false nr name d fs = refl

  pub arrow_code-Pushes : (nr : ℕ) (name : Bytes) → Makes Pushes (arrow_code nr name cs)
  unfolding arrow_code
  arrow_code-Pushes nr name = run-Makes Pushes Pushes _ _ (address_of_child-Pushes cs all 0) (λ a p.
      bind-Makes Pushes (child 0 cs) _ (λ c e.
        bind-Makes Pushes (is_lvalue c.of) _
          (λ place h. some-Makes Pushes _ (then_Keeps a _ p (member_Keeps place nr name)))))

  pub dot_code-Pushes : (nr : ℕ) (name : Bytes) → Makes Pushes (dot_code nr name cs)
  unfolding dot_code
  dot_code-Pushes nr name =
      run-Makes Pushes Pushes _ _ (address_of_child-Pushes cs all 0)
        (λ a p. some-Makes Pushes _ (then_Keeps a _ p (member_Keeps false nr name)))

  pub index_code-Pushes : (g : Target) (type : Option CType) → Makes Pushes (index_code g type cs)
  unfolding index_code
  index_code-Pushes g type = run-Makes Pushes Pushes _ _ (value_of_child-Pushes cs all 0) (λ a p.
      run-Makes Pushes Pushes _ _ (value_of_child-Pushes cs all 1) (λ b q.
        bind-Makes Pushes type _ (λ t e.
          some-Makes Pushes _ (then_Joins a b _ p q (scale-Joins (size_of g t) (codes "+"))))))

  pub step_code-Pushes :
      (g : Target) (change back : Bytes) (after : Bool) (type : Option CType)
      → Makes Pushes (step_code g change back after type cs)
  unfolding step_code
  step_code-Pushes g change back after type =
      run-Makes Pushes Pushes _ _ (address_of_child-Pushes cs all 0) (λ a p.
        bind-Makes Pushes (type_of_child 0 cs) _ (λ operand e.
          run-Makes Keeps Pushes _ _ (step_words-Keeps g change back after type operand)
            (λ ws k. some-Makes Pushes _ (then_Keeps a ws p k))))

  negated :
      (g : Target) (type : Option CType) (a : List Word)
      → Pushes a
      → Pushes (push_number 0 ∷ (a ++ (two (codes "-") ∷ gen_canonical_cast g type)))
  unfolding run ◌>>=◌
  negated g type a p d fs =
      follow a _ (suc d, fs) (p (suc d) fs) (gen_canonical_cast-Keeps g type d fs)

  pub negative_code-Pushes :
      (g : Target) (type : Option CType) → Makes Pushes (negative_code g type cs)
  unfolding negative_code
  negative_code-Pushes g type =
      run-Makes Pushes Pushes _ _ (value_of_child-Pushes cs all 0)
        (λ a p. some-Makes Pushes _ (negated g type a p))
