-- ===== src/TccCc/Code/Laws/Choices.antt =====
-- The branches of `gen_expr` for `||`, `&&`, the conditional operator and sequences.
use mes_replacement.Prelude.{suc, ◌≡◌, refl, List, [], ◌∷◌, ◌++◌, Bool, true, false, ==_refl, arith}
use mes_replacement.TccCc.Code.{◌>>=◌, Word, ignore, open_or, open_and, open_if, otherwise, close}
use mes_replacement.TccCc.Code.Branches.{
  Child, child, sequence_code, short_code, written, choice_code,
}
use mes_replacement.TccCc.Code.Effect.{
  run, follow, Pushes, Makes, some-Makes, bind-Makes, run-Makes,
}
use mes_replacement.TccCc.Code.Laws.Branches.{AllPush, value_of_child-Pushes}

or_Pushes : (a b : List Word) → Pushes a → Pushes b → Pushes (a ++ (open_or ∷ (b ++ (close ∷ []))))
unfolding run ◌>>=◌
or_Pushes a b p q d fs =
    follow a _ (d, fs) (p d fs) (follow b _ (d, _) (q d _) (rw (==_refl (suc d)) refl))

and_Pushes :
    (a b : List Word) → Pushes a → Pushes b → Pushes (a ++ (open_and ∷ (b ++ (close ∷ []))))
unfolding run ◌>>=◌
and_Pushes a b p q d fs =
    follow a _ (d, fs) (p d fs) (follow b _ (d, _) (q d _) (rw (==_refl (suc d)) refl))

if_Pushes :
    (c a b : List Word)
    → Pushes c
    → Pushes a
    → Pushes b
    → Pushes (c ++ (open_if ∷ (a ++ (otherwise ∷ (b ++ (close ∷ []))))))
unfolding run ◌>>=◌
if_Pushes c a b r p q d fs =
    follow c _ (d, fs) (r d fs)
      (follow a _ (d, _) (p d _) (follow b _ (d, _) (q d _) (rw (==_refl (suc d)) refl)))

next_Pushes : (a b : List Word) → Pushes a → Pushes b → Pushes (a ++ (ignore ∷ b))
unfolding run ◌>>=◌
next_Pushes a b p q d fs = follow a _ (d, fs) (p d fs) (q d fs)

written-Pushes :
    (as_value : Bool) (c : Child)
    → Makes Pushes c.value
    → Makes Pushes c.address
    → Makes Pushes (written as_value c)
written-Pushes true c p q = p
written-Pushes false c p q = q

module _ (cs : List Child) (all : AllPush cs) where
  pub or_code-Pushes : Makes Pushes (short_code open_or cs)
  unfolding short_code
  or_code-Pushes = run-Makes Pushes Pushes _ _ (value_of_child-Pushes cs all 0) (λ a p.
      run-Makes Pushes Pushes _ _ (value_of_child-Pushes cs all 1)
        (λ b q. some-Makes Pushes _ (or_Pushes a b p q)))

  pub and_code-Pushes : Makes Pushes (short_code open_and cs)
  unfolding short_code
  and_code-Pushes = run-Makes Pushes Pushes _ _ (value_of_child-Pushes cs all 0) (λ a p.
      run-Makes Pushes Pushes _ _ (value_of_child-Pushes cs all 1)
        (λ b q. some-Makes Pushes _ (and_Pushes a b p q)))

  pub choice_code-Pushes : (as_value : Bool) → Makes Pushes (choice_code as_value cs)
  unfolding choice_code
  choice_code-Pushes as_value = run-Makes Pushes Pushes _ _ (value_of_child-Pushes cs all 0) (λ c r.
      bind-Makes Pushes (child 1 cs) _ (λ a e. bind-Makes Pushes (child 2 cs) _ (λ b h.
        run-Makes Pushes Pushes _ _ (written-Pushes as_value a (all 1 a e).0 (all 1 a e).1) (λ ws p.
          run-Makes Pushes Pushes _ _ (written-Pushes as_value b (all 2 b h).0 (all 2 b h).1)
            (λ vs q. some-Makes Pushes _ (if_Pushes c ws vs r p q))))))

-- There is at least one.
abbrev pub is_some : List Child → Bool
is_some [] = false
is_some (c ∷ cs) = true

pub sequence_code-Pushes :
    (cs : List Child) → AllPush cs → is_some cs ≡ true → Makes Pushes (sequence_code cs)
unfolding sequence_code
sequence_code-Pushes [] all h = absurd (ground (arith, h))
sequence_code-Pushes (c ∷ []) all h = (all 0 c refl).0
sequence_code-Pushes (c ∷ d ∷ cs) all h = run-Makes Pushes Pushes _ _ ((all 0 c refl).0) (λ a p.
    run-Makes Pushes Pushes _ _ (sequence_code-Pushes (d ∷ cs) (λ n x e. all (suc n) x e) refl)
      (λ b q. some-Makes Pushes _ (next_Pushes a b p q)))
