-- ===== src/TccCc/Tokens/Laws/Symbols.antt =====
-- The branch for operators, on each operator of the table.
use mes_replacement.Prelude.{
  ℕ, ◌≡◌, refl, subst, List, [], ◌∷◌, same_text, same_text_iff, true, false, ◌&&◌, inl, inr, arith,
  ◌==◌, Bool-cases, Bytes,
}
use mes_replacement.TccCc.Chars.{CharIterator}
use mes_replacement.TccCc.Tokens.Operators.{operator, minus, plus, doubled, period}
use mes_replacement.TccCc.Tokens.Lexemes.{
  operators, operator_tables, joined_tables, less_operators, greater_operators, bar_operators,
  ampersand_operators, bang_operators, period_operators, is_entry,
}
use mes_replacement.TccCc.Tokens.Laws.Shapes.{
  Takes, lone-Takes, two-Takes, three-Takes, Every, Every-append,
}
use mes_replacement.TccCc.Tokens.Laws.Assignments.{
  equal-Take, star-Take, slash-Take, percent-Take, caret-Take, minus-Take, plus-Take,
}

module _ {S : Type 0} (it : CharIterator S) where
  less-Take : Every it (less_operators)
  unfolding operator minus plus doubled period
  less-Take = (
    lone-Takes it b'<' 60 (λ t d (z, e, f) h.
        let no_0 : (it.ch (it.next t.chars) == b'<') ≡ false = ground (arith, f, h) in
        let no_1 : (it.ch (it.next t.chars) == b'=') ≡ false = ground (arith, f, h) in
        rw (e, z, no_0, no_1) refl),
    (
      two-Takes it b'<' b'<' 860 (λ t x (z, e, f) g h.
          let no_0 : (it.ch (it.next (it.next t.chars)) == b'=') ≡ false = ground (arith, g, h) in
          rw (e, z, f, no_0) refl),
      (
        two-Takes it b'<' b'=' 503 (λ t x (z, e, f) g h. rw (e, z, f) refl),
        (three-Takes it b'<' b'<' b'=' 660 (λ t (z, e, f) g. rw (e, z, f, g) refl), _),
      ),
    ),
  )

  greater-Take : Every it (greater_operators)
  unfolding operator minus plus doubled period
  greater-Take = (
    lone-Takes it b'>' 62 (λ t d (z, e, f) h.
        let no_0 : (it.ch (it.next t.chars) == b'>') ≡ false = ground (arith, f, h) in
        let no_1 : (it.ch (it.next t.chars) == b'=') ≡ false = ground (arith, f, h) in
        rw (e, z, no_0, no_1) refl),
    (
      two-Takes it b'>' b'>' 862 (λ t x (z, e, f) g h.
          let no_0 : (it.ch (it.next (it.next t.chars)) == b'=') ≡ false = ground (arith, g, h) in
          rw (e, z, f, no_0) refl),
      (
        two-Takes it b'>' b'=' 504 (λ t x (z, e, f) g h. rw (e, z, f) refl),
        (three-Takes it b'>' b'>' b'=' 662 (λ t (z, e, f) g. rw (e, z, f, g) refl), _),
      ),
    ),
  )

  bar-Take : Every it (bar_operators)
  unfolding operator minus plus doubled period
  bar-Take = (
    lone-Takes it b'|' 124 (λ t d (z, e, f) h.
        let no_0 : (it.ch (it.next t.chars) == b'|') ≡ false = ground (arith, f, h) in
        let no_1 : (it.ch (it.next t.chars) == b'=') ≡ false = ground (arith, f, h) in
        rw (e, z, no_0, no_1) refl),
    (
      two-Takes it b'|' b'|' 924 (λ t x (z, e, f) g h.
          let no_0 : (it.ch (it.next (it.next t.chars)) == b'=') ≡ false = ground (arith, g, h) in
          rw (e, z, f, no_0) refl),
      (
        two-Takes it b'|' b'=' 724 (λ t x (z, e, f) g h. rw (e, z, f) refl),
        (three-Takes it b'|' b'|' b'=' 724 (λ t (z, e, f) g. rw (e, z, f, g) refl), _),
      ),
    ),
  )

  ampersand-Take : Every it (ampersand_operators)
  unfolding operator minus plus doubled period
  ampersand-Take = (
    lone-Takes it b'&' 38 (λ t d (z, e, f) h.
        let no_0 : (it.ch (it.next t.chars) == b'&') ≡ false = ground (arith, f, h) in
        let no_1 : (it.ch (it.next t.chars) == b'=') ≡ false = ground (arith, f, h) in
        rw (e, z, no_0, no_1) refl),
    (
      two-Takes it b'&' b'&' 838 (λ t x (z, e, f) g h.
          let no_0 : (it.ch (it.next (it.next t.chars)) == b'=') ≡ false = ground (arith, g, h) in
          rw (e, z, f, no_0) refl),
      (
        two-Takes it b'&' b'=' 638 (λ t x (z, e, f) g h. rw (e, z, f) refl),
        (three-Takes it b'&' b'&' b'=' 638 (λ t (z, e, f) g. rw (e, z, f, g) refl), _),
      ),
    ),
  )

  bang-Take : Every it (bang_operators)
  unfolding operator minus plus doubled period
  bang-Take = (
    lone-Takes it b'!' 33 (λ t d (z, e, f) h.
        let no_0 : (it.ch (it.next t.chars) == b'=') ≡ false = ground (arith, f, h) in
        rw (e, z, no_0) refl),
    (two-Takes it b'!' b'=' 502 (λ t x (z, e, f) g h. rw (e, z, f) refl), _),
  )

  period-Take : Every it (period_operators)
  unfolding operator minus plus doubled period
  period-Take = (
    lone-Takes it b'.' 46 (λ t d (z, e, f) h.
        let no_0 : (it.ch (it.next t.chars) == b'.') ≡ false = ground (arith, f, h) in
        rw (e, z, no_0) refl),
    (
      two-Takes it b'.' b'.' 508 (λ t x (z, e, f) g h.
          let no_0 : (it.ch (it.next (it.next t.chars)) == b'.') ≡ false = ground (arith, g, h) in
          rw (e, z, f, no_0) refl),
      (three-Takes it b'.' b'.' b'.' 509 (λ t (z, e, f) g. rw (e, z, f, g) refl), _),
    ),
  )

  abbrev EveryTable : List (List (Bytes × ℕ)) → Type 0
  EveryTable [] = Unit
  EveryTable (table ∷ tables) = Every it table × EveryTable tables

  joined_tables-Take :
      (tables : List (List (Bytes × ℕ))) → EveryTable tables → Every it (joined_tables tables)
  joined_tables-Take [] _ = _
  joined_tables-Take (table ∷ tables) (x, y) =
      Every-append it table (joined_tables tables) x (joined_tables-Take tables y)

  operators-Take : Every it operators
  operators-Take = joined_tables-Take operator_tables (
    equal-Take it,
    (
      star-Take it,
      (
        slash-Take it,
        (
          percent-Take it,
          (
            caret-Take it,
            (
              minus-Take it,
              (
                plus-Take it,
                (
                  less-Take,
                  (greater-Take, (bar-Take, (ampersand-Take, (bang-Take, (period-Take, _))))),
                ),
              ),
            ),
          ),
        ),
      ),
    ),
  )

  is_entry-Takes :
      (table : List (Bytes × ℕ)) (cs : Bytes) (kind : ℕ)
      → Every it table
      → is_entry table cs kind ≡ true
      → Takes it cs kind
  is_entry-Takes [] cs kind every h = absurd (ground (arith, h))
  is_entry-Takes ((ds, k) ∷ table) cs kind (t, every) h =
      elim (Bool-cases (same_text ds cs && k == kind)) [
        | inl e ↦
            let same : ds ≡ cs = (same_text_iff ds cs).0 (ground (arith, e)) in
            let kinds : k ≡ kind = ground (arith, e) in
            subst (λ p. Takes it p kind) same (subst (λ n. Takes it ds n) kinds t)
        | inr other ↦ is_entry-Takes table cs kind every (ground (arith, other, h))
      ]

  pub symbol-Takes : (cs : Bytes) (kind : ℕ) → is_entry operators cs kind ≡ true → Takes it cs kind
  symbol-Takes cs kind h = is_entry-Takes operators cs kind operators-Take h
