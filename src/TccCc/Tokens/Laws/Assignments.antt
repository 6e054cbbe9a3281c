-- ===== src/TccCc/Tokens/Laws/Assignments.antt =====
-- The branch for operators, on those with one character that may be doubled or assigned.
use mes_replacement.Prelude.{◌≡◌, refl, false, arith, ◌==◌}
use mes_replacement.TccCc.Chars.{CharIterator}
use mes_replacement.TccCc.Tokens.Operators.{operator, minus, plus, doubled, period}
use mes_replacement.TccCc.Tokens.Lexemes.{
  equal_operators, star_operators, slash_operators, percent_operators, caret_operators,
  minus_operators, plus_operators,
}
use mes_replacement.TccCc.Tokens.Laws.Shapes.{lone-Takes, two-Takes, Every}

module _ {S : Type 0} (it : CharIterator S) where
  pub equal-Take : Every it (equal_operators)
  unfolding operator minus plus doubled period
  equal-Take = (
    lone-Takes it b'=' 61 (λ t d (z, e, f) h.
        let no_0 : (it.ch (it.next t.chars) == b'=') ≡ false = ground (arith, f, h) in
        rw (e, z, no_0) refl),
    (two-Takes it b'=' b'=' 501 (λ t x (z, e, f) g h. rw (e, z, f) refl), _),
  )

  pub star-Take : Every it (star_operators)
  unfolding operator minus plus doubled period
  star-Take = (
    lone-Takes it b'*' 42 (λ t d (z, e, f) h.
        let no_0 : (it.ch (it.next t.chars) == b'=') ≡ false = ground (arith, f, h) in
        rw (e, z, no_0) refl),
    (two-Takes it b'*' b'=' 642 (λ t x (z, e, f) g h. rw (e, z, f) refl), _),
  )

  pub slash-Take : Every it (slash_operators)
  unfolding operator minus plus doubled period
  slash-Take = (
    lone-Takes it b'/' 47 (λ t d (z, e, f) h.
        let no_0 : (it.ch (it.next t.chars) == b'=') ≡ false = ground (arith, f, h) in
        rw (e, z, no_0) refl),
    (two-Takes it b'/' b'=' 647 (λ t x (z, e, f) g h. rw (e, z, f) refl), _),
  )

  pub percent-Take : Every it (percent_operators)
  unfolding operator minus plus doubled period
  percent-Take = (
    lone-Takes it b'%' 37 (λ t d (z, e, f) h.
        let no_0 : (it.ch (it.next t.chars) == b'=') ≡ false = ground (arith, f, h) in
        rw (e, z, no_0) refl),
    (two-Takes it b'%' b'=' 637 (λ t x (z, e, f) g h. rw (e, z, f) refl), _),
  )

  pub caret-Take : Every it (caret_operators)
  unfolding operator minus plus doubled period
  caret-Take = (
    lone-Takes it b'^' 94 (λ t d (z, e, f) h.
        let no_0 : (it.ch (it.next t.chars) == b'=') ≡ false = ground (arith, f, h) in
        rw (e, z, no_0) refl),
    (two-Takes it b'^' b'=' 694 (λ t x (z, e, f) g h. rw (e, z, f) refl), _),
  )

  pub minus-Take : Every it (minus_operators)
  unfolding operator minus plus doubled period
  minus-Take = (
    lone-Takes it b'-' 45 (λ t d (z, e, f) h.
        let no_0 : (it.ch (it.next t.chars) == b'-') ≡ false = ground (arith, f, h) in
        let no_1 : (it.ch (it.next t.chars) == b'=') ≡ false = ground (arith, f, h) in
        let no_2 : (it.ch (it.next t.chars) == b'>') ≡ false = ground (arith, f, h) in
        rw (e, z, no_0, no_1, no_2) refl),
    (
      two-Takes it b'-' b'-' 506 (λ t x (z, e, f) g h. rw (e, z, f) refl),
      (
        two-Takes it b'-' b'=' 645 (λ t x (z, e, f) g h. rw (e, z, f) refl),
        (two-Takes it b'-' b'>' 507 (λ t x (z, e, f) g h. rw (e, z, f) refl), _),
      ),
    ),
  )

  pub plus-Take : Every it (plus_operators)
  unfolding operator minus plus doubled period
  plus-Take = (
    lone-Takes it b'+' 43 (λ t d (z, e, f) h.
        let no_0 : (it.ch (it.next t.chars) == b'+') ≡ false = ground (arith, f, h) in
        let no_1 : (it.ch (it.next t.chars) == b'=') ≡ false = ground (arith, f, h) in
        rw (e, z, no_0, no_1) refl),
    (
      two-Takes it b'+' b'+' 505 (λ t x (z, e, f) g h. rw (e, z, f) refl),
      (two-Takes it b'+' b'=' 643 (λ t x (z, e, f) g h. rw (e, z, f) refl), _),
    ),
  )
