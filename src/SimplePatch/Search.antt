-- ===== src/SimplePatch/Search.antt =====
-- `memsame` and the prefixes of a buffer.
use mes_replacement.Prelude.{◌≡◌, refl, ◌↔◌, true, [], ◌∷◌, ◌++◌, arith, length-append, Bytes}
use mes_replacement.SimplePatch.{same_from, memsame}

same_from-append : (p rest : Bytes) → same_from (p ++ rest) p ≡ true
unfolding same_from
same_from-append [] rest = refl
same_from-append (x ∷ p) rest = ground (arith, same_from-append p rest)

same_from-IsPrefix : (s p : Bytes) → same_from s p ≡ true → (rest : Bytes) × (s ≡ p ++ rest)
unfolding same_from
same_from-IsPrefix s [] h = (s, refl)
same_from-IsPrefix [] (x ∷ p) h = absurd (ground arith)
same_from-IsPrefix (c ∷ s) (x ∷ p) h =
    let (rest, e) = same_from-IsPrefix s p (ground arith) in (rest, ground arith)

-- `memsame` answers TRUE exactly when the buffer begins with the pattern.
pub memsame_iff : (s p : Bytes) → (memsame s p ≡ true) ↔ ((rest : Bytes) × (s ≡ p ++ rest))
unfolding memsame
memsame_iff s p = (
  λ h. same_from-IsPrefix s p (ground arith),
  λ (rest, e). rw e (ground (arith, length-append p rest, same_from-append p rest)),
)
