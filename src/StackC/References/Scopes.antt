-- ===== src/StackC/References/Scopes.antt =====
-- The identifiers of a scope: what `oldest` keeps when a block is left.
use mes_replacement.Prelude.{
  ℕ, zero, suc, ◌-◌, ◌≤◌, ◌≡◌, ◌≢◌, ◌++◌, not_Member-nil, ap, sym, subst, ◌∙◌, List, [], ◌∷◌, some,
  inl, inr, arith, length, drop, length-drop, drop-drop, Member, here, there, Bool-cases, same_text,
  same_text_iff, Bytes,
}
use mathlib.Core.Option.{some-injective}
use mes_replacement.StackC.State.{Ident, oldest, find_ident}

pub oldest-cons :
    (n : ℕ) (i : Ident) (idents : List Ident)
    → n ≤ length idents
    → oldest n (i ∷ idents) ≡ oldest n idents
unfolding oldest
oldest-cons n i idents h =
    let e : suc (length idents) - n ≡ suc (length idents - n) = omega arith in rw e

pub oldest-all : (idents : List Ident) → oldest (length idents) idents ≡ idents
unfolding oldest
oldest-all idents = let e : length idents - length idents ≡ 0 = omega arith in rw e

pub length-oldest : (n : ℕ) (idents : List Ident) → n ≤ length idents → length (oldest n idents) ≡ n
unfolding oldest
length-oldest n idents h = omega (arith, length-drop (length idents - n) idents)

pub oldest-oldest :
    (m n : ℕ) (idents : List Ident)
    → m ≤ n
    → n ≤ length idents
    → oldest m (oldest n idents) ≡ oldest m idents
unfolding oldest
oldest-oldest m n idents h k =
    let len = length-drop (length idents - n) idents in
    drop-drop (length (drop (length idents - n) idents) - m) (length idents - n) idents
    ∙ ap (λ at. drop at idents) (omega (arith, len))

Member-drop : (n : ℕ) {i : Ident} (idents : List Ident) → Member i (drop n idents) → Member i idents
Member-drop zero idents m = m
Member-drop (suc n) [] m = m
Member-drop (suc n) (j ∷ idents) m = there (Member-drop n idents m)

pub Member-oldest :
    (n : ℕ) {i : Ident} (idents : List Ident) → Member i (oldest n idents) → Member i idents
unfolding oldest
Member-oldest n idents m = Member-drop (length idents - n) idents m

-- What the search finds is declared, and has the name.
pub find_ident-Member :
    (name : Bytes) (idents : List Ident) {i : Ident}
    → find_ident name idents ≡ some i
    → Member i idents × (i.name ≡ name)
unfolding find_ident
find_ident-Member name [] h = absurd (ground arith)
find_ident-Member name (j ∷ rest) {i} h = elim (Bool-cases (same_text name j.name)) [
  | inl e ↦
      let same : j ≡ i = some-injective _ _ (rw e at h) in
      (
        subst (λ x. Member x (j ∷ rest)) same here,
        ap (λ x. x.name) (sym same) ∙ sym ((same_text_iff name j.name).0 e),
      )
  | inr e ↦ let (m, n) = find_ident-Member name rest (rw e at h) in (there m, n)
]

-- No identifier of the list has the name.
abbrev Unnamed : Bytes → List Ident → Type 0
Unnamed name idents = (j : Ident) → Member j idents → j.name ≢ name

Unnamed-cons :
    (name : Bytes) (j : Ident) (idents : List Ident)
    → j.name ≢ name
    → Unnamed name idents
    → Unnamed name (j ∷ idents)
Unnamed-cons name j idents n others k here = n
Unnamed-cons name j idents n others k (there m) = others k m

-- The search of the code from the newest identifier down finds the innermost declaration: it has the
-- name, and no newer identifier has it.
pub find_ident-innermost :
    (name : Bytes) (idents : List Ident) {i : Ident}
    → find_ident name idents ≡ some i
    → (newer older : List Ident) × (idents ≡ newer ++ (i ∷ older))
      × (i.name ≡ name)
      × ((j : Ident) → Member j newer → j.name ≢ name)
unfolding find_ident
find_ident-innermost name [] h = absurd (ground arith)
find_ident-innermost name (j ∷ rest) {i} h = elim (Bool-cases (same_text name j.name)) [
  | inl e ↦
      let same : j ≡ i = some-injective _ _ (rw e at h) in
      (
        [],
        rest,
        ap (λ x. x ∷ rest) same,
        ap (λ x. x.name) (sym same) ∙ sym ((same_text_iff name j.name).0 e),
        λ k m. absurd (not_Member-nil m),
      )
  | inr e ↦
      let (newer, older, split, named, others) = find_ident-innermost name rest (rw e at h) in
      (
        j ∷ newer,
        older,
        ap (◌∷◌ j) split,
        named,
        Unnamed-cons name j newer (λ f. cc ((same_text_iff name j.name).1 (sym f))) others,
      )
]
