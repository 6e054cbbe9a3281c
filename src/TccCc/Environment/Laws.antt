-- ===== src/TccCc/Environment/Laws.antt =====
-- Laws of the environment as a map from names to macros.
use mes_replacement.Prelude.{
  ◌≡◌, refl, sym, ap, subst, ◌∙◌, List, [], ◌∷◌, none, Bool, true, false, not, ◌&&◌, inl, inr,
  Bool-cases, arith, if◌then◌else◌, same_text, same_text_iff, Bytes,
}
use mes_replacement.TccCc.Environment.{Macro, get_env, find_env, del_env}

abbrev pub mentions : List Macro → Bytes → Bool
mentions [] n = false
mentions (m ∷ ms) n = if same_text m.name n then true else mentions ms n

-- No name has two macros.
abbrev pub are_distinct : List Macro → Bool
are_distinct [] = true
are_distinct (m ∷ ms) = not (mentions ms m.name) && are_distinct ms

same_text-same : (a b : Bytes) → same_text a b ≡ true → a ≡ b
same_text-same a b h = (same_text_iff a b).0 h

same_text_refl : (a : Bytes) → same_text a a ≡ true
same_text_refl a = (same_text_iff a a).1 refl

-- A look without `create` changes nothing.
find_env-keeps : (ms : List Macro) (n : Bytes) → (get_env ms n false).1 ≡ ms
unfolding get_env
find_env-keeps [] n = refl
find_env-keeps (m ∷ ms) n = elim (Bool-cases (same_text m.name n)) [
  | inl e ↦ rw e refl
  | inr e ↦ rw e (ap (λ r. m ∷ r) (find_env-keeps ms n))
]

find_env-absent : (ms : List Macro) (n : Bytes) → mentions ms n ≡ false → find_env ms n ≡ none
unfolding get_env
find_env-absent [] n h = refl
find_env-absent (m ∷ ms) n h = elim (Bool-cases (same_text m.name n)) [
  | inl e ↦ absurd (ground (arith, e, h))
  | inr e ↦ rw (find_env, e) (find_env-absent ms n (ground (arith, e, h)))
]

find_env-created :
    (ms : List Macro) (n : Bytes) → find_env ((get_env ms n true).1) n ≡ (get_env ms n true).0
unfolding get_env
find_env-created [] n = rw (same_text_refl n) refl
find_env-created (m ∷ ms) n = elim (Bool-cases (same_text m.name n)) [
  | inl e ↦ rw (e, find_env, e) refl
  | inr e ↦ rw (e, find_env, e) (find_env-created ms n)
]

find_env-other :
    (ms : List Macro) (n k : Bytes)
    → same_text n k ≡ false
    → find_env ((get_env ms n true).1) k ≡ find_env ms k
unfolding get_env
find_env-other [] n k h = rw h refl
find_env-other (m ∷ ms) n k h = elim (Bool-cases (same_text m.name n)) [
  | inl e ↦ rw e refl
  | inr e ↦ elim (Bool-cases (same_text m.name k)) [
    | inl f ↦ rw (e, find_env, f) refl
    | inr f ↦ rw (e, find_env, f) (find_env-other ms n k h)
  ]
]

get_env-update :
    (ms : List Macro) (n k : Bytes)
    → find_env ((get_env ms n true).1) k
      ≡ (if same_text n k then (get_env ms n true).0 else find_env ms k)
get_env-update ms n k = elim (Bool-cases (same_text n k)) [
  | inl e ↦ rw e (
      subst (λ x. find_env ((get_env ms n true).1) x ≡ (get_env ms n true).0) (same_text-same n k e)
        (find_env-created ms n))
  | inr e ↦ rw e (find_env-other ms n k e)
]

-- Of two macros of one name the first one hides the other.
mentions-of_same :
    (ms : List Macro) (a b : Bytes) → same_text a b ≡ true → mentions ms a ≡ mentions ms b
mentions-of_same ms a b e = ap (mentions ms) (same_text-same a b e)

find_env-deleted :
    (ms : List Macro) (n : Bytes) → are_distinct ms ≡ true → find_env (del_env ms n) n ≡ none
unfolding del_env get_env
find_env-deleted [] n d = refl
find_env-deleted (m ∷ ms) n d = elim (Bool-cases (same_text m.name n)) [
  | inl e ↦ rw e (find_env-absent ms n (sym (mentions-of_same ms m.name n e) ∙ ground (arith, d)))
  | inr e ↦ rw (e, find_env, e) (find_env-deleted ms n (ground (arith, d)))
]

find_env-kept :
    (ms : List Macro) (n k : Bytes)
    → same_text n k ≡ false
    → find_env (del_env ms n) k ≡ find_env ms k
unfolding del_env get_env
find_env-kept [] n k h = refl
find_env-kept (m ∷ ms) n k h = elim (Bool-cases (same_text m.name n)) [
  | inl e ↦
      let other : same_text m.name k ≡ false = rw (same_text-same m.name n e) h in
      rw (e, find_env, other) refl
  | inr e ↦ elim (Bool-cases (same_text m.name k)) [
    | inl f ↦ rw (e, find_env, f) refl
    | inr f ↦ rw (e, find_env, f) (find_env-kept ms n k h)
  ]
]

del_env-update :
    (ms : List Macro) (n k : Bytes)
    → are_distinct ms ≡ true
    → find_env (del_env ms n) k ≡ (if same_text n k then none else find_env ms k)
del_env-update ms n k d = elim (Bool-cases (same_text n k)) [
  | inl e ↦ rw e (
      subst (λ x. find_env (del_env ms n) x ≡ none) (same_text-same n k e)
        (find_env-deleted ms n d))
  | inr e ↦ rw e (find_env-kept ms n k e)
]

-- In an environment without two macros of one name: after a look with `create`, the name has the macro
-- that is returned; after a deletion it has none; in both, every other name has the macro that it had.
pub get_env-del_env-update :
    (ms : List Macro) (n k : Bytes)
    → are_distinct ms ≡ true
    → (find_env ((get_env ms n true).1) k
        ≡ (if same_text n k then (get_env ms n true).0 else find_env ms k))
      × (find_env (del_env ms n) k ≡ (if same_text n k then none else find_env ms k))
get_env-del_env-update ms n k d = (get_env-update ms n k, del_env-update ms n k d)

mentions-created :
    (ms : List Macro) (n k : Bytes)
    → mentions ms k ≡ false
    → same_text n k ≡ false
    → mentions ((get_env ms n true).1) k ≡ false
unfolding get_env
mentions-created [] n k h e = rw e refl
mentions-created (m ∷ ms) n k h e =
    let other : same_text m.name k ≡ false = ground (arith, h) in
    let rest : mentions ms k ≡ false = ground (arith, h) in
    elim (Bool-cases (same_text m.name n)) [
      | inl f ↦ rw (f, other) rest
      | inr f ↦ rw (f, other) (mentions-created ms n k rest e)
    ]

mentions-deleted :
    (ms : List Macro) (n k : Bytes) → mentions ms k ≡ false → mentions (del_env ms n) k ≡ false
unfolding del_env
mentions-deleted [] n k h = refl
mentions-deleted (m ∷ ms) n k h =
    let other : same_text m.name k ≡ false = ground (arith, h) in
    let rest : mentions ms k ≡ false = ground (arith, h) in
    elim (Bool-cases (same_text m.name n)) [
      | inl f ↦ rw f rest
      | inr f ↦ rw (f, other) (mentions-deleted ms n k rest)
    ]

differ_comm : (a b : Bytes) → same_text a b ≡ false → same_text b a ≡ false
differ_comm a b h = elim (Bool-cases (same_text b a)) [
  | inl e ↦
      let same : same_text a b ≡ true = rw (same_text-same b a e) (same_text_refl a) in
      absurd (ground (arith, h, same))
  | inr e ↦ e
]

-- Neither operation gives a name a second macro.
pub get_env-del_env-distinct :
    (ms : List Macro) (n : Bytes)
    → are_distinct ms ≡ true
    → (are_distinct ((get_env ms n true).1) ≡ true) × (are_distinct (del_env ms n) ≡ true)
unfolding get_env del_env
get_env-del_env-distinct [] n d = (refl, refl)
get_env-del_env-distinct (m ∷ ms) n d =
    let new : mentions ms m.name ≡ false = ground (arith, d) in
    let rest : are_distinct ms ≡ true = ground (arith, d) in
    let (made, deleted) = get_env-del_env-distinct ms n rest in
    elim (Bool-cases (same_text m.name n)) [
      | inl f ↦ rw f (d, rest)
      | inr f ↦
          let a = mentions-created ms n m.name new (differ_comm m.name n f) in
          let b = mentions-deleted ms n m.name new in rw (f, a, b) (made, deleted)
    ]
