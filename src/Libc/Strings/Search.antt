-- ===== src/Libc/Strings/Search.antt =====
-- The search for a text in another, by `strncmp` and `strstr`.
use mes_replacement.Prelude.{
  ℕ, suc, ◌≤◌, ◌≡◌, ◌≢◌, refl, sym, ap, subst, ◌∙◌, ◌↔◌, true, false, inl, inr, ◌||◌, not, [], ◌∷◌,
  ◌++◌, Option, none, some, arith, ◌==◌, if◌then◌else◌, Bool-cases, length, Bytes, append_assoc,
}
use mes_replacement.Libc.Strings.{difference, strncmp, Pointer, null, at, strstr_from, strstr}
use mes_replacement.Libc.Strings.Laws.{
  IsText, strlen-text, difference-zero_iff, difference-ne_zero, stop_iff,
}

abbrev IsPrefix : Bytes → Bytes → Type 0
IsPrefix n h = (post : Bytes) × (h ≡ n ++ post)

-- What the comparison of the first `length n` characters says.
abbrev Compares : Bytes → Bytes → Option ℕ → Type 0
Compares h n none = ⊥
Compares h n (some v) = (v ≡ 0) ↔ IsPrefix n h

strncmp-Compares :
    (h n rest rest' : Bytes)
    → IsText h
    → IsText n
    → Compares h n (strncmp (h ++ 0 ∷ rest) (n ++ 0 ∷ rest') (length n))
unfolding strncmp
strncmp-Compares h [] rest rest' p q = (λ e. (h, refl), λ e. refl)
strncmp-Compares [] (d ∷ n) rest rest' p ((live, byte), q) =
    let z : difference 0 d ≢ 0 = difference-ne_zero 0 d (omega arith) byte (λ e. omega arith) in
    let e : (not (difference 0 d == 0) || true) ≡ true = ground arith in
    rw e (λ h. absurd (z h), λ (post, f). cc)
strncmp-Compares (c ∷ h) (d ∷ n) rest rest' ((live, byte), p) ((live', byte'), q) =
    elim (Bool-cases (not (difference c d == 0) || c == 0)) [
      | inl e ↦
          let z : difference c d ≢ 0 = λ z. ground arith in
          rw e
            (λ h. absurd (z h), λ (post, f). absurd (z ((difference-zero_iff c d byte byte').1 cc)))
      | inr e ↦ rw e (
          Compares-cons c d h n (strncmp (h ++ 0 ∷ rest) (n ++ 0 ∷ rest') (length n))
            ((stop_iff c d live byte byte').0 e) (strncmp-Compares h n rest rest' p q))
    ]
  where
    Compares-cons :
        (c d : ℕ) (h n : Bytes) (o : Option ℕ) → c ≡ d → Compares h n o → Compares (c ∷ h) (d ∷ n) o
    Compares-cons c d h n none same v = v
    Compares-cons c d h n (some v) same (f, g) =
        (λ z. let (post, e) = f z in (post, cc), λ (post, e). g (post, cc))

-- `p` is the memory at the first occurrence of `n` in the text `h`, and null if there is none in
-- front of its end.
abbrev pub Finds : Bytes → Bytes → Bytes → Option Pointer → Type 0
Finds h n rest none = ⊥
Finds h n rest (some null) = (pre post : Bytes) → h ≡ pre ++ (n ++ post) → length h ≤ length pre
Finds h n rest (some (at p)) =
    (pre post : Bytes) × (h ≡ pre ++ (n ++ post))
    × (p ≡ n ++ (post ++ 0 ∷ rest))
    × ((pre' post' : Bytes) → h ≡ pre' ++ (n ++ post') → length pre ≤ length pre')

-- An occurrence that is not at the first character is one in the rest.
in_rest :
    (c : ℕ) (h n pre post : Bytes)
    → ¬ (IsPrefix n (c ∷ h))
    → c ∷ h ≡ pre ++ (n ++ post)
    → (pre' : Bytes) × (length pre ≡ suc (length pre')) × (h ≡ pre' ++ (n ++ post))
in_rest c h n [] post miss e = absurd (miss (post, e))
in_rest c h n (x ∷ pre) post miss e = (pre, refl, cc)

Finds-cons :
    (c : ℕ) (h n rest : Bytes) (o : Option Pointer)
    → ¬ (IsPrefix n (c ∷ h))
    → Finds h n rest o
    → Finds (c ∷ h) n rest o
Finds-cons c h n rest none miss v = v
Finds-cons c h n rest (some null) miss v =
    λ pre post e. let (pre', l, e') = in_rest c h n pre post miss e in omega (arith, v pre' post e')
Finds-cons c h n rest (some (at p)) miss (pre, post, e, m, first) = (
  c ∷ pre,
  post,
  cc,
  m,
  λ before after f.
      let (pre', l, e') = in_rest c h n before after miss f in omega (arith, first pre' after e'),
)

-- The search at one place of the haystack, and `later`, the search behind it.
at_head :
    (c : ℕ) (h n rest : Bytes) (later : Option Pointer) (o : Option ℕ)
    → Finds h n rest later
    → Compares (c ∷ h) n o
    → Finds (c ∷ h) n rest (elim o [
      | none ↦ none
      | some result ↦ if result == 0 then some (at (c ∷ (h ++ 0 ∷ rest))) else later
    ])
at_head c h n rest later none found v = v
at_head c h n rest later (some r) found (f, g) = elim (Bool-cases (r == 0)) [
  | inl z ↦
      let (post, e) = f (ground arith) in
      rw z (
        [],
        post,
        e,
        ap (λ t. t ++ 0 ∷ rest) e ∙ append_assoc n post (0 ∷ rest),
        λ pre' post' e. omega arith,
      )
  | inr nz ↦ rw nz (Finds-cons c h n rest later (λ m. let z = g m in ground arith) found)
]

strstr_from-Finds :
    (h n rest rest' : Bytes)
    → IsText h
    → IsText n
    → Finds h n rest (strstr_from (length n) (h ++ 0 ∷ rest) (n ++ 0 ∷ rest'))
unfolding strstr_from
strstr_from-Finds [] n rest rest' p q = λ pre post e. omega arith
strstr_from-Finds (c ∷ h) n rest rest' ((live, byte), p) q =
    let e : (c == 0) ≡ false = ground arith in
    rw e (
      at_head c h n rest (strstr_from (length n) (h ++ 0 ∷ rest) (n ++ 0 ∷ rest'))
        (strncmp (c ∷ (h ++ 0 ∷ rest)) (n ++ 0 ∷ rest') (length n))
        (strstr_from-Finds h n rest rest' p q)
        (strncmp-Compares (c ∷ h) n rest rest' ((live, byte), p) q))

-- On two texts that end in a NUL, `strstr` reads nothing behind them; it returns the first place
-- where the needle stands, and NULL only if it stands nowhere in front of the end.
pub strstr-Finds :
    (h n rest rest' : Bytes)
    → IsText h
    → IsText n
    → Finds h n rest (strstr (h ++ 0 ∷ rest) (n ++ 0 ∷ rest'))
unfolding strstr
strstr-Finds h n rest rest' p q =
    subst
      (λ o.
        Finds h n rest
          (elim o [ none ↦ none | some k ↦ strstr_from k (h ++ 0 ∷ rest) (n ++ 0 ∷ rest') ]))
      (sym (strlen-text n rest' q)) (strstr_from-Finds h n rest rest' p q)
