-- ===== src/Libc/Strings/Laws.antt =====
-- Laws of the string functions on texts that a NUL ends.
use mes_replacement.Prelude.{
  ℕ, ◌<◌, ◌≡◌, ◌≢◌, refl, ◌↔◌, false, inl, inr, ◌||◌, not, [], ◌∷◌, ◌++◌, some, arith, ◌==◌,
  Bool-cases, length, Bytes,
}
use mathlib.Core.Option.{some-injective}
use mes_replacement.Libc.Strings.{strlen, char_value, difference, strcmp}

-- The characters in front of the NUL.
abbrev pub IsText : Bytes → Type 0
IsText [] = Unit
IsText (c ∷ s) = ((0 < c) × (c < 256)) × IsText s

-- The length is that of the text in front of the NUL.
pub strlen-text : (s rest : Bytes) → IsText s → strlen (s ++ 0 ∷ rest) ≡ some (length s)
unfolding strlen
strlen-text [] rest t = refl
strlen-text (c ∷ s) rest ((live, byte), t) =
    let e : (c == 0) ≡ false = ground arith in rw (e, strlen-text s rest t) refl

pub difference-zero_iff : (a b : ℕ) → a < 256 → b < 256 → (difference a b ≡ 0) ↔ (a ≡ b)
unfolding difference char_value
difference-zero_iff a b h k = (λ e. ground arith, λ e. ground arith)

pub difference-ne_zero : (a b : ℕ) → a < 256 → b < 256 → a ≢ b → difference a b ≢ 0
difference-ne_zero a b h k n e = n ((difference-zero_iff a b h k).0 e)

-- The comparison goes on behind a pair of equal live characters, and ends at any other pair.
pub stop_iff :
    (a b : ℕ)
    → 0 < a
    → a < 256
    → b < 256
    → ((not (difference a b == 0) || a == 0) ≡ false) ↔ (a ≡ b)
stop_iff a b live ha hb =
    let (f, g) = difference-zero_iff a b ha hb in
    (λ e. f (ground arith), λ e. let z = g e in ground arith)

-- Two texts compare as 0 exactly when they are the same.
pub strcmp-zero_iff :
    (s t rest rest' : Bytes)
    → IsText s
    → IsText t
    → (strcmp (s ++ 0 ∷ rest) (t ++ 0 ∷ rest') ≡ some 0) ↔ (s ≡ t)
unfolding strcmp
strcmp-zero_iff [] [] rest rest' p q = unfold difference char_value in (λ e. refl, λ e. refl)
strcmp-zero_iff [] (d ∷ t) rest rest' p ((live, byte), q) =
    let n = difference-ne_zero 0 d (omega arith) byte (λ e. omega arith) in
    (λ h. absurd (n (ground arith)), λ h. cc)
strcmp-zero_iff (c ∷ s) [] rest rest' ((live, byte), p) q =
    let n = difference-ne_zero c 0 byte (omega arith) (λ e. omega arith) in
    (λ h. absurd (n (ground arith)), λ h. cc)
strcmp-zero_iff (c ∷ s) (d ∷ t) rest rest' ((live, byte), p) ((live', byte'), q) =
    elim (Bool-cases (not (difference c d == 0) || c == 0)) [
      | inl e ↦
          let n : difference c d ≢ 0 = λ z. ground arith in
          rw e (
            λ h. absurd (n (some-injective _ _ h)),
            λ h. absurd (n ((difference-zero_iff c d byte byte').1 cc)),
          )
      | inr e ↦
          let same = (stop_iff c d live byte byte').0 e in
          let (f, g) = strcmp-zero_iff s t rest rest' p q in rw e (λ h. cc (same, f h), λ h. g cc)
    ]
