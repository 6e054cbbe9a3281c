-- ===== src/StackC/Render/Printable.antt =====
-- `save_print_string`, which is written inside a comment of the assembly, byte by byte.
use mes_replacement.Prelude.{
  ℕ, ◌≤◌, ◌<◌, [], ◌∷◌, ◌++◌, inl, inr, arith, ◌==◌, Bool-cases, Bytes, Member, here, there,
  not_Member-nil,
}
use mes_replacement.StackC.Render.{print_safe, save_print_string}

-- From the space to 127.
abbrev pub IsPrintable : ℕ → Type 0
IsPrintable b = (32 ≤ b) × (b < 128)

abbrev AllPrintable : Bytes → Type 0
AllPrintable [] = Unit
AllPrintable (b ∷ s) = IsPrintable b × AllPrintable s

AllPrintable-Member : (s : Bytes) {b : ℕ} → AllPrintable s → Member b s → IsPrintable b
AllPrintable-Member [] _ m = absurd (not_Member-nil m)
AllPrintable-Member (c ∷ s) (p, all) here = p
AllPrintable-Member (c ∷ s) (p, all) (there m) = AllPrintable-Member s all m

print_safe-AllPrintable : (c : ℕ) → AllPrintable (print_safe c)
unfolding print_safe
print_safe-AllPrintable c = ground arith

AllPrintable-append : (a b : Bytes) → AllPrintable a → AllPrintable b → AllPrintable (a ++ b)
AllPrintable-append [] b p q = q
AllPrintable-append (c ∷ a) b (p, ps) q = (p, AllPrintable-append a b ps q)

save_print_string-AllPrintable : (s : Bytes) → AllPrintable (save_print_string s)
unfolding save_print_string
save_print_string-AllPrintable [] = tt
save_print_string-AllPrintable (c ∷ s) = elim (Bool-cases (c == 0)) [
  | inl e ↦ rw e tt
  | inr e ↦ rw e (
      AllPrintable-append (print_safe c) (save_print_string s) (print_safe-AllPrintable c)
        (save_print_string-AllPrintable s))
]

-- Every byte that `save_print_string` writes is from the space, 32, to 127, so it is no line feed: the
-- comment that holds the bytes does not end early.
pub save_print_string-IsPrintable :
    (s : Bytes) (b : ℕ) → Member b (save_print_string s) → (32 ≤ b) × (b < 128)
save_print_string-IsPrintable s b m =
    AllPrintable-Member (save_print_string s) (save_print_string-AllPrintable s) m
