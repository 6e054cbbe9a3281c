-- ===== src/Equal/Laws.antt =====
-- What the exit status says of the two files.
use mes_replacement.Prelude.{
  ℕ, zero, suc, ◌<◌, ◌≡◌, refl, ◌≢◌, ◌↔◌, ◌⊎◌, ap, inl, inr, Bool-cases, ==→≡, [], ◌∷◌, Option,
  none, some, arith, length, Bytes, ◌==◌, if◌then◌else◌,
}
use mes_replacement.Equal.{
  Descriptor, opened, refused, fhgetc, same_int, is_end, Status, zero_status, minus_one,
  compare_files,
}

-- The bytes that can still be read.
abbrev pub contents : Descriptor → Bytes
contents (opened bytes) = bytes
contents refused = []

abbrev pub Verdict : Bytes → Bytes → Option Status → Type 0
Verdict a b none = ⊥
Verdict a b (some zero_status) = a ≡ b
Verdict a b (some minus_one) = a ≢ b

Verdict-same : (c : ℕ) (a b : Bytes) (o : Option Status) → Verdict a b o → Verdict (c ∷ a) (c ∷ b) o
Verdict-same c a b (some zero_status) v = ap (◌∷◌ c) v
Verdict-same c a b (some minus_one) v = λ e. v (cc)
Verdict-same c a b none v = v

Verdict-cons :
    (c d : ℕ) (a b : Bytes) (o : Option Status)
    → Verdict a b o
    → Verdict (c ∷ a) (d ∷ b) (if d == c then o else some minus_one)
Verdict-cons c d a b o v = elim (Bool-cases (d == c)) [
  | inl same ↦ rw same (rw (==→≡ d c same) (Verdict-same c a b o v))
  | inr differ ↦ rw differ (λ e. ground arith)
]

compare_files-Verdict :
    (fuel : ℕ) (fh1 fh2 : Descriptor)
    → length (contents fh1) < fuel
    → Verdict (contents fh1) (contents fh2) (compare_files fuel fh1 fh2)
unfolding compare_files fhgetc same_int is_end
compare_files-Verdict zero fh1 fh2 h = absurd (omega arith)
compare_files-Verdict (suc fuel) (opened []) (opened []) h = refl
compare_files-Verdict (suc fuel) (opened []) (opened (c ∷ b)) h = λ e. cc
compare_files-Verdict (suc fuel) (opened []) refused h = refl
compare_files-Verdict (suc fuel) (opened (c ∷ a)) (opened []) h = λ e. cc
compare_files-Verdict (suc fuel) (opened (c ∷ a)) (opened (d ∷ b)) h =
    Verdict-cons c d a b _ (compare_files-Verdict fuel (opened a) (opened b) (omega arith))
compare_files-Verdict (suc fuel) (opened (c ∷ a)) refused h = λ e. cc
compare_files-Verdict (suc fuel) refused (opened []) h = refl
compare_files-Verdict (suc fuel) refused (opened (c ∷ b)) h = λ e. cc
compare_files-Verdict (suc fuel) refused refused h = refl

abbrev pub enough : Descriptor → ℕ
enough fh = suc (length (contents fh))

status_of_equal : (a b : Bytes) (o : Option Status) → Verdict a b o → a ≡ b → o ≡ some zero_status
status_of_equal a b none v e = absurd v
status_of_equal a b (some zero_status) v e = refl
status_of_equal a b (some minus_one) v e = absurd (v e)

equal_of_status : (a b : Bytes) (o : Option Status) → Verdict a b o → o ≡ some zero_status → a ≡ b
equal_of_status a b none v e = absurd v
equal_of_status a b (some zero_status) v e = v
equal_of_status a b (some minus_one) v e = cc

-- The loop ends with status 0 exactly when the two descriptors have the same bytes to read, where
-- one that could not be opened has none; the fuel is one more than the first file's length.
pub compare_files-zero_iff :
    (fh1 fh2 : Descriptor)
    → (compare_files (enough fh1) fh1 fh2 ≡ some zero_status) ↔ (contents fh1 ≡ contents fh2)
compare_files-zero_iff fh1 fh2 =
    let v = compare_files-Verdict (enough fh1) fh1 fh2 (omega arith) in
    (equal_of_status _ _ _ v, status_of_equal _ _ _ v)

stops :
    (a b : Bytes) (o : Option Status)
    → Verdict a b o
    → (o ≡ some zero_status) ⊎ (o ≡ some minus_one)
stops a b none v = absurd v
stops a b (some zero_status) v = inl refl
stops a b (some minus_one) v = inr refl

-- The loop ends on any two files, with one of the two statuses.
pub compare_files-stops :
    (fh1 fh2 : Descriptor)
    → (compare_files (enough fh1) fh1 fh2 ≡ some zero_status)
      ⊎ (compare_files (enough fh1) fh1 fh2 ≡ some minus_one)
compare_files-stops fh1 fh2 = stops _ _ _ (compare_files-Verdict (enough fh1) fh1 fh2 (omega arith))
