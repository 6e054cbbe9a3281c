-- ===== src/TccCc/Code/Laws/Steps.antt =====
-- What the words behind assignments and of `++` and `--` do to the stack.
use mes_replacement.Prelude.{
  ℕ, zero, suc, ◌+◌, ◌-◌, ◌≡◌, refl, List, [], ◌∷◌, ◌++◌, Option, some, Bool, true, false, ◌==◌,
  ◌||◌, ltb, if◌then◌else◌, inl, inr, Bool-cases, Bytes,
}
use mes_replacement.TccCc.Types.{CType, Target, size_of}
use mes_replacement.TccCc.Tokens.Kinds.{tk_ass}
use mes_replacement.TccCc.Code.{◌>>=◌, Word, push_number, store, two}
use mes_replacement.TccCc.Code.Operands.{size_ind, gen_canonical_cast, inc_dec_value, get_value}
use mes_replacement.TccCc.Code.Operators.{assign_words, step_words, move_words, copy_words}
use mes_replacement.TccCc.Code.Effect.{
  Frame, run, follow, Keeps, Joins, Makes, some-Makes, if-Makes, bind-Makes, run-Makes,
}
use mes_replacement.TccCc.Code.Laws.Operands.{
  get_value-Keeps, gen_canonical_cast-Keeps, if_cast-Keeps, scale-Keeps,
}

-- One value in place of three.
abbrev pub JoinsThree : List Word → Type 0
JoinsThree ws = (d : ℕ) (fs : List Frame) → run ws (suc (suc (suc d)), fs) ≡ some (suc d, fs)

assigned :
    (g : Target) (type : Option CType) (scaled : List Word) (o : Bytes) (b : Bool)
    → Keeps scaled
    → JoinsThree (
        scaled
        ++ (two o
            ∷ ((if b then gen_canonical_cast g type else []) ++ (store (size_ind g type) ∷ []))))
unfolding run ◌>>=◌
assigned g type scaled o b k d fs =
    follow scaled _ (suc (suc (suc d)), fs) (k (suc (suc d)) fs)
      (follow (if b then gen_canonical_cast g type else []) _ (suc (suc d), fs)
        (if_cast-Keeps b g type (suc d) fs) refl)

pub assign_words-Joins :
    (g : Target) (kind : ℕ) (type l r : Option CType)
    → Makes JoinsThree (assign_words g kind type l r)
unfolding assign_words run
assign_words-Joins g kind type l r =
    run-Makes Keeps JoinsThree _ _
      (if-Makes Keeps (kind - tk_ass == b'+' || kind - tk_ass == b'-') _ _
        (bind-Makes Keeps (inc_dec_value g l) _ (λ n e. some-Makes Keeps _ (scale-Keeps n)))
        (some-Makes Keeps _ (λ d fs. refl)))
      (λ ws k. some-Makes JoinsThree _ (assigned g type ws _ _ k))

taken_back :
    (g : Target) (type : Option CType) (n : ℕ) (back : Bytes) (after : Bool)
    → Keeps (if after then push_number n ∷ two back ∷ gen_canonical_cast g type else [])
unfolding run ◌>>=◌
taken_back g type n back true d fs = gen_canonical_cast-Keeps g type d fs
taken_back g type n back false d fs = refl

pub step_words-Keeps :
    (g : Target) (change back : Bytes) (after : Bool) (type operand : Option CType)
    → Makes Keeps (step_words g change back after type operand)
unfolding step_words run ◌>>=◌
step_words-Keeps g change back after type operand =
    bind-Makes Keeps (inc_dec_value g operand) _ (λ n e. some-Makes Keeps _ (λ d fs.
      follow (get_value g type) _ (suc (suc d), fs) (get_value-Keeps g type (suc d) fs)
        (follow (gen_canonical_cast g type) _ (suc (suc d), fs)
          (gen_canonical_cast-Keeps g type (suc d) fs) (taken_back g type n back after d fs))))

move_words-idle :
    (n step i size : ℕ) (d : ℕ) (fs : List Frame)
    → run (move_words n step i size) (d, fs) ≡ some (d, fs)
unfolding move_words run ◌>>=◌
move_words-idle zero step i size d fs = refl
move_words-idle (suc n) step i size d fs = elim (Bool-cases (ltb i size)) [
  | inl e ↦ rw e (move_words-idle n step (i + step) size d fs)
  | inr e ↦ rw e refl
]

pub copy_words-Joins : (g : Target) (t : CType) → Joins (copy_words g t)
unfolding copy_words run ◌>>=◌
copy_words-Joins g t d fs =
    follow (move_words (size_of g t) g.long_long_size g.long_long_size (size_of g t)) _ (d, _)
      (move_words-idle (size_of g t) g.long_long_size g.long_long_size (size_of g t) d _) refl
