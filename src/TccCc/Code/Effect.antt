-- ===== src/TccCc/Code/Effect.antt =====
-- What words do to the number of values on the stack. The values below those that a word takes stay as
-- they are: from an empty stack on, a word that takes more than there is has no effect.
use mes_replacement.Prelude.{
  ℕ, zero, suc, ◌-◌, ◌≡◌, refl, ap, subst, ◌∙◌, List, [], ◌∷◌, ◌++◌, Option, none, some, Bool, true,
  false, ◌==◌, leb, if◌then◌else◌, inl, inr, Option-cases, arith,
}
use mes_replacement.TccCc.Code.{
  ◌>>=◌, Word, push_name, push_number, push_string, push_mask, push_member, arrow_member, fetch,
  store, one, two, copy, exchange, ignore, call, open_or, open_and, open_if, otherwise, open_block,
  close, local_from, local_array,
}

-- An open bracket: a block, the operand of `||` or `&&` over the values below, the branches of an `if`.
pub data Frame : Type 0 where
  block : Frame
  operand : ℕ → Frame
  first_branch : ℕ → Frame
  last_branch : ℕ → Frame

abbrev pub State : Type 0
State = ℕ × List Frame

abbrev pushes : State → Option State
pushes (d, fs) = some (suc d, fs)

abbrev keeps : State → Option State
keeps (zero, fs) = none
keeps (suc d, fs) = some (suc d, fs)

abbrev joins : State → Option State
joins (zero, fs) = none
joins (suc zero, fs) = none
joins (suc (suc d), fs) = some (suc d, fs)

abbrev drops : State → Option State
drops (zero, fs) = none
drops (suc d, fs) = some (d, fs)

abbrev copies : State → Option State
copies (zero, fs) = none
copies (suc d, fs) = some (suc (suc d), fs)

abbrev exchanges : State → Option State
exchanges (zero, fs) = none
exchanges (suc zero, fs) = none
exchanges (suc (suc d), fs) = some (suc (suc d), fs)

abbrev opens : (ℕ → Frame) → State → Option State
opens f (zero, fs) = none
opens f (suc d, fs) = some (d, f d ∷ fs)

-- The place of the call and its arguments become the result.
abbrev pub calls : ℕ → State → Option State
calls k (d, fs) = if leb (suc k) d then some (d - k, fs) else none

abbrev switches : State → Option State
switches (d, first_branch b ∷ fs) = some (b, last_branch d ∷ fs)
switches (d, _) = none

-- Both branches leave as many values; the operand of `||` and `&&` leaves one.
abbrev closes : State → Option State
closes (d, []) = none
closes (d, block ∷ fs) = some (d, fs)
closes (d, operand b ∷ fs) = if d == suc b then some (d, fs) else none
closes (d, first_branch b ∷ fs) = none
closes (d, last_branch e ∷ fs) = if d == e then some (d, fs) else none

abbrev pub effect : Word → State → Option State
effect (push_name n) s = pushes s
effect (push_number v) s = pushes s
effect (push_string t) s = pushes s
effect (push_mask m) s = pushes s
effect (push_member nr n) s = pushes s
effect (arrow_member nr n) s = keeps s
effect (fetch n) s = keeps s
effect (store n) s = joins s
effect (one o) s = keeps s
effect (two o) s = joins s
effect copy s = copies s
effect exchange s = exchanges s
effect ignore s = drops s
effect (call k) s = calls k s
effect open_or s = opens operand s
effect open_and s = opens operand s
effect open_if s = opens first_branch s
effect otherwise s = switches s
effect open_block (d, fs) = some (d, block ∷ fs)
effect close s = closes s
effect (local_from n) s = drops s
effect (local_array n) s = some s

unfoldable pub run : List Word → State → Option State
run [] s = some s
run (w ∷ ws) s = effect w s >>= run ws

run-append : (xs ys : List Word) (s : State) → run (xs ++ ys) s ≡ (run xs s >>= run ys)
unfolding run ◌>>=◌
run-append [] ys s = refl
run-append (w ∷ xs) ys s = elim (Option-cases (effect w s)) [
  | inl h ↦ rw h refl
  | inr (t, h) ↦ rw h (run-append xs ys t)
]

pub follow :
    (xs ys : List Word) (s : State) {t : State} {r : Option State}
    → run xs s ≡ some t
    → run ys t ≡ r
    → run (xs ++ ys) s ≡ r
unfolding ◌>>=◌
follow xs ys s h k = run-append xs ys s ∙ rw h k

-- One value more, as many values, and one value in place of two, whatever is below.
abbrev pub Pushes : List Word → Type 0
Pushes ws = (d : ℕ) (fs : List Frame) → run ws (d, fs) ≡ some (suc d, fs)

abbrev pub Keeps : List Word → Type 0
Keeps ws = (d : ℕ) (fs : List Frame) → run ws (suc d, fs) ≡ some (suc d, fs)

abbrev pub Joins : List Word → Type 0
Joins ws = (d : ℕ) (fs : List Frame) → run ws (suc (suc d), fs) ≡ some (suc d, fs)

abbrev pub Keeps2 : List Word → Type 0
Keeps2 ws = (d : ℕ) (fs : List Frame) → run ws (suc (suc d), fs) ≡ some (suc (suc d), fs)

-- What holds of the words, if there are any.
abbrev pub Makes : (List Word → Type 0) → Option (List Word) → Type 0
Makes P o = (ws : List Word) → o ≡ some ws → P ws

pub some-Makes : (P : List Word → Type 0) (vs : List Word) → P vs → Makes P (some vs)
some-Makes P vs p ws e = subst P (ap (λ o. elim o [ none ↦ vs | some w ↦ w ]) e) p

pub if-Makes :
    (P : List Word → Type 0) (b : Bool) (x y : Option (List Word))
    → Makes P x
    → Makes P y
    → Makes P (if b then x else y)
if-Makes P true x y p q = p
if-Makes P false x y p q = q

pub bind-Makes {ℓ} :
    {A : Type ℓ} (P : List Word → Type 0) (m : Option A) (f : A → Option (List Word))
    → ((a : A) → m ≡ some a → Makes P (f a))
    → Makes P (m >>= f)
unfolding ◌>>=◌
bind-Makes P none f k ws e = absurd (ground (arith, e))
bind-Makes P (some a) f k ws e = k a refl ws e

pub run-Makes :
    (Q P : List Word → Type 0) (m : Option (List Word)) (f : List Word → Option (List Word))
    → Makes Q m
    → ((a : List Word) → Q a → Makes P (f a))
    → Makes P (m >>= f)
run-Makes Q P m f q k = bind-Makes P m f (λ a e. k a (q a e))
