-- ===== src/Prelude/Loop.antt =====
-- `while` on fuel, with the rule that enough fuel lets the loop end by its own test.
use Prim.Native.Nat.{ℕ, zero, suc, ◌<◌}
use mathlib.Core.Bool.{Bool, true, false}
use mathlib.Core.Path.{◌≡◌, refl}
use native.Mathlib.Omega.{arith}

unfoldable pub while_do {ℓ} : {S : Type ℓ} → ℕ → (S → Bool) → (S → S) → S → S
while_do zero test body s = s
while_do (suc fuel) test body s = elim (test s) [
  | true ↦ while_do fuel test body (body s)
  | false ↦ s
]

-- While the test passes, the body keeps `P` and makes the measure smaller.
abbrev pub Keeps {ℓ κ} : {S : Type ℓ} → (S → Type κ) → (S → ℕ) → (S → Bool) → (S → S) → Type (ℓ ⊔ κ)
Keeps {S} P measure test body =
    (s : S) → P s → test s ≡ true → P (body s) × (measure (body s) < measure s)

pub while_do_lem {ℓ κ} :
    {S : Type ℓ} (P : S → Type κ) (measure : S → ℕ) (test : S → Bool) (body : S → S)
    → Keeps P measure test body
    → (fuel : ℕ) (s : S) → measure s < fuel
    → P s
    → P (while_do fuel test body s) × (test (while_do fuel test body s) ≡ false)
unfolding while_do
while_do_lem P measure test body keep zero s m h = absurd (omega arith)
while_do_lem P measure test body keep (suc fuel) s m h =
    ground (arith, keep s h, while_do_lem P measure test body keep fuel (body s))

-- What the body keeps, the loop keeps, however it ends.
pub while_do_keeps {ℓ κ} :
    {S : Type ℓ} (P : S → Type κ) (test : S → Bool) (body : S → S)
    → ((s : S) → P s → P (body s))
    → (fuel : ℕ) (s : S) → P s
    → P (while_do fuel test body s)
unfolding while_do
while_do_keeps P test body keep zero s h = h
while_do_keeps P test body keep (suc fuel) s h =
    ground (arith, keep s h, while_do_keeps P test body keep fuel (body s))

module _ {ℓ} {S : Type ℓ} (test : S → Bool) (body : S → S) where
  pub while_do_go :
      (fuel : ℕ) (s : S)
      → test s ≡ true
      → while_do (suc fuel) test body s ≡ while_do fuel test body (body s)
  unfolding while_do
  while_do_go fuel s h = rw (while_do, h) refl

  pub while_do_stop : (fuel : ℕ) (s : S) → test s ≡ false → while_do fuel test body s ≡ s
  unfolding while_do
  while_do_stop zero s h = refl
  while_do_stop (suc fuel) s h = rw (while_do, h) refl
