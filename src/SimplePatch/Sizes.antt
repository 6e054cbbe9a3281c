-- ===== src/SimplePatch/Sizes.antt =====
-- The size of the output buffer: an `int`, and the room that the copies take.
use mes_replacement.Prelude.{
  ℕ, ◌+◌, ◌-◌, ◌%◌, ◌^◌, ◌≤◌, ◌<◌, ◌≡◌, refl, ap, Option, none, some, true, ltb, leb, arith, [],
  ◌∷◌, ◌++◌, length, length-append, length-drop, take, drop, take-of_le, take-append-drop, ◌∙◌, sym,
  Bytes, Bool-cases, inl, inr,
}
use mathlib.Core.Option.{some-injective}
use mes_replacement.SimplePatch.{
  memsame, blit, as_int, patch_file_after_size, checked, Outcome, done, splice, search_from,
}
use mes_replacement.SimplePatch.Search.{memsame_iff}

pub as_int-value : (n : ℕ) {low : ℕ} → as_int n ≡ some low → low ≡ n % 2 ^ 32
unfolding as_int
as_int-value n {low} e = elim (Bool-cases (ltb (n % 2 ^ 32) (2 ^ 31))) [
  | inl small ↦ ground (arith, small, e)
  | inr large ↦ absurd (ground (arith, large, e))
]

pub as_int-small : (n : ℕ) → n % 2 ^ 32 < 2 ^ 31 → as_int n ≡ some (n % 2 ^ 32)
unfolding as_int
as_int-small n h = let small : ltb (n % 2 ^ 32) (2 ^ 31) ≡ true = ground (arith, h) in rw small refl

-- A size that an `int` holds is computed without a wrap.
pub patch_file_after_size-small :
    (file before after : Bytes)
    → length before ≤ length file + length after
    → length file + length after - length before < 2 ^ 31
    → patch_file_after_size file before after % 2 ^ 32 ≡ length file + length after - length before
patch_file_after_size-small file before after room small = omega (arith, room, small)

length-blit :
    (buffer : Bytes) (at : ℕ) (src : Bytes)
    → at + length src ≤ length buffer
    → length (take at buffer ++ (src ++ drop (at + length src) buffer)) ≡ length buffer
length-blit buffer at src h = omega (
  arith,
  h,
  length-append (take at buffer) (src ++ drop (at + length src) buffer),
  length-append src (drop (at + length src) buffer),
  length-drop (at + length src) buffer,
  length-drop at buffer,
  ap length (take-append-drop at buffer),
  length-append (take at buffer) (drop at buffer),
)

-- What fits into a buffer ends inside it.
blit-room :
    (buffer : Bytes) (at : ℕ) (src : Bytes) {out : Bytes}
    → blit buffer at src ≡ some out
    → (at + length src ≤ length buffer) × (length out ≡ length buffer)
unfolding blit
blit-room buffer at src {out} e = elim (Bool-cases (leb (at + length src) (length buffer))) [
  | inl fits ↦
      let written : some (take at buffer ++ (src ++ drop (at + length src) buffer)) ≡ some out =
        rw fits at e in
      let room : at + length src ≤ length buffer = ground (arith, fits) in
      (room, ap length (sym (some-injective _ _ written)) ∙ length-blit buffer at src room)
  | inr other ↦ absurd (ground (arith, other, e))
]

checked-done :
    (m : Option Bytes) (k : Bytes → Outcome Bytes) {out : Bytes}
    → checked m k ≡ done out
    → (b : Bytes) × (m ≡ some b) × (k b ≡ done out)
checked-done none k e = cc
checked-done (some b) k e = (b, refl, e)

splice-room :
    (file before after : Bytes) (n : ℕ) (buffer : Bytes) {out : Bytes}
    → n + length before ≤ length file
    → splice file before after n buffer ≡ done out
    → length file + length after - length before ≤ length buffer
unfolding splice
splice-room file before after n buffer h e =
    let rest = take (length file - (n + length before)) (drop (n + length before) file) in
    let last : Bytes → Outcome Bytes =
      λ b. checked (blit b (n + length after) rest) (λ c. done c) in
    let (b₁, e₁, k₁) =
      checked-done (blit buffer 0 (take n file)) (λ b. checked (blit b n after) last) e in
    let (b₂, e₂, k₂) = checked-done (blit b₁ n after) last k₁ in
    let (b₃, e₃, k₃) = checked-done (blit b₂ (n + length after) rest) (λ c. done c) k₂ in
    let (r₁, l₁) = blit-room buffer 0 (take n file) e₁ in
    let (r₂, l₂) = blit-room b₁ n after e₂ in
    let (r₃, l₃) = blit-room b₂ (n + length after) rest e₃ in
    let size : length rest ≡ length file - (n + length before) =
      ap length (
        take-of_le (length file - (n + length before)) (drop (n + length before) file)
          (omega (arith, length-drop (n + length before) file)))
      ∙ length-drop (n + length before) file in
    omega (arith, h, l₁, l₂, r₃, size)

-- A search that succeeds has a buffer with room for the whole result.
pub search_from-room :
    (file before after : Bytes) (n : ℕ) (buffer pos : Bytes) {out : Bytes}
    → n + length pos ≡ length file
    → search_from file before after n buffer pos ≡ done out
    → (length before ≤ length file) × (length file + length after - length before ≤ length buffer)
unfolding search_from
search_from-room file before after n buffer [] h e = cc
search_from-room file before after n buffer (c ∷ pos) {out} h e =
    let later = search_from-room file before after (n + 1) buffer pos (omega (arith, h)) in
    elim (Bool-cases (memsame (c ∷ pos) before)) [
      | inl hit ↦
          let (rest, cut) = (memsame_iff (c ∷ pos) before).0 hit in
          let room : n + length before ≤ length file =
            omega (arith, h, ap length cut, length-append {0} before rest) in
          let found : splice file before after n buffer ≡ done out = rw hit at e in
          (omega (arith, room), splice-room file before after n buffer room found)
      | inr miss ↦ later (rw miss at e)
    ]
