-- ===== src/TccCc/Chars/File.antt =====
-- The file iterator: the bytes of a file without its carriage returns, up to the first NUL.
use mes_replacement.Prelude.{
  ℕ, zero, suc, ◌+◌, ◌≤◌, ◌≡◌, ◌≢◌, refl, sym, subst, [], ◌∷◌, Option, none, some, inl, inr, arith,
  ◌==◌, if◌then◌else◌, false, Bool-cases, length, Bytes,
}
use mes_replacement.TccCc.Chars.{Place, CharIterator, Ends, Yields, steps}

-- `file` is what `fgetc` has still to return, or nothing once the file is closed.
pub record FileIterator : Type 0 where
  pub ch : ℕ
  pub place : Place
  pub file : Option Bytes

abbrev next_column : Place → Place
next_column p = record p { column = p.column + 1 }

-- From the `fgetc` on: a carriage return is skipped by a call of the function itself.
unfoldable pub file_read : Bytes → FileIterator → FileIterator
file_read [] it = record it { ch = 0; file = none }
file_read (c ∷ rest) it =
    let read = record it { ch = c; file = some rest } in
    let skipped = file_read rest (record read { place = next_column it.place }) in
    if c == b'\r' then skipped else read

passed_line : FileIterator → FileIterator
passed_line it =
    if it.ch == b'\n'
    then record it { place = record (it.place) { line = it.place.line + 1; column = 0 } }
    else it

file_fgetc : Option Bytes → FileIterator → FileIterator
file_fgetc none it = record it { ch = 0 }
file_fgetc (some rest) it = file_read rest it

unfoldable pub file_iterator_next : FileIterator → FileIterator
unfolding passed_line file_fgetc
file_iterator_next it₀ =
    let it₁ = passed_line it₀ in
    let it = record it₁ { place = next_column it₁.place } in
    if it₀.ch == 0 then it₀ else file_fgetc it.file it

-- `new_file_iterator` on the file that `fopen` found, if any.
unfoldable pub new_file_iterator : Bytes → Option Bytes → FileIterator
new_file_iterator fn f = file_iterator_next (record {
  ch = elim f [ none ↦ 0 | some bytes ↦ b'\n' ];
  place = record { filename = fn; line = 0; column = 0 };
  file = f;
})

abbrev file_left : Option Bytes → ℕ
file_left none = 1
file_left (some rest) = suc (length rest)

abbrev pub file_iterator : CharIterator FileIterator
file_iterator = record {
  ch = λ it. it.ch;
  place = λ it. it.place;
  next = file_iterator_next;
  left = λ it. file_left it.file;
}

-- The characters of a file: no carriage return, and nothing from the first NUL on.
abbrev pub text_of_file : Bytes → Bytes
text_of_file [] = []
text_of_file (c ∷ rest) =
    if c == 0 then [] else if c == b'\r' then text_of_file rest else c ∷ text_of_file rest

next-of_zero : (it : FileIterator) → it.ch ≡ 0 → file_iterator_next it ≡ it
unfolding file_iterator_next
next-of_zero it h = rw h refl

Ends-of_zero : (it : FileIterator) → it.ch ≡ 0 → Ends file_iterator it
Ends-of_zero it h zero = h
Ends-of_zero it h (suc n) =
    subst (λ s. (steps file_iterator n s).ch ≡ 0) (sym (next-of_zero it h)) (Ends-of_zero it h n)

-- Behind a live character the file is read on.
next-read :
    (it : FileIterator) (rest : Bytes)
    → it.ch ≢ 0
    → it.file ≡ some rest
    → (it' : FileIterator) × (file_iterator_next it ≡ file_read rest it')
unfolding file_iterator_next
next-read it rest live f =
    let e : (it.ch == 0) ≡ false = ground arith in
    elim (Bool-cases (it.ch == b'\n')) [
      | inl nl ↦ rw (e, nl, f) (_, refl)
      | inr other ↦ rw (e, other, f) (_, refl)
    ]

length-text_of_file : (bytes : Bytes) → length (text_of_file bytes) ≤ length bytes
length-text_of_file [] = omega arith
length-text_of_file (c ∷ rest) = ground (arith, length-text_of_file rest)

file_read-Yields :
    (bytes : Bytes) (it : FileIterator)
    → Yields file_iterator (file_read bytes it) (text_of_file bytes)
unfolding file_read
file_read-Yields [] it = Ends-of_zero _ refl
file_read-Yields (c ∷ rest) it =
    let read = record it { ch = c; file = some rest } in
    elim (Bool-cases (c == 0)) [
      | inl z ↦
          let e : (c == b'\r') ≡ false = ground arith in
          rw (z, e) (Ends-of_zero read (ground arith))
      | inr live ↦ elim (Bool-cases (c == b'\r')) [
        | inl cr ↦ rw (live, cr) (file_read-Yields rest _)
        | inr other ↦
            let (it', e) = next-read read rest (λ z. ground arith) refl in
            rw (live, other)
              (
                refl,
                (λ z. ground arith),
                omega (arith, length-text_of_file rest),
                subst (λ s. Yields file_iterator s (text_of_file rest)) (sym e)
                    (file_read-Yields rest it'),
              )
      ]
    ]

-- The iterator on a file gives its characters without the carriage returns, up to the first NUL.
pub new_file_iterator-Yields :
    (fn bytes : Bytes)
    → Yields file_iterator (new_file_iterator fn (some bytes)) (text_of_file bytes)
unfolding new_file_iterator
new_file_iterator-Yields fn bytes =
    let start : FileIterator = record {
      ch = b'\n';
      place = record { filename = fn; line = 0; column = 0 };
      file = some bytes;
    } in
    let (it', e) = next-read start bytes (λ z. cc) refl in
    subst (λ s. Yields file_iterator s (text_of_file bytes)) (sym e) (file_read-Yields bytes it')
