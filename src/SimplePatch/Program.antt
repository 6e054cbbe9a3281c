-- ===== src/SimplePatch/Program.antt =====
-- `read_file_or_die` and `main`. The kernel is a parameter: what `open` finds under a name, and what
-- the single `read` of the whole size returns.
use mes_replacement.Prelude.{
  ℕ, ◌%◌, ◌^◌, ◌<◌, ◌≡◌, refl, ltb, Bool-cases, take, inl, inr, Option, none, some, arith, ◌==◌,
  if◌then◌else◌, length, Bytes, Option-cases,
}
use mes_replacement.SimplePatch.{as_int, Outcome, done, die, fault, patch}
use mes_replacement.SimplePatch.Replace.{Replaces, patch-Replaces}

-- An open file: its bytes, whose number `lseek` reports, and the low 32 bits of what `read` returns when
-- it is asked for as many bytes as `file_size` says; it has put the first bytes of the file into the
-- buffer then.
pub record OpenFile : Type 0 where
  pub bytes : Bytes
  pub num_bytes_read : ℕ

abbrev pub FileSystem : Type 0
FileSystem = Bytes → Option OpenFile

abbrev pub ◌>>=◌ : Outcome Bytes → (Bytes → Outcome Bytes) → Outcome Bytes
◌>>=◌ (done a) f = f a
◌>>=◌ die f = die
◌>>=◌ fault f = fault

infixl 5 ◌>>=◌
-- `file_size` and `num_bytes_read` are `int`s. A negative `file_size` is a huge one to `calloc`, which
-- zeroes memory behind the block.
read_whole : Option OpenFile → Outcome Bytes
read_whole none = die
read_whole (some f) = elim (as_int (length f.bytes)) [
  | none ↦ fault
  | some file_size ↦
      if f.num_bytes_read % 2 ^ 32 == file_size then done (take file_size f.bytes) else die
]

unfoldable pub read_file_or_die : FileSystem → Bytes → Outcome Bytes
unfolding read_whole
read_file_or_die fs file_name = read_whole (fs file_name)

-- The bytes that `main` writes back over the file `argv[1]`, or the way it stops.
unfoldable pub main : FileSystem → Bytes → Bytes → Bytes → Outcome Bytes
main fs argv1 argv2 argv3 = do
  file ← read_file_or_die fs argv1
  before ← read_file_or_die fs argv2
  after ← read_file_or_die fs argv3
  patch file before after

-- The file opens, the low 32 bits of its length are an `int` that is not negative, `read` returns that
-- number, and the content is that many of the first bytes of the file: all of them where an `int` holds
-- the length.
pub record Readable (fs : FileSystem) (name content : Bytes) : Type 0 where
  pub file : OpenFile
  pub opens : fs name ≡ some file
  pub fits : length file.bytes % 2 ^ 32 < 2 ^ 31
  pub whole : file.num_bytes_read % 2 ^ 32 ≡ length file.bytes % 2 ^ 32
  pub content_is : content ≡ take (length file.bytes % 2 ^ 32) file.bytes

read_whole-done :
    (f : OpenFile) {c : Bytes}
    → read_whole (some f) ≡ done c
    → (length f.bytes % 2 ^ 32 < 2 ^ 31)
      × (f.num_bytes_read % 2 ^ 32 ≡ length f.bytes % 2 ^ 32)
      × (c ≡ take (length f.bytes % 2 ^ 32) f.bytes)
unfolding read_whole as_int
read_whole-done f {c} e = elim (Bool-cases (ltb (length f.bytes % 2 ^ 32) (2 ^ 31))) [
  | inl small ↦ elim (Bool-cases (f.num_bytes_read % 2 ^ 32 == length f.bytes % 2 ^ 32)) [
    | inl same ↦
        let read : done (take (length f.bytes % 2 ^ 32) f.bytes) ≡ done c =
          rw (read_whole, as_int, small, same) at e in
        (ground (arith, small), ground (arith, same), cc)
    | inr other ↦ absurd (ground (arith, small, other, e))
  ]
  | inr large ↦ absurd (ground (arith, large, e))
]

read-Readable :
    (fs : FileSystem) (name : Bytes) {c : Bytes}
    → read_file_or_die fs name ≡ done c
    → Readable fs name c
unfolding read_file_or_die
read-Readable fs name {c} e = elim (Option-cases (fs name)) [
  | inl missing ↦ absurd (ground arith)
  | inr (f, found) ↦
      let (fits, whole, content_is) = read_whole-done f (rw found at e) in
      record { file = f; opens = found; fits = fits; whole = whole; content_is = content_is }
]

>>=-done :
    (m : Outcome Bytes) (f : Bytes → Outcome Bytes) {b : Bytes}
    → (m >>= f) ≡ done b
    → (a : Bytes) × (m ≡ done a) × (f a ≡ done b)
>>=-done (done a) f h = (a, refl, h)
>>=-done die f h = cc
>>=-done fault f h = cc

-- What the program writes over its first file comes from the contents of the three files: the first
-- occurrence of the second in the first, and nothing else, has become the third. The content of a file
-- is as many of its first bytes as the low 32 bits of its length say, which are an `int` that is not
-- negative: all its bytes where an `int` holds the length.
pub main-Replaces :
    (fs : FileSystem) (argv1 argv2 argv3 : Bytes) {out : Bytes}
    → main fs argv1 argv2 argv3 ≡ done out
    → (file before after : Bytes) × Readable fs argv1 file
      × Readable fs argv2 before
      × Readable fs argv3 after
      × Replaces file before after out
unfolding main
main-Replaces fs argv1 argv2 argv3 e =
    let (file, r₁, e₁) = >>=-done (read_file_or_die fs argv1) _ e in
    let (before, r₂, e₂) = >>=-done (read_file_or_die fs argv2) _ e₁ in
    let (after, r₃, e₃) = >>=-done (read_file_or_die fs argv3) _ e₂ in
    (
      file,
      before,
      after,
      read-Readable fs argv1 r₁,
      read-Readable fs argv2 r₂,
      read-Readable fs argv3 r₃,
      patch-Replaces file before after e₃,
    )
