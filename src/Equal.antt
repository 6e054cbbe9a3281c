-- ===== src/Equal.antt =====
-- src/equal.c: compare two files byte by byte. A descriptor is what is left to read; one that
-- `open` refused is a descriptor on which every `read` fails, and `fhgetc` returns -1 on it too.
pub mod Laws
mod Tests
use mes_replacement.Prelude.{
  ℕ, Bool, true, false, List, [], ◌∷◌, Option, none, some, ◌==◌, if◌then◌else◌, Bytes,
}

-- What `open` gave: the bytes of the file, or a failure.
pub data Descriptor : Type 0 where
  opened : Bytes → Descriptor
  refused : Descriptor

-- -1 is `none`; a `read` that does not return 1 is the end of the file or an error.
pub fhgetc : Descriptor → Option ℕ × Descriptor
fhgetc (opened []) = (none, opened [])
fhgetc (opened (c ∷ rest)) = (some c, opened rest)
fhgetc refused = (none, refused)

same_int : Option ℕ → Option ℕ → Bool
same_int none none = true
same_int (some a) (some b) = a == b
same_int _ _ = false

is_end : Option ℕ → Bool
is_end none = true
is_end (some _) = false

-- The exit status: 0 where the files are equal, -1 where they differ.
pub data Status : Type 0 where
  zero_status : Status
  minus_one : Status

-- The `for (;;)` of `main`; it reads from both descriptors before it compares. `none` means that the
-- fuel ran out.
pub compare_files : ℕ → Descriptor → Descriptor → Option Status
compare_files ℕ.zero fh1 fh2 = none
compare_files (ℕ.suc fuel) fh1 fh2 =
    let (ch, fh1') = fhgetc fh1 in
    let (ch2, fh2') = fhgetc fh2 in
    let again = compare_files fuel fh1' fh2' in
    if same_int ch2 ch then (if is_end ch then some zero_status else again) else some minus_one
