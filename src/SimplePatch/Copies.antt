-- ===== src/SimplePatch/Copies.antt =====
-- The copies into the output buffer.
use mes_replacement.Prelude.{
  ℕ, ◌+◌, ◌-◌, ◌≡◌, refl, ap, ◌∙◌, [], ◌++◌, some, arith, length, replicate, length-append,
  length-replicate, take-length_append, drop-append, drop-length_append, take-of_le, replicate-add,
  append-nil, append_assoc, Bytes,
}
use mes_replacement.SimplePatch.{blit, done, splice}

-- A copy that fits writes its bytes behind those in front of it.
blit-append :
    (p old src tail : Bytes)
    → length old ≡ length src
    → blit (p ++ (old ++ tail)) (length p) src ≡ some (p ++ (src ++ tail))
unfolding blit
blit-append p old src tail e =
    rw
      (
        drop-append p (old ++ tail) (length src),
        take-length_append p (old ++ tail),
        ← e,
        drop-length_append old tail,
      )
      (ground (arith, length-append p (old ++ tail), length-append old tail))

-- The last copy ends where the buffer ends.
blit_last :
    (a b old src : Bytes)
    → length old ≡ length src
    → blit (a ++ (b ++ old)) (length a + length b) src ≡ some (a ++ (b ++ src))
blit_last a b old src e =
    let whole : a ++ (b ++ old) ≡ (a ++ b) ++ (old ++ []) = simp (append-nil, append_assoc) in
    let filled : a ++ (b ++ src) ≡ (a ++ b) ++ (src ++ []) = simp (append-nil, append_assoc) in
    rw (whole, filled, ← length-append a b) (blit-append (a ++ b) old src [] e)

-- The three copies fill the three parts of the buffer, whatever the buffer held.
splice_parts :
    (pre before after rest za zb zc : Bytes)
    → length za ≡ length pre
    → length zb ≡ length after
    → length zc ≡ length rest
    → splice (pre ++ (before ++ rest)) before after (length pre) (za ++ (zb ++ zc))
      ≡ done (pre ++ (after ++ rest))
unfolding splice
splice_parts pre before after rest za zb zc ea eb ec =
    let sizes : length (pre ++ (before ++ rest)) - (length pre + length before) ≡ length rest =
      omega (arith, length-append pre (before ++ rest), length-append before rest) in
    rw
      (
        take-length_append pre (before ++ rest),
        blit-append [] za pre (zb ++ zc) ea,
        blit-append pre zb after zc eb,
        drop-append pre (before ++ rest) (length before),
        drop-length_append before rest,
        sizes,
        take-of_le (length rest) rest (omega arith),
        blit_last pre after zc rest ec,
      )
      refl

abbrev pub zeros : ℕ → Bytes
zeros n = replicate n 0

pub splice-zeros :
    (pre before after rest : Bytes) (size : ℕ)
    → size ≡ length pre + (length after + length rest)
    → splice (pre ++ (before ++ rest)) before after (length pre) (zeros size)
      ≡ done (pre ++ (after ++ rest))
splice-zeros pre before after rest size e =
    let cut : zeros size ≡ zeros (length pre) ++ (zeros (length after) ++ zeros (length rest)) =
      ap zeros e
      ∙ replicate-add {A = ℕ} (length pre) (length after + length rest) 0
      ∙ ap (◌++◌ (zeros (length pre))) (replicate-add {A = ℕ} (length after) (length rest) 0) in
    rw cut (
      splice_parts pre before after rest (zeros (length pre)) (zeros (length after))
        (zeros (length rest)) (length-replicate {A = ℕ} (length pre) 0)
        (length-replicate {A = ℕ} (length after) 0) (length-replicate {A = ℕ} (length rest) 0))
