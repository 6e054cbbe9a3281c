-- ===== src/SimplePatch/Replace.antt =====
-- What the whole search returns.
use mes_replacement.Prelude.{
  ℕ, ◌+◌, ◌-◌, ◌^◌, ◌≤◌, ◌<◌, ◌≡◌, refl, ap, sym, ◌∙◌, subst, ◌≢◌, true, false, [], ◌∷◌, ◌++◌,
  arith, length, length-append, length-replicate, append_assoc, Bytes, Bool-cases, Option-cases,
  inl, inr,
}
use mes_replacement.SimplePatch.{
  memsame, as_int, patch_file_after_size, Outcome, done, die, fault, splice, search_from,
  patch_buffer_or_die, patch,
}
use mes_replacement.SimplePatch.Search.{memsame_iff}
use mes_replacement.SimplePatch.Copies.{zeros, splice-zeros}
use mes_replacement.SimplePatch.Sizes.{
  as_int-value, as_int-small, patch_file_after_size-small, search_from-room,
}

-- `out` is `file` with its first occurrence of `before` replaced by `after`.
pub record Replaces (file before after out : Bytes) : Type 0 where
  pub pre : Bytes
  pub rest : Bytes
  pub found : file ≡ pre ++ (before ++ rest)
  pub written : out ≡ pre ++ (after ++ rest)
  pub first : (pre' rest' : Bytes) → file ≡ pre' ++ (before ++ rest') → length pre ≤ length pre'

-- `pos` is where `file` goes on after `pre`, and no occurrence begins inside `pre`.
record At (file before pre pos : Bytes) : Type 0 where
  splits : file ≡ pre ++ pos
  first : (pre' rest' : Bytes) → file ≡ pre' ++ (before ++ rest') → length pre ≤ length pre'

-- Two cuts of one list: the one no later than the other leaves the longer rest.
cut_later :
    (p q : Bytes) {a b : Bytes}
    → p ++ a ≡ q ++ b
    → length p ≤ length q
    → (mid : Bytes) × (a ≡ mid ++ b) × (length q ≡ length p + length mid)
cut_later [] q e h = (q, e, omega arith)
cut_later (x ∷ p) [] e h = absurd (omega arith)
cut_later (x ∷ p) (y ∷ q) e h =
    let (mid, e', l) = cut_later p q (cc) (omega arith) in (mid, e', omega arith)

gap_pos :
    (s before mid rest : Bytes)
    → memsame s before ≡ false
    → s ≡ mid ++ (before ++ rest)
    → 0 < length mid
gap_pos s before [] rest m e = cc ((memsame_iff s before).1 (rest, e))
gap_pos s before (x ∷ mid) rest m e = omega arith

-- Where the pattern does not stand at `pos`, no occurrence begins before the next byte either.
At-next :
    (file before pre pos : Bytes) (c : ℕ)
    → At file before pre (c ∷ pos)
    → memsame (c ∷ pos) before ≡ false
    → At file before (pre ++ c ∷ []) pos
At-next file before pre pos c h m = record {
  splits = h.splits ∙ sym (append_assoc pre (c ∷ []) pos);
  first = λ pre' rest' e.
      let (mid, e', l) = cut_later pre pre' (sym h.splits ∙ e) (h.first pre' rest' e) in
      omega (arith, gap_pos (c ∷ pos) before mid rest' m e', length-append {0} pre (c ∷ []));
}

-- The outcome of the search: a replacement, or `exit(1)` with no occurrence that begins in `pos`.
abbrev Finds : Bytes → Bytes → Bytes → Outcome Bytes → Type 0
Finds file before after (done out) = Replaces file before after out
Finds file before after die =
    (pre rest : Bytes) → file ≡ pre ++ (before ++ rest) → length file ≤ length pre
Finds file before after fault = ⊥

splice-Finds :
    (file before after pre pos : Bytes)
    → At file before pre pos
    → memsame pos before ≡ true
    → Finds file before after
        (splice file before after (length pre) (zeros (length file + length after - length before)))
splice-Finds file before after pre pos h m =
    let (rest, e) = (memsame_iff pos before).0 m in
    let cut : file ≡ pre ++ (before ++ rest) = h.splits ∙ ap (◌++◌ pre) e in
    let size : length file + length after - length before
        ≡ length pre + (length after + length rest) =
      omega (
        arith,
        ap length cut,
        length-append {0} pre (before ++ rest),
        length-append {0} before rest,
      ) in
    let run : splice file before after (length pre)
          (zeros (length file + length after - length before))
        ≡ done (pre ++ (after ++ rest)) =
      ap
        (λ f.
          splice f before after (length pre) (zeros (length file + length after - length before)))
        cut
      ∙ splice-zeros pre before after rest _ size in
    rw run (record { pre = pre; rest = rest; found = cut; written = refl; first = h.first })

search_from-Finds :
    (file before after pre pos : Bytes)
    → At file before pre pos
    → Finds file before after (
        search_from file before after
          (length pre)
          (zeros (length file + length after - length before))
          pos)
unfolding search_from
search_from-Finds file before after pre [] h = λ pre' rest' e.
    omega (arith, h.first pre' rest' e, ap length h.splits, length-append {0} pre [])
search_from-Finds file before after pre (c ∷ pos) h = elim (Bool-cases (memsame (c ∷ pos) before)) [
  | inl hit ↦ rw hit (splice-Finds file before after pre (c ∷ pos) h hit)
  | inr miss ↦ rw miss (
      subst
        (λ n. Finds file before after (
          search_from file before after n (zeros (length file + length after - length before)) pos))
        (length-append {0} pre (c ∷ []))
        (search_from-Finds file before after (pre ++ c ∷ []) pos
          (At-next file before pre pos c h miss)))
]

patch_buffer_or_die-Finds :
    (file before after : Bytes)
    → Finds file before after
        (patch_buffer_or_die file before after (zeros (length file + length after - length before)))
unfolding patch_buffer_or_die
patch_buffer_or_die-Finds file before after =
    search_from-Finds file before after [] file
      (record { splits = refl; first = λ pre rest e. omega arith })

patch-Finds :
    (file before after : Bytes)
    → length before ≤ length file + length after
    → length file + length after - length before < 2 ^ 31
    → Finds file before after (patch file before after)
unfolding patch
patch-Finds file before after room small =
    let size = patch_file_after_size-small file before after room small in
    let fits =
      as_int-small (patch_file_after_size file before after) (omega (arith, size, small)) in
    rw (patch, fits, size) (patch_buffer_or_die-Finds file before after)

-- A patch that succeeds has a buffer of the size that it needs.
patch-buffer :
    (file before after : Bytes) {out : Bytes}
    → patch file before after ≡ done out
    → patch_buffer_or_die file before after (zeros (length file + length after - length before))
      ≡ done out
unfolding patch patch_buffer_or_die
patch-buffer file before after {out} e =
    let number = patch_file_after_size file before after in
    elim (Option-cases (as_int number)) [
      | inl negative ↦ absurd (ground (arith, negative, e))
      | inr (size, fits) ↦
          let run : patch_buffer_or_die file before after (zeros size) ≡ done out =
            ground (arith, fits, e) in
          let room = search_from-room file before after 0 (zeros size) file (omega arith) run in
          let value = as_int-value number fits in
          let exact : size ≡ length file + length after - length before =
            omega (arith, value, room, length-replicate {A = ℕ} size 0) in
          subst (λ n. patch_buffer_or_die file before after (zeros n) ≡ done out) exact run
    ]

-- A patch that succeeds replaces the first occurrence of the pattern, and that alone.
pub patch-Replaces :
    (file before after : Bytes) {out : Bytes}
    → patch file before after ≡ done out
    → Replaces file before after out
patch-Replaces file before after e =
    subst (Finds file before after) (patch-buffer file before after e)
      (patch_buffer_or_die-Finds file before after)

-- The copies stay inside the buffer that `main` allocates, whatever the files hold, where the size of
-- the buffer is not negative and an `int` holds it.
pub patch-ne-fault :
    (file before after : Bytes)
    → length before ≤ length file + length after
    → length file + length after - length before < 2 ^ 31
    → patch file before after ≢ fault
patch-ne-fault file before after room small e =
    subst (Finds file before after) e (patch-Finds file before after room small)

-- A pattern that is in the file at a place before its end is replaced, where an `int` holds the size of
-- the result; the program does not exit.
pub patch-total :
    (file before after pre rest : Bytes)
    → file ≡ pre ++ (before ++ rest)
    → length pre < length file
    → length file + length after - length before < 2 ^ 31
    → (out : Bytes) × (patch file before after ≡ done out)
patch-total file before after pre rest e h small = outcome (patch file before after) refl
  where
    room : length before ≤ length file + length after
    room =
        omega (
          arith,
          ap length e,
          length-append {0} pre (before ++ rest),
          length-append {0} before rest,
        )

    outcome :
        (o : Outcome Bytes)
        → patch file before after ≡ o
        → (out : Bytes) × (patch file before after ≡ done out)
    outcome (done out) q = (out, q)
    outcome die q =
        let missed : Finds file before after die =
          subst (Finds file before after) q (patch-Finds file before after room small) in
        absurd (omega (arith, missed pre rest e))
    outcome fault q = absurd (patch-ne-fault file before after room small q)
