-- ===== src/TccCc/Tokens/Scan.antt =====
-- The loops of the tokenizer over a stretch of characters.
use mes_replacement.Prelude.{
  ℕ, zero, suc, ◌<◌, ◌≡◌, sym, ap, ◌∙◌, [], ◌∷◌, ◌++◌, append_assoc, append-nil, length-append,
  Bool, true, false, ◌&&◌, arith, while_do, while_do_go, while_do_stop, length, Bytes,
}
use mes_replacement.TccCc.Chars.{CharIterator, Yields}
use mes_replacement.TccCc.Chars.Strip.Laws.{Yields-head, Yields-left}
use mes_replacement.TccCc.Chars.Strip.Pieces.{head_of}
use mes_replacement.TccCc.Tokens.{
  Tokenizer, pass, put, put_while, is_white, tokenizer_skip_white_space,
}

abbrev pub all_of : (ℕ → Bool) → Bytes → Bool
all_of test [] = true
all_of test (c ∷ cs) = test c && all_of test cs

module _ {S : Type 0} (it : CharIterator S) where
  put_while-on :
      (test : ℕ → Bool) (fuel : ℕ) (t : Tokenizer S) (w rest : Bytes)
      → length w < fuel
      → all_of test w ≡ true
      → test (head_of rest) ≡ false
      → Yields it t.chars (w ++ rest)
      → (s : S) × (while_do fuel (λ u. test (it.ch u.chars)) (put it) t
          ≡ record t { token = t.token ++ w; chars = s })
        × Yields it s rest
  put_while-on test zero t w rest h v stop y = absurd (omega arith)
  put_while-on test (suc fuel) t [] rest h v stop y =
      let e : test (it.ch t.chars) ≡ false = rw (Yields-head it t.chars rest y) stop in
      (
        t.chars,
        while_do_stop (λ u. test (it.ch u.chars)) (put it) (suc fuel) t e
            ∙ ap (λ w. record t { token = w }) (sym (append-nil t.token)),
        y,
      )
  put_while-on test (suc fuel) t (c ∷ w) rest h v stop (e, live, bound, y) =
      let go : test (it.ch t.chars) ≡ true = rw e (ground (arith, v)) in
      let (s, run, z) =
        put_while-on test fuel (put it t) w rest (omega arith) (ground (arith, v)) stop y in
      let grown : (t.token ++ it.ch t.chars ∷ []) ++ w ≡ t.token ++ c ∷ w =
        append_assoc t.token (it.ch t.chars ∷ []) w ∙ ap (λ d. t.token ++ d ∷ w) e in
      (
        s,
        while_do_go (λ u. test (it.ch u.chars)) (put it) fuel t go
            ∙ run
            ∙ ap (λ w. record t { token = w; chars = s }) grown,
        z,
      )

  -- The loop keeps the longest stretch on which the test passes.
  pub put_while-text :
      (test : ℕ → Bool) (t : Tokenizer S) (w rest : Bytes)
      → all_of test w ≡ true
      → test (head_of rest) ≡ false
      → Yields it t.chars (w ++ rest)
      → (s : S) × (put_while it test t ≡ record t { token = t.token ++ w; chars = s })
        × Yields it s rest
  put_while-text test t w rest v stop y =
      put_while-on test (suc (it.left t.chars)) t w rest
        (omega (arith, Yields-left it t.chars (w ++ rest) y, length-append w rest)) v stop y

  skip-on :
      (skip_nl : Bool) (fuel : ℕ) (t : Tokenizer S) (gap rest : Bytes)
      → length gap < fuel
      → all_of (is_white skip_nl) gap ≡ true
      → is_white skip_nl (head_of rest) ≡ false
      → Yields it t.chars (gap ++ rest)
      → (s : S) × (while_do fuel (λ u. is_white skip_nl (it.ch u.chars)) (pass it) t
          ≡ record t { chars = s })
        × Yields it s rest
  skip-on nl zero t gap rest h v stop y = absurd (omega arith)
  skip-on nl (suc fuel) t [] rest h v stop y =
      let e : is_white nl (it.ch t.chars) ≡ false = rw (Yields-head it t.chars rest y) stop in
      (t.chars, while_do_stop (λ u. is_white nl (it.ch u.chars)) (pass it) (suc fuel) t e, y)
  skip-on nl (suc fuel) t (c ∷ gap) rest h v stop (e, live, bound, y) =
      let go : is_white nl (it.ch t.chars) ≡ true = rw e (ground (arith, v)) in
      let (s, run, z) =
        skip-on nl fuel (pass it t) gap rest (omega arith) (ground (arith, v)) stop y in
      (s, while_do_go (λ u. is_white nl (it.ch u.chars)) (pass it) fuel t go ∙ run, z)

  pub tokenizer_skip_white_space-text :
      (skip_nl : Bool) (t : Tokenizer S) (gap rest : Bytes)
      → all_of (is_white skip_nl) gap ≡ true
      → is_white skip_nl (head_of rest) ≡ false
      → Yields it t.chars (gap ++ rest)
      → (s : S) × (tokenizer_skip_white_space it skip_nl t ≡ record t { chars = s })
        × Yields it s rest
  unfolding tokenizer_skip_white_space
  tokenizer_skip_white_space-text nl t gap rest v stop y =
      skip-on nl (suc (it.left t.chars)) t gap rest
        (omega (arith, Yields-left it t.chars (gap ++ rest) y, length-append gap rest)) v stop y
