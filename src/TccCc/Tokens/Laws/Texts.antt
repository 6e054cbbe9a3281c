-- ===== src/TccCc/Tokens/Laws/Texts.antt =====
-- A text as a list of tokens with white space between them.
use mes_replacement.Prelude.{
  and-left, and-right, ℕ, zero, suc, ◌<◌, ◌≡◌, ◌≢◌, refl, sym, subst, List, [], ◌∷◌, ◌++◌,
  append-nil, Option, none, some, Bool, true, false, not, ◌&&◌, arith, ◌==◌, if◌then◌else◌, length,
  Bytes, Bool-cases, inl, inr, same_text,
}
use mes_replacement.TccCc.Chars.{CharIterator, Yields}
use mes_replacement.TccCc.Chars.Strip.Pieces.{head_of}
use mes_replacement.TccCc.Tokens.{Tokenizer, is_white}
use mes_replacement.TccCc.Tokens.Next.{tokenizer_next}
use mes_replacement.TccCc.Tokens.Scan.{all_of, tokenizer_skip_white_space-text}
use mes_replacement.TccCc.Tokens.Lexemes.{
  Lexeme, word, numeral, symbol, single, quoted, text_literal, operators, is_entry, spelling,
  kind_of_lexeme, text_of, is_lexeme, stops,
}
use mes_replacement.TccCc.Tokens.Laws.Lexing.{tokenizer_next-Reads, visible-live, single-visible}
use mes_replacement.TccCc.Tokens.Kinds.{kind_of, keywords}
use mathlib.Core.Option.{map}

-- Each lexeme with the white space in front of it.
abbrev pub source_text : List (Bytes × Lexeme) → Bytes → Bytes
source_text [] end = end
source_text ((gap, l) ∷ ls) end = gap ++ (spelling l ++ source_text ls end)

-- The white space is white space, and no lexeme runs into what is behind it.
abbrev pub is_source : List (Bytes × Lexeme) → Bytes → Bool
is_source [] end = all_of (is_white true) end
is_source ((gap, l) ∷ ls) end =
    all_of (is_white true) gap
    && (is_lexeme l && (stops l (head_of (source_text ls end)) && is_source ls end))

abbrev pub kinds_and_texts : List (Bytes × Lexeme) → List (ℕ × Bytes)
kinds_and_texts [] = []
kinds_and_texts ((gap, l) ∷ ls) = (kind_of_lexeme l, text_of l) ∷ kinds_and_texts ls

abbrev all_live : List (Bytes × ℕ) → Bool
all_live [] = true
all_live ((cs, k) ∷ table) = not (k == 0) && all_live table

kind_of-live :
    (table : List (Bytes × ℕ)) (other : ℕ) (cs : Bytes)
    → all_live table ≡ true
    → other ≢ 0
    → kind_of table other cs ≢ 0
unfolding kind_of
kind_of-live [] other cs h live = live
kind_of-live ((ds, k) ∷ table) other cs h live =
    let rest = kind_of-live table other cs (ground (arith, h)) live in
    elim (Bool-cases (same_text ds cs)) [
      | inl e ↦ rw e (λ z. ground (arith, h, z))
      | inr e ↦ rw e rest
    ]

is_entry-live :
    (table : List (Bytes × ℕ)) (cs : Bytes) (kind : ℕ)
    → all_live table ≡ true
    → is_entry table cs kind ≡ true
    → kind ≢ 0
is_entry-live [] cs kind h v = absurd (ground (arith, v))
is_entry-live ((ds, k) ∷ table) cs kind h v =
    let rest = is_entry-live table cs kind in
    elim (Bool-cases (same_text ds cs && k == kind)) [
      | inl e ↦ λ z. ground (arith, h, e, z)
      | inr e ↦ rest (ground (arith, h)) (ground (arith, e, v))
    ]

kind-live : (l : Lexeme) → is_lexeme l ≡ true → (kind_of_lexeme l == 0) ≡ false
kind-live (word c cs) v =
    let live = kind_of-live keywords b'i' (c ∷ cs) refl (λ z. ground (arith, z)) in
    ground (arith, live)
kind-live (numeral n x) v = refl
kind-live (symbol cs kind) v =
    let live = is_entry-live operators cs kind refl v in ground (arith, live)
kind-live (single c) v = visible-live c (single-visible c v)
kind-live (quoted i) v = refl
kind-live (text_literal is) v = refl

source-parts :
    (gap : Bytes) (l : Lexeme) (ls : List (Bytes × Lexeme)) (end : Bytes)
    → is_source ((gap, l) ∷ ls) end ≡ true
    → (all_of (is_white true) gap ≡ true)
      × (is_lexeme l ≡ true)
      × (stops l (head_of (source_text ls end)) ≡ true)
      × (is_source ls end ≡ true)
source-parts gap l ls end v =
    let a = and-right (all_of (is_white true) gap) _ v in
    let b = and-right (is_lexeme l) _ a in
    (
      and-left (all_of (is_white true) gap) _ v,
      and-left (is_lexeme l) _ a,
      and-left (stops l (head_of (source_text ls end))) _ b,
      and-right (stops l (head_of (source_text ls end))) _ b,
    )

module _ {S : Type 0} (it : CharIterator S) where
  -- The tokens up to the one of kind 0, at most `fuel` of them.
  unfoldable pub tokens_on : ℕ → Tokenizer S → Option (List (ℕ × Bytes))
  tokens_on zero t = none
  tokens_on (suc fuel) t = elim (tokenizer_next it true t) [
    | none ↦ none
    | some u ↦
        let rest = map (λ ts. (u.kind, u.token) ∷ ts) (tokens_on fuel u) in
        if u.kind == 0 then some [] else rest
  ]

  tokenizer_next-end :
      (t : Tokenizer S) (gap : Bytes)
      → all_of (is_white true) gap ≡ true
      → Yields it t.chars gap
      → (u : Tokenizer S) × (tokenizer_next it true t ≡ some u) × (u.kind ≡ 0)
  unfolding tokenizer_next
  tokenizer_next-end t gap white y =
      let (s, skipped, z) =
        tokenizer_skip_white_space-text it true t gap [] white refl
          (subst (Yields it t.chars) (sym (append-nil gap)) y) in
      (record t { kind = 0; token = []; chars = s }, rw (skipped, z 0) refl, refl)

  -- From a text of tokens with white space between them the tokenizer gives the kinds and the texts of
  -- these tokens, and then the end.
  pub tokens_on-source :
      (ls : List (Bytes × Lexeme)) (end : Bytes) (fuel : ℕ) (t : Tokenizer S)
      → length ls < fuel
      → is_source ls end ≡ true
      → Yields it t.chars (source_text ls end)
      → tokens_on fuel t ≡ some (kinds_and_texts ls)
  unfolding tokens_on
  tokens_on-source ls end zero t h v y = absurd (omega (arith, h))
  tokens_on-source [] end (suc fuel) t h v y =
      let (u, run, kind) = tokenizer_next-end t end v y in rw (tokens_on, run, kind) refl
  tokens_on-source ((gap, l) ∷ ls) end (suc fuel) t h v y =
      let (white, lexeme, stop, more) = source-parts gap l ls end v in
      let (u, run, kind, text, z) =
        tokenizer_next-Reads it true t gap l (source_text ls end) white lexeme stop y in
      let live : (u.kind == 0) ≡ false = rw kind (kind-live l lexeme) in
      let rest = tokens_on-source ls end fuel u (omega (arith, h)) more z in
      rw (tokens_on, run, live, rest, kind, text) refl
