-- ===== src/StackC/Lexer/Silent.antt =====
-- What the branches behind the white space do to the output and the error flag.
use mes_replacement.Prelude.{
  ℕ, zero, suc, ◌≡◌, refl, ◌∙◌, Bool, true, false, arith, if◌then◌else◌, ◌==◌, ltb, while_do_keeps,
  is_ident_char, is_digit, Bool-cases, inl, inr, leb, ◌||◌, length,
}
use mes_replacement.StackC.Scanner.{is_graphic}
use mes_replacement.StackC.Lexer.Base.{Lexer, char_of, read, shift, loop, append_char, remaining}
use mes_replacement.StackC.Lexer.Words.{lex_identifier, classify}
use mes_replacement.StackC.Lexer.Quoted.{unescape, max_token_length, quoted, lex_quoted}
use mes_replacement.StackC.Lexer.Numbers.{
  add_digit, lex_digits, lex_number, lex_dash, lex_number_or_dash,
}
use mes_replacement.StackC.Lexer.Symbols.{lex_symbol}
use mes_replacement.StackC.Lexer.{or_symbol, lex_token, start_token}

-- `k` has written what `l` had written, and keeps an error that was set.
pub record Silent (l k : Lexer) : Type 0 where
  pub same_out : k.out ≡ l.out
  pub keeps_error : l.error ≡ true → k.error ≡ true

silent : (l k : Lexer) → k.out ≡ l.out → (l.error ≡ true → k.error ≡ true) → Silent l k
silent l k e f = record { same_out = e; keeps_error = f }

Silent-refl : (l : Lexer) → Silent l l
Silent-refl l = silent l l refl (λ e. e)

Silent-trans : {l m k : Lexer} → Silent l m → Silent m k → Silent l k
Silent-trans f g = record {
  same_out = g.same_out ∙ f.same_out;
  keeps_error = λ e. g.keeps_error (f.keeps_error e);
}

Silent-if : {l k j : Lexer} (b : Bool) → Silent l k → Silent l j → Silent l (if b then k else j)
Silent-if true f g = f
Silent-if false f g = g

loop-Silent :
    (test : Lexer → Bool) (body : Lexer → Lexer)
    → ((l : Lexer) → Silent l (body l))
    → (l : Lexer) → Silent l (loop test body l)
unfolding loop
loop-Silent test body step l =
    while_do_keeps (Silent l) test body (λ k f. Silent-trans f (step k)) (suc (remaining l)) l
      (Silent-refl l)

collect-Silent : (test : Lexer → Bool) (l : Lexer) → Silent l (loop test shift l)
collect-Silent test = loop-Silent test shift (λ k. silent k (shift k) refl (λ e. e))

classify-Silent : (k : Lexer) → Silent k (classify k)
unfolding classify
classify-Silent k = silent k _ (ground arith) (λ e. ground arith)

lex_identifier-Silent : (l : Lexer) → Silent l (lex_identifier l)
unfolding lex_identifier
lex_identifier-Silent l =
    Silent-trans (silent l (shift l) refl (λ e. e))
      (Silent-trans (collect-Silent (λ k. is_ident_char (char_of k)) (shift l)) (classify-Silent _))

lex_symbol-Silent : (l : Lexer) → Silent l (lex_symbol l)
unfolding lex_symbol
lex_symbol-Silent l = Silent-if (char_of l == b':') (silent l _ refl (λ e. e)) (
    Silent-trans (silent l (shift l) refl (λ e. e)) (
      Silent-trans (collect-Silent (λ k. is_graphic (char_of k)) (shift l))
        (silent _ _ refl (λ e. e))))

unescape-quiet : (l : Lexer) → ((unescape l).out ≡ l.out) × ((unescape l).error ≡ l.error)
unfolding unescape
unescape-quiet l = ground arith

quoted-Silent : (fuel quote : ℕ) (l : Lexer) → Silent l (quoted fuel quote l)
unfolding quoted
quoted-Silent zero quote l = Silent-refl l
quoted-Silent (suc fuel) quote l₀ =
    let l = read l₀ in
    let e = unescape l in
    let q = unescape-quiet l in
    Silent-if (char_of l == 0) (silent l₀ l refl (λ f. f)) (
      Silent-if (char_of l == quote) (silent l₀ (read l) refl (λ f. f)) (
        Silent-if (ltb max_token_length (length l.token)) (silent l₀ _ refl (λ f. refl)) (
          Silent-if (char_of l == b'\\')
            (Silent-trans (silent l₀ (append_char (char_of e) e) q.0 (λ f. q.1 ∙ f))
              (quoted-Silent fuel quote (append_char (char_of e) e)))
            (Silent-trans (silent l₀ (append_char (char_of l) l) refl (λ f. f))
              (quoted-Silent fuel quote (append_char (char_of l) l))))))

lex_quoted-Silent : (l : Lexer) → Silent l (lex_quoted l)
unfolding lex_quoted
lex_quoted-Silent l =
    Silent-trans (silent l (record l { sym = char_of l }) refl (λ e. e))
      (quoted-Silent (suc (length l.scan.fin)) (char_of l) (record l { sym = char_of l }))

digits-Silent :
    (base : ℕ) (test : Lexer → Bool) (l : Lexer) → Silent l (loop test (add_digit base) l)
digits-Silent base test =
    loop-Silent test (add_digit base) (λ k. silent k (add_digit base k) refl (λ e. e))

lex_digits-Silent : (l : Lexer) → Silent l (lex_digits l)
unfolding lex_digits
lex_digits-Silent l₀ =
    let l = record l₀ { sym = b'0'; int_value = 0 } in
    Silent-if (char_of l == b'0')
      (Silent-if (char_of (read l) == b'x')
        (Silent-trans (silent l₀ (read (read l)) refl (λ e. e))
          (digits-Silent 16 _ (read (read l))))
        (Silent-trans (silent l₀ (read l) refl (λ e. e)) (digits-Silent 8 _ (read l))))
      (Silent-trans (silent l₀ l refl (λ e. e)) (digits-Silent 10 _ l))

lex_number-Silent : (negative : Bool) (l : Lexer) → Silent l (lex_number negative l)
unfolding lex_number
lex_number-Silent negative l = Silent-trans (lex_digits-Silent l) (silent _ _ refl (λ e. e))

lex_dash-Silent : (l : Lexer) → Silent l (or_symbol (lex_dash l))
unfolding lex_dash or_symbol
lex_dash-Silent l = elim (Bool-cases (char_of l == b'>')) [
  | inl e ↦ rw e (silent l _ refl (λ f. f))
  | inr e ↦ rw e (elim (Bool-cases (char_of l == b'p')) [
    | inl f ↦ rw f (silent l _ refl (λ f. f))
    | inr f ↦ rw f (elim (Bool-cases (leb (char_of l) b' ' || leb 128 (char_of l))) [
      | inl g ↦ rw g (silent l _ refl (λ f. f))
      | inr g ↦ rw g (elim (Bool-cases (is_digit (char_of l))) [
        | inl h ↦ rw h (lex_number-Silent true l)
        | inr h ↦ rw h (lex_symbol-Silent l)
      ])
    ])
  ])
]

lex_number_or_dash-Silent : (l : Lexer) → Silent l (or_symbol (lex_number_or_dash l))
unfolding lex_number_or_dash
lex_number_or_dash-Silent l₀ =
    let l = append_char (char_of l₀) l₀ in
    elim (Bool-cases (char_of l₀ == b'-')) [
      | inl e ↦ rw e (Silent-trans (silent l₀ (read l) refl (λ e. e)) (lex_dash-Silent (read l)))
      | inr e ↦
          rw e (
            unfold or_symbol in
            Silent-trans (silent l₀ l refl (λ e. e)) (lex_number-Silent false l))
    ]

lex_token-Silent : (l : Lexer) → Silent l (lex_token l)
unfolding lex_token
lex_token-Silent l = Silent-if _ (lex_identifier-Silent l) (
    Silent-if _ (lex_quoted-Silent l)
      (Silent-if _ (lex_number_or_dash-Silent l) (lex_symbol-Silent l)))

pub start_token-Silent : (l : Lexer) → Silent l (start_token l)
unfolding start_token
start_token-Silent l =
    let k = record l { cur_line = l.scan.cur_char_line; cur_column = l.scan.cur_char_column } in
    elim (Bool-cases (char_of l == 0)) [
      | inl e ↦ rw e (silent l _ refl (λ e. e))
      | inr e ↦ rw e (Silent-trans (silent l k refl (λ e. e)) (lex_token-Silent k))
    ]
