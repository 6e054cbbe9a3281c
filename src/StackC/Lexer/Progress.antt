-- ===== src/StackC/Lexer/Progress.antt =====
-- Every loop of the lexer ends, and every token consumes at least a character.
use mes_replacement.Prelude.{
  ℕ, zero, suc, [], ◌+◌, ◌≤◌, ◌<◌, ◌≡◌, ◌≢◌, inl, inr, Bool, true, false, not, ◌&&◌, ◌||◌, arith,
  length, ◌==◌, if◌then◌else◌, Bool-cases, while_do, while_do_lem, is_ident_char, is_digit,
  is_octal,
}
use mes_replacement.StackC.Scanner.{
  is_blank, is_graphic, read_char-left, read_char-left_lt, read_char-left_le,
}
use mes_replacement.StackC.Lexer.Base.{Lexer, char_of, read, shift, loop, remaining, append_char}
use mes_replacement.StackC.Lexer.Blank.{echo_char, echo_comment, skip_blank}
use mes_replacement.StackC.Lexer.Words.{lex_identifier, classify}
use mes_replacement.StackC.Lexer.Quoted.{unescape, quoted, lex_quoted}
use mes_replacement.StackC.Lexer.Numbers.{
  add_digit, is_hex, lex_digits, lex_number, Lexed, done, falls_through, lex_dash,
  lex_number_or_dash,
}
use mes_replacement.StackC.Lexer.Symbols.{lex_symbol}
use mes_replacement.StackC.Lexer.{or_symbol, lex_token, start_token, get_token}

-- A loop whose body consumes a character whenever its test passes ends by the test.
pub loop_lem :
    (test : Lexer → Bool) (body : Lexer → Lexer)
    → ((l : Lexer) → test l ≡ true → remaining (body l) < remaining l)
    → (l : Lexer) → (remaining (loop test body l) ≤ remaining l) × (test (loop test body l) ≡ false)
unfolding loop
loop_lem test body eats l =
    while_do_lem (λ k. remaining k ≤ remaining l) remaining test body
      (λ k h t. (omega (arith, eats k t), eats k t)) (suc (remaining l)) l (omega arith)
      (omega arith)

read-le : (l : Lexer) → remaining (read l) ≤ remaining l
read-le l = read_char-left_le l.scan

shift-lt : (l : Lexer) → char_of l ≢ 0 → remaining (shift l) < remaining l
shift-lt l h = read_char-left_lt l.scan h

shift-le : (l : Lexer) → remaining (shift l) ≤ remaining l
shift-le l = read_char-left_le l.scan

not_end : (c : ℕ) → is_ident_char c ≡ true → c ≢ 0
unfolding is_ident_char
not_end c h e = ground arith

echo_comment-lt : (l : Lexer) → char_of l ≢ 0 → remaining (echo_comment l) < remaining l
unfolding echo_comment
echo_comment-lt l h =
    let run =
      loop_lem (λ k. not (char_of k == 0) && not (char_of k == b'\n')) echo_char
        (λ k t. read_char-left_lt k.scan (λ e. ground arith)) (echo_char l) in
    omega (arith, run.0, read_char-left_lt l.scan h)

pub skip_blank-eats :
    (l : Lexer)
    → (is_blank (char_of l) || char_of l == b'#') ≡ true
    → remaining (if char_of l == b'#' then echo_comment l else read l) < remaining l
skip_blank-eats l t =
    let live : char_of l ≢ 0 = λ e. ground arith in
    elim (Bool-cases (char_of l == b'#')) [
      | inl hash ↦ rw hash (echo_comment-lt l live)
      | inr other ↦ rw other (read_char-left_lt l.scan live)
    ]

-- The loop ends at a character that is neither white space nor a `#`, and nothing is put back.
pub skip_blank_lem :
    (l : Lexer)
    → (remaining (skip_blank l) ≤ remaining l)
      × ((is_blank (char_of (skip_blank l)) || char_of (skip_blank l) == b'#') ≡ false)
unfolding skip_blank
skip_blank_lem l =
    loop_lem (λ l. is_blank (char_of l) || char_of l == b'#')
      (λ l. if char_of l == b'#' then echo_comment l else read l) skip_blank-eats l

collect-le :
    (test : ℕ → Bool)
    → ((c : ℕ) → test c ≡ true → c ≢ 0)
    → (l : Lexer) → remaining (loop (λ k. test (char_of k)) shift l) ≤ remaining l
collect-le test live l =
    (loop_lem (λ k. test (char_of k)) shift (λ k t. shift-lt k (live (char_of k) t)) l).0

lex_identifier-lt : (l : Lexer) → char_of l ≢ 0 → remaining (lex_identifier l) < remaining l
unfolding lex_identifier classify
lex_identifier-lt l h = ground (arith, collect-le is_ident_char not_end (shift l), shift-lt l h)

lex_symbol-le : (l : Lexer) → remaining (lex_symbol l) ≤ remaining l
unfolding lex_symbol
lex_symbol-le l =
    ground (arith, collect-le is_graphic (λ c t e. ground arith) (shift l), shift-le l, read-le l)

lex_symbol-lt : (l : Lexer) → char_of l ≢ 0 → remaining (lex_symbol l) < remaining l
unfolding lex_symbol
lex_symbol-lt l h = ground (
  arith,
  collect-le is_graphic (λ c t e. ground arith) (shift l),
  shift-lt l h,
  read_char-left_lt l.scan h,
)

-- `fgetc` has returned what a character that is not the end of the file came from.
read-fin_lt : (l : Lexer) → char_of (read l) ≢ 0 → length (read l).scan.fin < length l.scan.fin
read-fin_lt l h = ground (arith, read_char-left l.scan)

read-fin_le : (l : Lexer) → length (read l).scan.fin ≤ length l.scan.fin
read-fin_le l = omega (arith, read_char-left l.scan)

unescape-fin : (l : Lexer) → length (unescape l).scan.fin ≤ length l.scan.fin
unfolding unescape
unescape-fin l = ground (arith, read-fin_le l, read-fin_le (read l), read-fin_le (read (read l)))

-- With a round for each character left, a literal ends by a quote, the end of the file or an error.
quoted-le :
    (fuel quote : ℕ) (l : Lexer)
    → length l.scan.fin < fuel
    → remaining (quoted fuel quote l) ≤ length l.scan.fin
unfolding quoted
quoted-le zero quote l h = absurd (omega arith)
quoted-le (suc fuel) quote l h = elim (Bool-cases (char_of (read l) == 0)) [
  | inl end ↦ rw end (read_char-left l.scan)
  | inr live ↦
      let less : length (read l).scan.fin < length l.scan.fin = read-fin_lt l (λ e. ground arith) in
      let e = unescape (read l) in
      ground (
        arith,
        less,
        read_char-left l.scan,
        read_char-left (read l).scan,
        unescape-fin (read l),
        quoted-le fuel quote (append_char (char_of e) e)
            (omega (arith, less, unescape-fin (read l))),
        quoted-le fuel quote (append_char (char_of (read l)) (read l)) (omega (arith, less)),
      )
]

lex_quoted-lt : (l : Lexer) → char_of l ≢ 0 → remaining (lex_quoted l) < remaining l
unfolding lex_quoted
lex_quoted-lt l h = ground (
  arith,
  quoted-le (suc (length l.scan.fin)) (char_of l) (record l { sym = char_of l }) (omega arith),
)

digits-le :
    (base : ℕ) (test : ℕ → Bool)
    → ((c : ℕ) → test c ≡ true → c ≢ 0)
    → (l : Lexer) → remaining (loop (λ k. test (char_of k)) (add_digit base) l) ≤ remaining l
digits-le base test live l =
    (loop_lem (λ k. test (char_of k)) (add_digit base)
      (λ k t. read_char-left_lt k.scan (live (char_of k) t)) l).0

is_digit-live : (c : ℕ) → is_digit c ≡ true → c ≢ 0
unfolding is_digit
is_digit-live c h e = ground arith

is_octal-live : (c : ℕ) → is_octal c ≡ true → c ≢ 0
unfolding is_octal
is_octal-live c h e = ground arith

lex_digits-le : (l : Lexer) → remaining (lex_digits l) ≤ remaining l
unfolding lex_digits
lex_digits-le l₀ =
    let l = record l₀ { sym = b'0'; int_value = 0 } in
    ground (
      arith,
      read-le l,
      read-le (read l),
      digits-le 16 is_hex (λ c t e. ground arith) (read (read l)),
      digits-le 8 is_octal is_octal-live (read l),
      digits-le 10 is_digit is_digit-live l,
    )

-- If the test passes at the start, a character is consumed.
loop-lt :
    (test : Lexer → Bool) (body : Lexer → Lexer)
    → ((l : Lexer) → test l ≡ true → remaining (body l) < remaining l)
    → (l : Lexer) → test l ≡ true
    → remaining (loop test body l) < remaining l
unfolding loop while_do
loop-lt test body eats l t =
    rw (t, while_do)
      (omega (
        arith,
        eats l t,
        (while_do_lem (λ k. remaining k ≤ remaining (body l)) remaining test body
            (λ k h p. (omega (arith, eats k p), eats k p)) (remaining l) (body l) (eats l t)
            (omega arith)).0,
      ))

lex_digits-lt : (l : Lexer) → is_digit (char_of l) ≡ true → remaining (lex_digits l) < remaining l
unfolding lex_digits
lex_digits-lt l₀ h =
    let l = record l₀ { sym = b'0'; int_value = 0 } in
    ground (
      arith,
      read-le (read l),
      read_char-left_lt l.scan (is_digit-live (char_of l) h),
      digits-le 16 is_hex (λ c t e. ground arith) (read (read l)),
      digits-le 8 is_octal is_octal-live (read l),
      loop-lt (λ k. is_digit (char_of k)) (add_digit 10)
          (λ k t. read_char-left_lt k.scan (is_digit-live (char_of k) t)) l h,
    )

lex_number-le : (negative : Bool) (l : Lexer) → remaining (lex_number negative l) ≤ remaining l
unfolding lex_number
lex_number-le negative l = lex_digits-le l

abbrev lexed_of : Lexed → Lexer
lexed_of (done l) = l
lexed_of (falls_through l) = l

lex_dash-le : (l : Lexer) → remaining (lexed_of (lex_dash l)) ≤ remaining l
unfolding lex_dash
lex_dash-le l = ground (
  arith,
  shift-le (record l { sym = b'w' }),
  shift-le (record l { sym = b'y' }),
  lex_number-le true l,
)

or_symbol-le : (r : Lexed) → remaining (or_symbol r) ≤ remaining (lexed_of r)
unfolding or_symbol
or_symbol-le (done l) = omega arith
or_symbol-le (falls_through l) = lex_symbol-le l

lex_number_or_dash-lt :
    (l : Lexer)
    → (is_digit (char_of l) || char_of l == b'-') ≡ true
    → remaining (or_symbol (lex_number_or_dash l)) < remaining l
unfolding lex_number_or_dash
lex_number_or_dash-lt l₀ h =
    let l = append_char (char_of l₀) l₀ in
    elim (Bool-cases (char_of l₀ == b'-')) [
      | inl dash ↦ rw dash (
          omega (
            arith,
            or_symbol-le (lex_dash (read l)),
            lex_dash-le (read l),
            read_char-left_lt l.scan (λ e. ground arith),
          ))
      | inr digit ↦ rw digit (unfold or_symbol lex_number in lex_digits-lt l (ground arith))
    ]

lex_token-lt : (l : Lexer) → char_of l ≢ 0 → remaining (lex_token l) < remaining l
unfolding lex_token
lex_token-lt l h =
    ground
      (arith, lex_identifier-lt l h, lex_quoted-lt l h, lex_number_or_dash-lt l, lex_symbol-lt l h)

-- A rank that falls in every round of the compiler: the characters left, and the current symbol.
abbrev pub rank : Lexer → ℕ
rank l = remaining l + (if l.sym == 0 then 0 else 1)

rank-of_lt : (k : Lexer) {n m : ℕ} → remaining k < n → n ≤ m → rank k ≤ m
rank-of_lt k h le = ground arith

-- Reading a token uses up a character for the symbol that it finds, unless the source has ended.
pub get_token-rank : (l : Lexer) → rank (get_token l) ≤ remaining l
unfolding get_token start_token
get_token-rank l₀ =
    let l = skip_blank (record l₀ { token = [] }) in
    let k = record l { cur_line = l.scan.cur_char_line; cur_column = l.scan.cur_char_column } in
    let skipped = (skip_blank_lem (record l₀ { token = [] })).0 in
    elim (Bool-cases (char_of l == 0)) [
      | inl end ↦ rw end (omega (arith, skipped))
      | inr live ↦ rw live (rank-of_lt (lex_token k) (lex_token-lt k (λ e. ground arith)) skipped)
    ]
