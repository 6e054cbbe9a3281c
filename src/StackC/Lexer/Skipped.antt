-- ===== src/StackC/Lexer/Skipped.antt =====
-- The white space and the comments in front of a token, as they are written.
use mes_replacement.Prelude.{
  ℕ, zero, suc, ◌<◌, ◌≡◌, ◌≢◌, refl, sym, ap, ◌∙◌, [], ◌∷◌, ◌++◌, List, Bool, true, false, not,
  ◌&&◌, ◌||◌, ◌==◌, arith, drop, while_do, while_do_go, while_do_stop, append-nil, append_assoc,
  Bytes, if◌then◌else◌, and-left, and-right, subst,
}
use mes_replacement.StackC.Emit.{echo}
use mes_replacement.StackC.Scanner.{
  is_blank, read_char-at_end, read_char-in_front, read_char-left_lt,
}
use mes_replacement.StackC.Lexer.Base.{Lexer, char_of, read, write, loop, remaining}
use mes_replacement.StackC.Lexer.Blank.{echo_char, echo_comment, skip_blank}
use mes_replacement.StackC.Lexer.Silent.{start_token-Silent}
use mes_replacement.StackC.Lexer.{get_token}
use mes_replacement.StackC.Lexer.Output.{echoes, echoes-append}
use mes_replacement.StackC.Lexer.Progress.{skip_blank-eats}

-- A blank, or a comment by its text between the `#` and the line feed that ends it.
pub data Gap : Type 0 where
  blank : ℕ → Gap
  comment : Bytes → Gap

abbrev pub first_of : Bytes → ℕ
first_of [] = 0
first_of (c ∷ cs) = c

abbrev pub is_comment_char : ℕ → Bool
is_comment_char c = not (c == 0) && not (c == b'\n')

abbrev pub in_comment : Bytes → Bool
in_comment [] = true
in_comment (c ∷ cs) = is_comment_char c && in_comment cs

abbrev pub are_gaps : List Gap → Bool
are_gaps [] = true
are_gaps (blank c ∷ gs) = is_blank c && are_gaps gs
are_gaps (comment cs ∷ gs) = in_comment cs && are_gaps gs

-- The source: the gaps, and what stands behind them.
abbrev pub source_of : List Gap → Bytes → Bytes
source_of [] rest = rest
source_of (blank c ∷ gs) rest = c ∷ source_of gs rest
source_of (comment cs ∷ gs) rest = b'#' ∷ (cs ++ b'\n' ∷ source_of gs rest)

-- The comments alone, each with its `#` and its line feed.
abbrev pub comments_of : List Gap → Bytes
comments_of [] = []
comments_of (blank c ∷ gs) = comments_of gs
comments_of (comment cs ∷ gs) = b'#' ∷ (cs ++ b'\n' ∷ comments_of gs)

-- The character that is read, and then what is left of the source.
abbrev pub Ahead : Bytes → Lexer → Type 0
Ahead cs l = (char_of l ≡ first_of cs) × (l.scan.fin ≡ drop 1 cs)

-- `k` has gone on to `rest`, has written copies of `copied`, and is `l` in the rest.
abbrev pub Skips : Lexer → Bytes → Bytes → Lexer → Type 0
Skips l copied rest k =
    Ahead rest k × (k.out ≡ l.out ++ echoes copied) × (k.token ≡ l.token) × (k.error ≡ l.error)

read-Ahead : (c : ℕ) (rest : Bytes) (l : Lexer) → Ahead (c ∷ rest) l → Ahead rest (read l)
read-Ahead c [] l a = read_char-at_end l.scan (a.1)
read-Ahead c (d ∷ rest) l a = read_char-in_front l.scan d rest (a.1)

Skips-trans :
    (l k j : Lexer) (a b s t : Bytes) → Skips l a s k → Skips k b t j → Skips l (a ++ b) t j
Skips-trans l k j a b s t f g = (
  g.0,
  g.1
      ∙ ap (λ o. o ++ echoes b) (f.1)
      ∙ append_assoc l.out (echoes a) (echoes b)
      ∙ ap (◌++◌ l.out) (sym (echoes-append a b)),
  g.2 ∙ f.2,
  g.3 ∙ f.3,
)

abbrev live : Lexer → Bool
live l = is_comment_char (char_of l)

echo_char-Skips :
    (c : ℕ) (rest : Bytes) (l : Lexer) → Ahead (c ∷ rest) l → Skips l (c ∷ []) rest (echo_char l)
echo_char-Skips c rest l a = (
  read-Ahead c rest (write (echo (char_of l)) l) a,
  ap (λ d. l.out ++ echo d ∷ []) (a.0),
  refl,
  refl,
)

comment-Skips :
    (fuel : ℕ) (cs rest : Bytes) (l : Lexer)
    → in_comment cs ≡ true
    → remaining l < fuel
    → Ahead (cs ++ b'\n' ∷ rest) l
    → Skips l cs (b'\n' ∷ rest) (while_do fuel live echo_char l)
comment-Skips fuel [] rest l v room a =
    let stop : live l ≡ false = rw (a.0) refl in
    rw (while_do_stop live echo_char fuel l stop) (a, sym (append-nil l.out), refl, refl)
comment-Skips zero (c ∷ cs) rest l v room a = absurd (omega (arith, room))
comment-Skips (suc fuel) (c ∷ cs) rest l v room a =
    let go : live l ≡ true = rw (a.0) (and-left (is_comment_char c) _ v) in
    let some_char : char_of l ≢ 0 = λ e. ground (arith, go, e) in
    let less = read_char-left_lt l.scan some_char in
    let first = echo_char-Skips c (cs ++ b'\n' ∷ rest) l a in
    let k = echo_char l in
    let later =
      comment-Skips fuel cs rest k (and-right (is_comment_char c) _ v) (omega (arith, room, less))
        (first.0) in
    rw (while_do_go live echo_char fuel l go) (
      Skips-trans l k (while_do fuel live echo_char k) (c ∷ []) cs (cs ++ b'\n' ∷ rest)
        (b'\n' ∷ rest) first later)

echo_comment-Skips :
    (cs rest : Bytes) (l : Lexer)
    → in_comment cs ≡ true
    → Ahead (b'#' ∷ (cs ++ b'\n' ∷ rest)) l
    → Skips l (b'#' ∷ (cs ++ b'\n' ∷ [])) (b'\n' ∷ rest) (echo_comment l)
unfolding echo_comment loop
echo_comment-Skips cs rest l v a =
    let k = echo_char l in
    let first = echo_char-Skips b'#' (cs ++ b'\n' ∷ rest) l a in
    let j = while_do (suc (remaining k)) live echo_char k in
    let inside = comment-Skips (suc (remaining k)) cs rest k v (omega arith) (first.0) in
    let both = Skips-trans l k j (b'#' ∷ []) cs (cs ++ b'\n' ∷ rest) (b'\n' ∷ rest) first inside in
    Skips-trans l j (write (echo b'\n') j) (b'#' ∷ cs) (b'\n' ∷ []) (b'\n' ∷ rest) (b'\n' ∷ rest)
      both (both.0, refl, refl, refl)

abbrev in_gap : Lexer → Bool
in_gap l = is_blank (char_of l) || char_of l == b'#'

abbrev pass_gap : Lexer → Lexer
pass_gap l = if char_of l == b'#' then echo_comment l else read l

pass_gap-blank :
    (c : ℕ) (rest : Bytes) (l : Lexer)
    → is_blank c ≡ true
    → Ahead (c ∷ rest) l
    → Skips l [] rest (pass_gap l)
pass_gap-blank c rest l v a =
    let other : (char_of l == b'#') ≡ false = rw (a.0) (ground (arith, v)) in
    rw other (read-Ahead c rest l a, sym (append-nil l.out), refl, refl)

pass_gap-comment :
    (cs rest : Bytes) (l : Lexer)
    → in_comment cs ≡ true
    → Ahead (b'#' ∷ (cs ++ b'\n' ∷ rest)) l
    → Skips l (b'#' ∷ (cs ++ b'\n' ∷ [])) (b'\n' ∷ rest) (pass_gap l)
pass_gap-comment cs rest l v a =
    let hash : (char_of l == b'#') ≡ true = rw (a.0) refl in
    rw hash (echo_comment-Skips cs rest l v a)

gaps-Skips :
    (fuel : ℕ) (gs : List Gap) (rest : Bytes) (l : Lexer)
    → are_gaps gs ≡ true
    → (is_blank (first_of rest) || first_of rest == b'#') ≡ false
    → remaining l < fuel
    → Ahead (source_of gs rest) l
    → Skips l (comments_of gs) rest (while_do fuel in_gap pass_gap l)
gaps-Skips fuel [] rest l v stop room a =
    let ends : in_gap l ≡ false = rw (a.0) stop in
    rw (while_do_stop in_gap pass_gap fuel l ends) (a, sym (append-nil l.out), refl, refl)
gaps-Skips zero (blank c ∷ gs) rest l v stop room a = absurd (omega (arith, room))
gaps-Skips zero (comment cs ∷ gs) rest l v stop room a = absurd (omega (arith, room))
gaps-Skips (suc fuel) (blank c ∷ gs) rest l v stop room a =
    let white = and-left (is_blank c) _ v in
    let go : in_gap l ≡ true = rw (a.0) (ground (arith, white)) in
    let less = skip_blank-eats l go in
    let first = pass_gap-blank c (source_of gs rest) l white a in
    let k = pass_gap l in
    let later =
      gaps-Skips fuel gs rest k (and-right (is_blank c) _ v) stop (omega (arith, room, less))
        (first.0) in
    rw (while_do_go in_gap pass_gap fuel l go) (
      Skips-trans l k (while_do fuel in_gap pass_gap k) [] (comments_of gs) (source_of gs rest) rest
        first later)
gaps-Skips (suc fuel) (comment cs ∷ gs) rest l v stop room a =
    let go : in_gap l ≡ true = rw (a.0) refl in
    let less = skip_blank-eats l go in
    let first = pass_gap-comment cs (source_of gs rest) l (and-left (in_comment cs) _ v) a in
    let k = pass_gap l in
    let later =
      gaps-Skips fuel (blank b'\n' ∷ gs) rest k (and-right (in_comment cs) _ v) stop
        (omega (arith, room, less)) (first.0) in
    let whole : (b'#' ∷ (cs ++ b'\n' ∷ [])) ++ comments_of gs ≡ comments_of (comment cs ∷ gs) =
      ap (◌∷◌ b'#') (append_assoc cs (b'\n' ∷ []) (comments_of gs)) in
    rw (while_do_go in_gap pass_gap fuel l go) (
      subst (λ copied. Skips l copied rest (while_do fuel in_gap pass_gap k)) whole
        (Skips-trans l k (while_do fuel in_gap pass_gap k) (b'#' ∷ (cs ++ b'\n' ∷ []))
          (comments_of gs) (b'\n' ∷ source_of gs rest) rest first later))

-- In front of blanks and comments, each comment ended by a line feed, with a character behind them that
-- is neither blank nor a `#`, or the end of the file, `skip_blank` stops exactly behind them: it writes
-- the comments in their order, character for character with the `#` and the line feed, and nothing
-- else, and changes neither the token nor the error flag.
pub skip_blank-Skips :
    (gs : List Gap) (rest : Bytes) (l : Lexer)
    → are_gaps gs ≡ true
    → (is_blank (first_of rest) || first_of rest == b'#') ≡ false
    → Ahead (source_of gs rest) l
    → Skips l (comments_of gs) rest (skip_blank l)
unfolding skip_blank loop
skip_blank-Skips gs rest l v stop a =
    gaps-Skips (suc (remaining l)) gs rest l v stop (omega arith) a

-- In front of such blanks and comments, `get_token` writes the comments in their order, character for
-- character with the `#` and the line feed, and nothing else: the token itself writes nothing, whatever
-- it is. An error flag that was set stays set.
pub get_token-copies :
    (gs : List Gap) (rest : Bytes) (l : Lexer)
    → are_gaps gs ≡ true
    → (is_blank (first_of rest) || first_of rest == b'#') ≡ false
    → Ahead (source_of gs rest) l
    → ((get_token l).out ≡ l.out ++ echoes (comments_of gs))
      × (l.error ≡ true → (get_token l).error ≡ true)
unfolding get_token
get_token-copies gs rest l v stop a =
    let k = record l { token = [] } in
    let skipped = skip_blank-Skips gs rest k v stop a in
    let behind = start_token-Silent (skip_blank k) in
    (behind.same_out ∙ skipped.1, λ e. behind.keeps_error (skipped.3 ∙ e))
