-- ===== src/StackC/Lexer/Output.antt =====
-- What the lexer does to the output and the error flag: it copies comments, and sets the flag.
use mes_replacement.Prelude.{
  suc, [], ◌∷◌, ◌++◌, List, ◌≡◌, refl, sym, ap, ◌∙◌, Bool, true, false, not, ◌&&◌, if◌then◌else◌,
  ◌==◌, while_do_keeps, append-nil, append_assoc, Bytes,
}
use mes_replacement.StackC.Emit.{Emit, echo}
use mes_replacement.StackC.Lexer.Base.{Lexer, char_of, read, loop, remaining}
use mes_replacement.StackC.Lexer.Blank.{echo_char, echo_comment, skip_blank}
use mes_replacement.StackC.Lexer.{start_token, get_token}
use mes_replacement.StackC.Lexer.Silent.{start_token-Silent}

abbrev pub echoes : Bytes → List Emit
echoes [] = []
echoes (c ∷ cs) = echo c ∷ echoes cs

-- `k` has written what `l` had written, then copies of characters, and keeps an error that was set.
pub record Follows (l k : Lexer) : Type 0 where
  pub copied : Bytes
  pub written : k.out ≡ l.out ++ echoes copied
  pub flagged : l.error ≡ true → k.error ≡ true

pub echoes-append : (a b : Bytes) → echoes (a ++ b) ≡ echoes a ++ echoes b
echoes-append [] b = refl
echoes-append (c ∷ a) b = ap (◌∷◌ (echo c)) (echoes-append a b)

pub Follows-trans : {l m k : Lexer} → Follows l m → Follows m k → Follows l k
Follows-trans {l} f g = record {
  copied = f.copied ++ g.copied;
  written =
      g.written
      ∙ ap (λ o. o ++ echoes g.copied) f.written
      ∙ append_assoc l.out (echoes f.copied) (echoes g.copied)
      ∙ ap (◌++◌ l.out) (sym (echoes-append f.copied g.copied));
  flagged = λ e. g.flagged (f.flagged e);
}

-- A step that writes nothing.
pub quiet : (l k : Lexer) → k.out ≡ l.out → (l.error ≡ true → k.error ≡ true) → Follows l k
quiet l k e f = record { copied = []; written = e ∙ sym (append-nil l.out); flagged = f }

pub Follows-refl : (l : Lexer) → Follows l l
Follows-refl l = quiet l l refl (λ e. e)

echo_char-Follows : (l : Lexer) → Follows l (echo_char l)
echo_char-Follows l = record { copied = char_of l ∷ []; written = refl; flagged = λ e. e }

loop-Follows :
    (test : Lexer → Bool) (body : Lexer → Lexer)
    → ((l : Lexer) → Follows l (body l))
    → (l : Lexer) → Follows l (loop test body l)
unfolding loop
loop-Follows test body step l =
    while_do_keeps (Follows l) test body (λ k f. Follows-trans f (step k)) (suc (remaining l)) l
      (Follows-refl l)

echo_comment-Follows : (l : Lexer) → Follows l (echo_comment l)
unfolding echo_comment
echo_comment-Follows l =
    let live : Lexer → Bool = λ k. not (char_of k == 0) && not (char_of k == b'\n') in
    Follows-trans (echo_char-Follows l) (
      Follows-trans (loop-Follows live echo_char echo_char-Follows (echo_char l))
        (record { copied = b'\n' ∷ []; written = refl; flagged = λ e. e }))

Follows-if : {l k j : Lexer} (b : Bool) → Follows l k → Follows l j → Follows l (if b then k else j)
Follows-if true f g = f
Follows-if false f g = g

skip_blank-Follows : (l : Lexer) → Follows l (skip_blank l)
unfolding skip_blank
skip_blank-Follows =
    loop-Follows _ _
      λ l. Follows-if (char_of l == b'#') (echo_comment-Follows l) (quiet l (read l) refl (λ e. e))

-- Reading a token writes nothing but pieces that are characters, and clears no error.
pub get_token-Follows : (l : Lexer) → Follows l (get_token l)
unfolding get_token
get_token-Follows l =
    let skipped = skip_blank (record l { token = [] }) in
    let behind = start_token-Silent skipped in
    Follows-trans (quiet l (record l { token = [] }) refl (λ e. e)) (
      Follows-trans (skip_blank-Follows (record l { token = [] }))
        (quiet skipped (start_token skipped) behind.same_out behind.keeps_error))
