-- ===== src/StackC/Lexer/Tests.antt =====
-- Runs of the lexer.
use mes_replacement.Prelude.{ℕ, suc, List, [], ◌∷◌, ◌≡◌, refl, true, false, Bytes, codes, zero, ◌≤◌}
use mes_replacement.StackC.Scanner.{read_char}
use mes_replacement.StackC.Lexer.{Lexer, get_token, lexing, remaining}
use mes_replacement.StackC.Lexer.Blank.{skip_blank}
use mes_replacement.StackC.Emit.{echo}
use mes_replacement.StackC.Lexer.Skipped.{
  Gap, blank, comment, Skips, skip_blank-Skips, get_token-copies,
}
use mes_replacement.StackC.Lexer.Progress.{rank, get_token-rank}

abbrev start : Bytes → Lexer
start source = record {
  scan = record { fin = source; cur_char = 0; cur_char_line = 1; cur_char_column = 1 };
  out = [];
  error = false;
  sym = 0;
  token = [];
  int_value = 0;
  cur_line = 0;
  cur_column = 0;
}

tokens : ℕ → Lexer → List (ℕ × Bytes)
tokens zero l = []
tokens (suc n) l = let k = get_token l in (k.sym, k.token) ∷ tokens n k

scan : ℕ → Bytes → List (ℕ × Bytes)
unfolding tokens lexing
scan n source = tokens n (record (start source) { scan = read_char (start source).scan })

run :
    scan 6 (codes "void f { 0x1F -7 ")
    ≡ (b'F', codes "void")
      ∷ (b'A', codes "f")
      ∷ (b'{', codes "{")
      ∷ (b'0', codes "31")
      ∷ (b'0', codes "-7")
      ∷ (0, [])
      ∷ []
unfolding scan
run = refl

run_symbols :
    scan 7 (codes "<=s -p -> 'a' \"x\\x41\\0\" - :l")
    ≡ (b'p', codes "<=s")
      ∷ (b'y', codes "-p")
      ∷ (b'w', codes "->")
      ∷ (b'\'', codes "a")
      ∷ (b'"', b'x' ∷ b'A' ∷ 0 ∷ [])
      ∷ (b'-', codes "-")
      ∷ (b':', [])
      ∷ []
unfolding scan
run_symbols = refl

abbrev at_comment : Lexer
at_comment = record (start (codes "c\n x")) {
  scan = record { fin = codes "c\n x"; cur_char = b'#'; cur_char_line = 1; cur_char_column = 1 };
}

get_token-rank_example : rank (get_token at_comment) ≤ remaining at_comment
get_token-rank_example = get_token-rank at_comment

abbrev gaps : List Gap
gaps = comment (codes "c") ∷ blank b' ' ∷ []

skip_blank-Skips_example : Skips at_comment (codes "#c\n") (codes "x") (skip_blank at_comment)
skip_blank-Skips_example = skip_blank-Skips gaps (codes "x") at_comment refl refl (refl, refl)

get_token-copies_example :
    ((get_token at_comment).out ≡ echo b'#' ∷ echo b'c' ∷ echo b'\n' ∷ [])
    × (false ≡ true → (get_token at_comment).error ≡ true)
get_token-copies_example = get_token-copies gaps (codes "x") at_comment refl refl (refl, refl)
