-- ===== src/StackC/Lexer/Base.antt =====
-- The globals of the lexer, and its small steps.
use mes_replacement.Prelude.{ℕ, suc, List, [], ◌∷◌, ◌++◌, Bool, while_do, Bytes}
use mes_replacement.StackC.Emit.{Emit}
use mes_replacement.StackC.Scanner.{Scanner, read_char, left}

pub record Lexer : Type 0 where
  pub scan : Scanner
  -- everything that was written to `fout`, the first piece first
  pub out : List Emit
  pub error : Bool
  pub sym : ℕ
  -- the text in the buffer `token`; `token_len` is its length
  pub token : Bytes
  -- `long long`, as its 64 bits
  pub int_value : ℕ
  pub cur_line : ℕ
  pub cur_column : ℕ

abbrev pub char_of : Lexer → ℕ
char_of l = l.scan.cur_char

abbrev pub read : Lexer → Lexer
read l = record l { scan = read_char l.scan }

abbrev pub append_char : ℕ → Lexer → Lexer
append_char c l = record l { token = l.token ++ c ∷ [] }

abbrev pub write : Emit → Lexer → Lexer
write e l = record l { out = l.out ++ e ∷ [] }

-- The body of the loops that collect a token.
abbrev pub shift : Lexer → Lexer
shift l = read (append_char (char_of l) l)

-- A loop that consumes a character in each round.
unfoldable pub loop : (Lexer → Bool) → (Lexer → Lexer) → Lexer → Lexer
unfolding while_do
loop test body l = while_do (suc (left l.scan)) test body l

-- A lexer that has consumed no more than was there.
abbrev pub remaining : Lexer → ℕ
remaining l = left l.scan
