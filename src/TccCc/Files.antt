-- ===== src/TccCc/Files.antt =====
-- The iterators of the compiler, one on top of the other, from the bytes of a file to its tokens.
use mes_replacement.Prelude.{
  ℕ, suc, ◌≡◌, List, ◌∷◌, Option, none, some, true, false, length, refl, arith, subst, Bytes, ◌==◌,
  if◌then◌else◌,
}
use mes_replacement.TccCc.Chars.{CharIterator, Yields}
use mes_replacement.TccCc.Chars.File.{
  FileIterator, file_iterator, new_file_iterator, text_of_file, new_file_iterator-Yields,
}
use mes_replacement.TccCc.Chars.Splice.{
  SpliceIterator, splice_iterator, new_line_splice_iterator, spliced,
  new_line_splice_iterator-Yields,
}
use mes_replacement.TccCc.Chars.Strip.{StripIterator, strip_iterator, new_comment_strip_iterator}
use mes_replacement.TccCc.Chars.Strip.Pieces.{Piece, text, stripped, is_valid}
use mes_replacement.TccCc.Chars.Strip.Literals.{new_comment_strip_iterator-Yields}
use mes_replacement.TccCc.Chars.Include.{
  IncludeIterator, include_iterator, new_include_iterator, new_include_iterator-Yields,
}
use mes_replacement.TccCc.Tokens.{Tokenizer}
use mes_replacement.TccCc.Tokens.Next.{new_tokenizer}
use mes_replacement.TccCc.Tokens.Lexemes.{Lexeme}
use mes_replacement.TccCc.Tokens.Laws.Texts.{
  source_text, is_source, kinds_and_texts, tokens_on, tokens_on-source,
}

abbrev pub Chain : Type 0
Chain = IncludeIterator (StripIterator (SpliceIterator FileIterator))

abbrev pub chain : CharIterator Chain
chain = include_iterator (strip_iterator (splice_iterator file_iterator))

-- The iterators that `parse_file` makes on top of the one for the file.
unfoldable pub open_chain : FileIterator → Tokenizer Chain
open_chain input_it =
    let splice_it = new_line_splice_iterator file_iterator input_it in
    let comment_it = new_comment_strip_iterator (splice_iterator file_iterator) splice_it in
    new_tokenizer (new_include_iterator (strip_iterator (splice_iterator file_iterator)) comment_it)

-- Nothing for a file that cannot be read or is empty.
unfoldable pub open_file : Bytes → Option Bytes → Option (Tokenizer Chain)
unfolding open_chain
open_file filename file =
    let input_it = new_file_iterator filename file in
    if input_it.ch == 0 then none else some (open_chain input_it)

-- A file of C text without directives gives the tokens of the text: the bytes, which are not empty,
-- without carriage returns and spliced lines are comments, literals and other characters, and these
-- without the comments are tokens with white space between them.
pub open_file-tokens_on :
    (filename bytes : Bytes) (first : ℕ) (more : Bytes) (ps : List Piece)
    (ls : List (Bytes × Lexeme)) (end : Bytes)
    → text_of_file bytes ≡ first ∷ more
    → spliced (text_of_file bytes) ≡ text ps
    → is_valid ps ≡ true
    → stripped ps ≡ source_text ls end
    → is_source ls end ≡ true
    → (t : Tokenizer Chain) × (open_file filename (some bytes) ≡ some t)
      × (tokens_on chain (suc (length ls)) t ≡ some (kinds_and_texts ls))
unfolding open_file open_chain new_tokenizer
open_file-tokens_on filename bytes first more ps ls end some_text joined valid clean source =
    let file = new_file_iterator filename (some bytes) in
    let a = new_file_iterator-Yields filename bytes in
    let (at, some_live, _, _) = subst (Yields file_iterator file) some_text a in
    let live : (file.ch == 0) ≡ false = ground (arith, at, some_live) in
    let b =
      subst (Yields (splice_iterator file_iterator) (new_line_splice_iterator file_iterator file))
        joined (new_line_splice_iterator-Yields file_iterator file (text_of_file bytes) a) in
    let c =
      subst
        (Yields (strip_iterator (splice_iterator file_iterator)) (
          new_comment_strip_iterator (splice_iterator file_iterator)
            (new_line_splice_iterator file_iterator file)))
        clean
        (new_comment_strip_iterator-Yields (splice_iterator file_iterator)
          (new_line_splice_iterator file_iterator file) ps valid b) in
    (
      open_chain file,
      rw live refl,
      tokens_on-source chain ls end (suc (length ls)) (open_chain file) (omega arith) source (
          new_include_iterator-Yields (strip_iterator (splice_iterator file_iterator))
            (new_comment_strip_iterator (splice_iterator file_iterator)
              (new_line_splice_iterator file_iterator file))
            (source_text ls end) c),
    )
