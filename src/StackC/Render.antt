-- ===== src/StackC/Render.antt =====
-- The text of the output: what the two back ends share. A `char` is signed.
pub mod Amd64
pub mod Aarch64
pub mod Printable
pub mod Cells
mod Tests
use mes_replacement.Prelude.{
  ℕ, zero, suc, ◌+◌, ◌-◌, ◌%◌, ◌^◌, List, [], ◌∷◌, ◌++◌, Bool, true, false, ◌||◌, ltb, leb, ◌==◌,
  if◌then◌else◌, Bytes, codes, print_d, print_u,
}

-- A `char` that is passed to `fprintf`, as the 32 bits of an `int`.
abbrev pub char_word : ℕ → ℕ
char_word c = if ltb c 128 then c else 2 ^ 32 + c - 256

-- `*s < ' '`
abbrev pub is_control : ℕ → Bool
is_control c = ltb c 32 || leb 128 c

unfoldable pub print_safe : ℕ → Bytes
print_safe c =
    if c == b'\n'
    then codes "\\n"
    else if c == b'\t'
    then codes "\\t"
    else if c == b'\\' || c == b'"'
    then b'\\' ∷ c ∷ []
    else if is_control c
    then codes "?"
    else c ∷ []

-- `save_print_string`: up to the first NUL.
unfoldable pub save_print_string : Bytes → Bytes
unfolding print_safe
save_print_string [] = []
save_print_string (c ∷ s) =
    let rest = print_safe c ++ save_print_string s in if c == 0 then [] else rest

unfoldable pub text_of : List (ℕ × Bytes) → ℕ → Bytes
text_of [] s = []
text_of ((t, text) ∷ rest) s = if s == t then text else text_of rest s

-- Whether a string of the pool is written between quotes.
unfoldable pub is_safe : Bytes → Bool
is_safe [] = true
is_safe (c ∷ s) = if c == b'"' || is_control c then false else is_safe s

-- The bytes one by one, from index `i` on.
unfoldable pub byte_list : ℕ → Bytes → Bytes
byte_list i [] = []
byte_list i (c ∷ s) =
    codes "!"
    ++ (print_u (char_word c)
        ++ ((if i % 20 == 16 then codes "\n  " else codes " ") ++ byte_list (i + 1) s))

abbrev pub header_text : Bytes
header_text = codes "\n:ELF_data\n\n:SYS_MALLOC NULL\n"

abbrev pub end_text : Bytes
end_text = codes "\n:ELF_end\n"

unfoldable pub string_text : ℕ → Bytes → Bytes
unfolding is_safe byte_list
string_text nr s =
    codes ":string_"
    ++ (print_d nr
        ++ (codes "  "
            ++ ((if is_safe s then codes "\"" ++ (s ++ codes "\"") else byte_list 0 s ++ codes "!0")
                ++ codes "\n")))

-- The cells from index `j` on, `n` of them.
unfoldable pub null_cells : ℕ → ℕ → Bytes
null_cells j zero = []
null_cells j (suc n) =
    (if j % 8 == 0 then codes "\n\tNULL" else codes " NULL") ++ null_cells (j + 1) n

-- `j < size` is a signed test.
abbrev pub cell_count : ℕ → ℕ
cell_count size = if ltb size (2 ^ 31) then size else 0

unfoldable pub global_text : Bytes → ℕ → Bytes
unfolding null_cells
global_text name size = codes ":g_" ++ (name ++ (null_cells 0 (cell_count size) ++ codes "\n"))

unfoldable pub static_text : ℕ → Bytes → ℕ → Bytes
unfolding null_cells
static_text nr name size =
    codes ":static_"
    ++ (print_d nr ++ (codes "_" ++ (name ++ (null_cells 0 (cell_count size) ++ codes "\n"))))
