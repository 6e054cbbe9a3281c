-- ===== src/TccCc/Code.antt =====
-- The code that the C compiler writes for expressions: words of Stack C.
pub mod Words
pub mod Operands
pub mod Operators
pub mod Branches
pub mod Generate
pub mod Effect
pub mod Laws
mod Tests
use mes_replacement.Prelude.{ℕ, Option, none, some, Bytes}

-- A word and what is written for it. The code that a call runs takes the arguments; how many there
-- are is not written.
pub data Word : Type 0 where
  push_name : Bytes → Word
  push_number : ℕ → Word
  push_string : Bytes → Word
  push_mask : Bytes → Word
  push_member : ℕ → Bytes → Word
  arrow_member : ℕ → Bytes → Word
  fetch store : ℕ → Word
  one two : Bytes → Word
  copy exchange ignore : Word
  call : ℕ → Word
  open_or open_and open_if otherwise open_block close : Word
  local_from : Bytes → Word
  local_array : ℕ → Word

infixl 1 ◌>>=◌
unfoldable pub ◌>>=◌ {ℓ κ} : {A : Type ℓ} {B : Type κ} → Option A → (A → Option B) → Option B
none >>= f = none
some a >>= f = f a
