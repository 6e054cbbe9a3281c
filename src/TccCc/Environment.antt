-- ===== src/TccCc/Environment.antt =====
-- The environment of the preprocessor: the macros, in the order in which they were made.
pub mod Laws
use mes_replacement.Prelude.{
  ℕ, List, [], ◌∷◌, Option, none, some, Bool, true, false, if◌then◌else◌, same_text, Bytes,
}

-- `tokens_s`: one of a list of tokens. The place of a token is left out.
pub record Token : Type 0 where
  pub kind : ℕ
  pub token : Bytes

-- `env_s`. The list of arguments is `nr_args` and `args`.
pub record Macro : Type 0 where
  pub name : Bytes
  pub args : List Bytes
  pub tokens : List Token

abbrev new_macro : Bytes → Macro
new_macro n = record { name = n; args = []; tokens = [] }

-- The macro that is found or made, and the environment behind the call.
unfoldable pub get_env : List Macro → Bytes → Bool → Option Macro × List Macro
get_env [] n create = if create then (some (new_macro n), new_macro n ∷ []) else (none, [])
get_env (m ∷ ms) n create =
    let (found, rest) = get_env ms n create in
    if same_text m.name n then (some m, m ∷ ms) else (found, m ∷ rest)

-- `get_env(name, FALSE)`
abbrev pub find_env : List Macro → Bytes → Option Macro
find_env ms n = (get_env ms n false).0

unfoldable pub del_env : List Macro → Bytes → List Macro
del_env [] n = []
del_env (m ∷ ms) n = let rest = del_env ms n in if same_text m.name n then ms else m ∷ rest
