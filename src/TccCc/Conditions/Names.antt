-- ===== src/TccCc/Conditions/Names.antt =====
-- Names in conditions.
use mes_replacement.Prelude.{ℕ, zero, suc, ◌≡◌, refl, List, none, some, Bytes}
use mes_replacement.TccCc.Environment.{Token, Macro, find_env}
use mes_replacement.TccCc.Conditions.{first_token, expand, name_value}

module _ (environment : List Macro) (n : Bytes) (m : Macro) (t : Token) where
  expand_self :
      first_token environment (some m) ≡ some t
      → t.kind ≡ b'i'
      → t.token ≡ n
      → find_env environment n ≡ some m
      → (fuel : ℕ) → expand environment fuel (some m) ≡ none
  unfolding expand
  expand_self first kind text found zero = refl
  expand_self first kind text found (suc fuel) =
      let rest = expand_self first kind text found fuel in
      rw (expand, first, kind, text, found) rest

  -- A macro whose text starts with its own name has no value in a condition: the loop that expands it
  -- does not end, whatever the fuel.
  pub name_value_self :
      first_token environment (some m) ≡ some t
      → t.kind ≡ b'i'
      → t.token ≡ n
      → find_env environment n ≡ some m
      → (fuel : ℕ) → name_value environment fuel n ≡ none
  unfolding name_value
  name_value_self first kind text found fuel =
      let run = expand_self first kind text found fuel in rw (name_value, found, run) refl
