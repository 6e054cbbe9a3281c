-- ===== src/Libc/Strings/Tests.antt =====
-- Runs of the string functions.
use mes_replacement.Prelude.{◌≡◌, ◌↔◌, refl, [], ◌∷◌, ◌++◌, some, arith, codes}
use mes_replacement.Libc.Strings.{
  strlen, char_value, difference, memcmp, strcmp, null, at, strchr, strrchr, strrchr_from, strstr,
  strstr_from, strcpy,
}
use mes_replacement.Libc.Strings.Laws.{strcmp-zero_iff}
use mes_replacement.Libc.Strings.Search.{Finds, strstr-Finds}

runs :
    (strchr (codes "abcb" ++ 0 ∷ []) b'b' ≡ some (at (codes "bcb" ++ 0 ∷ [])))
    × (strrchr (codes "abcb" ++ 0 ∷ []) b'b' ≡ some (at (codes "b" ++ 0 ∷ [])))
    × (strcpy (codes "....") (codes "ab" ++ 0 ∷ []) ≡ some (codes "ab" ++ (0 ∷ codes ".")))
    × (memcmp (codes "abc") (codes "abd") 2 ≡ some 0)
unfolding strchr strrchr strrchr_from strcpy memcmp difference char_value
runs = (refl, refl, refl, refl)

-- An empty text in an empty text is not found, and a search for the NUL from behind gives NULL.
run_ends : (strstr (0 ∷ []) (0 ∷ []) ≡ some null) × (strrchr (codes "a" ++ 0 ∷ []) 0 ≡ some null)
unfolding strstr strstr_from strlen strrchr strrchr_from char_value
run_ends = (refl, refl)

strcmp-zero_iff_example :
    (strcmp (codes "ab" ++ 0 ∷ []) (codes "ac" ++ 0 ∷ []) ≡ some 0) ↔ (codes "ab" ≡ codes "ac")
strcmp-zero_iff_example =
    strcmp-zero_iff (codes "ab") (codes "ac") [] [] (ground arith) (ground arith)

strstr-Finds_example :
    Finds (codes "abc") (codes "bc") [] (strstr (codes "abc" ++ 0 ∷ []) (codes "bc" ++ 0 ∷ []))
strstr-Finds_example = strstr-Finds (codes "abc") (codes "bc") [] [] (ground arith) (ground arith)
