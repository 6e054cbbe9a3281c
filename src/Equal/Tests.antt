-- ===== src/Equal/Tests.antt =====
-- Runs of the comparison.
use mes_replacement.Prelude.{◌≡◌, refl, ◌↔◌, ◌⊎◌, some, codes, []}
use mes_replacement.Equal.{
  opened, refused, fhgetc, same_int, is_end, zero_status, minus_one, compare_files,
}
use mes_replacement.Equal.Laws.{contents, enough, compare_files-zero_iff, compare_files-stops}

runs :
    (compare_files 4 (opened (codes "abc")) (opened (codes "abc")) ≡ some zero_status)
    × (compare_files 4 (opened (codes "abc")) (opened (codes "ab")) ≡ some minus_one)
    × (compare_files 3 refused (opened []) ≡ some zero_status)
unfolding compare_files fhgetc same_int is_end
runs = (refl, refl, refl)

compare_files-zero_iff_example :
    (compare_files (enough (opened (codes "ab"))) (opened (codes "ab")) refused ≡ some zero_status)
    ↔ (contents (opened (codes "ab")) ≡ contents refused)
compare_files-zero_iff_example = compare_files-zero_iff (opened (codes "ab")) refused

compare_files-stops_example :
    (compare_files (enough refused) refused (opened (codes "x")) ≡ some zero_status)
    ⊎ (compare_files (enough refused) refused (opened (codes "x")) ≡ some minus_one)
compare_files-stops_example = compare_files-stops refused (opened (codes "x"))
