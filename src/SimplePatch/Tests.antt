-- ===== src/SimplePatch/Tests.antt =====
-- Runs of the patch program, and its theorems at concrete files.
use mes_replacement.Prelude.{
  ◌≡◌, ◌≢◌, refl, [], none, some, arith, codes, Bytes, same_text, if◌then◌else◌,
}
use mes_replacement.SimplePatch.{
  memsame, same_from, blit, done, die, fault, splice, search_from, patch_buffer_or_die, patch,
  as_int,
}
use mes_replacement.SimplePatch.Replace.{Replaces, patch-Replaces, patch-ne-fault, patch-total}
use mes_replacement.SimplePatch.Program.{
  FileSystem, read_file_or_die, main, Readable, main-Replaces,
}

run-patch :
    (patch (codes "a-b-c") (codes "-") (codes "==") ≡ done (codes "a==b-c"))
    × (patch (codes "abc") (codes "x") (codes "y") ≡ die)
    × (patch [] [] (codes "y") ≡ die)
    × (patch [] (codes "y") [] ≡ fault)
unfolding patch as_int patch_buffer_or_die search_from memsame same_from splice blit
run-patch = (refl, refl, refl, refl)

patch-ne-fault_example : patch (codes "ab") (codes "abc") (codes "z") ≢ fault
patch-ne-fault_example =
    patch-ne-fault (codes "ab") (codes "abc") (codes "z") (omega arith) (omega arith)

patch-total_example : (out : Bytes) × (patch (codes "abcb") (codes "b") (codes "xx") ≡ done out)
patch-total_example =
    patch-total (codes "abcb") (codes "b") (codes "xx") (codes "a") (codes "cb") refl (omega arith)
      (omega arith)

abbrev disk : FileSystem
disk name =
    if same_text name (codes "f")
    then some (record { bytes = codes "a-b"; num_bytes_read = 3 })
    else if same_text name (codes "p")
    then some (record { bytes = codes "-"; num_bytes_read = 1 })
    else if same_text name (codes "q")
    then some (record { bytes = codes "+"; num_bytes_read = 1 })
    else none

run-main : main disk (codes "f") (codes "p") (codes "q") ≡ done (codes "a+b")
unfolding main read_file_or_die patch as_int patch_buffer_or_die search_from memsame same_from
    splice blit
run-main = refl

main-Replaces_example :
    (file before after : Bytes) × Readable disk (codes "f") file
    × Readable disk (codes "p") before
    × Readable disk (codes "q") after
    × Replaces file before after (codes "a+b")
main-Replaces_example = main-Replaces disk (codes "f") (codes "p") (codes "q") run-main

patch-Replaces_example : Replaces (codes "a-b-c") (codes "-") (codes "==") (codes "a==b-c")
unfolding patch as_int patch_buffer_or_die search_from memsame same_from splice blit
patch-Replaces_example = patch-Replaces (codes "a-b-c") (codes "-") (codes "==") refl
