-- ===== src/StackC/Render/Tests.antt =====
-- Pieces of the two back ends.
use mes_replacement.Prelude.{
  ◌≡◌, ◌≤◌, ◌<◌, refl, codes, print_d, print_u, decimal, decimal_on, here,
}
use mes_replacement.StackC.Emit.{push_char, string_def, push_local, loop_close}
use mes_replacement.StackC.Render.{save_print_string, print_safe, string_text, is_safe, byte_list}
use mes_replacement.StackC.Render.Amd64
use mes_replacement.StackC.Render.Aarch64
use mes_replacement.StackC.Render.Printable.{save_print_string-IsPrintable}

run_amd64 :
    (Amd64.piece (push_char b'a') ≡ codes "\tpush_rax              # 'a'\n\tmov_rax, %97\n")
    × (Amd64.piece (loop_close (codes "f") 3) ≡ codes "\tjmp %_f_loop3\n:_f_loop_end3\n")
    × (Amd64.piece (string_def 0 (codes "a\n")) ≡ codes ":string_0  !97 !10 !0\n")
unfolding Amd64.piece print_d print_u decimal decimal_on string_text is_safe byte_list
run_amd64 = (refl, refl, refl)

run_aarch64 :
    Aarch64.piece (push_local (codes "x") 2)
    ≡ codes
        "\tPUSH_X0               # x (local)\n\tLOAD_W1_AHEAD\n\tSKIP_32_DATA\n\t%16\n\tADD_X0_X17_X1\n"
unfolding Aarch64.piece print_d decimal decimal_on
run_aarch64 = refl

save_print_string-IsPrintable_example : (32 ≤ b'\\') × (b'\\' < 128)
unfolding save_print_string print_safe
save_print_string-IsPrintable_example = save_print_string-IsPrintable (codes "\n") b'\\' here
