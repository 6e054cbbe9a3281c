-- ===== src/StackC/Render/Amd64.antt =====
-- The text of src/stack_c_amd64.c for each piece of output.
use mes_replacement.Prelude.{
  ℕ, ◌*◌, List, [], ◌∷◌, ◌++◌, ◌&&◌, ltb, if◌then◌else◌, Bytes, codes, print_d, print_u,
}
use mes_replacement.StackC.Emit.{
  Emit, echo, function_start, loop_label, jump_loop_end, jump_switch_end, jump_loop, if_test,
  and_test, or_test, loop_close, switch_close, else_jump, else_label, else_missing, else_close,
  and_close, or_close, goto_label, define_label, push_global, push_function, push_const, push_local,
  push_static, push_number, push_string, push_char, call, arrow, operator, data_header, data_end,
  string_def, global_def, static_def,
}
use mes_replacement.StackC.Render.{
  char_word, save_print_string, text_of, header_text, end_text, string_text, global_text,
  static_text,
}

-- The operators, in the order of the branches.
unfoldable pub operator_texts : List (ℕ × Bytes)
operator_texts =
    (b'R', codes "\tmov_rbx,[rbp]         # return\n\tpush_rbx\n\tret\n")
    ∷ (b';', codes "\tpop_rax               # ;\n")
    ∷ (b'$', codes "\tpush_rax              # $ (dup)\n")
    ∷ (b'?', codes "\tmov_rax,[rax]         # ?\n")
    ∷ (b'=', codes "\tpop_rbx               # =\n\tmov_[rbx],rax\n")
    ∷ (b'+', codes "\tpop_rbx               # +\n\tadd_rax,rbx\n")
    ∷ (b'-', codes "\tpop_rbx               # -\n\tsub_rbx,rax\n\tmov_rax,rbx\n")
    ∷ (b'y', codes "\tpop_rbx               # -\n\tsub_rbx,rax\n\tmov_rax,rbx\n")
    ∷ (b'*', codes "\tpop_rbx               # *\n\tmul_rbx\n")
    ∷ (b'&', codes "\tpop_rbx               # &\n\tand_rax,rbx\n")
    ∷ (b'|', codes "\tpop_rbx               # |\n\tor_rax,rbx\n")
    ∷ (b'^', codes "\tpop_rbx               # ^\n\txor_rax,rbx\n")
    ∷ (b'~', codes "\tnot_rax               # ~\n")
    ∷ (b'/', codes "\tmov_rbx,rax           # /\n\tpop_rax\n\tmov_rdx, %0\n\tdiv_rbx\n")
    ∷ (
      b'%',
      codes "\tmov_rbx,rax           # %\n\tpop_rax\n\tmov_rdx, %0\n\tdiv_rbx\n\tmov_rax,rdx\n",
    )
    ∷ (b'<', codes "\tpop_rbx               # <\n\tcmp_rbx,rax\n\tsetb_al\n\tmovzx_rax,al\n")
    ∷ (b'>', codes "\tpop_rbx               # >\n\tcmp_rbx,rax\n\tseta_al\n\tmovzx_rax,al\n")
    ∷ (b'!', codes "\ttest_rax,rax          # !\n\tsete_al\n\tmovzx_rax,al\n")
    ∷ (b'a', codes "\tpop_rbx               # =:\n\tmov_[rax],rbx\n\tpop_rax\n")
    ∷ (b'b', codes "\tmov_al,[rax]          # ?1\n\tmovzx_rax,al\n")
    ∷ (b'c', codes "\tmov_ax,[rax]          # ?2\n\tand_rax, %65535\n")
    ∷ (b'd', codes "\tmov_ebx,[rax]         # ?4\n\txor_rax,rax\n\tmov_eax,ebx\n")
    ∷ (b'K', codes "\tmovsx_rax,al          # char\n")
    ∷ (b'M', codes "\tmovsx_rax,ax          # short\n")
    ∷ (b'O', codes "\tmovsx_rax,eax         # long\n")
    ∷ (b'e', codes "\tpop_rbx               # =1\n\tmov_[rbx],al\n")
    ∷ (b'f', codes "\tpop_rbx               # =2\n\tmov_[rbx],ax\n")
    ∷ (b'g', codes "\tpop_rbx               # =4\n\tmov_[rbx],eax\n")
    ∷ (b'i', codes "\tmov_rbx,rax           # /s\n\tpop_rax\n\tcqo\n\tidiv_rbx\n")
    ∷ (b'j', codes "\tmov_rbx,rax           # %s\n\tpop_rax\n\tcqo\n\tidiv_rbx\n\tmov_rax,rdx\n")
    ∷ (b'k', codes "\tpop_rbx               # ==\n\tcmp_rbx,rax\n\tsete_al\n\tmovzx_rax,al\n")
    ∷ (b'l', codes "\tpop_rbx               # !=\n\tcmp_rbx,rax\n\tsetne_al\n\tmovzx_rax,al\n")
    ∷ (b'm', codes "\tpop_rbx               # <=\n\tcmp_rbx,rax\n\tsetbe_al\n\tmovzx_rax,al\n")
    ∷ (b'n', codes "\tpop_rbx               # >=\n\tcmp_rbx,rax\n\tsetae_al\n\tmovzx_rax,al\n")
    ∷ (b'o', codes "\tpop_rbx               # <s\n\tcmp_rbx,rax\n\tsetl_al\n\tmovzx_rax,al\n")
    ∷ (b'p', codes "\tpop_rbx               # <=s\n\tcmp_rbx,rax\n\tsetle_al\n\tmovzx_rax,al\n")
    ∷ (b'q', codes "\tpop_rbx               # >s\n\tcmp_rbx,rax\n\tsetg_al\n\tmovzx_rax,al\n")
    ∷ (b'r', codes "\tpop_rbx               # >=s\n\tcmp_rbx,rax\n\tsetge_al\n\tmovzx_rax,al\n")
    ∷ (b's', codes "\tmov_rcx,rax           # <<\n\tpop_rax\n\tshl_rax,cl\n")
    ∷ (b't', codes "\tmov_rcx,rax           # >>\n\tpop_rax\n\tshr_rax,cl\n")
    ∷ (b'x', codes "\tmov_rbx,rax          # >< swap\n\tpop_rax\n\tpush_rbx\n")
    ∷ []

unfoldable pub piece : Emit → Bytes
unfolding operator_texts
piece (function_start f) =
    codes "\n:f_" ++ (f ++ (codes "\n\tpop_rax\n\tmov_[rbp],rax\n\tpop_rax\n"))
piece (loop_label f id) = codes ":_" ++ (f ++ (codes "_loop" ++ (print_d id ++ (codes "\n"))))
piece (jump_loop_end f id) =
    codes "\tjmp %_" ++ (f ++ (codes "_loop_end" ++ (print_d id ++ (codes "\n"))))
piece (jump_switch_end f id) =
    codes "\tjmp %_" ++ (f ++ (codes "_switch_end" ++ (print_d id ++ (codes "\n"))))
piece (jump_loop f id) = codes "\tjmp %_" ++ (f ++ (codes "_loop" ++ (print_d id ++ (codes "\n"))))
piece (if_test f id) =
    codes "\ttest_rax,rax          # if\n\tpop_rax\n\tje %_"
    ++ (f ++ (codes "_else" ++ (print_d id ++ (codes "\n"))))
piece (and_test f id) =
    codes "\ttest_rax,rax          # &&\n\tje %_"
    ++ (f ++ (codes "_and_end" ++ (print_d id ++ (codes "\n\tpop_rax\n"))))
piece (or_test f id) =
    codes "\ttest_rax,rax          # ||\n\tjne %_"
    ++ (f ++ (codes "_or_end" ++ (print_d id ++ (codes "\n\tpop_rax\n"))))
piece (loop_close f id) =
    codes "\tjmp %_"
    ++ (f
        ++ (codes "_loop"
            ++ (print_d id
                ++ (codes "\n:_" ++ (f ++ (codes "_loop_end" ++ (print_d id ++ (codes "\n"))))))))
piece (switch_close f id) =
    codes ":_" ++ (f ++ (codes "_switch_end" ++ (print_d id ++ (codes "\n"))))
piece (else_jump f id) =
    codes "\tjmp %_" ++ (f ++ (codes "_else_end" ++ (print_d id ++ (codes "\n"))))
piece (else_label f id) = codes ":_" ++ (f ++ (codes "_else" ++ (print_d id ++ (codes "\n"))))
piece (else_missing f id) =
    codes ":_" ++ (f ++ (codes "_else" ++ (print_d id ++ (codes " # no else\n"))))
piece (else_close f id) = codes ":_" ++ (f ++ (codes "_else_end" ++ (print_d id ++ (codes "\n"))))
piece (and_close f id) = codes ":_" ++ (f ++ (codes "_and_end" ++ (print_d id ++ (codes "\n"))))
piece (or_close f id) = codes ":_" ++ (f ++ (codes "_or_end" ++ (print_d id ++ (codes "\n"))))
piece (goto_label f l) = codes "\tjmp %l_" ++ (f ++ (codes "_" ++ (l ++ (codes "\n"))))
piece (define_label f l) = codes ":l_" ++ (f ++ (codes "_" ++ (l ++ (codes "\n"))))
piece (push_global name) =
    codes "\tpush_rax              # "
    ++ (name ++ (codes " (global)\n\tmov_rax, &g_" ++ (name ++ (codes "\n"))))
piece (push_function name) =
    codes "\tpush_rax              # "
    ++ (name ++ (codes " (function)\n\tmov_rax, &f_" ++ (name ++ (codes "\n"))))
piece (push_const v name) =
    codes "\tpush_rax              # "
    ++ (print_u v
        ++ (codes " (const " ++ (name ++ (codes ")\n\tmov_rax, %" ++ (print_u v ++ (codes "\n"))))))
piece (push_local name p) =
    codes "\tpush_rax              # "
    ++ (name ++ (codes " (local)\n\tlea_rax,[rbp+DWORD] %" ++ (print_d (8 * p) ++ (codes "\n"))))
piece (push_static name v) =
    codes "\tpush_rax              # "
    ++ (name
        ++ (codes " (static)\n\tmov_rax, &static_"
            ++ (print_d v ++ (codes "_" ++ (name ++ (codes "\n"))))))
piece (push_number n) =
    codes "\tpush_rax              # "
    ++ (print_u n ++ (codes "\n\tmov_rax, %" ++ (print_u n ++ (codes "\n"))))
piece (call p) =
    codes "\tadd_rbp, %"
    ++ (print_d (8 * p)
        ++ (codes "         # ()\n\tcall_rax\n\tsub_rbp, %" ++ (print_d (8 * p) ++ (codes "\n"))))
piece (arrow v) = codes "\tmov_rax,[rax]         # ->\n\tadd_rax, %" ++ (print_d v ++ (codes "\n"))
piece (push_char c) =
    if ltb 32 c && ltb c 127
    then codes "\tpush_rax              # '"
      ++ (c ∷ codes "'\n\tmov_rax, %" ++ (print_d (char_word c) ++ (codes "\n")))
    else codes "\tpush_rax              # "
      ++ (print_d (char_word c)
          ++ (codes "\n\tmov_rax, %" ++ (print_d (char_word c) ++ (codes "\n"))))
piece (push_string s nr) =
    codes "\tpush_rax              # '"
    ++ (save_print_string s ++ (codes "'\n\tmov_rax, &string_" ++ (print_d nr ++ (codes "\n"))))
piece (operator s) = text_of operator_texts s
piece (echo c) = c ∷ []
piece data_header = header_text
piece (string_def nr s) = string_text nr s
piece (global_def name size) = global_text name size
piece (static_def nr name size) = static_text nr name size
piece data_end = end_text
