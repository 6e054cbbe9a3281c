-- ===== src/StackC/Render/Aarch64.antt =====
-- The text of src/stack_c_aarch64.c for each piece of output.
use mes_replacement.Prelude.{
  ℕ, ◌*◌, List, [], ◌∷◌, ◌++◌, ◌&&◌, ltb, if◌then◌else◌, Bytes, codes, print_d, print_u,
}
use mes_replacement.StackC.Emit.{
  Emit, echo, function_start, loop_label, jump_loop_end, jump_switch_end, jump_loop, if_test,
  and_test, or_test, loop_close, switch_close, else_jump, else_label, else_missing, else_close,
  and_close, or_close, goto_label, define_label, push_global, push_function, push_const, push_local,
  push_static, push_number, push_string, push_char, call, arrow, operator, data_header, data_end,
  string_def, global_def, static_def,
}
use mes_replacement.StackC.Render.{
  char_word, save_print_string, text_of, header_text, end_text, string_text, global_text,
  static_text,
}

-- The operators, in the order of the branches.
unfoldable pub operator_texts : List (ℕ × Bytes)
operator_texts =
    (b'R', codes "\tLDR_X30_BP            # return\n\tRETURN\n")
    ∷ (b';', codes "\tPOP_X0                # ;\n")
    ∷ (b'$', codes "\tPUSH_X0               # $ (dup)\n")
    ∷ (b'?', codes "\tLDR_X0_X0             # ?\n")
    ∷ (b'=', codes "\tPOP_X1                # =\n\tSTR_X0_X1\n")
    ∷ (b'+', codes "\tPOP_X1                # +\n\tADD_X0_X0_X1\n")
    ∷ (b'-', codes "\tPOP_X1                # -\n\tSUB_X0_X1_X0\n")
    ∷ (b'y', codes "\tPOP_X1                # -\n\tSUB_X0_X1_X0\n")
    ∷ (b'*', codes "\tPOP_X1                # *\n\tMUL_X0_X0_X1\n")
    ∷ (b'&', codes "\tPOP_X1                # &\n\tAND_X0_X0_X1\n")
    ∷ (b'|', codes "\tPOP_X1                # |\n\tORR_X0_X0_X1\n")
    ∷ (b'^', codes "\tPOP_X1                # ^\n\tEOR_X0_X0_X1\n")
    ∷ (b'~', codes "\tMVN_X0_X0             # ~\n")
    ∷ (b'/', codes "\tMOV_X1_X0             # /\n\tPOP_X0\n\tUDIV_X0_X0_X1\n")
    ∷ (b'%', codes "\tMOV_X1_X0             # %\n\tPOP_X0\n\tUDIV_X2_X0_X1\n\tMSUB_X0_X2_X1_X0\n")
    ∷ (b'<', codes "\tPOP_X1                # <\n\tCMP_X1_X0\n\tCSET_X0_CC\n")
    ∷ (b'>', codes "\tPOP_X1                # >\n\tCMP_X1_X0\n\tCSET_X0_HI\n")
    ∷ (b'!', codes "\tCMP_X0_0              # !\n\tCSET_X0_EQ\n")
    ∷ (b'a', codes "\tPOP_X1                # =:\n\tSTR_X1_X0\n\tPOP_X0\n")
    ∷ (b'b', codes "\tLDRB_W0_X0            # ?1\n")
    ∷ (b'c', codes "\tLDRH_W0_X0            # ?2\n")
    ∷ (b'd', codes "\tLDR_W0_X0             # ?4\n")
    ∷ (b'K', codes "\tSXTB_X0_W0            # char\n")
    ∷ (b'M', codes "\tSXTH_X0_W0            # short\n")
    ∷ (b'O', codes "\tSXTW_X0_W0            # long\n")
    ∷ (b'e', codes "\tPOP_X1                # =1\n\tSTRB_W0_X1\n")
    ∷ (b'f', codes "\tPOP_X1                # =2\n\tSTRH_W0_X1\n")
    ∷ (b'g', codes "\tPOP_X1                # =4\n\tSTR_W0_X1\n")
    ∷ (b'i', codes "\tMOV_X1_X0             # /s\n\tPOP_X0\n\tSDIV_X0_X0_X1\n")
    ∷ (b'j', codes "\tMOV_X1_X0             # %s\n\tPOP_X0\n\tSDIV_X2_X0_X1\n\tMSUB_X0_X2_X1_X0\n")
    ∷ (b'k', codes "\tPOP_X1                # ==\n\tCMP_X1_X0\n\tCSET_X0_EQ\n")
    ∷ (b'l', codes "\tPOP_X1                # !=\n\tCMP_X1_X0\n\tCSET_X0_NE\n")
    ∷ (b'm', codes "\tPOP_X1                # <=\n\tCMP_X1_X0\n\tCSET_X0_LS\n")
    ∷ (b'n', codes "\tPOP_X1                # >=\n\tCMP_X1_X0\n\tCSET_X0_CS\n")
    ∷ (b'o', codes "\tPOP_X1                # <s\n\tCMP_X1_X0\n\tCSET_X0_LT\n")
    ∷ (b'p', codes "\tPOP_X1                # <=s\n\tCMP_X1_X0\n\tCSET_X0_LE\n")
    ∷ (b'q', codes "\tPOP_X1                # >s\n\tCMP_X1_X0\n\tCSET_X0_GT\n")
    ∷ (b'r', codes "\tPOP_X1                # >=s\n\tCMP_X1_X0\n\tCSET_X0_GE\n")
    ∷ (b's', codes "\tMOV_X1_X0             # <<\n\tPOP_X0\n\tLSL_X0_X0_X1\n")
    ∷ (b't', codes "\tMOV_X1_X0             # >>\n\tPOP_X0\n\tLSR_X0_X0_X1\n")
    ∷ (b'x', codes "\tMOV_X1_X0             # >< swap\n\tPOP_X0\n\tPUSH_X1\n")
    ∷ []

unfoldable pub piece : Emit → Bytes
unfolding operator_texts
piece (function_start f) = codes "\n:f_" ++ (f ++ (codes "\n\tSTR_X30_BP\n\tPOP_X0\n"))
piece (loop_label f id) = codes ":_" ++ (f ++ (codes "_loop" ++ (print_d id ++ (codes "\n"))))
piece (jump_loop_end f id) =
    codes "\tLOAD_W16_AHEAD\n\tSKIP_32_DATA\n\t&_"
    ++ (f ++ (codes "_loop_end" ++ (print_d id ++ (codes "\n\tBR_X16\n"))))
piece (jump_switch_end f id) =
    codes "\tLOAD_W16_AHEAD\n\tSKIP_32_DATA\n\t&_"
    ++ (f ++ (codes "_switch_end" ++ (print_d id ++ (codes "\n\tBR_X16\n"))))
piece (jump_loop f id) =
    codes "\tLOAD_W16_AHEAD\n\tSKIP_32_DATA\n\t&_"
    ++ (f ++ (codes "_loop" ++ (print_d id ++ (codes "\n\tBR_X16\n"))))
piece (if_test f id) =
    codes
      "\tCMP_X0_0              # if\n\tPOP_X0\n\tSKIP_INST_NE\n\tLOAD_W16_AHEAD\n\tSKIP_32_DATA\n\t&_"
    ++ (f ++ (codes "_else" ++ (print_d id ++ (codes "\n\tBR_X16\n"))))
piece (and_test f id) =
    codes "\tCMP_X0_0              # &&\n\tSKIP_INST_NE\n\tLOAD_W16_AHEAD\n\tSKIP_32_DATA\n\t&_"
    ++ (f ++ (codes "_and_end" ++ (print_d id ++ (codes "\n\tBR_X16\n\tPOP_X0\n"))))
piece (or_test f id) =
    codes "\tCMP_X0_0              # ||\n\tSKIP_INST_EQ\n\tLOAD_W16_AHEAD\n\tSKIP_32_DATA\n\t&_"
    ++ (f ++ (codes "_or_end" ++ (print_d id ++ (codes "\n\tBR_X16\n\tPOP_X0\n"))))
piece (loop_close f id) =
    codes "\tLOAD_W16_AHEAD\n\tSKIP_32_DATA\n\t&_"
    ++ (f
        ++ (codes "_loop"
            ++ (print_d id
                ++ (codes "\n\tBR_X16\n:_"
                    ++ (f ++ (codes "_loop_end" ++ (print_d id ++ (codes "\n"))))))))
piece (switch_close f id) =
    codes ":_" ++ (f ++ (codes "_switch_end" ++ (print_d id ++ (codes "\n"))))
piece (else_jump f id) =
    codes "\tLOAD_W16_AHEAD\n\tSKIP_32_DATA\n\t&_"
    ++ (f ++ (codes "_else_end" ++ (print_d id ++ (codes "\n\tBR_X16\n"))))
piece (else_label f id) = codes ":_" ++ (f ++ (codes "_else" ++ (print_d id ++ (codes "\n"))))
piece (else_missing f id) =
    codes ":_" ++ (f ++ (codes "_else" ++ (print_d id ++ (codes " # no else\n"))))
piece (else_close f id) = codes ":_" ++ (f ++ (codes "_else_end" ++ (print_d id ++ (codes "\n"))))
piece (and_close f id) = codes ":_" ++ (f ++ (codes "_and_end" ++ (print_d id ++ (codes "\n"))))
piece (or_close f id) = codes ":_" ++ (f ++ (codes "_or_end" ++ (print_d id ++ (codes "\n"))))
piece (goto_label f l) =
    codes "\tLOAD_W16_AHEAD\n\tSKIP_32_DATA\n\t&l_"
    ++ (f ++ (codes "_" ++ (l ++ (codes "\n\tBR_X16\n"))))
piece (define_label f l) = codes ":l_" ++ (f ++ (codes "_" ++ (l ++ (codes "\n"))))
piece (push_global name) =
    codes "\tPUSH_X0               # "
    ++ (name
        ++ (codes " (global)\n\tLOAD_W0_AHEAD\n\tSKIP_32_DATA\n\t&g_" ++ (name ++ (codes "\n"))))
piece (push_function name) =
    codes "\tPUSH_X0               # "
    ++ (name
        ++ (codes " (function)\n\tLOAD_W0_AHEAD\n\tSKIP_32_DATA\n\t&f_" ++ (name ++ (codes "\n"))))
piece (push_const v name) =
    codes "\tPUSH_X0               # "
    ++ (print_u v
        ++ (codes " (const "
            ++ (name
                ++ (codes ")\n\tLOAD_W0_AHEAD\n\tSKIP_32_DATA\n\t%"
                    ++ (print_u v ++ (codes "\n"))))))
piece (push_local name p) =
    codes "\tPUSH_X0               # "
    ++ (name
        ++ (codes " (local)\n\tLOAD_W1_AHEAD\n\tSKIP_32_DATA\n\t%"
            ++ (print_d (8 * p) ++ (codes "\n\tADD_X0_X17_X1\n"))))
piece (push_static name v) =
    codes "\tPUSH_X0               # "
    ++ (name
        ++ (codes " (static)\n\tLOAD_W0_AHEAD\n\tSKIP_32_DATA\n\t&static_"
            ++ (print_d v ++ (codes "_" ++ (name ++ (codes "\n"))))))
piece (push_number n) =
    codes "\tPUSH_X0               # "
    ++ (print_u n
        ++ (codes "\n\tLOAD_W0_AHEAD\n\tSKIP_32_DATA\n\t%" ++ (print_u n ++ (codes "\n"))))
piece (call p) =
    codes "\tLOAD_W1_AHEAD         # ()\n\tSKIP_32_DATA\n\t%"
    ++ (print_d (8 * p)
        ++ (codes
              "\n\tADD_X17_X17_X1\n\tSET_X16_FROM_X0\n\tBLR_X16\n\tLOAD_W1_AHEAD\n\tSKIP_32_DATA\n\t%"
            ++ (print_d (8 * p) ++ (codes "\n\tSUB_X17_X17_X1\n"))))
piece (arrow v) =
    codes "\tLDR_X0_X0             # ->\n\tLOAD_W1_AHEAD\n\tSKIP_32_DATA\n\t%"
    ++ (print_d v ++ (codes "\n\tADD_X0_X0_X1\n"))
piece (push_char c) =
    if ltb 32 c && ltb c 127
    then codes "\tPUSH_X0               # '"
      ++ (c ∷ codes "'\n\tLOAD_W0_AHEAD\n\tSKIP_32_DATA\n\t%"
          ++ (print_d (char_word c) ++ (codes "\n")))
    else codes "\tPUSH_X0               # "
      ++ (print_d (char_word c)
          ++ (codes "\n\tLOAD_W0_AHEAD\n\tSKIP_32_DATA\n\t%"
              ++ (print_d (char_word c) ++ (codes "\n"))))
piece (push_string s nr) =
    codes "\tPUSH_X0               # '"
    ++ (save_print_string s
        ++ (codes "'\n\tLOAD_W0_AHEAD\n\tSKIP_32_DATA\n\t&string_" ++ (print_d nr ++ (codes "\n"))))
piece (operator s) = text_of operator_texts s
piece (echo c) = c ∷ []
piece data_header = header_text
piece (string_def nr s) = string_text nr s
piece (global_def name size) = global_text name size
piece (static_def nr name size) = static_text nr name size
piece data_end = end_text
