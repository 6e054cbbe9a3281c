-- ===== src/StackC/Emit.antt =====
-- What the compiler writes to `fout`, one value for each `fprintf`; the two back ends differ only in
-- the text that such a value stands for.
use mes_replacement.Prelude.{ℕ, Bytes}

-- `label`, `id`: the numbers of `:_<function>_loop<id>` and its kin; `function` is `function_name`.
pub data Emit : Type 0 where
  -- `fputc`
  echo : ℕ → Emit
  function_start : Bytes → Emit
  loop_label : Bytes → ℕ → Emit
  jump_loop_end jump_switch_end jump_loop : Bytes → ℕ → Emit
  if_test and_test or_test : Bytes → ℕ → Emit
  -- the jump back to the loop's label, and the label behind it
  loop_close : Bytes → ℕ → Emit
  switch_close : Bytes → ℕ → Emit
  else_jump else_label : Bytes → ℕ → Emit
  -- `# no else`
  else_missing : Bytes → ℕ → Emit
  else_close and_close or_close : Bytes → ℕ → Emit
  goto_label define_label : Bytes → Bytes → Emit
  push_global push_function : Bytes → Emit
  push_const : ℕ → Bytes → Emit
  push_local : Bytes → ℕ → Emit
  push_static : Bytes → ℕ → Emit
  push_number : ℕ → Emit
  push_string : Bytes → ℕ → Emit
  push_char : ℕ → Emit
  call : ℕ → Emit
  arrow : ℕ → Emit
  -- a symbol whose text has no argument
  operator : ℕ → Emit
  data_header data_end : Emit
  string_def : ℕ → Bytes → Emit
  global_def : Bytes → ℕ → Emit
  static_def : ℕ → Bytes → ℕ → Emit
