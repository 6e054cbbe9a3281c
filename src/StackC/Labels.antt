-- ===== src/StackC/Labels.antt =====
-- The labels of loops, switches and branches in the emitted text: which piece jumps to which, and
-- which piece defines it.
pub mod Linked
pub mod Run
mod Tests
use mes_replacement.Prelude.{ℕ, ◌≡◌, refl, ap, sym, ◌∙◌, List, [], ◌∷◌, ◌++◌, append_assoc, Bytes}
use mes_replacement.StackC.Emit.{
  Emit, loop_label, jump_loop_end, jump_switch_end, jump_loop, if_test, and_test, or_test,
  loop_close, switch_close, else_jump, else_label, else_missing, else_close, and_close, or_close,
}
use mes_replacement.StackC.State.{
  NestType, loop, switch, if_arm, else_arm, and_arm, or_arm, block, Nest,
}

pub data LabelKind : Type 0 where
  loop_start loop_end switch_end else_start else_end and_end or_end : LabelKind

-- `_<function>_loop<id>` and its kin.
pub data Label : Type 0 where
  label_at : LabelKind → Bytes → ℕ → Label

abbrev pub uses : Emit → List Label
uses (jump_loop_end f id) = label_at loop_end f id ∷ []
uses (jump_switch_end f id) = label_at switch_end f id ∷ []
uses (jump_loop f id) = label_at loop_start f id ∷ []
uses (if_test f id) = label_at else_start f id ∷ []
uses (and_test f id) = label_at and_end f id ∷ []
uses (or_test f id) = label_at or_end f id ∷ []
uses (loop_close f id) = label_at loop_start f id ∷ []
uses (else_jump f id) = label_at else_end f id ∷ []
uses _ = []

abbrev pub defines : Emit → List Label
defines (loop_label f id) = label_at loop_start f id ∷ []
defines (loop_close f id) = label_at loop_end f id ∷ []
defines (switch_close f id) = label_at switch_end f id ∷ []
defines (else_label f id) = label_at else_start f id ∷ []
defines (else_missing f id) = label_at else_start f id ∷ []
defines (else_close f id) = label_at else_end f id ∷ []
defines (and_close f id) = label_at and_end f id ∷ []
defines (or_close f id) = label_at or_end f id ∷ []
defines _ = []

abbrev pub all_labels : (Emit → List Label) → List Emit → List Label
all_labels g [] = []
all_labels g (e ∷ es) = g e ++ all_labels g es

-- The label that is defined where the block closes.
abbrev pub end_label : NestType → Bytes → ℕ → List Label
end_label block f id = []
end_label loop f id = label_at loop_end f id ∷ []
end_label switch f id = label_at switch_end f id ∷ []
end_label if_arm f id = label_at else_start f id ∷ []
end_label else_arm f id = label_at else_end f id ∷ []
end_label and_arm f id = label_at and_end f id ∷ []
end_label or_arm f id = label_at or_end f id ∷ []

-- The labels that the open blocks have still to define.
abbrev pub pending : Bytes → List Nest → List Label
pending f [] = []
pending f (n ∷ rest) = end_label n.type f n.id ++ pending f rest

pub all_labels-append :
    (g : Emit → List Label) (es fs : List Emit)
    → all_labels g (es ++ fs) ≡ all_labels g es ++ all_labels g fs
all_labels-append g [] fs = refl
all_labels-append g (e ∷ es) fs =
    ap (◌++◌ (g e)) (all_labels-append g es fs) ∙ sym (append_assoc (g e) _ _)
