-- ===== src/TccCc/Code/Laws/Operands.antt =====
-- What the words for types and operators do to the stack.
use mes_replacement.Prelude.{
  ℕ, suc, refl, List, [], ◌∷◌, ◌++◌, Option, none, some, Bool, true, false, ◌==◌, ◌||◌, ltb,
  if◌then◌else◌, inl, inr, Option-cases, codes, Bytes,
}
use mes_replacement.TccCc.Types.{CType, BaseType, base, bool_type, Target, base_of, type_is_pointer}
use mes_replacement.TccCc.Code.{◌>>=◌, Word, push_number, one, two, exchange}
use mes_replacement.TccCc.Code.Operands.{
  signed_words, gen_canonical_cast, cast_of_base, mask, inc_dec_value, scale, get_value,
}
use mes_replacement.TccCc.Code.Operators.{plus_words, minus_words, binary_words, compare_words}
use mes_replacement.TccCc.Code.Effect.{
  run, follow, Keeps, Joins, Makes, some-Makes, if-Makes, bind-Makes, run-Makes,
}

pub signed_words-Keeps : (type : Option CType) → Keeps (signed_words type)
unfolding run ◌>>=◌
signed_words-Keeps none d fs = refl
signed_words-Keeps (some (base BaseType.void)) d fs = refl
signed_words-Keeps (some (base BaseType.s8)) d fs = refl
signed_words-Keeps (some (base BaseType.u8)) d fs = refl
signed_words-Keeps (some (base BaseType.s16)) d fs = refl
signed_words-Keeps (some (base BaseType.u16)) d fs = refl
signed_words-Keeps (some (base BaseType.s32)) d fs = refl
signed_words-Keeps (some (base BaseType.u32)) d fs = refl
signed_words-Keeps (some (base BaseType.s64)) d fs = refl
signed_words-Keeps (some (base BaseType.u64)) d fs = refl
signed_words-Keeps (some (base BaseType.float)) d fs = refl
signed_words-Keeps (some (base BaseType.double)) d fs = refl
signed_words-Keeps (some (base BaseType.jmp_buf)) d fs = refl
signed_words-Keeps (some (base BaseType.file)) d fs = refl
signed_words-Keeps (some (base BaseType.time_t)) d fs = refl
signed_words-Keeps (some bool_type) d fs = refl
signed_words-Keeps (some (CType.struct_type n)) d fs = refl
signed_words-Keeps (some (CType.union_type n)) d fs = refl
signed_words-Keeps (some (CType.pointer t)) d fs = refl
signed_words-Keeps (some CType.untyped_pointer) d fs = refl
signed_words-Keeps (some (CType.array t n)) d fs = refl
signed_words-Keeps (some (CType.function t n more)) d fs = refl
signed_words-Keeps (some CType.enum_type) d fs = refl

pub get_value-Keeps : (g : Target) (type : Option CType) → Keeps (get_value g type)
unfolding run ◌>>=◌
get_value-Keeps g type d fs = signed_words-Keeps type d fs

if-Keeps : (b : Bool) (xs : List Word) → Keeps xs → Keeps (if b then xs else [])
unfolding run
if-Keeps true xs h d fs = h d fs
if-Keeps false xs h d fs = refl

cast_of_base-Keeps : (g : Target) (b : BaseType) → Keeps (cast_of_base g b)
unfolding run ◌>>=◌
cast_of_base-Keeps g BaseType.void d fs = refl
cast_of_base-Keeps g BaseType.s8 d fs = refl
cast_of_base-Keeps g BaseType.u8 d fs = refl
cast_of_base-Keeps g BaseType.s16 d fs = refl
cast_of_base-Keeps g BaseType.u16 d fs = refl
cast_of_base-Keeps g BaseType.s32 d fs =
    if-Keeps (g.long_long_size == 8) (one (codes "long") ∷ []) (λ d fs. refl) d fs
cast_of_base-Keeps g BaseType.u32 d fs =
    if-Keeps (g.long_long_size == 8) (mask (codes "0xFFFFFFFF")) (λ d fs. refl) d fs
cast_of_base-Keeps g BaseType.s64 d fs = refl
cast_of_base-Keeps g BaseType.u64 d fs = refl
cast_of_base-Keeps g BaseType.float d fs = refl
cast_of_base-Keeps g BaseType.double d fs = refl
cast_of_base-Keeps g BaseType.jmp_buf d fs = refl
cast_of_base-Keeps g BaseType.file d fs = refl
cast_of_base-Keeps g BaseType.time_t d fs = refl

pub gen_canonical_cast-Keeps :
    (g : Target) (type : Option CType) → Keeps (gen_canonical_cast g type)
unfolding gen_canonical_cast run
gen_canonical_cast-Keeps g none d fs = refl
gen_canonical_cast-Keeps g (some t) d fs = elim (Option-cases (base_of t)) [
  | inl h ↦ rw (gen_canonical_cast, h) refl
  | inr (b, h) ↦ rw (gen_canonical_cast, h) (cast_of_base-Keeps g b d fs)
]

pub if_cast-Keeps :
    (b : Bool) (g : Target) (type : Option CType)
    → Keeps (if b then gen_canonical_cast g type else [])
if_cast-Keeps b g type = if-Keeps b (gen_canonical_cast g type) (gen_canonical_cast-Keeps g type)

pub scale-Keeps : (n : ℕ) → Keeps (scale n)
unfolding run ◌>>=◌
scale-Keeps n = if-Keeps (ltb 1 n) (push_number n ∷ two (codes "*") ∷ []) (λ d fs. refl)

-- Two values become one, and that one is changed.
pub two-Joins : (o : Bytes) (ws : List Word) → Keeps ws → Joins (two o ∷ ws)
unfolding run ◌>>=◌
two-Joins o ws k = k

pub scale-Joins : (n : ℕ) (o : Bytes) → Joins (scale n ++ (two o ∷ []))
unfolding run ◌>>=◌
scale-Joins n o d fs =
    follow (scale n) (two o ∷ []) (suc (suc d), fs) (scale-Keeps n (suc d) fs) refl

exchange-Joins :
    (m : ℕ) (o : Bytes) (b : Bool) → Joins ((if b then exchange ∷ scale m else []) ++ (two o ∷ []))
unfolding run ◌>>=◌
exchange-Joins m o true d fs = scale-Joins m o d fs
exchange-Joins m o false d fs = refl

plus_words-Joins : (g : Target) (l r : Option CType) → Makes Joins (plus_words g l r)
plus_words-Joins g l r = bind-Makes Joins (inc_dec_value g l) _ (λ n e.
    if-Makes Joins (ltb 1 n) _ _ (some-Makes Joins _ (scale-Joins n (codes "+"))) (
      bind-Makes Joins (inc_dec_value g r) _
        (λ m f. some-Makes Joins _ (exchange-Joins m (codes "+") (ltb 1 m)))))

pointer_minus-Joins :
    (n : ℕ) (b : Bool)
    → Joins (
        if b
        then two (codes "-p") ∷ (if ltb 1 n then push_number n ∷ two (codes "/") ∷ [] else [])
        else scale n ++ (two (codes "-") ∷ []))
unfolding run ◌>>=◌
pointer_minus-Joins n true d fs =
    if-Keeps (ltb 1 n) (push_number n ∷ two (codes "/") ∷ []) (λ e gs. refl) d fs
pointer_minus-Joins n false d fs = scale-Joins n (codes "-") d fs

minus_words-Joins : (g : Target) (l r : Option CType) → Makes Joins (minus_words g l r)
unfolding run ◌>>=◌
minus_words-Joins g l r =
    if-Makes Joins (type_is_pointer l) _ _
      (bind-Makes Joins (inc_dec_value g l) _
        (λ n e. some-Makes Joins _ (pointer_minus-Joins n (type_is_pointer r))))
      (some-Makes Joins _ (λ d fs. refl))

pub binary_words-Joins :
    (g : Target) (kind : ℕ) (type l r : Option CType) → Makes Joins (binary_words g kind type l r)
unfolding binary_words run ◌>>=◌
binary_words-Joins g kind type l r =
    run-Makes Joins Joins _ _
      (if-Makes Joins (kind == b'+') _ _ (plus_words-Joins g l r) (
        if-Makes Joins (kind == b'-') _ _ (minus_words-Joins g l r)
          (some-Makes Joins _ (λ d fs. refl))))
      (λ ws j.
        some-Makes Joins _
          (λ d fs. follow ws _ (suc (suc d), fs) (j d fs) (if_cast-Keeps _ g type d fs)))

pub compare_words-Joins :
    (g : Target) (kind : ℕ) (type l r : Option CType) → Joins (compare_words g kind type l r)
unfolding compare_words
compare_words-Joins g kind type l r =
    two-Joins _ _ (if_cast-Keeps (kind == b'/' || kind == b'%') g type)
