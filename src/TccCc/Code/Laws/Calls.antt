-- ===== src/TccCc/Code/Laws/Calls.antt =====
-- Calls: the arguments and the function give way to the result.
use mes_replacement.Prelude.{
  ℕ, zero, suc, ◌+◌, ◌-◌, ◌≡◌, refl, ap, subst, ◌∙◌, List, [], ◌∷◌, ◌++◌, some, Bool, true, false,
  ◌&&◌, leb, ltb, if◌then◌else◌, codes, length, Bytes, arith, inl, inr, Option-cases,
}
use mes_replacement.TccCc.Types.{CType, Target}
use mes_replacement.TccCc.Code.{
  ◌>>=◌, Word, push_name, push_number, fetch, store, two, ignore, call, open_block, local_array,
}
use mes_replacement.TccCc.Code.Branches.{Child, type_of_child, is_pointer_kind}
use mes_replacement.TccCc.Code.Generate.{
  var_args_name, declared, values_code, behind, var_args_code, more_args_code, closing, called_code,
  args_code, va_start_of, typed_call, call_code,
}
use mes_replacement.TccCc.Code.Effect.{
  Frame, block, run, calls, follow, Pushes, Makes, some-Makes, if-Makes, bind-Makes, run-Makes,
}
use mes_replacement.TccCc.Code.Laws.Branches.{AllPush}

-- So many values more.
abbrev pub PushesMany : ℕ → List Word → Type 0
PushesMany n ws = (d : ℕ) (fs : List Frame) → run ws (d, fs) ≡ some (n + d, fs)

one_more : (n : ℕ) (a b : List Word) → Pushes a → PushesMany n b → PushesMany (suc n) (a ++ b)
one_more n a b p q d fs =
    let same : n + suc d ≡ suc n + d = omega arith in
    follow a b (d, fs) (p d fs) (q (suc d) fs ∙ ap (λ m. some (m, fs)) same)

values_code-Pushes :
    (n : ℕ) (cs : List Child) → AllPush cs → Makes (PushesMany n) (values_code n cs)
unfolding values_code run
values_code-Pushes zero cs all =
    some-Makes (PushesMany zero) [] (λ d fs. ap (λ m. some (m, fs)) (omega arith))
values_code-Pushes (suc n) [] all = λ ws e. absurd (ground (arith, e))
values_code-Pushes (suc n) (c ∷ cs) all =
    run-Makes Pushes (PushesMany (suc n)) _ _ ((all 0 c refl).0) (λ a p.
      run-Makes (PushesMany n) (PushesMany (suc n)) _ _
        (values_code-Pushes n cs (λ m x e. all (suc m) x e))
        (λ b q. some-Makes (PushesMany (suc n)) _ (one_more n a b p q)))

behind-AllPush : (n : ℕ) (cs : List Child) → AllPush cs → AllPush (behind n cs)
behind-AllPush zero cs all = all
behind-AllPush (suc n) [] all = all
behind-AllPush (suc n) (c ∷ cs) all = behind-AllPush n cs (λ m x e. all (suc m) x e)

call-run : (n d : ℕ) (fs : List Frame) → run (call n ∷ []) (suc (n + d), fs) ≡ some (suc d, fs)
unfolding run ◌>>=◌
call-run n d fs =
    let enough : leb (suc n) (suc (n + d)) ≡ true = ground arith in
    let rest : suc (n + d) - n ≡ suc d = omega arith in
    let called : calls n (suc (n + d), fs) ≡ some (suc d, fs) =
      rw enough (ap (λ m. some (m, fs)) rest) in
    ap (λ o. o >>= run []) called

pointed :
    (n d : ℕ) (fs : List Frame) (b : Bool)
    → run ((if b then fetch 0 ∷ [] else []) ++ (call n ∷ [])) (suc (n + d), fs) ≡ some (suc d, fs)
unfolding run ◌>>=◌
pointed n d fs true = call-run n d fs
pointed n d fs false = call-run n d fs

Calls : ℕ → List Word → Type 0
Calls n ws = (d : ℕ) (fs : List Frame) → run ws (n + d, fs) ≡ some (suc d, fs)

-- The function, with its arguments below it.
called_code-run :
    (n : ℕ) (type : CType) (f : Child)
    → Makes Pushes f.address
    → Makes (Calls n) (called_code n type f)
unfolding Calls
called_code-run n type f p = run-Makes Pushes (Calls n) _ _ p (λ a q.
    some-Makes (Calls n) _
      (λ d fs. follow a _ (n + d, fs) (q (n + d) fs) (pointed n d fs (is_pointer_kind type))))

argument :
    (i : List Word) (a b : List Word) (d : ℕ) (fs : List Frame)
    → ((e : ℕ) (gs : List Frame) → run i (suc e, gs) ≡ some (suc e, gs))
    → Pushes a
    → run b (d, fs) ≡ some (d, fs)
    → run (push_name var_args_name ∷ (i ++ (a ++ (store 0 ∷ ignore ∷ b)))) (d, fs) ≡ some (d, fs)
unfolding run ◌>>=◌
argument i a b d fs k p h =
    follow i _ (suc d, fs) (k d fs) (follow a _ (suc d, fs) (p (suc d) fs) h)

Idles : List Word → Type 0
Idles ws = (d : ℕ) (fs : List Frame) → run ws (d, fs) ≡ some (d, fs)

offset :
    (n : ℕ) (b : Bool) (e : ℕ) (gs : List Frame)
    → run (if b then push_number n ∷ two (codes "+") ∷ [] else []) (suc e, gs) ≡ some (suc e, gs)
unfolding run ◌>>=◌
offset n true e gs = refl
offset n false e gs = refl

var_args_code-Idles :
    (g : Target) (i : ℕ) (cs : List Child) → AllPush cs → Makes Idles (var_args_code g i cs)
unfolding var_args_code run Idles
var_args_code-Idles g i [] all = some-Makes Idles [] (λ d fs. refl)
var_args_code-Idles g i (c ∷ cs) all = run-Makes Pushes Idles _ _ ((all 0 c refl).0) (λ a p.
    run-Makes Idles Idles _ _ (var_args_code-Idles g (suc i) cs (λ m x e. all (suc m) x e))
      (λ b q. some-Makes Idles _ (λ d fs. argument _ a b d fs (offset _ (ltb 0 i)) p (q d fs))))

-- The bracket that stays open behind the arguments.
abbrev left_open : List Child → List Frame → List Frame
left_open [] fs = fs
left_open (c ∷ cs) fs = block ∷ fs

PushesOpen : List Child → List Word → Type 0
PushesOpen cs ws = (d : ℕ) (fs : List Frame) → run ws (d, fs) ≡ some (suc d, left_open cs fs)

open_args :
    (n : ℕ) (ws : List Word) (c : Child) (cs : List Child)
    → Idles ws
    → PushesOpen (c ∷ cs) (open_block ∷ local_array n ∷ (ws ++ (push_name var_args_name ∷ [])))
unfolding run ◌>>=◌ Idles PushesOpen
open_args n ws c cs h d fs = follow ws _ (d, block ∷ fs) (h d (block ∷ fs)) refl

more_args_code-PushesOpen :
    (g : Target) (cs : List Child) → AllPush cs → Makes (PushesOpen cs) (more_args_code g cs)
unfolding run ◌>>=◌ PushesOpen
more_args_code-PushesOpen g [] all = some-Makes (PushesOpen []) _ (λ d fs. refl)
more_args_code-PushesOpen g (c ∷ cs) all =
    run-Makes Idles (PushesOpen (c ∷ cs)) _ _ (var_args_code-Idles g 0 (c ∷ cs) all)
      (λ ws h. some-Makes (PushesOpen (c ∷ cs)) _ (open_args (length (c ∷ cs)) ws c cs h))

closed_by :
    (cs : List Child) (d : ℕ) (fs : List Frame)
    → run (closing cs) (d, left_open cs fs) ≡ some (d, fs)
unfolding run ◌>>=◌
closed_by [] d fs = refl
closed_by (c ∷ cs) d fs = refl

fixed-Pushes :
    (n m : ℕ) (cs : List Child) (ws vs us : List Word)
    → n ≡ suc m
    → PushesMany m ws
    → PushesOpen cs vs
    → Calls n us
    → Pushes (ws ++ (vs ++ (us ++ closing cs)))
unfolding PushesOpen Calls
fixed-Pushes n m cs ws vs us e p q r d fs =
    let same : n + d ≡ suc (m + d) = omega (arith, e) in
    let called =
      subst (λ e. run us (e, left_open cs fs) ≡ some (suc d, left_open cs fs)) same
        (r d (left_open cs fs)) in
    follow ws _ (d, fs) (p d fs)
      (follow vs _ (m + d, fs) (q (m + d) fs)
        (follow us _ (suc (m + d), left_open cs fs) called (closed_by cs (suc d) fs)))

given-Pushes : (n : ℕ) (ws us : List Word) → PushesMany n ws → Calls n us → Pushes (ws ++ us)
unfolding Calls
given-Pushes n ws us p r d fs = follow ws us (d, fs) (p d fs) (r d fs)

fixed_code :
    (g : Target) (n m : ℕ) (type : CType) (f : Child) (cs : List Child)
    → n ≡ suc m
    → Makes Pushes f.address
    → AllPush cs
    → Makes Pushes (
        values_code m cs >>= λ ws. more_args_code g (behind m cs) >>= λ vs.
        called_code n type f >>= λ us. some (ws ++ (vs ++ (us ++ closing (behind m cs)))))
unfolding Calls
fixed_code g n m type f cs e p all =
    run-Makes (PushesMany m) Pushes _ _ (values_code-Pushes m cs all) (λ ws q.
      run-Makes (PushesOpen (behind m cs)) Pushes _ _
        (more_args_code-PushesOpen g (behind m cs) (behind-AllPush m cs all))
        (λ vs o.
          run-Makes (Calls n) Pushes _ _ (called_code-run n type f p)
            (λ us r. some-Makes Pushes _ (fixed-Pushes n m (behind m cs) ws vs us e q o r))))

pub args_code-Pushes :
    (g : Target) (type : CType) (f : Child) (cs : List Child)
    → Makes Pushes f.address
    → AllPush cs
    → Makes Pushes (args_code g type f cs)
unfolding args_code Calls
args_code-Pushes g type f cs p all = fixed_or_given ((declared type).0) ((declared type).1)
  where
    given : Makes Pushes (
        values_code (length cs) cs >>= λ ws.
        called_code (length cs) type f >>= λ us. some (ws ++ us))
    given =
        run-Makes (PushesMany (length cs)) Pushes _ _ (values_code-Pushes (length cs) cs all)
          (λ ws q.
            run-Makes (Calls (length cs)) Pushes _ _ (called_code-run (length cs) type f p)
              (λ us r. some-Makes Pushes _ (given-Pushes (length cs) ws us q r)))

    fixed_or_given :
        (n : ℕ) (more : Bool)
        → Makes Pushes (
            if ltb 0 n && more
            then (values_code (n - 1) cs >>= λ ws. more_args_code g (behind (n - 1) cs) >>= λ vs.
                called_code n type f >>= λ us.
                some (ws ++ (vs ++ (us ++ closing (behind (n - 1) cs)))))
            else (values_code (length cs) cs >>= λ ws.
                called_code (length cs) type f >>= λ us. some (ws ++ us)))
    fixed_or_given zero more = given
    fixed_or_given (suc m) more =
        if-Makes Pushes (ltb 0 (suc m) && more) _ _
          (fixed_code g (suc m) (suc m - 1) type f cs (omega arith) p all) given

typed_call-Pushes : (g : Target) (cs : List Child) → AllPush cs → Makes Pushes (typed_call g cs)
typed_call-Pushes g [] all = λ ws e. absurd (ground (arith, e))
typed_call-Pushes g (f ∷ cs) all = bind-Makes Pushes (type_of_child 0 (f ∷ cs)) _ (λ d e.
    bind-Makes Pushes d _
      (λ type h. args_code-Pushes g type f cs (all 0 f refl).1 (λ n c k. all (suc n) c k)))

started : (n : Bytes) → Pushes (push_name n ∷ push_name var_args_name ∷ fetch 0 ∷ store 0 ∷ [])
unfolding run ◌>>=◌
started n d fs = refl

pub call_code-Pushes : (g : Target) (cs : List Child) → AllPush cs → Makes Pushes (call_code g cs)
unfolding call_code
call_code-Pushes g cs all = elim (Option-cases (va_start_of cs)) [
  | inl h ↦ rw (call_code, h) (typed_call-Pushes g cs all)
  | inr (n, h) ↦ rw (call_code, h) (some-Makes Pushes _ (started n))
]
