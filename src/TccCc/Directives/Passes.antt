-- ===== src/TccCc/Directives/Passes.antt =====
-- The lines of nested groups that are passed on.
use mes_replacement.Prelude.{
  and-left, and-right, ℕ, suc, ◌+◌, ◌-◌, ◌≤◌, ◌<◌, ◌≡◌, refl, sym, ap, ◌∙◌, List, [], ◌∷◌, ◌++◌,
  append_assoc, append-nil, some, Bool, true, false, ◌==◌, ltb, arith, if◌then◌else◌,
}
use mes_replacement.TccCc.Directives.{
  Event, if_directive, elif_directive, else_directive, endif_directive, line, Skipping, nr_ifs_max,
  set_done, skip, obey, heed_all,
}
use mes_replacement.TccCc.Directives.Groups.{
  Group, done, a_line, a_group, closed, or_if, otherwise, events_of, lines_of, is_group, larger,
  nesting,
}
use mes_replacement.TccCc.Directives.Laws.{
  state, heed_all-skip, heed_all-obey, heed_all-skipped, heed_all-taken,
}

-- The events pass on the lines and leave the level; at most the flags of deeper levels have changed.
abbrev Passes : List Event → Skipping → List Event → ℕ → (ℕ → Bool) → List ℕ → Type 0
Passes events st rest l f o =
    (f' : ℕ → Bool) × (heed_all events st ≡ heed_all rest (state 0 f' l o))
    × ((i : ℕ) → i ≤ l → f' i ≡ f i)

larger-left : (a b : ℕ) → a ≤ larger a b
larger-left a b = ground arith

larger-right : (a b : ℕ) → b ≤ larger a b
larger-right a b = ground arith

set_done_self : (i : ℕ) (b : Bool) (f : ℕ → Bool) → set_done i b f i ≡ b
set_done_self i b f = let e : (i == i) ≡ true = ground arith in rw e refl

set_done-below : (i j : ℕ) (b : Bool) (f : ℕ → Bool) → j < i → set_done i b f j ≡ f j
set_done-below i j b f h = let e : (j == i) ≡ false = ground (arith, h) in rw e refl

obey-if :
    (v : Bool) (f : ℕ → Bool) (l : ℕ) (o : List ℕ)
    → suc l < nr_ifs_max
    → obey (if_directive v) (state 0 f l o)
      ≡ some (state (if v then 0 else 1) (set_done (suc l) v f) (suc l) o)
unfolding obey
obey-if v f l o h = let e : ltb (suc l) nr_ifs_max ≡ true = ground (arith, h) in rw e refl

skip-else_undone :
    (f : ℕ → Bool) (l : ℕ) (o : List ℕ)
    → f l ≡ false
    → skip else_directive (state 1 f l o) ≡ state 0 f l o
unfolding skip
skip-else_undone f l o h = rw h refl

skip-elif_undone :
    (v : Bool) (f : ℕ → Bool) (l : ℕ) (o : List ℕ)
    → f l ≡ false
    → skip (elif_directive v) (state 1 f l o)
      ≡ (if v then state 0 (set_done l true f) l o else state 1 f l o)
unfolding skip
skip-elif_undone true f l o h = rw h refl
skip-elif_undone false f l o h = rw h refl

-- Behind a group, or `false` behind an `#if` whose branches were not taken so far.
group-Passes :
    (b : Bool) (p : Group) (es : List Event) (f : ℕ → Bool) (l : ℕ) (o : List ℕ)
    → is_group b p ≡ true
    → (if b then l else suc l) + nesting p < nr_ifs_max
    → (if b then false else f (suc l)) ≡ false
    → Passes
        (events_of p es)
        (state (if b then 0 else 1) f (if b then l else suc l) o)
        es
        l
        f
        (o ++ lines_of p)
unfolding obey skip
group-Passes true done es f l o v room undone = (f, rw (append-nil o) refl, λ i h. refl)
group-Passes true (a_line n more) es f l o v room undone =
    let (f', run, same) = group-Passes true more es f l (o ++ n ∷ []) v room refl in
    (
      f',
      heed_all-obey (line n) (events_of more es) f l o _ refl
          ∙ run
          ∙ ap (λ x. heed_all es (state 0 f' l x)) (append_assoc o (n ∷ []) (lines_of more)),
      same,
    )
group-Passes true (a_group true body tail more) es f l o v room undone =
    let others = and-right (is_group true body) _ v in
    let m = larger (nesting body) (nesting tail) in
    let a = larger-left (nesting body) (nesting tail) in
    let b = larger-left (suc m) (nesting more) in
    let c = larger-right (suc m) (nesting more) in
    let f₁ = set_done (suc l) true f in
    let (f₂, run₂, same₂) =
      group-Passes true body (events_of tail (events_of more es)) f₁ (suc l) o
        (and-left (is_group true body) _ v) (omega (arith, room, a, b)) refl in
    let taken = same₂ (suc l) (omega arith) ∙ set_done_self (suc l) true f in
    let (f₃, run₃, same₃) =
      group-Passes true more es f₂ l (o ++ lines_of body) (and-right (is_group false tail) _ others)
        (omega (arith, room, c)) refl in
    (
      f₃,
      heed_all-obey (if_directive true) (events_of body (events_of tail (events_of more es))) f l o
            _ (obey-if true f l o (omega (arith, room, b)))
          ∙ run₂
          ∙ heed_all-taken tail (events_of more es) f₂ l (o ++ lines_of body)
              (and-left (is_group false tail) _ others) taken
          ∙ run₃
          ∙ ap (λ x. heed_all es (state 0 f₃ l x)) (append_assoc o (lines_of body) (lines_of more)),
      λ i h.
          same₃ i h
          ∙ same₂ i (omega (arith, h))
          ∙ set_done-below (suc l) i true f (omega (arith, h)),
    )
group-Passes true (a_group false body tail more) es f l o v room undone =
    let others = and-right (is_group true body) _ v in
    let m = larger (nesting body) (nesting tail) in
    let a = larger-right (nesting body) (nesting tail) in
    let b = larger-left (suc m) (nesting more) in
    let c = larger-right (suc m) (nesting more) in
    let f₁ = set_done (suc l) false f in
    let (f₂, run₂, same₂) =
      group-Passes false tail (events_of more es) f₁ l o (and-left (is_group false tail) _ others)
        (omega (arith, room, a, b)) (set_done_self (suc l) false f) in
    let (f₃, run₃, same₃) =
      group-Passes true more es f₂ l (o ++ lines_of tail) (and-right (is_group false tail) _ others)
        (omega (arith, room, c)) refl in
    (
      f₃,
      heed_all-obey (if_directive false) (events_of body (events_of tail (events_of more es))) f l o
            _ (obey-if false f l o (omega (arith, room, b)))
          ∙ heed_all-skipped true body (events_of tail (events_of more es)) 0 f₁ (suc l) o
              (and-left (is_group true body) _ v)
          ∙ run₂
          ∙ run₃
          ∙ ap (λ x. heed_all es (state 0 f₃ l x)) (append_assoc o (lines_of tail) (lines_of more)),
      λ i h. same₃ i h ∙ same₂ i h ∙ set_done-below (suc l) i false f (omega (arith, h)),
    )
group-Passes false closed es f l o v room undone =
    let k : suc l - 1 ≡ l = omega arith in
    (
      f,
      heed_all-skip endif_directive es 0 f (suc l) o
          ∙ ap (λ m. heed_all es (state 0 f m o)) k
          ∙ ap (λ x. heed_all es (state 0 f l x)) (sym (append-nil o)),
      λ i h. refl,
    )
group-Passes false (or_if true body tail) es f l o v room undone =
    let a = larger-left (nesting body) (nesting tail) in
    let f₁ = set_done (suc l) true f in
    let (f₂, run₂, same₂) =
      group-Passes true body (events_of tail es) f₁ (suc l) o (and-left (is_group true body) _ v)
        (omega (arith, room, a)) refl in
    let taken = same₂ (suc l) (omega arith) ∙ set_done_self (suc l) true f in
    (
      f₂,
      heed_all-skip (elif_directive true) (events_of body (events_of tail es)) 0 f (suc l) o
          ∙ ap (heed_all (events_of body (events_of tail es)))
              (skip-elif_undone true f (suc l) o undone)
          ∙ run₂
          ∙ heed_all-taken tail es f₂ l (o ++ lines_of body) (and-right (is_group true body) _ v)
              taken,
      λ i h. same₂ i (omega (arith, h)) ∙ set_done-below (suc l) i true f (omega (arith, h)),
    )
group-Passes false (or_if false body tail) es f l o v room undone =
    let a = larger-right (nesting body) (nesting tail) in
    let (f₂, run₂, same₂) =
      group-Passes false tail es f l o (and-right (is_group true body) _ v) (omega (arith, room, a))
        undone in
    (
      f₂,
      heed_all-skip (elif_directive false) (events_of body (events_of tail es)) 0 f (suc l) o
          ∙ ap (heed_all (events_of body (events_of tail es)))
              (skip-elif_undone false f (suc l) o undone)
          ∙ heed_all-skipped true body (events_of tail es) 0 f (suc l) o
              (and-left (is_group true body) _ v)
          ∙ run₂,
      same₂,
    )
group-Passes false (otherwise body) es f l o v room undone =
    let k : suc l - 1 ≡ l = omega arith in
    let (f₂, run₂, same₂) = group-Passes true body (endif_directive ∷ es) f (suc l) o v room refl in
    (
      f₂,
      heed_all-skip else_directive (events_of body (endif_directive ∷ es)) 0 f (suc l) o
          ∙ ap (heed_all (events_of body (endif_directive ∷ es)))
              (skip-else_undone f (suc l) o undone)
          ∙ run₂
          ∙ heed_all-obey endif_directive es f₂ (suc l) (o ++ lines_of body) _ refl
          ∙ ap (λ m. heed_all es (state 0 f₂ m (o ++ lines_of body))) k,
      λ i h. same₂ i (omega (arith, h)),
    )
group-Passes true closed es f l o v room undone = absurd (ground (arith, v))
group-Passes true (or_if c body tail) es f l o v room undone = absurd (ground (arith, v))
group-Passes true (otherwise body) es f l o v room undone = absurd (ground (arith, v))
group-Passes false done es f l o v room undone = absurd (ground (arith, v))
group-Passes false (a_line n more) es f l o v room undone = absurd (ground (arith, v))
group-Passes false (a_group c body tail more) es f l o v room undone = absurd (ground (arith, v))

-- Of a text of lines and groups that are nested less than forty deep, exactly the lines of the first
-- branch whose condition holds are passed on, in every group, and behind the text nothing is skipped
-- and no group is open.
pub heed_all-events_of :
    (p : Group) (f : ℕ → Bool)
    → is_group true p ≡ true
    → nesting p < nr_ifs_max
    → (f' : ℕ → Bool) × (heed_all (events_of p []) (state 0 f 0 [])
        ≡ some (state 0 f' 0 (lines_of p)))
unfolding heed_all
heed_all-events_of p f v room =
    let (f', run, same) = group-Passes true p [] f 0 [] v (omega (arith, room)) refl in (f', run)
