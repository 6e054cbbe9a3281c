-- ===== src/TccCc/Directives/Laws.antt =====
-- The directives of nested groups.
use mes_replacement.Prelude.{
  and-left, and-right, ℕ, suc, ◌-◌, ◌≡◌, refl, ap, ◌∙◌, List, ◌∷◌, some, Bool, true, false, ◌==◌,
  arith, if◌then◌else◌,
}
use mes_replacement.TccCc.Directives.{
  Event, if_directive, elif_directive, else_directive, endif_directive, line, Skipping, skip, obey,
  heed, heed_all,
}
use mes_replacement.TccCc.Directives.Groups.{
  Group, done, a_line, a_group, closed, or_if, otherwise, events_of, is_group,
}

abbrev pub state : ℕ → (ℕ → Bool) → ℕ → List ℕ → Skipping
state s f l o = record { skip_level = s; if_done = f; if_level = l; kept = o }

pub heed_all-skip :
    (e : Event) (es : List Event) (s : ℕ) (f : ℕ → Bool) (l : ℕ) (o : List ℕ)
    → heed_all (e ∷ es) (state (suc s) f l o) ≡ heed_all es (skip e (state (suc s) f l o))
unfolding heed_all heed
heed_all-skip e es s f l o = let h : (suc s == 0) ≡ false = ground arith in rw (heed_all, h) refl

pub heed_all-obey :
    (e : Event) (es : List Event) (f : ℕ → Bool) (l : ℕ) (o : List ℕ) (next : Skipping)
    → obey e (state 0 f l o) ≡ some next
    → heed_all (e ∷ es) (state 0 f l o) ≡ heed_all es next
unfolding heed_all heed
heed_all-obey e es f l o next h = rw (heed_all, h) refl

pub skip-endif :
    (s : ℕ) (f : ℕ → Bool) (l : ℕ) (o : List ℕ)
    → skip endif_directive (state (suc (suc s)) f l o) ≡ state (suc s) f l o
unfolding skip
skip-endif s f l o =
    let h : (suc (suc s) == 1) ≡ false = ground arith in
    let k : suc (suc s) - 1 ≡ suc s = omega arith in rw (h, k) refl

skip-elif :
    (v : Bool) (s : ℕ) (f : ℕ → Bool) (l : ℕ) (o : List ℕ)
    → skip (elif_directive v) (state (suc (suc s)) f l o) ≡ state (suc (suc s)) f l o
unfolding skip
skip-elif v s f l o = let h : (suc (suc s) == 1) ≡ false = ground arith in rw h refl

skip-else :
    (s : ℕ) (f : ℕ → Bool) (l : ℕ) (o : List ℕ)
    → skip else_directive (state (suc (suc s)) f l o) ≡ state (suc (suc s)) f l o
unfolding skip
skip-else s f l o = let h : (suc (suc s) == 1) ≡ false = ground arith in rw h refl

-- While lines are skipped, a stretch of text changes nothing, and what closes a group closes it.
pub heed_all-skipped :
    (b : Bool) (p : Group) (es : List Event) (s : ℕ) (f : ℕ → Bool) (l : ℕ) (o : List ℕ)
    → is_group b p ≡ true
    → heed_all (events_of p es) (state (if b then suc s else suc (suc s)) f l o)
      ≡ heed_all es (state (suc s) f l o)
unfolding skip
heed_all-skipped true done es s f l o v = refl
heed_all-skipped true (a_line n more) es s f l o v =
    heed_all-skip (line n) (events_of more es) s f l o ∙ heed_all-skipped true more es s f l o v
heed_all-skipped true (a_group c body tail more) es s f l o v =
    let others = and-right (is_group true body) _ v in
    heed_all-skip (if_directive c) (events_of body (events_of tail (events_of more es))) s f l o
    ∙ heed_all-skipped true body (events_of tail (events_of more es)) (suc s) f l o
        (and-left (is_group true body) _ v)
    ∙ heed_all-skipped false tail (events_of more es) s f l o
        (and-left (is_group false tail) _ others)
    ∙ heed_all-skipped true more es s f l o (and-right (is_group false tail) _ others)
heed_all-skipped true closed es s f l o v = absurd (ground (arith, v))
heed_all-skipped true (or_if c body tail) es s f l o v = absurd (ground (arith, v))
heed_all-skipped true (otherwise body) es s f l o v = absurd (ground (arith, v))
heed_all-skipped false done es s f l o v = absurd (ground (arith, v))
heed_all-skipped false (a_line n more) es s f l o v = absurd (ground (arith, v))
heed_all-skipped false (a_group c body tail more) es s f l o v = absurd (ground (arith, v))
heed_all-skipped false closed es s f l o v =
    heed_all-skip endif_directive es (suc s) f l o ∙ ap (heed_all es) (skip-endif s f l o)
heed_all-skipped false (or_if c body tail) es s f l o v =
    heed_all-skip (elif_directive c) (events_of body (events_of tail es)) (suc s) f l o
    ∙ ap (heed_all (events_of body (events_of tail es))) (skip-elif c s f l o)
    ∙ heed_all-skipped true body (events_of tail es) (suc s) f l o
        (and-left (is_group true body) _ v)
    ∙ heed_all-skipped false tail es s f l o (and-right (is_group true body) _ v)
heed_all-skipped false (otherwise body) es s f l o v =
    heed_all-skip else_directive (events_of body (endif_directive ∷ es)) (suc s) f l o
    ∙ ap (heed_all (events_of body (endif_directive ∷ es))) (skip-else s f l o)
    ∙ heed_all-skipped true body (endif_directive ∷ es) (suc s) f l o v
    ∙ heed_all-skip endif_directive es (suc s) f l o
    ∙ ap (heed_all es) (skip-endif s f l o)

-- Behind the branch that was taken the rest of the group is skipped.
pub heed_all-rest :
    (c : Group) (es : List Event) (f : ℕ → Bool) (l : ℕ) (o : List ℕ)
    → is_group false c ≡ true
    → f (suc l) ≡ true
    → heed_all (events_of c es) (state 1 f (suc l) o) ≡ heed_all es (state 0 f l o)
unfolding skip
heed_all-rest closed es f l o v taken =
    let k : suc l - 1 ≡ l = omega arith in
    heed_all-skip endif_directive es 0 f (suc l) o ∙ ap (λ m. heed_all es (state 0 f m o)) k
heed_all-rest (or_if c body tail) es f l o v taken =
    heed_all-skip (elif_directive c) (events_of body (events_of tail es)) 0 f (suc l) o
    ∙ rw taken (
        heed_all-skipped true body (events_of tail es) 0 f (suc l) o
          (and-left (is_group true body) _ v))
    ∙ heed_all-rest tail es f l o (and-right (is_group true body) _ v) taken
heed_all-rest (otherwise body) es f l o v taken =
    let k : suc l - 1 ≡ l = omega arith in
    heed_all-skip else_directive (events_of body (endif_directive ∷ es)) 0 f (suc l) o
    ∙ rw taken (heed_all-skipped true body (endif_directive ∷ es) 0 f (suc l) o v)
    ∙ heed_all-skip endif_directive es 0 f (suc l) o
    ∙ ap (λ m. heed_all es (state 0 f m o)) k
heed_all-rest done es f l o v taken = absurd (ground (arith, v))
heed_all-rest (a_line n more) es f l o v taken = absurd (ground (arith, v))
heed_all-rest (a_group c body tail more) es f l o v taken = absurd (ground (arith, v))

pub heed_all-taken :
    (c : Group) (es : List Event) (f : ℕ → Bool) (l : ℕ) (o : List ℕ)
    → is_group false c ≡ true
    → f (suc l) ≡ true
    → heed_all (events_of c es) (state 0 f (suc l) o) ≡ heed_all es (state 0 f l o)
unfolding obey
heed_all-taken closed es f l o v taken =
    let k : suc l - 1 ≡ l = omega arith in
    heed_all-obey endif_directive es f (suc l) o _ refl ∙ ap (λ m. heed_all es (state 0 f m o)) k
heed_all-taken (or_if c body tail) es f l o v taken =
    heed_all-obey (elif_directive c) (events_of body (events_of tail es)) f (suc l) o _ refl
    ∙ heed_all-skipped true body (events_of tail es) 0 f (suc l) o
        (and-left (is_group true body) _ v)
    ∙ heed_all-rest tail es f l o (and-right (is_group true body) _ v) taken
heed_all-taken (otherwise body) es f l o v taken =
    heed_all-obey else_directive (events_of body (endif_directive ∷ es)) f (suc l) o _ refl
    ∙ heed_all-skipped true body (endif_directive ∷ es) 0 f (suc l) o v
    ∙ heed_all-rest closed es f l o refl taken
heed_all-taken done es f l o v taken = absurd (ground (arith, v))
heed_all-taken (a_line n more) es f l o v taken = absurd (ground (arith, v))
heed_all-taken (a_group c body tail more) es f l o v taken = absurd (ground (arith, v))
