-- ===== src/TccCc/Directives.antt =====
-- Which lines `conditional_iterator_next` passes on: its state and what each directive does to it. The
-- level that an `#endif` without its `#if` makes negative stays 0 here, and `_skip_level`, a `char`, does
-- not wrap around from 127 on. A
-- directive comes with the value of its condition; another line is a number.
pub mod Groups
pub mod Laws
pub mod Passes
use mes_replacement.Prelude.{
  ℕ, zero, suc, ◌-◌, List, [], ◌∷◌, ◌++◌, Option, none, some, Bool, true, false, not, ◌&&◌, ◌==◌,
  ltb, if◌then◌else◌,
}

-- The values of `#ifdef` and `#ifndef` are whether the lines behind them are wanted.
pub data Event : Type 0 where
  if_directive : Bool → Event
  elif_directive : Bool → Event
  else_directive : Event
  endif_directive : Event
  line : ℕ → Event

-- The last three members of `conditional_iterator_s`, and the lines that were passed on.
pub record Skipping : Type 0 where
  pub skip_level : ℕ
  pub if_done : ℕ → Bool
  pub if_level : ℕ
  pub kept : List ℕ

abbrev pub nr_ifs_max : ℕ
nr_ifs_max = 40

abbrev pub set_done : ℕ → Bool → (ℕ → Bool) → ℕ → Bool
set_done i b f j = if j == i then b else f j

-- `_skip_level > 0`
unfoldable pub skip : Event → Skipping → Skipping
skip (if_directive v) st = record st { skip_level = suc st.skip_level }
skip (elif_directive v) st =
    if st.skip_level == 1 && (not (st.if_done st.if_level) && v)
    then record st { skip_level = 0; if_done = set_done st.if_level true st.if_done }
    else st
skip else_directive st =
    if st.skip_level == 1 && not (st.if_done st.if_level) then record st { skip_level = 0 } else st
skip endif_directive st =
    if st.skip_level == 1
    then record st { skip_level = 0; if_level = st.if_level - 1 }
    else record st { skip_level = st.skip_level - 1 }
skip (line n) st = st

-- `_skip_level == 0`. Nothing where the code would write behind `_if_done`.
unfoldable pub obey : Event → Skipping → Option Skipping
obey (if_directive v) st =
    let level = suc st.if_level in
    if ltb level nr_ifs_max
    then some (record st {
      if_level = level;
      if_done = set_done level v st.if_done;
      skip_level = if v then 0 else 1;
    })
    else none
obey (elif_directive v) st = some (record st { skip_level = 1 })
obey else_directive st = some (record st { skip_level = 1 })
obey endif_directive st = some (record st { if_level = st.if_level - 1 })
obey (line n) st = some (record st { kept = st.kept ++ n ∷ [] })

unfoldable pub heed : Event → Skipping → Option Skipping
unfolding skip obey
heed e st = if st.skip_level == 0 then obey e st else some (skip e st)

-- The `while (TRUE)` over some lines.
unfoldable pub heed_all : List Event → Skipping → Option Skipping
unfolding heed
heed_all [] st = some st
heed_all (e ∷ es) st = elim (heed e st) [ none ↦ none | some next ↦ heed_all es next ]
