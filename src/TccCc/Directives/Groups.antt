-- ===== src/TccCc/Directives/Groups.antt =====
-- Source text as lines and nested groups of conditional lines, and the lines that it stands for.
use mes_replacement.Prelude.{
  ℕ, suc, List, [], ◌∷◌, ◌++◌, Bool, true, false, ◌&&◌, leb, if◌then◌else◌,
}
use mes_replacement.TccCc.Directives.{
  Event, if_directive, elif_directive, else_directive, endif_directive, line,
}

-- A stretch of text is `done`, `a_line` or `a_group`; what closes a group is `closed`, `otherwise` or
-- `or_if`.
pub data Group : Type 0 where
  done : Group
  a_line : ℕ → Group → Group
  a_group : Bool → Group → Group → Group → Group
  closed : Group
  or_if : Bool → Group → Group → Group
  otherwise : Group → Group

abbrev pub events_of : Group → List Event → List Event
events_of done rest = rest
events_of (a_line n more) rest = line n ∷ events_of more rest
events_of (a_group v body tail more) rest =
    if_directive v ∷ events_of body (events_of tail (events_of more rest))
events_of closed rest = endif_directive ∷ rest
events_of (or_if v body tail) rest = elif_directive v ∷ events_of body (events_of tail rest)
events_of (otherwise body) rest = else_directive ∷ events_of body (endif_directive ∷ rest)

-- The lines of the first branch whose condition holds, of every group.
abbrev pub lines_of : Group → List ℕ
lines_of done = []
lines_of (a_line n more) = n ∷ lines_of more
lines_of (a_group v body tail more) = (if v then lines_of body else lines_of tail) ++ lines_of more
lines_of closed = []
lines_of (or_if v body tail) = if v then lines_of body else lines_of tail
lines_of (otherwise body) = lines_of body

-- The group is a stretch of text, or (`false`) it closes a group.
abbrev pub is_group : Bool → Group → Bool
is_group true done = true
is_group true (a_line n more) = is_group true more
is_group true (a_group v body tail more) =
    is_group true body && (is_group false tail && is_group true more)
is_group false closed = true
is_group false (or_if v body tail) = is_group true body && is_group false tail
is_group false (otherwise body) = is_group true body
is_group _ _ = false

abbrev pub larger : ℕ → ℕ → ℕ
larger a b = if leb a b then b else a

-- How deep groups are nested.
abbrev pub nesting : Group → ℕ
nesting done = 0
nesting (a_line n more) = nesting more
nesting (a_group v body tail more) =
    larger (suc (larger (nesting body) (nesting tail))) (nesting more)
nesting closed = 0
nesting (or_if v body tail) = larger (nesting body) (nesting tail)
nesting (otherwise body) = nesting body
