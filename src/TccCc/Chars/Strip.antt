-- ===== src/TccCc/Chars/Strip.antt =====
-- The comment strip iterator. The labels of the coroutine are functions: `resumed_s0` goes on from the
-- label `s0`, and each `_state` names the label at which the next call goes on.
pub mod Pieces
pub mod Laws
pub mod Text
pub mod Literals
use mes_replacement.Prelude.{
  ℕ, zero, suc, Bool, true, false, not, ◌&&◌, ◌||◌, ◌==◌, if◌then◌else◌, while_do, Bytes,
}
use mes_replacement.TccCc.Chars.{Place, CharIterator}

pub data Label : Type 0 where
  s0 s1 s2 s3 s4 s5 s6 s7 s8 s9 : Label

-- `comment_strip_iterator_s`
pub record StripIterator (S : Type 0) : Type 0 where
  pub ch : ℕ
  pub place : Place
  pub source : S
  pub a : ℕ
  pub state : Label

module _ {S : Type 0} (it : CharIterator S) where
  -- The line and the column of the source; the file name stays.
  abbrev moved : Place → S → Place
  moved p s = record (it.place s) { filename = p.filename }

  -- `ch` becomes `_a`, and the source goes on.
  abbrev pub take : StripIterator S → StripIterator S
  take st = record st {
    ch = st.a;
    place = it.place st.source;
    source = it.next st.source;
    a = it.ch (it.next st.source);
  }

  -- The source goes on, and `ch` becomes its character.
  abbrev pub advance : StripIterator S → StripIterator S
  advance st =
      let s = it.next st.source in record st { ch = it.ch s; place = moved st.place s; source = s }

  -- The source goes on, and `_a` becomes its character.
  abbrev pub advance_behind : StripIterator S → StripIterator S
  advance_behind st =
      let s = it.next st.source in record st { place = moved st.place s; source = s; a = it.ch s }

  -- `_source_it_next(it->_source_it); it->_a = it->_source_it->ch;`
  abbrev pub look : StripIterator S → StripIterator S
  look st = let s = it.next st.source in record st { source = s; a = it.ch s }

  unfoldable pub skip_line : StripIterator S → StripIterator S
  unfolding while_do
  skip_line st =
      while_do (suc (it.left st.source)) (λ t. not (t.a == 0) && not (t.a == b'\n')) look st

  unfoldable pub resumed_s0 : ℕ → StripIterator S → StripIterator S
  unfolding skip_line
  resumed_s0 zero st = st
  resumed_s0 (suc fuel) st =
      let t = take st in
      let again = resumed_s0 fuel (record (skip_line t) { state = s0 }) in
      if st.a == 0
      then record st { ch = 0 }
      else if t.ch == b'/' && t.a == b'/'
      then again
      else if t.ch == b'/' && t.a == b'*'
      then record t { ch = b' '; state = s1 }
      else if t.ch == b'"'
      then record t { state = s2 }
      else if t.ch == b'\''
      then record t { state = s6 }
      else t

  -- `it->_state = 0; goto s0;`
  unfoldable pub goto_s0 : StripIterator S → StripIterator S
  goto_s0 st = resumed_s0 (suc (it.left st.source)) (record st { state = s0 })

  -- The `while` over a comment: `ch` and `_a` move along it.
  unfoldable pub skip_comment : StripIterator S → StripIterator S
  unfolding while_do
  skip_comment st =
      while_do (suc (suc (it.left st.source)))
        (λ t. not (t.ch == 0) && (not (t.ch == b'*') || not (t.a == b'/')))
        (λ t. look (record t { ch = t.a })) st

  unfoldable pub resumed_s1 : StripIterator S → StripIterator S
  resumed_s1 st =
      let s = it.next st.source in
      let t = skip_comment (look (record st { ch = it.ch s; source = s })) in
      goto_s0 (if t.ch == 0 then t else advance_behind t)

  -- The test of the `while` over a string literal, and what stands behind it.
  unfoldable pub in_string : StripIterator S → StripIterator S
  in_string st =
      if not (st.ch == 0) && not (st.ch == b'"')
      then (if st.ch == b'\\' then record st { state = s3 } else record st { state = s4 })
      else if st.ch == b'"'
      then record st { state = s5 }
      else goto_s0 st

  -- `ch` becomes `_a`, at which the source stands.
  abbrev pub enter : StripIterator S → StripIterator S
  enter st = record st { ch = st.a; place = moved st.place st.source }

  unfoldable pub in_char : StripIterator S → StripIterator S
  in_char st = if st.ch == b'\\' then record st { state = s7 } else record st { state = s8 }

  unfoldable pub behind_char : StripIterator S → StripIterator S
  behind_char st = if st.ch == b'\'' then record st { state = s9 } else goto_s0 st

  unfoldable pub resumed : Label → StripIterator S → StripIterator S
  resumed s0 st = goto_s0 st
  resumed s1 st = resumed_s1 st
  resumed s2 st = in_string (enter st)
  resumed s3 st = record (advance st) { state = s4 }
  resumed s4 st = in_string (advance st)
  resumed s5 st = goto_s0 (advance_behind st)
  resumed s6 st = in_char (enter st)
  resumed s7 st = record (advance st) { state = s8 }
  resumed s8 st = behind_char (advance st)
  resumed s9 st = goto_s0 (advance_behind st)

  unfoldable pub comment_strip_iterator_next : StripIterator S → StripIterator S
  unfolding resumed
  comment_strip_iterator_next st = resumed st.state st

  unfoldable pub new_comment_strip_iterator : S → StripIterator S
  new_comment_strip_iterator s =
      comment_strip_iterator_next
        (record { ch = 0; place = it.place s; source = s; a = it.ch s; state = s0 })

  abbrev pub strip_iterator : CharIterator (StripIterator S)
  strip_iterator = record {
    ch = λ st. st.ch;
    place = λ st. st.place;
    next = comment_strip_iterator_next;
    left = λ st. suc (it.left st.source);
  }
