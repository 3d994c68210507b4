-- ===== src/Call/Effect.antt =====
-- What the functions of src/ujo_writer.c promise: the bytes that a call writes, when it is refused
-- and with which error code, and the position it leads to.
use libujo_c.Base.{
  if◌then◌else◌, true, false, refl, ℕ, ◌≡◌, Bool, ◌&&◌, List, Option, none, some, ltb, ◌==◌,
}
use libujo_c.Base.Result.{ok}
use libujo_c.Types.{
  err_type_misplaced, err_invalid_object, type_list, type_map, type_table, terminator,
}
use libujo_c.Platform.{Platform, Endian}
use libujo_c.State.{
  DocState, allow_string, allow_atomic, list, dict_key, table_columns, table_values,
  container_closed, State, allow_container, same_state,
}
use libujo_c.State.Shape.{Shape, enter, leave, after}
use libujo_c.Writer.{Writer}
use libujo_c.Writer.Entry.{joined, Done}
use libujo_c.Call.{
  is_string, Call, adds, list_opens, list_closes, map_opens, map_closes, table_opens, columns_end,
  table_closes, perform, allowed, event, Fits,
}
use libujo_c.Call.Encode.{tag, pieces}

-- The bytes of a call.
abbrev pub bytes : Endian → Call → List ℕ
bytes e (adds i) = joined (pieces e i)
bytes e list_opens = tag e type_list
bytes e map_opens = tag e type_map
bytes e table_opens = tag e type_table
bytes e _ = tag e terminator

-- The checks of a call that pass.
abbrev pub may : Call → State → Bool
may (adds i) s = allowed i s
may list_opens s = allow_container s.state
may map_opens s = allow_container s.state
may table_opens s = allow_container s.state
may list_closes s = same_state s.state list
may map_closes s = same_state s.state dict_key
may columns_end s = same_state s.state table_columns && ltb 0 s.columns
may table_closes s = same_state s.state table_values && s.column == 0

-- The part of these checks that looks at the document state alone.
abbrev pub permits : Call → DocState → Bool
permits (adds i) s = if is_string i then allow_string s else allow_atomic s
permits list_opens s = allow_container s
permits map_opens s = allow_container s
permits table_opens s = allow_container s
permits list_closes s = same_state s list
permits map_closes s = same_state s dict_key
permits columns_end s = same_state s table_columns
permits table_closes s = same_state s table_values

pub both-true : (b c : Bool) → (b && c) ≡ true → (b ≡ true) × (c ≡ true)
both-true true c h = (refl, h)
both-true false c h = cc

pub may-permits : (c : Call) (s : State) → may c s ≡ true → permits c s.state ≡ true
may-permits (adds i) s h = h
may-permits list_opens s h = h
may-permits map_opens s h = h
may-permits table_opens s h = h
may-permits list_closes s h = h
may-permits map_closes s h = h
may-permits columns_end s h = (both-true _ _ h).0
may-permits table_closes s h = (both-true _ _ h).0

-- The error code of a check that fails.
abbrev pub refusal : Call → ℕ
refusal list_closes = err_invalid_object
refusal map_closes = err_invalid_object
refusal columns_end = err_invalid_object
refusal table_closes = err_invalid_object
refusal _ = err_type_misplaced

abbrev pub FitsCall : Call → Type 0
FitsCall (adds i) = Fits i
FitsCall _ = Unit {0}

abbrev pub leave_then : Option Shape → Option Shape
leave_then none = none
leave_then (some at) = after container_closed at

-- The position after a call.
abbrev pub moves : Call → Shape → Option Shape
moves (adds i) at = after (event i) at
moves list_opens at = some (enter list at)
moves map_opens at = some (enter dict_key at)
moves table_opens at = some (enter table_columns at)
moves columns_end at = some (table_values, at.1)
moves _ at = leave_then (leave at)

-- The call succeeds: it has written `xs` and moved.
abbrev pub Succeeds : {File : Type 0} → Platform File → Call → Writer File → Shape → Type 0
Succeeds {File} p c w at =
    (next : Shape) × (moves c at ≡ some next)
    × (w' : Writer File) × (perform p c w ≡ ok tt w')
    × Done w (bytes p.order c) next w'
