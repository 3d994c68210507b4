-- ===== src/State.antt =====
-- src/ujo_state.c: where in a document the writer or the reader stands. `none` as a result is the
-- null pointer that the function goes on to use.
-- A state on the stack is reached through the stack alone, so states are passed by value.
pub mod Columns
pub mod Shape
pub mod Refine
pub mod Same
use libujo_c.Base.{
  ℕ, ◌+◌, ◌%◌, ◌^◌, Bool, true, false, ◌||◌, Option, none, some, leb, ◌==◌, if◌then◌else◌,
}
use libujo_c.Platform.{Platform}
use libujo_c.Stack
use libujo_c.Stack.{Stack}

-- `ujoDocState`
pub data DocState : Type 0 where
  root list dict_key dict_value closed table_columns table_values : DocState

-- The number of the enumerator, which `==` compares.
unfoldable pub enumerator : DocState → ℕ
enumerator root = 0
enumerator list = 1
enumerator dict_key = 2
enumerator dict_value = 3
enumerator closed = 4
enumerator table_columns = 5
enumerator table_values = 6

unfoldable pub same_state : DocState → DocState → Bool
unfolding enumerator
same_state s t = enumerator s == enumerator t

-- `ujoDocEvent`
pub data DocEvent : Type 0 where
  atomic_found container_closed string_found : DocEvent

-- `ujo_state`; the counters are uint32_t.
pub record State : Type 0 where
  pub state : DocState
  pub columns : ℕ
  pub column : ℕ

-- `sizeof(ujo_state)`
abbrev pub state_size : ℕ
state_size = 12

unfoldable pub allow_atomic : DocState → Bool
allow_atomic dict_key = true
allow_atomic dict_value = true
allow_atomic list = true
allow_atomic table_values = true
allow_atomic _ = false

unfoldable pub allow_container : DocState → Bool
allow_container root = true
allow_container dict_value = true
allow_container list = true
allow_container table_values = true
allow_container _ = false

unfoldable pub allow_string : DocState → Bool
unfolding allow_atomic
allow_string table_columns = true
allow_string s = allow_atomic s

-- A state with the stack that belongs to it.
abbrev pub Place : Type 0
Place = State × Option (Stack State)

-- The state before any document: `ujo_new(ujo_state, 1)` and `STATE_ROOT`.
unfoldable pub new_state : {File : Type 0} → Platform File → Option State
new_state p =
    if p.grants state_size then some (record { state = root; columns = 0; column = 0 }) else none

-- `ujo_state_next` does not check what `calloc` returns.
unfoldable pub state_next : {File : Type 0} → Platform File → DocState → Place → Option Place
state_next p s (c, stack) =
    if p.grants state_size
    then some (record { state = s; columns = 0; column = 0 }, Stack.push p stack c)
    else none

-- Back in the root, the document is closed.
unfoldable pub closing : DocState → DocState
closing root = closed
closing s = s

unfoldable pub reopen : Option State → Option (Stack State) → Option Place
unfolding closing
reopen none stack = none
reopen (some s) stack = some (record s { state = closing s.state }, stack)

-- `ujo_state_prev` does not check what `ujo_stack_pop` returns.
unfoldable pub state_prev : Place → Option Place
unfolding reopen
state_prev (o, stack) = let (top, rest) = Stack.pop stack in reopen top rest

-- The next cell of a table row, the first one behind the last column.
unfoldable pub next_column : State → State
next_column s =
    let column : ℕ = (s.column + 1) % 2 ^ 32 in
    record s { column = if leb s.columns column then 0 else column }

unfoldable pub next_columns : State → State
next_columns s = record s { columns = (s.columns + 1) % 2 ^ 32 }

unfoldable pub atomic_switch : {File : Type 0} → Platform File → DocState → Place → Option Place
unfolding next_column
atomic_switch p dict_value at = state_prev at
atomic_switch p dict_key at = state_next p dict_value at
atomic_switch p table_values (s, stack) = some (next_column s, stack)
atomic_switch p _ at = some at

unfoldable pub string_switch : {File : Type 0} → Platform File → DocState → Place → Option Place
unfolding next_column next_columns
string_switch p dict_value at = state_prev at
string_switch p dict_key at = state_next p dict_value at
string_switch p table_columns (s, stack) = some (next_columns s, stack)
string_switch p table_values (s, stack) = some (next_column s, stack)
string_switch p _ at = some at

unfoldable pub closed_switch : DocState → Place → Option Place
unfolding next_column
closed_switch dict_value at = state_prev at
closed_switch table_values (s, stack) = some (next_column s, stack)
closed_switch _ at = some at

unfoldable pub state_switch : {File : Type 0} → Platform File → DocEvent → Place → Option Place
unfolding atomic_switch string_switch closed_switch
state_switch p atomic_found (s, stack) = atomic_switch p s.state (s, stack)
state_switch p string_found (s, stack) = string_switch p s.state (s, stack)
state_switch p container_closed (s, stack) = closed_switch s.state (s, stack)
