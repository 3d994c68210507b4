-- ===== src/State/Refine.antt =====
-- The functions of src/ujo_state.c move between the positions of `Shape`: the stack always holds
-- the enclosing states, and none of the pointers that the code follows is NULL.
use libujo_c.Base.{◌≡◌, refl, sym, ap, ◌∙◌, Bool, List, [], ◌∷◌, map, Option, none, some}
use mathlib.Core.Path.{subst}
use libujo_c.Platform.{Platform, Grants}
use libujo_c.Stack
use libujo_c.Stack.{Stack}
use libujo_c.Stack.View.{Holds}
use libujo_c.Stack.Laws.{push-Holds, pop-Pops}
use libujo_c.State.{
  DocState, dict_key, dict_value, table_columns, table_values, DocEvent, atomic_found,
  container_closed, string_found, State, Place, state_next, state_prev, reopen, closing,
  next_column, next_columns, atomic_switch, string_switch, closed_switch, state_switch, state_size,
}
use libujo_c.State.Shape.{Shape, enter, leave, after_value, after_container, after}

abbrev pub kinds : List State → List DocState
kinds = map (λ s. s.state)

-- The place stands at the position: its stack holds the states that enclose the current one.
pub record At (d : Bool) (at : Place) (where_at : Shape) : Type 0 where
  pub above : List State
  pub holds : Holds d at.1 above
  pub current : at.0.state ≡ where_at.0
  pub outside : kinds above ≡ where_at.1

-- What a function of the source returns, against the step between positions.
abbrev pub Follows : Bool → Option Place → Option Shape → Type 0
Follows d r none = Unit {0}
Follows d r (some shape) = (at : Place) × (r ≡ some at) × At d at shape

prev_of_kinds :
    {d : Bool} (o : State) (stack : Option (Stack State)) (above : List State) (s : DocState)
    (outer : List DocState)
    → Holds d stack above
    → kinds above ≡ outer
    → Follows d (state_prev (o, stack)) (leave (s, outer))
unfolding state_prev reopen leave
prev_of_kinds o stack above s [] h e = tt
prev_of_kinds o stack [] s (t ∷ outer) h e = cc
prev_of_kinds o stack (x ∷ above) s (t ∷ outer) h e =
    let (top, rest) = pop-Pops stack (x ∷ above) h in
    (
      (record x { state = closing x.state }, (Stack.pop stack).1),
      rw top,
      record { above = above; holds = rest; current = ap closing (cc); outside = cc },
    )

pub state_prev-At :
    {d : Bool} (at : Place) (shape : Shape)
    → At d at shape
    → Follows d (state_prev at) (leave shape)
state_prev-At (o, stack) (s, outer) a = prev_of_kinds o stack a.above s outer a.holds a.outside

-- Moving in a table row leaves the position.
counted-At :
    {d : Bool} (s t : State) (stack : Option (Stack State)) (shape : Shape)
    → t.state ≡ s.state
    → At d (s, stack) shape
    → Follows d (some (t, stack)) (some shape)
counted-At s t stack shape e a = (
  (t, stack),
  refl,
  record { above = a.above; holds = a.holds; current = e ∙ a.current; outside = a.outside },
)

module _ {File : Type 0} (p : Platform File) (g : Grants p) {d : Bool} where
  pub state_next-At :
      (k : DocState) (at : Place) (shape : Shape)
      → At d at shape
      → Follows d (state_next p k at) (some (enter k shape))
  unfolding state_next enter
  state_next-At k (c, stack) shape a = (
    (record { state = k; columns = 0; column = 0 }, Stack.push p stack c),
    rw (g state_size),
    record {
      above = c ∷ a.above;
      holds = push-Holds p stack c a.above g a.holds;
      current = refl;
      outside = cc;
    },
  )

  stays-At : (at : Place) (shape : Shape) → At d at shape → Follows d (some at) (some shape)
  stays-At at shape a = (at, refl, a)

  atomic_switch-At :
      (s : State) (k : DocState) (stack : Option (Stack State)) (outer : List DocState)
      → At d (s, stack) (k, outer)
      → Follows d (atomic_switch p k (s, stack)) (after_value (k, outer))
  unfolding atomic_switch after_value next_column
  atomic_switch-At s dict_value stack outer a = state_prev-At (s, stack) (dict_value, outer) a
  atomic_switch-At s dict_key stack outer a =
      state_next-At dict_value (s, stack) (dict_key, outer) a
  atomic_switch-At s table_values stack outer a =
      counted-At s (next_column s) stack (table_values, outer) refl a
  atomic_switch-At s k stack outer a = stays-At (s, stack) (k, outer) a

  string_switch-At :
      (s : State) (k : DocState) (stack : Option (Stack State)) (outer : List DocState)
      → At d (s, stack) (k, outer)
      → Follows d (string_switch p k (s, stack)) (after_value (k, outer))
  unfolding string_switch after_value next_column next_columns
  string_switch-At s dict_value stack outer a = state_prev-At (s, stack) (dict_value, outer) a
  string_switch-At s dict_key stack outer a =
      state_next-At dict_value (s, stack) (dict_key, outer) a
  string_switch-At s table_columns stack outer a =
      counted-At s (next_columns s) stack (table_columns, outer) refl a
  string_switch-At s table_values stack outer a =
      counted-At s (next_column s) stack (table_values, outer) refl a
  string_switch-At s k stack outer a = stays-At (s, stack) (k, outer) a

  closed_switch-At :
      (s : State) (k : DocState) (stack : Option (Stack State)) (outer : List DocState)
      → At d (s, stack) (k, outer)
      → Follows d (closed_switch k (s, stack)) (after_container (k, outer))
  unfolding closed_switch after_container next_column
  closed_switch-At s dict_value stack outer a = state_prev-At (s, stack) (dict_value, outer) a
  closed_switch-At s table_values stack outer a =
      counted-At s (next_column s) stack (table_values, outer) refl a
  closed_switch-At s k stack outer a = stays-At (s, stack) (k, outer) a

  -- With an allocator that serves every request, `ujo_state_switch` takes a place at a position to
  -- a place at the position after the event, and follows no NULL pointer, on every event from every
  -- position from which that step is possible.
  pub state_switch-At :
      (e : DocEvent) (at : Place) (shape : Shape)
      → At d at shape
      → Follows d (state_switch p e at) (after e shape)
  unfolding state_switch after
  state_switch-At atomic_found (s, stack) (k, outer) a =
      subst (λ j. Follows d (atomic_switch p j (s, stack)) (after_value (k, outer))) (sym a.current)
        (atomic_switch-At s k stack outer a)
  state_switch-At string_found (s, stack) (k, outer) a =
      subst (λ j. Follows d (string_switch p j (s, stack)) (after_value (k, outer))) (sym a.current)
        (string_switch-At s k stack outer a)
  state_switch-At container_closed (s, stack) (k, outer) a =
      subst (λ j. Follows d (closed_switch j (s, stack)) (after_container (k, outer)))
        (sym a.current) (closed_switch-At s k stack outer a)
