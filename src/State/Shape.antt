-- ===== src/State/Shape.antt =====
-- The positions of a document without the table counters of src/ujo_state.c: the current state
-- and those that enclose it, the innermost in front.
use libujo_c.Base.{◌≡◌, refl, ap, ◌∙◌, Bool, true, false, List, [], ◌∷◌, Option, none, some}
use libujo_c.State.{
  DocState, root, list, dict_key, dict_value, closed, table_columns, table_values, DocEvent,
  atomic_found, container_closed, string_found, allow_container, closing,
}

abbrev pub Shape : Type 0
Shape = DocState × List DocState

unfoldable pub enter : DocState → Shape → Shape
enter k (s, above) = (k, s ∷ above)

-- The document is over when its outermost container is closed.
unfoldable pub leave : Shape → Option Shape
unfolding closing
leave (s, []) = none
leave (s, t ∷ above) = some (closing t, above)

-- A value was passed: a key is followed by its value, a value by the next key.
unfoldable pub after_value : Shape → Option Shape
unfolding leave enter
after_value (dict_value, above) = leave (dict_value, above)
after_value (dict_key, above) = some (enter dict_value (dict_key, above))
after_value at = some at

-- A container was closed: as the value of a key it is followed by the next key.
unfoldable pub after_container : Shape → Option Shape
unfolding leave
after_container (dict_value, above) = leave (dict_value, above)
after_container at = some at

unfoldable pub after : DocEvent → Shape → Option Shape
unfolding after_value after_container
after atomic_found = after_value
after string_found = after_value
after container_closed = after_container

-- Whether `s` may stand right inside `t`.
unfoldable pub fits : DocState → DocState → Bool
unfolding allow_container
fits dict_value dict_key = true
fits dict_value _ = false
fits root _ = false
fits closed _ = false
fits s t = allow_container t

unfoldable pub is_outer : DocState → Bool
is_outer root = true
is_outer closed = true
is_outer _ = false

-- Every position lies in one that may hold it, out to the root of the document.
abbrev pub Nested : DocState → List DocState → Type 0
Nested s [] = is_outer s ≡ true
Nested s (t ∷ above) = (fits s t ≡ true) × Nested t above

abbrev pub IsNested : Shape → Type 0
IsNested at = Nested at.0 at.1

pub enter-IsNested :
    (k : DocState) (at : Shape) → fits k at.0 ≡ true → IsNested at → IsNested (enter k at)
unfolding enter
enter-IsNested k at f n = (f, n)

closing-Nested : (t : DocState) (above : List DocState) → Nested t above → Nested (closing t) above
unfolding closing fits is_outer
closing-Nested root [] n = refl
closing-Nested root (u ∷ above) n = cc
closing-Nested _ above n = n

-- A step from a nested position is possible, and ends in a nested one.
abbrev pub StaysNested : Option Shape → Type 0
StaysNested r = (at : Shape) × (r ≡ some at) × IsNested at

pub leave-StaysNested : (at : Shape) → IsNested at → is_outer at.0 ≡ false → StaysNested (leave at)
unfolding leave
leave-StaysNested (s, []) n o = cc
leave-StaysNested (s, t ∷ above) n o = ((closing t, above), refl, closing-Nested t above n.1)

pub after_value-StaysNested : (at : Shape) → IsNested at → StaysNested (after_value at)
unfolding after_value
after_value-StaysNested (dict_value, above) n =
    leave-StaysNested (dict_value, above) n (unfold is_outer in refl)
after_value-StaysNested (dict_key, above) n =
    (enter dict_value (dict_key, above), refl, unfold enter fits in (refl, n))
after_value-StaysNested (s, above) n = ((s, above), refl, n)

pub after_container-StaysNested : (at : Shape) → IsNested at → StaysNested (after_container at)
unfolding after_container
after_container-StaysNested (dict_value, above) n =
    leave-StaysNested (dict_value, above) n (unfold is_outer in refl)
after_container-StaysNested (s, above) n = ((s, above), refl, n)

-- Every event takes a nested position to a nested one.
pub after-StaysNested : (e : DocEvent) (at : Shape) → IsNested at → StaysNested (after e at)
unfolding after
after-StaysNested atomic_found = after_value-StaysNested
after-StaysNested string_found = after_value-StaysNested
after-StaysNested container_closed = after_container-StaysNested

pub leave-outer :
    (at : Shape) (s : DocState)
    → at.0 ≡ s
    → is_outer s ≡ false
    → IsNested at
    → StaysNested (leave at)
leave-outer at s e o n = leave-StaysNested at n (ap is_outer e ∙ o)

-- The rows of a table stand where its header stood.
pub rows-IsNested :
    (s : DocState) (above : List DocState)
    → s ≡ table_columns
    → Nested s above
    → Nested table_values above
unfolding fits is_outer
rows-IsNested s [] e n = cc
rows-IsNested root (t ∷ above) e n = cc
rows-IsNested list (t ∷ above) e n = cc
rows-IsNested dict_key (t ∷ above) e n = cc
rows-IsNested dict_value (t ∷ above) e n = cc
rows-IsNested closed (t ∷ above) e n = cc
rows-IsNested table_columns (t ∷ above) e n = n
rows-IsNested table_values (t ∷ above) e n = cc
