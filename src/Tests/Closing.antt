-- ===== src/Tests/Closing.antt =====
-- Examples: a document that is brought to its end.
use libujo_c.Base.{List, [], ◌∷◌, ◌+◌, ◌*◌, ◌≤◌, ◌≡◌, refl, true, some, arith}
use libujo_c.Base.Result.{ok}
use libujo_c.Stack.{Stack, slot}
use libujo_c.Stack.View.{Holds, holds}
use libujo_c.State.{State, root, closed, table_values, allow_container}
use libujo_c.State.Shape.{fits, is_outer}
use libujo_c.Writer.{Writer}
use libujo_c.Writer.Entry.{Stands}
use libujo_c.Call.{Call}
use libujo_c.Call.Run.{AllFit, run}
use libujo_c.Call.Levels.{level}
use libujo_c.Call.Closable.{document-closable}
use libujo_c.Tests.{desktop, desktop-Grants, fresh}

abbrev at_root : State
at_root = record { state = root; columns = 0; column = 0 }

abbrev root_pushed : Stack State
root_pushed = record { stack = some (some at_root ∷ []); size = 1; items = 1; destroy = true }

root_pushed-Holds : Holds true (some root_pushed) (at_root ∷ [])
unfolding slot
root_pushed-Holds =
    holds root_pushed refl
      (record { sized = refl; within = omega arith; destroys = refl; view = refl })

-- A writer in the second cell of a row of three.
abbrev in_row : Writer (Unit {0})
in_row = record fresh {
  state_stack = some root_pushed;
  state = record { state = table_values; columns = 3; column = 1 };
}

in_row-Stands : Stands in_row (table_values, root ∷ [])
unfolding is_outer fits allow_container
in_row-Stands = record {
  valid = record { memory = refl; sized = refl; within = omega arith; lean = omega arith };
  here = record { above = at_root ∷ []; holds = root_pushed-Holds; current = refl; outside = refl };
  nested = (refl, refl);
}

document-closable_example :
    (cs : List Call) × AllFit cs
    × (w' : Writer (Unit {0})) × (run desktop cs in_row ≡ ok tt w')
    × (w'.state.state ≡ closed)
    × (w'.bytes ≤ 0 + level * 2)
document-closable_example =
    document-closable desktop desktop-Grants in_row (table_values, root ∷ []) in_row-Stands
      (omega arith)
