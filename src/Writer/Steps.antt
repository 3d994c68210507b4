-- ===== src/Writer/Steps.antt =====
-- Steps of the functions of src/ujo_writer.c that open and close containers.
use mathlib.Core.Path.{subst}
use libujo_c.Base.{ℕ, ◌≡◌, true, false, List, Option, some, length}
use libujo_c.Base.Result.{ok}
use libujo_c.Platform.{Platform, Grants}
use libujo_c.State.{DocState, DocEvent, Place, state_next, state_prev, state_switch}
use libujo_c.State.Shape.{
  Shape, IsNested, fits, enter, leave, after, after-StaysNested, leave-StaysNested, enter-IsNested,
  is_outer,
}
use libujo_c.State.Refine.{At, Follows, state_switch-At, state_next-At, state_prev-At}
use libujo_c.Writer.{Writer, put}
use libujo_c.Writer.Put.{IsValid, HasRoom, put-Wrote}
use libujo_c.Writer.Entry.{Stands, Done, At-same}

module _ {File : Type 0} where
  pub Stands-moved :
      (w : Writer File) (at : Place) (shape : Shape)
      → IsValid w
      → At true at shape
      → IsNested shape
      → Stands (record w { state = at.0; state_stack = at.1 }) shape
  Stands-moved w at shape v h n = record {
    valid = record { memory = v.memory; sized = v.sized; within = v.within; lean = v.lean };
    here = h;
    nested = n;
  }

  -- The writer moves to a position, and has written nothing.
  pub record Moves (f : Place → Option Place) (w : Writer File) (at : Shape) : Type 0 where
    pub place : Place
    pub moved : f (w.state, w.state_stack) ≡ some place
    pub stands : Stands (record w { state = place.0; state_stack = place.1 }) at

  pub follow :
      (f : Place → Option Place) (w : Writer File) (at : Shape)
      → IsValid w
      → IsNested at
      → Follows true (f (w.state, w.state_stack)) (some at)
      → Moves f w at
  follow f w at v n (place, e, h) = record {
    place = place;
    moved = e;
    stands = Stands-moved w place at v h n;
  }

module _ {File : Type 0} (p : Platform File) (g : Grants p) (w : Writer File) (at : Shape)
    (s : Stands w at) where
  pub enters : (k : DocState) → fits k at.0 ≡ true → Moves (state_next p k) w (enter k at)
  enters k f =
      follow (state_next p k) w (enter k at) s.valid (enter-IsNested k at f s.nested)
        (state_next-At p g k (w.state, w.state_stack) at s.here)

  pub leaves :
      is_outer at.0 ≡ false → (next : Shape) × (leave at ≡ some next) × Moves state_prev w next
  leaves o =
      let (next, e, n) = leave-StaysNested at s.nested o in
      (
        next,
        e,
        follow state_prev w next s.valid n (
            subst (λ r. Follows true (state_prev (w.state, w.state_stack)) r) e
              (state_prev-At (w.state, w.state_stack) at s.here)),
      )

  pub passes :
      (e : DocEvent) → (next : Shape) × (after e at ≡ some next) × Moves (state_switch p e) w next
  passes e =
      let (next, q, n) = after-StaysNested e at s.nested in
      (
        next,
        q,
        follow (state_switch p e) w next s.valid n (
            subst (λ r. Follows true (state_switch p e (w.state, w.state_stack)) r) q
              (state_switch-At p g e (w.state, w.state_stack) at s.here)),
      )

  -- Bytes are put at the position, and the writer stays there.
  pub puts :
      (xs : List ℕ)
      → HasRoom w (length xs)
      → (w' : Writer File) × (put p xs w ≡ ok tt w') × Done w xs at w'
  puts xs h =
      let (w', e, d) = put-Wrote p w xs g s.valid h in
      (
        w',
        e,
        record {
          stands = record {
            valid = d.valid;
            here = At-same d.same_state d.same_stack s.here;
            nested = s.nested;
          };
          written = d.written;
          count = d.count;
        },
      )
