-- ===== src/Call/Rows.antt =====
-- The rows of a table of src/ujo_writer.c can be filled up to the end of a row.
use mathlib.Core.Path.{subst}
use libujo_c.Base.{
  ℕ, zero, suc, ◌+◌, ◌%◌, ◌^◌, ◌≤◌, ◌<◌, ◌⊎◌, ◌≡◌, refl, sym, ap, ◌∙◌, true, List, Option, some,
  arith, length, append-nil, inl, inr, leb, ◌==◌, Bool-cases,
}
use libujo_c.Types.{type_none}
use libujo_c.Platform.{Platform, Grants}
use libujo_c.Stack.{Stack}
use libujo_c.State.{
  DocState, State, Place, table_values, atomic_found, allow_atomic, state_switch, atomic_switch,
  next_column,
}
use libujo_c.State.Shape.{after, after_value}
use libujo_c.Words.Bytes.{length-memory_bytes}
use libujo_c.Writer.{Writer}
use libujo_c.Writer.Put.{HasRoom}
use libujo_c.Writer.Entry.{Stands}
use libujo_c.Call.{adds, none_item}
use libujo_c.Call.Encode.{tag}
use libujo_c.Call.Effect.{bytes}
use libujo_c.Call.Writes.{perform-Succeeds}
use libujo_c.Call.Reach.{stays, goes, Led, Reaches-Reaches, add-place}

next_column-cases :
    (s : State)
    → s.column < 2 ^ 32
    → ((next_column s).column ≡ 0)
      ⊎ (((next_column s).column ≡ s.column + 1) × (s.column + 1 < 2 ^ 32))
unfolding next_column
next_column-cases s small = elim (Bool-cases (leb s.columns ((s.column + 1) % 2 ^ 32))) [
  | inl full ↦ inl (rw full refl)
  | inr more ↦ elim (Bool-cases (s.column + 1 == 2 ^ 32)) [
    | inl wraps ↦ inl (ground arith)
    | inr grows ↦ inr (ground arith, ground arith)
  ]
]

next_column-lt : (s : State) → (next_column s).column < 2 ^ 32
unfolding next_column
next_column-lt s = ground arith

-- The state of a place.
abbrev pub state_of : Option Place → State → State
state_of (some at) s = at.0
state_of _ s = s

module _ {File : Type 0} (p : Platform File) (g : Grants p) where
  cell_switch :
      (s : State) (k : Option (Stack State))
      → s.state ≡ table_values
      → state_switch p atomic_found (s, k) ≡ some (next_column s, k)
  unfolding state_switch atomic_switch
  cell_switch s k e = ap (λ t. atomic_switch p t (s, k)) e

  -- A cell without a value is written, and the column moves on.
  none_cell :
      (w : Writer File) (above : List DocState)
      → Stands w (table_values, above)
      → HasRoom w 1
      → (l : Led p w (table_values, above) 1) × (l.end.state ≡ next_column w.state)
  unfolding after after_value allow_atomic
  none_cell w above s room =
      let few : length (bytes p.order (adds none_item)) ≡ 1 =
        ap length (append-nil (tag p.order type_none)) ∙ length-memory_bytes p.order 1 type_none in
      let allows : allow_atomic w.state.state ≡ true = ap allow_atomic s.here.current in
      let (next, q, w', e, d) =
        perform-Succeeds p g w (table_values, above) s (adds none_item) tt
          (omega (arith, room, few)) allows in
      let same : next ≡ (table_values, above) = cc in
      let near : w'.bytes ≤ w.bytes + 1 = omega (arith, d.count, few) in
      let placed : some (next_column w.state, w.state_stack) ≡ some (w'.state, w'.state_stack) =
        sym (cell_switch w.state w.state_stack s.here.current)
        ∙ add-place p g none_item w w' (table_values, above) s tt (omega (arith, room, few)) allows
            e in
      (
        record {
          end = w';
          path = goes (adds none_item) w w' w' tt e (stays w');
          stands = subst (Stands w') same d.stands;
          near = near;
        },
        ap (λ o. state_of o w.state) (sym placed),
      )

  -- At most one cell for each number that a column can have.
  row_end :
      (k : ℕ) (w : Writer File) (above : List DocState)
      → Stands w (table_values, above)
      → w.state.column < 2 ^ 32
      → 2 ^ 32 ≤ w.state.column + k
      → HasRoom w k
      → (l : Led p w (table_values, above) k) × (l.end.state.column ≡ 0)
  row_end zero w above s small far room = absurd (omega arith)
  row_end (suc k) w above s small far room =
      let (l, e) = none_cell w above s (omega (arith, room)) in
      let column : l.end.state.column ≡ (next_column w.state).column = ap (λ t. t.column) e in
      elim (next_column-cases w.state small) [
        | inl ends ↦ (
          record { end = l.end; path = l.path; stands = l.stands; near = omega (arith, l.near) },
          column ∙ ends,
        )
        | inr (grows, fits) ↦
            let (m, ends) =
              row_end k l.end above l.stands (omega (arith, column, grows))
                (omega (arith, column, grows)) (omega (arith, l.near, room)) in
            (
              record {
                end = m.end;
                path = Reaches-Reaches p w l.end m.end l.path m.path;
                stands = m.stands;
                near = omega (arith, l.near, m.near);
              },
              ends,
            )
      ]

  -- Wherever a row stands, cells without a value lead to its end.
  pub row-finishes :
      (w : Writer File) (above : List DocState)
      → Stands w (table_values, above)
      → HasRoom w (1 + 2 ^ 32)
      → (l : Led p w (table_values, above) (1 + 2 ^ 32)) × (l.end.state.column ≡ 0)
  row-finishes w above s room = elim (Bool-cases (w.state.column == 0)) [
    | inl ends ↦ (record { end = w; path = stays w; stands = s; near = omega arith }, ground arith)
    | inr goes_on ↦
        let (l, e) = none_cell w above s (omega (arith, room)) in
        let small : l.end.state.column < 2 ^ 32 =
          omega (arith, ap (λ t. t.column) e, next_column-lt w.state) in
        let (m, ends) =
          row_end (2 ^ 32) l.end above l.stands small (omega arith) (omega (arith, l.near, room)) in
        (
          record {
            end = m.end;
            path = Reaches-Reaches p w l.end m.end l.path m.path;
            stands = m.stands;
            near = omega (arith, l.near, m.near);
          },
          ends,
        )
  ]
