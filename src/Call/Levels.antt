-- ===== src/Call/Levels.antt =====
-- Every place within a document of src/ujo_writer.c can be left.
use mathlib.Core.Path.{subst}
use libujo_c.Base.{
  ℕ, ◌+◌, ◌^◌, ◌≤◌, ◌<◌, ◌≡◌, refl, sym, ap, ◌∙◌, true, false, List, [], ◌∷◌, Option, none, some,
  arith, length, ◌++◌, ◌%◌, length-append, append-nil, inl, inr, ltb, Bool-cases,
}
use libujo_c.Types.{terminator, type_none, type_string, sub_string_u8}
use libujo_c.Platform.{Platform, Grants}
use libujo_c.Stack.{Stack}
use libujo_c.State.{
  DocState, root, list, dict_key, dict_value, closed, table_columns, table_values, same_state,
  State, state_switch, string_switch, string_found, next_columns, allow_string, enumerator, closing,
  allow_atomic, container_closed,
}
use libujo_c.State.Shape.{Shape, leave, after, after_value, after_container, is_outer}
use libujo_c.Words.{memory_bytes}
use libujo_c.Writer.Texts.{array_bytes}
use libujo_c.Words.Bytes.{length-memory_bytes}
use libujo_c.Writer.{Writer}
use libujo_c.Writer.Put.{HasRoom}
use libujo_c.Writer.Entry.{Stands}
use libujo_c.Call.{
  Call, adds, Item, Fits, none_item, string_u8, list_closes, map_closes, table_closes, columns_end,
}
use libujo_c.Call.Encode.{tag}
use libujo_c.Call.Effect.{bytes, may, moves, leave_then, FitsCall}
use libujo_c.Call.Reach.{stays, goes, Led, Led-Led, Led-nothing, one_call, add-place}
use libujo_c.Call.Writes.{perform-Succeeds}
use libujo_c.Call.Rows.{row-finishes, state_of}

leave-shorter :
    (s : DocState) (above : List DocState) (next : Shape)
    → leave (s, above) ≡ some next
    → length next.1 < length above
unfolding leave
leave-shorter s [] next q = cc
leave-shorter s (t ∷ above) next q =
    let same : (closing t, above) ≡ next = cc in omega (arith, ap (λ n. length n.1) same)

closed-shorter :
    (out next : Shape) → after container_closed out ≡ some next → length next.1 ≤ length out.1
unfolding after after_container
closed-shorter (dict_value, above) next q = omega (arith, leave-shorter dict_value above next q)
closed-shorter (s, above) next q =
    let same : (s, above) ≡ next = cc in omega (arith, ap (λ n. length n.1) same)

-- A container that is closed is left.
leave_then-shorter :
    (o : Option Shape) (s : DocState) (above : List DocState) (next : Shape)
    → leave (s, above) ≡ o
    → leave_then o ≡ some next
    → length next.1 < length above
leave_then-shorter none s above next e q = cc
leave_then-shorter (some out) s above next e q =
    omega (arith, leave-shorter s above out e, closed-shorter out next q)

-- What one level costs at most: the cells of a row, and the calls around them.
abbrev pub level : ℕ
level = 2 ^ 32 + 16

module _ {File : Type 0} (p : Platform File) (g : Grants p) where
  -- The innermost container can be closed.
  abbrev pub Shortens : Writer File → List DocState → ℕ → Type 0
  Shortens w above k = (next : Shape) × (length next.1 < length above) × Led p w next k

  closes :
      (c : Call) (w : Writer File) (s : DocState) (above : List DocState)
      → Stands w (s, above)
      → ((at : Shape) → moves c at ≡ leave_then (leave at))
      → FitsCall c
      → length (bytes p.order c) ≤ 1
      → HasRoom w 1
      → may c w.state ≡ true
      → Shortens w above 1
  closes c w s above h turns f few room allows =
      let (next, q, l) = one_call p g c w (s, above) 1 h f few room allows in
      (
        next,
        leave_then-shorter (leave (s, above)) s above next refl (sym (turns (s, above)) ∙ q),
        l,
      )

  pub one_byte_each : length (bytes p.order list_closes) ≤ 1
  one_byte_each = omega (arith, length-memory_bytes p.order 1 terminator)

  closes_list :
      (w : Writer File) (above : List DocState)
      → Stands w (list, above)
      → HasRoom w 1
      → Shortens w above 1
  unfolding same_state enumerator
  closes_list w above h room =
      closes list_closes w list above h (λ at. refl) tt one_byte_each room
        (ap (λ s. same_state s list) h.here.current)

  closes_map :
      (w : Writer File) (above : List DocState)
      → Stands w (dict_key, above)
      → HasRoom w 1
      → Shortens w above 1
  unfolding same_state enumerator
  closes_map w above h room =
      closes map_closes w dict_key above h (λ at. refl) tt one_byte_each room
        (ap (λ s. same_state s dict_key) h.here.current)

  -- A key without a value gets the value none.
  ends_pair :
      (w : Writer File) (above : List DocState)
      → Stands w (dict_value, above)
      → HasRoom w 1
      → Shortens w above 1
  unfolding allow_atomic after after_value
  ends_pair w above h room =
      let (next, q, l) =
        one_call p g (adds none_item) w (dict_value, above) 1 h tt
          (omega (
            arith,
            ap length (append-nil (tag p.order type_none)),
            length-memory_bytes p.order 1 type_none,
          ))
          room (ap allow_atomic h.here.current) in
      (next, leave-shorter dict_value above next q, l)

  ends_rows :
      (w : Writer File) (above : List DocState)
      → Stands w (table_values, above)
      → HasRoom w (2 ^ 32 + 2)
      → Shortens w above (2 ^ 32 + 2)
  unfolding same_state enumerator
  ends_rows w above h room =
      let (l, first) = row-finishes p g w above h (omega (arith, room)) in
      let (next, less, m) =
        closes table_closes l.end table_values above l.stands (λ at. refl) tt one_byte_each
          (omega (arith, room, l.near)) (rw (l.stands.here.current, first) refl) in
      (
        next,
        less,
        Led-Led p w (table_values, above) next (1 + 2 ^ 32) 1 (2 ^ 32 + 2) (omega arith) l m,
      )

  column_switch :
      (s : State) (k : Option (Stack State))
      → s.state ≡ table_columns
      → state_switch p string_found (s, k) ≡ some (next_columns s, k)
  unfolding state_switch string_switch
  column_switch s k e = ap (λ t. string_switch p t (s, k)) e

  name_few : length (bytes p.order (adds (string_u8 [] 0))) ≤ 6
  unfolding array_bytes
  name_few =
      let units : List ℕ = memory_bytes p.order 4 (0 % 2 ^ 32) in
      omega (
        arith,
        length-append (tag p.order type_string) (tag p.order sub_string_u8 ++ (units ++ [])),
        length-append (tag p.order sub_string_u8) (units ++ []),
        length-append units [],
        length-memory_bytes p.order 1 type_string,
        length-memory_bytes p.order 1 sub_string_u8,
        length-memory_bytes p.order 4 (0 % 2 ^ 32),
      )

  -- A table without a column gets one, with an empty name.
  has_column :
      (w : Writer File) (above : List DocState)
      → Stands w (table_columns, above)
      → HasRoom w 6
      → (l : Led p w (table_columns, above) 6) × (0 < l.end.state.columns)
  unfolding next_columns allow_string after after_value
  has_column w above h room = elim (Bool-cases (ltb 0 w.state.columns)) [
    | inl has ↦ (record { end = w; path = stays w; stands = h; near = omega arith }, ground arith)
    | inr lacks ↦
        let name : Item = string_u8 [] 0 in
        let fits : Fits name = (omega arith, omega arith, tt) in
        let few : length (bytes p.order (adds name)) ≤ 6 = name_few in
        let allows : allow_string w.state.state ≡ true = ap allow_string h.here.current in
        let (next, q, w', e, d) =
          perform-Succeeds p g w (table_columns, above) h (adds name) fits
            (omega (arith, room, few)) allows in
        let same : next ≡ (table_columns, above) = cc in
        let near : w'.bytes ≤ w.bytes + 6 = omega (arith, d.count, few) in
        let none_yet : w.state.columns ≡ 0 = ground arith in
        let placed : some (next_columns w.state, w.state_stack) ≡ some (w'.state, w'.state_stack) =
          sym (column_switch w.state w.state_stack h.here.current)
          ∙ add-place p g name w w' (table_columns, above) h fits (omega (arith, room, few)) allows
              e in
        (
          record {
            end = w';
            path = goes (adds name) w w' w' fits e (stays w');
            stands = subst (Stands w') same d.stands;
            near = near;
          },
          omega (arith, ap (λ o. (state_of o w.state).columns) placed, none_yet),
        )
  ]

  ends_columns :
      (w : Writer File) (above : List DocState)
      → Stands w (table_columns, above)
      → HasRoom w level
      → Shortens w above level
  unfolding same_state enumerator
  ends_columns w above h room =
      let (l, has) = has_column w above h (omega (arith, room)) in
      let some_column : ltb 0 l.end.state.columns ≡ true = ground arith in
      let (next, q, m) =
        one_call p g columns_end l.end (table_columns, above) 1 l.stands tt one_byte_each
          (omega (arith, room, l.near)) (rw (l.stands.here.current, some_column) refl) in
      let same : next ≡ (table_values, above) = cc in
      let m' : Led p l.end (table_values, above) 1 = subst (λ at. Led p l.end at 1) same m in
      let (out, less, n) =
        ends_rows m'.end above m'.stands (omega (arith, room, l.near, m'.near)) in
      (
        out,
        less,
        Led-Led p w (table_columns, above) out 6 (2 ^ 32 + 3) level (omega arith) l
            (Led-Led p l.end (table_values, above) out 1 (2 ^ 32 + 2) (2 ^ 32 + 3) (omega arith) m'
              n),
      )

  within_level :
      (w : Writer File) (above : List DocState) (k : ℕ)
      → k ≤ level
      → Shortens w above k
      → Shortens w above level
  within_level w above k few (next, less, l) = (
    next,
    less,
    Led-Led p w next next k 0 level (omega arith) l (Led-nothing p l.end next 0 l.stands),
  )

  -- The innermost place can be left, whatever it is.
  pub level_ends :
      (s : DocState) (w : Writer File) (above : List DocState)
      → Stands w (s, above)
      → is_outer s ≡ false
      → HasRoom w level
      → Shortens w above level
  unfolding is_outer
  level_ends root w above h o room = cc
  level_ends closed w above h o room = cc
  level_ends list w above h o room =
      within_level w above 1 (omega arith) (closes_list w above h (omega (arith, room)))
  level_ends dict_key w above h o room =
      within_level w above 1 (omega arith) (closes_map w above h (omega (arith, room)))
  level_ends dict_value w above h o room =
      within_level w above 1 (omega arith) (ends_pair w above h (omega (arith, room)))
  level_ends table_columns w above h o room = ends_columns w above h room
  level_ends table_values w above h o room =
      within_level w above (2 ^ 32 + 2) (omega arith) (ends_rows w above h (omega (arith, room)))
