-- ===== src/Call/Writes.antt =====
-- What each call of src/ujo_writer.c does to a writer into memory.
use libujo_c.Base.{ℕ, ◌≡◌, refl, sym, ap, ◌∙◌, true, false, Option, some, arith, length, ltb, ◌==◌}
use libujo_c.Base.Result.{M, ok, err, ◌>>◌, drop_error_ok, report_error-true, drop_error}
use libujo_c.Words.Bytes.{length-memory_bytes}
use libujo_c.Types.{
  err_type_misplaced, err_invalid_object, type_list, type_map, type_table, terminator,
}
use libujo_c.Platform.{Platform, Grants}
use libujo_c.Stack.{Stack}
use libujo_c.State.{
  DocState, list, dict_key, table_columns, table_values, container_closed, State, allow_container,
  same_state, state_next, state_prev, state_switch,
}
use libujo_c.State.Same.{same_state→eq}
use libujo_c.State.Shape.{Shape, enter, leave, fits, is_outer}
use libujo_c.State.Refine.{At}
use libujo_c.Writer.{
  Writer, put_uint8, goto, list_open, list_close, map_open, map_close, table_open,
  table_end_columns, table_close,
}
use libujo_c.Writer.Put.{HasRoom}
use libujo_c.Writer.Entry.{joined, Stands, Done, entry-Done, entry-refused}
use libujo_c.Call.{
  Call, adds, list_opens, list_closes, map_opens, map_closes, table_opens, columns_end,
  table_closes, Item, perform, allowed, event, Fits,
}
use libujo_c.Call.Encode.{tag, pieces, add-IsEntry}
use libujo_c.Call.Effect.{both-true, bytes, may, refusal, FitsCall, leave_then, Succeeds}
use libujo_c.Call.Containers.{opens-Done, table_opens-Done, closes-Done, columns_end-Done}

module _ {File : Type 0} (p : Platform File) (w : Writer File) where
  -- A call stops at the first of its checks that fails.
  pub perform-stopped :
      (c : Call) → FitsCall c → may c w.state ≡ false → perform p c w ≡ err (refusal c) w
  unfolding list_open list_close map_open map_close table_open table_end_columns table_close
  perform-stopped (adds i) f h =
      ap (λ m. m w) (add-IsEntry p i f)
      ∙ entry-refused p (allowed i) err_type_misplaced (pieces p.order i) (event i) w h
  perform-stopped list_opens f h = rw h
  perform-stopped list_closes f h = rw h
  perform-stopped map_opens f h = rw h
  perform-stopped map_closes f h = rw h
  perform-stopped table_opens f h = rw h
  perform-stopped columns_end f h = ground arith
  perform-stopped table_closes f h = ground arith

-- A state that a check compared is the one that the position has.
here_is :
    {s : State} {k : Option (Stack State)} {at : Shape} (t : DocState)
    → At true (s, k) at
    → same_state s.state t ≡ true
    → at.0 ≡ t
here_is {s} {k} {at} t a h = sym a.current ∙ same_state→eq s.state t h

allows_here :
    {s : State} {k : Option (Stack State)} {at : Shape}
    → At true (s, k) at
    → allow_container s.state ≡ true
    → allow_container at.0 ≡ true
allows_here a h = ap allow_container (sym a.current) ∙ h

module _ {File : Type 0} (p : Platform File) (g : Grants p) (w : Writer File) (at : Shape)
    (s : Stands w at) where
  opens-Succeeds :
      (k : DocState) (type : ℕ)
      → HasRoom w 1
      → fits k at.0 ≡ true
      → (m : M (Writer File) (Unit {0})) → m w ≡ (goto (state_next p k) >> put_uint8 p type) w
      → (next : Shape) × (some (enter k at) ≡ some next)
        × (w' : Writer File) × (m w ≡ ok tt w')
        × Done w (tag p.order type) next w'
  opens-Succeeds k type room f m e =
      let (w', r, d) = opens-Done p g w at s room k type f in (enter k at, refl, w', e ∙ r, d)

  list_open-Succeeds :
      HasRoom w 1 → allow_container w.state.state ≡ true → Succeeds p list_opens w at
  unfolding list_open
  list_open-Succeeds room h =
      opens-Succeeds list type_list room (unfold fits in allows_here s.here h) (list_open p)
        (report_error-true (allow_container w.state.state) err_type_misplaced _ w h)

  map_open-Succeeds : HasRoom w 1 → allow_container w.state.state ≡ true → Succeeds p map_opens w at
  unfolding map_open
  map_open-Succeeds room h =
      opens-Succeeds dict_key type_map room (unfold fits in allows_here s.here h) (map_open p)
        (report_error-true (allow_container w.state.state) err_type_misplaced _ w h)

  table_open-Succeeds :
      HasRoom w 1 → allow_container w.state.state ≡ true → Succeeds p table_opens w at
  unfolding table_open
  table_open-Succeeds room h =
      let (w', r, d) = table_opens-Done p g w at s room (unfold fits in allows_here s.here h) in
      (
        enter table_columns at,
        refl,
        w',
        report_error-true (allow_container w.state.state) err_type_misplaced _ w h ∙ r,
        d,
      )

  closes-Succeeds :
      (t : DocState) (write : M (Writer File) (Unit {0}))
      → HasRoom w 1
      → ((v v' : Writer File) → put_uint8 p terminator v ≡ ok tt v' → write v ≡ ok tt v')
      → is_outer t ≡ false
      → same_state w.state.state t ≡ true
      → (m : M (Writer File) (Unit {0}))
      → m w ≡ (goto state_prev >> (write >> goto (state_switch p container_closed))) w
      → (next : Shape) × (leave_then (leave at) ≡ some next)
        × (w' : Writer File) × (m w ≡ ok tt w')
        × Done w (tag p.order terminator) next w'
  closes-Succeeds t write room same o h m e =
      let (next, q, w', r, d) =
        closes-Done p g w at s room write same (ap is_outer (here_is t s.here h) ∙ o) in
      (next, q, w', e ∙ r, d)

  list_close-Succeeds :
      HasRoom w 1 → same_state w.state.state list ≡ true → Succeeds p list_closes w at
  unfolding list_close
  list_close-Succeeds room h =
      closes-Succeeds list (put_uint8 p terminator) room (λ v v' e. e) (unfold is_outer in refl) h
        (list_close p) (report_error-true (same_state w.state.state list) err_invalid_object _ w h)

  map_close-Succeeds :
      HasRoom w 1 → same_state w.state.state dict_key ≡ true → Succeeds p map_closes w at
  unfolding map_close
  map_close-Succeeds room h =
      closes-Succeeds dict_key (put_uint8 p terminator) room (λ v v' e. e) (unfold is_outer in refl)
        h (map_close p)
        (report_error-true (same_state w.state.state dict_key) err_invalid_object _ w h)

  table_close-Succeeds :
      HasRoom w 1
      → same_state w.state.state table_values ≡ true
      → (w.state.column == 0) ≡ true
      → Succeeds p table_closes w at
  unfolding table_close
  table_close-Succeeds room h c =
      closes-Succeeds table_values (drop_error (put_uint8 p terminator)) room
        (λ v v' e. drop_error_ok (put_uint8 p terminator) e) (unfold is_outer in refl) h
        (table_close p)
        (report_error-true (same_state w.state.state table_values) err_invalid_object _ w h
          ∙ report_error-true (w.state.column == 0) err_invalid_object _ w c)

  table_end_columns-Succeeds :
      HasRoom w 1
      → same_state w.state.state table_columns ≡ true
      → ltb 0 w.state.columns ≡ true
      → Succeeds p columns_end w at
  unfolding table_end_columns
  table_end_columns-Succeeds room h c =
      let (w', r, d) = columns_end-Done p g w at s room (here_is table_columns s.here h) in
      (
        (table_values, at.1),
        refl,
        w',
        report_error-true (same_state w.state.state table_columns) err_invalid_object _ w h
            ∙ report_error-true (ltb 0 w.state.columns) err_invalid_object _ w c
            ∙ r,
        d,
      )

  add-Succeeds :
      (i : Item)
      → Fits i
      → HasRoom w (length (joined (pieces p.order i)))
      → allowed i w.state ≡ true
      → Succeeds p (adds i) w at
  add-Succeeds i f room h =
      let (next, q, w', r, d) =
        entry-Done p (allowed i) err_type_misplaced (pieces p.order i) (event i) w at g s room h in
      (next, q, w', ap (λ m. m w) (add-IsEntry p i f) ∙ r, d)

  room_for : (type : ℕ) → HasRoom w (length (tag p.order type)) → HasRoom w 1
  room_for type h = omega (arith, h, length-memory_bytes p.order 1 type)

  -- A call on a memory writer that stands at a position, with fitting arguments, an allocator that
  -- serves every request, room for its bytes and checks of the place that pass, succeeds: it writes
  -- just the bytes of the call, follows no NULL pointer, and moves to the position that the format
  -- gives.
  pub perform-Succeeds :
      (c : Call)
      → FitsCall c
      → HasRoom w (length (bytes p.order c))
      → may c w.state ≡ true
      → Succeeds p c w at
  perform-Succeeds (adds i) f room h = add-Succeeds i f room h
  perform-Succeeds list_opens f room h = list_open-Succeeds (room_for type_list room) h
  perform-Succeeds map_opens f room h = map_open-Succeeds (room_for type_map room) h
  perform-Succeeds table_opens f room h = table_open-Succeeds (room_for type_table room) h
  perform-Succeeds list_closes f room h = list_close-Succeeds (room_for terminator room) h
  perform-Succeeds map_closes f room h = map_close-Succeeds (room_for terminator room) h
  perform-Succeeds columns_end f room h =
      let (here, more) = both-true _ _ h in
      table_end_columns-Succeeds (room_for terminator room) here more
  perform-Succeeds table_closes f room h =
      let (here, first) = both-true _ _ h in
      table_close-Succeeds (room_for terminator room) here first
