-- ===== src/Call/Containers.antt =====
-- The steps of the functions of src/ujo_writer.c that open and close containers, after their checks.
use libujo_c.Base.{ℕ, ◌≡◌, refl, ap, ◌∙◌, true, false, some, arith, length}
use libujo_c.Base.Result.{M, ok, ◌>>◌, then_ok}
use libujo_c.Words.Bytes.{length-memory_bytes}
use libujo_c.Types.{type_table, terminator}
use libujo_c.Platform.{Platform, Grants}
use libujo_c.State.{
  DocState, table_columns, table_values, container_closed, state_next, state_prev, state_switch,
}
use libujo_c.State.Shape.{Shape, enter, leave, fits, is_outer, rows-IsNested}
use libujo_c.Writer.{Writer, put_uint8, goto}
use libujo_c.Writer.Put.{HasRoom}
use libujo_c.Writer.Entry.{Stands, Done, goto_lem}
use libujo_c.Writer.Steps.{enters, leaves, passes, puts}
use libujo_c.Call.Encode.{tag}
use libujo_c.Call.Effect.{leave_then}

module _ {File : Type 0} (p : Platform File) (g : Grants p) (w : Writer File) (at : Shape)
    (s : Stands w at) (room : HasRoom w 1) where
  length-tag : (type : ℕ) → length (tag p.order type) ≡ 1
  length-tag type = length-memory_bytes p.order 1 type

  -- The writer with the counters of the table that was opened.
  abbrev pub counters_cleared : Writer File → Writer File
  counters_cleared v = record v { state = record v.state { columns = 0; column = 0 } }

  Stands-cleared : (v : Writer File) (to : Shape) → Stands v to → Stands (counters_cleared v) to
  Stands-cleared v to h = record {
    valid = record {
      memory = h.valid.memory;
      sized = h.valid.sized;
      within = h.valid.within;
      lean = h.valid.lean;
    };
    here = record {
      above = h.here.above;
      holds = h.here.holds;
      current = h.here.current;
      outside = h.here.outside;
    };
    nested = h.nested;
  }

  pub opens-Done :
      (k : DocState) (type : ℕ)
      → fits k at.0 ≡ true
      → (w' : Writer File) × ((goto (state_next p k) >> put_uint8 p type) w ≡ ok tt w')
        × Done w (tag p.order type) (enter k at) w'
  unfolding put_uint8
  opens-Done k type f =
      let m = enters p g w at s k f in
      let w1 = record w { state = m.place.0; state_stack = m.place.1 } in
      let (w', e, d) =
        puts p g w1 (enter k at) m.stands (tag p.order type)
          (omega (arith, room, length-tag type)) in
      (
        w',
        then_ok (goto (state_next p k)) (put_uint8 p type)
              (goto_lem (state_next p k) w m.place m.moved)
            ∙ e,
        record { stands = d.stands; written = d.written; count = d.count },
      )

  pub table_opens-Done :
      fits table_columns at.0 ≡ true
      → (w' : Writer File) × ((goto (state_next p table_columns)
              >> (λ v. put_uint8 p type_table (counters_cleared v)))
            w
          ≡ ok tt w')
        × Done w (tag p.order type_table) (enter table_columns at) w'
  unfolding put_uint8
  table_opens-Done f =
      let m = enters p g w at s table_columns f in
      let w1 = record w { state = m.place.0; state_stack = m.place.1 } in
      let (w', e, d) =
        puts p g (counters_cleared w1) (enter table_columns at)
          (Stands-cleared w1 (enter table_columns at) m.stands) (tag p.order type_table)
          (omega (arith, room, length-tag type_table)) in
      (
        w',
        then_ok (goto (state_next p table_columns)) _
              (goto_lem (state_next p table_columns) w m.place m.moved)
            ∙ e,
        record { stands = d.stands; written = d.written; count = d.count },
      )

  -- What a container closes with, whether or not the code looks at the result of the write.
  pub closes-Done :
      (write : M (Writer File) (Unit {0}))
      → ((v v' : Writer File) → put_uint8 p terminator v ≡ ok tt v' → write v ≡ ok tt v')
      → is_outer at.0 ≡ false
      → (next : Shape) × (leave_then (leave at) ≡ some next)
        × (w' : Writer File) × ((goto state_prev
                >> (write >> goto (state_switch p container_closed)))
              w
            ≡ ok tt w')
        × Done w (tag p.order terminator) next w'
  unfolding put_uint8
  closes-Done write same o =
      let (out, e, m) = leaves p g w at s o in
      let w1 = record w { state = m.place.0; state_stack = m.place.1 } in
      let (w2, put_it, d) =
        puts p g w1 out m.stands (tag p.order terminator)
          (omega (arith, room, length-tag terminator)) in
      let (next, q, m2) = passes p g w2 out d.stands container_closed in
      (
        next,
        ap leave_then e ∙ q,
        record w2 { state = m2.place.0; state_stack = m2.place.1 },
        then_ok (goto state_prev) _ (goto_lem state_prev w m.place m.moved)
            ∙ then_ok write _ (same w1 w2 put_it)
            ∙ goto_lem (state_switch p container_closed) w2 m2.place m2.moved,
        record { stands = m2.stands; written = d.written; count = d.count },
      )

  abbrev pub rows_begin : M (Writer File) (Unit {0})
  rows_begin v = ok tt (record v { state = record v.state { state = table_values } })

  -- The header of a table ends; its rows begin.
  pub columns_end-Done :
      at.0 ≡ table_columns
      → (w' : Writer File) × ((put_uint8 p terminator >> rows_begin) w ≡ ok tt w')
        × Done w (tag p.order terminator) (table_values, at.1) w'
  unfolding put_uint8
  columns_end-Done c =
      let (w1, e, d) =
        puts p g w at s (tag p.order terminator) (omega (arith, room, length-tag terminator)) in
      (
        record w1 { state = record w1.state { state = table_values } },
        then_ok (put_uint8 p terminator) rows_begin e,
        record {
          stands = record {
            valid = record {
              memory = d.stands.valid.memory;
              sized = d.stands.valid.sized;
              within = d.stands.valid.within;
              lean = d.stands.valid.lean;
            };
            here = record {
              above = d.stands.here.above;
              holds = d.stands.here.holds;
              current = refl;
              outside = d.stands.here.outside;
            };
            nested = rows-IsNested at.0 at.1 c s.nested;
          };
          written = d.written;
          count = d.count;
        },
      )
