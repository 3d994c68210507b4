-- ===== src/Call/Scan.antt =====
-- `ujo_reader_get_next` of src/ujo_reader.c gives the element of each call of the writer.
use mathlib.Core.Path.{subst}
use libujo_c.Base.{
  ℕ, ◌^◌, ◌<◌, ◌≡◌, refl, sym, ap, ◌∙◌, true, false, List, [], ◌++◌, inl, inr, Option, none, some,
  arith, append-nil, append_assoc,
}
use libujo_c.Base.Result.{M, pure, ◌>>=◌, ◌>>◌}
use libujo_c.Types.{type_list, type_map, type_table, terminator}
use libujo_c.Platform.{Platform, Grants}
use libujo_c.State.{
  DocState, list, dict_key, table_columns, table_values, closed, enumerator, container_closed,
  same_state, state_prev, state_next, state_switch, allow_atomic, allow_container, allow_string,
}
use libujo_c.State.Same.{
  same_state→eq, closed-or_open, closes_columns, closes_list, closes_map, closes_table,
}
use libujo_c.State.Shape.{Shape, leave, after, enter}
use libujo_c.Words.{memory_bytes, from_memory}
use libujo_c.Words.Bytes.{length-memory_bytes, from_memory-memory_bytes}
use libujo_c.Element.{Value, no_value}
use libujo_c.Reader.{Reader, goto}
use libujo_c.Reader.Values.{open_list, open_map, open_table, close_container}
use libujo_c.Reader.Next.{
  Next, found, parse_value, parse_terminator, end_columns, scan_element, get_next, element_size,
}
use libujo_c.Reader.Input.{
  Handler, Reads, Parses, then-Parses, gives, switches, leaves_to, enters_to,
}
use libujo_c.Call.{
  Call, adds, list_opens, list_closes, map_opens, map_closes, table_opens, columns_end,
  table_closes, read_back, seen, is_string,
}
use libujo_c.Call.Effect.{bytes, permits, moves, leave_then, FitsCall}
use libujo_c.Call.Decode.{piece-Parses}
use libujo_c.Call.DecodeItem.{body, starts_with_type, after_event, parse_value-Decodes}

module _ {File Client : Type 0} (p : Platform File) (g : Grants p) (f : Handler Client)
    (d : Option Client) where
  -- The id stands before the reader, and `parse_value` goes on behind it.
  scans :
      (t : ℕ) (v : Value) (ys rest : List ℕ) (r : Reader File Client) (at next : Shape)
      → t < 2 ^ 8
      → Reads f d r ((memory_bytes p.order 1 t ++ ys) ++ rest) at
      → ((r' : Reader File Client)
          → Reads f d r' (ys ++ rest) at
          → Parses f d (parse_value p t) r' v rest next)
      → Parses f d (scan_element p) r (found (record { type = t; value = v })) rest next
  unfolding scan_element
  scans t v ys rest r at next b h go =
      let with_id : ℕ → M (Reader File Client) Next =
        λ u. parse_value p u >>= λ x. pure (found (record { type = u; value = x })) in
      piece-Parses p g f d (λ bytes. with_id (from_memory p.order bytes)) r 1
        (memory_bytes p.order 1 t) (ys ++ rest) rest at next
        (found (record { type = t; value = v }))
        (subst (λ zs. Reads f d r zs at) (append_assoc (memory_bytes p.order 1 t) ys rest) h)
        (length-memory_bytes p.order 1 t)
        (λ r1 h1.
          subst (λ u. Parses f d (with_id u) r1 (found (record { type = t; value = v })) rest next)
            (sym (from_memory-memory_bytes p.order 1 t b))
            (then-Parses p g f d (parse_value p t)
              (λ x. pure (found (record { type = t; value = x }))) r1 v
              (found (record { type = t; value = v })) rest rest next next (go r1 h1)
              (λ r2 h2. gives p g f d (found (record { type = t; value = v })) r2 rest next h2)))

  opens_container :
      (k : DocState) (r : Reader File Client) (rest : List ℕ) (at : Shape)
      → Reads f d r rest at
      → Parses f d (do goto (state_next p k); pure no_value) r no_value rest (enter k at)
  opens_container k r rest at h =
      then-Parses p g f d (goto (state_next p k)) (λ _. pure no_value) r tt no_value rest rest
        (enter k at) (enter k at) (enters_to p g f d k r rest at h)
        (λ r1 h1. gives p g f d no_value r1 rest (enter k at) h1)

  leaves_out :
      (o : Option Shape) (next : Shape)
      → leave_then o ≡ some next
      → (out : Shape) × (o ≡ some out) × (after container_closed out ≡ some next)
  leaves_out none next e = cc
  leaves_out (some out) next e = (out, refl, e)

  closes_container :
      (r : Reader File Client) (rest : List ℕ) (at next : Shape)
      → Reads f d r rest at
      → leave_then (leave at) ≡ some next
      → Parses f d (close_container p) r no_value rest next
  unfolding close_container
  closes_container r rest at next h e =
      let (out, l, q) = leaves_out (leave at) next e in
      let close : M (Reader File Client) Value =
        goto (state_switch p container_closed) >>= λ _. pure no_value in
      then-Parses p g f d (goto state_prev) (λ _. close) r tt no_value rest rest out next
        (leaves_to p g f d r rest at out h l)
        λ r1 h1.
          then-Parses p g f d (goto (state_switch p container_closed)) (λ _. pure no_value) r1 tt
            no_value rest rest next next (switches p g f d container_closed r1 rest out next h1 q)
            (λ r2 h2. gives p g f d no_value r2 rest next h2)

  terminates :
      (r : Reader File Client) (rest : List ℕ) (at next : Shape)
      → Reads f d r rest at
      → same_state r.state.state table_columns ≡ false
      → leave_then (leave at) ≡ some next
      → Parses f d (parse_value p terminator) r no_value rest next
  unfolding parse_value parse_terminator
  terminates r rest at next h inside e =
      let (r', q, h') = closes_container r rest at next h e in (r', rw inside q, h')

  ends_columns :
      (r : Reader File Client) (rest : List ℕ) (at : Shape)
      → Reads f d r rest at
      → same_state r.state.state table_columns ≡ true
      → Parses f d (parse_value p terminator) r no_value rest (table_values, at.1)
  unfolding parse_value parse_terminator end_columns
  ends_columns r rest at h inside = (
    record r { state = record r.state { state = table_values } },
    rw inside refl,
    record {
      memory = h.memory;
      block = h.block;
      in_block = h.in_block;
      ahead = h.ahead;
      within = h.within;
      small = h.small;
      here = record {
        above = h.here.above;
        holds = h.here.holds;
        current = refl;
        outside = h.here.outside;
      };
      handler = h.handler;
      data_is = h.data_is;
    },
  )

  closed_refuses : (c : Call) → permits c closed ≡ true → false ≡ true
  unfolding allow_atomic allow_string allow_container same_state enumerator
  closed_refuses (adds i) h = ground arith
  closed_refuses list_opens h = h
  closed_refuses map_opens h = h
  closed_refuses table_opens h = h
  closed_refuses list_closes h = h
  closed_refuses map_closes h = h
  closed_refuses columns_end h = h
  closed_refuses table_closes h = h

  -- Where a call is permitted, the document is not over.
  permits-open : (c : Call) (s : DocState) → permits c s ≡ true → same_state s closed ≡ false
  permits-open c s h = elim (closed-or_open s) [
    | inl e ↦ cc (closed_refuses c (ap (permits c) (sym e) ∙ h))
    | inr o ↦ o
  ]

  scans_id :
      (t : ℕ) (rest : List ℕ) (r : Reader File Client) (at next : Shape)
      → t < 2 ^ 8
      → Reads f d r (memory_bytes p.order 1 t ++ rest) at
      → ((r' : Reader File Client)
          → Reads f d r' rest at
          → Parses f d (parse_value p t) r' no_value rest next)
      → Parses f d (scan_element p) r (found (record { type = t; value = no_value })) rest next
  scans_id t rest r at next b h go =
      scans t no_value [] rest r at next b
        (subst (λ xs. Reads f d r (xs ++ rest) at) (sym (append-nil (memory_bytes p.order 1 t))) h)
        go

  arrives :
      (m : M (Reader File Client) Value) (r : Reader File Client) (rest : List ℕ) (to next : Shape)
      → some to ≡ some next
      → Parses f d m r no_value rest to
      → Parses f d m r no_value rest next
  arrives m r rest to next q (r', e, h) = (r', e, subst (λ s. Reads f d r' rest s) same h)
    where
      same : to ≡ next
      same = cc

  enters_next :
      (k : DocState) (r : Reader File Client) (rest : List ℕ) (at next : Shape)
      → Reads f d r rest at
      → some (enter k at) ≡ some next
      → Parses f d (goto (state_next p k) >>= λ _. pure no_value) r no_value rest next
  enters_next k r rest at next h q =
      arrives (goto (state_next p k) >>= λ _. pure no_value) r rest (enter k at) next q
        (opens_container k r rest at h)

  -- The element of each call is found, where the call was permitted.
  scan_element-seen :
      (c : Call) (r : Reader File Client) (rest : List ℕ) (at next : Shape)
      → FitsCall c
      → Reads f d r (bytes p.order c ++ rest) at
      → permits c at.0 ≡ true
      → moves c at ≡ some next
      → Parses f d (scan_element p) r (found (seen c)) rest next
  scan_element-seen (adds i) r rest at next fits h l q =
      let (small, split) = starts_with_type p.order i in
      scans (read_back i).type (read_back i).value (body p.order i) rest r at next small
        (subst (λ xs. Reads f d r (xs ++ rest) at) split h)
        (λ r1 h1.
          parse_value-Decodes p g f d i fits r1 rest at next h1
            (ap (λ e. e at) (sym (after_event (is_string i))) ∙ q))
  scan_element-seen list_opens r rest at next fits h l q =
      scans_id type_list rest r at next (omega arith) h
        (unfold parse_value open_list in λ r1 h1. enters_next list r1 rest at next h1 q)
  scan_element-seen map_opens r rest at next fits h l q =
      scans_id type_map rest r at next (omega arith) h
        (unfold parse_value open_map in λ r1 h1. enters_next dict_key r1 rest at next h1 q)
  scan_element-seen table_opens r rest at next fits h l q =
      scans_id type_table rest r at next (omega arith) h
        (unfold parse_value open_table in λ r1 h1. enters_next table_columns r1 rest at next h1 q)
  scan_element-seen list_closes r rest at next fits h l q =
      scans_id terminator rest r at next (omega arith) h (λ r1 h1.
        terminates r1 rest at next h1
          (closes_list r1.state.state (h1.here.current ∙ same_state→eq at.0 list l)) q)
  scan_element-seen map_closes r rest at next fits h l q =
      scans_id terminator rest r at next (omega arith) h (λ r1 h1.
        terminates r1 rest at next h1
          (closes_map r1.state.state (h1.here.current ∙ same_state→eq at.0 dict_key l)) q)
  scan_element-seen table_closes r rest at next fits h l q =
      scans_id terminator rest r at next (omega arith) h (λ r1 h1.
        terminates r1 rest at next h1
          (closes_table r1.state.state (h1.here.current ∙ same_state→eq at.0 table_values l)) q)
  scan_element-seen columns_end r rest at next fits h l q =
      scans_id terminator rest r at next (omega arith) h (λ r1 h1.
        arrives (parse_value p terminator) r1 rest (table_values, at.1) next q
          (ends_columns r1 rest at h1
            (closes_columns r1.state.state (h1.here.current ∙ same_state→eq at.0 table_columns l))))

  -- With an allocator that serves every request, `ujo_reader_get_next` of a memory reader that
  -- stands at a position, before the bytes of a call with fitting arguments that is permitted
  -- there, gives the element of the call, and leaves the bytes behind those of the call and the
  -- position after it.
  pub get_next-seen :
      (c : Call) (r : Reader File Client) (rest : List ℕ) (at next : Shape)
      → FitsCall c
      → Reads f d r (bytes p.order c ++ rest) at
      → permits c at.0 ≡ true
      → moves c at ≡ some next
      → Parses f d (get_next p) r (found (seen c)) rest next
  unfolding get_next
  get_next-seen c r rest at next fits h l q =
      let (r1, e, h1) = scan_element-seen c r rest at next fits h l q in
      (
        r1,
        rw (permits-open c r.state.state (ap (permits c) h.here.current ∙ l), g element_size) e,
        h1,
      )
