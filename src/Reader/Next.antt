-- ===== src/Reader/Next.antt =====
-- src/ujo_reader.c: scanning a document element by element.
use libujo_c.Base.{ℕ, zero, suc, Option, none, some, ◌==◌, if◌then◌else◌}
use libujo_c.Base.Result.{M, ok, fault, out_of_fuel, pure, fail, modify, gets, ◌>>=◌, ◌>>◌}
use libujo_c.Types.{
  err_invalid_data, terminator, type_bin, type_bool, type_date, type_float16, type_float32,
  type_float64, type_int16, type_int32, type_int64, type_int8, type_list, type_map, type_none,
  type_string, type_table, type_time, type_timestamp, type_uint16, type_uint32, type_uint64,
  type_uint8, type_ux_time,
}
use libujo_c.Platform.{Platform}
use libujo_c.State.{closed, table_columns, table_values, same_state}
use libujo_c.Words.{from_memory}
use libujo_c.Element.{Value, no_value, Element}
use libujo_c.Reader.{Reader, get_data, parse_header}
use libujo_c.Reader.Values.{
  close_container, open_list, open_map, open_table, parse_binary, parse_bool, parse_date,
  parse_float16, parse_float32, parse_float64, parse_int16, parse_int32, parse_int64, parse_int8,
  parse_none, parse_string, parse_time, parse_timestamp, parse_uint16, parse_uint32, parse_uint64,
  parse_uint8, parse_uxtime,
}

-- `sizeof(ujo_element)`
abbrev pub element_size : ℕ
element_size = 40

-- What `*v` and `*eod` are after a successful call: NULL and ujoTrue at the end of the document,
-- and an element with ujoFalse before.
pub data Next : Type 0 where
  ended : Next
  found : Element → Next

module _ {File Client : Type 0} (p : Platform File) where
  unfoldable pub end_columns : M (Reader File Client) Value
  end_columns = do
    modify (λ r. record r { state = record r.state { state = table_values } })
    pure no_value

  -- A terminator ends the columns of a table, or closes a container.
  unfoldable pub parse_terminator : M (Reader File Client) Value
  unfolding end_columns
  parse_terminator r =
      if same_state r.state.state table_columns then end_columns r else close_container p r

  -- The switch over the type id.
  unfoldable pub parse_value : ℕ → M (Reader File Client) Value
  unfolding parse_terminator
  parse_value t =
      if t == type_list
      then open_list p
      else (if t == type_map
          then open_map p
          else (if t == type_table
              then open_table p
              else (if t == terminator
                  then parse_terminator
                  else (if t == type_int64
                      then parse_int64 p
                      else (if t == type_int32
                          then parse_int32 p
                          else (if t == type_int16
                              then parse_int16 p
                              else (if t == type_int8
                                  then parse_int8 p
                                  else (if t == type_uint64
                                      then parse_uint64 p
                                      else (if t == type_uint32
                                          then parse_uint32 p
                                          else (if t == type_uint16
                                              then parse_uint16 p
                                              else (if t == type_uint8
                                                  then parse_uint8 p
                                                  else (if t == type_float16
                                                      then parse_float16 p
                                                      else (if t == type_float32
                                                          then parse_float32 p
                                                          else (if t == type_float64
                                                            then parse_float64 p
                                                            else (if t == type_bool
                                                            then parse_bool p
                                                            else (if t == type_none
                                                            then parse_none p
                                                            else (if t == type_ux_time
                                                            then parse_uxtime p
                                                            else (if t == type_date
                                                            then parse_date p
                                                            else (if t == type_time
                                                            then parse_time p
                                                            else (if t == type_timestamp
                                                            then parse_timestamp p
                                                            else (if t == type_string
                                                            then parse_string p
                                                            else (if t == type_bin
                                                            then parse_binary p
                                                            else (fail
                                                            err_invalid_data)))))))))))))))))))))))

  unfoldable pub scan_element : M (Reader File Client) Next
  unfolding parse_value
  scan_element = do
    bytes ← get_data p 1
    let t = from_memory p.order bytes
    value ← parse_value t
    pure (found (record { type = t; value = value }))

  -- `ujo_reader_get_next`: the request for the element is not checked.
  unfoldable pub get_next : M (Reader File Client) Next
  unfolding scan_element
  get_next r =
      if same_state r.state.state closed
      then ok ended r
      else (if p.grants element_size then scan_element r else fault)

  -- `ujo_reader_get_first`
  unfoldable pub get_first : M (Reader File Client) Next
  get_first = do parse_header p; get_next

  -- The call of the callback with an element, if there is one, and the test of its error code.
  unfoldable pub notify_by :
      Option (Element → Option Client → ℕ × Option Client)
      → Element
      → M (Reader File Client) (Unit {0})
  notify_by none v = pure tt
  notify_by (some f) v = do
    d ← gets (λ r. r.on_element_data)
    let (code, d') = f v d
    modify (λ r. record r { on_element_data = d' })
    if code == 0 then pure tt else fail code

  unfoldable pub notify : Element → M (Reader File Client) (Unit {0})
  unfolding notify_by
  notify v r = notify_by r.on_element v r

  -- The loop of `ujo_reader_parse`, for at most `fuel` elements.
  unfoldable pub parse_loop : ℕ → Next → M (Reader File Client) (Unit {0})
  parse_loop fuel ended = pure tt
  parse_loop zero (found v) = λ r. out_of_fuel
  parse_loop (suc fuel) (found v) = do notify v; next ← get_next; parse_loop fuel next

  -- `ujo_reader_parse`
  unfoldable pub parse : ℕ → M (Reader File Client) (Unit {0})
  parse fuel = do next ← get_first; parse_loop fuel next
