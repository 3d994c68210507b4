-- ===== src/Reader/Program.antt =====
-- The functions of src/ujo_reader.c as programs over a few basic steps, so that what every step keeps
-- is kept by the whole reader.
use libujo_c.Base.{ℕ, ◌*◌, ◌%◌, ◌^◌, Bool, true, false, List, Option, ◌==◌, if◌then◌else◌}
use libujo_c.Base.Result.{M, pure, fail, crash, report_error, modify, gets, ◌>>=◌, ◌>>◌, fault}
use libujo_c.Types.{
  magic, err_allocation, err_invalid_data, sub_string_c, sub_string_u8, sub_string_u16,
  sub_string_u32, terminator, type_bin, type_bool, type_date, type_float16, type_float32,
  type_float64, type_int16, type_int32, type_int64, type_int8, type_list, type_map, type_none,
  type_string, type_table, type_time, type_timestamp, type_uint16, type_uint32, type_uint64,
  type_uint8, type_ux_time,
}
use libujo_c.Platform.{Platform}
use libujo_c.State.{
  list, dict_key, table_columns, table_values, closed, atomic_found, container_closed, State, Place,
  state_next, state_prev, state_switch, same_state,
}
use libujo_c.Words.{from_memory, uint16_swap, uint32_swap, uint64_swap}
use libujo_c.Element.{
  Element, Value, no_value, int8_val, int16_val, int32_val, int64_val, uint8_val, uint16_val,
  uint32_val, uint64_val, float16_val, float32_val, float64_val, bool_val, uxtime_val,
}
use libujo_c.Reader.{Reader, get_data, goto, parse_header, same_bytes}
use libujo_c.Reader.Values.{
  close_container, open_list, open_map, open_table, parse_binary, parse_bool, parse_date,
  parse_float16, parse_float32, parse_float64, parse_int16, parse_int32, parse_int64, parse_int8,
  parse_none, parse_string, parse_time, parse_timestamp, parse_uint16, parse_uint32, parse_uint64,
  parse_uint8, parse_uxtime, from_array, get_array, get_units, get_uint8, get_uint16,
}
use libujo_c.Reader.Next.{
  ended, element_size, end_columns, parse_terminator, parse_value, scan_element, get_next,
  get_first, notify,
}

module _ {File Client : Type 0} (p : Platform File) where
  -- A function of the reader that is made of these steps.
  pub data Made : (A : Type 0) → M (Reader File Client) A → Type 1 where
    gives : {A : Type 0} (a : A) → Made A (pure a)
    fails : {A : Type 0} (code : ℕ) → Made A (fail code)
    crashes : {A : Type 0} → Made A crash
    takes : (n : ℕ) → Made (List ℕ) (get_data p n)
    moves : (f : Place → Option Place) → Made (Unit {0}) (goto f)
    enters_rows :
        Made (Unit {0}) (modify (λ r. record r { state = record r.state { state = table_values } }))
    keeps_magic : (code : List ℕ) → Made (Unit {0}) (modify (λ r. record r { magic_code = code }))
    keeps_version : (n : ℕ) → Made (Unit {0}) (modify (λ r. record r { version = n }))
    keeps_compression : (n : ℕ) → Made (Unit {0}) (modify (λ r. record r { compression = n }))
    asks_version : Made ℕ (gets (λ r. r.version))
    notifies : (v : Element) → Made (Unit {0}) (notify p v)
    then_goes :
        {A B : Type 0} {m : M (Reader File Client) A} {k : A → M (Reader File Client) B}
        → Made A m
        → ((a : A) → Made B (k a))
        → Made B (m >>= k)
    branches :
        {A : Type 0} {m k : M (Reader File Client) A} (test : State → Bool)
        → Made A m
        → Made A k
        → Made A (λ r. if test r.state then m r else k r)

  abbrev pub Program : {A : Type 0} → M (Reader File Client) A → Type 1
  Program {A} m = Made A m

  checks : (b : Bool) (code : ℕ) → Program (report_error b code)
  checks true code = gives tt
  checks false code = fails code

  chooses :
      {A : Type 0} {m k : M (Reader File Client) A} (b : Bool)
      → Program m
      → Program k
      → Program (if b then m else k)
  chooses true m k = m
  chooses false m k = k

  settles : (v : Value) → Program (do goto (state_switch p atomic_found); pure v)
  settles v = then_goes (moves (state_switch p atomic_found)) (λ _. gives v)

  opens : (f : Place → Option Place) → Program (do goto f; pure no_value)
  opens f = then_goes (moves f) (λ _. gives no_value)

  open_list-Program : Program (open_list p)
  unfolding open_list
  open_list-Program = opens (state_next p list)

  open_map-Program : Program (open_map p)
  unfolding open_map
  open_map-Program = opens (state_next p dict_key)

  open_table-Program : Program (open_table p)
  unfolding open_table
  open_table-Program = opens (state_next p table_columns)

  close_container-Program : Program (close_container p)
  unfolding close_container
  close_container-Program =
      then_goes (moves state_prev) (λ _. opens (state_switch p container_closed))

  -- A value of n bytes.
  reads :
      (n : ℕ) (decode : List ℕ → Value)
      → Program (do bytes ← get_data p n; goto (state_switch p atomic_found); pure (decode bytes))
  reads n decode = then_goes (takes n) (λ bytes. settles (decode bytes))

  parse_int64-Program : Program (parse_int64 p)
  unfolding parse_int64
  parse_int64-Program =
      reads 8 (λ bytes. int64_val (uint64_swap p.order (from_memory p.order bytes)))

  parse_int32-Program : Program (parse_int32 p)
  unfolding parse_int32
  parse_int32-Program =
      reads 4 (λ bytes. int32_val (uint32_swap p.order (from_memory p.order bytes)))

  parse_int16-Program : Program (parse_int16 p)
  unfolding parse_int16
  parse_int16-Program =
      reads 2 (λ bytes. int16_val (uint16_swap p.order (from_memory p.order bytes)))

  parse_int8-Program : Program (parse_int8 p)
  unfolding parse_int8
  parse_int8-Program = reads 1 (λ bytes. int8_val (from_memory p.order bytes))

  parse_uint64-Program : Program (parse_uint64 p)
  unfolding parse_uint64
  parse_uint64-Program =
      reads 8 (λ bytes. uint64_val (uint64_swap p.order (from_memory p.order bytes)))

  parse_uint32-Program : Program (parse_uint32 p)
  unfolding parse_uint32
  parse_uint32-Program =
      reads 4 (λ bytes. uint32_val (uint32_swap p.order (from_memory p.order bytes)))

  parse_uint16-Program : Program (parse_uint16 p)
  unfolding parse_uint16
  parse_uint16-Program =
      reads 2 (λ bytes. uint16_val (uint16_swap p.order (from_memory p.order bytes)))

  parse_uint8-Program : Program (parse_uint8 p)
  unfolding parse_uint8
  parse_uint8-Program = reads 1 (λ bytes. uint8_val (from_memory p.order bytes))

  parse_float64-Program : Program (parse_float64 p)
  unfolding parse_float64
  parse_float64-Program =
      reads 8 (λ bytes. float64_val (uint64_swap p.order (from_memory p.order bytes)))

  parse_float32-Program : Program (parse_float32 p)
  unfolding parse_float32
  parse_float32-Program =
      reads 4 (λ bytes. float32_val (uint32_swap p.order (from_memory p.order bytes)))

  parse_float16-Program : Program (parse_float16 p)
  unfolding parse_float16
  parse_float16-Program =
      reads 2 (λ bytes. float16_val (uint16_swap p.order (from_memory p.order bytes)))

  parse_bool-Program : Program (parse_bool p)
  unfolding parse_bool
  parse_bool-Program = reads 1 (λ bytes. bool_val (from_memory p.order bytes))

  parse_uxtime-Program : Program (parse_uxtime p)
  unfolding parse_uxtime
  parse_uxtime-Program =
      reads 8 (λ bytes. uxtime_val (uint64_swap p.order (from_memory p.order bytes)))

  parse_none-Program : Program (parse_none p)
  unfolding parse_none
  parse_none-Program = settles no_value

  get_uint8-Program : Program (get_uint8 p)
  unfolding get_uint8
  get_uint8-Program = then_goes (takes 1) (λ bytes. gives (from_memory p.order bytes))

  get_uint16-Program : Program (get_uint16 p)
  unfolding get_uint16
  get_uint16-Program =
      then_goes (takes 2) (λ bytes. gives (uint16_swap p.order (from_memory p.order bytes)))

  parse_date-Program : Program (parse_date p)
  unfolding parse_date
  parse_date-Program =
      then_goes get_uint16-Program
        λ y. then_goes get_uint8-Program λ m. then_goes get_uint8-Program λ d. settles _

  parse_time-Program : Program (parse_time p)
  unfolding parse_time
  parse_time-Program =
      then_goes get_uint8-Program
        λ h. then_goes get_uint8-Program λ m. then_goes get_uint8-Program λ s. settles _

  parse_timestamp-Program : Program (parse_timestamp p)
  unfolding parse_timestamp
  parse_timestamp-Program = then_goes get_uint16-Program λ y. then_goes get_uint8-Program λ o.
      then_goes get_uint8-Program λ d. then_goes get_uint8-Program λ h.
        then_goes get_uint8-Program
          λ m. then_goes get_uint8-Program λ s. then_goes get_uint16-Program λ t. settles _

  get_array-Program : (k n : ℕ) → Program (get_array p k n)
  unfolding get_array
  get_array-Program k n =
      then_goes (checks (p.grants (n * k)) err_allocation)
        λ _. then_goes (takes (n * k % 2 ^ 64)) λ bytes. gives (from_array p.order k n bytes)

  get_units-Program : (sub n : ℕ) → Program (get_units p sub n)
  unfolding get_units
  get_units-Program sub n = chooses (sub == sub_string_c) (get_array-Program 1 n) (
      chooses (sub == sub_string_u8) (get_array-Program 1 n) (
        chooses (sub == sub_string_u16) (get_array-Program 2 n)
          (chooses (sub == sub_string_u32) (get_array-Program 4 n) (fails err_invalid_data))))

  parse_string-Program : Program (parse_string p)
  unfolding parse_string
  parse_string-Program = then_goes get_uint8-Program λ sub.
      then_goes (takes 4)
        λ bytes. then_goes (get_units-Program sub (from_memory p.order bytes)) λ xs. settles _

  parse_binary-Program : Program (parse_binary p)
  unfolding parse_binary
  parse_binary-Program = then_goes get_uint8-Program λ t.
      then_goes (takes 4)
        λ bytes. then_goes (get_array-Program 1 (from_memory p.order bytes)) λ xs. settles _

  parse_terminator-Program : Program (parse_terminator p)
  unfolding parse_terminator end_columns
  parse_terminator-Program =
      branches (λ s. same_state s.state table_columns) (then_goes enters_rows (λ _. gives no_value))
        close_container-Program

  pub parse_value-Program : (t : ℕ) → Program (parse_value p t)
  unfolding parse_value
  parse_value-Program t = chooses (t == type_list) open_list-Program (
      chooses (t == type_map) open_map-Program (
        chooses (t == type_table) open_table-Program (
          chooses (t == terminator) parse_terminator-Program (
            chooses (t == type_int64) parse_int64-Program (
              chooses (t == type_int32) parse_int32-Program (
                chooses (t == type_int16) parse_int16-Program (
                  chooses (t == type_int8) parse_int8-Program (
                    chooses (t == type_uint64) parse_uint64-Program (
                      chooses (t == type_uint32) parse_uint32-Program (
                        chooses (t == type_uint16) parse_uint16-Program (
                          chooses (t == type_uint8) parse_uint8-Program (
                            chooses (t == type_float16) parse_float16-Program (
                              chooses (t == type_float32) parse_float32-Program (
                                chooses (t == type_float64) parse_float64-Program (
                                  chooses (t == type_bool) parse_bool-Program (
                                    chooses (t == type_none) parse_none-Program (
                                      chooses (t == type_ux_time) parse_uxtime-Program (
                                        chooses (t == type_date) parse_date-Program (
                                          chooses (t == type_time) parse_time-Program (
                                            chooses (t == type_timestamp) parse_timestamp-Program (
                                              chooses (t == type_string) parse_string-Program (
                                                chooses (t == type_bin) parse_binary-Program
                                                  (fails err_invalid_data)))))))))))))))))))))))

  pub scan_element-Program : Program (scan_element p)
  unfolding scan_element
  scan_element-Program =
      then_goes (takes 1)
        λ bytes. then_goes (parse_value-Program (from_memory p.order bytes)) λ v. gives _

  pub get_next-Program : Program (get_next p)
  unfolding get_next
  get_next-Program =
      branches (λ s. same_state s.state closed) (gives ended) (scan_if (p.grants element_size))
    where
      scan_if : (b : Bool) → Program (λ r. if b then scan_element p r else fault)
      scan_if true = scan_element-Program
      scan_if false = crashes

  pub parse_header-Program : Program (parse_header p)
  unfolding parse_header
  parse_header-Program = then_goes (takes 4) λ code. then_goes (keeps_magic code) λ _.
      then_goes (checks (same_bytes magic code) err_invalid_data) λ _.
        then_goes (takes 2) λ version.
          then_goes (keeps_version (uint16_swap p.order (from_memory p.order version))) λ _.
            then_goes asks_version λ n.
              then_goes (checks (n == 1) err_invalid_data)
                λ _. then_goes (takes 1) λ bytes. keeps_compression (from_memory p.order bytes)

  pub get_first-Program : Program (get_first p)
  unfolding get_first
  get_first-Program = then_goes parse_header-Program (λ _. get_next-Program)
