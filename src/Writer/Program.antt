-- ===== src/Writer/Program.antt =====
-- The functions of src/ujo_writer.c as programs over a few basic steps, so that what every step keeps
-- is kept by every call.
use libujo_c.Base.{ℕ, ◌≡◌, Bool, true, false, List, Option, length, ltb, ◌==◌, if◌then◌else◌}
use libujo_c.Base.Result.{M, pure, fail, crash, drop_error, modify, ◌>>◌}
use libujo_c.Types.{DateTime, err_type_misplaced, err_invalid_data, err_invalid_object}
use libujo_c.Platform.{Platform}
use libujo_c.State.{
  State, Place, list, dict_key, table_columns, table_values, atomic_found, string_found,
  container_closed, allow_atomic, allow_container, same_state, state_next, state_prev, state_switch,
}
use libujo_c.Half.{float_to_half, isnan_float16, isinf_float16}
use libujo_c.Writer.{
  Writer, put, goto, require, put_uint8, put_uint16, header, list_open, list_close, map_open,
  map_close, table_open, table_end_columns, table_close,
}
use libujo_c.Writer.Values.{
  atomic_allowed, refuse_float16, add_int64, add_int32, add_int16, add_int8, add_uint64, add_uint32,
  add_uint16, add_uint8, add_float64, add_float32, add_float16, add_bool, add_none, add_uxtime,
  add_date, add_time, add_timestamp,
}
use libujo_c.Writer.Texts.{
  string_allowed, put_array, put_units, add_string_c, add_string_u8, add_string_u16, add_string_u32,
  add_binary,
}

module _ {File : Type 0} (p : Platform File) (loses : Bool) where
  -- A function of the writer that is made of these steps; `loses` is whether it may drop the error
  -- of one.
  pub data Made : M (Writer File) (Unit {0}) → Type 0 where
    gives : Made (pure tt)
    fails : (code : ℕ) → Made (fail code)
    crashes : Made crash
    puts : (xs : List ℕ) → Made (put p xs)
    moves : (f : Place → Option Place) → Made (goto f)
    requires : (test : State → Bool) (code : ℕ) → Made (require test code)
    sets : (f : State → State) → Made (modify (λ w. record w { state = f w.state }))
    then_goes : {m k : M (Writer File) (Unit {0})} → Made m → Made k → Made (m >> k)
    drops : {m : M (Writer File) (Unit {0})} → loses ≡ true → Made m → Made (drop_error m)

  infixr 5 ◌>>>◌
  abbrev ◌>>>◌ : {m k : M (Writer File) (Unit {0})} → Made m → Made k → Made (m >> k)
  m >>> k = then_goes m k

  pub add_int64-Made : (v : ℕ) → Made (add_int64 p v)
  unfolding add_int64 put_uint8
  add_int64-Made v =
      requires atomic_allowed err_type_misplaced
      >>> puts _
      >>> puts _
      >>> moves (state_switch p atomic_found)

  pub add_int32-Made : (v : ℕ) → Made (add_int32 p v)
  unfolding add_int32 put_uint8
  add_int32-Made v =
      requires atomic_allowed err_type_misplaced
      >>> puts _
      >>> puts _
      >>> moves (state_switch p atomic_found)

  pub add_int16-Made : (v : ℕ) → Made (add_int16 p v)
  unfolding add_int16 put_uint8
  add_int16-Made v =
      requires atomic_allowed err_type_misplaced
      >>> puts _
      >>> puts _
      >>> moves (state_switch p atomic_found)

  pub add_int8-Made : (v : ℕ) → Made (add_int8 p v)
  unfolding add_int8 put_uint8
  add_int8-Made v =
      requires atomic_allowed err_type_misplaced
      >>> puts _
      >>> puts _
      >>> moves (state_switch p atomic_found)

  pub add_uint64-Made : (v : ℕ) → Made (add_uint64 p v)
  unfolding add_uint64 put_uint8
  add_uint64-Made v =
      requires atomic_allowed err_type_misplaced
      >>> puts _
      >>> puts _
      >>> moves (state_switch p atomic_found)

  pub add_uint32-Made : (v : ℕ) → Made (add_uint32 p v)
  unfolding add_uint32 put_uint8
  add_uint32-Made v =
      requires atomic_allowed err_type_misplaced
      >>> puts _
      >>> puts _
      >>> moves (state_switch p atomic_found)

  pub add_uint16-Made : (v : ℕ) → Made (add_uint16 p v)
  unfolding add_uint16 put_uint8
  add_uint16-Made v =
      requires atomic_allowed err_type_misplaced
      >>> puts _
      >>> puts _
      >>> moves (state_switch p atomic_found)

  pub add_uint8-Made : (v : ℕ) → Made (add_uint8 p v)
  unfolding add_uint8 put_uint8
  add_uint8-Made v =
      requires atomic_allowed err_type_misplaced
      >>> puts _
      >>> puts _
      >>> moves (state_switch p atomic_found)

  pub add_float64-Made : (v : ℕ) → Made (add_float64 p v)
  unfolding add_float64 put_uint8
  add_float64-Made v =
      requires atomic_allowed err_type_misplaced
      >>> puts _
      >>> puts _
      >>> moves (state_switch p atomic_found)

  pub add_float32-Made : (v : ℕ) → Made (add_float32 p v)
  unfolding add_float32 put_uint8
  add_float32-Made v =
      requires atomic_allowed err_type_misplaced
      >>> puts _
      >>> puts _
      >>> moves (state_switch p atomic_found)

  pub add_bool-Made : (v : ℕ) → Made (add_bool p v)
  unfolding add_bool put_uint8
  add_bool-Made v =
      requires atomic_allowed err_type_misplaced
      >>> puts _
      >>> puts _
      >>> moves (state_switch p atomic_found)

  pub add_uxtime-Made : (v : ℕ) → Made (add_uxtime p v)
  unfolding add_uxtime put_uint8
  add_uxtime-Made v =
      requires atomic_allowed err_type_misplaced
      >>> puts _
      >>> puts _
      >>> moves (state_switch p atomic_found)

  pub add_date-Made : (dt : DateTime) → Made (add_date p dt)
  unfolding add_date put_uint8
  add_date-Made dt =
      requires atomic_allowed err_type_misplaced
      >>> puts _
      >>> puts _
      >>> puts _
      >>> puts _
      >>> moves (state_switch p atomic_found)

  pub add_time-Made : (dt : DateTime) → Made (add_time p dt)
  unfolding add_time put_uint8
  add_time-Made dt =
      requires atomic_allowed err_type_misplaced
      >>> puts _
      >>> puts _
      >>> puts _
      >>> puts _
      >>> moves (state_switch p atomic_found)

  pub add_timestamp-Made : (dt : DateTime) → Made (add_timestamp p dt)
  unfolding add_timestamp put_uint8
  add_timestamp-Made dt =
      requires atomic_allowed err_type_misplaced
      >>> puts _
      >>> puts _
      >>> puts _
      >>> puts _
      >>> puts _
      >>> puts _
      >>> puts _
      >>> puts _
      >>> moves (state_switch p atomic_found)

  pub add_none-Made : Made (add_none p)
  unfolding add_none put_uint8
  add_none-Made =
      requires atomic_allowed err_type_misplaced >>> puts _ >>> moves (state_switch p atomic_found)

  chooses :
      {m k : M (Writer File) (Unit {0})} (b : Bool) → Made m → Made k → Made (if b then m else k)
  chooses true m k = m
  chooses false m k = k

  pub add_float16-Made : (v : ℕ) → Made (add_float16 p v)
  unfolding add_float16 refuse_float16 put_uint8
  add_float16-Made v =
      requires atomic_allowed err_type_misplaced
      >>> chooses (isnan_float16 (float_to_half v)) (fails err_invalid_data)
          (chooses (isinf_float16 (float_to_half v)) (fails err_invalid_data) gives)
      >>> puts _
      >>> puts _
      >>> moves (state_switch p atomic_found)

  put_array-Made : (k : ℕ) (s : List ℕ) (n : ℕ) → Made (put_array p k s n)
  unfolding put_array
  put_array-Made k s n = chooses (ltb (length s) n) crashes (puts _)

  pub add_string_c-Made : (s : List ℕ) (n : ℕ) → Made (add_string_c p s n)
  unfolding add_string_c put_uint8 put_units
  add_string_c-Made s n =
      requires string_allowed err_type_misplaced
      >>> puts _
      >>> puts _
      >>> puts _
      >>> put_array-Made _ s _
      >>> moves (state_switch p string_found)

  pub add_string_u8-Made : (s : List ℕ) (n : ℕ) → Made (add_string_u8 p s n)
  unfolding add_string_u8 put_uint8 put_units
  add_string_u8-Made s n =
      requires string_allowed err_type_misplaced
      >>> puts _
      >>> puts _
      >>> puts _
      >>> put_array-Made _ s _
      >>> moves (state_switch p string_found)

  pub add_string_u16-Made : (s : List ℕ) (n : ℕ) → Made (add_string_u16 p s n)
  unfolding add_string_u16 put_uint8 put_units
  add_string_u16-Made s n =
      requires string_allowed err_type_misplaced
      >>> puts _
      >>> puts _
      >>> puts _
      >>> put_array-Made _ s _
      >>> moves (state_switch p string_found)

  pub add_string_u32-Made : (s : List ℕ) (n : ℕ) → Made (add_string_u32 p s n)
  unfolding add_string_u32 put_uint8 put_units
  add_string_u32-Made s n =
      requires string_allowed err_type_misplaced
      >>> puts _
      >>> puts _
      >>> puts _
      >>> put_array-Made _ s _
      >>> moves (state_switch p string_found)

  pub add_binary-Made : (t : ℕ) (d : List ℕ) (n : ℕ) → Made (add_binary p t d n)
  unfolding add_binary put_uint8 put_units
  add_binary-Made t d n =
      requires (λ s. allow_atomic s.state) err_type_misplaced
      >>> puts _
      >>> puts _
      >>> puts _
      >>> put_array-Made _ d _
      >>> moves (state_switch p atomic_found)

  pub list_open-Made : Made (list_open p)
  unfolding list_open put_uint8
  list_open-Made =
      requires (λ s. allow_container s.state) err_type_misplaced
      >>> moves (state_next p list)
      >>> puts _

  pub map_open-Made : Made (map_open p)
  unfolding map_open put_uint8
  map_open-Made =
      requires (λ s. allow_container s.state) err_type_misplaced
      >>> moves (state_next p dict_key)
      >>> puts _

  pub list_close-Made : Made (list_close p)
  unfolding list_close put_uint8
  list_close-Made =
      requires (λ s. same_state s.state list) err_invalid_object
      >>> moves state_prev
      >>> puts _
      >>> moves (state_switch p container_closed)

  pub map_close-Made : Made (map_close p)
  unfolding map_close put_uint8
  map_close-Made =
      requires (λ s. same_state s.state dict_key) err_invalid_object
      >>> moves state_prev
      >>> puts _
      >>> moves (state_switch p container_closed)

  pub table_open-Made : Made (table_open p)
  unfolding table_open put_uint8
  table_open-Made =
      requires (λ s. allow_container s.state) err_type_misplaced
      >>> moves (state_next p table_columns)
      >>> sets (λ s. record s { columns = 0; column = 0 })
      >>> puts _

  pub table_end_columns-Made : Made (table_end_columns p)
  unfolding table_end_columns put_uint8
  table_end_columns-Made =
      requires (λ s. same_state s.state table_columns) err_invalid_object
      >>> requires (λ s. ltb 0 s.columns) err_invalid_object
      >>> puts _
      >>> sets (λ s. record s { state = table_values })

  pub table_close-Made : loses ≡ true → Made (table_close p)
  unfolding table_close put_uint8
  table_close-Made l =
      requires (λ s. same_state s.state table_values) err_invalid_object
      >>> requires (λ s. s.column == 0) err_invalid_object
      >>> moves state_prev
      >>> drops l (puts _)
      >>> moves (state_switch p container_closed)

  pub header-Made : Made (header p)
  unfolding header put_uint8 put_uint16
  header-Made = puts _ >>> puts _ >>> puts _
