-- ===== src/Reader/Values.antt =====
-- src/ujo_reader.c: the functions that read one value behind its type id.
use libujo_c.Base.{ℕ, zero, suc, ◌*◌, ◌%◌, ◌^◌, List, [], ◌∷◌, ◌==◌, if◌then◌else◌, take, drop}
use libujo_c.Base.Result.{M, pure, fail, report_error, ◌>>=◌, ◌>>◌}
use libujo_c.Types.{
  err_allocation, err_invalid_data, sub_string_c, sub_string_u8, sub_string_u16, sub_string_u32,
}
use libujo_c.Platform.{Platform, Endian}
use libujo_c.State.{
  list, dict_key, table_columns, atomic_found, container_closed, state_next, state_prev,
  state_switch,
}
use libujo_c.Words.{from_memory, uint16_swap, uint32_swap, uint64_swap, float32_swap, float64_swap}
use libujo_c.Element.{
  Value, no_value, int8_val, int16_val, int32_val, int64_val, uint8_val, uint16_val, uint32_val,
  uint64_val, float16_val, float32_val, float64_val, bool_val, uxtime_val, datetime_val, string_val,
  binary_val,
}
use libujo_c.Reader.{Reader, get_data, goto}

-- The n integers of k bytes each that an array in memory holds.
unfoldable pub from_array : Endian → ℕ → ℕ → List ℕ → List ℕ
from_array e k zero bs = []
from_array e k (suc n) bs = from_memory e (take k bs) ∷ from_array e k n (drop k bs)

module _ {File Client : Type 0} (p : Platform File) where
  unfoldable pub open_list : M (Reader File Client) Value
  open_list = do goto (state_next p list); pure no_value

  unfoldable pub open_map : M (Reader File Client) Value
  open_map = do goto (state_next p dict_key); pure no_value

  unfoldable pub open_table : M (Reader File Client) Value
  open_table = do goto (state_next p table_columns); pure no_value

  unfoldable pub close_container : M (Reader File Client) Value
  close_container = do goto state_prev; goto (state_switch p container_closed); pure no_value

  unfoldable pub parse_int64 : M (Reader File Client) Value
  parse_int64 = do
    bytes ← get_data p 8
    goto (state_switch p atomic_found)
    pure (int64_val (uint64_swap p.order (from_memory p.order bytes)))

  unfoldable pub parse_int32 : M (Reader File Client) Value
  parse_int32 = do
    bytes ← get_data p 4
    goto (state_switch p atomic_found)
    pure (int32_val (uint32_swap p.order (from_memory p.order bytes)))

  unfoldable pub parse_int16 : M (Reader File Client) Value
  parse_int16 = do
    bytes ← get_data p 2
    goto (state_switch p atomic_found)
    pure (int16_val (uint16_swap p.order (from_memory p.order bytes)))

  unfoldable pub parse_int8 : M (Reader File Client) Value
  parse_int8 = do
    bytes ← get_data p 1
    goto (state_switch p atomic_found)
    pure (int8_val (from_memory p.order bytes))

  unfoldable pub parse_uint64 : M (Reader File Client) Value
  parse_uint64 = do
    bytes ← get_data p 8
    goto (state_switch p atomic_found)
    pure (uint64_val (uint64_swap p.order (from_memory p.order bytes)))

  unfoldable pub parse_uint32 : M (Reader File Client) Value
  parse_uint32 = do
    bytes ← get_data p 4
    goto (state_switch p atomic_found)
    pure (uint32_val (uint32_swap p.order (from_memory p.order bytes)))

  unfoldable pub parse_uint16 : M (Reader File Client) Value
  parse_uint16 = do
    bytes ← get_data p 2
    goto (state_switch p atomic_found)
    pure (uint16_val (uint16_swap p.order (from_memory p.order bytes)))

  unfoldable pub parse_uint8 : M (Reader File Client) Value
  parse_uint8 = do
    bytes ← get_data p 1
    goto (state_switch p atomic_found)
    pure (uint8_val (from_memory p.order bytes))

  unfoldable pub parse_float64 : M (Reader File Client) Value
  parse_float64 = do
    bytes ← get_data p 8
    goto (state_switch p atomic_found)
    pure (float64_val (float64_swap p.order (from_memory p.order bytes)))

  unfoldable pub parse_float32 : M (Reader File Client) Value
  parse_float32 = do
    bytes ← get_data p 4
    goto (state_switch p atomic_found)
    pure (float32_val (float32_swap p.order (from_memory p.order bytes)))

  unfoldable pub parse_float16 : M (Reader File Client) Value
  parse_float16 = do
    bytes ← get_data p 2
    goto (state_switch p atomic_found)
    pure (float16_val (uint16_swap p.order (from_memory p.order bytes)))

  unfoldable pub parse_bool : M (Reader File Client) Value
  parse_bool = do
    bytes ← get_data p 1
    goto (state_switch p atomic_found)
    pure (bool_val (from_memory p.order bytes))

  unfoldable pub parse_none : M (Reader File Client) Value
  parse_none = do goto (state_switch p atomic_found); pure no_value

  unfoldable pub parse_uxtime : M (Reader File Client) Value
  parse_uxtime = do
    bytes ← get_data p 8
    goto (state_switch p atomic_found)
    pure (uxtime_val (uint64_swap p.order (from_memory p.order bytes)))

  unfoldable pub get_uint8 : M (Reader File Client) ℕ
  get_uint8 = do bytes ← get_data p 1; pure (from_memory p.order bytes)

  unfoldable pub get_uint16 : M (Reader File Client) ℕ
  get_uint16 = do bytes ← get_data p 2; pure (uint16_swap p.order (from_memory p.order bytes))

  -- The fields that a date or a time does not set are zero.
  unfoldable pub parse_date : M (Reader File Client) Value
  unfolding get_uint8 get_uint16
  parse_date = do
    year ← get_uint16
    month ← get_uint8
    day ← get_uint8
    goto (state_switch p atomic_found)
    pure (
        datetime_val (record {
          year = year;
          month = month;
          day = day;
          hour = 0;
          minute = 0;
          second = 0;
          millisecond = 0;
        }))

  unfoldable pub parse_time : M (Reader File Client) Value
  unfolding get_uint8 get_uint16
  parse_time = do
    hour ← get_uint8
    minute ← get_uint8
    second ← get_uint8
    goto (state_switch p atomic_found)
    pure (
        datetime_val (record {
          year = 0;
          month = 0;
          day = 0;
          hour = hour;
          minute = minute;
          second = second;
          millisecond = 0;
        }))

  unfoldable pub parse_timestamp : M (Reader File Client) Value
  unfolding get_uint8 get_uint16
  parse_timestamp = do
    year ← get_uint16
    month ← get_uint8
    day ← get_uint8
    hour ← get_uint8
    minute ← get_uint8
    second ← get_uint8
    millisecond ← get_uint16
    goto (state_switch p atomic_found)
    pure (
        datetime_val (record {
          year = year;
          month = month;
          day = day;
          hour = hour;
          minute = minute;
          second = second;
          millisecond = millisecond;
        }))

  -- An array of n integers of k bytes each, into memory that is allocated first.
  unfoldable pub get_array : ℕ → ℕ → M (Reader File Client) (List ℕ)
  get_array k n = do
    report_error (p.grants (n * k)) err_allocation
    bytes ← get_data p (n * k % 2 ^ 64)
    pure (from_array p.order k n bytes)

  unfoldable pub get_units : ℕ → ℕ → M (Reader File Client) (List ℕ)
  unfolding get_array
  get_units sub n =
      if sub == sub_string_c
      then get_array 1 n
      else (if sub == sub_string_u8
          then get_array 1 n
          else (if sub == sub_string_u16
              then get_array 2 n
              else (if sub == sub_string_u32 then get_array 4 n else fail err_invalid_data)))

  -- The number of units is taken as it stands in memory; the event is ATOMIC_FOUND.
  unfoldable pub parse_string : M (Reader File Client) Value
  unfolding get_units get_uint8
  parse_string = do
    sub ← get_uint8
    bytes ← get_data p 4
    let n = from_memory p.order bytes
    units ← get_units sub n
    goto (state_switch p atomic_found)
    pure (string_val sub units n)

  unfoldable pub parse_binary : M (Reader File Client) Value
  unfolding get_array get_uint8
  parse_binary = do
    type ← get_uint8
    bytes ← get_data p 4
    let n = from_memory p.order bytes
    octets ← get_array 1 n
    goto (state_switch p atomic_found)
    pure (binary_val type octets n)
