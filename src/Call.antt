-- ===== src/Call.antt =====
-- The calls that a client of src/ujo_writer.c makes, as data: values to add, and the functions that
-- open and close containers.
-- `add_null` stands apart, in Writer/Values.
pub mod Encode
pub mod Effect
pub mod Containers
pub mod Writes
pub mod Grammar
pub mod Run
pub mod Document
pub mod Decode
pub mod DecodeValues
pub mod DecodeItem
pub mod DecodeTexts
pub mod Scan
pub mod Header
pub mod Parse
pub mod RoundTrip
pub mod Portable
pub mod BadHeader
pub mod UnknownType
pub mod Unopened
pub mod Callback
pub mod Reach
pub mod Rows
pub mod Levels
pub mod Closable
pub mod Programs
pub mod Keep
pub mod Mirror
pub mod ToFile
pub mod ShortWrites
pub mod FromFile
pub mod Truncated
pub mod ShortFile
use libujo_c.Base.{
  ℕ, ◌+◌, ◌%◌, ◌^◌, ◌≤◌, ◌<◌, ◌≡◌, Bool, true, false, if◌then◌else◌, List, [], ◌∷◌, length, take,
}
use libujo_c.Base.Result.{M}
use libujo_c.Types.{
  DateTime, type_int64, type_int32, type_int16, type_int8, type_uint64, type_uint32, type_uint16,
  type_uint8, type_float64, type_float32, type_float16, type_bool, type_none, type_ux_time,
  type_date, type_time, type_timestamp, type_string, type_bin, sub_string_c, sub_string_u8,
  sub_string_u16, sub_string_u32, type_list, type_map, type_table, terminator,
}
use libujo_c.Platform.{Platform, Endian}
use libujo_c.State.{State, DocEvent, atomic_found, string_found, allow_atomic, allow_string}
use libujo_c.Words.{memory_bytes, uint16_swap, uint32_swap, uint64_swap}
use libujo_c.Half.{float_to_half, isnan_float16, isinf_float16}
use libujo_c.Element.{
  Element, Value, no_value, int8_val, int16_val, int32_val, int64_val, uint8_val, uint16_val,
  uint32_val, uint64_val, float16_val, float32_val, float64_val, bool_val, uxtime_val, datetime_val,
  string_val, binary_val,
}
use libujo_c.Writer.{
  Writer, list_open, list_close, map_open, map_close, table_open, table_end_columns, table_close,
}
use libujo_c.Writer.Values.{
  add_int64, add_int32, add_int16, add_int8, add_uint64, add_uint32, add_uint16, add_uint8,
  add_float64, add_float32, add_float16, add_bool, add_none, add_uxtime, add_date, add_time,
  add_timestamp,
}
use libujo_c.Writer.Texts.{
  strnlen, array_bytes, add_string_c, add_string_u8, add_string_u16, add_string_u32, add_binary,
}

-- A value with the arguments of the function that adds it.
pub data Item : Type 0 where
  int64 int32 int16 int8 uint64 uint32 uint16 uint8 : ℕ → Item
  float64 float32 float16 bool uxtime : ℕ → Item
  none_item : Item
  date time timestamp : DateTime → Item
  string_c string_u8 string_u16 string_u32 : List ℕ → ℕ → Item
  binary : ℕ → List ℕ → ℕ → Item

pub data Call : Type 0 where
  adds : Item → Call
  list_opens list_closes map_opens map_closes table_opens columns_end table_closes : Call

module _ {File : Type 0} (p : Platform File) where
  abbrev pub add : Item → M (Writer File) (Unit {0})
  add (int64 v) = add_int64 p v
  add (int32 v) = add_int32 p v
  add (int16 v) = add_int16 p v
  add (int8 v) = add_int8 p v
  add (uint64 v) = add_uint64 p v
  add (uint32 v) = add_uint32 p v
  add (uint16 v) = add_uint16 p v
  add (uint8 v) = add_uint8 p v
  add (float64 v) = add_float64 p v
  add (float32 v) = add_float32 p v
  add (float16 v) = add_float16 p v
  add (bool v) = add_bool p v
  add (uxtime v) = add_uxtime p v
  add none_item = add_none p
  add (date dt) = add_date p dt
  add (time dt) = add_time p dt
  add (timestamp dt) = add_timestamp p dt
  add (string_c s n) = add_string_c p s n
  add (string_u8 s n) = add_string_u8 p s n
  add (string_u16 s n) = add_string_u16 p s n
  add (string_u32 s n) = add_string_u32 p s n
  add (binary t d n) = add_binary p t d n

  abbrev pub perform : Call → M (Writer File) (Unit {0})
  perform (adds i) = add i
  perform list_opens = list_open p
  perform list_closes = list_close p
  perform map_opens = map_open p
  perform map_closes = map_close p
  perform table_opens = table_open p
  perform columns_end = table_end_columns p
  perform table_closes = table_close p

abbrev pub is_string : Item → Bool
is_string (string_c s n) = true
is_string (string_u8 s n) = true
is_string (string_u16 s n) = true
is_string (string_u32 s n) = true
is_string _ = false

-- The places where the value may stand, and the event that it is.
abbrev pub allowed : Item → State → Bool
allowed i s = if is_string i then allow_string s.state else allow_atomic s.state

abbrev pub event : Item → DocEvent
event i = if is_string i then string_found else atomic_found

abbrev pub AllBelow : ℕ → List ℕ → Type 0
AllBelow b [] = Unit {0}
AllBelow b (x ∷ xs) = (x < b) × AllBelow b xs

-- The array holds n units of k bytes, and their number fits the length field.
abbrev pub IsArray : ℕ → List ℕ → ℕ → Type 0
IsArray k s n = (n ≤ length s) × (n < 2 ^ 32) × AllBelow (256 ^ k) s

-- The arguments are values of the parameters' C types, arrays are as long as the call says, a C
-- string ends within its array, and a half is neither NaN nor infinite.
abbrev pub Fits : Item → Type 0
Fits (int64 v) = v < 2 ^ 64
Fits (int32 v) = v < 2 ^ 32
Fits (int16 v) = v < 2 ^ 16
Fits (int8 v) = v < 2 ^ 8
Fits (uint64 v) = v < 2 ^ 64
Fits (uint32 v) = v < 2 ^ 32
Fits (uint16 v) = v < 2 ^ 16
Fits (uint8 v) = v < 2 ^ 8
Fits (float64 v) = v < 2 ^ 64
Fits (float32 v) = v < 2 ^ 32
Fits (bool v) = v < 2 ^ 8
Fits (uxtime v) = v < 2 ^ 64
Fits (float16 v) =
    (isnan_float16 (float_to_half v) ≡ false) × (isinf_float16 (float_to_half v) ≡ false)
Fits none_item = Unit {0}
Fits (date dt) = (dt.year < 2 ^ 16) × (dt.month < 2 ^ 8) × (dt.day < 2 ^ 8)
Fits (time dt) = (dt.hour < 2 ^ 8) × (dt.minute < 2 ^ 8) × (dt.second < 2 ^ 8)
Fits (timestamp dt) =
    (dt.year < 2 ^ 16)
    × (dt.month < 2 ^ 8)
    × (dt.day < 2 ^ 8)
    × (dt.hour < 2 ^ 8)
    × (dt.minute < 2 ^ 8)
    × (dt.second < 2 ^ 8)
    × (dt.millisecond < 2 ^ 16)
Fits (string_c s n) = IsArray 1 s (strnlen s n + 1)
Fits (string_u8 s n) = IsArray 1 s n
Fits (string_u16 s n) = IsArray 2 s n
Fits (string_u32 s n) = IsArray 4 s n
Fits (binary t d n) = (t < 2 ^ 8) × IsArray 1 d n

abbrev element : ℕ → Value → Element
element t v = record { type = t; value = v }

-- The element that the reader hands out for the value.
abbrev pub read_back : Item → Element
read_back (int64 v) = element type_int64 (int64_val v)
read_back (int32 v) = element type_int32 (int32_val v)
read_back (int16 v) = element type_int16 (int16_val v)
read_back (int8 v) = element type_int8 (int8_val v)
read_back (uint64 v) = element type_uint64 (uint64_val v)
read_back (uint32 v) = element type_uint32 (uint32_val v)
read_back (uint16 v) = element type_uint16 (uint16_val v)
read_back (uint8 v) = element type_uint8 (uint8_val v)
read_back (float64 v) = element type_float64 (float64_val v)
read_back (float32 v) = element type_float32 (float32_val v)
read_back (bool v) = element type_bool (bool_val v)
read_back (float16 v) = element type_float16 (float16_val (float_to_half v))
read_back (uxtime v) = element type_ux_time (uxtime_val v)
read_back none_item = element type_none no_value
read_back (date dt) =
    element type_date
      (datetime_val (record dt { hour = 0; minute = 0; second = 0; millisecond = 0 }))
read_back (time dt) =
    element type_time (datetime_val (record dt { year = 0; month = 0; day = 0; millisecond = 0 }))
read_back (timestamp dt) = element type_timestamp (datetime_val dt)
read_back (string_c s n) =
    element type_string (string_val sub_string_c (take (strnlen s n + 1) s) (strnlen s n + 1))
read_back (string_u8 s n) = element type_string (string_val sub_string_u8 (take n s) n)
read_back (string_u16 s n) = element type_string (string_val sub_string_u16 (take n s) n)
read_back (string_u32 s n) = element type_string (string_val sub_string_u32 (take n s) n)
read_back (binary t d n) = element type_bin (binary_val t (take n d) n)

abbrev pub seen : Call → Element
seen (adds i) = read_back i
seen list_opens = element type_list no_value
seen map_opens = element type_map no_value
seen table_opens = element type_table no_value
seen _ = element terminator no_value
