-- ===== src/Call/Programs.antt =====
-- Each call of src/ujo_writer.c as a program over the basic steps.
use libujo_c.Base.{Bool, true, false, ◌≡◌, refl}
use libujo_c.Platform.{Platform}
use libujo_c.Writer.Program.{
  Made, add_binary-Made, add_bool-Made, add_date-Made, add_float16-Made, add_float32-Made,
  add_float64-Made, add_int16-Made, add_int32-Made, add_int64-Made, add_int8-Made, add_none-Made,
  add_string_c-Made, add_string_u16-Made, add_string_u32-Made, add_string_u8-Made, add_time-Made,
  add_timestamp-Made, add_uint16-Made, add_uint32-Made, add_uint64-Made, add_uint8-Made,
  add_uxtime-Made, list_close-Made, list_open-Made, map_close-Made, map_open-Made, table_close-Made,
  table_end_columns-Made, table_open-Made,
}
use libujo_c.Call.{
  Call, adds, list_opens, list_closes, map_opens, map_closes, table_opens, columns_end,
  table_closes, perform, add, Item, int64, int32, int16, int8, uint64, uint32, uint16, uint8,
  float64, float32, float16, bool, uxtime, none_item, date, time, timestamp, string_c, string_u8,
  string_u16, string_u32, binary,
}

-- Whether the function returns the error of every write.
abbrev pub is_reported : Call → Bool
is_reported table_closes = false
is_reported _ = true

module _ {File : Type 0} (p : Platform File) (loses : Bool) where
  add-Made : (i : Item) → Made p loses (add p i)
  add-Made (int64 v) = add_int64-Made p loses v
  add-Made (int32 v) = add_int32-Made p loses v
  add-Made (int16 v) = add_int16-Made p loses v
  add-Made (int8 v) = add_int8-Made p loses v
  add-Made (uint64 v) = add_uint64-Made p loses v
  add-Made (uint32 v) = add_uint32-Made p loses v
  add-Made (uint16 v) = add_uint16-Made p loses v
  add-Made (uint8 v) = add_uint8-Made p loses v
  add-Made (float64 v) = add_float64-Made p loses v
  add-Made (float32 v) = add_float32-Made p loses v
  add-Made (float16 v) = add_float16-Made p loses v
  add-Made (bool v) = add_bool-Made p loses v
  add-Made (uxtime v) = add_uxtime-Made p loses v
  add-Made none_item = add_none-Made p loses
  add-Made (date dt) = add_date-Made p loses dt
  add-Made (time dt) = add_time-Made p loses dt
  add-Made (timestamp dt) = add_timestamp-Made p loses dt
  add-Made (string_c s n) = add_string_c-Made p loses s n
  add-Made (string_u8 s n) = add_string_u8-Made p loses s n
  add-Made (string_u16 s n) = add_string_u16-Made p loses s n
  add-Made (string_u32 s n) = add_string_u32-Made p loses s n
  add-Made (binary t d n) = add_binary-Made p loses t d n

  -- Only the close of a table drops an error.
  pub perform-Made :
      (c : Call) → (is_reported c ≡ false → loses ≡ true) → Made p loses (perform p c)
  perform-Made (adds i) l = add-Made i
  perform-Made list_opens l = list_open-Made p loses
  perform-Made list_closes l = list_close-Made p loses
  perform-Made map_opens l = map_open-Made p loses
  perform-Made map_closes l = map_close-Made p loses
  perform-Made table_opens l = table_open-Made p loses
  perform-Made columns_end l = table_end_columns-Made p loses
  perform-Made table_closes l = table_close-Made p loses (l refl)
