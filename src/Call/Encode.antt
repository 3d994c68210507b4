-- ===== src/Call/Encode.antt =====
-- The bytes that each call writes, in the pieces in which the code puts them.
use libujo_c.Base.{ℕ, ◌+◌, ◌%◌, ◌^◌, ◌≤◌, ◌≡◌, refl, List, [], ◌∷◌, arith, length, take, le→ltb}
use libujo_c.Types.{
  DateTime, err_type_misplaced, type_int64, type_int32, type_int16, type_int8, type_uint64,
  type_uint32, type_uint16, type_uint8, type_float64, type_float32, type_float16, type_bool,
  type_none, type_ux_time, type_date, type_time, type_timestamp, type_string, type_bin,
  sub_string_c, sub_string_u8, sub_string_u16, sub_string_u32,
}
use libujo_c.Platform.{Platform, Endian}
use libujo_c.Words.{memory_bytes, uint16_swap, uint32_swap, uint64_swap}
use libujo_c.Half.{float_to_half}
use libujo_c.Writer.{put, put_uint8}
use libujo_c.Writer.Values.{
  add_int64, add_int32, add_int16, add_int8, add_uint64, add_uint32, add_uint16, add_uint8,
  add_float64, add_float32, add_float16, add_bool, add_none, add_uxtime, add_date, add_time,
  add_timestamp,
}
use libujo_c.Writer.Texts.{
  strnlen, array_bytes, put_array, put_units, add_string_c, add_string_u8, add_string_u16,
  add_string_u32, add_binary,
}
use libujo_c.Writer.Entry.{entry, write_all}
use libujo_c.Call.{
  Item, int64, int32, int16, int8, uint64, uint32, uint16, uint8, float64, float32, float16, bool,
  uxtime, none_item, date, time, timestamp, string_c, string_u8, string_u16, string_u32, binary,
  add, allowed, event, Fits,
}

module _ (e : Endian) where
  abbrev pub tag : ℕ → List ℕ
  tag t = memory_bytes e 1 t

  abbrev pub text : ℕ → ℕ → ℕ → List ℕ → ℕ → ℕ → List (List ℕ)
  text type sub k s units n =
      tag type ∷ tag sub ∷ memory_bytes e 4 (units % 2 ^ 32) ∷ array_bytes e k (take n s) ∷ []

  abbrev pub pieces : Item → List (List ℕ)
  pieces (int64 v) = tag type_int64 ∷ memory_bytes e 8 (uint64_swap e v) ∷ []
  pieces (int32 v) = tag type_int32 ∷ memory_bytes e 4 (uint32_swap e v) ∷ []
  pieces (int16 v) = tag type_int16 ∷ memory_bytes e 2 (uint16_swap e v) ∷ []
  pieces (int8 v) = tag type_int8 ∷ memory_bytes e 1 v ∷ []
  pieces (uint64 v) = tag type_uint64 ∷ memory_bytes e 8 (uint64_swap e v) ∷ []
  pieces (uint32 v) = tag type_uint32 ∷ memory_bytes e 4 (uint32_swap e v) ∷ []
  pieces (uint16 v) = tag type_uint16 ∷ memory_bytes e 2 (uint16_swap e v) ∷ []
  pieces (uint8 v) = tag type_uint8 ∷ memory_bytes e 1 v ∷ []
  pieces (float64 v) = tag type_float64 ∷ memory_bytes e 8 (uint64_swap e v) ∷ []
  pieces (float32 v) = tag type_float32 ∷ memory_bytes e 4 (uint32_swap e v) ∷ []
  pieces (bool v) = tag type_bool ∷ memory_bytes e 1 v ∷ []
  pieces (uxtime v) = tag type_ux_time ∷ memory_bytes e 8 (uint64_swap e v) ∷ []
  pieces (float16 v) = tag type_float16 ∷ memory_bytes e 2 (uint16_swap e (float_to_half v)) ∷ []
  pieces none_item = tag type_none ∷ []
  pieces (date dt) =
      tag type_date ∷ memory_bytes e 2 (uint16_swap e dt.year) ∷ tag dt.month ∷ tag dt.day ∷ []
  pieces (time dt) = tag type_time ∷ tag dt.hour ∷ tag dt.minute ∷ tag dt.second ∷ []
  pieces (timestamp dt) =
      tag type_timestamp
      ∷ memory_bytes e 2 (uint16_swap e dt.year)
      ∷ tag dt.month
      ∷ tag dt.day
      ∷ tag dt.hour
      ∷ tag dt.minute
      ∷ tag dt.second
      ∷ memory_bytes e 2 (uint16_swap e dt.millisecond)
      ∷ []
  pieces (string_c s n) =
      text type_string sub_string_c 1 s (strnlen s n + 1) ((strnlen s n + 1) % 2 ^ 32)
  pieces (string_u8 s n) = text type_string sub_string_u8 1 s n n
  pieces (string_u16 s n) = text type_string sub_string_u16 2 s n (n % 2 ^ 63)
  pieces (string_u32 s n) = text type_string sub_string_u32 4 s n (n % 2 ^ 62)
  pieces (binary t d n) = text type_bin t 1 d n n

module _ {File : Type 0} (p : Platform File) where
  -- Each function that adds a value takes the common course.
  abbrev IsEntry : Item → Type 0
  IsEntry i = add p i ≡ entry p (allowed i) err_type_misplaced (pieces p.order i) (event i)

  put_array-put :
      (k : ℕ) (s : List ℕ) (n : ℕ)
      → n ≤ length s
      → put_array p k s n ≡ put p (array_bytes p.order k (take n s))
  unfolding put_array
  put_array-put k s n h = rw (le→ltb (length s) n h)

  add_int64-IsEntry : (v : ℕ) → IsEntry (int64 v)
  unfolding entry write_all add_int64 put_uint8
  add_int64-IsEntry v = refl

  add_int32-IsEntry : (v : ℕ) → IsEntry (int32 v)
  unfolding entry write_all add_int32 put_uint8
  add_int32-IsEntry v = refl

  add_int16-IsEntry : (v : ℕ) → IsEntry (int16 v)
  unfolding entry write_all add_int16 put_uint8
  add_int16-IsEntry v = refl

  add_int8-IsEntry : (v : ℕ) → IsEntry (int8 v)
  unfolding entry write_all add_int8 put_uint8
  add_int8-IsEntry v = refl

  add_uint64-IsEntry : (v : ℕ) → IsEntry (uint64 v)
  unfolding entry write_all add_uint64 put_uint8
  add_uint64-IsEntry v = refl

  add_uint32-IsEntry : (v : ℕ) → IsEntry (uint32 v)
  unfolding entry write_all add_uint32 put_uint8
  add_uint32-IsEntry v = refl

  add_uint16-IsEntry : (v : ℕ) → IsEntry (uint16 v)
  unfolding entry write_all add_uint16 put_uint8
  add_uint16-IsEntry v = refl

  add_uint8-IsEntry : (v : ℕ) → IsEntry (uint8 v)
  unfolding entry write_all add_uint8 put_uint8
  add_uint8-IsEntry v = refl

  add_float64-IsEntry : (v : ℕ) → IsEntry (float64 v)
  unfolding entry write_all add_float64 put_uint8
  add_float64-IsEntry v = refl

  add_float32-IsEntry : (v : ℕ) → IsEntry (float32 v)
  unfolding entry write_all add_float32 put_uint8
  add_float32-IsEntry v = refl

  add_bool-IsEntry : (v : ℕ) → IsEntry (bool v)
  unfolding entry write_all add_bool put_uint8
  add_bool-IsEntry v = refl

  add_uxtime-IsEntry : (v : ℕ) → IsEntry (uxtime v)
  unfolding entry write_all add_uxtime put_uint8
  add_uxtime-IsEntry v = refl

  add_none-IsEntry : IsEntry none_item
  unfolding entry write_all add_none put_uint8
  add_none-IsEntry = refl

  add_date-IsEntry : (dt : DateTime) → IsEntry (date dt)
  unfolding entry write_all add_date put_uint8
  add_date-IsEntry dt = refl

  add_time-IsEntry : (dt : DateTime) → IsEntry (time dt)
  unfolding entry write_all add_time put_uint8
  add_time-IsEntry dt = refl

  add_timestamp-IsEntry : (dt : DateTime) → IsEntry (timestamp dt)
  unfolding entry write_all add_timestamp put_uint8
  add_timestamp-IsEntry dt = refl

  add_float16-IsEntry : (v : ℕ) → Fits (float16 v) → IsEntry (float16 v)
  unfolding entry write_all add_float16 put_uint8
  add_float16-IsEntry v h = rw (h.0, h.1)

  add_string_c-IsEntry : (s : List ℕ) (n : ℕ) → Fits (string_c s n) → IsEntry (string_c s n)
  unfolding entry write_all add_string_c put_uint8 put_units
  add_string_c-IsEntry s n h = rw (put_array-put 1 s ((strnlen s n + 1) % 2 ^ 32) (omega arith))

  add_string_u8-IsEntry : (s : List ℕ) (n : ℕ) → Fits (string_u8 s n) → IsEntry (string_u8 s n)
  unfolding entry write_all add_string_u8 put_uint8 put_units
  add_string_u8-IsEntry s n h = rw (put_array-put 1 s (n) (omega arith))

  add_string_u16-IsEntry : (s : List ℕ) (n : ℕ) → Fits (string_u16 s n) → IsEntry (string_u16 s n)
  unfolding entry write_all add_string_u16 put_uint8 put_units
  add_string_u16-IsEntry s n h = rw (put_array-put 2 s (n % 2 ^ 63) (omega arith))

  add_string_u32-IsEntry : (s : List ℕ) (n : ℕ) → Fits (string_u32 s n) → IsEntry (string_u32 s n)
  unfolding entry write_all add_string_u32 put_uint8 put_units
  add_string_u32-IsEntry s n h = rw (put_array-put 4 s (n % 2 ^ 62) (omega arith))

  add_binary-IsEntry : (t : ℕ) (d : List ℕ) (n : ℕ) → Fits (binary t d n) → IsEntry (binary t d n)
  unfolding entry write_all add_binary put_uint8 put_units
  add_binary-IsEntry t d n h = rw (put_array-put 1 d n h.1.0)

  pub add-IsEntry : (i : Item) → Fits i → IsEntry i
  add-IsEntry (int64 v) h = add_int64-IsEntry v
  add-IsEntry (int32 v) h = add_int32-IsEntry v
  add-IsEntry (int16 v) h = add_int16-IsEntry v
  add-IsEntry (int8 v) h = add_int8-IsEntry v
  add-IsEntry (uint64 v) h = add_uint64-IsEntry v
  add-IsEntry (uint32 v) h = add_uint32-IsEntry v
  add-IsEntry (uint16 v) h = add_uint16-IsEntry v
  add-IsEntry (uint8 v) h = add_uint8-IsEntry v
  add-IsEntry (float64 v) h = add_float64-IsEntry v
  add-IsEntry (float32 v) h = add_float32-IsEntry v
  add-IsEntry (bool v) h = add_bool-IsEntry v
  add-IsEntry (uxtime v) h = add_uxtime-IsEntry v
  add-IsEntry (float16 v) h = add_float16-IsEntry v h
  add-IsEntry none_item h = add_none-IsEntry
  add-IsEntry (date dt) h = add_date-IsEntry dt
  add-IsEntry (time dt) h = add_time-IsEntry dt
  add-IsEntry (timestamp dt) h = add_timestamp-IsEntry dt
  add-IsEntry (string_c s n) h = add_string_c-IsEntry s n h
  add-IsEntry (string_u8 s n) h = add_string_u8-IsEntry s n h
  add-IsEntry (string_u16 s n) h = add_string_u16-IsEntry s n h
  add-IsEntry (string_u32 s n) h = add_string_u32-IsEntry s n h
  add-IsEntry (binary t d n) h = add_binary-IsEntry t d n h
