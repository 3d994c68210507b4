-- ===== src/Call/DecodeValues.antt =====
-- The functions of src/ujo_reader.c read back numbers, times and dates.
use libujo_c.Base.{ℕ, ◌^◌, ◌<◌, ap, List, [], ◌++◌, Option}
use libujo_c.Base.Result.{◌>>=◌}
use libujo_c.Platform.{Platform, Grants}
use libujo_c.Words.{memory_bytes, from_memory, uint16_swap, uint32_swap, uint64_swap}
use libujo_c.Words.Bytes.{length-memory_bytes, from_memory-memory_bytes}
use libujo_c.Types.{DateTime}
use libujo_c.Element.{
  Value, no_value, int8_val, int16_val, int32_val, int64_val, uint8_val, uint16_val, uint32_val,
  uint64_val, float16_val, float32_val, float64_val, bool_val, uxtime_val, datetime_val,
}
use libujo_c.Call.{Fits, date, time, timestamp}
use libujo_c.Reader.{get_data}
use libujo_c.Reader.Values.{
  parse_bool, parse_date, parse_float16, parse_float32, parse_float64, parse_int16, parse_int32,
  parse_int64, parse_int8, parse_none, parse_time, parse_timestamp, parse_uint16, parse_uint32,
  parse_uint64, parse_uint8, parse_uxtime,
}
use libujo_c.Reader.Input.{Handler}
use libujo_c.Call.Decode.{
  back_uint16, back_uint32, back_uint64, Decodes, settle, settles, field-Parses, get_uint8-Parses,
  get_uint16-Parses,
}

module _ {File Client : Type 0} (p : Platform File) (g : Grants p) (f : Handler Client)
    (d : Option Client) where
  field64-Decodes :
      (wrap : ℕ → Value) (v : ℕ)
      → v < 2 ^ 64
      → Decodes p g f d
          (get_data p 8 >>= λ bytes.
            settle p g f d (wrap (uint64_swap p.order (from_memory p.order bytes))))
          (wrap v)
          (memory_bytes p.order 8 (uint64_swap p.order v) ++ [])
  field64-Decodes wrap v b r rest at next h q =
      field-Parses p g f d 8 (λ bytes. wrap (uint64_swap p.order (from_memory p.order bytes)))
        (wrap v) (memory_bytes p.order 8 (uint64_swap p.order v)) rest r at next
        (length-memory_bytes p.order 8 (uint64_swap p.order v)) (ap wrap (back_uint64 p.order v b))
        h q

  field32-Decodes :
      (wrap : ℕ → Value) (v : ℕ)
      → v < 2 ^ 32
      → Decodes p g f d
          (get_data p 4 >>= λ bytes.
            settle p g f d (wrap (uint32_swap p.order (from_memory p.order bytes))))
          (wrap v)
          (memory_bytes p.order 4 (uint32_swap p.order v) ++ [])
  field32-Decodes wrap v b r rest at next h q =
      field-Parses p g f d 4 (λ bytes. wrap (uint32_swap p.order (from_memory p.order bytes)))
        (wrap v) (memory_bytes p.order 4 (uint32_swap p.order v)) rest r at next
        (length-memory_bytes p.order 4 (uint32_swap p.order v)) (ap wrap (back_uint32 p.order v b))
        h q

  field16-Decodes :
      (wrap : ℕ → Value) (v : ℕ)
      → v < 2 ^ 16
      → Decodes p g f d
          (get_data p 2 >>= λ bytes.
            settle p g f d (wrap (uint16_swap p.order (from_memory p.order bytes))))
          (wrap v)
          (memory_bytes p.order 2 (uint16_swap p.order v) ++ [])
  field16-Decodes wrap v b r rest at next h q =
      field-Parses p g f d 2 (λ bytes. wrap (uint16_swap p.order (from_memory p.order bytes)))
        (wrap v) (memory_bytes p.order 2 (uint16_swap p.order v)) rest r at next
        (length-memory_bytes p.order 2 (uint16_swap p.order v)) (ap wrap (back_uint16 p.order v b))
        h q

  field8-Decodes :
      (wrap : ℕ → Value) (v : ℕ)
      → v < 2 ^ 8
      → Decodes p g f d
          (get_data p 1 >>= λ bytes. settle p g f d (wrap (from_memory p.order bytes)))
          (wrap v)
          (memory_bytes p.order 1 v ++ [])
  field8-Decodes wrap v b r rest at next h q =
      field-Parses p g f d 1 (λ bytes. wrap (from_memory p.order bytes)) (wrap v)
        (memory_bytes p.order 1 v) rest r at next (length-memory_bytes p.order 1 v)
        (ap wrap (from_memory-memory_bytes p.order 1 v b)) h q

  pub parse_int64-Decodes :
      (v : ℕ)
      → v < 2 ^ 64
      → Decodes p g f d
          (parse_int64 p)
          (int64_val v)
          (memory_bytes p.order 8 (uint64_swap p.order v) ++ [])
  unfolding parse_int64
  parse_int64-Decodes v b = field64-Decodes int64_val v b

  pub parse_uint64-Decodes :
      (v : ℕ)
      → v < 2 ^ 64
      → Decodes p g f d
          (parse_uint64 p)
          (uint64_val v)
          (memory_bytes p.order 8 (uint64_swap p.order v) ++ [])
  unfolding parse_uint64
  parse_uint64-Decodes v b = field64-Decodes uint64_val v b

  pub parse_float64-Decodes :
      (v : ℕ)
      → v < 2 ^ 64
      → Decodes p g f d
          (parse_float64 p)
          (float64_val v)
          (memory_bytes p.order 8 (uint64_swap p.order v) ++ [])
  unfolding parse_float64
  parse_float64-Decodes v b = field64-Decodes float64_val v b

  pub parse_uxtime-Decodes :
      (v : ℕ)
      → v < 2 ^ 64
      → Decodes p g f d
          (parse_uxtime p)
          (uxtime_val v)
          (memory_bytes p.order 8 (uint64_swap p.order v) ++ [])
  unfolding parse_uxtime
  parse_uxtime-Decodes v b = field64-Decodes uxtime_val v b

  pub parse_int32-Decodes :
      (v : ℕ)
      → v < 2 ^ 32
      → Decodes p g f d
          (parse_int32 p)
          (int32_val v)
          (memory_bytes p.order 4 (uint32_swap p.order v) ++ [])
  unfolding parse_int32
  parse_int32-Decodes v b = field32-Decodes int32_val v b

  pub parse_uint32-Decodes :
      (v : ℕ)
      → v < 2 ^ 32
      → Decodes p g f d
          (parse_uint32 p)
          (uint32_val v)
          (memory_bytes p.order 4 (uint32_swap p.order v) ++ [])
  unfolding parse_uint32
  parse_uint32-Decodes v b = field32-Decodes uint32_val v b

  pub parse_float32-Decodes :
      (v : ℕ)
      → v < 2 ^ 32
      → Decodes p g f d
          (parse_float32 p)
          (float32_val v)
          (memory_bytes p.order 4 (uint32_swap p.order v) ++ [])
  unfolding parse_float32
  parse_float32-Decodes v b = field32-Decodes float32_val v b

  pub parse_int16-Decodes :
      (v : ℕ)
      → v < 2 ^ 16
      → Decodes p g f d
          (parse_int16 p)
          (int16_val v)
          (memory_bytes p.order 2 (uint16_swap p.order v) ++ [])
  unfolding parse_int16
  parse_int16-Decodes v b = field16-Decodes int16_val v b

  pub parse_uint16-Decodes :
      (v : ℕ)
      → v < 2 ^ 16
      → Decodes p g f d
          (parse_uint16 p)
          (uint16_val v)
          (memory_bytes p.order 2 (uint16_swap p.order v) ++ [])
  unfolding parse_uint16
  parse_uint16-Decodes v b = field16-Decodes uint16_val v b

  pub parse_float16-Decodes :
      (v : ℕ)
      → v < 2 ^ 16
      → Decodes p g f d
          (parse_float16 p)
          (float16_val v)
          (memory_bytes p.order 2 (uint16_swap p.order v) ++ [])
  unfolding parse_float16
  parse_float16-Decodes v b = field16-Decodes float16_val v b

  pub parse_int8-Decodes :
      (v : ℕ)
      → v < 2 ^ 8
      → Decodes p g f d (parse_int8 p) (int8_val v) (memory_bytes p.order 1 v ++ [])
  unfolding parse_int8
  parse_int8-Decodes v b = field8-Decodes int8_val v b

  pub parse_uint8-Decodes :
      (v : ℕ)
      → v < 2 ^ 8
      → Decodes p g f d (parse_uint8 p) (uint8_val v) (memory_bytes p.order 1 v ++ [])
  unfolding parse_uint8
  parse_uint8-Decodes v b = field8-Decodes uint8_val v b

  pub parse_bool-Decodes :
      (v : ℕ)
      → v < 2 ^ 8
      → Decodes p g f d (parse_bool p) (bool_val v) (memory_bytes p.order 1 v ++ [])
  unfolding parse_bool
  parse_bool-Decodes v b = field8-Decodes bool_val v b

  pub parse_none-Decodes : Decodes p g f d (parse_none p) no_value []
  unfolding parse_none
  parse_none-Decodes r rest at next h q = settles p g f d no_value r rest at next h q

  abbrev pub one : ℕ → List ℕ
  one v = memory_bytes p.order 1 v

  abbrev pub two : ℕ → List ℕ
  two v = memory_bytes p.order 2 (uint16_swap p.order v)

  pub parse_date-Decodes :
      (dt : DateTime)
      → Fits (date dt)
      → Decodes p g f d
          (parse_date p)
          (datetime_val (record dt { hour = 0; minute = 0; second = 0; millisecond = 0 }))
          (two dt.year ++ (one dt.month ++ (one dt.day ++ [])))
  unfolding parse_date
  parse_date-Decodes dt (b0, b1, b2) r rest at next h q =
      get_uint16-Parses p g f d _ dt.year r _ rest rest at next _ b0 h λ r1 h1.
        get_uint8-Parses p g f d _ dt.month r1 _ rest rest at next _ b1 h1 λ r2 h2.
          get_uint8-Parses p g f d _ dt.day r2 [] rest rest at next _ b2 h2
            λ r3 h3. settles p g f d _ r3 rest at next h3 q

  pub parse_time-Decodes :
      (dt : DateTime)
      → Fits (time dt)
      → Decodes p g f d
          (parse_time p)
          (datetime_val (record dt { year = 0; month = 0; day = 0; millisecond = 0 }))
          (one dt.hour ++ (one dt.minute ++ (one dt.second ++ [])))
  unfolding parse_time
  parse_time-Decodes dt (b0, b1, b2) r rest at next h q =
      get_uint8-Parses p g f d _ dt.hour r _ rest rest at next _ b0 h λ r1 h1.
        get_uint8-Parses p g f d _ dt.minute r1 _ rest rest at next _ b1 h1 λ r2 h2.
          get_uint8-Parses p g f d _ dt.second r2 [] rest rest at next _ b2 h2
            λ r3 h3. settles p g f d _ r3 rest at next h3 q

  pub parse_timestamp-Decodes :
      (dt : DateTime)
      → Fits (timestamp dt)
      → Decodes p g f d (parse_timestamp p) (datetime_val dt) (
          two dt.year
          ++ (one dt.month
              ++ (one dt.day
                  ++ (one dt.hour
                      ++ (one dt.minute ++ (one dt.second ++ (two dt.millisecond ++ [])))))))
  unfolding parse_timestamp
  parse_timestamp-Decodes dt (b0, b1, b2, b3, b4, b5, b6) r rest at next h q =
      get_uint16-Parses p g f d _ dt.year r _ rest rest at next _ b0 h λ r1 h1.
        get_uint8-Parses p g f d _ dt.month r1 _ rest rest at next _ b1 h1 λ r2 h2.
          get_uint8-Parses p g f d _ dt.day r2 _ rest rest at next _ b2 h2 λ r3 h3.
            get_uint8-Parses p g f d _ dt.hour r3 _ rest rest at next _ b3 h3 λ r4 h4.
              get_uint8-Parses p g f d _ dt.minute r4 _ rest rest at next _ b4 h4 λ r5 h5.
                get_uint8-Parses p g f d _ dt.second r5 _ rest rest at next _ b5 h5 λ r6 h6.
                  get_uint16-Parses p g f d _ dt.millisecond r6 [] rest rest at next _ b6 h6
                    λ r7 h7. settles p g f d _ r7 rest at next h7 q
