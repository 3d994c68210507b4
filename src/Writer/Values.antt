-- ===== src/Writer/Values.antt =====
-- src/ujo_writer.c: the values of fixed size.
use Prim.Native.Nat.{bit_and}
use libujo_c.Base.{ℕ, Bool, if◌then◌else◌}
use libujo_c.Base.Result.{M, fail, pure, ◌>>◌}
use libujo_c.Types.{
  DateTime, err_type_misplaced, err_invalid_data, type_int64, type_int32, type_int16, type_int8,
  type_uint64, type_uint32, type_uint16, type_uint8, type_float64, type_float32, type_float16,
  type_bool, type_none, type_ux_time, type_date, type_time, type_timestamp,
}
use libujo_c.Platform.{Platform}
use libujo_c.State.{State, atomic_found, allow_atomic, state_switch}
use libujo_c.Words.{memory_bytes, uint16_swap, uint32_swap, uint64_swap, float32_swap, float64_swap}
use libujo_c.Half.{float_to_half, isnan_float16, isinf_float16}
use libujo_c.Writer.{Writer, put, put_uint8, goto, require}

abbrev pub atomic_allowed : State → Bool
atomic_allowed s = allow_atomic s.state

module _ {File : Type 0} (p : Platform File) where
  unfoldable pub add_int64 : ℕ → M (Writer File) (Unit {0})
  add_int64 value = do
    require atomic_allowed err_type_misplaced
    put_uint8 p type_int64
    put p (memory_bytes p.order 8 (uint64_swap p.order value))
    goto (state_switch p atomic_found)

  unfoldable pub add_int32 : ℕ → M (Writer File) (Unit {0})
  add_int32 value = do
    require atomic_allowed err_type_misplaced
    put_uint8 p type_int32
    put p (memory_bytes p.order 4 (uint32_swap p.order value))
    goto (state_switch p atomic_found)

  unfoldable pub add_int16 : ℕ → M (Writer File) (Unit {0})
  add_int16 value = do
    require atomic_allowed err_type_misplaced
    put_uint8 p type_int16
    put p (memory_bytes p.order 2 (uint16_swap p.order value))
    goto (state_switch p atomic_found)

  unfoldable pub add_int8 : ℕ → M (Writer File) (Unit {0})
  add_int8 value = do
    require atomic_allowed err_type_misplaced
    put_uint8 p type_int8
    put p (memory_bytes p.order 1 value)
    goto (state_switch p atomic_found)

  unfoldable pub add_uint64 : ℕ → M (Writer File) (Unit {0})
  add_uint64 value = do
    require atomic_allowed err_type_misplaced
    put_uint8 p type_uint64
    put p (memory_bytes p.order 8 (uint64_swap p.order value))
    goto (state_switch p atomic_found)

  unfoldable pub add_uint32 : ℕ → M (Writer File) (Unit {0})
  add_uint32 value = do
    require atomic_allowed err_type_misplaced
    put_uint8 p type_uint32
    put p (memory_bytes p.order 4 (uint32_swap p.order value))
    goto (state_switch p atomic_found)

  unfoldable pub add_uint16 : ℕ → M (Writer File) (Unit {0})
  add_uint16 value = do
    require atomic_allowed err_type_misplaced
    put_uint8 p type_uint16
    put p (memory_bytes p.order 2 (uint16_swap p.order value))
    goto (state_switch p atomic_found)

  unfoldable pub add_uint8 : ℕ → M (Writer File) (Unit {0})
  add_uint8 value = do
    require atomic_allowed err_type_misplaced
    put_uint8 p type_uint8
    put p (memory_bytes p.order 1 value)
    goto (state_switch p atomic_found)

  unfoldable pub add_none : M (Writer File) (Unit {0})
  add_none = do
    require atomic_allowed err_type_misplaced
    put_uint8 p type_none
    goto (state_switch p atomic_found)

  -- The type id goes through `type & 0x80`.
  unfoldable pub add_null : ℕ → M (Writer File) (Unit {0})
  add_null type = do
    require atomic_allowed err_type_misplaced
    put_uint8 p (bit_and type 0x80)
    goto (state_switch p atomic_found)

  -- NaN and infinity are refused, after the place was checked.
  unfoldable pub refuse_float16 : ℕ → M (Writer File) (Unit {0})
  refuse_float16 half =
      if isnan_float16 half
      then fail err_invalid_data
      else (if isinf_float16 half then fail err_invalid_data else pure tt)

  unfoldable pub add_float16 : ℕ → M (Writer File) (Unit {0})
  unfolding refuse_float16
  add_float16 value = do
    require atomic_allowed err_type_misplaced
    refuse_float16 (float_to_half value)
    put_uint8 p type_float16
    put p (memory_bytes p.order 2 (uint16_swap p.order (float_to_half value)))
    goto (state_switch p atomic_found)

  unfoldable pub add_float32 : ℕ → M (Writer File) (Unit {0})
  add_float32 value = do
    require atomic_allowed err_type_misplaced
    put_uint8 p type_float32
    put p (memory_bytes p.order 4 (float32_swap p.order value))
    goto (state_switch p atomic_found)

  unfoldable pub add_float64 : ℕ → M (Writer File) (Unit {0})
  add_float64 value = do
    require atomic_allowed err_type_misplaced
    put_uint8 p type_float64
    put p (memory_bytes p.order 8 (float64_swap p.order value))
    goto (state_switch p atomic_found)

  -- `ujoBool` is a uint8_t, and is written as it is.
  unfoldable pub add_bool : ℕ → M (Writer File) (Unit {0})
  add_bool value = do
    require atomic_allowed err_type_misplaced
    put_uint8 p type_bool
    put p (memory_bytes p.order 1 value)
    goto (state_switch p atomic_found)

  unfoldable pub add_uxtime : ℕ → M (Writer File) (Unit {0})
  add_uxtime t = do
    require atomic_allowed err_type_misplaced
    put_uint8 p type_ux_time
    put p (memory_bytes p.order 8 (uint64_swap p.order t))
    goto (state_switch p atomic_found)

  unfoldable pub add_date : DateTime → M (Writer File) (Unit {0})
  add_date dt = do
    require atomic_allowed err_type_misplaced
    put_uint8 p type_date
    put p (memory_bytes p.order 2 (uint16_swap p.order dt.year))
    put p (memory_bytes p.order 1 dt.month)
    put p (memory_bytes p.order 1 dt.day)
    goto (state_switch p atomic_found)

  unfoldable pub add_time : DateTime → M (Writer File) (Unit {0})
  add_time dt = do
    require atomic_allowed err_type_misplaced
    put_uint8 p type_time
    put p (memory_bytes p.order 1 dt.hour)
    put p (memory_bytes p.order 1 dt.minute)
    put p (memory_bytes p.order 1 dt.second)
    goto (state_switch p atomic_found)

  unfoldable pub add_timestamp : DateTime → M (Writer File) (Unit {0})
  add_timestamp dt = do
    require atomic_allowed err_type_misplaced
    put_uint8 p type_timestamp
    put p (memory_bytes p.order 2 (uint16_swap p.order dt.year))
    put p (memory_bytes p.order 1 dt.month)
    put p (memory_bytes p.order 1 dt.day)
    put p (memory_bytes p.order 1 dt.hour)
    put p (memory_bytes p.order 1 dt.minute)
    put p (memory_bytes p.order 1 dt.second)
    put p (memory_bytes p.order 2 (uint16_swap p.order dt.millisecond))
    goto (state_switch p atomic_found)
