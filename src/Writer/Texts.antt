-- ===== src/Writer/Texts.antt =====
-- src/ujo_writer.c: strings and binary data. A pointer to an array is the list of the values from
-- there to the end of the array.
use libujo_c.Base.{
  ℕ, zero, suc, ◌+◌, ◌%◌, ◌^◌, Bool, List, [], ◌∷◌, ◌++◌, ltb, ◌==◌, if◌then◌else◌, length, take,
}
use libujo_c.Base.Result.{M, crash, ◌>>◌}
use libujo_c.Types.{
  err_type_misplaced, type_string, type_bin, sub_string_c, sub_string_u8, sub_string_u16,
  sub_string_u32,
}
use libujo_c.Platform.{Platform, Endian}
use libujo_c.State.{State, atomic_found, string_found, allow_atomic, allow_string, state_switch}
use libujo_c.Words.{memory_bytes}
use libujo_c.Writer.{Writer, put, put_uint8, goto, require}

abbrev pub string_allowed : State → Bool
string_allowed s = allow_string s.state

-- `strnlen(s, n)`: the list reaches to the end of the array, past which the code does not look as
-- long as the array holds n characters or a zero.
unfoldable pub strnlen : List ℕ → ℕ → ℕ
strnlen s zero = 0
strnlen [] (suc n) = 0
strnlen (c ∷ s) (suc n) = let rest = suc (strnlen s n) in if c == 0 then 0 else rest

-- The bytes in memory of an array of integers of k bytes each.
unfoldable pub array_bytes : Endian → ℕ → List ℕ → List ℕ
array_bytes e k [] = []
array_bytes e k (x ∷ xs) = memory_bytes e k x ++ array_bytes e k xs

module _ {File : Type 0} (p : Platform File) where
  -- `_ujo_writer_put` of n elements of an array: reading past its end is undefined.
  unfoldable pub put_array : ℕ → List ℕ → ℕ → M (Writer File) (Unit {0})
  put_array k s n = if ltb (length s) n then crash else put p (array_bytes p.order k (take n s))

  -- The length is cut to 32 bits, and is written in the byte order of the platform.
  unfoldable pub put_units : ℕ → M (Writer File) (Unit {0})
  put_units units = put p (memory_bytes p.order 4 (units % 2 ^ 32))

  -- The zero behind the string is written too.
  unfoldable pub add_string_c : List ℕ → ℕ → M (Writer File) (Unit {0})
  unfolding put_units put_array
  add_string_c s n = do
    require string_allowed err_type_misplaced
    put_uint8 p type_string
    put_uint8 p sub_string_c
    put_units (strnlen s n + 1)
    put_array 1 s ((strnlen s n + 1) % 2 ^ 32)
    goto (state_switch p string_found)

  unfoldable pub add_string_u8 : List ℕ → ℕ → M (Writer File) (Unit {0})
  unfolding put_units put_array
  add_string_u8 s n = do
    require string_allowed err_type_misplaced
    put_uint8 p type_string
    put_uint8 p sub_string_u8
    put_units n
    put_array 1 s n
    goto (state_switch p string_found)

  -- `n * sizeof(uint16_t)` bytes are written, which are n units unless that product wraps.
  unfoldable pub add_string_u16 : List ℕ → ℕ → M (Writer File) (Unit {0})
  unfolding put_units put_array
  add_string_u16 s n = do
    require string_allowed err_type_misplaced
    put_uint8 p type_string
    put_uint8 p sub_string_u16
    put_units n
    put_array 2 s (n % 2 ^ 63)
    goto (state_switch p string_found)

  unfoldable pub add_string_u32 : List ℕ → ℕ → M (Writer File) (Unit {0})
  unfolding put_units put_array
  add_string_u32 s n = do
    require string_allowed err_type_misplaced
    put_uint8 p type_string
    put_uint8 p sub_string_u32
    put_units n
    put_array 4 s (n % 2 ^ 62)
    goto (state_switch p string_found)

  unfoldable pub add_binary : ℕ → List ℕ → ℕ → M (Writer File) (Unit {0})
  unfolding put_units put_array
  add_binary t d n = do
    require (λ s. allow_atomic s.state) err_type_misplaced
    put_uint8 p type_bin
    put_uint8 p t
    put_units n
    put_array 1 d n
    goto (state_switch p atomic_found)
