-- ===== src/Types.antt =====
-- The codes and constants of src/ujo_errors.h, src/ujo_constants.h and src/ujo_types.h.
-- Integers of every width stand as the bit pattern that they store, a number below 2 ^ width.
use libujo_c.Base.{ℕ, List, [], ◌∷◌}

abbrev pub err_allocation : ℕ
err_allocation = 5502

abbrev pub err_invalid_data : ℕ
err_invalid_data = 5503

abbrev pub err_type_misplaced : ℕ
err_type_misplaced = 5504

abbrev pub err_invalid_object : ℕ
err_invalid_object = 5505

abbrev pub err_file : ℕ
err_file = 5507

pub data AccessType : Type 0 where
  file_access memory_access stream_access : AccessType

-- The fields in the order of the struct; `year` is the pattern of an int16_t.
pub record DateTime : Type 0 where
  pub year : ℕ
  pub month : ℕ
  pub day : ℕ
  pub hour : ℕ
  pub minute : ℕ
  pub second : ℕ
  pub millisecond : ℕ

abbrev pub default_bufsize : ℕ
default_bufsize = 4096

abbrev pub magic : List ℕ
magic = 0x5F ∷ 0x55 ∷ 0x4A ∷ 0x4F ∷ []

abbrev pub data_version : ℕ
data_version = 0x0001

abbrev pub compress_none : ℕ
compress_none = 0x00

abbrev pub terminator : ℕ
terminator = 0x00

-- The type ids that stand in front of each value of a document.
abbrev pub type_float64 : ℕ
type_float64 = 0x01

abbrev pub type_float32 : ℕ
type_float32 = 0x02

abbrev pub type_float16 : ℕ
type_float16 = 0x03

abbrev pub type_string : ℕ
type_string = 0x04

abbrev pub type_int64 : ℕ
type_int64 = 0x05

abbrev pub type_int32 : ℕ
type_int32 = 0x06

abbrev pub type_int16 : ℕ
type_int16 = 0x07

abbrev pub type_int8 : ℕ
type_int8 = 0x08

abbrev pub type_uint64 : ℕ
type_uint64 = 0x09

abbrev pub type_uint32 : ℕ
type_uint32 = 0x0A

abbrev pub type_uint16 : ℕ
type_uint16 = 0x0B

abbrev pub type_uint8 : ℕ
type_uint8 = 0x0C

abbrev pub type_bool : ℕ
type_bool = 0x0D

abbrev pub type_bin : ℕ
type_bin = 0x0E

abbrev pub type_none : ℕ
type_none = 0x0F

abbrev pub type_ux_time : ℕ
type_ux_time = 0x10

abbrev pub type_date : ℕ
type_date = 0x11

abbrev pub type_time : ℕ
type_time = 0x12

abbrev pub type_timestamp : ℕ
type_timestamp = 0x13

abbrev pub type_list : ℕ
type_list = 0x30

abbrev pub type_map : ℕ
type_map = 0x31

abbrev pub type_table : ℕ
type_table = 0x32

abbrev pub sub_string_c : ℕ
sub_string_c = 0x00

abbrev pub sub_string_u8 : ℕ
sub_string_u8 = 0x01

abbrev pub sub_string_u16 : ℕ
sub_string_u16 = 0x02

abbrev pub sub_string_u32 : ℕ
sub_string_u32 = 0x03
