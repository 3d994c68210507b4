-- ===== src/Call/DecodeItem.antt =====
-- The switch over the type id in src/ujo_reader.c reads back every value that src/ujo_writer.c
-- writes.
use mathlib.Core.Path.{subst}
use libujo_c.Base.{
  ℕ, ◌+◌, ◌*◌, ◌%◌, ◌^◌, ◌<◌, ◌≡◌, refl, sym, Bool, true, false, List, [], ◌∷◌, ◌++◌, Option,
  if◌then◌else◌, arith, take,
}
use libujo_c.Platform.{Platform, Endian, Grants}
use libujo_c.State.{atomic_found, string_found}
use libujo_c.State.Shape.{after}
use libujo_c.Element.{string_val}
use libujo_c.Half.{float_to_half}
use libujo_c.Writer.Entry.{joined}
use libujo_c.Writer.Texts.{strnlen}
use libujo_c.Reader.Values.{get_units, get_array, parse_string}
use libujo_c.Reader.Next.{parse_value}
use libujo_c.Reader.Input.{Handler}
use libujo_c.Call.{
  Item, int64, int32, int16, int8, uint64, uint32, uint16, uint8, float64, float32, float16, bool,
  uxtime, none_item, date, time, timestamp, string_c, string_u8, string_u16, string_u32, binary,
  Fits, read_back, IsArray,
}
use libujo_c.Call.Encode.{tag, pieces}
use libujo_c.Call.Decode.{Decodes}
use libujo_c.Call.DecodeValues.{
  parse_int64-Decodes, parse_int32-Decodes, parse_int16-Decodes, parse_int8-Decodes,
  parse_uint64-Decodes, parse_uint32-Decodes, parse_uint16-Decodes, parse_uint8-Decodes,
  parse_float64-Decodes, parse_float32-Decodes, parse_float16-Decodes, parse_bool-Decodes,
  parse_uxtime-Decodes, parse_none-Decodes, parse_date-Decodes, parse_time-Decodes,
  parse_timestamp-Decodes,
}
use libujo_c.Call.DecodeTexts.{text_tail, parse_string-Decodes, parse_binary-Decodes}

-- The bytes of a value behind its type id.
abbrev pub body : Endian → Item → List ℕ
body e i = joined (tail_of (pieces e i))
  where
    tail_of : List (List ℕ) → List (List ℕ)
    tail_of [] = []
    tail_of (x ∷ xs) = xs

-- The bytes of a value start with its type id.
pub starts_with_type :
    (e : Endian) (i : Item)
    → ((read_back i).type < 2 ^ 8) × (joined (pieces e i) ≡ tag e (read_back i).type ++ body e i)
starts_with_type e (int64 v) = (omega arith, refl)
starts_with_type e (int32 v) = (omega arith, refl)
starts_with_type e (int16 v) = (omega arith, refl)
starts_with_type e (int8 v) = (omega arith, refl)
starts_with_type e (uint64 v) = (omega arith, refl)
starts_with_type e (uint32 v) = (omega arith, refl)
starts_with_type e (uint16 v) = (omega arith, refl)
starts_with_type e (uint8 v) = (omega arith, refl)
starts_with_type e (float64 v) = (omega arith, refl)
starts_with_type e (float32 v) = (omega arith, refl)
starts_with_type e (float16 v) = (omega arith, refl)
starts_with_type e (bool v) = (omega arith, refl)
starts_with_type e (uxtime v) = (omega arith, refl)
starts_with_type e none_item = (omega arith, refl)
starts_with_type e (date v) = (omega arith, refl)
starts_with_type e (time v) = (omega arith, refl)
starts_with_type e (timestamp v) = (omega arith, refl)
starts_with_type e (string_c s n) = (omega arith, refl)
starts_with_type e (string_u8 s n) = (omega arith, refl)
starts_with_type e (string_u16 s n) = (omega arith, refl)
starts_with_type e (string_u32 s n) = (omega arith, refl)
starts_with_type e (binary t s n) = (omega arith, refl)

pub after_event : (b : Bool) → after (if b then string_found else atomic_found) ≡ after atomic_found
unfolding after
after_event true = refl
after_event false = refl

float_to_half-lt : (v : ℕ) → float_to_half v < 2 ^ 16
unfolding float_to_half
float_to_half-lt v = omega arith

module _ {File Client : Type 0} (p : Platform File) (g : Grants p) (f : Handler Client)
    (d : Option Client) where
  -- A string whose array is written with a number of units `m` that is computed from n.
  reads_sized :
      (sub k n m units : ℕ) (s : List ℕ)
      → get_units {Client = Client} p sub n ≡ get_array p k n
      → m ≡ n
      → units ≡ n
      → n * k < 2 ^ 64
      → sub < 2 ^ 8
      → IsArray k s n
      → Decodes p g f d
          (parse_string p)
          (string_val sub (take n s) n)
          (text_tail p g f d sub k m units s)
  reads_sized sub k n m units s same e e' small b fits =
      subst
        (λ j.
          Decodes p g f d (parse_string p) (string_val sub (take n s) n)
            (text_tail p g f d sub k j units s))
        (sym e) (parse_string-Decodes p g f d sub k n units s same e' small b fits)

  -- The switch over the type id reads back each value.
  pub parse_value-Decodes :
      (i : Item)
      → Fits i
      → Decodes p g f d (parse_value p (read_back i).type) (read_back i).value (body p.order i)
  unfolding parse_value
  parse_value-Decodes (int64 v) h = parse_int64-Decodes p g f d v h
  parse_value-Decodes (int32 v) h = parse_int32-Decodes p g f d v h
  parse_value-Decodes (int16 v) h = parse_int16-Decodes p g f d v h
  parse_value-Decodes (int8 v) h = parse_int8-Decodes p g f d v h
  parse_value-Decodes (uint64 v) h = parse_uint64-Decodes p g f d v h
  parse_value-Decodes (uint32 v) h = parse_uint32-Decodes p g f d v h
  parse_value-Decodes (uint16 v) h = parse_uint16-Decodes p g f d v h
  parse_value-Decodes (uint8 v) h = parse_uint8-Decodes p g f d v h
  parse_value-Decodes (float64 v) h = parse_float64-Decodes p g f d v h
  parse_value-Decodes (float32 v) h = parse_float32-Decodes p g f d v h
  parse_value-Decodes (float16 v) h =
      parse_float16-Decodes p g f d (float_to_half v) (float_to_half-lt v)
  parse_value-Decodes (bool v) h = parse_bool-Decodes p g f d v h
  parse_value-Decodes (uxtime v) h = parse_uxtime-Decodes p g f d v h
  parse_value-Decodes none_item h = parse_none-Decodes p g f d
  parse_value-Decodes (date dt) h = parse_date-Decodes p g f d dt h
  parse_value-Decodes (time dt) h = parse_time-Decodes p g f d dt h
  parse_value-Decodes (timestamp dt) h = parse_timestamp-Decodes p g f d dt h
  parse_value-Decodes (string_c s n) h =
      let few : (strnlen s n + 1) % 2 ^ 32 ≡ strnlen s n + 1 = omega arith in
      reads_sized 0 1 (strnlen s n + 1) ((strnlen s n + 1) % 2 ^ 32) ((strnlen s n + 1) % 2 ^ 32) s
        (unfold get_units in refl) few few (omega arith) (omega arith) h
  parse_value-Decodes (string_u8 s n) h =
      parse_string-Decodes p g f d 1 1 n (n % 2 ^ 32) s (unfold get_units in refl) (omega arith)
        (omega arith) (omega arith) h
  parse_value-Decodes (string_u16 s n) h =
      reads_sized 2 2 n (n % 2 ^ 63) (n % 2 ^ 32) s (unfold get_units in refl) (omega arith)
        (omega arith) (omega arith) (omega arith) h
  parse_value-Decodes (string_u32 s n) h =
      reads_sized 3 4 n (n % 2 ^ 62) (n % 2 ^ 32) s (unfold get_units in refl) (omega arith)
        (omega arith) (omega arith) (omega arith) h
  parse_value-Decodes (binary t s n) h =
      parse_binary-Decodes p g f d t n (n % 2 ^ 32) s (omega arith) h.0 h.1
