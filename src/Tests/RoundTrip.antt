-- ===== src/Tests/RoundTrip.antt =====
-- Examples: a document written and read back.
use libujo_c.Base.{true, List, ◌++◌, ℕ, ◌+◌, ◌≡◌, refl, [], ◌∷◌, none, some, arith, map}
use libujo_c.Base.Result.{Result, ok, fault}
use libujo_c.Stack.{new_stack, push, pop, slot, enlarge, reserve, write_slot, store}
use libujo_c.Stack.View.{Holds, holds}
use libujo_c.State.{
  root, closed, new_state, same_state, enumerator, allow_atomic, allow_container, allow_string,
  state_next, state_prev, state_switch, closing, reopen, atomic_switch, string_switch,
  closed_switch,
}
use libujo_c.Words.{low_bytes, memory_bytes, uint16_swap, uint32_swap, from_memory, from_low_bytes}
use libujo_c.Writer.{
  Writer, new_memory_writer, new_writer, start, header, finished, zeros, put, put_by, put_memory,
  make_room, append, copy_at, put_uint8, put_uint16, list_open, list_close,
}
use libujo_c.Writer.Values.{add_int32}
use libujo_c.Writer.Texts.{add_string_u8, put_units, put_array, array_bytes}
use libujo_c.Reader.{Reader, new_memory_reader, get_data, get_memory_data}
use libujo_c.Reader.Values.{parse_int32}
use libujo_c.Element.{int32_val}
use libujo_c.Element.Kinds.{getters_work}
use libujo_c.Reader.Kinds.{get_next-getters_work}
use libujo_c.Release.{Piece, buffer, free_reader}
use libujo_c.Release.Pieces.{Owned, owns_buffer, free_reader-Owned}
use libujo_c.Call.{adds, int32, seen}
use libujo_c.Types.{memory_access, type_list, type_int8, type_int32}
use libujo_c.Platform.{little}
use libujo_c.State.{dict_key, dict_value}
use libujo_c.State.Shape.{after, after_value, enter}
use libujo_c.Reader.Next.{found, get_next, parse, scan_element, parse_value}
use libujo_c.Reader.Ends.{Within, Stays, parse-Stays}
use libujo_c.Call.Truncated.{truncated-faults}
use libujo_c.Reader.Input.{Reads, Parses}
use libujo_c.Call.Effect.{bytes, permits, moves}
use libujo_c.Call.Scan.{get_next-seen}
use libujo_c.Call.Run.{run}
use libujo_c.Call.Document.{IsSmall}
use libujo_c.Call.Parse.{Callback, Accepts, hand}
use libujo_c.Call.RoundTrip.{read_document, round_trip}
use libujo_c.Tests.{
  desktop, desktop-Grants, fresh, calls, calls-AllFit, empty_stack, empty_stack-Holds, at_key,
}

-- The writer of a result.
abbrev pub writer_of : Result (Unit {0}) (Writer (Unit {0})) → Writer (Unit {0})
writer_of (ok w u) = w
writer_of _ = fresh

abbrev pub state_of : Result (Writer (Unit {0})) (Unit {0}) → Writer (Unit {0})
state_of (ok u w) = w
state_of _ = fresh

abbrev pub started : Writer (Unit {0})
started = writer_of (new_memory_writer desktop)

abbrev pub written : Writer (Unit {0})
written = state_of (run desktop calls started)

pub started_lem : new_memory_writer desktop ≡ ok started tt
unfolding new_memory_writer new_writer start header finished zeros put put_by put_memory make_room
    append copy_at put_uint8 put_uint16 low_bytes memory_bytes uint16_swap new_state
started_lem = refl

pub written_lem : run desktop calls started ≡ ok tt written
unfolding new_memory_writer new_writer start header finished zeros put put_by put_memory make_room
    append copy_at put_uint8 put_uint16 low_bytes memory_bytes uint16_swap uint32_swap list_open
    list_close add_int32 add_string_u8 put_units put_array array_bytes new_state same_state
    enumerator allow_atomic allow_container allow_string state_next state_prev state_switch closing
    reopen atomic_switch string_switch closed_switch new_stack push pop slot enlarge reserve
    write_slot store
written_lem = refl

pub written-size : written.bytes ≡ 22
unfolding new_memory_writer new_writer start header finished zeros put put_by put_memory make_room
    append copy_at put_uint8 put_uint16 low_bytes memory_bytes uint16_swap uint32_swap list_open
    list_close add_int32 add_string_u8 put_units put_array array_bytes new_state same_state
    enumerator allow_atomic allow_container allow_string state_next state_prev state_switch closing
    reopen atomic_switch string_switch closed_switch new_stack push pop slot enlarge reserve
    write_slot store
written-size = refl

pub written-closed : written.state.state ≡ closed
unfolding new_memory_writer new_writer start header finished zeros put put_by put_memory make_room
    append copy_at put_uint8 put_uint16 low_bytes memory_bytes uint16_swap uint32_swap list_open
    list_close add_int32 add_string_u8 put_units put_array array_bytes new_state same_state
    enumerator allow_atomic allow_container allow_string state_next state_prev state_switch closing
    reopen atomic_switch string_switch closed_switch new_stack push pop slot enlarge reserve
    write_slot store
written-closed = refl

-- A callback that counts the elements.
abbrev pub counts : Callback ℕ
counts v none = (0, some 1)
counts v (some n) = (0, some (n + 1))

pub counts-Accepts : Accepts counts
counts-Accepts v none = refl
counts-Accepts v (some n) = refl

pub calls-IsSmall : IsSmall desktop desktop-Grants calls
unfolding memory_bytes low_bytes array_bytes uint32_swap
calls-IsSmall = omega arith

round_trip_example :
    (r r' : Reader (Unit {0}) ℕ) × (new_memory_reader desktop ≡ ok r tt)
    × (read_document desktop 4 counts none written.buffer written.bytes r ≡ ok tt r')
    × (r'.on_element_data ≡ hand counts (map seen calls) none)
round_trip_example =
    round_trip desktop desktop-Grants counts none calls 4 started written counts-Accepts
      calls-AllFit calls-IsSmall started_lem written_lem written-closed (omega arith)

-- The document without its last byte.
truncated-faults_example :
    (r : Reader (Unit {0}) ℕ) × (new_memory_reader desktop ≡ ok r tt)
    × (read_document desktop 22 counts none written.buffer 21 r ≡ fault)
truncated-faults_example =
    truncated-faults desktop desktop-Grants counts none calls 22 21 started written counts-Accepts
      calls-AllFit calls-IsSmall started_lem written_lem written-closed
      (omega (arith, written-size)) (omega (arith, written-size))

-- A header, and a list that holds 7 and -1.
abbrev block : List ℕ
block = 0x5F ∷ 0x55 ∷ 0x4A ∷ 0x4F ∷ 1 ∷ 0 ∷ 0 ∷ type_list ∷ type_int8 ∷ 7 ∷ type_int8 ∷ 255 ∷ 0 ∷ []

abbrev loaded_block : Reader (Unit {0}) ℕ
loaded_block = record {
  type = memory_access;
  state_stack = some empty_stack;
  state = record { state = root; columns = 0; column = 0 };
  magic_code = [];
  version = 0;
  compression = 0;
  buffersize = 13;
  buffer = some block;
  parsed = 0;
  file = none;
  on_element = some counts;
  on_element_data = none;
}

loaded_block-Within : Within block 0 loaded_block
loaded_block-Within = record {
  memory = refl;
  in_block = refl;
  from_low = omega arith;
  inside = omega arith;
}

parse-Stays_example :
    Stays {Client = ℕ} desktop block (omega arith) 0 (parse desktop 13 loaded_block)
parse-Stays_example =
    parse-Stays desktop block (omega arith) 13 loaded_block (omega arith) loaded_block-Within

-- A reader within a map, with a number of four bytes before it.
abbrev within_map : Reader (Unit {0}) ℕ
within_map = record {
  type = memory_access;
  state_stack = some empty_stack;
  state = at_key;
  magic_code = [];
  version = 1;
  compression = 0;
  buffersize = 5;
  buffer = some (6 ∷ 7 ∷ 0 ∷ 0 ∷ 0 ∷ []);
  parsed = 0;
  file = none;
  on_element = none;
  on_element_data = none;
}

within_map-Reads : Reads none none within_map (bytes little (adds (int32 7)) ++ []) (dict_key, [])
unfolding memory_bytes low_bytes uint32_swap
within_map-Reads = record {
  memory = refl;
  block = 6 ∷ 7 ∷ 0 ∷ 0 ∷ 0 ∷ [];
  in_block = refl;
  ahead = refl;
  within = omega arith;
  small = omega arith;
  here = record { above = []; holds = empty_stack-Holds; current = refl; outside = refl };
  handler = refl;
  data_is = refl;
}

-- The reader behind the number in the map.
abbrev at_value : Reader (Unit {0}) ℕ
at_value = record within_map {
  state_stack =
      some (record { stack = some (some at_key ∷ []); size = 1; items = 1; destroy = true });
  state = record at_key { state = dict_value };
  parsed = 5;
}

-- Its stack holds the state of the map.
at_value-Holds : Holds true at_value.state_stack (at_key ∷ [])
unfolding slot
at_value-Holds =
    holds (record { stack = some (some at_key ∷ []); size = 1; items = 1; destroy = true }) refl
      (record { sized = refl; within = omega arith; destroys = refl; view = refl })

free_reader-Owned_example :
    (ps : List (Piece (Unit {0}))) × (free_reader (some at_value) ≡ ok ps tt)
    × Owned (at_key ∷ []) at_value.state_stack at_value.state (buffer ∷ []) ps
free_reader-Owned_example =
    free_reader-Owned at_value (at_key ∷ []) (buffer ∷ []) at_value-Holds
      (owns_buffer (6 ∷ 7 ∷ 0 ∷ 0 ∷ 0 ∷ []) none)

number_found :
    get_next desktop within_map
    ≡ ok (found (record { type = type_int32; value = int32_val 7 })) at_value
unfolding get_next scan_element parse_value parse_int32 get_data get_memory_data from_memory
    from_low_bytes uint32_swap same_state state_switch atomic_switch enumerator state_next push
    enlarge reserve store write_slot
number_found = refl

get_next-getters_work_example :
    getters_work (record { type = type_int32; value = int32_val 7 }) ≡ true
get_next-getters_work_example =
    get_next-getters_work desktop within_map at_value
      (record { type = type_int32; value = int32_val 7 }) number_found

after_key : moves (adds (int32 7)) (dict_key, []) ≡ some (dict_value, dict_key ∷ [])
unfolding after after_value enter
after_key = refl

key_permits : permits (adds (int32 7)) dict_key ≡ true
unfolding allow_atomic
key_permits = refl

get_next-seen_example :
    Parses none none
      (get_next desktop)
      within_map
      (found (seen (adds (int32 7))))
      []
      (dict_value, dict_key ∷ [])
get_next-seen_example =
    get_next-seen desktop desktop-Grants none none (adds (int32 7)) within_map [] (dict_key, [])
      (dict_value, dict_key ∷ []) (omega arith) within_map-Reads key_permits after_key
