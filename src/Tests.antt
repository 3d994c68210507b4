-- ===== src/Tests.antt =====
-- Examples: the theorems on the writer, the states and the stack at concrete values.
pub mod Files
pub mod RoundTrip
pub mod Errors
pub mod Platforms
pub mod Closing
pub mod Printing
pub mod Disk
use libujo_c.Base.{◌≡◌, refl, true, List, [], ◌∷◌, ◌++◌, arith, none, some}
use libujo_c.Base.Result.{ok, err}
use libujo_c.Types.{memory_access, err_type_misplaced, err_invalid_data}
use libujo_c.Platform.{Platform, little, big, Grants}
use libujo_c.Stack.{Stack, slot, push, pop, clear_stack}
use libujo_c.Stack.View.{Holds, holds}
use libujo_c.Stack.Laws.{push-Holds, Pops, pop-Pops, Clears, clear_stack-Clears}
use libujo_c.State.{
  State, root, list, dict_key, table_values, atomic_found, allow_container, allow_atomic,
  state_switch,
}
use libujo_c.State.Shape.{after, is_outer}
use libujo_c.State.Refine.{Follows, state_switch-At}
use libujo_c.State.Columns.{cells, InRow, cells-InRow}
use libujo_c.Words.{low_bytes, uint32_swap, memory_bytes, uint16_swap, uint64_swap, from_memory}
use libujo_c.Words.Bytes.{
  memory_bytes-uint16_swap, memory_bytes-uint32_swap, memory_bytes-uint64_swap,
  uint64_swap-from_memory,
}
use libujo_c.Writer.{Writer, put, new_memory_writer}
use libujo_c.Writer.Put.{IsValid, contents, Wrote, put-Wrote}
use libujo_c.Writer.Entry.{Stands}
use libujo_c.Writer.Range.{add_float16-out_of_range}
use libujo_c.Writer.Values.{add_float16}
use libujo_c.Writer.Texts.{array_bytes}
use libujo_c.Release.{Piece, buffer, free_writer}
use libujo_c.Release.Pieces.{Owned, owns_buffer, free_writer-Owned}
use libujo_c.Call.{Call, adds, int32, string_u8, list_opens, list_closes, perform}
use libujo_c.Call.Effect.{Succeeds}
use libujo_c.Call.Writes.{perform-Succeeds}
use libujo_c.Call.Grammar.{Admits, perform-refused, perform-Admits, document}
use libujo_c.Call.Run.{Ran, run-Ran, AllFit}
use libujo_c.Call.Document.{header_bytes, new_memory_writer-Done}

-- A platform without files, whose allocator serves every request.
abbrev pub desktop : Platform (Unit {0})
desktop = record {
  order = little;
  grants = λ n. true;
  junk = λ i. 0xCD;
  fopen = λ name write. none;
  fwrite = λ f xs. (0, f);
  fread = λ f n. (0, [], f);
}

pub desktop-Grants : Grants desktop
desktop-Grants n = refl

-- A writer at the root of a document, with an empty buffer.
abbrev pub fresh : Writer (Unit {0})
fresh = record {
  type = memory_access;
  state_stack = some (record { stack = none; size = 0; items = 0; destroy = true });
  state = record { state = root; columns = 0; column = 0 };
  buffersize = 0;
  buffer = [];
  bytes = 0;
  file = none;
}

fresh-IsValid : IsValid fresh
fresh-IsValid = record { memory = refl; sized = refl; within = omega arith; lean = omega arith }

abbrev pub empty_stack : Stack State
empty_stack = record { stack = none; size = 0; items = 0; destroy = true }

pub empty_stack-Holds : Holds true (some empty_stack) []
empty_stack-Holds =
    holds empty_stack refl
      (record { sized = refl; within = omega arith; destroys = refl; view = refl })

fresh-Stands : Stands fresh (root, [])
unfolding is_outer
fresh-Stands = record {
  valid = fresh-IsValid;
  here = record { above = []; holds = empty_stack-Holds; current = refl; outside = refl };
  nested = refl;
}

free_writer-Owned_example :
    (ps : List (Piece (Unit {0}))) × (free_writer (some fresh) ≡ ok ps tt)
    × Owned [] fresh.state_stack fresh.state (buffer ∷ []) ps
free_writer-Owned_example =
    free_writer-Owned fresh [] (buffer ∷ []) empty_stack-Holds (owns_buffer [] none)

-- The state within a list, where 65536 is refused.
abbrev in_list : Writer (Unit {0})
in_list = record fresh { state = record { state = list; columns = 0; column = 0 } }

list_allows : allow_atomic in_list.state.state ≡ true
unfolding allow_atomic
list_allows = refl

add_float16-out_of_range_example :
    add_float16 desktop 0x47800000 in_list ≡ err err_invalid_data in_list
add_float16-out_of_range_example =
    add_float16-out_of_range desktop 0x47800000 in_list (omega arith) (omega arith) list_allows

put-Wrote_example :
    (w : Writer (Unit {0})) × (put desktop (1 ∷ 2 ∷ 3 ∷ []) fresh ≡ ok tt w)
    × Wrote fresh (1 ∷ 2 ∷ 3 ∷ []) w
put-Wrote_example =
    put-Wrote desktop fresh (1 ∷ 2 ∷ 3 ∷ []) desktop-Grants fresh-IsValid (omega arith)

perform-Succeeds_example : Succeeds desktop list_opens fresh (root, [])
unfolding memory_bytes low_bytes allow_container
perform-Succeeds_example =
    perform-Succeeds desktop desktop-Grants fresh (root, []) fresh-Stands list_opens tt
      (omega arith) refl

perform-Admits_example : Succeeds desktop list_opens fresh (root, [])
unfolding memory_bytes low_bytes
perform-Admits_example =
    perform-Admits desktop list_opens fresh (root, []) desktop-Grants fresh-Stands tt (omega arith)
      document

-- A writer where a map waits for a key.
abbrev at_map : Writer (Unit {0})
at_map = record fresh { state = record { state = dict_key; columns = 0; column = 0 } }

list_as_key : ¬ Admits list_opens at_map.state
list_as_key a = elim a [ ]

-- A list is no key.
perform-refused_example : perform desktop list_opens at_map ≡ err err_type_misplaced at_map
perform-refused_example = perform-refused desktop list_opens at_map tt list_as_key

-- A list with a number and a string.
abbrev pub calls : List Call
calls = list_opens ∷ adds (int32 7) ∷ adds (string_u8 (65 ∷ 66 ∷ []) 2) ∷ list_closes ∷ []

pub calls-AllFit : AllFit calls
calls-AllFit =
    (tt, (omega arith, ((omega arith, omega arith, (omega arith, (omega arith, tt))), (tt, tt))))

run-Ran_example : Ran desktop calls fresh (root, [])
unfolding memory_bytes low_bytes array_bytes uint32_swap
run-Ran_example =
    run-Ran desktop desktop-Grants calls fresh (root, []) calls-AllFit fresh-Stands (omega arith)

new_memory_writer-Done_example :
    (w : Writer (Unit {0})) × (new_memory_writer desktop ≡ ok w tt)
    × Stands w (root, [])
    × (contents w ≡ header_bytes)
    × (w.bytes ≡ 7)
new_memory_writer-Done_example = new_memory_writer-Done desktop desktop-Grants

-- A map that waits for a key.
abbrev pub at_key : State
at_key = record { state = dict_key; columns = 0; column = 0 }

state_switch-At_example :
    Follows true
      (state_switch desktop atomic_found (at_key, some empty_stack))
      (after atomic_found (dict_key, []))
state_switch-At_example =
    state_switch-At desktop desktop-Grants atomic_found (at_key, some empty_stack) (dict_key, [])
      (record { above = []; holds = empty_stack-Holds; current = refl; outside = refl })

abbrev one_pushed : Stack State
one_pushed = record { stack = some (some at_key ∷ []); size = 1; items = 1; destroy = true }

one_pushed-Holds : Holds true (some one_pushed) (at_key ∷ [])
unfolding slot
one_pushed-Holds =
    holds one_pushed refl
      (record { sized = refl; within = omega arith; destroys = refl; view = refl })

push-Holds_example : Holds true (push desktop (some one_pushed) at_key) (at_key ∷ at_key ∷ [])
push-Holds_example =
    push-Holds desktop (some one_pushed) at_key (at_key ∷ []) desktop-Grants one_pushed-Holds

pop-Pops_example : Pops true (at_key ∷ []) (pop (some one_pushed))
pop-Pops_example = pop-Pops (some one_pushed) (at_key ∷ []) one_pushed-Holds

clear_stack-Clears_example : Clears (at_key ∷ []) (clear_stack (some one_pushed))
clear_stack-Clears_example = clear_stack-Clears (some one_pushed) (at_key ∷ []) one_pushed-Holds

-- A table of three columns, at its first cell.
abbrev three_columns : State
three_columns = record { state = table_values; columns = 3; column = 0 }

cells-InRow_example : InRow (cells 7 three_columns) 3 7
cells-InRow_example = cells-InRow 7 three_columns (omega arith) (omega arith) refl

memory_bytes-uint16_swap_example : memory_bytes big 2 (uint16_swap big 0x0102) ≡ low_bytes 2 0x0102
memory_bytes-uint16_swap_example = memory_bytes-uint16_swap big 0x0102

memory_bytes-uint32_swap_example :
    memory_bytes big 4 (uint32_swap big 0x01020304) ≡ low_bytes 4 0x01020304
memory_bytes-uint32_swap_example = memory_bytes-uint32_swap big 0x01020304

memory_bytes-uint64_swap_example :
    memory_bytes big 8 (uint64_swap big 0x0102030405060708) ≡ low_bytes 8 0x0102030405060708
memory_bytes-uint64_swap_example = memory_bytes-uint64_swap big 0x0102030405060708

uint64_swap-from_memory_example :
    uint64_swap big (from_memory big (low_bytes 8 0x0102030405060708)) ≡ 0x0102030405060708
uint64_swap-from_memory_example = uint64_swap-from_memory big 0x0102030405060708 (omega arith)
