-- ===== src/Tests/Files.antt =====
-- Examples: a document read from a file.
use mathlib.Core.Path.{subst}
use libujo_c.Base.{
  true, List, ℕ, ◌+◌, ◌≤◌, ◌≡◌, refl, sym, [], ◌∷◌, ◌++◌, none, some, arith, map, length, take,
  drop, length-take, length-drop,
}
use libujo_c.Base.Result.{Result, ok, ◌>>◌}
use libujo_c.Stack.{new_stack, push, pop, slot, enlarge, reserve, write_slot, store}
use libujo_c.State.{
  root, closed, new_state, same_state, enumerator, allow_atomic, allow_container, allow_string,
  state_next, state_prev, state_switch, closing, reopen, atomic_switch, string_switch,
  closed_switch,
}
use libujo_c.Words.{low_bytes, memory_bytes, uint16_swap, uint32_swap}
use libujo_c.Writer.{
  Writer, new_file_writer, new_memory_writer, new_writer, start, header, finished, zeros, put,
  put_by, put_memory, make_room, append, copy_at, put_uint8, put_uint16, list_open, list_close,
}
use libujo_c.Writer.Put.{contents}
use libujo_c.Writer.Simulate.{Appends}
use libujo_c.Writer.Values.{add_int32}
use libujo_c.Writer.Texts.{add_string_u8, put_units, put_array, array_bytes}
use libujo_c.Reader.{Reader, new_file_reader, set_on_element}
use libujo_c.Reader.Next.{parse}
use libujo_c.Reader.Stream.{Holds}
use libujo_c.Types.{memory_access}
use libujo_c.Platform.{Platform, little, Grants}
use libujo_c.Call.{seen}
use libujo_c.Call.Run.{run}
use libujo_c.Call.Document.{IsSmall}
use libujo_c.Call.Parse.{hand}
use libujo_c.Call.ToFile.{run-file}
use libujo_c.Call.FromFile.{round_trip-file}
use libujo_c.Tests.{calls, calls-AllFit}
use libujo_c.Tests.RoundTrip.{counts, counts-Accepts}

-- The document of `calls`.
abbrev pub document : List ℕ
document =
    0x5F ∷ 0x55 ∷ 0x4A ∷ 0x4F ∷ 1 ∷ 0 ∷ 0 ∷ 0x30 ∷ 6 ∷ 7 ∷ 0 ∷ 0 ∷ 0 ∷ 4 ∷ 1 ∷ 2 ∷ 0 ∷ 0 ∷ 0 ∷ 65
    ∷ 66 ∷ 0 ∷ []

-- A platform with one file, that holds a block and is only read. A stream is its position.
abbrev pub disk_of : List ℕ → Platform ℕ
disk_of block = record {
  order = little;
  grants = λ n. true;
  junk = λ i. 0xCD;
  fopen = λ name write. some 0;
  fwrite = λ f xs. (0, f);
  fread = λ f n. let bytes = take n (drop f block) in (length bytes, bytes, f + length bytes);
}

pub disk_of-Holds : (block : List ℕ) → Holds (disk_of block) block (λ i. i)
disk_of-Holds block = record { gives = λ i n h. all i n (whole i n h) }
  where
    whole : (i n : ℕ) → i + n ≤ length block → length (take n (drop i block)) ≡ n
    whole i n h = length-take n (drop i block) (omega (arith, length-drop i block))

    all :
        (i n : ℕ)
        → length (take n (drop i block)) ≡ n
        → (disk_of block).fread i n ≡ (n, take n (drop i block), i + n)
    all i n e = rw e refl

abbrev disk : Platform ℕ
disk = disk_of document

disk-Grants : Grants disk
disk-Grants n = refl

-- What stands for a writer where a call gives none.
abbrev blank : {File : Type 0} → Writer File
blank = record {
  type = memory_access;
  state_stack = none;
  state = record { state = root; columns = 0; column = 0 };
  buffersize = 0;
  buffer = [];
  bytes = 0;
  file = none;
}

abbrev pub writer_of : {File : Type 0} → Result (Unit {0}) (Writer File) → Writer File
writer_of (ok w u) = w
writer_of _ = blank

abbrev pub state_of : {File : Type 0} → Result (Writer File) (Unit {0}) → Writer File
state_of (ok u w) = w
state_of _ = blank

abbrev started : Writer ℕ
started = writer_of (new_memory_writer disk)

abbrev written : Writer ℕ
written = state_of (run disk calls started)

started_lem : new_memory_writer disk ≡ ok started tt
unfolding new_memory_writer new_writer start header finished zeros put put_by put_memory make_room
    append copy_at put_uint8 put_uint16 low_bytes memory_bytes uint16_swap new_state
started_lem = refl

written_lem :
    (run disk calls started ≡ ok tt written)
    × (written.state.state ≡ closed)
    × (take written.bytes written.buffer ≡ document)
unfolding new_memory_writer new_writer start header finished zeros put put_by put_memory make_room
    append copy_at put_uint8 put_uint16 low_bytes memory_bytes uint16_swap uint32_swap list_open
    list_close add_int32 add_string_u8 put_units put_array array_bytes new_state same_state
    enumerator allow_atomic allow_container allow_string state_next state_prev state_switch closing
    reopen atomic_switch string_switch closed_switch new_stack push pop slot enlarge reserve
    write_slot store
written_lem = (refl, refl, refl)

calls-IsSmall : IsSmall disk disk-Grants calls
unfolding memory_bytes low_bytes array_bytes uint32_swap
calls-IsSmall = omega arith

round_trip-file_example :
    (r r' : Reader ℕ ℕ) × (new_file_reader disk [] ≡ ok r tt)
    × ((set_on_element (some counts) none >> parse disk 4) r ≡ ok tt r')
    × (r'.on_element_data ≡ hand counts (map seen calls) none)
round_trip-file_example =
    round_trip-file disk disk-Grants counts none calls 4 started written [] (λ i. i) counts-Accepts
      calls-AllFit calls-IsSmall started_lem written_lem.0 written_lem.1 (omega arith) refl
      (subst (λ block. Holds disk block (λ i. i)) (sym written_lem.2) (disk_of-Holds document))

-- A platform with one file that is only written. A stream is what it holds.
abbrev paper : Platform (List ℕ)
paper = record {
  order = little;
  grants = λ n. true;
  junk = λ i. 0xCD;
  fopen = λ name write. some [];
  fwrite = λ f xs. (length xs, f ++ xs);
  fread = λ f n. (0, [], f);
}

paper-Appends : Appends paper (λ xs. xs)
paper-Appends = record { takes = λ xs ys. refl }

abbrev begun : Writer (List ℕ)
begun = writer_of (new_memory_writer paper)

abbrev filled : Writer (List ℕ)
filled = state_of (run paper calls begun)

begun_lem : new_memory_writer paper ≡ ok begun tt
unfolding new_memory_writer new_writer start header finished zeros put put_by put_memory make_room
    append copy_at put_uint8 put_uint16 low_bytes memory_bytes uint16_swap new_state
begun_lem = refl

filled_lem : run paper calls begun ≡ ok tt filled
unfolding new_memory_writer new_writer start header finished zeros put put_by put_memory make_room
    append copy_at put_uint8 put_uint16 low_bytes memory_bytes uint16_swap uint32_swap list_open
    list_close add_int32 add_string_u8 put_units put_array array_bytes new_state same_state
    enumerator allow_atomic allow_container allow_string state_next state_prev state_switch closing
    reopen atomic_switch string_switch closed_switch new_stack push pop slot enlarge reserve
    write_slot store
filled_lem = refl

run-file_example :
    (v v' : Writer (List ℕ)) × (new_file_writer paper [] ≡ ok v tt)
    × (run paper calls v ≡ ok tt v')
    × (v'.file ≡ some (contents filled))
    × (v'.state ≡ filled.state)
run-file_example =
    run-file paper (λ n. refl) (λ xs. xs) paper-Appends calls begun filled [] begun_lem filled_lem
      refl
