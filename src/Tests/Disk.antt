-- ===== src/Tests/Disk.antt =====
-- Examples: a file with a limit.
use libujo_c.Base.{
  true, List, [], ◌++◌, ℕ, ◌-◌, ◌≤◌, ◌≡◌, refl, sym, some, arith, length, ltb, if◌then◌else◌, take,
}
use libujo_c.Base.Result.{ok}
use libujo_c.Stack.{new_stack, push, pop, slot, enlarge, reserve, write_slot, store}
use libujo_c.State.{
  new_state, same_state, enumerator, allow_atomic, allow_container, allow_string, state_next,
  state_prev, state_switch, closing, reopen, atomic_switch, string_switch, closed_switch,
}
use libujo_c.Words.{low_bytes, memory_bytes, uint16_swap, uint32_swap}
use libujo_c.Writer.{
  Writer, new_file_writer, new_writer, start, header, finished, zeros, put, put_by, write_file,
  put_uint8, put_uint16, list_open, list_close,
}
use libujo_c.Writer.Simulate.{Counts}
use libujo_c.Writer.Values.{add_int32}
use libujo_c.Writer.Texts.{add_string_u8, put_units, put_array, array_bytes}
use libujo_c.Platform.{Platform, little, Grants}
use libujo_c.Call.Run.{run, all_bytes}
use libujo_c.Call.Document.{IsSmall, header_bytes}
use libujo_c.Call.ShortWrites.{run_complete}
use libujo_c.Tests.{calls, calls-AllFit}
use libujo_c.Tests.Files.{writer_of, state_of}

-- How many of n bytes a file of k bytes takes that has room for 64.
abbrev taken : ℕ → ℕ → ℕ
taken k n = if ltb (64 - k) n then 64 - k else n

taken-le : (k n : ℕ) → taken k n ≤ n
taken-le k n = ground arith

-- A platform whose files end at 64 bytes. A stream is what it holds.
abbrev small_disk : Platform (List ℕ)
small_disk = record {
  order = little;
  grants = λ n. true;
  junk = λ i. 0xCD;
  fopen = λ name write. some [];
  fwrite = λ f xs. (taken (length f) (length xs), f ++ take (taken (length f) (length xs)) xs);
  fread = λ f n. (0, [], f);
}

small_disk-Grants : Grants small_disk
small_disk-Grants n = refl

small_disk-Counts : Counts small_disk (λ xs. xs)
small_disk-Counts = record {
  written = λ xs ys. taken (length xs) (length ys);
  no_more = λ xs ys. taken-le (length xs) (length ys);
  takes = λ xs ys. refl;
}

abbrev begun : Writer (List ℕ)
begun = writer_of (new_file_writer small_disk [])

abbrev filled : Writer (List ℕ)
filled = state_of (run small_disk calls begun)

filled_lem :
    (new_file_writer small_disk [] ≡ ok begun tt) × (run small_disk calls begun ≡ ok tt filled)
unfolding new_file_writer new_writer start header finished zeros put put_by write_file put_uint8
    put_uint16 low_bytes memory_bytes uint16_swap uint32_swap list_open list_close add_int32
    add_string_u8 put_units put_array array_bytes new_state same_state enumerator allow_atomic
    allow_container allow_string state_next state_prev state_switch closing reopen atomic_switch
    string_switch closed_switch new_stack push pop slot enlarge reserve write_slot store
filled_lem = (refl, refl)

calls-IsSmall : IsSmall small_disk small_disk-Grants calls
unfolding memory_bytes low_bytes array_bytes uint32_swap
calls-IsSmall = omega arith

run_complete_example : filled.file ≡ some (header_bytes ++ all_bytes little calls)
run_complete_example =
    run_complete small_disk small_disk-Grants (λ xs. xs) small_disk-Counts calls begun filled []
      calls-AllFit ((λ e. sym e), ((λ e. sym e), ((λ e. sym e), ((λ e. sym e), tt)))) calls-IsSmall
      refl filled_lem.0 filled_lem.1
