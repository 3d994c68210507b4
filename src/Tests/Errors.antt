-- ===== src/Tests/Errors.antt =====
-- Examples: documents whose reading ends in an error.
use mathlib.Core.Path.{subst}
use libujo_c.Base.{
  false, ◌∷◌, ◌++◌, inl, List, map, ◌≡◌, refl, sym, ap, ◌∙◌, [], none, some, arith, ℕ, ◌+◌, length,
  take, drop, length-drop, take-all, ltb,
}
use libujo_c.Base.Result.{ok, err, fault, ◌>>◌}
use libujo_c.Stack.{new_stack, push, pop, slot, enlarge, reserve, write_slot, store}
use libujo_c.State.{
  closed, list, new_state, same_state, enumerator, allow_atomic, allow_container, allow_string,
  state_next, state_prev, state_switch, closing, reopen, atomic_switch, string_switch,
  closed_switch,
}
use libujo_c.Words.{low_bytes, memory_bytes, uint16_swap, uint32_swap}
use libujo_c.Writer.{
  Writer, new_memory_writer, new_writer, start, header, finished, zeros, put, put_by, put_memory,
  make_room, append, copy_at, put_uint8, put_uint16, list_open, list_close,
}
use libujo_c.Writer.Values.{add_int32}
use libujo_c.Writer.Texts.{add_string_u8, put_units, put_array, array_bytes}
use libujo_c.Platform.{Platform, Grants, little}
use libujo_c.Types.{magic, terminator, err_file, err_invalid_data}
use libujo_c.Writer.Put.{contents, IsValid}
use libujo_c.Reader.{Reader, new_memory_reader, new_file_reader, set_on_element}
use libujo_c.Reader.Next.{parse}
use libujo_c.Reader.Stream.{Holds}
use libujo_c.Reader.ShortFile.{Ends}
use libujo_c.Call.Run.{run, all_bytes}
use libujo_c.Call.Document.{header_bytes, IsSmall}
use libujo_c.Call.Unopened.{terminator-faults}
use libujo_c.Call.ShortFile.{short_file-fails}
use libujo_c.Call.{Call, Item, adds, int8, int32, list_opens, seen}
use libujo_c.Call.BadHeader.{read_document-refused}
use libujo_c.Call.UnknownType.{unknown_type-fails}
use libujo_c.Call.Parse.{Callback, hand}
use libujo_c.Call.RoundTrip.{read_document}
use libujo_c.Call.Callback.{deliver, returned, round_trip-callback}
use libujo_c.Call.Keep.{Fills, run-Fills}
use libujo_c.Tests.{desktop, fresh, desktop-Grants, calls, calls-AllFit}
use libujo_c.Tests.Files.{disk_of, disk_of-Holds, document, writer_of, state_of}
use libujo_c.Tests.RoundTrip.{
  counts, counts-Accepts, started, written, started_lem, written_lem, written-closed, calls-IsSmall,
}

-- A callback that refuses the second element.
abbrev stops : Callback ℕ
stops v none = (0, some 1)
stops v (some n) = (5, some (n + 1))

round_trip-callback_example :
    (r r' : Reader (Unit {0}) ℕ) × (new_memory_reader desktop ≡ ok r tt)
    × (read_document desktop 4 stops none written.buffer written.bytes r
        ≡ returned (deliver stops (map seen calls) none).0 r')
    × (r'.on_element_data ≡ (deliver stops (map seen calls) none).1)
round_trip-callback_example =
    round_trip-callback desktop desktop-Grants stops none calls 4 started written calls-AllFit
      calls-IsSmall started_lem written_lem written-closed (omega arith)

-- A file that holds the document without its last byte.
abbrev beginning : List ℕ
beginning = take 21 document

abbrev short_disk : Platform ℕ
short_disk = disk_of beginning

short_disk-Grants : Grants short_disk
short_disk-Grants n = refl

short_disk-Ends : Ends short_disk 21 (λ i. i)
short_disk-Ends = record {
  rest = λ i k inside more.
      ap length (take-all k (drop i beginning) (omega (arith, length-drop i beginning)))
      ∙ length-drop i beginning;
}

abbrev begun : Writer ℕ
begun = writer_of (new_memory_writer short_disk)

abbrev filled : Writer ℕ
filled = state_of (run short_disk calls begun)

begun_lem : new_memory_writer short_disk ≡ ok begun tt
unfolding new_memory_writer new_writer start header finished zeros put put_by put_memory make_room
    append copy_at put_uint8 put_uint16 low_bytes memory_bytes uint16_swap new_state
begun_lem = refl

filled_lem :
    (run short_disk calls begun ≡ ok tt filled)
    × (filled.state.state ≡ closed)
    × (take 21 filled.buffer ≡ beginning)
    × (filled.bytes ≡ 22)
unfolding new_memory_writer new_writer start header finished zeros put put_by put_memory make_room
    append copy_at put_uint8 put_uint16 low_bytes memory_bytes uint16_swap uint32_swap list_open
    list_close add_int32 add_string_u8 put_units put_array array_bytes new_state same_state
    enumerator allow_atomic allow_container allow_string state_next state_prev state_switch closing
    reopen atomic_switch string_switch closed_switch new_stack push pop slot enlarge reserve
    write_slot store
filled_lem = (refl, refl, refl, refl)

filled-IsSmall : IsSmall short_disk short_disk-Grants calls
unfolding memory_bytes low_bytes array_bytes uint32_swap
filled-IsSmall = omega arith

short_file-fails_example :
    (r r' : Reader ℕ ℕ) × (new_file_reader short_disk [] ≡ ok r tt)
    × ((set_on_element (some counts) none >> parse short_disk 22) r ≡ err err_file r')
short_file-fails_example =
    short_file-fails short_disk short_disk-Grants counts none calls 22 21 begun filled [] (λ i. i)
      counts-Accepts calls-AllFit filled-IsSmall begun_lem filled_lem.0 filled_lem.1
      (omega (arith, filled_lem.3)) (omega (arith, filled_lem.3)) refl
      (subst (λ ys. Holds short_disk ys (λ i. i)) (sym filled_lem.2) (disk_of-Holds beginning))
      short_disk-Ends

-- A platform that refuses every request for a block of 1024 bytes or more.
abbrev tight : Platform (Unit {0})
tight = record desktop { grants = λ n. ltb n 1024 }

-- A writer in a list whose buffer of 8 bytes is full up to the last three.
abbrev nearly_full : Writer (Unit {0})
nearly_full = record fresh {
  state = record { state = list; columns = 0; column = 0 };
  buffersize = 8;
  buffer = 1 ∷ 2 ∷ 3 ∷ 4 ∷ 5 ∷ 0xCD ∷ 0xCD ∷ 0xCD ∷ [];
  bytes = 5;
}

nearly_full-IsValid : IsValid nearly_full
nearly_full-IsValid = record {
  memory = refl;
  sized = refl;
  within = omega arith;
  lean = omega arith;
}

-- The first value fits, the second needs a larger buffer, which is refused.
abbrev two_items : List Item
two_items = int8 7 ∷ int32 9 ∷ []

run-Fills_example :
    Fills tight nearly_full
      (all_bytes little (map adds two_items))
      (run tight (map adds two_items) nearly_full)
unfolding memory_bytes low_bytes uint32_swap
run-Fills_example =
    run-Fills tight two_items nearly_full (omega arith, (omega arith, tt)) nearly_full-IsValid
      (inl refl) (omega arith)

-- A block with a wrong magic code.
abbrev wrong_code : List ℕ
wrong_code = 0x5F ∷ 0x55 ∷ 0x4A ∷ 0x50 ∷ []

-- The version is right.
abbrev version_one : List ℕ
version_one = 1 ∷ 0 ∷ []

wrong_code-differs : ¬ ((wrong_code ≡ magic) × (version_one ≡ 1 ∷ 0 ∷ []))
wrong_code-differs (e, e') = omega (arith, ap fourth e)
  where
    fourth : List ℕ → ℕ
    fourth (a ∷ b ∷ c ∷ x ∷ xs) = x
    fourth _ = 0

read_document-refused_example :
    (r r' : Reader (Unit {0}) ℕ) × (new_memory_reader desktop ≡ ok r tt)
    × (read_document desktop 4 counts none (wrong_code ++ (version_one ++ (0 ∷ []))) 7 r
        ≡ err err_invalid_data r')
    × (r'.on_element_data ≡ none)
read_document-refused_example =
    read_document-refused desktop desktop-Grants counts none wrong_code version_one (0 ∷ []) 4 refl
      refl (omega arith, (omega arith, tt)) (omega arith) wrong_code-differs

-- A list that is still open.
abbrev opened : List Call
opened = list_opens ∷ adds (int32 7) ∷ []

abbrev half_written : Writer (Unit {0})
half_written = state_of (run desktop opened started)

half_written_lem :
    (run desktop opened started ≡ ok tt half_written)
    × (same_state half_written.state.state closed ≡ false)
    × (length (contents half_written ++ 0x20 ∷ []) ≡ 14)
unfolding new_memory_writer new_writer start header finished zeros put put_by put_memory make_room
    append copy_at put_uint8 put_uint16 low_bytes memory_bytes uint16_swap uint32_swap list_open
    add_int32 new_state same_state enumerator allow_atomic allow_container state_next state_prev
    state_switch closing reopen atomic_switch new_stack push pop slot enlarge reserve write_slot
    store
half_written_lem = (refl, refl, refl)

opened-IsSmall : IsSmall desktop desktop-Grants opened
unfolding memory_bytes low_bytes uint32_swap
opened-IsSmall = omega arith

unknown_type-fails_example :
    (r r' : Reader (Unit {0}) ℕ) × (new_memory_reader desktop ≡ ok r tt)
    × (read_document desktop 4 counts none
          (contents half_written ++ 0x20 ∷ [])
          (length (contents half_written ++ 0x20 ∷ []))
          r
        ≡ err err_invalid_data r')
    × (r'.on_element_data ≡ hand counts (map seen opened) none)
unknown_type-fails_example =
    unknown_type-fails desktop desktop-Grants counts none opened 4 0x20 [] started half_written
      counts-Accepts (tt, (omega arith, tt)) opened-IsSmall started_lem half_written_lem.0
      half_written_lem.1 (omega arith) (omega arith, inl (omega arith))
      (omega (arith, half_written_lem.2))

terminator-faults_example :
    (r : Reader (Unit {0}) ℕ) × (new_memory_reader desktop ≡ ok r tt)
    × (read_document desktop 9 counts none (header_bytes ++ terminator ∷ 7 ∷ []) 9 r ≡ fault)
terminator-faults_example =
    terminator-faults desktop desktop-Grants counts none (7 ∷ []) 9 (omega arith)
