-- ===== src/Tests/Platforms.antt =====
-- Examples: a document that moves between platforms.
use libujo_c.Base.{List, [], ◌∷◌, ◌≡◌, ℕ, refl, map, none, arith}
use libujo_c.Base.Result.{ok}
use libujo_c.Stack.{new_stack, push, pop, slot, enlarge, reserve, write_slot, store}
use libujo_c.State.{
  closed, new_state, same_state, enumerator, allow_atomic, allow_container, state_next, state_prev,
  state_switch, closing, reopen, atomic_switch, closed_switch,
}
use libujo_c.Words.{low_bytes, memory_bytes, uint16_swap, uint32_swap}
use libujo_c.Writer.{
  Writer, new_memory_writer, new_writer, start, header, finished, zeros, put_uint16, put, put_by,
  put_memory, make_room, append, copy_at, put_uint8, list_open, list_close,
}
use libujo_c.Writer.Values.{add_int32}
use libujo_c.Platform.{Platform, big, Grants}
use libujo_c.Reader.{Reader, new_memory_reader}
use libujo_c.Call.{Call, adds, int32, list_opens, list_closes, seen}
use libujo_c.Call.Run.{run, AllFit}
use libujo_c.Call.Document.{IsSmall}
use libujo_c.Call.Parse.{hand}
use libujo_c.Call.RoundTrip.{read_document}
use libujo_c.Call.Portable.{round_trip-portable}
use libujo_c.Tests.{desktop, desktop-Grants}
use libujo_c.Tests.RoundTrip.{counts, counts-Accepts, started, started_lem, state_of}

-- A platform that stores the highest byte first.
abbrev mainframe : Platform (Unit {0})
mainframe = record desktop { order = big }

mainframe-Grants : Grants mainframe
mainframe-Grants n = refl

abbrev numbers : List Call
numbers = list_opens ∷ adds (int32 7) ∷ adds (int32 0xFFFFFF00) ∷ list_closes ∷ []

numbers-AllFit : AllFit numbers
numbers-AllFit = (tt, (omega arith, (omega arith, (tt, tt))))

abbrev written : Writer (Unit {0})
written = state_of (run desktop numbers started)

written_lem : (run desktop numbers started ≡ ok tt written) × (written.state.state ≡ closed)
unfolding new_memory_writer new_writer start header finished zeros put_uint16 uint16_swap put put_by
    put_memory make_room append copy_at put_uint8 low_bytes memory_bytes uint32_swap list_open
    list_close add_int32 new_state same_state enumerator allow_atomic allow_container state_next
    state_prev state_switch closing reopen atomic_switch closed_switch new_stack push pop slot
    enlarge reserve write_slot store
written_lem = (refl, refl)

numbers-IsSmall : IsSmall desktop desktop-Grants numbers
unfolding memory_bytes low_bytes uint32_swap
numbers-IsSmall = omega arith

round_trip-portable_example :
    (r r' : Reader (Unit {0}) ℕ) × (new_memory_reader mainframe ≡ ok r tt)
    × (read_document mainframe 4 counts none written.buffer written.bytes r ≡ ok tt r')
    × (r'.on_element_data ≡ hand counts (map seen numbers) none)
round_trip-portable_example =
    round_trip-portable desktop desktop-Grants mainframe mainframe-Grants counts none numbers 4
      started written counts-Accepts numbers-AllFit (tt, (refl, (refl, (tt, tt)))) numbers-IsSmall
      started_lem written_lem.0 written_lem.1 (omega arith)
