-- ===== src/Call/FromFile.antt =====
-- A document that src/ujo_writer.c wrote, read by src/ujo_reader.c from a file.
use mathlib.Core.Path.{subst}
use libujo_c.Base.{
  ℕ, ◌^◌, ◌≤◌, ◌<◌, ◌≡◌, refl, sym, ◌∙◌, false, true, List, [], map, Option, some, arith, length,
  take, length-take,
}
use libujo_c.Base.Result.{ok, ◌>>◌}
use libujo_c.Types.{file_access}
use libujo_c.Platform.{Platform, Grants}
use libujo_c.Stack.Laws.{new_stack-Holds}
use libujo_c.State.{root, closed, new_state, state_size}
use libujo_c.Writer.{Writer, new_memory_writer}
use libujo_c.Reader.{Reader, new_file_reader, new_reader, set_on_element, reader_size}
use libujo_c.Reader.Next.{parse}
use libujo_c.Reader.Input.{Reads}
use libujo_c.Reader.Simulate.{Same}
use libujo_c.Reader.Stream.{Holds, Streamed, parse-stream}
use libujo_c.Call.{Call, seen}
use libujo_c.Call.Run.{AllFit, run}
use libujo_c.Call.Document.{IsSmall}
use libujo_c.Call.Parse.{Callback, hand, Accepts, parse-delivers}
use libujo_c.Call.RoundTrip.{idle, run-Document}

module _ {File Client : Type 0} (p : Platform File) (g : Grants p) (f : Callback Client)
    (d : Option Client) (block : List ℕ) where
  -- The reader of a file, with its callback.
  abbrev pub on_file : File → Reader File Client
  on_file stream = record (idle p) {
    type = file_access;
    file = some stream;
    on_element = some f;
    on_element_data = d;
  }

  -- A reader in the same place that has the bytes in memory.
  abbrev pub in_memory : Reader File Client
  in_memory = record (idle p) {
    buffer = some block;
    buffersize = length block;
    on_element = some f;
    on_element_data = d;
  }

  pub in_memory-Reads : length block < 2 ^ 64 → Reads (some f) d in_memory block (root, [])
  in_memory-Reads small = record {
    memory = refl;
    block = block;
    in_block = refl;
    ahead = refl;
    within = omega arith;
    small = small;
    here = record { above = []; holds = new_stack-Holds p true g; current = refl; outside = refl };
    handler = refl;
    data_is = refl;
  }

  on_file-Same : (at : ℕ → File) → Same (Streamed block at) in_memory (on_file (at 0))
  on_file-Same at = record {
    inputs = record { memory = refl; in_file = refl; whole = refl; stream = refl };
    state = refl;
    state_stack = refl;
    magic_code = refl;
    version = refl;
    compression = refl;
    on_element = refl;
    on_element_data = refl;
  }

opened :
    {File Client : Type 0} (p : Platform File)
    → Grants p
    → (stream : File)
    → new_reader {Client = Client} p file_access (some stream)
      ≡ ok (record (idle p) { type = file_access; file = some stream }) tt
unfolding new_reader new_state
opened p g stream = rw (g reader_size, g state_size) refl

pub new_file_reader-idle :
    {File Client : Type 0} (p : Platform File)
    → Grants p
    → (name : List ℕ) (stream : File) → p.fopen name false ≡ some stream
    → new_file_reader {Client = Client} p name
      ≡ ok (record (idle p) { type = file_access; file = some stream }) tt
unfolding new_file_reader
new_file_reader-idle p g name stream e = rw (new_file_reader, e) (opened p g stream)

module _ {File : Type 0} (p : Platform File) (g : Grants p) where
  -- A document that was written as for the round trip through memory is also read back from a file that
  -- holds its bytes, by a new file reader with a callback that returns no error: it parses the
  -- document without an error and hands the callback the element of each call, in order.
  pub round_trip-file :
      {Client : Type 0} (f : Callback Client) (d : Option Client) (cs : List Call) (fuel : ℕ)
      (w w' : Writer File) (name : List ℕ) (at : ℕ → File)
      → Accepts f
      → AllFit cs
      → IsSmall p g cs
      → new_memory_writer p ≡ ok w tt
      → run p cs w ≡ ok tt w'
      → w'.state.state ≡ closed
      → length cs ≤ fuel
      → p.fopen name false ≡ some (at 0)
      → Holds p (take w'.bytes w'.buffer) at
      → (r r' : Reader File Client) × (new_file_reader p name ≡ ok r tt)
        × ((set_on_element (some f) d >> parse p fuel) r ≡ ok tt r')
        × (r'.on_element_data ≡ hand f (map seen cs) d)
  unfolding set_on_element
  round_trip-file f d cs fuel w w' name at accepts fits small new r over enough opens holds =
      let doc = run-Document p g cs w w' fits small new r in
      let block : List ℕ = take w'.bytes w'.buffer in
      let long : length block ≡ w'.bytes =
        length-take w'.bytes w'.buffer
          (omega (arith, doc.stands.valid.sized, doc.stands.valid.within)) in
      let fits_size : length block < 2 ^ 64 = omega (arith, doc.size, small, long) in
      let (r1, e, reads) =
        parse-delivers p g f accepts cs fuel d (in_memory p g f d block) (root, []) doc.to fits
          enough
          (subst (λ xs. Reads (some f) d (in_memory p g f d block) xs (root, [])) doc.holds_all
            (in_memory-Reads p g f d block fits_size))
          doc.path (sym doc.stands.here.current ∙ over) in
      let (s, read, same) =
        parse-stream p block fits_size at holds fuel (in_memory p g f d block)
          (on_file p g f d block (at 0)) r1 (on_file-Same p g f d block at) e in
      (
        record (idle p) { type = file_access; file = some (at 0) },
        s,
        new_file_reader-idle p g name (at 0) opens,
        read,
        sym same.on_element_data ∙ reads.data_is,
      )
