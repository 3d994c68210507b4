-- ===== src/Call/RoundTrip.antt =====
-- A document that src/ujo_writer.c wrote into memory, read by src/ujo_reader.c from that memory.
use mathlib.Core.Path.{subst}
use libujo_c.Base.{
  ℕ, ◌+◌, ◌^◌, ◌≤◌, ◌<◌, ◌≡◌, refl, sym, ap, ◌∙◌, true, List, [], ◌++◌, map, Option, none, some,
  arith, length, take, length-take, le→ltb,
}
use libujo_c.Base.Result.{M, ok, ◌>>◌}
use libujo_c.Types.{memory_access}
use libujo_c.Platform.{Platform, Grants}
use libujo_c.Stack
use libujo_c.Stack.{Stack}
use libujo_c.Stack.Laws.{new_stack-Holds, clear_stack-Clears}
use libujo_c.State.{root, closed, new_state, state_size}
use libujo_c.State.Shape.{Shape}
use libujo_c.Writer.{Writer, new_memory_writer}
use libujo_c.Writer.Put.{contents}
use libujo_c.Writer.Entry.{Stands}
use libujo_c.Reader.{
  Reader, new_memory_reader, new_reader, set_on_element, set_buffer, copy_buffer, cleared,
  reader_size,
}
use libujo_c.Reader.Next.{parse}
use libujo_c.Reader.Input.{Reads, Parses}
use libujo_c.Call.{Call, seen}
use libujo_c.Call.Run.{AllFit, all_bytes, PathOf, run, Ran, ended, stopped, run-Ran}
use libujo_c.Call.Document.{header_bytes, new_memory_writer-Done, IsSmall}
use libujo_c.Call.Parse.{Callback, hand, Accepts, parse-delivers}

module _ {File Client : Type 0} (p : Platform File) where
  -- A client of the reader: a new reader gets a callback and a document, and parses it.
  abbrev pub read_document :
      ℕ → Callback Client → Option Client → List ℕ → ℕ → M (Reader File Client) (Unit {0})
  read_document fuel f d buffer bytes =
      set_on_element (some f) d >> (set_buffer p (some buffer) bytes >> parse p fuel)

  -- The reader that `ujo_new_memory_reader` returns.
  abbrev pub idle : Reader File Client
  idle = record {
    type = memory_access;
    state_stack = Stack.new_stack p true;
    state = record { state = root; columns = 0; column = 0 };
    magic_code = cleared 4;
    version = 0;
    compression = 0;
    buffersize = 0;
    buffer = none;
    parsed = 0;
    file = none;
    on_element = none;
    on_element_data = none;
  }

module _ {File Client : Type 0} (p : Platform File) (g : Grants p) (f : Callback Client)
    (d : Option Client) where
  pub new_memory_reader-idle : new_memory_reader {Client = Client} p ≡ ok (idle p) tt
  unfolding new_memory_reader new_reader new_state
  new_memory_reader-idle = rw (g reader_size, g state_size) refl

  -- The reader with the callback and a copy of the buffer.
  abbrev pub loaded : List ℕ → ℕ → Reader File Client
  loaded buffer bytes = record (idle p) {
    on_element = some f;
    on_element_data = d;
    buffer = some (take bytes buffer);
    buffersize = bytes;
    parsed = 0;
    state_stack = (Stack.clear_stack (Stack.new_stack p true)).1;
  }

  pub loads :
      (buffer : List ℕ) (bytes : ℕ) (k : M (Reader File Client) (Unit {0}))
      → bytes ≤ length buffer
      → (set_on_element (some f) d >> (set_buffer p (some buffer) bytes >> k)) (idle p)
        ≡ k (loaded buffer bytes)
  unfolding set_on_element set_buffer copy_buffer
  loads buffer bytes k h = rw (g bytes, le→ltb (length buffer) bytes h) refl

  pub loaded-Reads :
      (buffer : List ℕ) (bytes : ℕ)
      → bytes ≤ length buffer
      → bytes < 2 ^ 64
      → Reads (some f) d (loaded buffer bytes) (take bytes buffer) (root, [])
  loaded-Reads buffer bytes h small = record {
    memory = refl;
    block = take bytes buffer;
    in_block = refl;
    ahead = refl;
    within = omega arith;
    small = omega (arith, length-take bytes buffer h);
    here = record {
      above = [];
      holds = (clear_stack-Clears (Stack.new_stack p true) [] (new_stack-Holds p true g)).1;
      current = refl;
      outside = refl;
    };
    handler = refl;
    data_is = refl;
  }

module _ {File : Type 0} (p : Platform File) (g : Grants p) where
  -- What a new writer holds after calls that all succeeded.
  pub record Document (cs : List Call) (w : Writer File) : Type 0 where
    pub to : Shape
    pub path : PathOf cs (root, []) to
    pub stands : Stands w to
    pub holds_all : contents w ≡ header_bytes ++ all_bytes p.order cs
    pub size : w.bytes ≡ 7 + length (all_bytes p.order cs)

  Ran-Document :
      (cs : List Call) (w w' : Writer File)
      → contents w ≡ header_bytes
      → w.bytes ≡ 7
      → run p cs w ≡ ok tt w'
      → Ran p cs w (root, [])
      → Document cs w'
  Ran-Document cs w w' c n r (stopped before b rest to v split e refuses path done) = cc
  Ran-Document cs w w' c n r (ended to v e path done) = subst (Document cs) same (record {
    to = to;
    path = path;
    stands = done.stands;
    holds_all = done.written ∙ ap (λ xs. xs ++ all_bytes p.order cs) c;
    size = done.count ∙ ap (λ k. k + length (all_bytes p.order cs)) n;
  })
    where
      same : v ≡ w'
      same = cc

  pub run-Document :
      (cs : List Call) (w w' : Writer File)
      → AllFit cs
      → IsSmall p g cs
      → new_memory_writer p ≡ ok w tt
      → run p cs w ≡ ok tt w'
      → Document cs w'
  run-Document cs w w' fits small new r =
      let (v, e, s, c, n) = new_memory_writer-Done p g in
      let same : v ≡ w = cc in
      let c' : contents w ≡ header_bytes = ap contents (sym same) ∙ c in
      let n' : w.bytes ≡ 7 = ap (λ u. u.bytes) (sym same) ∙ n in
      Ran-Document cs w w' c' n' r (
        run-Ran p g cs w (root, []) fits (subst (λ u. Stands u (root, [])) same s)
          (omega (arith, small, n')))

  -- The reader that the buffer of a whole document was given to reads it to its end.
  pub loaded-Parses :
      {Client : Type 0} (f : Callback Client) (d : Option Client) (cs : List Call) (fuel : ℕ)
      (w : Writer File)
      → Accepts f
      → AllFit cs
      → IsSmall p g cs
      → (doc : Document cs w) → w.state.state ≡ closed
      → length cs ≤ fuel
      → Parses
          (some f)
          (hand f (map seen cs) d)
          (parse p fuel)
          (loaded p g f d w.buffer w.bytes)
          tt
          []
          doc.to
  loaded-Parses f d cs fuel w accepts fits small doc over enough =
      let within : w.bytes ≤ length w.buffer =
        omega (arith, doc.stands.valid.sized, doc.stands.valid.within) in
      parse-delivers p g f accepts cs fuel d (loaded p g f d w.buffer w.bytes) (root, []) doc.to
        fits enough
        (subst (λ xs. Reads (some f) d (loaded p g f d w.buffer w.bytes) xs (root, []))
          doc.holds_all
          (loaded-Reads p g f d w.buffer w.bytes within (omega (arith, doc.size, small))))
        doc.path (sym doc.stands.here.current ∙ over)

  -- A document is read back, on a platform of either byte order whose allocator serves every
  -- request: if calls with arguments of their C types, on a new memory writer, all succeed and
  -- close the document, and its size stays within a size_t, then a new memory reader that gets a
  -- callback that returns no error and the writer's buffer, with fuel for each call, parses the
  -- document without an error and hands the callback the element of each call, in order.
  pub round_trip :
      {Client : Type 0} (f : Callback Client) (d : Option Client) (cs : List Call) (fuel : ℕ)
      (w w' : Writer File)
      → Accepts f
      → AllFit cs
      → IsSmall p g cs
      → new_memory_writer p ≡ ok w tt
      → run p cs w ≡ ok tt w'
      → w'.state.state ≡ closed
      → length cs ≤ fuel
      → (r r' : Reader File Client) × (new_memory_reader p ≡ ok r tt)
        × (read_document p fuel f d w'.buffer w'.bytes r ≡ ok tt r')
        × (r'.on_element_data ≡ hand f (map seen cs) d)
  round_trip f d cs fuel w w' accepts fits small new r over enough =
      let doc = run-Document cs w w' fits small new r in
      let (r1, e, reads) = loaded-Parses f d cs fuel w' accepts fits small doc over enough in
      (
        idle p,
        r1,
        new_memory_reader-idle p g f d,
        loads p g f d w'.buffer w'.bytes (parse p fuel)
              (omega (arith, doc.stands.valid.sized, doc.stands.valid.within))
            ∙ e,
        reads.data_is,
      )
