-- ===== src/Lib.antt =====
-- Verification of LibUjo, a C library that writes and reads documents of typed values in the Ujo
-- binary format (src/ of the repository).
--
-- A writer appends a header and then typed values and containers (lists, maps, tables) to a buffer
-- or a file. It keeps a document state, and a stack of the states that enclose it, and refuses a
-- value where the state does not allow it. A reader checks the header and turns the bytes into
-- elements one at a time, with the same state functions; `ujo_reader_parse` hands each element to a
-- callback. Integers are swapped on big-endian platforms; half-precision floats are converted by
-- tables.
--
-- Files:
-- - Base, Base/Tests, Base/Lists, Base/Result: Boolean tests, lists, and the result type of a C
--   call: a value, an error code, or undefined behaviour, with the state of the object
-- - Platform: the byte order, the C allocator and the C file functions, which are not in the
--   repository and so are parameters
-- - Types: src/ujo_constants.h, src/ujo_errors.h and src/ujo_types.h
-- - Stack (src/ujo_stack.c): `ujo_stack_push` is `Stack.push` and so on; Stack/View and
--   Stack/Laws relate it to a list
-- - State (src/ujo_state.c): `ujo_state_switch` is `state_switch` and so on; State/Shape is the
--   abstract view, nested positions without counters; State/Refine relates the two;
--   State/Columns is about the column counter; State/Same about comparison
-- - Words (src/ujo_endian.h): swaps and the bytes of an integer in memory; Words/Bits,
--   Words/Masks, Words/Swap and Words/Bytes are about them
-- - Half (src/ujo_float.c), with the tables in Half/Narrow and Half/Widen; Half/Tables gives the
--   entries by formulas, Half/Units the numbers that IEEE 754 lets bit patterns stand for;
--   Half/Narrowing and Half/Truncation are about `float_to_half`, Half/Exact about
--   `half_to_float`, Half/RoundTrip about both, Half/Range about `isinf_float16`
-- - Writer, Writer/Values, Writer/Texts (src/ujo_writer.c): `ujo_writer_list_open` is
--   `list_open`, `_ujo_writer_put` is `put`, and so on; Writer/Put, Writer/Entry and
--   Writer/Steps are about the steps that its functions share, Writer/Program has its functions
--   as programs over a few steps, and Writer/Range is about numbers too large for a half,
--   Writer/Keep is about puts into a buffer of any size, Writer/Refuse about puts where the
--   allocator refuses a request, and Writer/Simulate compares a file writer with a memory writer
-- - Reader, Reader/Values, Reader/Next and Element (src/ujo_reader.c): the reader, one function
--   per type, the scan and the parse loop, and the getters of elements; Reader/Input is about
--   reading known bytes; Reader/Program has the functions as programs over a few steps, on which
--   Reader/Ends (any bytes), Reader/Simulate, Reader/Truncate (a buffer cut short),
--   Reader/Stream (a file in place of a buffer) and Reader/ShortFile (a file that ends too
--   early) rest; Element/Kinds and Reader/Kinds are about the members of the union
-- - Release (src/ujo_stack.c, src/ujo_writer.c, src/ujo_reader.c): `ujo_free_stack` is
--   `free_stack` and so on; Release/Pieces is about what is freed, and in which
--   order
-- - Call: the calls of a client of the writer as data. Call/Effect says what each is to write,
--   when it is refused, and where it leads; Call/Encode, Call/Containers and Call/Writes are
--   about one call, Call/Grammar about where the format lets a call stand, Call/Run about a
--   sequence of calls, Call/Document about a new writer;
--   Call/Decode, Call/DecodeValues, Call/DecodeTexts and Call/DecodeItem are about reading one
--   value, Call/Scan about reading one element, Call/Header about the header, Call/Parse about
--   the loop, Call/RoundTrip about a document written and read, Call/Callback about a callback
--   that returns errors, Call/Portable about two byte orders, Call/BadHeader, Call/UnknownType,
--   Call/Unopened, Call/Truncated and Call/ShortFile about documents that are no good or cut
--   short, Call/Mirror, Call/ToFile, Call/ShortWrites and Call/FromFile about files;
--   Call/Programs has the calls as programs, Call/Keep is about values added where the allocator
--   refuses; Call/Reach, Call/Rows, Call/Levels and Call/Closable are about the way from any place of a document to
--   its end
-- - Log (src/ujo_log.c) and Log/Pieces: what `log_print` prints; Version (src/ujo.c):
--   `ujo_get_version`
-- - Tests, Tests/RoundTrip, Tests/Files, Tests/Errors, Tests/Platforms, Tests/Closing,
--   Tests/Printing, Tests/Disk, Half/Tests: examples
--
-- Numbers are natural numbers with the wrap-around of C written out, except for the counters of a
-- stack: they are of type int, and overflow with more than INT_MAX enclosing containers. Floats are
-- bit patterns. A NULL pointer that the code follows, and an access behind a buffer, is `fault`. The state objects that
-- the C code shares between the handle and the stack are each reached from one place only, and are
-- values here. The loop of `ujo_reader_parse` takes fuel, one unit for each element: one for
-- each byte of the buffer is enough for any bytes, since an element takes a byte at least, and one for each
-- call is enough for a document that these calls wrote.
--
-- The allocator answers by the size of a request alone, so two requests of the same size get the same
-- answer, and one that fails for a while is not modelled.
--
-- Not modelled: the wrappers of `calloc` and `free`, the messages that the checks pass to the log, and
-- the checks of a NULL handle at the head of the functions that write and read. Most theorems on the
-- writer assume an allocator that serves every request; those on files assume that `fwrite` appends
-- what it says and that `fread` reads all that it is asked for up to the end of the file.
pub mod Base
pub mod Call
pub mod Element
pub mod Half
pub mod Log
pub mod Platform
pub mod Reader
pub mod Release
pub mod Stack
pub mod State
pub mod Tests
pub mod Types
pub mod Version
pub mod Words
pub mod Writer
