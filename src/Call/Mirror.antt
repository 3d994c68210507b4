-- ===== src/Call/Mirror.antt =====
-- The calls of src/ujo_writer.c on a file writer beside the same calls on a memory writer.
use libujo_c.Base.{Bool, false, ℕ, ◌≡◌, refl, ap, true, List, [], ◌∷◌, none, some, arith}
use libujo_c.Base.Result.{Result, ok, err, fault, out_of_fuel}
use libujo_c.Types.{memory_access, file_access, default_bufsize}
use libujo_c.Platform.{Platform, Grants}
use libujo_c.Stack
use libujo_c.State.{root, new_state, state_size}
use libujo_c.Writer.{
  Writer, put, header, finished, start, new_writer, new_memory_writer, new_file_writer, writer_size,
  zeros,
}
use libujo_c.Writer.Program.{header-Made}
use libujo_c.Writer.Simulate.{Mirrors, Follows, same_ok, Follows-and_then, Made-Both}
use libujo_c.Call.{Call}
use libujo_c.Call.Programs.{is_reported, perform-Made}
use libujo_c.Call.Run.{run}
use libujo_c.Call.Document.{length-zeros}

module _ {File : Type 0} (p : Platform File) where
  -- The memory writer and the file writer before the header is put.
  abbrev pub empty_memory : Writer File
  empty_memory = record {
    type = memory_access;
    state_stack = Stack.new_stack p true;
    state = record { state = root; columns = 0; column = 0 };
    buffersize = default_bufsize;
    buffer = zeros default_bufsize;
    bytes = 0;
    file = none;
  }

  abbrev pub empty_file : File → Writer File
  empty_file stream = record empty_memory {
    type = file_access;
    buffersize = 0;
    buffer = [];
    file = some stream;
  }

  -- The way back.
  opened : Result (Unit {0}) (Writer File) → Result (Writer File) (Unit {0})
  opened (ok w u) = ok tt w
  opened (err code u) = fault
  opened fault = fault
  opened out_of_fuel = out_of_fuel

  pub finished-ok :
      (r : Result (Writer File) (Unit {0})) (w : Writer File) → finished p r ≡ ok w tt → r ≡ ok tt w
  unfolding finished opened
  finished-ok (ok a v) w e = ap opened e
  finished-ok (err code v) w e = cc
  finished-ok fault w e = cc
  finished-ok out_of_fuel w e = cc

  pub ends_well : (v : Writer File) → finished p (ok tt v) ≡ ok v tt
  unfolding finished
  ends_well v = refl

  pub memory_lem : Grants p → new_memory_writer p ≡ finished p (header p empty_memory)
  unfolding new_memory_writer new_writer start new_state
  memory_lem g = rw (g writer_size, g state_size, g default_bufsize) refl

  started_lem :
      Grants p
      → (stream : File)
      → new_writer p (start p file_access 0 (some stream))
        ≡ finished p (header p (empty_file stream))
  unfolding new_writer start new_state zeros
  started_lem g stream = rw (g writer_size, g state_size) refl

  pub file_lem :
      Grants p
      → (name : List ℕ) (stream : File) → p.fopen name true ≡ some stream
      → new_file_writer p name ≡ finished p (header p (empty_file stream))
  unfolding new_file_writer
  file_lem g name stream e = rw (new_file_writer, e) (started_lem g stream)

-- Calls that may be made: where errors must not be lost, only those that report them.
abbrev pub AllReported : Bool → List Call → Type 0
AllReported loses [] = Unit {0}
AllReported loses (c ∷ cs) = (is_reported c ≡ false → loses ≡ true) × AllReported loses cs

module _ {File : Type 0} (p : Platform File) (stream : List ℕ → File) where
  pub blank-Mirrors : Mirrors stream (empty_memory p) (empty_file p (stream []))
  blank-Mirrors = record {
    memory = refl;
    sized = length-zeros default_bufsize;
    within = omega arith;
    small = omega arith;
    in_file = refl;
    written = refl;
    same_state = refl;
    same_stack = refl;
  }

module _ {File : Type 0} (p : Platform File) (stream : List ℕ → File) (short loses : Bool)
    (put_same : (xs : List ℕ) (w v : Writer File)
      → Mirrors stream w v
      → Follows stream short (put p xs w) (put p xs v))
    (keeps : loses ≡ true → short ≡ false) where
  pub run-Both :
      (cs : List Call) (w v : Writer File)
      → AllReported loses cs
      → Mirrors stream w v
      → Follows stream short (run p cs w) (run p cs v)
  run-Both [] w v l b = same_ok w v b
  run-Both (c ∷ cs) w v l b =
      Follows-and_then stream short (run p cs)
        (Made-Both p stream short loses put_same keeps (perform-Made p loses c l.0) w v b)
        (λ w' v'. run-Both cs w' v' l.1)

  pub header-Both :
      Follows stream short (header p (empty_memory p)) (header p (empty_file p (stream [])))
  header-Both =
      Made-Both p stream short loses put_same keeps (header-Made p loses) (empty_memory p)
        (empty_file p (stream [])) (blank-Mirrors p stream)
