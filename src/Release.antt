-- ===== src/Release.antt =====
-- The functions that give back what an object holds: `ujo_free_stack` of src/ujo_stack.c,
-- `ujo_free_writer` of src/ujo_writer.c, and `ujo_free_reader` and `ujo_free_element` of
-- src/ujo_reader.c. What a call gives to `free` or `fclose` is a list, in the order of the calls.
pub mod Pieces
use libujo_c.Base.{
  List, [], ◌∷◌, ◌++◌, map, Option, none, some, ◌==◌, ◌||◌, Bool, false, ℕ, if◌then◌else◌,
}
use libujo_c.Base.Result.{Result, ok, err, fault, and_then}
use libujo_c.Types.{
  AccessType, memory_access, file_access, stream_access, err_invalid_data, type_string, type_bin,
  sub_string_c, sub_string_u8, sub_string_u16, sub_string_u32,
}
use libujo_c.Stack.{Stack, clear_stack}
use libujo_c.State.{State}
use libujo_c.Element.{Element, Value, string_val}
use libujo_c.Writer.{Writer}
use libujo_c.Reader.{Reader}

-- An item of a stack and the stack's array, the structs, a state, a buffer, an open file, and the
-- array of a string or of binary data.
pub data Piece (File : Type 0) : Type 0 where
  item : Option State → Piece File
  slots stack_handle handle buffer array : Piece File
  current : State → Piece File
  open_file : File → Piece File

module _ {File : Type 0} where
  slots_of : Option (List (Option State)) → List (Piece File)
  slots_of none = []
  slots_of (some xs) = slots ∷ []

  array_of : Option (Stack State) → List (Piece File)
  unfolding slots_of
  array_of none = []
  array_of (some s) = slots_of s.stack

  -- `ujo_free_stack`, of a stack of states
  unfoldable pub free_stack : Option (Stack State) → List (Piece File)
  unfolding array_of
  free_stack none = []
  free_stack (some s) =
      let (gone, left) = clear_stack (some s) in
      map item gone ++ (array_of left ++ stack_handle ∷ [])

  -- `free(NULL)` does nothing, `fclose(NULL)` is undefined.
  unfoldable pub free_data :
      AccessType → Option (List ℕ) → Option File → Result (Unit {0}) (List (Piece File))
  free_data memory_access none f = ok [] tt
  free_data memory_access (some b) f = ok (buffer ∷ []) tt
  free_data file_access b none = fault
  free_data file_access b (some f) = ok (open_file f ∷ []) tt
  free_data stream_access b f = ok [] tt

  -- `ujo_free_writer`
  unfoldable pub free_writer : Option (Writer File) → Result (Unit {0}) (List (Piece File))
  unfolding free_stack free_data
  free_writer none = err err_invalid_data tt
  free_writer (some w) =
      and_then (free_data w.type (some w.buffer) w.file)
        λ held u. ok (free_stack w.state_stack ++ current w.state ∷ (held ++ handle ∷ [])) u

module _ {File Client : Type 0} where
  -- `ujo_free_reader`
  unfoldable pub free_reader : Option (Reader File Client) → Result (Unit {0}) (List (Piece File))
  unfolding free_stack free_data
  free_reader none = err err_invalid_data tt
  free_reader (some r) =
      and_then (free_data r.type r.buffer r.file)
        λ held u. ok (free_stack r.state_stack ++ current r.state ∷ (held ++ handle ∷ [])) u

-- The subtypes that `ujo_free_element` knows.
has_array : Value → Bool
has_array (string_val t s n) =
    t == sub_string_c || (t == sub_string_u8 || (t == sub_string_u16 || t == sub_string_u32))
has_array _ = false

-- `ujo_free_element`, with a handle that is not NULL, of an element whose type says which member it
-- has.
unfoldable pub free_element : {File : Type 0} → Element → List (Piece File)
unfolding has_array
free_element e =
    if e.type == type_string
    then (if has_array e.value then array ∷ handle ∷ [] else handle ∷ [])
    else (if e.type == type_bin then array ∷ handle ∷ [] else handle ∷ [])
