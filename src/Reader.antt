-- ===== src/Reader.antt =====
-- src/ujo_reader.c: the reader, its input from memory or from a file, and the document header.
pub mod Values
pub mod Next
pub mod Input
pub mod Program
pub mod Ends
pub mod Kinds
pub mod Simulate
pub mod Stream
pub mod Truncate
pub mod ShortFile
use libujo_c.Base.{
  ℕ, zero, suc, ◌+◌, ◌*◌, ◌%◌, ◌^◌, Bool, true, false, ◌&&◌, not, List, [], ◌∷◌, Option, none, some,
  ltb, ◌==◌, if◌then◌else◌, length, take, drop,
}
use libujo_c.Base.Result.{
  Result, M, and_then, ok, err, fault, pure, crash, deref, report_error, modify, gets, ◌>>=◌, ◌>>◌,
}
use libujo_c.Types.{
  AccessType, file_access, memory_access, stream_access, err_allocation, err_invalid_data, err_file,
  magic,
}
use libujo_c.Platform.{Platform}
use libujo_c.Stack
use libujo_c.Stack.{Stack}
use libujo_c.State.{DocState, root, State, Place, new_state}
use libujo_c.Words.{from_memory, uint16_swap}
use libujo_c.Element.{Element}

-- `struct _ujo_reader`. `buffer`, `file` and `on_element` are `none` for NULL; a callback gets the
-- element and the client's data, and gives an error code and the data that it leaves.
pub record Reader (File Client : Type 0) : Type 0 where
  pub type : AccessType
  pub state_stack : Option (Stack State)
  pub state : State
  pub magic_code : List ℕ
  pub version : ℕ
  pub compression : ℕ
  pub buffersize : ℕ
  pub buffer : Option (List ℕ)
  pub parsed : ℕ
  pub file : Option File
  pub on_element : Option (Element → Option Client → ℕ × Option Client)
  pub on_element_data : Option Client

-- `sizeof(ujo_reader)`
abbrev pub reader_size : ℕ
reader_size = 88

-- What a destination holds that `calloc` cleared and nothing was stored to.
unfoldable pub cleared : ℕ → List ℕ
cleared zero = []
cleared (suc n) = 0 ∷ cleared n

-- `strncmp(UJO_MAGIC, magic, 4) == 0`, for a magic code that holds no zero.
unfoldable pub same_bytes : List ℕ → List ℕ → Bool
same_bytes [] bs = true
same_bytes (a ∷ xs) [] = false
same_bytes (a ∷ xs) (b ∷ bs) = a == b && same_bytes xs bs

module _ {File Client : Type 0} where
  -- `r->state = f(r->state, r->state_stack)`
  abbrev pub goto : (Place → Option Place) → M (Reader File Client) (Unit {0})
  goto f r = elim (f (r.state, r.state_stack)) [
    | none ↦ fault
    | some (s, k) ↦ ok tt (record r { state = s; state_stack = k })
  ]

  -- `memcpy` of n bytes from the cursor on: reading past the buffer is undefined, and the code does
  -- not compare with `buffersize`.
  get_from : Option (List ℕ) → ℕ → M (Reader File Client) (List ℕ)
  get_from none n r = fault
  get_from (some buffer) n r =
      if ltb (length buffer) (r.parsed + n)
      then fault
      else ok (take n (drop r.parsed buffer)) (record r { parsed = (r.parsed + n) % 2 ^ 64 })

  unfoldable pub get_memory_data : ℕ → M (Reader File Client) (List ℕ)
  unfolding get_from
  get_memory_data n r = get_from r.buffer n r

  -- `ujo_reader_get_type`, with a handle that is not NULL.
  unfoldable pub get_type : M (Reader File Client) AccessType
  get_type = gets (λ r. r.type)

  -- `ujo_reader_set_on_element`
  unfoldable pub set_on_element :
      Option (Element → Option Client → ℕ × Option Client)
      → Option Client
      → M (Reader File Client) (Unit {0})
  set_on_element none d = modify (λ r. record r { on_element = none; on_element_data = none })
  set_on_element (some f) d = modify (λ r. record r { on_element = some f; on_element_data = d })

module _ {File Client : Type 0} (p : Platform File) where
  read_file : Option File → ℕ → M (Reader File Client) (List ℕ)
  read_file none n = crash
  read_file (some f) n = do
    let (count, bytes, f') = p.fread f n
    modify (λ r. record r { file = some f' })
    report_error (count == n) err_file
    pure bytes

  get_data_by : AccessType → ℕ → M (Reader File Client) (List ℕ)
  unfolding read_file cleared
  get_data_by memory_access n = get_memory_data n
  get_data_by file_access n = do f ← gets (λ r. r.file); read_file f n
  get_data_by stream_access n = pure (cleared n)

  -- `_ujo_reader_get_data`
  unfoldable pub get_data : ℕ → M (Reader File Client) (List ℕ)
  unfolding get_data_by
  get_data n r = get_data_by r.type n r

  -- `_ujo_reader_parse_header`
  unfoldable pub parse_header : M (Reader File Client) (Unit {0})
  unfolding same_bytes
  parse_header = do
    code ← get_data 4
    modify (λ r. record r { magic_code = code })
    report_error (same_bytes magic code) err_invalid_data
    version ← get_data 2
    modify (λ r. record r { version = uint16_swap p.order (from_memory p.order version) })
    number ← gets (λ r. r.version)
    report_error (number == 1) err_invalid_data
    compression ← get_data 1
    modify (λ r. record r { compression = from_memory p.order compression })

  -- `ujo_reader_set_buffer`: the request for the copy is not checked.
  unfoldable pub copy_buffer : List ℕ → ℕ → M (Reader File Client) (Unit {0})
  copy_buffer buffer bytes r =
      if p.grants bytes && not (ltb (length buffer) bytes)
      then ok tt (record r {
        buffer = some (take bytes buffer);
        buffersize = bytes;
        parsed = 0;
        state_stack = (Stack.clear_stack r.state_stack).1;
        state = record r.state { state = root };
      })
      else fault

  unfoldable pub set_buffer : Option (List ℕ) → ℕ → M (Reader File Client) (Unit {0})
  unfolding copy_buffer
  set_buffer none bytes r = err err_invalid_data r
  set_buffer (some buffer) bytes r = copy_buffer buffer bytes r

  -- `_ujo_new_reader`: of the three requests only the first is checked.
  unfoldable pub new_reader : AccessType → Option File → Result (Unit {0}) (Reader File Client)
  unfolding cleared
  new_reader type file =
      if p.grants reader_size
      then and_then (deref (new_state p) tt) (λ s. pure (record {
        type = type;
        state_stack = Stack.new_stack p true;
        state = s;
        magic_code = cleared 4;
        version = 0;
        compression = 0;
        buffersize = 0;
        buffer = none;
        parsed = 0;
        file = file;
        on_element = none;
        on_element_data = none;
      }))
      else err err_allocation tt

  unfoldable pub new_memory_reader : Result (Unit {0}) (Reader File Client)
  unfolding new_reader
  new_memory_reader = new_reader memory_access none

  unfoldable pub new_file_reader : List ℕ → Result (Unit {0}) (Reader File Client)
  unfolding new_reader
  new_file_reader filename = elim (p.fopen filename false) [
    | none ↦ err err_file tt
    | some f ↦ new_reader file_access (some f)
  ]
