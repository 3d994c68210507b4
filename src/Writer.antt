-- ===== src/Writer.antt =====
-- src/ujo_writer.c: the writer, its output to memory or to a file, and its containers.
pub mod Put
pub mod Entry
pub mod Steps
pub mod Values
pub mod Texts
pub mod Program
pub mod Range
pub mod Keep
pub mod Refuse
pub mod Simulate
use libujo_c.Base.{
  ℕ, zero, suc, ◌+◌, ◌-◌, ◌*◌, ◌/◌, ◌%◌, ◌^◌, Bool, true, false, List, [], ◌∷◌, ◌++◌, Option, none,
  some, ltb, ◌==◌, if◌then◌else◌, length, take, drop,
}
use libujo_c.Base.Result.{
  Result, M, and_then, drop_error, ok, err, fault, out_of_fuel, pure, fail, crash, deref,
  report_error, modify, gets, ◌>>=◌, ◌>>◌,
}
use libujo_c.Types.{
  AccessType, file_access, memory_access, stream_access, err_allocation, err_invalid_object,
  err_type_misplaced, err_file, default_bufsize, magic, data_version, compress_none, terminator,
  type_list, type_map, type_table,
}
use libujo_c.Platform.{Platform, uninitialised}
use libujo_c.Stack
use libujo_c.Stack.{Stack}
use libujo_c.State.{
  DocState, root, list, dict_key, table_columns, table_values, DocEvent, container_closed, State,
  Place, new_state, allow_container, same_state, state_next, state_prev, state_switch,
}
use libujo_c.Words.{memory_bytes, uint16_swap}

-- `struct _ujo_writer`. `bytes` is how many bytes of `buffer` are written; `file` is `none` for NULL.
pub record Writer (File : Type 0) : Type 0 where
  pub type : AccessType
  pub state_stack : Option (Stack State)
  pub state : State
  pub buffersize : ℕ
  pub buffer : List ℕ
  pub bytes : ℕ
  pub file : Option File

-- `sizeof(ujo_writer)`
abbrev pub writer_size : ℕ
writer_size = 64

-- size_t arithmetic wraps at 2 ^ 64.
abbrev pub add_size : ℕ → ℕ → ℕ
add_size a b = (a + b) % 2 ^ 64

-- `memcpy(buffer + at, sequence, n)`: `none` is a write behind the end of the buffer.
unfoldable pub copy_at : List ℕ → ℕ → List ℕ → Option (List ℕ)
copy_at buffer at sequence =
    if ltb (length buffer) (at + length sequence)
    then none
    else some (take at buffer ++ sequence ++ drop (at + length sequence) buffer)

-- `realloc` to n bytes: a larger block keeps the bytes and adds undefined ones.
unfoldable pub reallocated : {File : Type 0} → Platform File → List ℕ → ℕ → List ℕ
reallocated p buffer n = take n buffer ++ uninitialised p (length buffer) (n - length buffer)

-- What `calloc` gives: n bytes of zero.
unfoldable pub zeros : ℕ → List ℕ
zeros zero = []
zeros (suc n) = 0 ∷ zeros n

module _ {File : Type 0} where
  -- `w->state = f(w->state, w->state_stack)`
  abbrev pub goto : (Place → Option Place) → M (Writer File) (Unit {0})
  goto f w = elim (f (w.state, w.state_stack)) [
    | none ↦ fault
    | some (s, k) ↦ ok tt (record w { state = s; state_stack = k })
  ]

  -- `report_error(test(w->state->state), ...)`
  abbrev pub require : (State → Bool) → ℕ → M (Writer File) (Unit {0})
  require test code w = report_error (test w.state) code w

  -- `ujo_writer_get_type` and `ujo_writer_get_buffer`, with a handle that is not NULL.
  unfoldable pub get_type : M (Writer File) AccessType
  get_type = gets (λ w. w.type)

  unfoldable pub get_buffer : M (Writer File) (List ℕ × ℕ)
  get_buffer = gets (λ w. (w.buffer, w.bytes))

module _ {File : Type 0} (p : Platform File) where
  -- The size of the buffer after `bytes` more do not fit.
  unfoldable pub new_bufsize : Writer File → ℕ → ℕ
  new_bufsize w n = add_size w.buffersize ((n / default_bufsize + 1) * default_bufsize % 2 ^ 64)

  unfoldable pub make_room : ℕ → M (Writer File) (Unit {0})
  unfolding new_bufsize reallocated
  make_room n w =
      if ltb w.buffersize (add_size w.bytes n)
      then (if p.grants (new_bufsize w n)
          then ok tt (record w {
            buffer = reallocated p w.buffer (new_bufsize w n);
            buffersize = new_bufsize w n;
          })
          else err err_allocation w)
      else ok tt w

  unfoldable pub append : List ℕ → M (Writer File) (Unit {0})
  unfolding copy_at
  append sequence w = elim (copy_at w.buffer w.bytes sequence) [
    | none ↦ fault
    | some b ↦ ok tt (record w { buffer = b; bytes = add_size w.bytes (length sequence) })
  ]

  unfoldable pub put_memory : List ℕ → M (Writer File) (Unit {0})
  unfolding make_room append
  put_memory sequence = do make_room (length sequence); append sequence

  unfoldable pub write_file : Option File → List ℕ → M (Writer File) (Unit {0})
  write_file none sequence = crash
  write_file (some f) sequence = do
    let (count, f') = p.fwrite f sequence
    modify (λ w. record w { file = some f' })
    report_error (count == length sequence) err_file

  unfoldable pub put_by : AccessType → List ℕ → M (Writer File) (Unit {0})
  unfolding put_memory write_file
  put_by memory_access sequence = put_memory sequence
  put_by file_access sequence = do f ← gets (λ w. w.file); write_file f sequence
  put_by stream_access sequence = pure tt

  -- `_ujo_writer_put`
  unfoldable pub put : List ℕ → M (Writer File) (Unit {0})
  unfolding put_by
  put sequence w = put_by w.type sequence w

  unfoldable pub put_uint8 : ℕ → M (Writer File) (Unit {0})
  put_uint8 value = put (memory_bytes p.order 1 value)

  unfoldable pub put_uint16 : ℕ → M (Writer File) (Unit {0})
  put_uint16 value = put (memory_bytes p.order 2 (uint16_swap p.order value))

  unfoldable pub list_open : M (Writer File) (Unit {0})
  list_open = do
    require (λ s. allow_container s.state) err_type_misplaced
    goto (state_next p list)
    put_uint8 type_list

  unfoldable pub list_close : M (Writer File) (Unit {0})
  list_close = do
    require (λ s. same_state s.state list) err_invalid_object
    goto state_prev
    put_uint8 terminator
    goto (state_switch p container_closed)

  unfoldable pub map_open : M (Writer File) (Unit {0})
  map_open = do
    require (λ s. allow_container s.state) err_type_misplaced
    goto (state_next p dict_key)
    put_uint8 type_map

  unfoldable pub map_close : M (Writer File) (Unit {0})
  map_close = do
    require (λ s. same_state s.state dict_key) err_invalid_object
    goto state_prev
    put_uint8 terminator
    goto (state_switch p container_closed)

  unfoldable pub table_open : M (Writer File) (Unit {0})
  table_open = do
    require (λ s. allow_container s.state) err_type_misplaced
    goto (state_next p table_columns)
    modify (λ w. record w { state = record w.state { columns = 0; column = 0 } })
    put_uint8 type_table

  unfoldable pub table_end_columns : M (Writer File) (Unit {0})
  table_end_columns = do
    require (λ s. same_state s.state table_columns) err_invalid_object
    require (λ s. ltb 0 s.columns) err_invalid_object
    put_uint8 terminator
    modify (λ w. record w { state = record w.state { state = table_values } })

  -- `ujo_writer_table_close` drops the error code of the write.
  unfoldable pub table_close : M (Writer File) (Unit {0})
  table_close = do
    require (λ s. same_state s.state table_values) err_invalid_object
    require (λ s. s.column == 0) err_invalid_object
    goto state_prev
    drop_error (put_uint8 terminator)
    goto (state_switch p container_closed)

  -- The value is `*w`, which an error leaves unset.
  unfoldable pub finished : Result (Writer File) (Unit {0}) → Result (Unit {0}) (Writer File)
  finished (ok a w) = ok w tt
  finished (err code w) = err code tt
  finished fault = fault
  finished out_of_fuel = out_of_fuel

  unfoldable pub header : M (Writer File) (Unit {0})
  header = do put magic; put_uint16 data_version; put_uint8 compress_none

  -- `_ujo_new_writer`: of the three requests only the first is checked.
  unfoldable pub start : AccessType → ℕ → Option File → State → Result (Unit {0}) (Writer File)
  unfolding header finished zeros
  start type size file state = finished (
      header (record {
        type = type;
        state_stack = Stack.new_stack p true;
        state = state;
        buffersize = size;
        buffer = zeros size;
        bytes = 0;
        file = file;
      }))

  unfoldable pub new_writer :
      (State → Result (Unit {0}) (Writer File)) → Result (Unit {0}) (Writer File)
  new_writer next =
      if p.grants writer_size
      then and_then (deref (new_state p) tt) (λ s _. next s)
      else err err_allocation tt

  -- `ujo_new_memory_writer`; the request for the buffer is not checked.
  unfoldable pub new_memory_writer : Result (Unit {0}) (Writer File)
  unfolding new_writer start
  new_memory_writer =
      new_writer
        λ s. if p.grants default_bufsize then start memory_access default_bufsize none s else fault

  -- `ujo_new_file_writer`
  unfoldable pub new_file_writer : List ℕ → Result (Unit {0}) (Writer File)
  unfolding new_writer start
  new_file_writer filename = elim (p.fopen filename true) [
    | none ↦ err err_file tt
    | some f ↦ new_writer (start file_access 0 (some f))
  ]
