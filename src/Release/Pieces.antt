-- ===== src/Release/Pieces.antt =====
-- What the functions that free a writer or a reader give back, and in which order.
use libujo_c.Base.{
  ℕ, List, [], ◌∷◌, ◌++◌, map, append_assoc, Option, none, some, ◌≡◌, refl, ap, ◌∙◌, true,
}
use libujo_c.Base.Result.{ok}
use libujo_c.Types.{AccessType, memory_access, file_access, stream_access}
use libujo_c.Stack.{Stack}
use libujo_c.Stack.View.{Contents, Holds, holds}
use libujo_c.Stack.Laws.{clear_stack_lem}
use libujo_c.State.{State}
use libujo_c.Writer.{Writer}
use libujo_c.Reader.{Reader}
use libujo_c.Release.{
  Piece, item, slots, stack_handle, handle, buffer, current, open_file, slots_of, array_of,
  free_stack, free_data, free_writer, free_reader,
}

module _ {File : Type 0} where
  -- What the handle owns for its input or output: its buffer, if it has one, or its file.
  pub data OwnsData : AccessType → Option (List ℕ) → Option File → List (Piece File) → Type 0 where
    owns_buffer : (b : List ℕ) (f : Option File) → OwnsData memory_access (some b) f (buffer ∷ [])
    owns_nothing : (f : Option File) → OwnsData memory_access none f []
    owns_file :
        (b : Option (List ℕ)) (f : File) → OwnsData file_access b (some f) (open_file f ∷ [])
    owns_stream : (b : Option (List ℕ)) (f : Option File) → OwnsData stream_access b f []

  -- The array of a stack, which a stack gets with its first item.
  pub data OwnsArray : Option (List (Option State)) → List (Piece File) → Type 0 where
    no_array : OwnsArray none []
    one_array : (xs : List (Option State)) → OwnsArray (some xs) (slots ∷ [])

  -- All that a handle owns, each piece once: the states on the stack, the one pushed last in front,
  -- the array and the stack, the current state, the buffer or the file, and the handle at the end.
  pub data Owned (above : List State) (k : Option (Stack State)) (s : State)
      (held ps : List (Piece File)) : Type 0 where
    owned :
        (stack : Stack State) (array : List (Piece File))
        → k ≡ some stack
        → OwnsArray stack.stack array
        → ps
          ≡ map (λ t. item (some t)) above
            ++ (array ++ stack_handle ∷ current s ∷ (held ++ handle ∷ []))
        → Owned above k s held ps

  free_data-OwnsData :
      (t : AccessType) (b : Option (List ℕ)) (f : Option File) (held : List (Piece File))
      → OwnsData t b f held
      → free_data t b f ≡ ok held tt
  unfolding free_data
  free_data-OwnsData t b f held (owns_buffer c g) = refl
  free_data-OwnsData t b f held (owns_nothing g) = refl
  free_data-OwnsData t b f held (owns_file c g) = refl
  free_data-OwnsData t b f held (owns_stream c g) = refl

  slots_of-OwnsArray : (xs : Option (List (Option State))) → OwnsArray xs (slots_of xs)
  unfolding slots_of
  slots_of-OwnsArray none = no_array
  slots_of-OwnsArray (some xs) = one_array xs

  items_of :
      (above : List State) (ps : List (Piece File))
      → map item (map some above) ++ ps ≡ map (λ t. item (some t)) above ++ ps
  items_of [] ps = refl
  items_of (s ∷ above) ps = ap (λ qs. item (some s) ∷ qs) (items_of above ps)

  -- What `ujo_free_stack` frees of a stack that holds these states, and what is freed behind it.
  free_stack_lem :
      (stack : Stack State) (above : List State) (ps : List (Piece File))
      → Contents true stack above
      → free_stack (some stack) ++ ps
        ≡ map (λ t. item (some t)) above ++ (slots_of stack.stack ++ stack_handle ∷ ps)
  unfolding free_stack array_of
  free_stack_lem stack above ps c =
      let array : List (Piece File) = slots_of stack.stack in
      ap (λ r. (map item r.0 ++ (array_of r.1 ++ stack_handle ∷ [])) ++ ps)
        (clear_stack_lem stack c.destroys)
      ∙ ap (λ xs. (map item xs ++ (array ++ stack_handle ∷ [])) ++ ps) c.view
      ∙ append_assoc (map item (map some above)) (array ++ stack_handle ∷ []) ps
      ∙ items_of above ((array ++ stack_handle ∷ []) ++ ps)
      ∙ ap (λ qs. map (λ t. item (some t)) above ++ qs) (append_assoc array (stack_handle ∷ []) ps)

  freed-Owned :
      (k : Option (Stack State)) (above : List State) (s : State) (held : List (Piece File))
      → Holds true k above
      → Owned above k s held (free_stack k ++ current s ∷ (held ++ handle ∷ []))
  freed-Owned k above s held (holds stack e c) =
      owned stack (slots_of stack.stack) e (slots_of-OwnsArray stack.stack) (
        ap (λ j. free_stack j ++ current s ∷ (held ++ handle ∷ [])) e
        ∙ free_stack_lem stack above (current s ∷ (held ++ handle ∷ [])) c)

  -- `ujo_free_writer` on a writer whose stack holds some states, with an open file if it is a file
  -- writer, succeeds and frees all that the writer owns, each piece once and in this order: the
  -- states on the stack, the one pushed last first, the array of the stack if there is one, the
  -- stack, the current state, the buffer or the file, and the writer itself at the end.
  pub free_writer-Owned :
      (w : Writer File) (above : List State) (held : List (Piece File))
      → Holds true w.state_stack above
      → OwnsData w.type (some w.buffer) w.file held
      → (ps : List (Piece File)) × (free_writer (some w) ≡ ok ps tt)
        × Owned above w.state_stack w.state held ps
  unfolding free_writer
  free_writer-Owned w above held h d = (
    free_stack w.state_stack ++ current w.state ∷ (held ++ handle ∷ []),
    rw (free_data-OwnsData w.type (some w.buffer) w.file held d) refl,
    freed-Owned w.state_stack above w.state held h,
  )

module _ {File Client : Type 0} where
  -- `ujo_free_reader` on a reader whose stack holds some states, with an open file if it is a file
  -- reader, succeeds and frees all that the reader owns, each piece once and in this order: the
  -- states on the stack, the one pushed last first, the array of the stack if there is one, the
  -- stack, the current state, the buffer if there is one or the file, and the reader itself at the
  -- end.
  pub free_reader-Owned :
      (r : Reader File Client) (above : List State) (held : List (Piece File))
      → Holds true r.state_stack above
      → OwnsData r.type r.buffer r.file held
      → (ps : List (Piece File)) × (free_reader (some r) ≡ ok ps tt)
        × Owned above r.state_stack r.state held ps
  unfolding free_reader
  free_reader-Owned r above held h d = (
    free_stack r.state_stack ++ current r.state ∷ (held ++ handle ∷ []),
    rw (free_data-OwnsData r.type r.buffer r.file held d) refl,
    freed-Owned r.state_stack above r.state held h,
  )
