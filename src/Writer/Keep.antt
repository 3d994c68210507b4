-- ===== src/Writer/Keep.antt =====
-- `_ujo_writer_put` of src/ujo_writer.c into a buffer of any size, with the wrap-around of its size.
use libujo_c.Base.{
  ℕ, ◌+◌, ◌-◌, ◌^◌, ◌≤◌, ◌<◌, ◌⊎◌, ◌≡◌, refl, ap, ◌∙◌, false, Bool-cases, List, ◌++◌, arith, length,
  ltb, inl, inr, take, take-append_left, take-take, le-length-take, length-resized,
}
use libujo_c.Base.Result.{ok, err, fault}
use libujo_c.Types.{memory_access, err_allocation}
use libujo_c.Platform.{Platform, length-uninitialised}
use libujo_c.Writer.{
  Writer, put_memory, make_room, append, copy_at, reallocated, new_bufsize, add_size,
}
use libujo_c.Writer.Put.{contents, length-copied, take-copied, append_lem}

-- A writer into memory whose buffer is as long as `buffersize` says, a size_t, and holds what is
-- written.
pub record IsSound {File : Type 0} (w : Writer File) : Type 0 where
  pub memory : w.type ≡ memory_access
  pub sized : length w.buffer ≡ w.buffersize
  pub within : w.bytes ≤ w.buffersize
  pub small : w.buffersize < 2 ^ 64

-- The writer after a `put` of `xs` into `w`.
pub record Took {File : Type 0} (w : Writer File) (xs : List ℕ) (w' : Writer File) : Type 0 where
  pub sound : IsSound w'
  pub written : contents w' ≡ contents w ++ xs
  pub same_state : w'.state ≡ w.state
  pub same_stack : w'.state_stack ≡ w.state_stack

module _ {File : Type 0} (p : Platform File) where
  -- A `memcpy` that stays within the buffer, whose size a size_t holds.
  append-Took :
      (w : Writer File) (xs : List ℕ)
      → w.type ≡ memory_access
      → length w.buffer ≡ w.buffersize
      → w.buffersize < 2 ^ 64
      → (append p xs w ≡ fault)
        ⊎ ((w.bytes + length xs ≤ w.buffersize)
            × (w' : Writer File) × (append p xs w ≡ ok tt w')
            × Took w xs w')
  unfolding append copy_at
  append-Took w xs m sized small = elim (Bool-cases (ltb (length w.buffer) (w.bytes + length xs))) [
    | inl over ↦ inl (rw (append, copy_at, over) refl)
    | inr fits ↦
        let room : w.bytes + length xs ≤ length w.buffer = ground arith in
        let count : add_size w.bytes (length xs) ≡ w.bytes + length xs =
          omega (arith, sized, small) in
        inr (
          omega (arith, sized),
          _,
          append_lem p w xs room,
          record {
            sound = record {
              memory = m;
              sized = length-copied w xs room ∙ sized;
              within = omega (arith, count, sized);
              small = small;
            };
            written = take-copied w xs _ (omega arith) count;
            same_state = refl;
            same_stack = refl;
          },
        )
  ]

  length-reallocated : (buffer : List ℕ) (n : ℕ) → length (reallocated p buffer n) ≡ n
  unfolding reallocated
  length-reallocated buffer n =
      length-resized n buffer _ (length-uninitialised p (length buffer) (n - length buffer))

  take-reallocated :
      (buffer : List ℕ) (k n : ℕ)
      → k ≤ n
      → k ≤ length buffer
      → take k (reallocated p buffer n) ≡ take k buffer
  unfolding reallocated
  take-reallocated buffer k n h l =
      take-append_left k (take n buffer) _ (le-length-take k n buffer h l) ∙ take-take k n buffer h

  -- The writer with the larger buffer.
  abbrev grown : Writer File → ℕ → Writer File
  grown w n = record w { buffer = reallocated p w.buffer n; buffersize = n }

  grown-Took :
      (w : Writer File) (xs : List ℕ)
      → IsSound w
      → (append p xs (grown w (new_bufsize p w (length xs))) ≡ fault)
        ⊎ ((w' : Writer File) × (append p xs (grown w (new_bufsize p w (length xs))) ≡ ok tt w')
            × Took w xs w')
  unfolding new_bufsize
  grown-Took w xs h =
      let n : ℕ = new_bufsize p w (length xs) in
      elim (append-Took (grown w n) xs h.memory (length-reallocated w.buffer n) (omega arith)) [
        | inl e ↦ inl e
        | inr (room, w', e, t) ↦ inr (
          w',
          e,
          record {
            sound = t.sound;
            written =
                t.written
                ∙ ap (λ ys. ys ++ xs)
                    (take-reallocated w.buffer w.bytes n (omega arith)
                      (omega (arith, h.sized, h.within)));
            same_state = t.same_state;
            same_stack = t.same_stack;
          },
        )
      ]

  -- Where `put` neither follows a bad address nor appends the bytes, the allocator has refused the
  -- larger buffer, and nothing is changed.
  pub put_memory-Took :
      (w : Writer File) (xs : List ℕ)
      → IsSound w
      → (put_memory p xs w ≡ fault)
        ⊎ (((w' : Writer File) × (put_memory p xs w ≡ ok tt w') × Took w xs w')
            ⊎ ((put_memory p xs w ≡ err err_allocation w)
                × (p.grants (new_bufsize p w (length xs)) ≡ false)))
  unfolding put_memory make_room
  put_memory-Took w xs h = elim (Bool-cases (ltb w.buffersize (add_size w.bytes (length xs)))) [
    | inr fits ↦ elim (append-Took w xs h.memory h.sized h.small) [
      | inl e ↦ inl (rw fits e)
      | inr (room, w', e, t) ↦ inr (inl (w', rw fits e, t))
    ]
    | inl full ↦ elim (Bool-cases (p.grants (new_bufsize p w (length xs)))) [
      | inr refused ↦ inr (inr (rw (full, refused) refl, refused))
      | inl served ↦ elim (grown-Took w xs h) [
        | inl e ↦ inl (rw (full, served) e)
        | inr (w', e, t) ↦ inr (inl (w', rw (full, served) e, t))
      ]
    ]
  ]
