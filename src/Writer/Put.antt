-- ===== src/Writer/Put.antt =====
-- `_ujo_writer_put` of src/ujo_writer.c into memory: the growing buffer holds what was put.
use libujo_c.Base.{
  true, false, ◌⊎◌, ℕ, ◌+◌, ◌-◌, ◌*◌, ◌^◌, ◌≤◌, ◌<◌, ◌≡◌, refl, ap, ◌∙◌, List, ◌++◌, arith, ltb,
  length, take, drop, length-append, length-take, length-drop, take-all, take-append_left,
  take-append, Bool-cases, inl, inr, le→ltb, ltb→lt,
}
use libujo_c.Base.Result.{ok, err, and_then}
use libujo_c.Types.{memory_access, err_allocation}
use libujo_c.Platform.{Platform, Grants, uninitialised, length-uninitialised}
use libujo_c.Writer.{
  Writer, add_size, copy_at, reallocated, new_bufsize, make_room, append, put_memory, put_by, put,
}

-- What is written so far.
abbrev pub contents : {File : Type 0} → Writer File → List ℕ
contents w = take w.bytes w.buffer

-- The buffer is as long as `buffersize` says, what is written lies in it, and it is not much larger
-- than twice that.
pub record IsValid {File : Type 0} (w : Writer File) : Type 0 where
  pub memory : w.type ≡ memory_access
  pub sized : length w.buffer ≡ w.buffersize
  pub within : w.bytes ≤ w.buffersize
  pub lean : w.buffersize ≤ 2 * w.bytes + 4096

-- n more bytes can be counted in a size_t, with the buffer that holds them.
abbrev pub HasRoom : {File : Type 0} → Writer File → ℕ → Type 0
HasRoom w n = 2 * (w.bytes + n) + 4096 < 2 ^ 64

-- `w'` is `w` with `xs` written behind what it held.
pub record Wrote {File : Type 0} (w : Writer File) (xs : List ℕ) (w' : Writer File) : Type 0 where
  pub valid : IsValid w'
  pub written : contents w' ≡ contents w ++ xs
  pub count : w'.bytes ≡ w.bytes + length xs
  pub same_state : w'.state ≡ w.state
  pub same_stack : w'.state_stack ≡ w.state_stack

-- A larger block begins with the old one.
reallocated-grown :
    {File : Type 0} (p : Platform File) (buffer : List ℕ) (n : ℕ)
    → length buffer ≤ n
    → reallocated p buffer n ≡ buffer ++ uninitialised p (length buffer) (n - length buffer)
unfolding reallocated
reallocated-grown p buffer n h =
    ap (λ xs. xs ++ uninitialised p (length buffer) (n - length buffer)) (take-all n buffer h)

-- After `make_room` the bytes fit, and those written are still there.
record Roomy {File : Type 0} (w : Writer File) (n : ℕ) (w' : Writer File) : Type 0 where
  sized : length w'.buffer ≡ w'.buffersize
  fits : w.bytes + n ≤ w'.buffersize
  lean : w'.buffersize ≤ 2 * (w.bytes + n) + 4096
  kept : contents w' ≡ contents w
  same_type : w'.type ≡ w.type
  same_count : w'.bytes ≡ w.bytes
  same_state : w'.state ≡ w.state
  same_stack : w'.state_stack ≡ w.state_stack

new_bufsize_lem :
    {File : Type 0} (p : Platform File) (w : Writer File) (n : ℕ)
    → IsValid w
    → HasRoom w n
    → w.buffersize < w.bytes + n
    → (w.bytes + n ≤ new_bufsize p w n) × (new_bufsize p w n ≤ 2 * (w.bytes + n) + 4096)
unfolding new_bufsize
new_bufsize_lem p w n v h full = omega arith

-- The buffer after `realloc` to a larger size.
grown-Roomy :
    {File : Type 0} (p : Platform File) (w : Writer File) (n size : ℕ)
    → IsValid w
    → w.buffersize ≤ size
    → w.bytes + n ≤ size
    → size ≤ 2 * (w.bytes + n) + 4096
    → Roomy w n (record w { buffer = reallocated p w.buffer size; buffersize = size })
grown-Roomy p w n size v grows fits lean =
    let same : reallocated p w.buffer size
        ≡ w.buffer ++ uninitialised p (length w.buffer) (size - length w.buffer) =
      reallocated-grown p w.buffer size (omega (arith, v.sized)) in
    record {
      sized = omega (
        arith,
        ap length same,
        length-append w.buffer (uninitialised p (length w.buffer) (size - length w.buffer)),
        length-uninitialised p (length w.buffer) (size - length w.buffer),
        v.sized,
      );
      fits = fits;
      lean = lean;
      kept =
          ap (take w.bytes) same
          ∙ take-append_left w.bytes w.buffer _ (omega (arith, v.sized, v.within));
      same_type = refl;
      same_count = refl;
      same_state = refl;
      same_stack = refl;
    }

make_room-Roomy :
    {File : Type 0} (p : Platform File) (w : Writer File) (n : ℕ)
    → p.grants (new_bufsize p w n) ≡ true
    → IsValid w
    → HasRoom w n
    → (w' : Writer File) × (make_room p n w ≡ ok tt w') × Roomy w n w'
unfolding make_room
make_room-Roomy p w n g v h = elim (Bool-cases (ltb w.buffersize (add_size w.bytes n))) [
  | inr fits ↦ (
    w,
    rw fits,
    record {
      sized = v.sized;
      fits = ground arith;
      lean = omega (arith, v.lean);
      kept = refl;
      same_type = refl;
      same_count = refl;
      same_state = refl;
      same_stack = refl;
    },
  )
  | inl full ↦
      let small : w.buffersize < w.bytes + n = omega (arith, ltb→lt _ _ full) in
      let (fits, lean) = new_bufsize_lem p w n v h small in
      (
        record w {
          buffer = reallocated p w.buffer (new_bufsize p w n);
          buffersize = new_bufsize p w n;
        },
        rw (full, g),
        grown-Roomy p w n (new_bufsize p w n) v (omega arith) fits lean,
      )
]

-- The buffer after `memcpy`.
abbrev pub copied : {File : Type 0} → Writer File → List ℕ → List ℕ
copied w xs = take w.bytes w.buffer ++ xs ++ drop (w.bytes + length xs) w.buffer

pub length-copied :
    {File : Type 0} (w : Writer File) (xs : List ℕ)
    → w.bytes + length xs ≤ length w.buffer
    → length (copied w xs) ≡ length w.buffer
length-copied w xs h = omega (
  arith,
  length-append (take w.bytes w.buffer ++ xs) (drop (w.bytes + length xs) w.buffer),
  length-append (take w.bytes w.buffer) xs,
  length-take w.bytes w.buffer (omega arith),
  length-drop (w.bytes + length xs) w.buffer,
)

pub take-copied :
    {File : Type 0} (w : Writer File) (xs : List ℕ) (n : ℕ)
    → w.bytes ≤ length w.buffer
    → n ≡ w.bytes + length xs
    → take n (copied w xs) ≡ contents w ++ xs
take-copied w xs n h e = ap (λ k. take k (copied w xs)) end ∙ take-append (contents w ++ xs) _
  where
    end : n ≡ length (contents w ++ xs)
    end = omega (arith, e, length-append (contents w) xs, length-take w.bytes w.buffer h)

pub append_lem :
    {File : Type 0} (p : Platform File) (w : Writer File) (xs : List ℕ)
    → w.bytes + length xs ≤ length w.buffer
    → append p xs w
      ≡ ok tt (record w { buffer = copied w xs; bytes = add_size w.bytes (length xs) })
unfolding append copy_at
append_lem p w xs h = rw (append, copy_at, le→ltb (length w.buffer) (w.bytes + length xs) h)

append-Wrote :
    {File : Type 0} (w w' : Writer File) (xs : List ℕ)
    → IsValid w
    → HasRoom w (length xs)
    → Roomy w (length xs) w'
    → Wrote w xs (record w' { buffer = copied w' xs; bytes = add_size w'.bytes (length xs) })
append-Wrote w w' xs v h r =
    let fits : w'.bytes + length xs ≤ length w'.buffer =
      omega (arith, r.sized, r.fits, r.same_count) in
    let count : add_size w'.bytes (length xs) ≡ w'.bytes + length xs =
      omega (arith, r.same_count, h) in
    record {
      valid = record {
        memory = r.same_type ∙ v.memory;
        sized = length-copied w' xs fits ∙ r.sized;
        within = omega (arith, count, fits, r.sized);
        lean = omega (arith, count, r.lean, r.same_count);
      };
      written = take-copied w' xs _ (omega arith) count ∙ ap (λ z. z ++ xs) r.kept;
      count = omega (arith, count, r.same_count);
      same_state = r.same_state;
      same_stack = r.same_stack;
    }

-- A put for which the allocator would serve a larger buffer.
put-served :
    {File : Type 0} (p : Platform File) (w : Writer File) (xs : List ℕ)
    → p.grants (new_bufsize p w (length xs)) ≡ true
    → IsValid w
    → HasRoom w (length xs)
    → (w' : Writer File) × (put p xs w ≡ ok tt w') × Wrote w xs w'
unfolding put put_by put_memory
put-served p w xs g v h =
    let (w', made, r) = make_room-Roomy p w (length xs) g v h in
    (
      record w' { buffer = copied w' xs; bytes = add_size w'.bytes (length xs) },
      ap (λ t. put_by p t xs w) v.memory
          ∙ ap (λ m. and_then m (λ _. append p xs)) made
          ∙ append_lem p w' xs (omega (arith, r.sized, r.fits, r.same_count)),
      append-Wrote w w' xs v h r,
    )

-- A put that has enough buffer does not ask for more.
put-fits :
    {File : Type 0} (p : Platform File) (w : Writer File) (xs : List ℕ)
    → IsValid w
    → HasRoom w (length xs)
    → ltb w.buffersize (add_size w.bytes (length xs)) ≡ false
    → (w' : Writer File) × (put p xs w ≡ ok tt w') × Wrote w xs w'
unfolding put put_by put_memory make_room
put-fits p w xs v h fits = (
  record w { buffer = copied w xs; bytes = add_size w.bytes (length xs) },
  ap (λ t. put_by p t xs w) v.memory ∙ rw fits (append_lem p w xs (ground (arith, v.sized, h))),
  append-Wrote w w xs v h (record {
    sized = v.sized;
    fits = ground arith;
    lean = omega (arith, v.lean);
    kept = refl;
    same_type = refl;
    same_count = refl;
    same_state = refl;
    same_stack = refl;
  }),
)

put-unserved :
    {File : Type 0} (p : Platform File) (w : Writer File) (xs : List ℕ)
    → w.type ≡ memory_access
    → ltb w.buffersize (add_size w.bytes (length xs)) ≡ true
    → p.grants (new_bufsize p w (length xs)) ≡ false
    → put p xs w ≡ err err_allocation w
unfolding put put_by put_memory make_room
put-unserved p w xs m full refused = ap (λ t. put_by p t xs w) m ∙ rw (full, refused) refl

-- A put on any platform appends the bytes, or is refused the larger buffer that it needs and changes
-- nothing.
pub put-or_refused :
    {File : Type 0} (p : Platform File) (w : Writer File) (xs : List ℕ)
    → IsValid w
    → HasRoom w (length xs)
    → ((w' : Writer File) × (put p xs w ≡ ok tt w') × Wrote w xs w')
      ⊎ ((put p xs w ≡ err err_allocation w)
          × (size : ℕ) × (w.buffersize < size)
          × (size ≤ 2 * (w.bytes + length xs) + 4096)
          × (p.grants size ≡ false)
          × (w.buffersize < w.bytes + length xs))
put-or_refused p w xs v h = elim (Bool-cases (ltb w.buffersize (add_size w.bytes (length xs)))) [
  | inr fits ↦ inl (put-fits p w xs v h fits)
  | inl full ↦ elim (Bool-cases (p.grants (new_bufsize p w (length xs)))) [
    | inl served ↦ inl (put-served p w xs served v h)
    | inr refused ↦
        let lacks : w.buffersize < w.bytes + length xs = ground arith in
        let (fits, lean) = new_bufsize_lem p w (length xs) v h lacks in
        inr (
          put-unserved p w xs v.memory full refused,
          new_bufsize p w (length xs),
          omega (arith, fits, lacks),
          lean,
          refused,
          lacks,
        )
  ]
]

-- A put into a valid memory writer succeeds and appends the bytes, if the allocator serves every
-- request and the size stays within a size_t; the writer stays valid, with a buffer of at most
-- twice what is written and 4096 bytes, and its state and stack do not change.
pub put-Wrote :
    {File : Type 0} (p : Platform File) (w : Writer File) (xs : List ℕ)
    → Grants p
    → IsValid w
    → HasRoom w (length xs)
    → (w' : Writer File) × (put p xs w ≡ ok tt w') × Wrote w xs w'
put-Wrote p w xs g v h = put-served p w xs (g (new_bufsize p w (length xs))) v h
