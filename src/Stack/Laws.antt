-- ===== src/Stack/Laws.antt =====
-- The operations of src/ujo_stack.c on the list that the stack holds.
use libujo_c.Base.{
  ℕ, zero, suc, ◌+◌, ◌*◌, ◌<◌, ◌≡◌, refl, ap, List, [], ◌∷◌, ◌∙◌, Bool, map, true, Option, none,
  some, arith, length-set, Bool-cases, inl, inr, ◌==◌,
}
use native.Mathlib.Numerals.{add-one}
use libujo_c.Platform.{Platform, Grants}
use libujo_c.Stack.{
  Stack, pointer_size, new_stack, stack_size, enlarge, reserve, write_slot, store, push, slot, pop,
  destroy_items, clear_stack,
}
use libujo_c.Stack.View.{
  capacity, used, grown, capacity-grown, used-grown, Contents, Holds, holds, slot-set_self,
  used-set,
}

module _ {ℓ} {A : Type ℓ} where
  pub new_stack-Holds :
      {File : Type 0} (p : Platform File) (d : Bool) → Grants p → Holds {A = A} d (new_stack p d) []
  unfolding new_stack
  new_stack-Holds p d g =
      holds (record { stack = none; size = 0; items = 0; destroy = d }) (rw (g stack_size))
        (record { sized = refl; within = omega arith; destroys = refl; view = refl })

  enlarge-grown :
      {File : Type 0} (p : Platform File) (slots : Option (List (Option A))) (s : Stack A)
      → Grants p
      → enlarge p slots s ≡ some (record s { stack = some (grown slots); size = s.size + 1 })
  unfolding enlarge
  enlarge-grown p none s g = rw (g pointer_size)
  enlarge-grown p (some slots) s g = rw (g (pointer_size * (s.size + 1)))

  -- `reserve` leaves a free slot behind the items.
  pub record Reserved (d : Bool) (s t : Stack A) (xs : List A) : Type ℓ where
    pub contents : Contents d t xs
    pub free : t.items < t.size
    pub same_destroy : t.destroy ≡ s.destroy

  reserve-Reserved :
      {d : Bool} {File : Type 0} (p : Platform File) (s : Stack A) (xs : List A)
      → Grants p
      → Contents d s xs
      → (t : Stack A) × (reserve p s ≡ some t) × Reserved d s t xs
  unfolding reserve
  reserve-Reserved p s xs g c = elim (Bool-cases (s.size == s.items)) [
    | inl full ↦ (
      record s { stack = some (grown s.stack); size = s.size + 1 },
      rw full (enlarge-grown p s.stack s g),
      record {
        contents = record {
          sized = omega (arith, capacity-grown s.stack, c.sized);
          within = omega (arith, c.within);
          destroys = c.destroys;
          view = used-grown s.stack s.items (omega (arith, c.sized, c.within)) ∙ c.view;
        };
        free = omega (arith, c.within);
        same_destroy = refl;
      },
    )
    | inr room ↦
        (s, rw room, record { contents = c; free = ground (arith, c.within); same_destroy = refl })
  ]

  write_slot-used :
      (slots : Option (List (Option A))) (n : ℕ) (a : A)
      → n < capacity slots
      → used (write_slot slots n a) (suc n) ≡ some a ∷ used slots n
  unfolding write_slot slot
  write_slot-used none n a h = absurd (omega arith)
  write_slot-used (some slots) n a h =
      rw (slot-set_self slots n a h, used-set slots n n (some a) (omega arith))

  capacity-write_slot :
      (slots : Option (List (Option A))) (n : ℕ) (a : A)
      → capacity (write_slot slots n a) ≡ capacity slots
  unfolding write_slot
  capacity-write_slot none n a = refl
  capacity-write_slot (some slots) n a = length-set slots n (some a)

  store-Contents :
      {d : Bool} (a : A) (s : Stack A) (xs : List A)
      → Contents d s xs
      → s.items < s.size
      → Contents d (store a s) (a ∷ xs)
  unfolding store
  store-Contents a s xs c h = record {
    sized = capacity-write_slot s.stack s.items a ∙ c.sized;
    within = omega arith;
    destroys = c.destroys;
    view =
        rw add-one
          (write_slot-used s.stack s.items a (omega (arith, c.sized)) ∙ ap (◌∷◌ (some a)) c.view);
  }

  -- With an allocator that serves every request, `ujo_stack_push` puts the item in front of what
  -- the stack holds, and grows a full array without loss.
  pub push-Holds :
      {d : Bool} {File : Type 0} (p : Platform File) (k : Option (Stack A)) (a : A) (xs : List A)
      → Grants p
      → Holds d k xs
      → Holds d (push p k a) (a ∷ xs)
  unfolding push
  push-Holds p k a xs g (holds s e c) =
      let (t, et, r) = reserve-Reserved p s xs g c in
      holds (store a t) (rw (e, push, et)) (store-Contents a t xs r.contents r.free)

  -- What `pop` returns, and what it leaves, for a stack that holds `xs`.
  abbrev pub Pops : Bool → List A → Option A × Option (Stack A) → Type ℓ
  Pops d [] r = (r.0 ≡ none) × Holds d r.1 []
  Pops d (x ∷ xs) r = (r.0 ≡ some x) × Holds d r.1 xs

  pop-empty : (s : Stack A) → s.items ≡ 0 → pop (some s) ≡ (none, some s)
  unfolding pop
  pop-empty s e = ground arith

  pop-suc :
      (s : Stack A) (n : ℕ)
      → s.items ≡ suc n
      → pop (some s) ≡ (slot s.stack n, some (record s { items = n }))
  unfolding pop
  pop-suc s n e = ground arith

  pop_of_contents :
      {d : Bool} (s : Stack A) (xs : List A) (n : ℕ)
      → s.items ≡ n
      → Contents d s xs
      → used s.stack n ≡ map some xs
      → Pops d xs (pop (some s))
  pop_of_contents s [] zero e c v = rw (pop-empty s e) (refl, holds s refl c)
  pop_of_contents s [] (suc n) e c v = cc
  pop_of_contents s (x ∷ xs) zero e c v = cc
  pop_of_contents s (x ∷ xs) (suc n) e c v = rw (pop-suc s n e) (
    cc,
    holds (record s { items = n }) refl
        (record { sized = c.sized; within = omega arith; destroys = c.destroys; view = cc }),
  )

  -- `ujo_stack_pop` returns the item of a stack that was pushed last and leaves the others, and
  -- returns NULL for an empty stack.
  pub pop-Pops : {d : Bool} (k : Option (Stack A)) (xs : List A) → Holds d k xs → Pops d xs (pop k)
  pop-Pops k xs (holds s e c) = rw e (pop_of_contents s xs s.items refl c c.view)

  destroy_items_lem :
      (n : ℕ) (s : Stack A)
      → s.items ≡ n
      → destroy_items n s ≡ (used s.stack n, record s { items = 0 })
  unfolding destroy_items
  destroy_items_lem zero s e = ground arith
  destroy_items_lem (suc n) s e = rw (destroy_items_lem n (record s { items = n }) refl)

  -- What `ujo_clear_stack` does to a stack that holds `xs`.
  abbrev pub Clears : List A → List (Option A) × Option (Stack A) → Type ℓ
  Clears xs r = (r.0 ≡ map some xs) × Holds true r.1 []

  pub clear_stack_lem :
      (s : Stack A)
      → s.destroy ≡ true
      → clear_stack (some s) ≡ (used s.stack s.items, some (record s { items = 0 }))
  unfolding clear_stack
  clear_stack_lem s d = ground (arith, destroy_items_lem s.items s refl)

  clear_of_contents :
      (s : Stack A) (xs : List A) → Contents true s xs → Clears xs (clear_stack (some s))
  clear_of_contents s xs c = rw (clear_stack_lem s c.destroys) (
    c.view,
    holds (record s { items = 0 }) refl
        (record { sized = c.sized; within = omega arith; destroys = c.destroys; view = refl }),
  )

  -- On a stack with a destroy function, `ujo_clear_stack` destroys each item once, the one pushed
  -- last first, and leaves none.
  pub clear_stack-Clears :
      (k : Option (Stack A)) (xs : List A) → Holds true k xs → Clears xs (clear_stack k)
  clear_stack-Clears k xs (holds s e c) = rw e (clear_of_contents s xs c)
