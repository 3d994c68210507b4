-- ===== src/Stack.antt =====
-- src/ujo_stack.c: a stack of pointers in an array that grows by one slot at a time.
-- A stack pointer is an option (`none` is NULL), and so is a slot of the array.
pub mod View
pub mod Laws
use libujo_c.Base.{
  ℕ, zero, suc, ◌+◌, ◌-◌, ◌*◌, List, [], ◌∷◌, ◌++◌, Bool, true, false, Option, none, some, ◌==◌,
  if◌then◌else◌, get_or, set,
}
use libujo_c.Platform.{Platform}

-- `struct _ujoStack`. The array holds `size` slots, of which the first `items` are in use;
-- `destroy` is whether a destroy function was given.
-- The counters are of type int, unbounded here: they overflow with more than INT_MAX items.
pub record Stack {ℓ} (A : Type ℓ) : Type ℓ where
  pub stack : Option (List (Option A))
  pub size : ℕ
  pub items : ℕ
  pub destroy : Bool

abbrev pub pointer_size : ℕ
pointer_size = 8

-- `sizeof(ujoStack)`
abbrev pub stack_size : ℕ
stack_size = 24

module _ {ℓ} {A : Type ℓ} where
  unfoldable pub new_stack : {File : Type 0} → Platform File → Bool → Option (Stack A)
  new_stack p destroy =
      if p.grants stack_size
      then some (record { stack = none; size = 0; items = 0; destroy = destroy })
      else none

  -- `return_val_if_fail` gives ujoFalse for a null pointer.
  unfoldable pub is_empty : Option (Stack A) → Bool
  is_empty none = false
  is_empty (some s) = s.items == 0

  -- A full array gets one more slot, by `calloc` the first time and by `realloc` later.
  unfoldable pub enlarge :
      {File : Type 0} → Platform File → Option (List (Option A)) → Stack A → Option (Stack A)
  enlarge p none s =
      if p.grants pointer_size
      then some (record s { stack = some (none ∷ []); size = s.size + 1 })
      else none
  enlarge p (some slots) s =
      if p.grants (pointer_size * (s.size + 1))
      then some (record s { stack = some (slots ++ none ∷ []); size = s.size + 1 })
      else none

  unfoldable pub reserve : {File : Type 0} → Platform File → Stack A → Option (Stack A)
  unfolding enlarge
  reserve p s = if s.size == s.items then enlarge p s.stack s else some s

  unfoldable pub write_slot : Option (List (Option A)) → ℕ → A → Option (List (Option A))
  write_slot none i a = none
  write_slot (some slots) i a = some (set slots i (some a))

  -- `stack->stack[stack->items] = data; stack->items++;`
  unfoldable pub store : A → Stack A → Stack A
  unfolding write_slot
  store a s = record s { stack = write_slot s.stack s.items a; items = s.items + 1 }

  -- A null stack, or a stack that cannot grow, is left as it is: the item is lost.
  unfoldable pub push : {File : Type 0} → Platform File → Option (Stack A) → A → Option (Stack A)
  unfolding reserve store
  push p none a = none
  push p (some s) a = elim (reserve p s) [ none ↦ some s | some s' ↦ some (store a s') ]

  unfoldable pub slot : Option (List (Option A)) → ℕ → Option A
  slot none i = none
  slot (some slots) i = get_or slots i none

  -- The item is NULL (`none`) if the stack is a null pointer or empty.
  unfoldable pub pop : Option (Stack A) → Option A × Option (Stack A)
  unfolding slot
  pop none = (none, none)
  pop (some s) =
      if s.items == 0
      then (none, some s)
      else (slot s.stack (s.items - 1), some (record s { items = s.items - 1 }))

  -- The loop of `ujo_clear_stack`, on the number of items left; the list is what `destroy` was
  -- called on, in order.
  unfoldable pub destroy_items : ℕ → Stack A → List (Option A) × Stack A
  unfolding slot
  destroy_items zero s = ([], s)
  destroy_items (suc n) s =
      let (gone, s') = destroy_items n (record s { items = n }) in (slot s.stack n ∷ gone, s')

  unfoldable pub clear_stack : Option (Stack A) → List (Option A) × Option (Stack A)
  unfolding destroy_items
  clear_stack none = ([], none)
  clear_stack (some s) =
      if s.destroy
      then (let (gone, s') = destroy_items s.items s in (gone, some s'))
      else ([], some s)
