-- ===== src/Call/Unopened.antt =====
-- What src/ujo_reader.c does with a terminator that closes nothing.
use mathlib.Core.Path.{subst}
use libujo_c.Base.{
  ℕ, ◌^◌, ◌<◌, ◌≡◌, refl, ap, ◌∙◌, true, false, List, [], ◌∷◌, ◌++◌, Option, none, some, arith,
  length, map, take-all,
}
use libujo_c.Base.Result.{ok, fault, and_then}
use libujo_c.Types.{terminator}
use libujo_c.Platform.{Platform, Grants}
use libujo_c.Stack
use libujo_c.Stack.View.{Holds}
use libujo_c.Stack.Laws.{pop-Pops}
use libujo_c.State.{State, root, closed, table_columns, same_state, enumerator, state_prev, reopen}
use libujo_c.Reader.{Reader, goto, new_memory_reader}
use libujo_c.Reader.Values.{close_container}
use libujo_c.Reader.Next.{
  parse_value, parse_terminator, scan_element, get_next, get_first, parse_loop, parse, element_size,
}
use libujo_c.Reader.Input.{Reads, takes}
use libujo_c.Call.Document.{header_bytes}
use libujo_c.Call.Header.{parse_header-Parses}
use libujo_c.Call.Parse.{Callback}
use libujo_c.Call.UnknownType.{one_byte-value}
use libujo_c.Call.RoundTrip.{
  read_document, idle, loaded, loads, loaded-Reads, new_memory_reader-idle,
}

-- Nothing is left of an outermost position.
state_prev-outermost :
    (s : State) (stack : Option (Stack.Stack State))
    → Holds true stack []
    → state_prev (s, stack) ≡ none
unfolding state_prev reopen
state_prev-outermost s stack h = rw ((pop-Pops stack [] h).0) refl

none_above : (above : List State) → map (λ s. s.state) above ≡ [] → above ≡ []
none_above [] e = refl
none_above (s ∷ above) e = cc

module _ {File Client : Type 0} (p : Platform File) (g : Grants p) (f : Callback Client)
    (d : Option Client) where
  closes_nothing :
      (r : Reader File Client) (rest : List ℕ)
      → Reads (some f) d r rest (root, [])
      → parse_value p terminator r ≡ fault
  unfolding parse_value parse_terminator close_container same_state enumerator
  closes_nothing r rest h =
      let open_row : same_state r.state.state table_columns ≡ false =
        ap (λ s. same_state s table_columns) h.here.current in
      let outermost : state_prev (r.state, r.state_stack) ≡ none =
        state_prev-outermost r.state r.state_stack (
          subst (Holds true r.state_stack) (none_above h.here.above h.here.outside) h.here.holds) in
      rw (open_row, goto, outermost) refl

  get_next-unopened :
      (r : Reader File Client) (rest : List ℕ)
      → Reads (some f) d r (terminator ∷ rest) (root, [])
      → get_next p r ≡ fault
  unfolding get_next scan_element same_state enumerator
  get_next-unopened r rest h =
      let (r1, e, h1) = takes p g (some f) d r (terminator ∷ []) rest 1 (root, []) h refl in
      let here : same_state r.state.state closed ≡ false =
        ap (λ s. same_state s closed) h.here.current in
      rw (here, g element_size, e, one_byte-value p.order terminator, closes_nothing r1 rest h1)
        refl

  -- On a platform whose allocator serves every request, a new memory reader that gets a header with a
  -- terminator behind it follows a NULL pointer, whatever comes next within a size_t.
  pub terminator-faults :
      (rest : List ℕ) (fuel : ℕ)
      → length (header_bytes ++ terminator ∷ rest) < 2 ^ 64
      → (r : Reader File Client) × (new_memory_reader p ≡ ok r tt)
        × (read_document p fuel f d
              (header_bytes ++ terminator ∷ rest)
              (length (header_bytes ++ terminator ∷ rest))
              r
            ≡ fault)
  unfolding parse get_first
  terminator-faults rest fuel small =
      let block : List ℕ = header_bytes ++ terminator ∷ rest in
      let start : Reader File Client = loaded p g f d block (length block) in
      let (r1, e, h) =
        parse_header-Parses p g (some f) d start (terminator ∷ rest) (root, [])
          (subst (λ xs. Reads (some f) d start xs (root, []))
            (take-all (length block) block (omega arith))
            (loaded-Reads p g f d block (length block) (omega arith) small)) in
      (
        idle p,
        new_memory_reader-idle p g f d,
        loads p g f d block (length block) (parse p fuel) (omega arith)
            ∙ ap (λ s. and_then (and_then s (λ _. get_next p)) (parse_loop p fuel)) e
            ∙ ap (λ s. and_then s (parse_loop p fuel)) (get_next-unopened r1 rest h),
      )
