-- ===== src/Reader/Kinds.antt =====
-- The elements that the reader of src/ujo_reader.c hands out have the member of the union that their
-- type says, so that no getter reads another one.
use mathlib.Core.Path.{subst}
use libujo_c.Base.{ℕ, ◌≡◌, refl, Bool, true, false, ◌==◌, if◌then◌else◌}
use libujo_c.Base.Result.{M, Result, ok, err, fault, out_of_fuel, and_then}
use libujo_c.Types.{
  err_invalid_data, terminator, type_bin, type_bool, type_date, type_float16, type_float32,
  type_float64, type_int16, type_int32, type_int64, type_int8, type_list, type_map, type_none,
  type_string, type_table, type_time, type_timestamp, type_uint16, type_uint32, type_uint64,
  type_uint8, type_ux_time,
}
use libujo_c.Platform.{Platform}
use libujo_c.State.{
  same_state, closed, table_columns, atomic_found, container_closed, state_switch, state_prev,
}
use libujo_c.Words.{from_memory}
use libujo_c.Element.{Element, Value, no_value}
use libujo_c.Element.Kinds.{has_kind, equal_if, getters_work, has_kind-getters_work}
use libujo_c.Reader.{Reader, get_data, goto}
use libujo_c.Reader.Values.{
  close_container, open_list, open_map, open_table, parse_binary, parse_bool, parse_date,
  parse_float16, parse_float32, parse_float64, parse_int16, parse_int32, parse_int64, parse_int8,
  parse_none, parse_string, get_uint8, get_uint16, get_units, get_array, parse_time,
  parse_timestamp, parse_uint16, parse_uint32, parse_uint64, parse_uint8, parse_uxtime,
}
use libujo_c.Reader.Next.{
  Next, ended, found, element_size, end_columns, parse_terminator, parse_value, scan_element,
  get_next,
}

module _ {File Client : Type 0} where
  -- What holds of the value of a call that succeeds.
  data OnOk {A : Type 0} (P : A → Type 0) : Result (Reader File Client) A → Type 0 where
    gives : (a : A) (s : Reader File Client) → P a → OnOk P (ok a s)
    stops : (code : ℕ) (s : Reader File Client) → OnOk P (err code s)
    breaks : OnOk P fault
    runs_out : OnOk P out_of_fuel

  OnOk-and_then :
      {A B : Type 0} {P : B → Type 0} (x : Result (Reader File Client) A)
      {k : A → M (Reader File Client) B}
      → ((a : A) (s : Reader File Client) → OnOk P (k a s))
      → OnOk P (and_then x k)
  OnOk-and_then (ok a s) h = h a s
  OnOk-and_then (err code s) h = stops code s
  OnOk-and_then fault h = breaks
  OnOk-and_then out_of_fuel h = runs_out

  OnOk-if :
      {A : Type 0} {P : A → Type 0} {x y : Result (Reader File Client) A} (b : Bool)
      → (b ≡ true → OnOk P x)
      → OnOk P y
      → OnOk P (if b then x else y)
  OnOk-if true h k = h refl
  OnOk-if false h k = k

abbrev HasKind : Next → Type 0
HasKind ended = Unit {0}
HasKind (found e) = has_kind e.type e.value ≡ true

module _ {File Client : Type 0} (p : Platform File) where
  abbrev Kind : ℕ → M (Reader File Client) Value → Type 0
  Kind t m = (r : Reader File Client) → OnOk (λ v. has_kind t v ≡ true) (m r)

  open_list-Kind : Kind type_list (open_list p)
  unfolding open_list has_kind
  open_list-Kind r = OnOk-and_then _ (λ u s. gives _ _ refl)

  open_map-Kind : Kind type_map (open_map p)
  unfolding open_map has_kind
  open_map-Kind r = OnOk-and_then _ (λ u s. gives _ _ refl)

  open_table-Kind : Kind type_table (open_table p)
  unfolding open_table has_kind
  open_table-Kind r = OnOk-and_then _ (λ u s. gives _ _ refl)

  close_container-Kind : Kind terminator (close_container p)
  unfolding close_container has_kind
  close_container-Kind r = OnOk-and_then (goto state_prev r) (λ x0 s0.
      OnOk-and_then (goto (state_switch p container_closed) s0) (λ x1 s1. gives _ s1 refl))

  terminator-Kind : Kind terminator (parse_terminator p)
  unfolding parse_terminator end_columns has_kind
  terminator-Kind r =
      OnOk-if (same_state r.state.state table_columns) (λ e. gives no_value _ refl)
        (close_container-Kind r)

  parse_int64-Kind : Kind type_int64 (parse_int64 p)
  unfolding parse_int64 has_kind
  parse_int64-Kind r =
      OnOk-and_then (get_data p 8 r)
        (λ x0 s0. OnOk-and_then (goto (state_switch p atomic_found) s0) (λ x1 s1. gives _ s1 refl))

  parse_int32-Kind : Kind type_int32 (parse_int32 p)
  unfolding parse_int32 has_kind
  parse_int32-Kind r =
      OnOk-and_then (get_data p 4 r)
        (λ x0 s0. OnOk-and_then (goto (state_switch p atomic_found) s0) (λ x1 s1. gives _ s1 refl))

  parse_int16-Kind : Kind type_int16 (parse_int16 p)
  unfolding parse_int16 has_kind
  parse_int16-Kind r =
      OnOk-and_then (get_data p 2 r)
        (λ x0 s0. OnOk-and_then (goto (state_switch p atomic_found) s0) (λ x1 s1. gives _ s1 refl))

  parse_int8-Kind : Kind type_int8 (parse_int8 p)
  unfolding parse_int8 has_kind
  parse_int8-Kind r =
      OnOk-and_then (get_data p 1 r)
        (λ x0 s0. OnOk-and_then (goto (state_switch p atomic_found) s0) (λ x1 s1. gives _ s1 refl))

  parse_uint64-Kind : Kind type_uint64 (parse_uint64 p)
  unfolding parse_uint64 has_kind
  parse_uint64-Kind r =
      OnOk-and_then (get_data p 8 r)
        (λ x0 s0. OnOk-and_then (goto (state_switch p atomic_found) s0) (λ x1 s1. gives _ s1 refl))

  parse_uint32-Kind : Kind type_uint32 (parse_uint32 p)
  unfolding parse_uint32 has_kind
  parse_uint32-Kind r =
      OnOk-and_then (get_data p 4 r)
        (λ x0 s0. OnOk-and_then (goto (state_switch p atomic_found) s0) (λ x1 s1. gives _ s1 refl))

  parse_uint16-Kind : Kind type_uint16 (parse_uint16 p)
  unfolding parse_uint16 has_kind
  parse_uint16-Kind r =
      OnOk-and_then (get_data p 2 r)
        (λ x0 s0. OnOk-and_then (goto (state_switch p atomic_found) s0) (λ x1 s1. gives _ s1 refl))

  parse_uint8-Kind : Kind type_uint8 (parse_uint8 p)
  unfolding parse_uint8 has_kind
  parse_uint8-Kind r =
      OnOk-and_then (get_data p 1 r)
        (λ x0 s0. OnOk-and_then (goto (state_switch p atomic_found) s0) (λ x1 s1. gives _ s1 refl))

  parse_float16-Kind : Kind type_float16 (parse_float16 p)
  unfolding parse_float16 has_kind
  parse_float16-Kind r =
      OnOk-and_then (get_data p 2 r)
        (λ x0 s0. OnOk-and_then (goto (state_switch p atomic_found) s0) (λ x1 s1. gives _ s1 refl))

  parse_float32-Kind : Kind type_float32 (parse_float32 p)
  unfolding parse_float32 has_kind
  parse_float32-Kind r =
      OnOk-and_then (get_data p 4 r)
        (λ x0 s0. OnOk-and_then (goto (state_switch p atomic_found) s0) (λ x1 s1. gives _ s1 refl))

  parse_float64-Kind : Kind type_float64 (parse_float64 p)
  unfolding parse_float64 has_kind
  parse_float64-Kind r =
      OnOk-and_then (get_data p 8 r)
        (λ x0 s0. OnOk-and_then (goto (state_switch p atomic_found) s0) (λ x1 s1. gives _ s1 refl))

  parse_bool-Kind : Kind type_bool (parse_bool p)
  unfolding parse_bool has_kind
  parse_bool-Kind r =
      OnOk-and_then (get_data p 1 r)
        (λ x0 s0. OnOk-and_then (goto (state_switch p atomic_found) s0) (λ x1 s1. gives _ s1 refl))

  parse_uxtime-Kind : Kind type_ux_time (parse_uxtime p)
  unfolding parse_uxtime has_kind
  parse_uxtime-Kind r =
      OnOk-and_then (get_data p 8 r)
        (λ x0 s0. OnOk-and_then (goto (state_switch p atomic_found) s0) (λ x1 s1. gives _ s1 refl))

  parse_none-Kind : Kind type_none (parse_none p)
  unfolding parse_none has_kind
  parse_none-Kind r =
      OnOk-and_then (goto (state_switch p atomic_found) r) (λ x0 s0. gives _ s0 refl)

  parse_date-Kind : Kind type_date (parse_date p)
  unfolding parse_date has_kind
  parse_date-Kind r = OnOk-and_then (get_uint16 p r) (λ x0 s0.
      OnOk-and_then (get_uint8 p s0) (λ x1 s1. OnOk-and_then (get_uint8 p s1) (λ x2 s2.
        OnOk-and_then (goto (state_switch p atomic_found) s2) (λ x3 s3. gives _ s3 refl))))

  parse_time-Kind : Kind type_time (parse_time p)
  unfolding parse_time has_kind
  parse_time-Kind r = OnOk-and_then (get_uint8 p r) (λ x0 s0.
      OnOk-and_then (get_uint8 p s0) (λ x1 s1. OnOk-and_then (get_uint8 p s1) (λ x2 s2.
        OnOk-and_then (goto (state_switch p atomic_found) s2) (λ x3 s3. gives _ s3 refl))))

  parse_timestamp-Kind : Kind type_timestamp (parse_timestamp p)
  unfolding parse_timestamp has_kind
  parse_timestamp-Kind r = OnOk-and_then (get_uint16 p r) (λ x0 s0.
      OnOk-and_then (get_uint8 p s0) (λ x1 s1. OnOk-and_then (get_uint8 p s1) (λ x2 s2.
        OnOk-and_then (get_uint8 p s2) (λ x3 s3. OnOk-and_then (get_uint8 p s3) (λ x4 s4.
          OnOk-and_then (get_uint8 p s4) (λ x5 s5. OnOk-and_then (get_uint16 p s5) (λ x6 s6.
            OnOk-and_then (goto (state_switch p atomic_found) s6) (λ x7 s7. gives _ s7 refl))))))))

  parse_string-Kind : Kind type_string (parse_string p)
  unfolding parse_string has_kind
  parse_string-Kind r = OnOk-and_then (get_uint8 p r) (λ x0 s0.
      OnOk-and_then (get_data p 4 s0) (λ x1 s1.
        OnOk-and_then (get_units p x0 (from_memory p.order x1) s1) (λ x2 s2.
          OnOk-and_then (goto (state_switch p atomic_found) s2) (λ x3 s3. gives _ s3 refl))))

  parse_binary-Kind : Kind type_bin (parse_binary p)
  unfolding parse_binary has_kind
  parse_binary-Kind r = OnOk-and_then (get_uint8 p r) (λ x0 s0.
      OnOk-and_then (get_data p 4 s0) (λ x1 s1.
        OnOk-and_then (get_array p 1 (from_memory p.order x1) s1) (λ x2 s2.
          OnOk-and_then (goto (state_switch p atomic_found) s2) (λ x3 s3. gives _ s3 refl))))

  chooses :
      (t : ℕ) {m y : M (Reader File Client) Value} (b : Bool)
      → (b ≡ true → Kind t m)
      → Kind t y
      → Kind t (if b then m else y)
  chooses t true h k = h refl
  chooses t false h k = k

  -- The branch of a type id.
  branches :
      {m y : M (Reader File Client) Value} (t k : ℕ)
      → Kind k m
      → Kind t y
      → Kind t (if t == k then m else y)
  branches {m} t k h rest = chooses t (t == k) (λ e. subst (λ n. Kind n m) (equal_if t k e) h) rest

  parse_value-Kind : (t : ℕ) → Kind t (parse_value p t)
  unfolding parse_value
  parse_value-Kind t =
      (branches t type_list open_list-Kind (
        branches t type_map open_map-Kind (
          branches t type_table open_table-Kind (
            branches t terminator terminator-Kind (
              branches t type_int64 parse_int64-Kind (
                branches t type_int32 parse_int32-Kind (
                  branches t type_int16 parse_int16-Kind (
                    branches t type_int8 parse_int8-Kind (
                      branches t type_uint64 parse_uint64-Kind (
                        branches t type_uint32 parse_uint32-Kind (
                          branches t type_uint16 parse_uint16-Kind (
                            branches t type_uint8 parse_uint8-Kind (
                              branches t type_float16 parse_float16-Kind (
                                branches t type_float32 parse_float32-Kind (
                                  branches t type_float64 parse_float64-Kind (
                                    branches t type_bool parse_bool-Kind (
                                      branches t type_none parse_none-Kind (
                                        branches t type_ux_time parse_uxtime-Kind (
                                          branches t type_date parse_date-Kind (
                                            branches t type_time parse_time-Kind (
                                              branches t type_timestamp parse_timestamp-Kind (
                                                branches t type_string parse_string-Kind (
                                                  branches t type_bin parse_binary-Kind (λ r.
                                                    stops err_invalid_data r))))))))))))))))))))))))

  get_next-HasKind : (r : Reader File Client) → OnOk HasKind (get_next p r)
  unfolding get_next scan_element
  get_next-HasKind r =
      OnOk-if (same_state r.state.state closed) (λ e. gives _ _ tt)
        (OnOk-if (p.grants element_size)
          (λ e. OnOk-and_then (get_data p 1 r) (λ bytes s.
            kept (from_memory p.order bytes) (parse_value-Kind (from_memory p.order bytes) s)))
          breaks)
    where
      kept :
          (t : ℕ) {x : Result (Reader File Client) Value}
          → OnOk (λ v. has_kind t v ≡ true) x
          → OnOk HasKind (and_then x (λ v s. ok (found (record { type = t; value = v })) s))
      kept t (gives v s h) = gives _ s h
      kept t (stops code s) = stops code s
      kept t breaks = breaks
      kept t runs_out = runs_out

  abbrev SameResult : Result (Reader File Client) Next → Result (Reader File Client) Next → Type 0
  SameResult x y = x ≡ y

  same_element :
      (v e : Element) (t s : Reader File Client)
      → SameResult (ok (found v) t) (ok (found e) s)
      → e ≡ v
  same_element v e t s q = cc

  kind_of_found :
      (x : Result (Reader File Client) Next) (e : Element) (s : Reader File Client)
      → OnOk HasKind x
      → x ≡ ok (found e) s
      → has_kind e.type e.value ≡ true
  kind_of_found x e s (gives ended t h) q = cc
  kind_of_found x e s (gives (found v) t h) q = rw (same_element v e t s q) h
  kind_of_found x e s (stops code t) q = cc
  kind_of_found x e s breaks q = cc
  kind_of_found x e s runs_out q = cc

  -- Whatever the bytes are, and from memory or from a file: of an element that
  -- `ujo_reader_get_next` hands out, each getter gives a value or an error code, and reads no member
  -- of the union that was not stored.
  pub get_next-getters_work :
      (r s : Reader File Client) (e : Element)
      → get_next p r ≡ ok (found e) s
      → getters_work e ≡ true
  get_next-getters_work r s e q =
      has_kind-getters_work e (kind_of_found (get_next p r) e s (get_next-HasKind r) q)
