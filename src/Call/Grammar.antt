-- ===== src/Call/Grammar.antt =====
-- Where the format lets a call stand, after README.md ("A key can be any type except a container")
-- and src/ujo_writer.h, against the checks of the functions in src/ujo_writer.c.
use libujo_c.Base.{
  ◌<◌, ◌⊎◌, ◌≡◌, refl, ap, ◌∙◌, Bool, true, false, inl, inr, arith, length, ltb→lt, lt→ltb,
  Bool-cases, if◌then◌else◌,
}
use libujo_c.Base.Result.{err}
use libujo_c.Platform.{Platform, Grants}
use libujo_c.State.{
  DocState, root, list, dict_key, dict_value, closed, table_columns, table_values, State,
  enumerator, allow_atomic, allow_container, allow_string, same_state,
}
use libujo_c.State.Same.{same_state→eq}
use libujo_c.State.Shape.{Shape}
use libujo_c.Writer.{Writer}
use libujo_c.Writer.Put.{HasRoom}
use libujo_c.Writer.Entry.{Stands}
use libujo_c.Call.{
  Call, adds, list_opens, list_closes, map_opens, map_closes, table_opens, columns_end,
  table_closes, perform, is_string,
}
use libujo_c.Call.Effect.{bytes, may, both-true, refusal, FitsCall, Succeeds}
use libujo_c.Call.Writes.{perform-stopped, perform-Succeeds}

-- A value is the element of a list, the key or the value of a map, or the cell of a table.
pub data TakesValue : DocState → Type 0 where
  element : TakesValue list
  key : TakesValue dict_key
  value : TakesValue dict_value
  cell : TakesValue table_values

-- A container is the document itself, the element of a list, the value of a map, or the cell of a
-- table: it is no key.
pub data TakesContainer : DocState → Type 0 where
  document : TakesContainer root
  element : TakesContainer list
  value : TakesContainer dict_value
  cell : TakesContainer table_values

-- Only a string names a column, a table has a column, its last row is complete, and a map ends where
-- a key could follow.
abbrev pub Admits : Call → State → Type 0
Admits (adds i) s = TakesValue s.state ⊎ ((is_string i ≡ true) × (s.state ≡ table_columns))
Admits list_opens s = TakesContainer s.state
Admits map_opens s = TakesContainer s.state
Admits table_opens s = TakesContainer s.state
Admits list_closes s = s.state ≡ list
Admits map_closes s = s.state ≡ dict_key
Admits columns_end s = (s.state ≡ table_columns) × (0 < s.columns)
Admits table_closes s = (s.state ≡ table_values) × (s.column ≡ 0)

takes_value : (s : DocState) → allow_atomic s ≡ true → TakesValue s
unfolding allow_atomic
takes_value list h = element
takes_value dict_key h = key
takes_value dict_value h = value
takes_value table_values h = cell
takes_value root h = cc
takes_value closed h = cc
takes_value table_columns h = cc

takes_container : (s : DocState) → allow_container s ≡ true → TakesContainer s
unfolding allow_container
takes_container root h = document
takes_container list h = element
takes_container dict_value h = value
takes_container table_values h = cell
takes_container dict_key h = cc
takes_container closed h = cc
takes_container table_columns h = cc

takes_string : (s : DocState) → allow_string s ≡ true → TakesValue s ⊎ (s ≡ table_columns)
unfolding allow_string allow_atomic
takes_string list h = inl element
takes_string dict_key h = inl key
takes_string dict_value h = inl value
takes_string table_values h = inl cell
takes_string table_columns h = inr refl
takes_string root h = cc
takes_string closed h = cc

atomic_taken : (s : DocState) → TakesValue s → allow_atomic s ≡ true
unfolding allow_atomic
atomic_taken s element = refl
atomic_taken s key = refl
atomic_taken s value = refl
atomic_taken s cell = refl

container_taken : (s : DocState) → TakesContainer s → allow_container s ≡ true
unfolding allow_container
container_taken s document = refl
container_taken s element = refl
container_taken s value = refl
container_taken s cell = refl

string_taken : (s : DocState) → TakesValue s → allow_string s ≡ true
unfolding allow_string allow_atomic
string_taken s element = refl
string_taken s key = refl
string_taken s value = refl
string_taken s cell = refl

name_taken : allow_string table_columns ≡ true
unfolding allow_string
name_taken = refl

same_as : (s : DocState) → same_state s s ≡ true
unfolding same_state enumerator
same_as s = ground arith

is_in : (s t : DocState) → s ≡ t → same_state s t ≡ true
is_in s t e = ap (λ x. same_state x t) e ∙ same_as t

value_admitted :
    (b : Bool) (s : DocState)
    → (if b then allow_string s else allow_atomic s) ≡ true
    → TakesValue s ⊎ ((b ≡ true) × (s ≡ table_columns))
value_admitted true s h = elim (takes_string s h) [ inl t ↦ inl t | inr e ↦ inr (refl, e) ]
value_admitted false s h = inl (takes_value s h)

value_allowed :
    (b : Bool) (s : DocState)
    → TakesValue s ⊎ ((b ≡ true) × (s ≡ table_columns))
    → (if b then allow_string s else allow_atomic s) ≡ true
value_allowed true s (inl t) = string_taken s t
value_allowed true s (inr (_, e)) = ap allow_string e ∙ name_taken
value_allowed false s (inl t) = atomic_taken s t
value_allowed false s (inr (h, _)) = cc

may-Admits : (c : Call) (s : State) → may c s ≡ true → Admits c s
may-Admits (adds i) s h = value_admitted (is_string i) s.state h
may-Admits list_opens s h = takes_container s.state h
may-Admits map_opens s h = takes_container s.state h
may-Admits table_opens s h = takes_container s.state h
may-Admits list_closes s h = same_state→eq s.state list h
may-Admits map_closes s h = same_state→eq s.state dict_key h
may-Admits columns_end s h =
    let (here, more) = both-true _ _ h in
    (same_state→eq s.state table_columns here, ltb→lt 0 s.columns more)
may-Admits table_closes s h =
    let (here, first) = both-true _ _ h in (same_state→eq s.state table_values here, ground arith)

Admits-may : (c : Call) (s : State) → Admits c s → may c s ≡ true
Admits-may (adds i) s a = value_allowed (is_string i) s.state a
Admits-may list_opens s a = container_taken s.state a
Admits-may map_opens s a = container_taken s.state a
Admits-may table_opens s a = container_taken s.state a
Admits-may list_closes s a = is_in s.state list a
Admits-may map_closes s a = is_in s.state dict_key a
Admits-may columns_end s (here, more) =
    rw (is_in s.state table_columns here, lt→ltb 0 s.columns more) refl
Admits-may table_closes s (here, first) = rw (is_in s.state table_values here, first) refl

module _ {File : Type 0} (p : Platform File) where
  -- A call with fitting arguments at a place where the format does not admit it returns the error
  -- code of misplaced data, or of an invalid object for a call that closes or ends the columns, and
  -- leaves the writer as it was. This holds for any writer and any platform.
  pub perform-refused :
      (c : Call) (w : Writer File)
      → FitsCall c
      → ¬ Admits c w.state
      → perform p c w ≡ err (refusal c) w
  perform-refused c w f misplaced = elim (Bool-cases (may c w.state)) [
    | inl allows ↦ absurd (misplaced (may-Admits c w.state allows))
    | inr refuses ↦ perform-stopped p w c f refuses
  ]

  -- Where the format admits the call, a writer into memory that stands at a position of a document
  -- carries it out, with fitting arguments, an allocator that serves every request and room for its
  -- bytes: it writes just the bytes of the call and moves to the position that the format gives.
  pub perform-Admits :
      (c : Call) (w : Writer File) (at : Shape)
      → Grants p
      → Stands w at
      → FitsCall c
      → HasRoom w (length (bytes p.order c))
      → Admits c w.state
      → Succeeds p c w at
  perform-Admits c w at g s f room a = perform-Succeeds p g w at s c f room (Admits-may c w.state a)
