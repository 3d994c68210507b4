-- ===== src/State/Same.antt =====
-- The comparison of document states in src/ujo_state.c and its users.
use libujo_c.Base.{◌≡◌, refl, true, false, ◌⊎◌, inl, inr, arith}
use libujo_c.State.{
  root, list, dict_key, dict_value, closed, table_columns, table_values, DocState, same_state,
  enumerator,
}

pub same_state→eq : (s t : DocState) → same_state s t ≡ true → s ≡ t
unfolding same_state enumerator
same_state→eq s t h = ground arith

-- The end of a document is told apart from every other state.
pub closed-or_open : (s : DocState) → (s ≡ closed) ⊎ (same_state s closed ≡ false)
unfolding same_state enumerator
closed-or_open closed = inl refl
closed-or_open root = inr refl
closed-or_open list = inr refl
closed-or_open dict_key = inr refl
closed-or_open dict_value = inr refl
closed-or_open table_columns = inr refl
closed-or_open table_values = inr refl

pub closes_columns : (s : DocState) → s ≡ table_columns → same_state s table_columns ≡ true
unfolding same_state enumerator
closes_columns s e = rw e refl

pub closes_list : (s : DocState) → s ≡ list → same_state s table_columns ≡ false
unfolding same_state enumerator
closes_list s e = rw e refl

pub closes_map : (s : DocState) → s ≡ dict_key → same_state s table_columns ≡ false
unfolding same_state enumerator
closes_map s e = rw e refl

pub closes_table : (s : DocState) → s ≡ table_values → same_state s table_columns ≡ false
unfolding same_state enumerator
closes_table s e = rw e refl

pub is_closed : (s : DocState) → s ≡ closed → same_state s closed ≡ true
unfolding same_state enumerator
is_closed s e = rw e refl
