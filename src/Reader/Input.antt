-- ===== src/Reader/Input.antt =====
-- Steps of the functions of src/ujo_reader.c on a document in memory.
use mathlib.Core.Path.{subst}
use libujo_c.Base.{
  ℕ, ◌+◌, ◌^◌, ◌≤◌, ◌<◌, ◌≡◌, refl, sym, ap, ◌∙◌, true, List, ◌++◌, Option, some, arith, length,
  take, drop, length-append, length-drop, take-append, drop-append, drop-drop,
}
use libujo_c.Base.Result.{M, ok, and_then, pure, ◌>>=◌}
use libujo_c.Types.{memory_access}
use libujo_c.Platform.{Platform, Grants}
use libujo_c.State.{DocState, DocEvent, Place, state_next, state_prev, state_switch}
use libujo_c.State.Shape.{Shape, enter, leave, after}
use libujo_c.State.Refine.{At, Follows, state_next-At, state_prev-At, state_switch-At}
use libujo_c.Element.{Element}
use libujo_c.Reader.{Reader, goto, get_from, get_memory_data, get_data_by, get_data}

-- The type of a callback and of the client's data.
abbrev pub Handler : Type 0 → Type 0
Handler Client = Option (Element → Option Client → ℕ × Option Client)

-- A memory reader that has `rest` before it and stands at a position, with its callback and the
-- client's data.
pub record Reads {File Client : Type 0} (f : Handler Client) (d : Option Client)
    (r : Reader File Client) (rest : List ℕ) (at : Shape) : Type 0 where
  pub memory : r.type ≡ memory_access
  pub block : List ℕ
  pub in_block : r.buffer ≡ some block
  pub ahead : drop r.parsed block ≡ rest
  pub within : r.parsed ≤ length block
  pub small : length block < 2 ^ 64
  pub here : At true (r.state, r.state_stack) at
  pub handler : r.on_element ≡ f
  pub data_is : r.on_element_data ≡ d

pub front_of :
    (xs rest : List ℕ) {ys : List ℕ} {n : ℕ} → ys ≡ xs ++ rest → length xs ≡ n → take n ys ≡ xs
front_of xs rest {ys} {n} e l =
    ap (take n) e ∙ ap (λ k. take k (xs ++ rest)) (sym l) ∙ take-append xs rest

pub back_of :
    (xs rest : List ℕ) {ys : List ℕ} {n : ℕ} → ys ≡ xs ++ rest → length xs ≡ n → drop n ys ≡ rest
back_of xs rest {ys} {n} e l =
    ap (drop n) e ∙ ap (λ k. drop k (xs ++ rest)) (sym l) ∙ drop-append xs rest

module _ {File Client : Type 0} where
  get_from_lem :
      (r : Reader File Client) (block : List ℕ) (n : ℕ)
      → r.parsed + n ≤ length block
      → length block < 2 ^ 64
      → get_from (some block) n r
        ≡ ok (take n (drop r.parsed block)) (record r { parsed = r.parsed + n })
  unfolding get_from
  get_from_lem r block n h s = ground arith

-- The call gives `a`, and leaves `rest` before the reader and the position.
abbrev pub Parses :
    {File Client A : Type 0}
    → Handler Client
    → Option Client
    → M (Reader File Client) A
    → Reader File Client
    → A
    → List ℕ
    → Shape
    → Type 0
Parses {File} {Client} f d m r a rest at =
    (r' : Reader File Client) × (m r ≡ ok a r') × Reads f d r' rest at

module _ {File Client : Type 0} (p : Platform File) (g : Grants p) (f : Handler Client)
    (d : Option Client) where
  -- A function of the reader gives `a`, and leaves `rest` and the position.
  pub then-Parses :
      {A B : Type 0} (m : M (Reader File Client) A) (k : A → M (Reader File Client) B)
      (r : Reader File Client) (a : A) (b : B) (rest rest' : List ℕ) (at at' : Shape)
      → Parses f d m r a rest at
      → ((r' : Reader File Client) → Reads f d r' rest at → Parses f d (k a) r' b rest' at')
      → Parses f d (m >>= k) r b rest' at'
  then-Parses m k r a b rest rest' at at' (r1, e, h) go =
      let (r2, e', h') = go r1 h in (r2, ap (λ s. and_then s k) e ∙ e', h')

  pub gives :
      {A : Type 0} (a : A) (r : Reader File Client) (rest : List ℕ) (at : Shape)
      → Reads f d r rest at
      → Parses f d (pure a) r a rest at
  gives a r rest at h = (r, refl, h)

  -- The bytes before the reader are read, and it moves behind them.
  pub takes :
      (r : Reader File Client) (xs rest : List ℕ) (n : ℕ) (at : Shape)
      → Reads f d r (xs ++ rest) at
      → length xs ≡ n
      → Parses f d (get_data p n) r xs rest at
  unfolding get_data get_data_by get_memory_data
  takes r xs rest n at h e =
      let long : r.parsed + n ≤ length h.block =
        omega (
          arith,
          h.within,
          length-drop r.parsed h.block,
          ap length h.ahead,
          length-append xs rest,
        ) in
      (
        record r { parsed = r.parsed + n },
        ap (λ t. get_data_by p t n r) h.memory
            ∙ ap (λ b. get_from b n r) h.in_block
            ∙ get_from_lem r h.block n long h.small
            ∙ ap (λ ys. ok ys (record r { parsed = r.parsed + n })) (front_of xs rest h.ahead e),
        record {
          memory = h.memory;
          block = h.block;
          in_block = h.in_block;
          ahead = drop-drop r.parsed n h.block ∙ back_of xs rest h.ahead e;
          within = long;
          small = h.small;
          here = h.here;
          handler = h.handler;
          data_is = h.data_is;
        },
      )

  moves_to :
      (move : Place → Option Place) (r : Reader File Client) (rest : List ℕ) (at next : Shape)
      → Reads f d r rest at
      → Follows true (move (r.state, r.state_stack)) (some next)
      → Parses f d (goto move) r tt rest next
  moves_to move r rest at next h (place, e, here) = (
    record r { state = place.0; state_stack = place.1 },
    rw (goto, e),
    record {
      memory = h.memory;
      block = h.block;
      in_block = h.in_block;
      ahead = h.ahead;
      within = h.within;
      small = h.small;
      here = here;
      handler = h.handler;
      data_is = h.data_is;
    },
  )

  pub switches :
      (e : DocEvent) (r : Reader File Client) (rest : List ℕ) (at next : Shape)
      → Reads f d r rest at
      → after e at ≡ some next
      → Parses f d (goto (state_switch p e)) r tt rest next
  switches e r rest at next h q = moves_to (state_switch p e) r rest at next h (
      subst (λ s. Follows true (state_switch p e (r.state, r.state_stack)) s) q
        (state_switch-At p g e (r.state, r.state_stack) at h.here))

  pub leaves_to :
      (r : Reader File Client) (rest : List ℕ) (at next : Shape)
      → Reads f d r rest at
      → leave at ≡ some next
      → Parses f d (goto state_prev) r tt rest next
  leaves_to r rest at next h q = moves_to state_prev r rest at next h (
      subst (λ s. Follows true (state_prev (r.state, r.state_stack)) s) q
        (state_prev-At (r.state, r.state_stack) at h.here))

  pub enters_to :
      (k : DocState) (r : Reader File Client) (rest : List ℕ) (at : Shape)
      → Reads f d r rest at
      → Parses f d (goto (state_next p k)) r tt rest (enter k at)
  enters_to k r rest at h =
      moves_to (state_next p k) r rest at (enter k at) h
        (state_next-At p g k (r.state, r.state_stack) at h.here)
