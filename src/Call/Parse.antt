-- ===== src/Call/Parse.antt =====
-- `ujo_reader_parse` of src/ujo_reader.c delivers the calls that wrote a document.
use mathlib.Core.Path.{subst}
use libujo_c.Base.{
  ℕ, zero, suc, ◌≤◌, ◌≡◌, refl, ap, ◌∙◌, List, [], ◌∷◌, ◌++◌, map, Option, some, arith, length,
  append_assoc,
}
use libujo_c.Base.Result.{ok, and_then, ◌>>=◌}
use libujo_c.Platform.{Platform, Grants}
use libujo_c.State.{closed}
use libujo_c.State.Same.{is_closed}
use libujo_c.State.Shape.{Shape}
use libujo_c.Element.{Element}
use libujo_c.Reader.{Reader}
use libujo_c.Reader.Next.{get_next, get_first, notify, notify_by, parse_loop, parse}
use libujo_c.Reader.Input.{Reads, Parses}
use libujo_c.Call.{Call, seen}
use libujo_c.Call.Effect.{bytes}
use libujo_c.Call.Run.{AllFit, all_bytes, PathOf}
use libujo_c.Call.Document.{header_bytes}
use libujo_c.Call.Header.{parse_header-Parses}
use libujo_c.Call.Scan.{get_next-seen}

-- The type of a callback that is given.
abbrev pub Callback : Type 0 → Type 0
Callback Client = Element → Option Client → ℕ × Option Client

-- The client's data after the callback has got the elements one after the other.
abbrev pub hand : {Client : Type 0} → Callback Client → List Element → Option Client → Option Client
hand f [] d = d
hand f (v ∷ vs) d = hand f vs (f v d).1

-- The callback never returns an error code.
abbrev pub Accepts : {Client : Type 0} → Callback Client → Type 0
Accepts {Client} f = (v : Element) (d : Option Client) → (f v d).0 ≡ 0

module _ {File Client : Type 0} (p : Platform File) (g : Grants p) (f : Callback Client)
    (accepts : Accepts f) where
  notifies :
      (v : Element) (d : Option Client) (r : Reader File Client) (rest : List ℕ) (at : Shape)
      → Reads (some f) d r rest at
      → Parses (some f) (f v d).1 (notify p v) r tt rest at
  unfolding notify notify_by
  notifies v d r rest at h = (
    record r { on_element_data = (f v d).1 },
    rw (h.handler, h.data_is, accepts v d) refl,
    record {
      memory = h.memory;
      block = h.block;
      in_block = h.in_block;
      ahead = h.ahead;
      within = h.within;
      small = h.small;
      here = h.here;
      handler = h.handler;
      data_is = refl;
    },
  )

  -- The rest of a document is parsed to its end, and each element is delivered.
  parse_loop-delivers :
      (cs : List Call) (fuel : ℕ) (d : Option Client) (r : Reader File Client) (at to : Shape)
      → AllFit cs
      → length cs ≤ fuel
      → Reads (some f) d r (all_bytes p.order cs) at
      → PathOf cs at to
      → to.0 ≡ closed
      → (r' : Reader File Client) × ((get_next p >>= parse_loop p fuel) r ≡ ok tt r')
        × Reads (some f) (hand f (map seen cs) d) r' [] to
  unfolding parse_loop get_next
  parse_loop-delivers [] fuel d r at to fits enough h path over = (
    r,
    rw (is_closed r.state.state (h.here.current ∙ ap (λ s. s.0) path ∙ over)) refl,
    subst (Reads (some f) d r []) path h,
  )
  parse_loop-delivers (c ∷ cs) zero d r at to fits enough h path over = absurd (omega arith)
  parse_loop-delivers (c ∷ cs) (suc fuel) d r at to fits enough h (l, next, q, path) over =
      let (r1, e1, h1) =
        get_next-seen p g (some f) d c r (all_bytes p.order cs) at next fits.0 h l q in
      let (r2, e2, h2) = notifies (seen c) d r1 (all_bytes p.order cs) next h1 in
      let (r3, e3, same) =
        parse_loop-delivers cs fuel (f (seen c) d).1 r2 next to fits.1 (omega arith) h2 path over in
      (
        r3,
        ap (λ s. and_then s (parse_loop p (suc fuel))) e1
            ∙ ap (λ s. and_then s (λ _. get_next p >>= parse_loop p fuel)) e2
            ∙ e3,
        same,
      )

  -- Behind the elements of calls that leave the document open, the loop goes on.
  pub parse_loop-prefix :
      (cs : List Call) (fuel : ℕ) (d : Option Client) (r : Reader File Client) (rest : List ℕ)
      (at to : Shape)
      → AllFit cs
      → length cs ≤ fuel
      → Reads (some f) d r (all_bytes p.order cs ++ rest) at
      → PathOf cs at to
      → (left : ℕ) × (r' : Reader File Client) × ((get_next p >>= parse_loop p fuel) r
          ≡ (get_next p >>= parse_loop p left) r')
        × Reads (some f) (hand f (map seen cs) d) r' rest to
  unfolding parse_loop
  parse_loop-prefix [] fuel d r rest at to fits enough h path =
      (fuel, r, refl, subst (Reads (some f) d r rest) path h)
  parse_loop-prefix (c ∷ cs) zero d r rest at to fits enough h path = absurd (omega arith)
  parse_loop-prefix (c ∷ cs) (suc fuel) d r rest at to fits enough h (l, next, q, path) =
      let ahead : List ℕ = all_bytes p.order cs ++ rest in
      let (r1, e1, h1) =
        get_next-seen p g (some f) d c r ahead at next fits.0
          (subst (λ xs. Reads (some f) d r xs at)
            (append_assoc (bytes p.order c) (all_bytes p.order cs) rest) h)
          l q in
      let (r2, e2, h2) = notifies (seen c) d r1 ahead next h1 in
      let (left, r3, e3, same) =
        parse_loop-prefix cs fuel (f (seen c) d).1 r2 rest next to fits.1 (omega arith) h2 path in
      (
        left,
        r3,
        ap (λ s. and_then s (parse_loop p (suc fuel))) e1
            ∙ ap (λ s. and_then s (λ _. get_next p >>= parse_loop p fuel)) e2
            ∙ e3,
        same,
      )

  -- A memory reader that has a document before it, written by these calls up to the end of the
  -- document, parses it with fuel for each call, and delivers their elements in order.
  pub parse-delivers :
      (cs : List Call) (fuel : ℕ) (d : Option Client) (r : Reader File Client) (at to : Shape)
      → AllFit cs
      → length cs ≤ fuel
      → Reads (some f) d r (header_bytes ++ all_bytes p.order cs) at
      → PathOf cs at to
      → to.0 ≡ closed
      → (r' : Reader File Client) × (parse p fuel r ≡ ok tt r')
        × Reads (some f) (hand f (map seen cs) d) r' [] to
  unfolding parse get_first
  parse-delivers cs fuel d r at to fits enough h path over =
      let (r1, e1, h1) = parse_header-Parses p g (some f) d r (all_bytes p.order cs) at h in
      let (r2, e2, same) = parse_loop-delivers cs fuel d r1 at to fits enough h1 path over in
      (r2, ap (λ s. and_then (and_then s (λ _. get_next p)) (parse_loop p fuel)) e1 ∙ e2, same)
