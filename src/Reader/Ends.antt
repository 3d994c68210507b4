-- ===== src/Reader/Ends.antt =====
-- The reader of src/ujo_reader.c on any bytes in memory: it ends, and its cursor stays in the buffer.
use mathlib.Core.Path.{subst}
use libujo_c.Base.{
  if◌then◌else◌, Option-cases, ℕ, zero, suc, ◌+◌, ◌%◌, ◌^◌, ◌≤◌, ◌<◌, ◌≡◌, sym, Bool, true, false,
  List, Option, none, some, arith, length, ltb, inl, inr, ◌==◌, take, drop,
}
use libujo_c.Base.Result.{
  M, Result, pure, fail, ◌>>=◌, Ensures, returns, raises, faults, Ensures-and_then, Ensures-if,
  Ensures-weaken,
}
use libujo_c.Types.{memory_access}
use libujo_c.Platform.{Platform}
use libujo_c.State.{Place, same_state, closed}
use libujo_c.Element.{Element}
use libujo_c.Words.{from_memory}
use libujo_c.Reader.{Reader, get_data, get_data_by, get_memory_data, get_from, goto}
use libujo_c.Reader.Next.{
  Next, ended, found, element_size, get_next, get_first, scan_element, notify, notify_by,
  parse_loop, parse,
}
use libujo_c.Reader.Program.{
  Made, gives, fails, crashes, takes, moves, enters_rows, keeps_magic, keeps_version,
  keeps_compression, asks_version, notifies, then_goes, branches, parse_value-Program,
  parse_header-Program,
}

-- A memory reader with a buffer, its cursor at `low` or behind it, and not behind the buffer.
pub record Within {File Client : Type 0} (block : List ℕ) (low : ℕ) (r : Reader File Client)
    : Type 0 where
  pub memory : r.type ≡ memory_access
  pub in_block : r.buffer ≡ some block
  pub from_low : low ≤ r.parsed
  pub inside : r.parsed ≤ length block

module _ {File Client : Type 0} (p : Platform File) (block : List ℕ)
    (small : length block < 2 ^ 64) where
  -- What a call gives leaves the cursor within the buffer, and behind `low`.
  abbrev pub Stays : {A : Type 0} → ℕ → Result (Reader File Client) A → Type 0
  Stays low = Ensures (λ a r. Within block low r) (Within block low)

  get_from-Stays :
      (low n : ℕ) (r : Reader File Client)
      → Within block low r
      → Stays (low + n) (get_from (some block) n r)
  unfolding get_from
  get_from-Stays low n r w =
      Ensures-if (ltb (length block) (r.parsed + n)) (λ _. faults)
        λ fits.
          returns (take n (drop r.parsed block)) (record r { parsed = (r.parsed + n) % 2 ^ 64 })
            (record {
              memory = w.memory;
              in_block = w.in_block;
              from_low = ground (arith, w.from_low, small);
              inside = ground (arith, small);
            })

  get_data-Stays :
      (low n : ℕ) (r : Reader File Client) → Within block low r → Stays (low + n) (get_data p n r)
  unfolding get_data get_data_by get_memory_data
  get_data-Stays low n r w =
      subst (λ t. Stays (low + n) (get_data_by p t n r)) (sym w.memory)
        (subst (λ b. Stays (low + n) (get_from b n r)) (sym w.in_block) (get_from-Stays low n r w))

  Within-weaken :
      (low n : ℕ) (r : Reader File Client) → Within block (low + n) r → Within block low r
  Within-weaken low n r w = record {
    memory = w.memory;
    in_block = w.in_block;
    from_low = omega (arith, w.from_low);
    inside = w.inside;
  }

  goto-Stays :
      (f : Place → Option Place) (low : ℕ) (r : Reader File Client)
      → Within block low r
      → Stays low (goto f r)
  goto-Stays f low r w = elim (Option-cases (f (r.state, r.state_stack))) [
    | inl e ↦ rw (goto, e) faults
    | inr (at, e) ↦
        rw (goto, e)
          (returns tt (record r { state = at.0; state_stack = at.1 })
            (record {
              memory = w.memory;
              in_block = w.in_block;
              from_low = w.from_low;
              inside = w.inside;
            }))
  ]

  told_or_failed :
      (code : ℕ) (b : Bool) (r : Reader File Client) (low : ℕ)
      → Within block low r
      → Stays low ((if b then pure tt else fail code) r)
  told_or_failed code true r low w = returns tt r w
  told_or_failed code false r low w = raises code r w

  notify_by-Stays :
      (h : Option (Element → Option Client → ℕ × Option Client)) (v : Element) (low : ℕ)
      (r : Reader File Client)
      → Within block low r
      → Stays low (notify_by p h v r)
  unfolding notify_by
  notify_by-Stays none v low r w = returns tt r w
  notify_by-Stays (some f) v low r w =
      let told = (f v r.on_element_data).1 in
      let after : Within block low (record r { on_element_data = told }) = record {
        memory = w.memory;
        in_block = w.in_block;
        from_low = w.from_low;
        inside = w.inside;
      } in
      let code : ℕ = (f v r.on_element_data).0 in
      told_or_failed code (code == 0) (record r { on_element_data = told }) low after

  -- Every program of the reader's steps keeps the cursor within the buffer, and never takes it back.
  Made-Stays :
      {A : Type 0} {m : M (Reader File Client) A} (low : ℕ) (r : Reader File Client)
      → Made p A m
      → Within block low r
      → Stays low (m r)
  unfolding notify
  Made-Stays low r (gives a) w = returns a r w
  Made-Stays low r (fails code) w = raises code r w
  Made-Stays low r crashes w = faults
  Made-Stays low r (takes n) w =
      Ensures-weaken (λ a s. Within-weaken low n s) (Within-weaken low n) (get_data-Stays low n r w)
  Made-Stays low r (moves f) w = goto-Stays f low r w
  Made-Stays low r enters_rows w = returns tt _ (record {
    memory = w.memory;
    in_block = w.in_block;
    from_low = w.from_low;
    inside = w.inside;
  })
  Made-Stays low r (keeps_magic code) w = returns tt _ (record {
    memory = w.memory;
    in_block = w.in_block;
    from_low = w.from_low;
    inside = w.inside;
  })
  Made-Stays low r (keeps_version n) w = returns tt _ (record {
    memory = w.memory;
    in_block = w.in_block;
    from_low = w.from_low;
    inside = w.inside;
  })
  Made-Stays low r (keeps_compression n) w = returns tt _ (record {
    memory = w.memory;
    in_block = w.in_block;
    from_low = w.from_low;
    inside = w.inside;
  })
  Made-Stays low r asks_version w = returns r.version r w
  Made-Stays low r (notifies v) w = notify_by-Stays r.on_element v low r w
  Made-Stays low r (then_goes {k} m go) w =
      Ensures-and_then k (Made-Stays low r m w) (λ a s. Made-Stays low s (go a))
  Made-Stays low r (branches test m k) w =
      Ensures-if (test r.state) (λ _. Made-Stays low r m w) (λ _. Made-Stays low r k w)

  -- An element was found, and a byte was taken, or the document was over.
  Ready : ℕ → Next → Reader File Client → Type 0
  Ready low ended r = Within block low r
  Ready low (found v) r = Within block (low + 1) r

  Within-zero : (low : ℕ) (r : Reader File Client) → Within block low r → Within block 0 r
  Within-zero low r w = record {
    memory = w.memory;
    in_block = w.in_block;
    from_low = omega arith;
    inside = w.inside;
  }

  -- An element takes a byte at least.
  scan_element-Ready :
      (low : ℕ) (r : Reader File Client)
      → Within block low r
      → Ensures (Ready low) (Within block low) (scan_element p r)
  unfolding scan_element Ready
  scan_element-Ready low r w =
      Ensures-and_then _
        (Ensures-weaken (λ a s h. h) (Within-weaken low 1) (get_data-Stays low 1 r w))
        λ bytes s w'.
          Ensures-and_then _
            (Ensures-weaken (λ a t h. h) (Within-weaken low 1)
              (Made-Stays (low + 1) s (parse_value-Program p (from_memory p.order bytes)) w'))
            λ v t w''. returns _ t w''

  get_next-Ready :
      (low : ℕ) (r : Reader File Client)
      → Within block low r
      → Ensures (Ready low) (Within block low) (get_next p r)
  unfolding get_next Ready
  get_next-Ready low r w =
      Ensures-if (same_state r.state.state closed) (λ _. returns ended r w)
        λ _. Ensures-if (p.grants element_size) (λ _. scan_element-Ready low r w) (λ _. faults)

  parse_loop-Stays :
      (fuel : ℕ) (next : Next) (low : ℕ) (r : Reader File Client)
      → length block ≤ fuel + low
      → Ready low next r
      → Stays 0 (parse_loop p fuel next r)
  unfolding parse_loop Ready
  parse_loop-Stays zero ended low r h w = returns tt r (Within-zero low r w)
  parse_loop-Stays (suc fuel) ended low r h w = returns tt r (Within-zero low r w)
  parse_loop-Stays zero (found v) low r h w = absurd (omega (arith, w.from_low, w.inside))
  parse_loop-Stays (suc fuel) (found v) low r h w =
      Ensures-and_then (λ _. get_next p >>= parse_loop p fuel)
        (Ensures-weaken (λ a s w'. w') (Within-zero (low + 1))
          (Made-Stays (low + 1) r (notifies v) w))
        λ a s w'.
          Ensures-and_then (parse_loop p fuel)
            (Ensures-weaken (λ b t w''. w'') (Within-zero (low + 1))
              (get_next-Ready (low + 1) s w'))
            λ next t ready. parse_loop-Stays fuel next (low + 1) t (omega arith) ready

  -- `ujo_reader_parse` ends on any bytes in memory, with fuel for each byte of the buffer: it gives a
  -- value or an error code, or reads behind the buffer or through a NULL pointer; where it returns,
  -- the buffer is the same and the cursor lies within it.
  pub parse-Stays :
      (fuel : ℕ) (r : Reader File Client)
      → length block ≤ fuel
      → Within block 0 r
      → Stays 0 (parse p fuel r)
  unfolding parse get_first
  parse-Stays fuel r enough w =
      Ensures-and_then (parse_loop p fuel)
        (Ensures-and_then (λ _. get_next p) (Made-Stays 0 r (parse_header-Program p) w)
          (λ a s. get_next-Ready 0 s))
        λ next s ready. parse_loop-Stays fuel next 0 s (omega arith) ready
