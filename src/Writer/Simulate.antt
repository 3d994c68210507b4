-- ===== src/Writer/Simulate.antt =====
-- A writer of src/ujo_writer.c to a file does what a writer into memory does, and the file gets the
-- bytes that the other one has in its buffer.
use mathlib.Core.Path.{subst, subst₂}
use libujo_c.Base.{
  ℕ, ◌^◌, ◌≤◌, ◌<◌, ◌≡◌, Bool, refl, sym, ap, ◌∙◌, true, false, Option-cases, List, ◌++◌, Option,
  some, arith, length, take, take-all, Bool-cases, inl, inr, ◌==◌,
}
use libujo_c.Base.Result.{M, Result, ok, err, fault, and_then, report_error, drop_error}
use libujo_c.Types.{memory_access, file_access, err_file}
use libujo_c.Platform.{Platform, Grants}
use libujo_c.Stack.{Stack}
use libujo_c.State.{Place, State}
use libujo_c.Writer.{Writer, put, put_by, put_memory, write_file, goto}
use libujo_c.Writer.Put.{contents}
use libujo_c.Writer.Keep.{Took, put_memory-Took}
use libujo_c.Writer.Program.{
  Made, gives, fails, crashes, puts, moves, requires, sets, then_goes, drops,
}

-- A stream that a file is written through: `stream xs` is the file with the bytes xs, and `fwrite` appends
-- all that it is given.
pub record Appends {File : Type 0} (p : Platform File) (stream : List ℕ → File) : Type 0 where
  pub takes : (xs ys : List ℕ) → p.fwrite (stream xs) ys ≡ (length ys, stream (xs ++ ys))

-- What `fwrite` appends may also be a beginning of what it is given, as long as it returns how much it is.
pub record Counts {File : Type 0} (p : Platform File) (stream : List ℕ → File) : Type 0 where
  pub written : (xs ys : List ℕ) → ℕ
  pub no_more : (xs ys : List ℕ) → written xs ys ≤ length ys
  pub takes :
      (xs ys : List ℕ)
      → p.fwrite (stream xs) ys ≡ (written xs ys, stream (xs ++ take (written xs ys) ys))

module _ {File : Type 0} (stream : List ℕ → File) where
  -- The first writer has in memory what the second one has in its file.
  pub record Mirrors (w v : Writer File) : Type 0 where
    pub memory : w.type ≡ memory_access
    pub sized : length w.buffer ≡ w.buffersize
    pub within : w.bytes ≤ w.buffersize
    pub small : w.buffersize < 2 ^ 64
    pub in_file : v.type ≡ file_access
    pub written : v.file ≡ some (stream (contents w))
    pub same_state : w.state ≡ v.state
    pub same_stack : w.state_stack ≡ v.state_stack

  Mirrors-state :
      {w v : Writer File} {s s' : State} {k k' : Option (Stack State)}
      → Mirrors w v
      → s ≡ s'
      → k ≡ k'
      → Mirrors
          (record w { state = s; state_stack = k })
          (record v { state = s'; state_stack = k' })
  Mirrors-state b e f = record {
    memory = b.memory;
    sized = b.sized;
    within = b.within;
    small = b.small;
    in_file = b.in_file;
    written = b.written;
    same_state = e;
    same_stack = f;
  }

not_both : {b : Bool} → b ≡ true → b ≡ false → ⊥
not_both e e' = cc

module _ {File : Type 0} (stream : List ℕ → File) (short : Bool) where
  -- What the second writer does beside the first one; where writes may be short, it may fail.
  pub data Follows
      : Result (Writer File) (Unit {0}) → Result (Writer File) (Unit {0}) → Type 0 where
    faulted : (y : Result (Writer File) (Unit {0})) → Follows fault y
    same_ok : (w v : Writer File) → Mirrors stream w v → Follows (ok tt w) (ok tt v)
    same_err :
        (code : ℕ) (w v : Writer File) → Mirrors stream w v → Follows (err code w) (err code v)
    failed :
        short ≡ true
        → (x : Result (Writer File) (Unit {0})) (v : Writer File) → Follows x (err err_file v)

  pub Follows-and_then :
      {x y : Result (Writer File) (Unit {0})} (k : M (Writer File) (Unit {0}))
      → Follows x y
      → ((w v : Writer File) → Mirrors stream w v → Follows (k w) (k v))
      → Follows (and_then x (λ _. k)) (and_then y (λ _. k))
  Follows-and_then k (faulted y) go = faulted (and_then y (λ _. k))
  Follows-and_then k (failed s x v) go = failed s (and_then x (λ _. k)) v
  Follows-and_then k (same_ok w v b) go = go w v b
  Follows-and_then k (same_err code w v b) go = same_err code w v b

  Follows-drop :
      (m : M (Writer File) (Unit {0})) (w v : Writer File)
      → short ≡ false
      → Follows (m w) (m v)
      → Follows (drop_error m w) (drop_error m v)
  Follows-drop m w v whole h = dropped (m w) (m v) h
    where
      dropped :
          (x y : Result (Writer File) (Unit {0}))
          → Follows x y
          → Follows (drop_error (λ (u : Writer File). x) w) (drop_error (λ (u : Writer File). y) v)
      dropped x y (faulted z) = faulted _
      dropped x y (failed s z v) = absurd (not_both s whole)
      dropped x y (same_ok w v b) = same_ok w v b
      dropped x y (same_err code w v b) = same_ok w v b

module _ {File : Type 0} (p : Platform File) (stream : List ℕ → File) (short loses : Bool)
    (put_same : (xs : List ℕ) (w v : Writer File)
      → Mirrors stream w v
      → Follows stream short (put p xs w) (put p xs v))
    (keeps : loses ≡ true → short ≡ false) where
  abbrev Both : M (Writer File) (Unit {0}) → Type 0
  Both m = (w v : Writer File) → Mirrors stream w v → Follows stream short (m w) (m v)

  goto-Both : (f : Place → Option Place) → Both (goto f)
  goto-Both f w v b =
      let same : f (w.state, w.state_stack) ≡ f (v.state, v.state_stack) =
        rw (b.same_state, b.same_stack) in
      elim (Option-cases (f (v.state, v.state_stack))) [
        | inl e ↦ rw (goto, same, e) (faulted _)
        | inr (at, e) ↦ rw (goto, same, e) (same_ok _ _ (Mirrors-state stream b refl refl))
      ]

  told : (c : Bool) (code : ℕ) → Both (report_error c code)
  told true code w v b = same_ok w v b
  told false code w v b = same_err code w v b

  pub Made-Both : {m : M (Writer File) (Unit {0})} → Made p loses m → Both m
  Made-Both gives w v b = same_ok w v b
  Made-Both (fails code) w v b = same_err code w v b
  Made-Both crashes w v b = faulted fault
  Made-Both (puts xs) w v b = put_same xs w v b
  Made-Both (moves f) w v b = goto-Both f w v b
  Made-Both (requires test code) w v b =
      subst
        (λ s.
          Follows stream short (report_error (test w.state) code w) (report_error (test s) code v))
        b.same_state (told (test w.state) code w v b)
  Made-Both (sets f) w v b = same_ok _ _ (Mirrors-state stream b (ap f b.same_state) b.same_stack)
  Made-Both (then_goes {k} m go) w v b =
      Follows-and_then stream short k (Made-Both m w v b) (Made-Both go)
  Made-Both (drops {m} l h) w v b = Follows-drop stream short m w v (keeps l) (Made-Both h w v b)

-- What the code relies on where a file takes bytes.
module _ {File : Type 0} (p : Platform File) (g : Grants p) (stream : List ℕ → File) where
  mirrored :
      (w v w' : Writer File) (xs : List ℕ)
      → Mirrors stream w v
      → Took w xs w'
      → Mirrors stream w' (record v { file = some (stream (contents w ++ xs)) })
  mirrored w v w' xs b t = record {
    memory = t.sound.memory;
    sized = t.sound.sized;
    within = t.sound.within;
    small = t.sound.small;
    in_file = b.in_file;
    written = ap (λ ys. some (stream ys)) (sym t.written);
    same_state = t.same_state ∙ b.same_state;
    same_stack = t.same_stack ∙ b.same_stack;
  }

  equal : (n : ℕ) → (n == n) ≡ true
  equal n = ground arith

  -- A `put` on both, from what `fwrite` does.
  put-Follows :
      (short : Bool)
      → ((xs : List ℕ) (w v w' : Writer File)
          → Mirrors stream w v
          → Took w xs w'
          → Follows stream short (ok tt w') (write_file p (some (stream (contents w))) xs v))
      → (xs : List ℕ) (w v : Writer File) → Mirrors stream w v
      → Follows stream short (put p xs w) (put p xs v)
  unfolding put put_by
  put-Follows short writes xs w v b =
      subst₂ (λ t u. Follows stream short (put_by p t xs w) (put_by p u xs v)) (sym b.memory)
        (sym b.in_file)
        (subst (λ f. Follows stream short (put_memory p xs w) (write_file p f xs v)) (sym b.written)
          (elim (put_memory-Took p w xs
            (record { memory = b.memory; sized = b.sized; within = b.within; small = b.small })) [
              | inl e ↦ rw e (faulted _)
              | inr (inr (e, refused)) ↦ absurd (not_both (g _) refused)
              | inr (inl (w', e, t)) ↦ rw e (writes xs w v w' b t)
            ]))

  pub put-Appends :
      Appends p stream
      → (xs : List ℕ) (w v : Writer File) → Mirrors stream w v
      → Follows stream false (put p xs w) (put p xs v)
  unfolding write_file
  put-Appends appends = put-Follows false λ xs w v w' b t.
      rw (appends.takes (contents w) xs, equal (length xs)) (same_ok w' _ (mirrored w v w' xs b t))

  pub put-Counts :
      Counts p stream
      → (xs : List ℕ) (w v : Writer File) → Mirrors stream w v
      → Follows stream true (put p xs w) (put p xs v)
  unfolding write_file
  put-Counts c = put-Follows true λ xs w v w' b t.
      elim (Bool-cases (c.written (contents w) xs == length xs)) [
        | inl whole ↦
            let all : c.written (contents w) xs ≡ length xs = ground arith in
            let same : take (c.written (contents w) xs) xs ≡ xs =
              take-all _ xs (omega (arith, all)) in
            rw (c.takes (contents w) xs, whole, same) (same_ok w' _ (mirrored w v w' xs b t))
        | inr less ↦ rw (c.takes (contents w) xs, less) (failed refl _ _)
      ]
