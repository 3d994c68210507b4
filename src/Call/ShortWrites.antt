-- ===== src/Call/ShortWrites.antt =====
-- A file writer of src/ujo_writer.c whose file does not take all that it is given.
use mathlib.Core.Path.{subst}
use libujo_c.Base.{ℕ, ◌≡◌, sym, ap, ◌∙◌, true, false, List, [], ◌++◌, some, arith}
use libujo_c.Base.Result.{Result, ok, err}
use libujo_c.Platform.{Platform, Grants}
use libujo_c.State.{root}
use libujo_c.Writer.{Writer, header, new_file_writer}
use libujo_c.Writer.Put.{contents}
use libujo_c.Writer.Simulate.{
  Counts, put-Counts, Mirrors, Follows, faulted, same_ok, same_err, failed,
}
use libujo_c.Call.{Call}
use libujo_c.Call.Effect.{refusal}
use libujo_c.Call.Run.{AllFit, all_bytes, run, Ran, ended, stopped, run-Ran}
use libujo_c.Call.Document.{header_bytes, IsSmall, new_memory_writer-Done}
use libujo_c.Call.Mirror.{
  AllReported, empty_memory, empty_file, finished-ok, memory_lem, file_lem, header-Both, run-Both,
}

module _ {File : Type 0} (p : Platform File) (g : Grants p) (stream : List ℕ → File)
    (counts : Counts p stream) where
  -- Both succeed, and the file has what is in memory.
  Follows-both :
      (x y : Result (Writer File) (Unit {0})) (w v : Writer File)
      → Follows stream true x y
      → x ≡ ok tt w
      → y ≡ ok tt v
      → Mirrors stream w v
  Follows-both x y w v (faulted z) e e' = cc
  Follows-both x y w v (failed s z u) e e' = cc
  Follows-both x y w v (same_err code t u b) e e' = cc
  Follows-both x y w v (same_ok t u b) e e' =
      let first : t ≡ w = cc in
      let second : u ≡ v = cc in
      subst (λ z. Mirrors stream z v) first (subst (Mirrors stream t) second b)

  -- Where the first is refused, the second does not succeed.
  never_ok :
      (x y : Result (Writer File) (Unit {0})) (code : ℕ) (w v : Writer File)
      → Follows stream true x y
      → x ≡ err code w
      → y ≡ ok tt v
      → ⊥
  never_ok x y code w v (faulted z) e e' = cc
  never_ok x y code w v (failed s z u) e e' = cc
  never_ok x y code w v (same_err code' t u b) e e' = cc
  never_ok x y code w v (same_ok t u b) e e' = cc

  -- In memory the same calls succeed.
  Ran-Mirrors :
      (cs : List Call) (w v v' : Writer File)
      → contents w ≡ header_bytes
      → Follows stream true (run p cs w) (run p cs v)
      → run p cs v ≡ ok tt v'
      → Ran p cs w (root, [])
      → v'.file ≡ some (stream (header_bytes ++ all_bytes p.order cs))
  Ran-Mirrors cs w v v' c h r (ended to w' e path d) =
      let b = Follows-both (run p cs w) (run p cs v) w' v' h e r in
      b.written ∙ ap (λ xs. some (stream xs)) (d.written ∙ ap (λ xs. xs ++ all_bytes p.order cs) c)
  Ran-Mirrors cs w v v' c h r (stopped before b rest to w' split e refuses path d) =
      absurd (never_ok (run p cs w) (run p cs v) (refusal b) w' v' h e r)

  -- If a file may take only a beginning of what it is given, and `fwrite` says how much, then calls that
  -- succeed on a new file writer have lost nothing: the file holds the header and the bytes of each
  -- call, where the calls have arguments of their C types, close no table and would fit into memory, the allocator serves
  -- every request and the file is opened empty.
  pub run_complete :
      (cs : List Call) (v v' : Writer File) (name : List ℕ)
      → AllFit cs
      → AllReported false cs
      → IsSmall p g cs
      → p.fopen name true ≡ some (stream [])
      → new_file_writer p name ≡ ok v tt
      → run p cs v ≡ ok tt v'
      → v'.file ≡ some (stream (header_bytes ++ all_bytes p.order cs))
  run_complete cs v v' name fits reported small opens new r =
      let (w, made, stands, holds, size) = new_memory_writer-Done p g in
      let first : header p (empty_memory p) ≡ ok tt w =
        finished-ok p (header p (empty_memory p)) w (sym (memory_lem p g) ∙ made) in
      let second : header p (empty_file p (stream [])) ≡ ok tt v =
        finished-ok p (header p (empty_file p (stream []))) v
          (sym (file_lem p g name (stream []) opens) ∙ new) in
      let b : Mirrors stream w v =
        Follows-both (header p (empty_memory p)) (header p (empty_file p (stream []))) w v
          (header-Both p stream true false (put-Counts p g stream counts) (λ e. sym e)) first
          second in
      Ran-Mirrors cs w v v' holds
        (run-Both p stream true false (put-Counts p g stream counts) (λ e. sym e) cs w v reported b)
        r (run-Ran p g cs w (root, []) fits stands (omega (arith, small, size)))
