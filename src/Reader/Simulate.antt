-- ===== src/Reader/Simulate.antt =====
-- Two readers of src/ujo_reader.c that take the same bytes from different inputs, and do the same
-- with them until one of them reads behind the end.
use mathlib.Core.Path.{subst}
use libujo_c.Base.{
  ℕ, zero, suc, ◌≡◌, refl, ap, Bool, true, false, List, Option, Option-cases, none, some, inl, inr,
  ◌==◌, if◌then◌else◌,
}
use libujo_c.Base.Result.{M, Result, ok, err, fault, out_of_fuel, and_then, pure, fail, ◌>>=◌}
use libujo_c.Types.{AccessType, err_file}
use libujo_c.Platform.{Platform}
use libujo_c.Stack.{Stack}
use libujo_c.State.{Place, State}
use libujo_c.Element.{Element}
use libujo_c.Reader.{Reader, get_data, goto}
use libujo_c.Reader.Next.{Next, ended, found, get_next, notify, notify_by, parse_loop, parse}
use libujo_c.Reader.Program.{
  Made, gives, fails, crashes, takes, moves, enters_rows, keeps_magic, keeps_version,
  keeps_compression, asks_version, notifies, then_goes, branches, get_next-Program,
  get_first-Program,
}

-- Where a reader takes its bytes from.
pub record Source (File : Type 0) : Type 0 where
  pub type : AccessType
  pub buffer : Option (List ℕ)
  pub parsed : ℕ
  pub file : Option File

-- How the results of two readers may differ.
pub data Excuse : Type 0 where
  first_may_fault second_may_fault second_may_fail : Excuse

-- A result that may differ from the other one: where the first or the second reader ends in
-- undefined behaviour, or the second one reports that its file gave too little.
pub data Excused {S A : Type 0} : Excuse → Result S A → Result S A → Type 0 where
  first_faults : (y : Result S A) → Excused first_may_fault fault y
  second_faults : (x : Result S A) → Excused second_may_fault x fault
  second_fails : (x : Result S A) (s : S) → Excused second_may_fail x (err err_file s)
  both_fault : (why : Excuse) → Excused why fault fault

module _ {File Client : Type 0} where
  abbrev pub source : Reader File Client → Source File
  source r = record { type = r.type; buffer = r.buffer; parsed = r.parsed; file = r.file }

module _ {File Client : Type 0} (Inputs : Source File → Source File → Type 0) where
  -- Readers that differ in nothing but their inputs.
  pub record Same (r s : Reader File Client) : Type 0 where
    pub inputs : Inputs (source r) (source s)
    pub state : r.state ≡ s.state
    pub state_stack : r.state_stack ≡ s.state_stack
    pub magic_code : r.magic_code ≡ s.magic_code
    pub version : r.version ≡ s.version
    pub compression : r.compression ≡ s.compression
    pub on_element : r.on_element ≡ s.on_element
    pub on_element_data : r.on_element_data ≡ s.on_element_data

  -- What is not the inputs may change in both in the same way.
  Same-updated :
      {r s : Reader File Client} {at at' : State} {k k' : Option (Stack State)}
      {code code' : List ℕ} {v v' c c' : ℕ} {d d' : Option Client}
      → Same r s
      → at ≡ at'
      → k ≡ k'
      → code ≡ code'
      → v ≡ v'
      → c ≡ c'
      → d ≡ d'
      → Same
          (record r {
            state = at;
            state_stack = k;
            magic_code = code;
            version = v;
            compression = c;
            on_element_data = d;
          })
          (record s {
            state = at';
            state_stack = k';
            magic_code = code';
            version = v';
            compression = c';
            on_element_data = d';
          })
  Same-updated b e1 e2 e3 e4 e5 e6 = record {
    inputs = b.inputs;
    state = e1;
    state_stack = e2;
    magic_code = e3;
    version = e4;
    compression = e5;
    on_element = b.on_element;
    on_element_data = e6;
  }

  pub Same-input :
      {r s : Reader File Client} {i j : ℕ} {f g : Option File}
      → Same r s
      → Inputs
          (record { type = r.type; buffer = r.buffer; parsed = i; file = f })
          (record { type = s.type; buffer = s.buffer; parsed = j; file = g })
      → Same (record r { parsed = i; file = f }) (record s { parsed = j; file = g })
  Same-input b h = record {
    inputs = h;
    state = b.state;
    state_stack = b.state_stack;
    magic_code = b.magic_code;
    version = b.version;
    compression = b.compression;
    on_element = b.on_element;
    on_element_data = b.on_element_data;
  }

  pub data Alike {A : Type 0} (first : Excuse)
      : Result (Reader File Client) A → Result (Reader File Client) A → Type 0 where
    excused : {x y : Result (Reader File Client) A} → Excused first x y → Alike first x y
    same_ok : (a : A) (r s : Reader File Client) → Same r s → Alike first (ok a r) (ok a s)
    same_err :
        (code : ℕ) (r s : Reader File Client) → Same r s → Alike first (err code r) (err code s)
    same_fuel : Alike first out_of_fuel out_of_fuel

  Alike-and_then :
      {A B : Type 0} {first : Excuse} {x y : Result (Reader File Client) A}
      (k : A → M (Reader File Client) B)
      → Alike first x y
      → ((a : A) (r s : Reader File Client) → Same r s → Alike first (k a r) (k a s))
      → Alike first (and_then x k) (and_then y k)
  Alike-and_then k (excused (first_faults y)) go = excused (first_faults (and_then y k))
  Alike-and_then k (excused (second_faults x)) go = excused (second_faults (and_then x k))
  Alike-and_then k (excused (second_fails x s)) go = excused (second_fails (and_then x k) s)
  Alike-and_then k (excused (both_fault why)) go = excused (both_fault why)
  Alike-and_then k (same_ok a r s b) go = go a r s b
  Alike-and_then k (same_err code r s b) go = same_err code r s b
  Alike-and_then k same_fuel go = same_fuel

  if-Alike :
      {A : Type 0} {first : Excuse} {x y x' y' : Result (Reader File Client) A} (c d : Bool)
      → c ≡ d
      → Alike first x x'
      → Alike first y y'
      → Alike first (if c then x else y) (if d then x' else y')
  if-Alike true true e h k = h
  if-Alike false false e h k = k
  if-Alike true false e h k = cc
  if-Alike false true e h k = cc

-- What the inputs have to give.
module _ {File Client : Type 0} (p : Platform File) (Inputs : Source File → Source File → Type 0)
    (first : Excuse)
    (take_same : (k : ℕ) (r s : Reader File Client)
      → Same Inputs r s
      → Alike Inputs first (get_data p k r) (get_data p k s)) where
  abbrev Both : {A : Type 0} → M (Reader File Client) A → Type 0
  Both m = (r s : Reader File Client) → Same Inputs r s → Alike Inputs first (m r) (m s)

  goto-Both : (f : Place → Option Place) → Both (goto f)
  goto-Both f r s b =
      let same : f (r.state, r.state_stack) ≡ f (s.state, s.state_stack) =
        rw (b.state, b.state_stack) in
      elim (Option-cases (f (s.state, s.state_stack))) [
        | inl e ↦ rw (goto, same, e) (excused (both_fault first))
        | inr (at, e) ↦
            rw (goto, same, e)
              (same_ok tt _ _ (
                Same-updated Inputs b refl refl b.magic_code b.version b.compression
                  b.on_element_data))
      ]

  told :
      (code : ℕ) (ends : Bool) (r s : Reader File Client)
      → Same Inputs r s
      → Alike Inputs first
          ((if ends then pure tt else fail code) r)
          ((if ends then pure tt else fail code) s)
  told code true r s b = same_ok tt r s b
  told code false r s b = same_err code r s b

  -- The reader after a callback that gave a code and the client's data.
  abbrev answered : Reader File Client → ℕ × Option Client → Result (Reader File Client) (Unit {0})
  answered s (code, d) =
      (if code == 0 then pure tt else fail code) (record s { on_element_data = d })

  notify_by-Both :
      (h : Option (Element → Option Client → ℕ × Option Client)) (v : Element)
      → Both (notify_by p h v)
  unfolding notify_by
  notify_by-Both none v r s b = same_ok tt r s b
  notify_by-Both (some f) v r s b =
      subst (λ d. Alike Inputs first (notify_by p (some f) v r) (answered s (f v d)))
        b.on_element_data
        (told (f v r.on_element_data).0 ((f v r.on_element_data).0 == 0)
          (record r { on_element_data = (f v r.on_element_data).1 })
          (record s { on_element_data = (f v r.on_element_data).1 })
          (Same-updated Inputs b b.state b.state_stack b.magic_code b.version b.compression refl))

  notify-Both : (v : Element) → Both (notify p v)
  unfolding notify
  notify-Both v r s b =
      subst (λ h. Alike Inputs first (notify p v r) (notify_by p h v s)) b.on_element
        (notify_by-Both r.on_element v r s b)

  Made-Both : {A : Type 0} {m : M (Reader File Client) A} → Made p A m → Both m
  Made-Both (gives a) r s b = same_ok a r s b
  Made-Both (fails code) r s b = same_err code r s b
  Made-Both crashes r s b = excused (both_fault first)
  Made-Both (takes k) r s b = take_same k r s b
  Made-Both (moves f) r s b = goto-Both f r s b
  Made-Both enters_rows r s b = same_ok tt _ _ (
      Same-updated Inputs b (rw b.state) b.state_stack b.magic_code b.version b.compression
        b.on_element_data)
  Made-Both (keeps_magic code) r s b =
      same_ok tt _ _
        (Same-updated Inputs b b.state b.state_stack refl b.version b.compression b.on_element_data)
  Made-Both (keeps_version v) r s b = same_ok tt _ _ (
      Same-updated Inputs b b.state b.state_stack b.magic_code refl b.compression b.on_element_data)
  Made-Both (keeps_compression v) r s b =
      same_ok tt _ _
        (Same-updated Inputs b b.state b.state_stack b.magic_code b.version refl b.on_element_data)
  Made-Both asks_version r s b =
      subst (λ v. Alike Inputs first (ok r.version r) (ok v s)) b.version (same_ok r.version r s b)
  Made-Both (notifies v) r s b = notify-Both v r s b
  Made-Both (then_goes {k} m go) r s b =
      Alike-and_then Inputs k (Made-Both m r s b) (λ a. Made-Both (go a))
  Made-Both (branches test m k) r s b =
      if-Alike Inputs (test r.state) (test s.state) (ap test b.state) (Made-Both m r s b)
        (Made-Both k r s b)

  parse_loop-Both : (fuel : ℕ) (next : Next) → Both (parse_loop p fuel next)
  unfolding parse_loop
  parse_loop-Both zero ended r s b = same_ok tt r s b
  parse_loop-Both (suc fuel) ended r s b = same_ok tt r s b
  parse_loop-Both zero (found v) r s b = same_fuel
  parse_loop-Both (suc fuel) (found v) r s b =
      Alike-and_then Inputs (λ _. get_next p >>= parse_loop p fuel) (Made-Both (notifies v) r s b)
        λ a t u b'.
          Alike-and_then Inputs (parse_loop p fuel) (Made-Both (get_next-Program p) t u b')
            (parse_loop-Both fuel)

  pub parse-Both : (fuel : ℕ) → Both (parse p fuel)
  unfolding parse
  parse-Both fuel r s b =
      Alike-and_then Inputs (parse_loop p fuel) (Made-Both (get_first-Program p) r s b)
        (parse_loop-Both fuel)
