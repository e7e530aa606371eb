-- ===== src/Tests/Setting.antt =====
-- A concrete platform for the tests: stacks that are lists, a system whose malloc hands out
-- consecutive addresses, one whose malloc fails, and a Context whose registration cannot fail.
use hwmalloc.Base.{
  inl, inr, Bool-cases, ℕ, ◌+◌, ◌*◌, ◌<◌, ◌≡◌, refl, Option, none, some, List, [], ◌∷◌, length,
  arith, ltb, if◌then◌else◌, lt→ltb,
}
use hwmalloc.Numa.Tools.{Os, stub}
use hwmalloc.Device.{device_none}
use hwmalloc.Platform.{Block, Context, Lockfree, IsStack, Platform}
use hwmalloc.Threads.Alone.Reach.{Pops}

-- The capacity, and the elements from the top.
abbrev pub ListStack : Type 0 → Type 0
ListStack B = Option ℕ × List B

abbrev pub list_push : {B : Type 0} → ListStack B → B → Option (ListStack B)
list_push (none, bs) b = some (none, b ∷ bs)
list_push (some n, bs) b = if ltb (length bs) n then some (some n, b ∷ bs) else none

abbrev pub list_pop : {B : Type 0} → ListStack B → Option (B × ListStack B)
list_pop (c, []) = none
list_pop (c, b ∷ bs) = some (b, (c, bs))

-- No more nodes than a 16-bit index can tell apart.
abbrev pub list_fixed : {B : Type 0} → ℕ → Option (ListStack B)
list_fixed n = if ltb n 65536 then some (some n, []) else none

abbrev pub list_stack : (B : Type 0) → Lockfree B (ListStack B)
list_stack B = record {
  fixed = list_fixed;
  dynamic = λ n. (none, []);
  push = list_push;
  pop = list_pop;
  consume_all = λ s. (s.1, (s.0, []));
}

pub list_fixed_lem :
    {B : Type 0} (n : ℕ) (s : ListStack B) → list_fixed n ≡ some s → (s.1 ≡ []) × (s.0 ≡ some n)
list_fixed_lem n (c, bs) e = elim (Bool-cases (ltb n 65536)) [
  | inl fits ↦ (ground (arith, fits, e), ground (arith, fits, e))
  | inr large ↦ (ground (arith, large, e), ground (arith, large, e))
]

pub list_push-fixed :
    {B : Type 0} (s : ListStack B) (b : B) (n : ℕ)
    → s.0 ≡ some n
    → length s.1 < n
    → (t : ListStack B) × (list_push s b ≡ some t) × (t.1 ≡ b ∷ s.1) × (t.0 ≡ s.0)
list_push-fixed (none, bs) b n e h = cc
list_push-fixed (some m, bs) b n e h =
    let le = lt→ltb (length bs) m (ground arith) in ((some m, b ∷ bs), rw le refl, refl, refl)

pub list_push-dynamic :
    {B : Type 0} (s : ListStack B) (b : B)
    → s.0 ≡ none
    → (t : ListStack B) × (list_push s b ≡ some t) × (t.1 ≡ b ∷ s.1) × (t.0 ≡ s.0)
list_push-dynamic (none, bs) b e = ((none, b ∷ bs), refl, refl, refl)
list_push-dynamic (some n, bs) b e = cc

pub list_pop-empty : {B : Type 0} (s : ListStack B) → s.1 ≡ [] → list_pop s ≡ none
list_pop-empty (c, []) e = refl
list_pop-empty (c, b ∷ bs) e = cc

pub list_pop-cons :
    {B : Type 0} (s : ListStack B) (b : B) (bs : List B)
    → s.1 ≡ b ∷ bs
    → (t : ListStack B) × (list_pop s ≡ some (b, t)) × (t.1 ≡ bs) × (t.0 ≡ s.0)
list_pop-cons (c, []) b bs e = cc
list_pop-cons (c, x ∷ xs) b bs e = ((c, bs), cc, refl, refl)

abbrev pub list_stack-IsStack : (B : Type 0) → IsStack (list_stack B)
list_stack-IsStack B = record {
  contents = λ s. s.1;
  capacity = λ s. s.0;
  contents-fixed = λ n s e. (list_fixed_lem n s e).0;
  contents-dynamic = λ n. refl;
  capacity-fixed = λ n s e. (list_fixed_lem n s e).1;
  capacity-dynamic = λ n. refl;
  push-fixed = list_push-fixed;
  push-dynamic = list_push-dynamic;
  pop-empty = list_pop-empty;
  pop-cons = list_pop-cons;
  consumed = λ s. refl;
  emptied = λ s. refl;
  capacity-consumed = λ s. refl;
}

pub list_pop-end :
    {B : Type 0} (s : ListStack B) → list_pop s ≡ none → (list_stack B).consume_all s ≡ ([], s)
list_pop-end (c, []) e = refl
list_pop-end (c, b ∷ bs) e = cc

pub list_pop-onward :
    {B : Type 0} (s t : ListStack B) (b : B)
    → list_pop s ≡ some (b, t)
    → (list_stack B).consume_all s
      ≡ (b ∷ ((list_stack B).consume_all t).0, ((list_stack B).consume_all t).1)
list_pop-onward (c, []) t b e = cc
list_pop-onward (c, x ∷ xs) (d, ys) b e = cc

abbrev pub list_stack-Pops : (B : Type 0) → Pops (list_stack B)
list_stack-Pops B = record { at_end = list_pop-end; onward = list_pop-onward }

-- The state is the next free address.
abbrev pub bump : Os ℕ
bump = record {
  page_size = 64;
  sched_getcpu = λ w. 0;
  calloc = λ w n size. (w, w + n * size);
  malloc = λ w n. (w, w + n);
  free = λ w ptr. w;
  get_mempolicy = λ w ptr. 0;
  numa_alloc_onnode = λ w n node. (w, w + n);
  numa_free = λ w ptr n. w;
}

abbrev pub exhausted : Os ℕ
exhausted = record bump { calloc = λ w n size. (0, w); malloc = λ w n. (0, w) }

-- A region is its address, and a handle is an address too.
abbrev pub plain : Context ℕ ℕ ℕ
plain = record {
  null_handle = 0;
  register_memory = λ w ptr size. (some ptr, w);
  register_device_memory = λ w id ptr size. (some ptr, w);
  get_handle = λ r offset size. r + offset;
  deregister = λ w r. w;
}

abbrev pub platform : Os ℕ → Platform ℕ ℕ ℕ (ListStack (Block ℕ))
platform os = record {
  numa = stub os;
  device = device_none ℕ;
  context = plain;
  stack = list_stack (Block ℕ);
}
