-- ===== src/Outcome.antt =====
-- What a call of the library ends in, and the sequencing of calls that change a state.
use hwmalloc.Base.{inl, inr, sym, ap, ◌∙◌, ◌≡◌, ◌⊎◌, Bool, true, false, if◌then◌else◌, ℕ}

-- The exceptions that src/ and its callees throw.
pub data Exception : Type 0 where
  no_system_memory : Exception
  wrong_numa_node : ℕ → Exception
  not_registered : Exception
  no_device_memory : Exception
  gpu_call_failed : Exception
  stack_too_large : Exception
  element_threw : Exception

-- `returns` and `throws` hold the state afterwards. `hangs` is a loop or a lock that never ends;
-- `undefined` is undefined behaviour.
pub data Outcome (S A : Type 0) : Type 0 where
  returns : A → S → Outcome S A
  throws : Exception → S → Outcome S A
  hangs : Outcome S A
  undefined : Outcome S A

abbrev pub Call : Type 0 → Type 0 → Type 0
Call S A = S → Outcome S A

abbrev pub and_then : {S A B : Type 0} → Outcome S A → (A → Call S B) → Outcome S B
and_then (returns a s) f = f a s
and_then (throws e s) f = throws e s
and_then hangs f = hangs
and_then undefined f = undefined

infixl 5 ◌>>=◌ ◌>>◌
abbrev pub ◌>>=◌ : {S A B : Type 0} → Call S A → (A → Call S B) → Call S B
◌>>=◌ m f s = and_then (m s) f

abbrev pub ◌>>◌ : {S B : Type 0} → Call S (Unit {0}) → Call S B → Call S B
m >> k = m >>= λ _. k

abbrev pub return : {S A : Type 0} → A → Call S A
return a s = returns a s

abbrev pub throw : {S A : Type 0} → Exception → Call S A
throw e s = throws e s

-- The call ends, in a state and with a result of which P holds, or with an exception and Q.
abbrev pub Ends :
    {S A : Type 0} → (A → S → Type 0) → (Exception → S → Type 0) → Outcome S A → Type 0
Ends P Q (returns a s) = P a s
Ends P Q (throws e s) = Q e s
Ends P Q hangs = ⊥
Ends P Q undefined = ⊥

-- The call leaves a state, by a return or by an exception.
abbrev pub Leaves : {S : Type 0} → S → Outcome S (Unit {0}) → Type 0
Leaves s o = (o ≡ returns tt s) ⊎ ((e : Exception) × (o ≡ throws e s))

abbrev state_or : {S A : Type 0} → S → Outcome S A → S
state_or s (returns a t) = t
state_or s (throws e t) = t
state_or s hangs = s
state_or s undefined = s

-- There is one such state.
pub Leaves-same :
    {S : Type 0} (s t : S) (o : Outcome S (Unit {0})) → Leaves s o → Leaves t o → s ≡ t
Leaves-same s t o (inl e) (inl f) = ap (state_or s) (sym e ∙ f)
Leaves-same s t o (inl e) (inr (x, f)) = ap (state_or s) (sym e ∙ f)
Leaves-same s t o (inr (x, e)) (inl f) = ap (state_or s) (sym e ∙ f)
Leaves-same s t o (inr (x, e)) (inr (y, f)) = ap (state_or s) (sym e ∙ f)

-- The rule of sequencing.
pub and_then-Ends :
    {S A B : Type 0} (P : A → S → Type 0) (P' : B → S → Type 0) (Q : Exception → S → Type 0)
    (o : Outcome S A) (f : A → Call S B)
    → Ends P Q o
    → ((a : A) (s : S) → P a s → Ends P' Q (f a s))
    → Ends P' Q (and_then o f)
and_then-Ends P P' Q (returns a s) f h k = k a s h
and_then-Ends P P' Q (throws e s) f h k = h
and_then-Ends P P' Q hangs f h k = h
and_then-Ends P P' Q undefined f h k = h

pub Ends-mono :
    {S A : Type 0} (P P' : A → S → Type 0) (Q Q' : Exception → S → Type 0) (o : Outcome S A)
    → Ends P Q o
    → ((a : A) (s : S) → P a s → P' a s)
    → ((e : Exception) (s : S) → Q e s → Q' e s)
    → Ends P' Q' o
Ends-mono P P' Q Q' (returns a s) h k l = k a s h
Ends-mono P P' Q Q' (throws e s) h k l = l e s h
Ends-mono P P' Q Q' hangs h k l = h
Ends-mono P P' Q Q' undefined h k l = h

pub if-Ends :
    {S A : Type 0} (P : A → S → Type 0) (Q : Exception → S → Type 0) (b : Bool) (f g : Call S A)
    (s : S)
    → Ends P Q (f s)
    → Ends P Q (g s)
    → Ends P Q ((if b then f else g) s)
if-Ends P Q true f g s h k = h
if-Ends P Q false f g s h k = k
