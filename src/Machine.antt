-- ===== src/Machine.antt =====
-- Commands over a mutable state, as the C functions are: a command ends with a value and a new
-- state, or stops.
use mathlib.Core.Path.{subst}
use osi.Base.{◌≡◌, refl, Bool, true, false, if◌then◌else◌}

-- Why a run does not go on: undefined behaviour (a read through NULL or through a freed node),
-- `abort` or a failed `assert`, a wait that no step of this run ends, no fuel left.
pub data Stop : Type 0 where
  fault aborted blocked no_fuel : Stop

pub data Outcome (S A : Type 0) : Type 0 where
  ok : A → S → Outcome S A
  stop : Stop → Outcome S A

abbrev pub Cmd : Type 0 → Type 0 → Type 0
Cmd S A = S → Outcome S A

module _ {S : Type 0} where
  abbrev pub pure : {A : Type 0} → A → Cmd S A
  pure = ok

  abbrev pub and_then : {A B : Type 0} → Outcome S A → (A → Cmd S B) → Outcome S B
  and_then (ok a s) k = k a s
  and_then (stop r) k = stop r

  infixl 5 ◌>>=◌ ◌>>◌
  abbrev pub ◌>>=◌ : {A B : Type 0} → Cmd S A → (A → Cmd S B) → Cmd S B
  ◌>>=◌ m k = λ s. and_then (m s) k

  abbrev pub ◌>>◌ : {A B : Type 0} → Cmd S A → Cmd S B → Cmd S B
  m >> n = m >>= λ _. n

  abbrev pub modify : (S → S) → Cmd S (Unit {0})
  modify f = λ s. ok tt (f s)

  abbrev pub read : {A : Type 0} → (S → A) → Cmd S A
  read f = λ s. ok (f s) s

  -- `assert (test)`
  abbrev pub assert : (S → Bool) → Cmd S (Unit {0})
  assert test = λ s. if test s then ok tt s else stop aborted

-- A run that ends with a value and a state of which `P` holds.
pub data Returns {S A : Type 0} (P : A → S → Type 0) : Outcome S A → Type 0 where
  returns : {a : A} {s : S} → P a s → Returns P (ok a s)

module _ {S A : Type 0} {P : A → S → Type 0} where
  pub Returns-and_then :
      {B : Type 0} {Q : B → S → Type 0} {m : Outcome S A} {k : A → Cmd S B}
      → Returns P m
      → ((a : A) (s : S) → P a s → Returns Q (k a s))
      → Returns Q (and_then m k)
  Returns-and_then (returns p) next = next _ _ p

  pub Returns-mono :
      {Q : A → S → Type 0} {m : Outcome S A}
      → Returns P m
      → ((a : A) (s : S) → P a s → Q a s)
      → Returns Q m
  Returns-mono (returns p) weaken = returns (weaken _ _ p)

pub Returns-ok :
    {S A : Type 0} {P : A → S → Type 0} {a : A} {s : S} (m : Outcome S A)
    → Returns P m
    → m ≡ ok a s
    → P a s
Returns-ok {P} {a} {s} m p e = of_ok (subst (λ o. Returns P o) e p)
  where
    of_ok : Returns P (ok a s) → P a s
    of_ok (returns p) = p

pub returns_both :
    {S A : Type 0} {P Q : A → S → Type 0} {o : Outcome S A}
    → Returns P o
    → Returns Q o
    → Returns (λ a t. P a t × Q a t) o
returns_both (returns p) (returns q) = returns (p, q)

-- If a run ends, `P` holds of its value and state.
pub data Ensures {S A : Type 0} (P : A → S → Type 0) : Outcome S A → Type 0 where
  ended : {a : A} {s : S} → P a s → Ensures P (ok a s)
  stopped : {r : Stop} → Ensures P (stop r)

module _ {S A : Type 0} {P : A → S → Type 0} where
  pub Ensures-and_then :
      {B : Type 0} {Q : B → S → Type 0} {m : Outcome S A} {k : A → Cmd S B}
      → Ensures P m
      → ((a : A) (s : S) → P a s → Ensures Q (k a s))
      → Ensures Q (and_then m k)
  Ensures-and_then (ended p) next = next _ _ p
  Ensures-and_then stopped next = stopped

  pub Ensures-mono :
      {Q : A → S → Type 0} {m : Outcome S A}
      → Ensures P m
      → ((a : A) (s : S) → P a s → Q a s)
      → Ensures Q m
  Ensures-mono (ended p) weaken = ended (weaken _ _ p)
  Ensures-mono stopped weaken = stopped

  pub Ensures-ok : {a : A} {s : S} → Ensures P (ok a s) → P a s
  Ensures-ok (ended p) = p

pub Ensures-any : {S A : Type 0} (m : Outcome S A) → Ensures (λ _ _. Unit {0}) m
Ensures-any (ok a s) = ended tt
Ensures-any (stop r) = stopped

-- Either way of a test
pub Ensures-if :
    {S A : Type 0} {P : A → S → Type 0} (b : Bool) (m n : Cmd S A) (s : S)
    → Ensures P (m s)
    → Ensures P (n s)
    → Ensures P ((if b then m else n) s)
Ensures-if true m n s p q = p
Ensures-if false m n s p q = q

pub state_of_ok : {S A : Type 0} {a b : A} {s t : S} → ok a s ≡ ok b t → s ≡ t
state_of_ok e = cc

-- The laws of the sequence, for commands that are cut in different places
module _ {S A B C : Type 0} where
  pub and_then_assoc :
      (m : Outcome S A) (k : A → Cmd S B) (j : B → Cmd S C)
      → and_then (and_then m k) j ≡ and_then m λ a s. and_then (k a s) j
  and_then_assoc (ok a s) k j = refl
  and_then_assoc (stop r) k j = refl

module _ {S A B : Type 0} where
  pub and_then-if :
      (b : Bool) (m n : Cmd S A) (s : S) (k : A → Cmd S B)
      → and_then ((if b then m else n) s) k ≡ (if b then and_then (m s) k else and_then (n s) k)
  and_then-if true m n s k = refl
  and_then-if false m n s k = refl

  pub and_then-if_outcome :
      (b : Bool) (m n : Outcome S A) (k : A → Cmd S B)
      → and_then (if b then m else n) k ≡ (if b then and_then m k else and_then n k)
  and_then-if_outcome true m n k = refl
  and_then-if_outcome false m n k = refl
