-- ===== src/TreeMap/Returns.antt =====
-- What an operation of the map promises when it does not panic, as a predicate on its result and the
-- map it leaves.
use genvm_executor.Base.{Option, some}
use genvm_executor.TreeMap.Slots.{TreeMap, M, and_then}

pub data Returns {K V A : Type 0} (P : A → TreeMap K V → Type 0)
    : Option (A × TreeMap K V) → Type 0 where
  returns : {a : A} {s : TreeMap K V} → P a s → Returns P (some (a, s))

module _ {K V A : Type 0} {P : A → TreeMap K V → Type 0} where
  pub chain :
      {B : Type 0} {Q : B → TreeMap K V → Type 0} {run : Option (A × TreeMap K V)} {f : A → M K V B}
      → Returns P run
      → ((a : A) (s : TreeMap K V) → P a s → Returns Q (f a s))
      → Returns Q (and_then run f)
  chain (returns p) then = then _ _ p

  pub weaken :
      {Q : A → TreeMap K V → Type 0} {run : Option (A × TreeMap K V)}
      → Returns P run
      → ((a : A) (s : TreeMap K V) → P a s → Q a s)
      → Returns Q run
  weaken (returns p) f = returns (f _ _ p)
