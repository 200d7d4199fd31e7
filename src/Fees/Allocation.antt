-- ===== src/Fees/Allocation.antt =====
-- executor/crates/common/src/domain/fees.rs: the message-fee allocation tree, and which messages a
-- node of it matches. A U256 is a number, an address and a call key are lists of bytes.
use genvm_executor.Base.{
  ℕ, ◌≡◌, refl, Bool, true, false, not, ◌&&◌, Option, none, some, List, [], ◌∷◌, arith, ◌==◌,
  ==_refl, if◌then◌else◌, inl, inr, ◌↔◌, ap, Bool-cases,
}

abbrev pub Bytes : Type 0
Bytes = List ℕ

pub record InternalMessageParams : Type 0 where
  pub leader_timeunits_allocation : ℕ
  pub validator_timeunits_allocation : ℕ
  pub execution_budget_per_round : ℕ
  pub rotations : List ℕ
  pub max_price_gen_per_time_unit : ℕ
  pub storage_fee_max_gas_price : ℕ
  pub receipt_fee_max_gas_price : ℕ

pub record ExternalMessageParams : Type 0 where
  pub gas_limit : ℕ
  pub max_gas_price : ℕ

pub data MessageAllocationNodeParams : Type 0 where
  internal : InternalMessageParams → MessageAllocationNodeParams
  external : ExternalMessageParams → MessageAllocationNodeParams

pub data On : Type 0 where
  accepted finalized : On

-- A node's recipient, call key, budget, moment, parameters and children, in the order of the struct.
mutual
  pub data MessageAllocationNode : Type 0 where
    node :
        Option Bytes
        → Option Bytes
        → ℕ
        → On
        → MessageAllocationNodeParams
        → MessageAllocationNodes
        → MessageAllocationNode

  pub data MessageAllocationNodes : Type 0 where
    nil : MessageAllocationNodes
    cons : MessageAllocationNode → MessageAllocationNodes → MessageAllocationNodes

unfoldable pub on_eq : On → On → Bool
on_eq accepted accepted = true
on_eq finalized finalized = true
on_eq _ _ = false

unfoldable pub bytes_eq : Bytes → Bytes → Bool
bytes_eq [] [] = true
bytes_eq [] (y ∷ ys) = false
bytes_eq (x ∷ xs) [] = false
bytes_eq (x ∷ xs) (y ∷ ys) = x == y && bytes_eq xs ys

-- `pattern.as_ref().is_some_and(|p| *p != value)`
unfoldable pub is_other : Option Bytes → Bytes → Bool
is_other none value = false
is_other (some p) value = not (bytes_eq p value)

unfoldable pub matches_internal :
    MessageAllocationNode → On → Bytes → Bytes → Option InternalMessageParams
matches_internal (node r ck b o (external params) children) on recipient call_key = none
matches_internal (node r ck b o (internal params) children) on recipient call_key =
    if not (on_eq on o)
    then none
    else if is_other r recipient
    then none
    else if is_other ck call_key
    then none
    else some params

unfoldable pub matches_external :
    MessageAllocationNode → Bytes → Bytes → Option ExternalMessageParams
matches_external (node r ck b o (internal params) children) recipient call_key = none
matches_external (node r ck b o (external params) children) recipient call_key =
    if is_other r recipient then none else if is_other ck call_key then none else some params

-- A wildcard, or the value itself.
abbrev pub Admits : Option Bytes → Bytes → Type 0
Admits none value = Unit {0}
Admits (some p) value = p ≡ value

-- The node pays for these messages, and with these parameters.
abbrev pub PaysInternal :
    MessageAllocationNode → On → Bytes → Bytes → InternalMessageParams → Type 0
PaysInternal (node r ck b o (internal p) children) on recipient call_key params =
    (on ≡ o) × Admits r recipient × Admits ck call_key × (p ≡ params)
PaysInternal (node r ck b o (external p) children) on recipient call_key params = ⊥

abbrev pub PaysExternal : MessageAllocationNode → Bytes → Bytes → ExternalMessageParams → Type 0
PaysExternal (node r ck b o (external p) children) recipient call_key params =
    Admits r recipient × Admits ck call_key × (p ≡ params)
PaysExternal (node r ck b o (internal p) children) recipient call_key params = ⊥

bytes_eq→eq : (xs ys : Bytes) → bytes_eq xs ys ≡ true → xs ≡ ys
unfolding bytes_eq
bytes_eq→eq [] [] h = refl
bytes_eq→eq [] (y ∷ ys) h = cc
bytes_eq→eq (x ∷ xs) [] h = cc
bytes_eq→eq (x ∷ xs) (y ∷ ys) h = ground (arith, bytes_eq→eq xs ys)

bytes_eq_refl : (xs : Bytes) → bytes_eq xs xs ≡ true
unfolding bytes_eq
bytes_eq_refl [] = refl
bytes_eq_refl (x ∷ xs) = rw (==_refl x, bytes_eq_refl xs)

is_other→Admits : (p : Option Bytes) (v : Bytes) → is_other p v ≡ false → Admits p v
unfolding is_other
is_other→Admits none v h = tt
is_other→Admits (some p) v h = ground (arith, bytes_eq→eq p v)

Admits→is_other : (p : Option Bytes) (v : Bytes) → Admits p v → is_other p v ≡ false
unfolding is_other
Admits→is_other none v h = refl
Admits→is_other (some p) v h = rw (h, bytes_eq_refl v)

on_eq→eq : (a b : On) → on_eq a b ≡ true → a ≡ b
unfolding on_eq
on_eq→eq accepted accepted h = refl
on_eq→eq finalized finalized h = refl
on_eq→eq accepted finalized h = cc
on_eq→eq finalized accepted h = cc

on_eq_refl : (a : On) → on_eq a a ≡ true
unfolding on_eq
on_eq_refl accepted = refl
on_eq_refl finalized = refl

some-injective {ℓ} : {A : Type ℓ} {x y : A} → some x ≡ some y → x ≡ y
some-injective e = cc

-- Two guards before a result.
guarded {ℓ} :
    {A : Type ℓ} (a b : Bool) (x y : A)
    → ((if a then none else if b then none else some x) ≡ some y)
      ↔ ((a ≡ false) × (b ≡ false) × (x ≡ y))
guarded true b x y = (λ h. cc, λ h. cc)
guarded false true x y = (λ h. cc, λ h. cc)
guarded false false x y = (λ h. (refl, refl, some-injective h), λ h. ap some h.2)

matches_one {ℓ} :
    {A : Type ℓ} (r ck : Option Bytes) (recipient call_key : Bytes) (p params : A)
    → ((if is_other r recipient then none else if is_other ck call_key then none else some p)
        ≡ some params)
      ↔ (Admits r recipient × Admits ck call_key × (p ≡ params))
matches_one r ck recipient call_key p params =
    let both = guarded (is_other r recipient) (is_other ck call_key) p params in
    (
      λ h. (
        is_other→Admits r recipient (both.0 h).0,
        is_other→Admits ck call_key (both.0 h).1,
        (both.0 h).2,
      ),
      λ h. both.1 (Admits→is_other r recipient h.0, Admits→is_other ck call_key h.1, h.2),
    )

-- matches_internal hands out `params` exactly if the node is one for internal messages with these parameters and the same moment, and admits the recipient and the call key.
pub matches_internal-PaysInternal :
    (n : MessageAllocationNode) (on : On) (recipient call_key : Bytes)
    (params : InternalMessageParams)
    → (matches_internal n on recipient call_key ≡ some params)
      ↔ PaysInternal n on recipient call_key params
unfolding matches_internal
matches_internal-PaysInternal (node r ck b o (external p) children) on recipient call_key params =
    (λ h. cc, λ h. absurd h)
matches_internal-PaysInternal (node r ck b o (internal p) children) on recipient call_key params =
    let one = matches_one r ck recipient call_key p params in
    elim (Bool-cases (on_eq on o)) [
      | inl same ↦ rw same (
        λ h. (on_eq→eq on o same, (one.0 h).0, (one.0 h).1, (one.0 h).2),
        λ h. one.1 (h.1, h.2, h.3),
      )
      | inr other ↦
          rw other (λ h. cc, λ h. let same = on_eq_refl on in absurd (cc (other, same, h.0)))
    ]

-- matches_external hands out `params` exactly if the node is one for external messages with these parameters and admits the recipient and the call key.
pub matches_external-PaysExternal :
    (n : MessageAllocationNode) (recipient call_key : Bytes) (params : ExternalMessageParams)
    → (matches_external n recipient call_key ≡ some params)
      ↔ PaysExternal n recipient call_key params
unfolding matches_external
matches_external-PaysExternal (node r ck b o (internal p) children) recipient call_key params =
    (λ h. cc, λ h. absurd h)
matches_external-PaysExternal (node r ck b o (external p) children) recipient call_key params =
    matches_one r ck recipient call_key p params
