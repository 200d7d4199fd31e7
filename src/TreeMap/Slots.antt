-- ===== src/TreeMap/Slots.antt =====
-- executor/crates/sdk-rs/src/storage/tree_map.rs, array.rs: the map's node pool and its free list. A node's
-- handle is its index in `slots`, which stands for its address: the slots take less than 2^32 bytes.
-- `none` is a panic. The elements past the length are in storage too.
use genvm_executor.Base.{
  ℕ, zero, suc, ◌+◌, ◌-◌, ◌%◌, ◌^◌, ◌*◌, ◌≤◌, ◌<◌, arith, Bool, false, Option, none, some, List, [],
  ◌∷◌, ltb, ◌==◌, if◌then◌else◌, length,
}

-- `balance` is an `i8` by its two's complement.
pub record TreeMapNode (K V : Type 0) : Type 0 where
  pub key : K
  pub value : V
  pub left : ℕ
  pub right : ℕ
  pub balance : ℕ

-- `free_slots` is a stack with its last element first.
pub record TreeMap (K V : Type 0) : Type 0 where
  pub root_idx : ℕ
  pub slots : ℕ → TreeMapNode K V
  pub slots_len : ℕ
  pub free_slots : List ℕ

abbrev pub M : Type 0 → Type 0 → Type 0 → Type 0
M K V A = TreeMap K V → Option (A × TreeMap K V)

module _ {K V A : Type 0} where
  abbrev pub pure : A → M K V A
  pure a s = some (a, s)

  abbrev pub panic : M K V A
  panic s = none

module _ {K V A B : Type 0} where
  abbrev pub and_then : Option (A × TreeMap K V) → (A → M K V B) → Option (B × TreeMap K V)
  and_then none k = none
  and_then (some (a, s)) k = k a s

  infixl 5 ◌>>=◌ ◌>>◌
  abbrev pub ◌>>=◌ : M K V A → (A → M K V B) → M K V B
  m >>= k = λ s. and_then (m s) k

  abbrev pub ◌>>◌ : M K V A → M K V B → M K V B
  m >> n = m >>= λ _. n

abbrev pub minus_one : ℕ
minus_one = 255

-- `a + b` of two `i8`.
abbrev pub i8_add : ℕ → ℕ → ℕ
i8_add a b = (a + b) % 256

abbrev pub is_positive : ℕ → Bool
is_positive b = if b == 0 then false else ltb b 128

abbrev pub is_negative : ℕ → Bool
is_negative b = ltb 127 b

-- Where an element starts: `idx * T::SIZE`, of two u32.
abbrev address : ℕ → ℕ → ℕ
address size idx = (idx * size) % 2 ^ 32

-- Elements that take at most 2^32 bytes in all lie apart, in the order of their indices.
address_apart :
    (size len i j : ℕ)
    → len * size ≤ 2 ^ 32
    → i < j
    → j < len
    → address size i + size ≤ address size j
address_apart zero len i j small before inside = grind arith
address_apart (suc size) len i j small before inside =
    let first : i * suc size + suc size ≤ j * suc size = grind arith in
    let second : j * suc size + suc size ≤ len * suc size = grind arith in
    omega (arith, first, second, small)

module _ {K V : Type 0} where
  unfoldable pub update :
      (ℕ → TreeMapNode K V) → ℕ → (TreeMapNode K V → TreeMapNode K V) → ℕ → TreeMapNode K V
  update slots p f q = if q == p then f (slots q) else slots q

  abbrev pub modify : ℕ → (TreeMapNode K V → TreeMapNode K V) → M K V (Unit {0})
  modify p f s = some (tt, record s { slots = update s.slots p f })

  abbrev pub get_key : ℕ → M K V K
  get_key p s = some ((s.slots p).key, s)

  abbrev pub get_value : ℕ → M K V V
  get_value p s = some ((s.slots p).value, s)

  abbrev pub get_left : ℕ → M K V ℕ
  get_left p s = some ((s.slots p).left, s)

  abbrev pub get_right : ℕ → M K V ℕ
  get_right p s = some ((s.slots p).right, s)

  abbrev pub get_balance : ℕ → M K V ℕ
  get_balance p s = some ((s.slots p).balance, s)

  abbrev pub set_value : ℕ → V → M K V (Unit {0})
  set_value p v = modify p λ n. record n { value = v }

  abbrev pub set_left : ℕ → ℕ → M K V (Unit {0})
  set_left p idx = modify p λ n. record n { left = idx }

  abbrev pub set_right : ℕ → ℕ → M K V (Unit {0})
  set_right p idx = modify p λ n. record n { right = idx }

  abbrev pub set_balance : ℕ → ℕ → M K V (Unit {0})
  set_balance p b = modify p λ n. record n { balance = b }

  abbrev pub set_root : ℕ → M K V (Unit {0})
  set_root idx s = some (tt, record s { root_idx = idx })

  -- `self.slots().index(idx)`: the test of the bounds. The index stands for the address.
  unfoldable pub index : ℕ → M K V ℕ
  index idx s = if ltb idx s.slots_len then some (idx, s) else none

  -- For 0, `idx - 1` wraps to u32::MAX, which is out of bounds too.
  unfoldable pub node : ℕ → M K V ℕ
  node zero = panic
  node (suc idx) = index idx

  -- The length is a u32. The new index stands for the new slot's address.
  unfoldable pub append_slot : M K V ℕ
  append_slot s = some (s.slots_len, record s { slots_len = (s.slots_len + 1) % 2 ^ 32 })

  unfoldable pub pop_slot : M K V (Unit {0})
  pop_slot s =
      if s.slots_len == 0 then none else some (tt, record s { slots_len = s.slots_len - 1 })

  unfoldable pub alloc_from : List ℕ → M K V ℕ
  alloc_from [] = append_slot
  alloc_from (idx ∷ free) = λ s. index idx (record s { free_slots = free })

  unfoldable pub alloc_slot : M K V ℕ
  alloc_slot s = alloc_from s.free_slots s

  unfoldable pub free_slot : ℕ → M K V (Unit {0})
  free_slot slot_idx s =
      if slot_idx + 1 == s.slots_len
      then pop_slot s
      else some (tt, record s { free_slots = slot_idx ∷ s.free_slots })

  unfoldable pub init_node : ℕ → K → M K V (Unit {0})
  init_node p k =
      modify p λ n. record { key = k; value = n.value; left = 0; right = 0; balance = 0 }

  unfoldable pub len : TreeMap K V → ℕ
  len s = s.slots_len - length s.free_slots

  unfoldable pub is_empty : TreeMap K V → Bool
  is_empty s = len s == 0

  unfoldable pub clear : TreeMap K V → TreeMap K V
  clear s = record s { root_idx = 0; slots_len = 0; free_slots = [] }
