-- ===== src/Fees/Flatten.antt =====
-- The flattening of executor/crates/common/src/domain/fees/abi.rs loses nothing: the parent pointers
-- give the tree back.
use genvm_executor.Base.{
  ℕ, zero, suc, ◌+◌, ◌-◌, ◌<◌, ◌≤◌, ◌≡◌, ◌≢◌, refl, ap, sym, ◌∙◌, ◌⊎◌, inl, inr, false, Bool-cases,
  Option, some, [], ◌∷◌, ◌++◌, append_assoc, append-nil, arith, ◌==◌, ==→eq, ==_refl, length,
  length-append, get_elem?, get_elem?-within, get_elem?-append_left, get_elem?-append_right, ltb,
  ltb→lt, ltb→le, if◌then◌else◌,
}
use genvm_executor.Fees.Allocation.{MessageAllocationNode, MessageAllocationNodes, node, nil, cons}
use genvm_executor.Fees.Abi.{Flat, flatten, node_root_sentinel}

-- The nodes that point at `q`, in order.
abbrev pub sons : Flat → ℕ → MessageAllocationNodes
sons [] q = nil
sons ((n, parent) ∷ flat) q = if parent == q then cons n (sons flat q) else sons flat q

abbrev pub children_of : MessageAllocationNode → MessageAllocationNodes
children_of (node r ck b o p children) = children

-- The nodes and their pointers, the first of them with the index `i`.
abbrev layout : MessageAllocationNodes → ℕ → ℕ → Flat
layout nil parent i = []
layout (cons (node r ck b o p children) rest) parent i =
    let below = layout children i (i + 1) in
    (node r ck b o p children, parent) ∷ (below ++ layout rest parent (i + 1 + length below))

flatten-layout :
    (nodes : MessageAllocationNodes) (parent : ℕ) (out : Flat)
    → flatten nodes parent out ≡ out ++ layout nodes parent (length out)
unfolding flatten
flatten-layout nil parent out = sym (append-nil out)
flatten-layout (cons (node r ck b o p children) rest) parent out =
    let n = node r ck b o p children in
    let i = length out in
    let below = layout children i (i + 1) in
    let one : length (out ++ (n, parent) ∷ []) ≡ i + 1 = length-append out ((n, parent) ∷ []) in
    let inner : flatten children i (out ++ (n, parent) ∷ []) ≡ (out ++ (n, parent) ∷ []) ++ below =
      flatten-layout children i (out ++ (n, parent) ∷ [])
      ∙ ap (λ k. (out ++ (n, parent) ∷ []) ++ layout children i k) one in
    let count : length ((out ++ (n, parent) ∷ []) ++ below) ≡ i + 1 + length below =
      length-append (out ++ (n, parent) ∷ []) below ∙ ap (λ k. k + length below) one in
    ap (flatten rest parent) inner
    ∙ flatten-layout rest parent ((out ++ (n, parent) ∷ []) ++ below)
    ∙ ap (λ k. ((out ++ (n, parent) ∷ []) ++ below) ++ layout rest parent k) count
    ∙ append_assoc (out ++ (n, parent) ∷ []) below (layout rest parent (i + 1 + length below))
    ∙ append_assoc out ((n, parent) ∷ []) (below ++ layout rest parent (i + 1 + length below))

-- The nodes of one list and then of another.
abbrev joined : MessageAllocationNodes → MessageAllocationNodes → MessageAllocationNodes
joined nil ys = ys
joined (cons x xs) ys = cons x (joined xs ys)

joined_nil : (xs : MessageAllocationNodes) → joined xs nil ≡ xs
joined_nil nil = refl
joined_nil (cons x xs) = ap (cons x) (joined_nil xs)

sons-append : (xs ys : Flat) (q : ℕ) → sons (xs ++ ys) q ≡ joined (sons xs q) (sons ys q)
sons-append [] ys q = refl
sons-append ((n, parent) ∷ xs) ys q = elim (Bool-cases (parent == q)) [
  | inl same ↦ rw same (ap (cons n) (sons-append xs ys q))
  | inr other ↦ rw other (sons-append xs ys q)
]

==-no : (a b : ℕ) → a ≢ b → (a == b) ≡ false
==-no a b ne = elim (Bool-cases (a == b)) [
  | inl same ↦ absurd (ne (==→eq a b same))
  | inr other ↦ other
]

-- `q` is no index of a layout of `count` nodes from `i` on.
abbrev Outside : ℕ → ℕ → ℕ → Type 0
Outside q i count = (q < i) ⊎ (i + count ≤ q)

Outside-parts :
    (q i : ℕ) (xs ys : Flat)
    → Outside q i (suc (length (xs ++ ys)))
    → (i ≢ q) × Outside q (i + 1) (length xs) × Outside q (i + 1 + length xs) (length ys)
Outside-parts q i xs ys far =
    let sizes = length-append xs ys in
    elim far [
      | inl low ↦ (λ e. omega arith, inl (omega arith), inl (omega arith))
      | inr high ↦ (λ e. omega arith, inr (omega arith), inr (omega arith))
    ]

sons-Outside :
    (nodes : MessageAllocationNodes) (parent i q : ℕ)
    → parent ≢ q
    → Outside q i (length (layout nodes parent i))
    → sons (layout nodes parent i) q ≡ nil
sons-Outside nil parent i q ne far = refl
sons-Outside (cons (node r ck b o p children) rest) parent i q ne far =
    let below = layout children i (i + 1) in
    let after = layout rest parent (i + 1 + length below) in
    let parts = Outside-parts q i below after far in
    rw (==-no parent q ne) (
      sons-append below after q
      ∙ ap (λ l. joined l (sons after q)) (sons-Outside children i (i + 1) q parts.0 parts.1)
      ∙ sons-Outside rest parent (i + 1 + length below) q ne parts.2)

sons-layout :
    (nodes : MessageAllocationNodes) (parent i : ℕ)
    → Outside parent i (length (layout nodes parent i))
    → sons (layout nodes parent i) parent ≡ nodes
sons-layout nil parent i far = refl
sons-layout (cons (node r ck b o p children) rest) parent i far =
    let below = layout children i (i + 1) in
    let after = layout rest parent (i + 1 + length below) in
    let parts = Outside-parts parent i below after far in
    rw (==_refl parent) (
      ap (cons (node r ck b o p children)) (
        sons-append below after parent
        ∙ ap (λ l. joined l (sons after parent))
            (sons-Outside children i (i + 1) parent parts.0 parts.1)
        ∙ sons-layout rest parent (i + 1 + length below) parts.2))

-- What is said of the entry `(n, pointer)` with the index `j` of a layout under `parent` from `i` on.
abbrev Placed : Flat → ℕ → ℕ → ℕ → MessageAllocationNode → ℕ → Type 0
Placed flat parent i j n pointer =
    (sons flat j ≡ children_of n) × ((pointer ≡ parent) ⊎ ((i ≤ pointer) × (pointer < j)))

first_entry :
    (x n : MessageAllocationNode) (p q : ℕ)
    → (let entry : Option (MessageAllocationNode × ℕ) = some (x, p) in entry ≡ some (n, q))
    → (x ≡ n) × (p ≡ q)
first_entry x n p q e = (cc, cc)

Outside-apart : (q i count j : ℕ) → Outside q i count → i ≤ j → j < i + count → q ≢ j
Outside-apart q i count j far low high e = elim far [ inl h ↦ omega arith | inr h ↦ omega arith ]

layout-Placed :
    (nodes : MessageAllocationNodes) (parent i k j : ℕ) (n : MessageAllocationNode) (pointer : ℕ)
    → Outside parent i (length (layout nodes parent i))
    → i + k ≡ j
    → get_elem? (layout nodes parent i) k ≡ some (n, pointer)
    → Placed (layout nodes parent i) parent i j n pointer
layout-Placed nil parent i k j n pointer far e at = cc
layout-Placed (cons (node r ck b o p children) rest) parent i zero j n pointer far e at =
    let below = layout children i (i + 1) in
    let after = layout rest parent (i + 1 + length below) in
    let parts = Outside-parts parent i below after far in
    let entry = first_entry (node r ck b o p children) n parent pointer at in
    let here : i ≡ j = omega arith in
    let apart : parent ≢ i = λ same. parts.0 (sym same) in
    let found : sons (below ++ after) i ≡ children =
      sons-append below after i
      ∙ ap (λ l. joined l (sons after i)) (sons-layout children i (i + 1) (inl (omega arith)))
      ∙ ap (joined children)
          (sons-Outside rest parent (i + 1 + length below) i apart (inl (omega arith)))
      ∙ joined_nil children in
    (rw (sym here, ==-no parent i apart) (found ∙ ap children_of entry.0), inl (sym entry.1))
layout-Placed (cons (node r ck b o p children) rest) parent i (suc k) j n pointer far e at =
    let below = layout children i (i + 1) in
    let after = layout rest parent (i + 1 + length below) in
    let parts = Outside-parts parent i below after far in
    let within = get_elem?-within (below ++ after) k (n, pointer) at in
    let sizes = length-append below after in
    let apart : parent ≢ j =
      Outside-apart parent i (suc (length (below ++ after))) j far (omega arith) (omega arith) in
    elim (Bool-cases (ltb k (length below))) [
      | inl inside ↦
          let short = ltb→lt k (length below) inside in
          let at' = sym (get_elem?-append_left below after k short) ∙ at in
          let ih =
            layout-Placed children i (i + 1) k j n pointer (inl (omega arith)) (omega arith) at' in
          let found : sons (below ++ after) j ≡ children_of n =
            sons-append below after j
            ∙ ap (joined (sons below j))
                (sons-Outside rest parent (i + 1 + length below) j apart (inl (omega arith)))
            ∙ joined_nil (sons below j)
            ∙ ih.0 in
          (
            rw (==-no parent j apart) found,
            inr (elim ih.1 [
              | inl same ↦ (omega arith, omega arith)
              | inr later ↦ (omega (arith, later.0), later.1)
            ]),
          )
      | inr outside ↦
          let long = ltb→le k (length below) outside in
          let at' = sym (get_elem?-append_right below after k long) ∙ at in
          let ih =
            layout-Placed rest parent (i + 1 + length below) (k - length below) j n pointer parts.2
              (omega arith) at' in
          let found : sons (below ++ after) j ≡ children_of n =
            sons-append below after j
            ∙ ap (λ l. joined l (sons after j))
                (sons-Outside children i (i + 1) j (λ h. omega arith) (inr (omega arith)))
            ∙ ih.0 in
          (
            rw (==-no parent j apart) found,
            elim ih.1 [ inl same ↦ inl same | inr later ↦ inr (omega (arith, later.0), later.1) ],
          )
    ]

-- If the allocation forest has at most 2^256 - 1 nodes, then the flat array that abi_encode writes determines it: the entries that point at the sentinel are the roots, those that point at an entry's index are that entry's children, each in order, and every pointer is the sentinel or the index of an earlier entry.
pub flatten-sons :
    (roots : MessageAllocationNodes)
    → let flat = flatten roots node_root_sentinel [] in
      length flat ≤ node_root_sentinel
      → (sons flat node_root_sentinel ≡ roots)
        × ((k : ℕ) (n : MessageAllocationNode) (pointer : ℕ)
            → get_elem? flat k ≡ some (n, pointer)
            → (sons flat k ≡ children_of n) × ((pointer ≡ node_root_sentinel) ⊎ (pointer < k)))
flatten-sons roots few =
    let e = flatten-layout roots node_root_sentinel [] in
    let far : Outside node_root_sentinel 0 (length (layout roots node_root_sentinel 0)) =
      let few' = rw e at few in inr (omega arith) in
    rw e (
      sons-layout roots node_root_sentinel 0 far,
      λ k n pointer at.
          let placed =
            layout-Placed roots node_root_sentinel 0 k k n pointer far (omega arith) at in
          (placed.0, elim placed.1 [ inl top ↦ inl top | inr earlier ↦ inr earlier.1 ]),
    )
