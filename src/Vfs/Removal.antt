-- ===== src/Vfs/Removal.antt =====
-- The table of descriptors without one of them.
use genvm_executor.Base.{
  ℕ, ◌+◌, ◌≤◌, ◌≡◌, ◌≢◌, refl, ap, sym, ◌∙◌, inl, inr, false, Bool-cases, none, some, [], ◌∷◌,
  arith, ◌==◌, ==→eq,
}
use genvm_executor.Vfs.Descriptors.{FileDescriptor, Fds, find, remove}
use genvm_executor.Vfs.Validity.{opened, cost, costs, find-opened, remove-opened}

pub remove-opened_ne : (fds : Fds) (fd q : ℕ) → fd ≢ q → opened q (remove fd fds) ≡ opened q fds
remove-opened_ne [] fd q ne = refl
remove-opened_ne ((k, v) ∷ fds) fd q ne = elim (Bool-cases (k == fd)) [
  | inl same ↦ elim (Bool-cases (k == q)) [
    | inl hit ↦ absurd (ne (sym (==→eq k fd same) ∙ ==→eq k q hit))
    | inr miss ↦ rw (same, miss) (omega (arith, remove-opened_ne fds fd q ne))
  ]
  | inr other ↦ rw other (omega (arith, remove-opened_ne fds fd q ne))
]

pub remove-opened_self : (fds : Fds) (fd : ℕ) → opened fd (remove fd fds) ≡ 0
remove-opened_self [] fd = refl
remove-opened_self ((k, v) ∷ fds) fd = elim (Bool-cases (k == fd)) [
  | inl same ↦ rw same (remove-opened_self fds fd)
  | inr other ↦ rw (other, other) (omega (arith, remove-opened_self fds fd))
]

pub find-remove_ne : (fds : Fds) (fd q : ℕ) → fd ≢ q → find (remove fd fds) q ≡ find fds q
find-remove_ne [] fd q ne = refl
find-remove_ne ((k, v) ∷ fds) fd q ne = elim (Bool-cases (k == fd)) [
  | inl same ↦ elim (Bool-cases (k == q)) [
    | inl hit ↦ absurd (ne (sym (==→eq k fd same) ∙ ==→eq k q hit))
    | inr miss ↦ rw (same, miss) (find-remove_ne fds fd q ne)
  ]
  | inr other ↦ elim (Bool-cases (k == q)) [
    | inl hit ↦ rw (other, hit) refl
    | inr miss ↦ rw (other, miss) (find-remove_ne fds fd q ne)
  ]
]

pub remove-fewer : (fds : Fds) (fd q : ℕ) → opened q (remove fd fds) ≤ opened q fds
remove-fewer [] fd q = omega arith
remove-fewer ((k, v) ∷ fds) fd q = elim (Bool-cases (k == fd)) [
  | inl same ↦ rw same (omega (arith, remove-fewer fds fd q))
  | inr other ↦ rw other (omega (arith, remove-fewer fds fd q))
]

-- An open descriptor is taken out once, with its cost.
pub remove-costs :
    (fds : Fds) (fd : ℕ) (v : FileDescriptor)
    → find fds fd ≡ some v
    → opened fd fds ≤ 1
    → (opened fd fds ≡ 1) × (costs (remove fd fds) + cost v ≡ costs fds)
remove-costs [] fd v at h = cc
remove-costs ((k, w) ∷ fds) fd v at h = elim (Bool-cases (k == fd)) [
  | inl same ↦
      let at' = rw same at at in
      let h' = rw same at h in
      let e : cost w ≡ cost v = ap (λ x. elim x [ none ↦ 0 | some u ↦ cost u ]) at' in
      let none_left : opened fd fds ≡ 0 = omega arith in
      rw (same, remove-opened fds fd none_left) (omega arith, omega (arith, e))
  | inr other ↦
      let at' = rw other at at in
      let h' = rw other at h in
      let ih = remove-costs fds fd v at' (omega arith) in
      rw other (omega (arith, ih.0), omega (arith, ih.1))
]

pub if-swap : (fd q : ℕ) → fd ≢ q → (fd == q) ≡ false
if-swap fd q ne = elim (Bool-cases (fd == q)) [
  | inl same ↦ absurd (ne (==→eq fd q same))
  | inr other ↦ other
]

pub find-remove_self : (fds : Fds) (fd : ℕ) → find (remove fd fds) fd ≡ none
find-remove_self fds fd = find-opened (remove fd fds) fd (remove-opened_self fds fd)
