-- ===== src/Storage/Deploy.antt =====
-- What a run that deploys leaves, and what a later run loads.
use genvm_executor.Base.{
  ℕ, zero, suc, ◌+◌, ◌-◌, ◌/◌, ◌%◌, ◌^◌, ◌≤◌, ◌<◌, ◌≡◌, refl, ap, ◌∙◌, ◌⊎◌, inl, inr, Bool, true,
  false, ltb, Bool-cases, Option, [], ◌∷◌, arith, ◌==◌, length, outside-false,
}
use mathlib.Core.Path.{subst}
use genvm_executor.Storage.Pages.{Bytes, Pages, find_page, is_some}
use genvm_executor.Storage.Access.{
  Storage, Outcome, done, host_failed, out_of_storage, fees_failed, major_mismatch,
}
use genvm_executor.Storage.Write.{◌>>=◌, write}
use genvm_executor.Storage.Buffers.{slice}
use genvm_executor.Storage.View.{AreSized, HostStores, byte_of}
use genvm_executor.Storage.Refines.{new_byte-outside, IsWritten, write_lem}
use genvm_executor.Storage.RoundTrip.{slice-new_byte}
use genvm_executor.Storage.Code.{
  le_bytes, from_le_bytes, zeros, is_zero, write_major, write_code, deploy,
}

slice-ext :
    (f g : ℕ → ℕ) (from n : ℕ)
    → ((k : ℕ) → from ≤ k → k < from + n → f k ≡ g k)
    → slice f from n ≡ slice g from n
slice-ext f g from zero h = refl
slice-ext f g from (suc n) h =
    rw
      (
        h from (omega arith) (omega arith),
        slice-ext f g (from + 1) n (λ k low high. h k (omega arith) (omega arith)),
      )
      refl

is_zero-slice :
    (f : ℕ → ℕ) (from n : ℕ)
    → ((k : ℕ) → from ≤ k → k < from + n → f k ≡ 0)
    → is_zero (slice f from n) ≡ true
unfolding is_zero
is_zero-slice f from zero h = refl
is_zero-slice f from (suc n) h =
    rw (h from (omega arith) (omega arith))
      (is_zero-slice f (from + 1) n (λ k low high. h k (omega arith) (omega arith)))

pub from_le_bytes-le_bytes : (n : ℕ) → n < 2 ^ 32 → from_le_bytes (le_bytes 4 n) ≡ n
from_le_bytes-le_bytes n h = omega arith

pub length-zeros : (n : ℕ) → length (zeros n) ≡ n
length-zeros zero = refl
length-zeros (suc n) = ap suc (length-zeros n)

-- The pages that a deployment leaves.
pub record IsDeployed (base : ℕ → ℕ → ℕ) (node_major slot : ℕ) (code : Bytes) (pages : Pages)
    : Type 0 where
  pub sized : AreSized pages
  pub size : slice (byte_of base pages slot) 0 4 ≡ le_bytes 4 (length code)
  pub size_known : is_some (find_page pages (slot, 0)) ≡ true
  pub text : slice (byte_of base pages slot) 4 (length code) ≡ code
  pub text_known :
      (page : ℕ)
      → 0 < length code
      → 4 / 32 ≤ page
      → page ≤ (4 + length code - 1) / 32
      → is_some (find_page pages (slot, page)) ≡ true
  pub major : slice (byte_of base pages 0) 0 1 ≡ node_major ∷ []
  pub code_slot : is_zero (slice (byte_of base pages 0) 5 32) ≡ true

module _ {C L : Type 0} where
  pub done->>= :
      {A : Type 0} (r : Storage C L × Outcome (Unit {0}))
      (f : Unit {0} → Storage C L → Storage C L × Outcome A) (s' : Storage C L) (a : A)
      → (r >>= f) ≡ (s', done a)
      → (t : Storage C L) × (r ≡ (t, done tt)) × (f tt t ≡ (s', done a))
  done->>= (t, done tt) f s' a h = (t, refl, h)
  done->>= (t, host_failed) f s' a h = absurd (cc (ap (λ x. x.1) h))
  done->>= (t, out_of_storage) f s' a h = absurd (cc (ap (λ x. x.1) h))
  done->>= (t, fees_failed) f s' a h = absurd (cc (ap (λ x. x.1) h))
  done->>= (t, major_mismatch) f s' a h = absurd (cc (ap (λ x. x.1) h))

  pub >>=_done :
      {A B : Type 0} (r : Storage C L × Outcome A) (a : A)
      (f : A → Storage C L → Storage C L × Outcome B)
      → r.1 ≡ done a
      → (r >>= f) ≡ f a r.0
  >>=_done (s, o) a f h = ap (λ o. (s, o) >>= f) h

  elsewhere :
      (base : ℕ → ℕ → ℕ) (s s' : Storage C L) (slot index : ℕ) (buf : Bytes)
      → IsWritten base s slot index buf (s', done tt)
      → (t place : ℕ) → ((slot == t) ≡ false) ⊎ ((place < index) ⊎ (index + length buf ≤ place))
      → byte_of base s'.pages t place ≡ byte_of base s.pages t place
  unfolding IsWritten
  elsewhere base s s' slot index buf h t place (inl other) = h.2 t place ∙ rw other refl
  elsewhere base s s' slot index buf h t place (inr outside) =
      h.2 t place
      ∙ new_byte-outside base s slot index buf t place
          (outside-false index place (index + length buf) outside)

module _ {C L : Type 0} (consume_storage_pages : L → ℕ → L × Option Bool)
    (host : ℕ → ℕ → ℕ → Option Bytes) (base : ℕ → ℕ → ℕ) (stores : HostStores host base) where
  written_lem :
      (s s' : Storage C L) (slot index : ℕ) (buf : Bytes)
      → AreSized s.pages
      → index + length buf ≤ 2 ^ 32
      → write consume_storage_pages host slot index buf s ≡ (s', done tt)
      → IsWritten base s slot index buf (s', done tt)
  written_lem s s' slot index buf sized small e =
      subst (IsWritten base s slot index buf) e
        (write_lem consume_storage_pages host base stores s slot index buf sized small)

  pub deploy-IsDeployed :
      (s s' : Storage C L) (node_major slot : ℕ) (code : Bytes)
      → AreSized s.pages
      → (slot == 0) ≡ false
      → ((place : ℕ) → 5 ≤ place → place < 37 → byte_of base s.pages 0 place ≡ 0)
      → deploy consume_storage_pages host node_major slot code s ≡ (s', done tt)
      → IsDeployed base (node_major % 2 ^ 8) slot code s'.pages × (s'.cache ≡ s.cache)
  unfolding deploy write_code write_major IsWritten
  deploy-IsDeployed s s' node_major slot code sized apart field e =
      elim (Bool-cases (ltb (2 ^ 32 - 1 - 4) (length code))) [
        | inl long ↦ let bad = rw long at e in absurd (cc (ap (λ x. x.1) bad))
        | inr short ↦
            let e' = rw short at e in
            let small : 4 + length code < 2 ^ 32 = ground arith in
            let (t₂, run₂, run₃) = done->>= _ _ s' tt e' in
            let (t₁, run₁, run₂') = done->>= _ _ t₂ tt run₂ in
            let w₁ =
              written_lem s t₁ slot 0 (le_bytes 4 (length code % 2 ^ 32)) sized (omega arith)
                run₁ in
            let w₂ = written_lem t₁ t₂ slot 4 code w₁.0 (omega arith) run₂' in
            let w₃ = written_lem t₂ s' 0 0 (node_major % 2 ^ 8 ∷ []) w₂.0 (omega arith) run₃ in
            let reduced : length code % 2 ^ 32 ≡ length code = omega arith in
            let apart' : (0 == slot) ≡ false = ground arith in
            (
              record {
                sized = w₃.0;
                size =
                    slice-ext _ _ 0 4 (λ k low high.
                      elsewhere base t₂ s' 0 0 (node_major % 2 ^ 8 ∷ []) w₃ slot k (inl apart')
                      ∙ elsewhere base t₁ t₂ slot 4 code w₂ slot k (inr (inl high)))
                    ∙ slice-new_byte base s t₁ slot 0 (le_bytes 4 (length code % 2 ^ 32)) w₁
                    ∙ ap (le_bytes 4) reduced;
                size_known = w₃.4 _ (w₂.4 _ (w₁.3 0 (omega arith) (omega arith) (omega arith)));
                text =
                    slice-ext _ _ 4 (length code) (λ k low high.
                      elsewhere base t₂ s' 0 0 (node_major % 2 ^ 8 ∷ []) w₃ slot k (inl apart'))
                    ∙ slice-new_byte base t₁ t₂ slot 4 code w₂;
                text_known = λ page more low high. w₃.4 _ (w₂.3 page more low high);
                major = slice-new_byte base t₂ s' 0 0 (node_major % 2 ^ 8 ∷ []) w₃;
                code_slot = is_zero-slice _ 5 32 (λ k low high.
                    elsewhere base t₂ s' 0 0 (node_major % 2 ^ 8 ∷ []) w₃ 0 k
                      (inr (inr (omega arith)))
                    ∙ elsewhere base t₁ t₂ slot 4 code w₂ 0 k (inl apart)
                    ∙ elsewhere base s t₁ slot 0 (le_bytes 4 (length code % 2 ^ 32)) w₁ 0 k
                        (inl apart)
                    ∙ field k low (omega arith));
              },
              w₃.1 ∙ w₂.1 ∙ w₁.1,
            )
      ]

module _ {C L : Type 0} (consume_storage_pages : L → ℕ → L × Option Bool)
    (host : ℕ → ℕ → ℕ → Option Bytes) where
  pub write_code_small :
      (node_major slot : ℕ) (code : Bytes) (s s' : Storage C L)
      → deploy consume_storage_pages host node_major slot code s ≡ (s', done tt)
      → 4 + length code ≤ 2 ^ 32 - 1
  unfolding deploy write_code
  write_code_small node_major slot code s s' e =
      elim (Bool-cases (ltb (2 ^ 32 - 1 - 4) (length code))) [
        | inl long ↦ let bad = rw long at e in absurd (cc (ap (λ x. x.1) bad))
        | inr short ↦ ground arith
      ]
