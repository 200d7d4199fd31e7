-- ===== src/Storage/PageKeys.antt =====
-- A page's number and its bytes.
use genvm_executor.Base.{
  ℕ, zero, suc, ◌/◌, ◌^◌, ◌<◌, ◌≡◌, refl, ap, sym, ◌∙◌, ◌++◌, arith, take, drop, take-append,
  drop-append,
}
use genvm_executor.Fees.Abi.{be_bytes}
use native.Mathlib.Nat.{pow-suc, div-div-eq-div-mul}
use genvm_executor.Fees.Offsets.{length-be_bytes}
use genvm_executor.Storage.Pages.{to_bytes, from_be_bytes, from_bytes}

pub from_be_bytes-be_bytes :
    (n v acc : ℕ) → v / 256 ^ n ≡ acc → from_be_bytes acc (be_bytes n v) ≡ v
unfolding from_be_bytes be_bytes
from_be_bytes-be_bytes zero v acc h = omega (arith, h)
from_be_bytes-be_bytes (suc n) v acc h =
    let split : v / 256 ^ n / 256 ≡ v / 256 ^ suc n =
      div-div-eq-div-mul v (256 ^ n) 256 ∙ ap (λ k. v / k) (sym (pow-suc 256 n)) in
    from_be_bytes-be_bytes n v _ (omega (arith, split, h))

pub from_bytes-to_bytes :
    (slot index : ℕ)
    → slot < 2 ^ 256
    → index < 2 ^ 32
    → from_bytes (to_bytes (slot, index)) ≡ (slot, index)
unfolding from_bytes to_bytes
from_bytes-to_bytes slot index h k =
    let cut : take 32 (be_bytes 32 slot ++ be_bytes 4 index) ≡ be_bytes 32 slot =
      ap (λ n. take n (be_bytes 32 slot ++ be_bytes 4 index)) (sym (length-be_bytes 32 slot))
      ∙ take-append (be_bytes 32 slot) (be_bytes 4 index) in
    let rest : drop 32 (be_bytes 32 slot ++ be_bytes 4 index) ≡ be_bytes 4 index =
      ap (λ n. drop n (be_bytes 32 slot ++ be_bytes 4 index)) (sym (length-be_bytes 32 slot))
      ∙ drop-append (be_bytes 32 slot) (be_bytes 4 index) in
    rw
      (
        cut,
        rest,
        from_be_bytes-be_bytes 32 slot 0 (omega (arith, h)),
        from_be_bytes-be_bytes 4 index 0 (omega (arith, k)),
      )
      refl
