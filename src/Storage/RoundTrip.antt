-- ===== src/Storage/RoundTrip.antt =====
-- What was written is read: a range, and the contract's code.
use genvm_executor.Base.{
  ℕ, zero, suc, ◌+◌, ◌-◌, ◌/◌, ◌^◌, ◌≤◌, ◌<◌, ◌≡◌, refl, ap, sym, ◌∙◌, inl, inr, Bool, true, Option,
  Option-cases, [], ◌∷◌, arith, ==_refl, length, get_or, inside-true,
}
use mathlib.Core.Path.{subst}
use genvm_executor.Storage.Pages.{Bytes, Pages, find_page, is_some}
use genvm_executor.Storage.Access.{PageCache, Storage, done, read}
use genvm_executor.Storage.Write.{write}
use genvm_executor.Storage.Buffers.{slice, eq-slice}
use genvm_executor.Storage.View.{IsPageCache, IsFresh, AreSized, HostStores, byte_of}
use genvm_executor.Storage.Fill.{missing}
use genvm_executor.Storage.ReadLaws.{Reads, read-byte_of}
use genvm_executor.Storage.Refines.{IsWritten, write_lem}

missing-known :
    (pages : Pages) (slot page n : ℕ)
    → ((k : ℕ) → page ≤ k → k < page + n → is_some (find_page pages (slot, k)) ≡ true)
    → missing pages slot page n ≡ 0
unfolding is_some
missing-known pages slot page zero h = refl
missing-known pages slot page (suc n) h =
    let ih =
      missing-known pages slot (page + 1) n (λ k low high. h k (omega arith) (omega arith)) in
    elim (Option-cases (find_page pages (slot, page))) [
      | inl none_there ↦
          let bad = h page (omega arith) (omega arith) in let bad' = rw none_there at bad in cc
      | inr (p, found) ↦ rw found (omega (arith, ih))
    ]

module _ {C L : Type 0} (base : ℕ → ℕ → ℕ) where
  pub slice-new_byte :
      (s s' : Storage C L) (slot index : ℕ) (buf : Bytes)
      → IsWritten base s slot index buf (s', done tt)
      → slice (byte_of base s'.pages slot) index (length buf) ≡ buf
  unfolding IsWritten
  slice-new_byte s s' slot index buf h = sym (
      eq-slice (byte_of base s'.pages slot) index (length buf) buf refl (λ i l.
        let inside =
          inside-true index (index + i) (index + length buf) (omega arith) (omega arith) in
        let new = h.2 slot (index + i) in
        sym (new ∙ rw (==_refl slot, inside) (ap (λ k. get_or buf k 0) (omega arith)))))

module _ {C L : Type 0} (cache : PageCache C) (laws : IsPageCache cache)
    (host : ℕ → ℕ → ℕ → Option Bytes) (base : ℕ → ℕ → ℕ) (stores : HostStores host base) where
  -- A read of pages that were all written, however many.
  pub read-known :
      (s : Storage C L) (slot index : ℕ) (out : Bytes)
      → IsFresh cache base s.cache
      → AreSized s.pages
      → index + length out ≤ 2 ^ 32
      → ((page : ℕ)
          → 0 < length out
          → index / 32 ≤ page
          → page ≤ (index + length out - 1) / 32
          → is_some (find_page s.pages (slot, page)) ≡ true)
      → Reads cache laws host base stores s slot index
          (length out)
          (read cache host s slot index out)
  unfolding read
  read-known s slot index [] fresh sized small known = (refl, refl, refl, fresh)
  read-known s slot index (x ∷ out) fresh sized small known =
      read-byte_of cache laws host base stores s slot index (x ∷ out) fresh sized small (
        let none_missing =
          missing-known s.pages slot (index / 32)
            ((index + length (x ∷ out) - 1) / 32 + 1 - index / 32)
            (λ k low high. known k (omega arith) low (omega arith)) in
        omega (arith, none_missing))

module _ {C L : Type 0} (cache : PageCache C) (laws : IsPageCache cache)
    (consume_storage_pages : L → ℕ → L × Option Bool) (host : ℕ → ℕ → ℕ → Option Bytes)
    (base : ℕ → ℕ → ℕ) (stores : HostStores host base) where
  -- After a write that was done, a read of its range, however long, gives what was written and leaves
  -- the pages as they are; given a host that stores `base`, a cache that holds true pages, pages of 32
  -- bytes and a range within 2 ^ 32.
  pub read-write :
      (s s' : Storage C L) (slot index : ℕ) (buf out : Bytes)
      → IsFresh cache base s.cache
      → AreSized s.pages
      → index + length buf ≤ 2 ^ 32
      → write consume_storage_pages host slot index buf s ≡ (s', done tt)
      → length out ≡ length buf
      → ((read cache host s' slot index out).1 ≡ done buf)
        × ((read cache host s' slot index out).0.pages ≡ s'.pages)
  unfolding IsWritten
  read-write s s' slot index buf out fresh sized small e same =
      let h =
        subst (IsWritten base s slot index buf) e
          (write_lem consume_storage_pages host base stores s slot index buf sized small) in
      let r =
        read-known cache laws host base stores s' slot index out
          (subst (IsFresh cache base) (sym h.1) fresh) h.0 (omega (arith, same))
          (λ page more low high. h.3 page (omega (arith, same)) low (omega (arith, same))) in
      (
        r.0
            ∙ ap done (
                ap (λ n. slice (byte_of base s'.pages slot) index n) same
                ∙ slice-new_byte base s s' slot index buf h),
        r.1,
      )
