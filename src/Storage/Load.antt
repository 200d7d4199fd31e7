-- ===== src/Storage/Load.antt =====
-- A run that loads the code of a contract that was deployed.
use genvm_executor.Base.{
  ℕ, zero, suc, ◌+◌, ◌-◌, ◌%◌, ◌^◌, ◌≤◌, ◌<◌, ◌≡◌, refl, ap, sym, ◌∙◌, inl, inr, Bool, false,
  Bool-cases, Option, none, some, [], ◌∷◌, arith, ◌==◌, ==_refl, if◌then◌else◌, length,
}
use mathlib.Core.Path.{subst}
use genvm_executor.Memory.Limiter.{Counters, consume}
use genvm_executor.Storage.Pages.{Bytes, Pages, find_page}
use genvm_executor.Storage.Access.{
  PageCache, Storage, Outcome, done, out_of_storage, major_mismatch, read,
}
use genvm_executor.Storage.Buffers.{slice}
use genvm_executor.Storage.View.{IsPageCache, IsFresh, AreSized, HostStores, byte_of}
use genvm_executor.Storage.Fill.{one_if_missing, missing}
use genvm_executor.Storage.ReadLaws.{Reads, read-byte_of}
use genvm_executor.Storage.RoundTrip.{read-known}
use genvm_executor.Storage.Deploy.{
  from_le_bytes-le_bytes, length-zeros, >>=_done, IsDeployed, deploy-IsDeployed, write_code_small,
}
use genvm_executor.Storage.Code.{
  le_bytes, zeros, code_slot_of, read_major, resolve_code_slot, check_major_and_resolve_code_slot,
  read_sized, read_code_at, deploy,
}

one_if_missing_bound : (o : Option Bytes) → one_if_missing o ≤ 1
one_if_missing_bound none = omega arith
one_if_missing_bound (some p) = omega arith

missing_bound : (pages : Pages) (slot page n : ℕ) → missing pages slot page n ≤ n
missing_bound pages slot page zero = omega arith
missing_bound pages slot page (suc n) = omega (
  arith,
  one_if_missing_bound (find_page pages (slot, page)),
  missing_bound pages slot (page + 1) n,
)

module _ {C L : Type 0} (cache : PageCache C) (laws : IsPageCache cache)
    (host : ℕ → ℕ → ℕ → Option Bytes) (base : ℕ → ℕ → ℕ) (stores : HostStores host base) where
  -- The storage while it loads.
  abbrev Loads : ℕ → ℕ → Bytes → Storage C L → Type 0
  Loads major slot code s = IsDeployed base major slot code s.pages × IsFresh cache base s.cache

  Loads-Reads :
      (major slot : ℕ) (code : Bytes) (s : Storage C L) (t from n : ℕ)
      (r : Storage C L × Outcome Bytes)
      → Loads major slot code s
      → Reads cache laws host base stores s t from n r
      → Loads major slot code r.0
  Loads-Reads major slot code s t from n (s', outcome) h reads =
      (subst (IsDeployed base major slot code) (sym reads.1) h.0, reads.3)

  check_lem :
      (major slot : ℕ) (code : Bytes) (s : Storage C L)
      → Loads major slot code s
      → (t : Storage C L) × (check_major_and_resolve_code_slot cache host major slot s
          ≡ (t, done slot))
        × Loads major slot code t
  unfolding check_major_and_resolve_code_slot read_major resolve_code_slot code_slot_of
  check_lem major slot code s h =
      let r₁ = read cache host s 0 0 (zeros 1) in
      let reads₁ =
        read-byte_of cache laws host base stores s 0 0 (zeros 1) h.1 h.0.sized (omega arith)
          (omega (arith, missing_bound s.pages 0 0 1)) in
      let h₁ = Loads-Reads major slot code s 0 0 1 r₁ h reads₁ in
      let r₂ = read cache host r₁.0 0 5 (zeros 32) in
      let reads₂ =
        read-byte_of cache laws host base stores r₁.0 0 5 (zeros 32) h₁.1 h₁.0.sized (omega arith)
          (omega (arith, missing_bound r₁.0.pages 0 0 2)) in
      let h₂ = Loads-Reads major slot code r₁.0 0 5 32 r₂ h₁ reads₂ in
      let major_read : read_major cache host s ≡ (r₁.0, done major) =
        >>=_done r₁ (major ∷ []) _ (reads₁.0 ∙ ap done h.0.major) in
      let resolved : resolve_code_slot cache host slot r₁.0 ≡ (r₂.0, done slot) =
        >>=_done r₂ (slice (byte_of base r₁.0.pages 0) 5 32) _ reads₂.0 ∙ rw h₁.0.code_slot refl in
      let checked : (Storage C L → Storage C L × Outcome ℕ) =
        λ t. if major == major then resolve_code_slot cache host slot t else (t, major_mismatch) in
      (
        r₂.0,
        >>=_done (read_major cache host s) major _ (ap (λ r. r.1) major_read)
            ∙ ap (λ r. checked r.0) major_read
            ∙ rw (==_refl major) resolved,
        h₂,
      )

  read_code_lem :
      (major slot : ℕ) (code : Bytes) (s : Storage C L) (counters : Counters) (id : ℕ)
      → Loads major slot code s
      → 4 + length code ≤ 2 ^ 32 - 1
      → ((read_code_at cache host slot counters id s).0.1
          ≡ (if (consume counters id (length code)).1 then done code else out_of_storage))
        × ((read_code_at cache host slot counters id s).1 ≡ (consume counters id (length code)).0)
  unfolding read_code_at read_sized
  read_code_lem major slot code s counters id h small =
      let r₁ = read cache host s slot 0 (zeros 4) in
      let reads₁ =
        read-known cache laws host base stores s slot 0 (zeros 4) h.1 h.0.sized (omega arith)
          (λ page more low high. let e : page ≡ 0 = omega arith in rw e h.0.size_known) in
      let h₁ = Loads-Reads major slot code s slot 0 4 r₁ h reads₁ in
      let r₂ = read cache host r₁.0 slot 4 (zeros (length code)) in
      let reads₂ =
        read-known cache laws host base stores r₁.0 slot 4 (zeros (length code)) h₁.1 h₁.0.sized
          (omega (arith, length-zeros (length code)))
          (λ page more low high.
            h₁.0.text_known page (omega (arith, length-zeros (length code))) low
              (omega (arith, length-zeros (length code)))) in
      let text : r₂.1 ≡ done code =
        reads₂.0
        ∙ ap done (
            ap (slice (byte_of base r₁.0.pages slot) 4) (length-zeros (length code)) ∙ h₁.0.text) in
      let size : r₁.1 ≡ done (le_bytes 4 (length code)) = reads₁.0 ∙ ap done h.0.size in
      let sized : ℕ → (Storage C L × Outcome Bytes) × Counters = λ n. (
        if (consume counters id n).1
            then read cache host r₁.0 slot 4 (zeros n)
            else (r₁.0, out_of_storage),
        (consume counters id n).0,
      ) in
      let run : read_code_at cache host slot counters id s ≡ sized (length code) =
        ap (λ o. read_sized cache host slot counters id (r₁.0, o)) size
        ∙ ap sized (from_le_bytes-le_bytes (length code) (omega arith)) in
      (
        ap (λ r. r.0.1) run ∙ elim (Bool-cases (consume counters id (length code)).1) [
          | inl granted ↦ rw granted text
          | inr refused ↦ rw refused refl
        ],
        ap (λ r. r.1) run,
      )

module _ {C L : Type 0} (cache : PageCache C) (laws : IsPageCache cache)
    (consume_storage_pages : L → ℕ → L × Option Bool) (host : ℕ → ℕ → ℕ → Option Bytes)
    (base : ℕ → ℕ → ℕ) (stores : HostStores host base) where
  -- After a deployment that was done, a load by a node of the same major version resolves the slot
  -- that the code was written to and reads the code back, if the memory limiter grants its length, and
  -- otherwise ends with the error for storage; given a host that stores `base`, a cache of true pages,
  -- pages of 32 bytes, a code slot other than slot zero, a major version of one byte, and a field
  -- `code_slot`, bytes 5 to 36 of the root slot, that was zero before.
  pub load-deploy :
      (s s' : Storage C L) (node_major slot : ℕ) (code : Bytes) (counters : Counters) (id : ℕ)
      → IsFresh cache base s.cache
      → AreSized s.pages
      → node_major < 256
      → (slot == 0) ≡ false
      → ((place : ℕ) → 5 ≤ place → place < 37 → byte_of base s.pages 0 place ≡ 0)
      → deploy consume_storage_pages host node_major slot code s ≡ (s', done tt)
      → let checked = check_major_and_resolve_code_slot cache host node_major slot s' in
        let loaded = read_code_at cache host slot counters id checked.0 in
        (checked.1 ≡ done slot)
        × (loaded.0.1
            ≡ (if (consume counters id (length code)).1 then done code else out_of_storage))
        × (loaded.1 ≡ (consume counters id (length code)).0)
  load-deploy s s' node_major slot code counters id fresh sized one_byte apart field e =
      let (deployed, same_cache) =
        deploy-IsDeployed consume_storage_pages host base stores s s' node_major slot code sized
          apart field e in
      let small = write_code_small consume_storage_pages host node_major slot code s s' e in
      let m : node_major % 2 ^ 8 ≡ node_major = omega arith in
      let (t, run, h) = check_lem cache laws host base stores node_major slot code s' (
        subst (λ m. IsDeployed base m slot code s'.pages) m deployed,
        subst (IsFresh cache base) (sym same_cache) fresh,
      ) in
      let loaded =
        read_code_lem cache laws host base stores node_major slot code t counters id h small in
      rw run (refl, loaded.0, loaded.1)
