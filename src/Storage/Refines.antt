-- ===== src/Storage/Refines.antt =====
-- `write` against a slot as a function of places.
use genvm_executor.Base.{
  ℕ, ◌+◌, ◌-◌, ◌/◌, ◌^◌, ◌≤◌, ◌<◌, ◌≡◌, refl, ap, sym, ◌∙◌, ◌⊎◌, inl, inr, Bool, true, false, ◌&&◌,
  leb, ltb, Bool-cases, Option, arith, ◌==◌, ==→eq, if◌then◌else◌, length,
}
use genvm_executor.Storage.Pages.{Bytes, PageId, find_page, is_some}
use genvm_executor.Storage.Access.{
  Storage, Outcome, done, host_failed, out_of_storage, fees_failed, major_mismatch,
}
use genvm_executor.Storage.Write.{write}
use genvm_executor.Storage.View.{AreSized, HostStores, byte_of}
use genvm_executor.Storage.Progress.{overwritten, Holds, Ends}
use genvm_executor.Storage.WriteLaws.{write_range_lem}

module _ {C L : Type 0} (base : ℕ → ℕ → ℕ) (s : Storage C L) (slot index : ℕ) (buf : Bytes) where
  -- A byte after the write is done.
  abbrev pub new_byte : ℕ → ℕ → ℕ
  new_byte t place =
      if slot == t
      then overwritten (byte_of base s.pages slot) index buf place
      else byte_of base s.pages t place

  -- The end of a write: done with every byte in its place, or stopped with some of them.
  unfoldable pub IsWritten : Storage C L × Outcome (Unit {0}) → Type 0
  IsWritten (s', done u) =
      AreSized s'.pages
      × (s'.cache ≡ s.cache)
      × ((t place : ℕ) → byte_of base s'.pages t place ≡ new_byte t place)
      × ((page : ℕ)
          → 0 < length buf
          → index / 32 ≤ page
          → page ≤ (index + length buf - 1) / 32
          → is_some (find_page s'.pages (slot, page)) ≡ true)
      × ((id : PageId)
          → is_some (find_page s.pages id) ≡ true
          → is_some (find_page s'.pages id) ≡ true)
  IsWritten (s', host_failed) = ⊥
  IsWritten (s', major_mismatch) = ⊥
  IsWritten (s', out_of_storage) =
      AreSized s'.pages
      × (s'.cache ≡ s.cache)
      × ((t place : ℕ)
          → (byte_of base s'.pages t place ≡ byte_of base s.pages t place)
            ⊎ (byte_of base s'.pages t place ≡ new_byte t place))
  IsWritten (s', fees_failed) =
      AreSized s'.pages
      × (s'.cache ≡ s.cache)
      × ((t place : ℕ)
          → (byte_of base s'.pages t place ≡ byte_of base s.pages t place)
            ⊎ (byte_of base s'.pages t place ≡ new_byte t place))

  pub new_byte-outside :
      (t place : ℕ)
      → leb index place && ltb place (index + length buf) ≡ false
      → new_byte t place ≡ byte_of base s.pages t place
  new_byte-outside t place outside = elim (Bool-cases (slot == t)) [
    | inl same ↦ rw (same, outside) (ap (λ k. byte_of base s.pages k place) (==→eq slot t same))
    | inr other ↦ rw other refl
  ]

  stopped :
      (part : ℕ → Bool) (s' : Storage C L)
      → Holds base s.pages s.cache slot index buf part s'
      → AreSized s'.pages
        × (s'.cache ≡ s.cache)
        × ((t place : ℕ)
            → (byte_of base s'.pages t place ≡ byte_of base s.pages t place)
              ⊎ (byte_of base s'.pages t place ≡ new_byte t place))
  stopped part s' h = (
    h.sized,
    h.cache,
    λ t place. elim (Bool-cases (slot == t)) [
      | inr other ↦ inl (h.bytes t place ∙ rw other refl)
      | inl same ↦ elim (Bool-cases (part (place / 32))) [
        | inl there ↦ inr (h.bytes t place ∙ rw (same, there) refl)
        | inr missing ↦ inl (h.bytes t place ∙ rw (same, missing) refl)
      ]
    ],
  )

  finished :
      (written : ℕ → Bool)
      → 0 < length buf
      → ((k : ℕ) → index / 32 ≤ k → k ≤ (index + length buf - 1) / 32 → written k ≡ true)
      → (r : Storage C L × Outcome (Unit {0})) → Ends base s.pages s.cache slot index buf written r
      → IsWritten r
  unfolding IsWritten
  finished written some_bytes all (s', host_failed) h = h
  finished written some_bytes all (s', major_mismatch) h = h
  finished written some_bytes all (s', out_of_storage) (part, h) = stopped part s' h
  finished written some_bytes all (s', fees_failed) (part, h) = stopped part s' h
  finished written some_bytes all (s', done u) h = (
    h.sized,
    h.cache,
    λ t place. elim (Bool-cases (slot == t)) [
      | inr other ↦ h.bytes t place ∙ rw other refl
      | inl same ↦ elim (Bool-cases (leb index place && ltb place (index + length buf))) [
        | inl inside ↦
            let w = all (place / 32) (ground arith) (ground arith) in
            h.bytes t place ∙ rw (same, w) refl
        | inr outside ↦ elim (Bool-cases (written (place / 32))) [
          | inl there ↦ h.bytes t place ∙ rw (same, there) refl
          | inr missing ↦
              h.bytes t place ∙ rw (same, missing) refl ∙ sym (new_byte-outside t place outside)
        ]
      ]
    ],
    λ page _ low high. h.known page (all page low high),
    h.kept,
  )

module _ {C L : Type 0} (consume_storage_pages : L → ℕ → L × Option Bool)
    (host : ℕ → ℕ → ℕ → Option Bytes) (base : ℕ → ℕ → ℕ) (stores : HostStores host base) where
  -- A write within 2 ^ 32 of a storage with pages of 32 bytes, over a host that stores `base`, leaves the
  -- cache alone and, when it is done, every byte of the slot in its range is the buffer's and every
  -- other byte of any slot is what it was; the pages of its range are written ones, and so are still
  -- those that were. It does not fail at the host. If it stops for want of storage pages or at an error
  -- of the fee component, every byte is what it was or is what it would be.
  pub write_lem :
      (s : Storage C L) (slot index : ℕ) (buf : Bytes)
      → AreSized s.pages
      → index + length buf ≤ 2 ^ 32
      → IsWritten base s slot index buf (write consume_storage_pages host slot index buf s)
  unfolding write IsWritten
  write_lem s slot index buf sized small =
      let start : Holds base s.pages s.cache slot index buf (λ k. false) s = record {
        sized = sized;
        cache = refl;
        bytes = λ t place. elim (Bool-cases (slot == t)) [
          | inl same ↦ rw same refl
          | inr other ↦ rw other refl
        ];
        known = λ page e. cc;
        kept = λ id e. e;
      } in
      elim (Bool-cases (length buf == 0)) [
        | inl nothing ↦
            let e = ==→eq (length buf) 0 nothing in
            rw nothing (
              sized,
              refl,
              λ t place. sym (new_byte-outside base s slot index buf t place (rw e (ground arith))),
              λ page more. absurd (omega (arith, e, more)),
              λ id there. there,
            )
        | inr something ↦
            let some_bytes : 0 < length buf = ground arith in
            let h =
              write_range_lem consume_storage_pages host base stores s.pages s.cache slot index buf
                s start some_bytes small in
            rw something (finished base s slot index buf h.0 some_bytes h.2 _ h.1)
      ]
