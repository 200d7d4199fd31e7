-- ===== src/Storage/ReadLaws.antt =====
-- `read` returns what the slot holds.
use genvm_executor.Base.{
  ℕ, ◌+◌, ◌-◌, ◌/◌, ◌%◌, ◌^◌, ◌≤◌, ◌<◌, ◌≡◌, refl, ap, sym, ◌∙◌, inl, inr, true, leb, ltb, ltb→lt,
  lt→ltb, ltb→le, suc-ne-zero, Bool-cases, Option, some, [], ◌∷◌, arith, length, get_or,
}
use mathlib.Core.Path.{subst}
use genvm_executor.Storage.Pages.{Bytes}
use genvm_executor.Storage.Access.{
  PageCache, Storage, Outcome, done, copy_at, ask_host, cut_prefix, cut_suffix, fill_pages, fill,
  read_range, read,
}
use genvm_executor.Storage.Buffers.{
  slice, length-slice, get_or-slice, get_or-copy_at, length-copy_at, eq-slice,
}
use genvm_executor.Storage.View.{
  IsPageCache, HostStores, IsFresh, AreSized, byte_of, Same, Same-trans, known_in-Same,
}
use genvm_executor.Storage.Truth.{le→leb}
use genvm_executor.Storage.Cuts.{cut_prefix_lem, cut_suffix_lem}
use genvm_executor.Storage.Fill.{missing, HoldsHost}
use genvm_executor.Storage.FillAll.{IsFresh-Same, fill_pages_lem, put_staged-IsFresh}

-- The host's bytes in the part of the buffer that was asked for.
ask_host_lem :
    (host : ℕ → ℕ → ℕ → Option Bytes) (base : ℕ → ℕ → ℕ) (slot start_index from until : ℕ)
    (buf : Bytes)
    → HostStores host base
    → start_index ≤ from
    → until ≤ start_index + length buf
    → start_index + length buf ≤ 2 ^ 32
    → (buf' : Bytes) × (ask_host host slot start_index from until buf ≡ some buf')
      × (length buf' ≡ length buf)
      × ((i : ℕ)
          → i < length buf
          → from ≤ start_index + i
          → start_index + i < until
          → get_or buf' i 0 ≡ base slot (start_index + i))
unfolding ask_host
ask_host_lem host base slot start_index from until buf stores above below small =
    elim (Bool-cases (ltb from until)) [
      | inr nothing ↦ (
        buf,
        rw nothing refl,
        refl,
        λ i l low high. absurd (omega (arith, ltb→le from until nothing)),
      )
      | inl asked ↦
          let h = ltb→lt from until asked in
          let bytes = slice (base slot) from (until - from) in
          let size = length-slice (base slot) from (until - from) in
          let start_e : from % 2 ^ 32 ≡ from = omega arith in
          let answer = stores slot from (until - from) (omega arith) in
          let fits : from - start_index + length bytes ≤ length buf = omega (arith, size) in
          (
            copy_at buf (from - start_index) bytes,
            rw (asked, start_e, answer, ask_host) refl,
            length-copy_at buf (from - start_index) bytes fits,
            λ i l low high.
                let after : leb (from - start_index) i ≡ true = le→leb _ _ (omega arith) in
                let before : ltb i (from - start_index + length bytes) ≡ true =
                  lt→ltb _ _ (omega (arith, size)) in
                rw (get_or-copy_at buf (from - start_index) bytes i fits, after, before)
                  (get_or-slice (base slot) from (until - from) (i - (from - start_index))
                      (omega arith)
                    ∙ ap (base slot) (omega arith)),
          )
    ]

module _ {C L : Type 0} (cache : PageCache C) (laws : IsPageCache cache)
    (host : ℕ → ℕ → ℕ → Option Bytes) (base : ℕ → ℕ → ℕ) (stores : HostStores host base) where
  -- What a call of `read` gives, and what stays.
  abbrev pub Reads : Storage C L → ℕ → ℕ → ℕ → Storage C L × Outcome Bytes → Type 0
  Reads s slot index n r =
      (r.1 ≡ done (slice (byte_of base s.pages slot) index n))
      × (r.0.pages ≡ s.pages)
      × (r.0.limiter ≡ s.limiter)
      × IsFresh cache base r.0.cache

  fill_lem :
      (s : Storage C L) (slot start_index end_index from until : ℕ) (buf : Bytes)
      (above : start_index ≤ from) (below : until ≤ end_index)
      → IsFresh cache base s.cache
      → AreSized s.pages
      → start_index + length buf ≡ end_index
      → start_index < end_index
      → HoldsHost cache laws base slot start_index end_index from until above below s buf
      → missing s.pages slot (start_index / 32) ((end_index - 1) / 32 + 1 - start_index / 32) ≤ 8
      → Reads s slot start_index
          (length buf)
          (fill cache slot start_index end_index from until s buf)
  unfolding fill
  fill_lem s slot start_index end_index from until buf above below fresh sized whole some_bytes
        holds room =
      let first = start_index / 32 in
      let count = (end_index - 1) / 32 + 1 - first in
      let (same, size, stored, bytes) =
        fill_pages_lem cache laws base slot start_index end_index from until above below count s buf
          [] first fresh sized tt whole holds (omega arith) in
      let r = fill_pages cache slot start_index end_index from until first count s buf [] in
      (
        ap done (
            eq-slice (byte_of base s.pages slot) start_index (length buf) r.1 size (λ i l.
              let low : leb first ((start_index + i) / 32) ≡ true = le→leb _ _ (omega arith) in
              let high : ltb ((start_index + i) / 32) (first + count) ≡ true =
                lt→ltb _ _ (omega arith) in
              bytes i (omega (arith, size)) ∙ rw (low, high) refl)),
        same.0,
        same.1,
        put_staged-IsFresh cache laws base r.2 r.0.cache (IsFresh-Same cache base same fresh)
            stored,
      )

  Reads-Same :
      (s t : Storage C L) (slot index n : ℕ) (r : Storage C L × Outcome Bytes)
      → Same cache s t
      → Reads t slot index n r
      → Reads s slot index n r
  Reads-Same s t slot index n (s', outcome) same h = (
    h.0 ∙ ap (λ pages. done (slice (byte_of base pages slot) index n)) same.0,
    h.1 ∙ same.0,
    h.2 ∙ same.1,
    h.3,
  )

  read_range_lem :
      (s : Storage C L) (slot start_index end_index : ℕ) (buf : Bytes)
      → IsFresh cache base s.cache
      → AreSized s.pages
      → start_index + length buf ≡ end_index
      → start_index < end_index
      → end_index ≤ 2 ^ 32
      → missing s.pages slot (start_index / 32) ((end_index - 1) / 32 + 1 - start_index / 32) ≤ 8
      → Reads s slot start_index
          (length buf)
          (read_range cache host s slot start_index end_index buf)
  unfolding read_range
  read_range_lem s slot start_index end_index buf fresh sized whole some_bytes small room =
      let first = start_index / 32 in
      let count = (end_index - 1) / 32 + 1 - first in
      let r₁ = cut_prefix cache s slot first count start_index in
      let p = cut_prefix_lem cache laws s slot first count start_index (omega arith) in
      let r₂ = cut_suffix cache r₁.0 slot first count end_index in
      let q = cut_suffix_lem cache laws r₁.0 slot first count end_index (inr (omega arith)) in
      let below : r₂.1 ≤ end_index = q.1 in
      let both : Same cache s r₂.0 = Same-trans cache p.0 q.0 in
      let (buf', run, size, asked) =
        ask_host_lem host base slot start_index r₁.1 r₂.1 buf stores p.1 (omega (arith, below))
          (omega arith) in
      let holds : HoldsHost cache laws base slot start_index end_index r₁.1 r₂.1 p.1 below r₂.0
          buf' =
        λ i l unknown.
          let k = (start_index + i) / 32 in
          let low =
            p.2 k (omega arith) (omega (arith, size))
              (sym (known_in-Same cache both (slot, k)) ∙ unknown) in
          let high =
            q.2 k (omega arith) (omega (arith, size))
              (sym (known_in-Same cache q.0 (slot, k)) ∙ unknown) in
          asked i (omega (arith, size)) (omega (arith, low)) (omega (arith, high, size)) in
      let filled =
        fill_lem r₂.0 slot start_index end_index r₁.1 r₂.1 buf' p.1 below
          (IsFresh-Same cache base both fresh) (subst AreSized (sym both.0) sized)
          (omega (arith, size)) some_bytes holds
          (let m = ap (λ pages. missing pages slot first count) both.0 in omega (arith, m)) in
      rw (run, read_range)
        (Reads-Same s r₂.0 slot start_index (length buf) _ both (
          subst
            (λ n.
              Reads r₂.0 slot start_index n
                (fill cache slot start_index end_index r₁.1 r₂.1 r₂.0 buf'))
            size filled))

  -- A read returns the slot's bytes, those that were written over those that the host stores, changes
  -- neither pages nor limiter, and leaves a cache of true pages; given a host that stores `base`, a cache
  -- that holds true pages, pages of 32 bytes, a range within 2 ^ 32 bytes, and no more than 8 pages in it
  -- that have not been written.
  pub read-byte_of :
      (s : Storage C L) (slot index : ℕ) (buf : Bytes)
      → IsFresh cache base s.cache
      → AreSized s.pages
      → index + length buf ≤ 2 ^ 32
      → missing s.pages slot (index / 32) ((index + length buf - 1) / 32 + 1 - index / 32) ≤ 8
      → Reads s slot index (length buf) (read cache host s slot index buf)
  unfolding read
  read-byte_of s slot index [] fresh sized small room = (refl, refl, refl, fresh)
  read-byte_of s slot index (x ∷ buf) fresh sized small room = rw (suc-ne-zero (length buf)) (
      read_range_lem s slot index (index + length (x ∷ buf)) (x ∷ buf) fresh sized refl
        (omega arith) small room)
