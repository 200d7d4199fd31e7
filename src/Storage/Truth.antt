-- ===== src/Storage/Truth.antt =====
-- What a storage knows of a page is what the slot holds.
use genvm_executor.Base.{
  ℕ, ◌+◌, ◌-◌, ◌*◌, ◌/◌, ◌%◌, ◌≤◌, ◌<◌, ◌≡◌, refl, ap, sym, ◌∙◌, inl, inr, true, min, max, ◌&&◌,
  leb, ltb, ltb→lt, lt→ltb, ltb→le, ◌==◌, ==→eq, Bool-cases, Option-cases, none, some, arith,
  if◌then◌else◌, length, get_or, take, drop, length-take, length-drop,
}
use genvm_executor.Storage.Pages.{Bytes, Pages, find_page}
use genvm_executor.Storage.Access.{PageCache, copy_page}
use genvm_executor.Storage.Buffers.{
  length-slice, get_or-slice, get_or-take, get_or-drop, get_or-copy_at, length-copy_at,
}
use genvm_executor.Storage.View.{known_in, IsFresh, AreSized, find_page-AreSized, byte_of}

module _ {C : Type 0} (cache : PageCache C) (base : ℕ → ℕ → ℕ) (pages : Pages) (c : C)
    (fresh : IsFresh cache base c) (sized : AreSized pages) where
  -- A known page has 32 bytes, those of the slot.
  abbrev pub IsPageOf : ℕ → ℕ → Bytes → Type 0
  IsPageOf slot k p =
      (length p ≡ 32) × ((r : ℕ) → r < 32 → get_or p r 0 ≡ byte_of base pages slot (k * 32 + r))

  pub known-IsPageOf :
      (slot k : ℕ) (p : Bytes) → known_in cache pages c (slot, k) ≡ some p → IsPageOf slot k p
  known-IsPageOf slot k p known = elim (Option-cases (find_page pages (slot, k))) [
    | inr (q, found) ↦
        let known' = rw found at known in
        let e : q ≡ p = cc in
        (
          ap length (sym e) ∙ find_page-AreSized pages (slot, k) q sized found,
          λ r l.
              let at_k : (k * 32 + r) / 32 ≡ k = omega arith in
              let at_r : (k * 32 + r) % 32 ≡ r = omega arith in rw (at_k, at_r, found, sym e) refl,
        )
    | inl missing ↦
        let known' = rw missing at known in
        let e = fresh slot k p known' in
        (
          ap length e ∙ length-slice (base slot) (k * 32) 32,
          λ r l.
              let at_k : (k * 32 + r) / 32 ≡ k = omega arith in
              rw (at_k, missing, e) (get_or-slice (base slot) (k * 32) 32 r l),
        )
  ]

  -- The host stores the truth where nothing is known.
  pub unknown-byte_of :
      (slot k place : ℕ)
      → known_in cache pages c (slot, k) ≡ none
      → place / 32 ≡ k
      → byte_of base pages slot place ≡ base slot place
  unknown-byte_of slot k place unknown at_k = elim (Option-cases (find_page pages (slot, k))) [
    | inl missing ↦ rw (at_k, missing) refl
    | inr (q, found) ↦ let unknown' = rw found at unknown in cc
  ]

pub le→leb : (a b : ℕ) → a ≤ b → leb a b ≡ true
le→leb a b h = ground arith

-- Copying a page's part of the request.
pub copy_page_lem :
    (start_index end_index page : ℕ) (page_data buf : Bytes)
    → length page_data ≡ 32
    → start_index + length buf ≡ end_index
    → (length (copy_page start_index end_index page page_data buf) ≡ length buf)
      × ((i : ℕ)
          → i < length buf
          → get_or (copy_page start_index end_index page page_data buf) i 0 ≡ (
              if (start_index + i) / 32 == page
              then get_or page_data ((start_index + i) % 32) 0
              else get_or buf i 0))
unfolding copy_page
copy_page_lem start_index end_index page page_data buf sized whole =
    let os = max start_index (page * 32) in
    let oe = min end_index (page * 32 + 32) in
    let piece = take (oe - os) (drop (os - page * 32) page_data) in
    elim (Bool-cases (ltb os oe)) [
      | inr apart ↦
          let h = ltb→le os oe apart in
          rw apart (
            refl,
            λ i l. elim (Bool-cases ((start_index + i) / 32 == page)) [
              | inl same ↦ let e = ==→eq _ page same in absurd (omega arith)
              | inr other ↦ rw other refl
            ],
          )
      | inl overlap ↦
          let h = ltb→lt os oe overlap in
          let size : length piece ≡ oe - os = omega (
            arith,
            length-take (oe - os) (drop (os - page * 32) page_data),
            length-drop (os - page * 32) page_data,
          ) in
          let fits : os - start_index + length piece ≤ length buf = omega arith in
          rw overlap (
            length-copy_at buf (os - start_index) piece fits,
            λ i l.
                rw (get_or-copy_at buf (os - start_index) piece i fits, size)
                  (elim (Bool-cases ((start_index + i) / 32 == page)) [
                    | inl same ↦
                        let e = ==→eq _ page same in
                        let j = i - (os - start_index) in
                        let after : leb (os - start_index) i ≡ true = le→leb _ _ (omega arith) in
                        let before : ltb i (os - start_index + (oe - os)) ≡ true =
                          lt→ltb _ _ (omega arith) in
                        let inside : ltb j (oe - os) ≡ true = lt→ltb _ _ (omega arith) in
                        let place : os - page * 32 + j ≡ (start_index + i) % 32 = omega arith in
                        rw
                          (
                            after,
                            before,
                            same,
                            get_or-take (oe - os) (drop (os - page * 32) page_data) j,
                            inside,
                            get_or-drop (os - page * 32) page_data j,
                            place,
                          )
                          refl
                    | inr other ↦
                        elim (Bool-cases
                          (leb (os - start_index) i && ltb i (os - start_index + (oe - os)))) [
                            | inl both ↦ absurd (ground arith)
                            | inr out ↦ rw (other, out) refl
                          ]
                  ]),
          )
    ]
