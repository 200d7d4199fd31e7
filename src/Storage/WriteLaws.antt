-- ===== src/Storage/WriteLaws.antt =====
-- `write` puts the bytes in their place and leaves all others.
use genvm_executor.Base.{
  ℕ, zero, suc, ◌+◌, ◌-◌, ◌*◌, ◌/◌, ◌%◌, ◌^◌, ◌≤◌, ◌<◌, ◌≡◌, refl, ap, sym, ◌∙◌, inl, inr, Bool,
  true, false, ◌&&◌, ◌||◌, ltb, ltb→lt, lt→ltb, Bool-cases, Option, arith, ◌==◌, ==→eq,
  if◌then◌else◌, length, get_or, take, drop, length-take, length-drop,
}
use genvm_executor.Storage.Pages.{Bytes, Pages}
use genvm_executor.Storage.Access.{Storage}
use genvm_executor.Storage.Write.{write_first, write_last, write_middle, write_range}
use genvm_executor.Storage.Buffers.{get_or-take, get_or-drop}
use genvm_executor.Storage.View.{HostStores, byte_of}
use genvm_executor.Storage.Progress.{also, Holds, Ends, Ends->>=, write_page_lem}
use genvm_executor.Storage.Patches.{IsNew-whole, patch_lem, write_single_page_lem}

module _ {C L : Type 0} (base : ℕ → ℕ → ℕ) (old : Pages) (c : C) (slot index : ℕ)
    (buf : Bytes) where
  Holds-same :
      (a b : ℕ → Bool) (s : Storage C L)
      → ((k : ℕ) → a k ≡ b k)
      → Holds base old c slot index buf a s
      → Holds base old c slot index buf b s
  Holds-same a b s same h = record {
    sized = h.sized;
    cache = h.cache;
    bytes = λ t place. h.bytes t place ∙ rw (same (place / 32)) refl;
    kept = h.kept;
    known = λ page e. h.known page (same page ∙ e);
  }

-- The pages once `n` from `page` on are written too.
abbrev mark : (ℕ → Bool) → ℕ → ℕ → ℕ → Bool
mark written page zero = written
mark written page (suc n) = mark (also written page) (page + 1) n

mark-old :
    (n : ℕ) (written : ℕ → Bool) (page k : ℕ) → written k ≡ true → mark written page n k ≡ true
mark-old zero written page k h = h
mark-old (suc n) written page k h = mark-old n (also written page) (page + 1) k (ground arith)

mark-new :
    (n : ℕ) (written : ℕ → Bool) (page k : ℕ)
    → page ≤ k
    → k < page + n
    → mark written page n k ≡ true
mark-new zero written page k h l = absurd (omega arith)
mark-new (suc n) written page k h l = elim (Bool-cases (page == k)) [
  | inl here ↦ mark-old n (also written page) (page + 1) k (rw here refl)
  | inr later ↦
      let apart : page + 1 ≤ k = ground arith in
      mark-new n (also written page) (page + 1) k apart (omega arith)
]

-- The first and the last page, if they are partial.
abbrev skips : ℕ → ℕ → ℕ → Bool
skips start_index end_index page =
    page == start_index / 32 && ltb (page * 32) start_index
    || page == (end_index - 1) / 32 && ltb end_index (page * 32 + 32)

skips-bounds :
    (start_index end_index page : ℕ)
    → start_index / 32 ≤ page
    → page ≤ (end_index - 1) / 32
    → 0 < end_index
    → skips start_index end_index page ≡ false
    → (start_index ≤ page * 32) × (page * 32 + 32 ≤ end_index)
skips-bounds start_index end_index page low high some_bytes h = (ground arith, ground arith)

module _ {C L : Type 0} (consume : L → ℕ → L × Option Bool) (host : ℕ → ℕ → ℕ → Option Bytes)
    (base : ℕ → ℕ → ℕ) (stores : HostStores host base) (old : Pages) (c : C) (slot index : ℕ)
    (buf : Bytes) where
  write_middle_lem :
      (n : ℕ) (s : Storage C L) (page : ℕ) (written : ℕ → Bool)
      → Holds base old c slot index buf written s
      → ((k : ℕ) → skips index (index + length buf) k ≡ true → written k ≡ true)
      → index / 32 ≤ page
      → page + n ≡ (index + length buf - 1) / 32 + 1
      → 0 < length buf
      → Ends base old c slot index buf
          (mark written page n)
          (write_middle consume slot index (index + length buf) buf page n s)
  unfolding write_middle
  write_middle_lem zero s page written h done_before low count some_bytes = h
  write_middle_lem (suc n) s page written h done_before low count some_bytes =
      let end_index = index + length buf in
      let done_after : (k : ℕ) → skips index end_index k ≡ true → also written page k ≡ true =
        λ k e. let w = done_before k e in ground arith in
      elim (Bool-cases (skips index end_index page)) [
        | inl skipped ↦
            let w = done_before page skipped in
            rw skipped (
              write_middle_lem n s (page + 1) (also written page)
                (Holds-same base old c slot index buf written (also written page) s
                  (λ k. elim (Bool-cases (page == k)) [
                    | inl here ↦ rw here (rw (==→eq page k here) at w)
                    | inr there ↦ rw there refl
                  ])
                  h)
                done_after (omega arith) (omega arith) some_bytes)
        | inr whole ↦
            let bounds = skips-bounds index end_index page low (omega arith) (omega arith) whole in
            rw whole (
              Ends->>= base old c slot index buf (also written page) _ _ _
                (write_page_lem base old c slot index buf consume written s page _ h
                  (IsNew-whole (byte_of base old slot) index buf page bounds.0 bounds.1))
                (λ s' h'.
                  write_middle_lem n s' (page + 1) (also written page) h' done_after (omega arith)
                    (omega arith) some_bytes))
      ]

  -- The marks of the first and of the last page.
  abbrev first_mark : ℕ → Bool
  first_mark = if ltb (index / 32 * 32) index then also (λ k. false) (index / 32) else λ k. false

  write_first_lem :
      (s : Storage C L)
      → Holds base old c slot index buf (λ k. false) s
      → index / 32 < (index + length buf - 1) / 32
      → index + length buf ≤ 2 ^ 32
      → Ends base old c slot index buf first_mark (write_first consume host slot index buf s)
  unfolding write_first
  write_first_lem s h several small = elim (Bool-cases (ltb (index / 32 * 32) index)) [
    | inr whole ↦ rw whole h
    | inl partial ↦
        let bytes = take (32 - index % 32) buf in
        let size : length bytes ≡ 32 - index % 32 =
          omega (arith, length-take (32 - index % 32) buf) in
        rw partial (
          patch_lem consume host base stores old c slot index buf (λ k. false) s (index / 32)
            (index % 32) bytes 0 h refl (omega arith) (omega (arith, size)) (omega arith)
            (λ i l.
              let inside : ltb i (32 - index % 32) ≡ true = lt→ltb _ _ (omega (arith, size)) in
              get_or-take (32 - index % 32) buf i
              ∙ rw inside (ap (λ j. get_or buf j 0) (omega arith)))
            (omega (arith, size)) (inr refl) (inl (omega (arith, size))))
  ]

  abbrev pub last_page : ℕ
  last_page = (index + length buf - 1) / 32

  write_last_lem :
      (s : Storage C L) (written : ℕ → Bool)
      → Holds base old c slot index buf written s
      → written last_page ≡ false
      → index / 32 < last_page
      → index + length buf ≤ 2 ^ 32
      → Ends base old c slot index buf
          (if ltb (index + length buf) (last_page * 32 + 32)
            then also written last_page
            else written)
          (write_last consume host slot (index + length buf) buf s)
  unfolding write_last
  write_last_lem s written h untouched several small =
      elim (Bool-cases (ltb (index + length buf) (last_page * 32 + 32))) [
        | inr whole ↦ rw whole h
        | inl partial ↦
            let short = ltb→lt _ _ partial in
            let e = (index + length buf) % 32 in
            let bytes = drop (length buf - e) buf in
            let size : length bytes ≡ e = omega (arith, length-drop (length buf - e) buf) in
            rw partial (
              patch_lem consume host base stores old c slot index buf written s last_page 0 bytes
                (length buf - e) h untouched (omega arith) (omega (arith, size)) (omega arith)
                (λ i l. get_or-drop (length buf - e) buf i) (omega (arith, size)) (inl refl)
                (inr (omega (arith, size))))
      ]

  abbrev end_index : ℕ
  end_index = index + length buf

  abbrev both_marks : ℕ → Bool
  both_marks = if ltb end_index (last_page * 32 + 32) then also first_mark last_page else first_mark

  first_mark_last : index / 32 < last_page → first_mark last_page ≡ false
  first_mark_last several = elim (Bool-cases (ltb (index / 32 * 32) index)) [
    | inl partial ↦ rw partial (ground arith)
    | inr whole ↦ rw whole refl
  ]

  both_marks_lem : (k : ℕ) → skips index end_index k ≡ true → both_marks k ≡ true
  both_marks_lem k h = elim (Bool-cases (ltb (index / 32 * 32) index)) [
    | inl a ↦ elim (Bool-cases (ltb end_index (last_page * 32 + 32))) [
      | inl b ↦ rw (a, b) (ground arith)
      | inr b ↦ rw (a, b) (ground arith)
    ]
    | inr a ↦ elim (Bool-cases (ltb end_index (last_page * 32 + 32))) [
      | inl b ↦ rw (a, b) (ground arith)
      | inr b ↦ absurd (ground arith)
    ]
  ]

  pub write_range_lem :
      (s : Storage C L)
      → Holds base old c slot index buf (λ k. false) s
      → 0 < length buf
      → end_index ≤ 2 ^ 32
      → (written : ℕ → Bool) × Ends base old c slot index buf written
          (write_range consume host slot index end_index buf s)
        × ((k : ℕ) → index / 32 ≤ k → k ≤ last_page → written k ≡ true)
  unfolding write_range
  write_range_lem s h some_bytes small =
      let first = index / 32 in
      elim (Bool-cases (first == last_page)) [
        | inl single ↦
            let e = ==→eq first last_page single in
            (
              also (λ k. false) first,
              rw single (
                  write_single_page_lem consume host base stores old c slot index buf s first
                    (λ k. false) h refl refl (sym e) some_bytes (omega arith)),
              λ k low high. ground arith,
            )
        | inr multiple ↦
            let ordered : first ≤ last_page = omega arith in
            let several : first < last_page = ground arith in
            (
              mark both_marks first (last_page + 1 - first),
              rw multiple (
                  Ends->>= base old c slot index buf first_mark
                    (mark both_marks first (last_page + 1 - first)) _ _
                    (write_first_lem s h several small)
                    (λ s₁ h₁.
                      Ends->>= base old c slot index buf both_marks
                        (mark both_marks first (last_page + 1 - first)) _ _
                        (write_last_lem s₁ first_mark h₁ (first_mark_last several) several small)
                        (λ s₂ h₂.
                          write_middle_lem (last_page + 1 - first) s₂ first both_marks h₂
                            both_marks_lem (omega arith) (omega arith) some_bytes))),
              λ k low high. mark-new (last_page + 1 - first) both_marks first k low (omega arith),
            )
      ]
