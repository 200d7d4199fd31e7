-- ===== src/Storage/Cuts.antt =====
-- What the host is asked for covers all that is not known.
use genvm_executor.Base.{
  ℕ, zero, suc, ◌+◌, ◌-◌, ◌*◌, ◌≤◌, ◌<◌, ◌≡◌, refl, ◌∙◌, ◌⊎◌, inl, inr, min, max, Option-cases,
  Bool-cases, ◌==◌, ==→eq, none, arith,
}
use genvm_executor.Storage.Pages.{is_some}
use genvm_executor.Storage.Access.{PageCache, Storage, known_page, cut_prefix, cut_suffix}
use genvm_executor.Storage.View.{
  IsPageCache, known_in, Same, Same-known_page, Same-trans, known_in-Same,
}

module _ {C L : Type 0} (cache : PageCache C) (laws : IsPageCache cache) where
  -- The new start is not before the old one, and not behind an unknown page's part of the request.
  abbrev CutsPrefix : Storage C L → ℕ → ℕ → ℕ → ℕ → Storage C L × ℕ → Type 0
  CutsPrefix s slot page n start (s', from) =
      Same cache s s'
      × (start ≤ from)
      × ((k : ℕ)
          → page ≤ k
          → k < page + n
          → known_in cache s.pages s.cache (slot, k) ≡ none
          → from ≤ max start (k * 32))

  pub cut_prefix_lem :
      (s : Storage C L) (slot page n start : ℕ)
      → start ≤ (page + 1) * 32
      → CutsPrefix s slot page n start (cut_prefix cache s slot page n start)
  unfolding cut_prefix is_some
  cut_prefix_lem s slot page zero start h =
      ((refl, refl, λ j. refl), omega arith, λ k l m e. absurd (omega arith))
  cut_prefix_lem s slot page (suc n) start h =
      let step = Same-known_page cache laws s (slot, page) in
      elim (Option-cases (known_in cache s.pages s.cache (slot, page))) [
        | inl missing ↦ rw (step.1 ∙ missing) (step.0, omega arith, λ k l m e. omega arith)
        | inr (p, found) ↦
            let ih =
              cut_prefix_lem (known_page cache s (slot, page)).0 slot (page + 1) n ((page + 1) * 32)
                (omega arith) in
            rw (step.1 ∙ found) (
              Same-trans cache step.0 ih.0,
              omega (arith, ih.1),
              λ k l m e. elim (Bool-cases (k == page)) [
                | inl same ↦ let e' = rw (==→eq k page same) at e in cc (e', found)
                | inr other ↦
                    let apart : page + 1 ≤ k = ground arith in
                    omega
                      (arith, ih.2 k apart (omega arith) (known_in-Same cache step.0 (slot, k) ∙ e))
              ],
            )
      ]

  -- The new end is not behind the old one, and not before the end of an unknown page's part.
  abbrev CutsSuffix : Storage C L → ℕ → ℕ → ℕ → ℕ → Storage C L × ℕ → Type 0
  CutsSuffix s slot first n end_ (s', until) =
      Same cache s s'
      × (until ≤ end_)
      × ((k : ℕ)
          → first ≤ k
          → k < first + n
          → known_in cache s.pages s.cache (slot, k) ≡ none
          → min end_ (k * 32 + 32) ≤ until)

  pub cut_suffix_lem :
      (s : Storage C L) (slot first n end_ : ℕ)
      → (n ≡ 0) ⊎ ((first + n - 1) * 32 ≤ end_)
      → CutsSuffix s slot first n end_ (cut_suffix cache s slot first n end_)
  unfolding cut_suffix is_some
  cut_suffix_lem s slot first zero end_ h =
      ((refl, refl, λ j. refl), omega arith, λ k l m e. absurd (omega arith))
  cut_suffix_lem s slot first (suc n) end_ h =
      let step = Same-known_page cache laws s (slot, first + n) in
      elim (Option-cases (known_in cache s.pages s.cache (slot, first + n))) [
        | inl missing ↦ rw (step.1 ∙ missing) (step.0, omega arith, λ k l m e. omega arith)
        | inr (p, found) ↦
            let ih =
              cut_suffix_lem (known_page cache s (slot, first + n)).0 slot first n
                ((first + n) * 32) (inr (omega arith)) in
            rw (step.1 ∙ found) (
              Same-trans cache step.0 ih.0,
              omega (arith, ih.1, h),
              λ k l m e. elim (Bool-cases (k == first + n)) [
                | inl same ↦ let e' = rw (==→eq k (first + n) same) at e in cc (e', found)
                | inr other ↦
                    let apart : k < first + n = ground arith in
                    omega (arith, ih.2 k l apart (known_in-Same cache step.0 (slot, k) ∙ e))
              ],
            )
      ]
