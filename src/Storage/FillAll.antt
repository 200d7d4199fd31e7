-- ===== src/Storage/FillAll.antt =====
-- The whole loop of `read` over the pages.
use genvm_executor.Base.{
  ℕ, zero, suc, ◌+◌, ◌*◌, ◌/◌, ◌≤◌, ◌<◌, ◌≡◌, refl, ap, sym, ◌∙◌, inl, inr, ◌&&◌, leb, ltb, ◌==◌,
  Bool-cases, [], ◌∷◌, arith, if◌then◌else◌, length, get_or,
}
use mathlib.Core.Path.{subst}
use genvm_executor.Storage.Pages.{Bytes, Pages}
use genvm_executor.Storage.Access.{PageCache, Storage, fill_page, fill_pages, put_staged}
use genvm_executor.Storage.Buffers.{slice}
use genvm_executor.Storage.View.{
  IsPageCache, IsFresh, AreSized, byte_of, Same, Same-trans, known_in-Same,
}
use genvm_executor.Storage.Truth.{unknown-byte_of}
use genvm_executor.Storage.Fill.{AreStored, missing, HoldsHost, IsFilled, fill_page_lem}

-- One page and then `n` pages are `n + 1` pages.
merge :
    (k page n t u a b c : ℕ)
    → b ≡ (if k == page then t else a)
    → c ≡ (if leb (page + 1) k && ltb k (page + 1 + n) then u else b)
    → u ≡ t
    → c ≡ (if leb page k && ltb k (page + suc n) then t else a)
merge k page n t u a b c here later same = ground arith

module _ {C L : Type 0} (cache : PageCache C) (base : ℕ → ℕ → ℕ) where
  pub IsFresh-Same :
      {s s' : Storage C L}
      → Same cache s s'
      → IsFresh cache base s.cache
      → IsFresh cache base s'.cache
  IsFresh-Same h fresh slot index p e = fresh slot index p (sym (h.2 (slot, index)) ∙ e)

module _ {C L : Type 0} (cache : PageCache C) (laws : IsPageCache cache) (base : ℕ → ℕ → ℕ)
    (slot start_index end_index from until : ℕ) (above : start_index ≤ from)
    (below : until ≤ end_index) where
  -- One page further, the buffer still holds the truth wherever nothing is known.
  HoldsHost-fill_page :
      (s : Storage C L) (buf : Bytes) (staged : Pages) (page : ℕ) (r : Storage C L × Bytes × Pages)
      → IsFresh cache base s.cache
      → AreSized s.pages
      → HoldsHost cache laws base slot start_index end_index from until above below s buf
      → IsFilled cache laws base slot start_index end_index from until above below s buf staged page
          r
      → HoldsHost cache laws base slot start_index end_index from until above below r.0 r.1
  HoldsHost-fill_page s buf staged page (s', buf', staged') fresh sized holds filled i l unknown =
      let l' : i < length buf = omega (arith, filled.1) in
      let k = (start_index + i) / 32 in
      let unknown' = sym (known_in-Same cache filled.0 (slot, k)) ∙ unknown in
      elim (Bool-cases (k == page)) [
        | inl same ↦
            filled.4 i l'
            ∙ rw same (
                unknown-byte_of cache base s.pages s.cache fresh sized slot k (start_index + i)
                  unknown' refl)
        | inr other ↦ filled.4 i l' ∙ rw other (holds i l' unknown')
      ]

  abbrev pub AreFilled : Storage C L → Bytes → ℕ → ℕ → Storage C L × Bytes × Pages → Type 0
  AreFilled s buf page n (s', buf', staged') =
      Same cache s s'
      × (length buf' ≡ length buf)
      × AreStored base staged'
      × ((i : ℕ)
          → i < length buf
          → get_or buf' i 0 ≡ (
              if leb page ((start_index + i) / 32) && ltb ((start_index + i) / 32) (page + n)
              then byte_of base s.pages slot (start_index + i)
              else get_or buf i 0))

  pub fill_pages_lem :
      (n : ℕ) (s : Storage C L) (buf : Bytes) (staged : Pages) (page : ℕ)
      → IsFresh cache base s.cache
      → AreSized s.pages
      → AreStored base staged
      → start_index + length buf ≡ end_index
      → HoldsHost cache laws base slot start_index end_index from until above below s buf
      → length staged + missing s.pages slot page n ≤ 8
      → AreFilled s buf page n
          (fill_pages cache slot start_index end_index from until page n s buf staged)
  unfolding fill_pages
  fill_pages_lem zero s buf staged page fresh sized stored whole holds room =
      ((refl, refl, λ j. refl), refl, stored, λ i l. ground arith)
  fill_pages_lem (suc n) s buf staged page fresh sized stored whole holds room =
      let r = fill_page cache slot start_index end_index from until page s buf staged in
      let one =
        fill_page_lem cache laws base slot start_index end_index from until above below s buf staged
          page fresh sized stored whole holds (omega arith) in
      let pages_e : r.0.pages ≡ s.pages = one.0.0 in
      let ih =
        fill_pages_lem n r.0 r.1 r.2 (page + 1) (IsFresh-Same cache base one.0 fresh)
          (subst AreSized (sym pages_e) sized) one.2 (omega (arith, one.1))
          (HoldsHost-fill_page s buf staged page r fresh sized holds one)
          (let m = ap (λ pages. missing pages slot (page + 1) n) pages_e in
            omega (arith, one.3, m)) in
      (
        Same-trans cache one.0 ih.0,
        ih.1 ∙ one.1,
        ih.2,
        λ i l.
            let here = one.4 i l in
            let later = ih.3 i (omega (arith, one.1)) in
            let same = ap (λ pages. byte_of base pages slot (start_index + i)) pages_e in
            merge ((start_index + i) / 32) page n _ _ _ _ _ here later same,
      )

-- What was staged is what the host stores, so the cache stays fresh.
pub put_staged-IsFresh :
    {C : Type 0} (cache : PageCache C) (laws : IsPageCache cache) (base : ℕ → ℕ → ℕ)
    (staged : Pages) (c : C)
    → IsFresh cache base c
    → AreStored base staged
    → IsFresh cache base (put_staged cache c staged)
unfolding put_staged
put_staged-IsFresh cache laws base [] c fresh stored = fresh
put_staged-IsFresh cache laws base ((id, p) ∷ staged) c fresh stored =
    put_staged-IsFresh cache laws base staged (cache.put c id p)
      (λ slot index q e. elim (laws.put_adds c id p (slot, index) q e) [
        | inl new ↦ new.1 ∙ stored.0 ∙ ap (λ j. slice (base j.0) (j.1 * 32) 32) (sym new.0)
        | inr old ↦ fresh slot index q old
      ])
      stored.1
