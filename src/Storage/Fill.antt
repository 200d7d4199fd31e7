-- ===== src/Storage/Fill.antt =====
-- The loop of `read` over the pages fills the buffer with what the slot holds, and stages pages of
-- the host for the cache.
use genvm_executor.Base.{
  ℕ, zero, suc, ◌+◌, ◌-◌, ◌*◌, ◌/◌, ◌%◌, ◌≤◌, ◌<◌, ◌≡◌, refl, ap, sym, ◌∙◌, inl, inr, Bool, true,
  false, ◌&&◌, leb, ltb, lt→ltb, ◌==◌, ==→eq, Bool-cases, Option, Option-cases, none, some, [], ◌∷◌,
  ◌++◌, All, arith, if◌then◌else◌, length, length-append, get_or, take, drop, length-take,
  length-drop,
}
use genvm_executor.Storage.Pages.{Bytes, PageId, Pages, find_page}
use genvm_executor.Storage.Access.{PageCache, Storage, stage_page, fill_page}
use genvm_executor.Storage.Buffers.{slice, get_or-take, get_or-drop, eq-slice}
use genvm_executor.Storage.View.{
  IsPageCache, known_in, either, IsFresh, AreSized, byte_of, Same, Same-known_page,
}
use genvm_executor.Storage.Truth.{known-IsPageOf, unknown-byte_of, copy_page_lem}

-- Pages of what the host stores.
abbrev pub AreStored : (ℕ → ℕ → ℕ) → Pages → Type 0
AreStored base staged = All (λ e. e.1 ≡ slice (base e.0.0) (e.0.1 * 32) 32) staged

AreStored-append :
    (base : ℕ → ℕ → ℕ) (staged : Pages) (id : PageId) (p : Bytes)
    → AreStored base staged
    → p ≡ slice (base id.0) (id.1 * 32) 32
    → AreStored base (staged ++ (id, p) ∷ [])
AreStored-append base [] id p h e = (e, tt)
AreStored-append base (x ∷ staged) id p h e = (h.0, AreStored-append base staged id p h.1 e)

if-agree : (b : Bool) (x y z : ℕ) → (b ≡ true → x ≡ y) → (if b then x else z) ≡ (if b then y else z)
if-agree true x y z h = h refl
if-agree false x y z h = refl

if-same : (b : Bool) (x z : ℕ) → (b ≡ true → z ≡ x) → z ≡ (if b then x else z)
if-same true x z h = h refl
if-same false x z h = refl

both-le : (a b c d : ℕ) → leb a b && leb c d ≡ true → (a ≤ b) × (c ≤ d)
both-le a b c d h = (ground arith, ground arith)

-- How many of `n` pages from `page` on have not been written.
abbrev pub one_if_missing : Option Bytes → ℕ
one_if_missing none = 1
one_if_missing (some p) = 0

abbrev pub missing : Pages → ℕ → ℕ → ℕ → ℕ
missing pages slot page zero = 0
missing pages slot page (suc n) =
    one_if_missing (find_page pages (slot, page)) + missing pages slot (page + 1) n

unknown-none : (o k : Option Bytes) → either o k ≡ none → o ≡ none
unknown-none none k h = refl
unknown-none (some p) k h = cc

module _ {C L : Type 0} (cache : PageCache C) (laws : IsPageCache cache) (base : ℕ → ℕ → ℕ)
    (slot start_index end_index from until : ℕ) (above : start_index ≤ from)
    (below : until ≤ end_index) where
  -- A buffer that holds the truth wherever nothing is known.
  abbrev pub HoldsHost : Storage C L → Bytes → Type 0
  HoldsHost s buf =
      (i : ℕ)
      → i < length buf
      → known_in cache s.pages s.cache (slot, (start_index + i) / 32) ≡ none
      → get_or buf i 0 ≡ base slot (start_index + i)

  abbrev pub IsFilled : Storage C L → Bytes → Pages → ℕ → Storage C L × Bytes × Pages → Type 0
  IsFilled s buf staged page (s', buf', staged') =
      Same cache s s'
      × (length buf' ≡ length buf)
      × AreStored base staged'
      × (length staged' ≤ length staged + one_if_missing (find_page s.pages (slot, page)))
      × ((i : ℕ)
          → i < length buf
          → get_or buf' i 0 ≡ (
              if (start_index + i) / 32 == page
              then byte_of base s.pages slot (start_index + i)
              else get_or buf i 0))

  -- An unknown page within the host's answer, cut out of the buffer.
  page_from_host :
      (s : Storage C L) (buf : Bytes) (page : ℕ)
      → start_index + length buf ≡ end_index
      → HoldsHost s buf
      → known_in cache s.pages s.cache (slot, page) ≡ none
      → from ≤ page * 32
      → page * 32 + 32 ≤ until
      → take 32 (drop (page * 32 - start_index) buf) ≡ slice (base slot) (page * 32) 32
  page_from_host s buf page whole holds unknown low high =
      let o = page * 32 - start_index in
      eq-slice (base slot) (page * 32) 32 (take 32 (drop o buf))
        (omega (arith, length-take 32 (drop o buf), length-drop o buf))
        (λ r l.
          let at_page : (start_index + (o + r)) / 32 ≡ page = omega arith in
          let inside : ltb r 32 ≡ true = lt→ltb r 32 l in
          let place : start_index + (o + r) ≡ page * 32 + r = omega arith in
          rw (get_or-take 32 (drop o buf) r, inside, get_or-drop o buf r)
            (holds (o + r) (omega arith) (rw at_page unknown) ∙ ap (base slot) place))

  pub fill_page_lem :
      (s : Storage C L) (buf : Bytes) (staged : Pages) (page : ℕ)
      → IsFresh cache base s.cache
      → AreSized s.pages
      → AreStored base staged
      → start_index + length buf ≡ end_index
      → HoldsHost s buf
      → length staged + one_if_missing (find_page s.pages (slot, page)) ≤ 8
      → IsFilled s buf staged page
          (fill_page cache slot start_index end_index from until page s buf staged)
  unfolding fill_page stage_page
  fill_page_lem s buf staged page fresh sized stored whole holds room =
      let step = Same-known_page cache laws s (slot, page) in
      elim (Option-cases (known_in cache s.pages s.cache (slot, page))) [
        | inr (p, known) ↦
            let is_page = known-IsPageOf cache base s.pages s.cache fresh sized slot page p known in
            let copied = copy_page_lem start_index end_index page p buf is_page.0 whole in
            rw (step.1 ∙ known, fill_page)
              (
                step.0,
                copied.0,
                stored,
                omega arith,
                λ i l.
                    copied.1 i l
                    ∙ if-agree ((start_index + i) / 32 == page) _ _ _ (λ same.
                      let e = ==→eq _ page same in
                      is_page.1 ((start_index + i) % 32) (omega arith)
                      ∙ ap (byte_of base s.pages slot) (omega arith)),
              )
        | inl unknown ↦
            let unwritten : find_page s.pages (slot, page) ≡ none =
              unknown-none (find_page s.pages (slot, page)) (cache.get s.cache (slot, page)).1
                unknown in
            let free : ltb (length staged) 8 ≡ true =
              lt→ltb _ _ (let r = rw unwritten at room in omega arith) in
            let bytes : (i : ℕ)
                → i < length buf
                → get_or buf i 0 ≡ (
                    if (start_index + i) / 32 == page
                    then byte_of base s.pages slot (start_index + i)
                    else get_or buf i 0) =
              λ i l. if-same ((start_index + i) / 32 == page) _ _ (λ same.
                let e = ==→eq _ page same in
                holds i l (rw e unknown)
                ∙ sym (
                    unknown-byte_of cache base s.pages s.cache fresh sized slot page
                      (start_index + i) unknown e)) in
            elim (Bool-cases (leb from (page * 32) && leb (page * 32 + 32) until)) [
              | inl inside ↦
                  let le = both-le from (page * 32) (page * 32 + 32) until inside in
                  let data_e = page_from_host s buf page whole holds unknown le.0 le.1 in
                  rw (step.1 ∙ unknown, fill_page)
                    (rw (inside, free)
                      (
                        step.0,
                        refl,
                        AreStored-append base staged (slot, page) _ stored data_e,
                        rw unwritten (
                            omega (
                              arith,
                              length-append staged (
                                  ((slot, page), take 32 (drop (page * 32 - start_index) buf))
                                  ∷ []),
                            )),
                        bytes,
                      ))
              | inr outside ↦
                  rw (step.1 ∙ unknown, fill_page)
                    (rw outside (step.0, refl, stored, omega arith, bytes))
            ]
      ]
