-- ===== src/Storage/View.antt =====
-- What a slot holds, as a function of the byte's place: the pages that were written over what the
-- host stores. What is relied on of the host and of the cache.
use genvm_executor.Base.{
  ℕ, ◌+◌, ◌*◌, ◌/◌, ◌%◌, ◌^◌, ◌≤◌, ◌≡◌, refl, ap, sym, ◌∙◌, ◌⊎◌, inl, inr, Bool-cases, Option,
  Option-cases, none, some, [], ◌∷◌, arith, length, get_or,
}
use genvm_executor.Storage.Pages.{Bytes, PageId, Pages, page_eq, find_page}
use genvm_executor.Storage.Access.{PageCache, Storage, known_page}
use genvm_executor.Storage.Buffers.{slice}

-- What a cache answers is noted by no later answer, and an entry is what was put there or was there
-- before; entries may be forgotten at any `put`.
pub record IsPageCache {C : Type 0} (cache : PageCache C) : Type 0 where
  pub get_keeps : (c : C) (k j : PageId) → (cache.get (cache.get c k).0 j).1 ≡ (cache.get c j).1
  pub put_adds :
      (c : C) (k : PageId) (p : Bytes) (j : PageId) (q : Bytes)
      → (cache.get (cache.put c k p) j).1 ≡ some q
      → ((j ≡ k) × (q ≡ p)) ⊎ ((cache.get c j).1 ≡ some q)

-- The host stores `base`: it answers with the bytes of the slot, within 2 ^ 32.
abbrev pub HostStores : (ℕ → ℕ → ℕ → Option Bytes) → (ℕ → ℕ → ℕ) → Type 0
HostStores host base =
    (slot from n : ℕ) → from + n ≤ 2 ^ 32 → host slot from n ≡ some (slice (base slot) from n)

-- A page's byte, if there is a page.
abbrev pub byte_in : Option Bytes → ℕ → ℕ → ℕ
byte_in none stored offset = stored
byte_in (some page) stored offset = get_or page offset 0

-- The byte of a slot at a place.
abbrev pub byte_of : (ℕ → ℕ → ℕ) → Pages → ℕ → ℕ → ℕ
byte_of base pages slot place =
    byte_in (find_page pages (slot, place / 32)) (base slot place) (place % 32)

-- Pages have 32 bytes.
abbrev pub AreSized : Pages → Type 0
AreSized [] = Unit {0}
AreSized ((k, v) ∷ pages) = (length v ≡ 32) × AreSized pages

pub find_page-AreSized :
    (pages : Pages) (id : PageId) (p : Bytes)
    → AreSized pages
    → find_page pages id ≡ some p
    → length p ≡ 32
unfolding find_page
find_page-AreSized [] id p h e = cc
find_page-AreSized ((k, v) ∷ pages) id p h e = elim (Bool-cases (page_eq k id)) [
  | inl same ↦ let e' = rw same at e in let f : v ≡ p = cc in ap length (sym f) ∙ h.0
  | inr other ↦ let e' = rw other at e in find_page-AreSized pages id p h.1 e'
]

-- The first answer, if there is one.
abbrev pub either : Option Bytes → Option Bytes → Option Bytes
either none second = second
either (some p) second = some p

module _ {C : Type 0} (cache : PageCache C) where
  -- What the pages that were written and the cache know of a page.
  abbrev pub known_in : Pages → C → PageId → Option Bytes
  known_in pages c id = either (find_page pages id) (cache.get c id).1

  -- The cache holds pages of what the host stores.
  abbrev pub IsFresh : (ℕ → ℕ → ℕ) → C → Type 0
  IsFresh base c =
      (slot index : ℕ) (p : Bytes)
      → (cache.get c (slot, index)).1 ≡ some p
      → p ≡ slice (base slot) (index * 32) 32

module _ {C L : Type 0} (cache : PageCache C) where
  -- Only the cache's notes have changed.
  abbrev pub Same : Storage C L → Storage C L → Type 0
  Same s s' =
      (s'.pages ≡ s.pages)
      × (s'.limiter ≡ s.limiter)
      × ((id : PageId) → (cache.get s'.cache id).1 ≡ (cache.get s.cache id).1)

  module _ (laws : IsPageCache cache) where
    pub Same-known_page :
        (s : Storage C L) (id : PageId)
        → Same s (known_page cache s id).0
          × ((known_page cache s id).1 ≡ known_in cache s.pages s.cache id)
    unfolding known_page
    Same-known_page s id = elim (Option-cases (find_page s.pages id)) [
      | inl missing ↦
          rw (missing, known_page) ((refl, refl, λ j. laws.get_keeps s.cache id j), refl)
      | inr (p, found) ↦ rw (found, known_page) ((refl, refl, λ j. refl), refl)
    ]

  pub Same-trans : {s t u : Storage C L} → Same s t → Same t u → Same s u
  Same-trans h k = (k.0 ∙ h.0, k.1 ∙ h.1, λ j. k.2 j ∙ h.2 j)

  pub known_in-Same :
      {s t : Storage C L}
      → Same s t
      → (id : PageId) → known_in cache t.pages t.cache id ≡ known_in cache s.pages s.cache id
  known_in-Same {s = s} {t = t} h id =
      ap (λ pages. known_in cache pages t.cache id) h.0
      ∙ ap (either (find_page s.pages id)) (h.2 id)

-- A place is its page's number and its offset in the page.
pub place_split : (place : ℕ) → place / 32 * 32 + place % 32 ≡ place
place_split place = omega arith
