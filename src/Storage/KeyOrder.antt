-- ===== src/Storage/KeyOrder.antt =====
-- Pages in the order of their keys.
use genvm_executor.Base.{
  ℕ, suc, ◌^◌, ◌<◌, ◌≡◌, refl, ◌⊎◌, inl, inr, true, false, ◌&&◌, Bool-cases, Option, none, some, [],
  ◌∷◌, ◌++◌, arith, ◌==◌, length,
}
use genvm_executor.Storage.Pages.{Bytes, PageId, Pages, page_eq, page_lt, find_page, is_some}

-- Keys in range, and pages of 32 bytes.
abbrev pub IsPage : PageId × Bytes → Type 0
IsPage ((slot, index), v) = (slot < 2 ^ 256) × (index < 2 ^ 32) × (length v ≡ 32)

-- Every key is above `low`, if there is one, and each is above the one before.
abbrev pub Ascend : Option PageId → Pages → Type 0
Ascend low [] = Unit {0}
Ascend none ((k, v) ∷ pages) = IsPage (k, v) × Ascend (some k) pages
Ascend (some low) ((k, v) ∷ pages) = IsPage (k, v) × (page_lt low k ≡ true) × Ascend (some k) pages

-- The pages before: none lies above the last one.
abbrev pub AreBelow : Option PageId → Pages → Type 0
AreBelow last [] = Unit {0}
AreBelow none (p ∷ before) = ⊥
AreBelow (some last) ((k, v) ∷ before) = (page_lt last k ≡ false) × AreBelow (some last) before

pub apart :
    (s i t j slot index : ℕ)
    → ((page_lt (s, i) (t, j) ≡ false) × (page_lt (s, i) (slot, index) ≡ true))
      ⊎ ((page_lt (s, i) (t, j) ≡ true) × (page_lt (s, i) (slot, index) ≡ false))
    → t == slot && j == index ≡ false
unfolding page_lt
apart s i t j slot index (inl (h, l)) = ground arith
apart s i t j slot index (inr (h, l)) = ground arith

pub not_above :
    (s i t j slot index : ℕ)
    → page_lt (s, i) (t, j) ≡ true
    → page_lt (s, i) (slot, index) ≡ false
    → page_lt (t, j) (slot, index) ≡ false
unfolding page_lt
not_above s i t j slot index h l = ground arith

-- Between a page and the next one in its slot there is no other.
pub between :
    (s i slot index : ℕ)
    → page_lt (s, i) (slot, suc index) ≡ true
    → page_lt (s, i) (slot, index) ≡ false
    → (s ≡ slot) × (i ≡ index)
unfolding page_lt
between s i slot index h l = (ground arith, ground arith)

pub past_self : (slot index : ℕ) → page_lt (slot, suc index) (slot, index) ≡ false
unfolding page_lt
past_self slot index = ground arith

pub not_itself : (slot index : ℕ) → page_eq (slot, suc index) (slot, index) ≡ false
unfolding page_eq
not_itself slot index = ground arith

-- A page before one that is not yet reached is the last one that was.
pub find_page-below :
    (last : PageId) (before : Pages) (slot index : ℕ)
    → AreBelow (some last) before
    → page_lt last (slot, index) ≡ true
    → find_page before (slot, index) ≡ none
unfolding find_page page_lt page_eq
find_page-below last [] slot index h l = refl
find_page-below (s, i) (((t, j), v) ∷ before) slot index h l =
    let other = apart s i t j slot index (inl (h.0, l)) in
    rw other (find_page-below (s, i) before slot index h.1 l)

pub find_page-above :
    (low : PageId) (entries : Pages) (slot index : ℕ)
    → Ascend (some low) entries
    → page_lt low (slot, index) ≡ false
    → find_page entries (slot, index) ≡ none
unfolding find_page page_lt page_eq
find_page-above low [] slot index h l = refl
find_page-above (s, i) (((t, j), v) ∷ entries) slot index h l =
    let other = apart s i t j slot index (inr (h.1, l)) in
    let higher = not_above s i t j slot index h.1 l in
    rw other (find_page-above (t, j) entries slot index h.2 higher)

pub find_page-append :
    (xs ys : Pages) (id : PageId)
    → find_page xs id ≡ none
    → find_page (xs ++ ys) id ≡ find_page ys id
unfolding find_page
find_page-append [] ys id h = refl
find_page-append ((k, v) ∷ xs) ys id h = elim (Bool-cases (page_eq k id)) [
  | inl same ↦ let h' = rw same at h in absurd (cc h')
  | inr other ↦ let h' = rw other at h in rw other (find_page-append xs ys id h')
]

pub follows-IsTail :
    (last : Option PageId) (before rest : Pages) (slot index : ℕ) (v : Bytes)
    → AreBelow last before
    → Ascend last (((slot, suc index), v) ∷ rest)
    → is_some (find_page (before ++ ((slot, suc index), v) ∷ rest) (slot, index)) ≡ true
    → last ≡ some (slot, index)
unfolding is_some find_page
follows-IsTail none [] rest slot index v below ascend known =
    let none_after =
      find_page-above (slot, suc index) rest slot index ascend.1 (past_self slot index) in
    absurd (cc (rw (not_itself slot index, none_after) at known))
follows-IsTail none (p ∷ before) rest slot index v below ascend known = absurd below
follows-IsTail (some (s, i)) before rest slot index v below ascend known =
    elim (Bool-cases (page_lt (s, i) (slot, index))) [
      | inr reached ↦ let e = between s i slot index ascend.1 reached in rw (e.0, e.1) refl
      | inl later ↦
          let none_before = find_page-below (s, i) before slot index below later in
          let none_after =
            find_page-above (slot, suc index) rest slot index ascend.2 (past_self slot index) in
          let skip =
            find_page-append before (((slot, suc index), v) ∷ rest) (slot, index) none_before in
          absurd (cc (rw (skip, not_itself slot index, none_after) at known))
    ]

pub Ascend-tail :
    (last : Option PageId) (k : PageId) (v : Bytes) (entries : Pages)
    → Ascend last ((k, v) ∷ entries)
    → IsPage (k, v) × Ascend (some k) entries
Ascend-tail none k v entries h = h
Ascend-tail (some l) k v entries h = (h.0, h.2)

pub still_below :
    (s i t j slot index : ℕ)
    → page_lt (s, i) (t, j) ≡ false
    → page_lt (s, i) (slot, index) ≡ true
    → page_lt (slot, index) (t, j) ≡ false
unfolding page_lt
still_below s i t j slot index h l = ground arith

pub not_below_itself : (slot index : ℕ) → page_lt (slot, index) (slot, index) ≡ false
unfolding page_lt
not_below_itself slot index = ground arith

pub AreBelow-append :
    (last : Option PageId) (before : Pages) (slot index : ℕ) (v : Bytes) (entries : Pages)
    → Ascend last (((slot, index), v) ∷ entries)
    → AreBelow last before
    → AreBelow (some (slot, index)) (before ++ ((slot, index), v) ∷ [])
AreBelow-append none [] slot index v entries ascend h = (not_below_itself slot index, tt)
AreBelow-append none (p ∷ before) slot index v entries ascend h = absurd h
AreBelow-append (some l) [] slot index v entries ascend h = (not_below_itself slot index, tt)
AreBelow-append (some (s, i)) (((t, j), w) ∷ before) slot index v entries ascend h = (
  still_below s i t j slot index h.0 ascend.1,
  AreBelow-append (some (s, i)) before slot index v entries ascend h.1,
)
