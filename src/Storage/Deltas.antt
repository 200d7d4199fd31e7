-- ===== src/Storage/Deltas.antt =====
-- The delta stands for the pages that were written.
use genvm_executor.Base.{
  ℕ, zero, suc, ◌+◌, ◌*◌, ◌≡◌, refl, ap, sym, ◌∙◌, inl, inr, true, Bool-cases, Option, none, some,
  List, [], ◌∷◌, ◌++◌, arith, length, length-append,
}
use mathlib.Core.Path.{subst}
use genvm_executor.Storage.Pages.{
  Bytes, PageId, Pages, to_bytes, from_bytes, Delta, extend_last, follows, delta_loop, backwards,
  make_delta,
}
use genvm_executor.Storage.PageKeys.{from_bytes-to_bytes}
use genvm_executor.Storage.Chunks.{pages_of, all_pages_of, extend_pages, single_page}
use genvm_executor.Storage.KeyOrder.{Ascend, AreBelow, follows-IsTail, Ascend-tail, AreBelow-append}

-- The pages of deltas that have the last one first.
abbrev pages_back : List Delta → Pages
pages_back [] = []
pages_back (d ∷ res) = pages_back res ++ pages_of d

append_assoc : (xs ys zs : Pages) → (xs ++ ys) ++ zs ≡ xs ++ (ys ++ zs)
append_assoc [] ys zs = refl
append_assoc (x ∷ xs) ys zs = ap (λ r. x ∷ r) (append_assoc xs ys zs)

append_nil : (xs : Pages) → xs ++ [] ≡ xs
append_nil [] = refl
append_nil (x ∷ xs) = ap (λ r. x ∷ r) (append_nil xs)

backwards_lem :
    (out res : List Delta) → all_pages_of (backwards out res) ≡ pages_back res ++ all_pages_of out
unfolding backwards
backwards_lem out [] = refl
backwards_lem out (d ∷ res) =
    backwards_lem (d ∷ out) res
    ∙ sym (append_assoc (pages_back res) (pages_of d) (all_pages_of out))

-- The last delta ends with the page `last`; there is no delta if there was no page.
abbrev IsTail : Option PageId → List Delta → Type 0
IsTail none res = res ≡ []
IsTail (some (slot, index)) [] = ⊥
IsTail (some (slot, index)) ((key, bytes) ∷ res) =
    (first : ℕ) × (m : ℕ) × (from_bytes key ≡ (slot, first))
    × (length bytes ≡ m * 32)
    × (first + m ≡ index + 1)

-- The deltas so far stand for the pages so far.
abbrev Covers : Option PageId → List Delta → Pages → Type 0
Covers last res before = AreBelow last before × IsTail last res × (pages_back res ≡ before)

started :
    (slot index : ℕ) (v : Bytes) (last : Option PageId) (res : List Delta) (before entries : Pages)
    → Ascend last (((slot, index), v) ∷ entries)
    → Covers last res before
    → Covers
        (some (slot, index))
        ((to_bytes (slot, index), v) ∷ res)
        (before ++ ((slot, index), v) ∷ [])
started slot index v last res before entries ascend h =
    let (page, later) = Ascend-tail last (slot, index) v entries ascend in
    (
      AreBelow-append last before slot index v entries ascend h.0,
      (index, 1, from_bytes-to_bytes slot index page.0 page.1, omega (arith, page.2), omega arith),
      rw (h.2, single_page slot index v page.0 page.1 page.2) refl,
    )

extended :
    (slot index : ℕ) (v key bytes : Bytes) (res : List Delta) (before entries : Pages)
    → Ascend (some (slot, index)) (((slot, suc index), v) ∷ entries)
    → Covers (some (slot, index)) ((key, bytes) ∷ res) before
    → Covers
        (some (slot, suc index))
        ((key, bytes ++ v) ∷ res)
        (before ++ ((slot, suc index), v) ∷ [])
extended slot index v key bytes res before entries ascend (below, (first, m, id, size, end), back) =
    let place : first + m ≡ suc index = omega (arith, end) in
    (
      AreBelow-append (some (slot, index)) before slot (suc index) v entries ascend below,
      (
        first,
        m + 1,
        id,
        omega (arith, length-append bytes v, size, ascend.0.2),
        omega (arith, end),
      ),
      ap (λ ps. pages_back res ++ ps) (extend_pages key bytes v slot first m id size ascend.0.2)
          ∙ sym
              (append_assoc (pages_back res) (pages_of (key, bytes)) (((slot, first + m), v) ∷ []))
          ∙ rw (back, place) refl,
    )

extend_last_lem :
    (pages before entries : Pages) (last : Option PageId) (res : List Delta) (slot index : ℕ)
    (v : Bytes)
    → pages ≡ before ++ ((slot, index), v) ∷ entries
    → Ascend last (((slot, index), v) ∷ entries)
    → Covers last res before
    → follows pages (slot, index) ≡ true
    → (longer : List Delta) × (extend_last res v ≡ some longer)
      × Covers (some (slot, index)) longer (before ++ ((slot, index), v) ∷ [])
unfolding follows extend_last
extend_last_lem pages before entries last res slot zero v e ascend h goes_on = absurd (cc goes_on)
extend_last_lem pages before entries last [] slot (suc index) v e ascend h goes_on =
    let there = rw e at goes_on in
    let tail = follows-IsTail last before entries slot index v h.0 ascend there in
    let h' = subst (λ l. IsTail l []) tail h.1 in absurd h'
extend_last_lem pages before entries last ((key, bytes) ∷ res) slot (suc index) v e ascend h
      goes_on =
    let there = rw e at goes_on in
    let tail = follows-IsTail last before entries slot index v h.0 ascend there in
    (
      (key, bytes ++ v) ∷ res,
      refl,
      extended slot index v key bytes res before entries
          (subst (λ l. Ascend l (((slot, suc index), v) ∷ entries)) tail ascend)
          (subst (λ l. Covers l ((key, bytes) ∷ res) before) tail h),
    )

delta_loop_lem :
    (pages entries before : Pages) (last : Option PageId) (res : List Delta)
    → pages ≡ before ++ entries
    → Ascend last entries
    → Covers last res before
    → (out : List Delta) × (delta_loop pages entries res ≡ some out) × (pages_back out ≡ pages)
unfolding delta_loop
delta_loop_lem pages [] before last res e ascend h =
    (res, refl, h.2 ∙ sym (append_nil before) ∙ sym e)
delta_loop_lem pages (((slot, index), v) ∷ entries) before last res e ascend h =
    let (page, later) = Ascend-tail last (slot, index) v entries ascend in
    let e' = e ∙ sym (append_assoc before (((slot, index), v) ∷ []) entries) in
    elim (Bool-cases (follows pages (slot, index))) [
      | inr apart_from ↦
          let (out, run, covered) =
            delta_loop_lem pages entries (before ++ ((slot, index), v) ∷ []) (some (slot, index))
              ((to_bytes (slot, index), v) ∷ res) e' later
              (started slot index v last res before entries ascend h) in
          (out, rw apart_from run, covered)
      | inl goes_on ↦
          let (longer, extends, covers) =
            extend_last_lem pages before entries last res slot index v e ascend h goes_on in
          let (out, run, covered) =
            delta_loop_lem pages entries (before ++ ((slot, index), v) ∷ []) (some (slot, index))
              longer e' later covers in
          (out, rw (goes_on, extends) run, covered)
    ]

-- make_delta does not fail, and its deltas stand for just the pages that were written, in their order;
-- given pages in the order of their keys, of 32 bytes, with slots and numbers in range.
pub make_delta_lem :
    (pages : Pages)
    → Ascend none pages
    → (deltas : List Delta) × (make_delta pages ≡ some deltas) × (all_pages_of deltas ≡ pages)
unfolding make_delta
make_delta_lem pages ascend =
    let (out, run, covered) = delta_loop_lem pages pages [] none [] refl ascend (tt, refl, refl) in
    (
      backwards [] out,
      rw (run, make_delta) refl,
      backwards_lem [] out ∙ append_nil (pages_back out) ∙ covered,
    )
