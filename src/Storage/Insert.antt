-- ===== src/Storage/Insert.antt =====
-- A page that is written: what is found afterwards, and what the slots then hold.
use genvm_executor.Base.{
  ℕ, ◌/◌, ◌%◌, ◌≡◌, refl, inl, inr, true, ◌&&◌, Bool-cases, some, [], ◌∷◌, arith, ◌==◌,
  if◌then◌else◌, length, get_or,
}
use genvm_executor.Storage.Pages.{Bytes, PageId, Pages, page_eq, page_lt, find_page, insert_page}
use genvm_executor.Storage.View.{AreSized, byte_of}

pub page_eq→eq : (a b : PageId) → page_eq a b ≡ true → a ≡ b
unfolding page_eq
page_eq→eq (s, i) (t, j) h = ground arith

pub page_eq_refl : (a : PageId) → page_eq a a ≡ true
unfolding page_eq
page_eq_refl (s, i) = ground arith

pub find_page-insert_page :
    (pages : Pages) (id j : PageId) (v : Bytes)
    → find_page (insert_page pages id v) j ≡ (if page_eq id j then some v else find_page pages j)
unfolding find_page insert_page
find_page-insert_page [] id j v = refl
find_page-insert_page ((k, w) ∷ pages) id j v = elim (Bool-cases (page_eq k id)) [
  | inl same ↦
      let e = page_eq→eq k id same in
      rw (same, e)
        (elim (Bool-cases (page_eq id j)) [ inl here ↦ rw here refl | inr other ↦ rw other refl ])
  | inr other ↦ elim (Bool-cases (page_lt id k)) [
    | inl below ↦ rw (other, below) refl
    | inr above ↦
        rw (other, above)
          (elim (Bool-cases (page_eq k j)) [
            | inr elsewhere ↦ rw elsewhere (find_page-insert_page pages id j v)
            | inl here ↦
                let e = page_eq→eq k j here in
                elim (Bool-cases (page_eq id j)) [
                  | inl both ↦
                      let back = page_eq_refl k in
                      let f = page_eq→eq id j both in absurd (cc (other, e, f, back))
                  | inr apart ↦ rw (here, apart) refl
                ]
          ])
  ]
]

pub byte_of-insert_page :
    (base : ℕ → ℕ → ℕ) (pages : Pages) (slot k : ℕ) (v : Bytes) (t place : ℕ)
    → byte_of base (insert_page pages (slot, k) v) t place ≡ (
        if slot == t && k == place / 32
        then get_or v (place % 32) 0
        else byte_of base pages t place)
unfolding page_eq
byte_of-insert_page base pages slot k v t place =
    rw (find_page-insert_page pages (slot, k) (t, place / 32) v)
      (elim (Bool-cases (slot == t && k == place / 32)) [
        | inl here ↦ rw here refl
        | inr elsewhere ↦ rw elsewhere refl
      ])

pub AreSized-insert_page :
    (pages : Pages) (id : PageId) (v : Bytes)
    → AreSized pages
    → length v ≡ 32
    → AreSized (insert_page pages id v)
unfolding insert_page
AreSized-insert_page [] id v h e = (e, tt)
AreSized-insert_page ((k, w) ∷ pages) id v h e = elim (Bool-cases (page_eq k id)) [
  | inl same ↦ rw same (e, h.1)
  | inr other ↦ elim (Bool-cases (page_lt id k)) [
    | inl below ↦ rw (other, below) (e, h)
    | inr above ↦ rw (other, above) (h.0, AreSized-insert_page pages id v h.1 e)
  ]
]
