-- ===== src/Storage/Pages.antt =====
-- executor/src/rt/vm/storage.rs: page numbers, the pages that a run has written, and the delta that
-- is made of them. A slot is the number whose 32 bytes it is, highest first, so that slots are ordered
-- as numbers; the tree map of the pages is a list in the order of its keys.
use genvm_executor.Base.{
  ℕ, zero, suc, ◌+◌, ◌*◌, Bool, true, false, ◌&&◌, ◌||◌, Option, none, some, List, [], ◌∷◌, ◌++◌,
  ltb, ◌==◌, if◌then◌else◌, take, drop,
}
use genvm_executor.Fees.Abi.{be_bytes}

abbrev pub Bytes : Type 0
Bytes = List ℕ

-- A slot and the number of a page of 32 bytes in it.
abbrev pub PageId : Type 0
PageId = ℕ × ℕ

unfoldable pub to_bytes : PageId → Bytes
to_bytes (slot, index) = be_bytes 32 slot ++ be_bytes 4 index

-- The number whose bytes these are, the highest first.
unfoldable pub from_be_bytes : ℕ → Bytes → ℕ
from_be_bytes acc [] = acc
from_be_bytes acc (b ∷ bytes) = from_be_bytes (acc * 256 + b) bytes

unfoldable pub from_bytes : Bytes → PageId
from_bytes data_bytes = (from_be_bytes 0 (take 32 data_bytes), from_be_bytes 0 (drop 32 data_bytes))

-- The derived order: by slot, then by index.
unfoldable pub page_lt : PageId → PageId → Bool
page_lt (s, i) (t, j) = ltb s t || (s == t && ltb i j)

unfoldable pub page_eq : PageId → PageId → Bool
page_eq (s, i) (t, j) = s == t && i == j

abbrev pub Pages : Type 0
Pages = List (PageId × Bytes)

unfoldable pub find_page : Pages → PageId → Option Bytes
find_page [] id = none
find_page ((k, v) ∷ pages) id = if page_eq k id then some v else find_page pages id

unfoldable pub insert_page : Pages → PageId → Bytes → Pages
insert_page [] id value = (id, value) ∷ []
insert_page ((k, v) ∷ pages) id value =
    if page_eq k id
    then (id, value) ∷ pages
    else if page_lt id k
    then (id, value) ∷ (k, v) ∷ pages
    else (k, v) ∷ insert_page pages id value

unfoldable pub is_some {ℓ} : {A : Type ℓ} → Option A → Bool
is_some none = false
is_some (some a) = true

-- The bytes of the first page's number, and the pages' data.
abbrev pub Delta : Type 0
Delta = Bytes × Bytes

-- `res.last_mut()`, for the deltas with the last one first; `none` is the failed expect.
unfoldable pub extend_last : List Delta → Bytes → Option (List Delta)
extend_last [] v = none
extend_last ((k, bytes) ∷ res) v = some ((k, bytes ++ v) ∷ res)

-- Does the entry go on where an entry before it ends?
unfoldable pub follows : Pages → PageId → Bool
follows pages (slot, zero) = false
follows pages (slot, suc index) = is_some (find_page pages (slot, index))

-- The loop of `make_delta`, over the entries; the deltas have the last one first.
unfoldable pub delta_loop : Pages → Pages → List Delta → Option (List Delta)
delta_loop pages [] res = some res
delta_loop pages ((k, v) ∷ entries) res =
    let more : Option (List Delta) = elim (extend_last res v) [
      | none ↦ none
      | some longer ↦ delta_loop pages entries longer
    ] in
    let next = delta_loop pages entries ((to_bytes k, v) ∷ res) in
    if follows pages k then more else next

unfoldable pub backwards : List Delta → List Delta → List Delta
backwards out [] = out
backwards out (d ∷ res) = backwards (d ∷ out) res

unfoldable pub make_delta : Pages → Option (List Delta)
make_delta pages = elim (delta_loop pages pages []) [
  | none ↦ none
  | some res ↦ some (backwards [] res)
]
