-- ===== src/Storage/Access.antt =====
-- executor/src/rt/vm/storage.rs: reads and writes of a slot's bytes, over the pages that were
-- written, a cache of pages that were read, and the host. The cache (crate `const_lru`), the host's
-- answers and the limiter of written pages are parameters.
-- `page_idx as u32` changes no page of a range below 2 ^ 37 bytes, and is left out.
use genvm_executor.Base.{
  ℕ, zero, suc, ◌+◌, ◌-◌, ◌*◌, ◌/◌, ◌%◌, ◌^◌, ◌&&◌, Option, none, some, [], ◌∷◌, ◌++◌, min, max,
  ltb, leb, ◌==◌, if◌then◌else◌, length, take, drop,
}
use genvm_executor.Storage.Pages.{Bytes, PageId, Pages, find_page, is_some}

-- A call's end: its value, the host's error, the error `oom().storage()`, an error of the fee
-- component, or the error of a contract of another major version.
pub data Outcome {ℓ} (A : Type ℓ) : Type ℓ where
  done : A → Outcome A
  host_failed : Outcome A
  out_of_storage : Outcome A
  fees_failed : Outcome A
  major_mismatch : Outcome A

-- What is used of the cache: `get`, which may note the use of an entry, and `insert`.
pub record PageCache (C : Type 0) : Type 0 where
  pub get : C → PageId → C × Option Bytes
  pub put : C → PageId → Bytes → C

pub record Storage (C L : Type 0) : Type 0 where
  pub pages : Pages
  pub cache : C
  pub limiter : L

-- `buf[offset..offset + bytes.len()].copy_from_slice(bytes)`
unfoldable pub copy_at : Bytes → ℕ → Bytes → Bytes
copy_at buf offset bytes = take offset buf ++ (bytes ++ drop (offset + length bytes) buf)

-- `put_to_cache.len()`
abbrev pub staging_size : ℕ
staging_size = 128 / 16

-- The part of a known page that the request overlaps.
unfoldable pub copy_page : ℕ → ℕ → ℕ → Bytes → Bytes → Bytes
copy_page start_index end_index page page_data buf =
    let overlap_start = max start_index (page * 32) in
    let overlap_end = min end_index (page * 32 + 32) in
    if ltb overlap_start overlap_end
    then copy_at buf (overlap_start - start_index)
        (take (overlap_end - overlap_start) (drop (overlap_start - page * 32) page_data))
    else buf

unfoldable pub put_staged : {C : Type 0} → PageCache C → C → Pages → C
put_staged cache c [] = c
put_staged cache c ((id, page) ∷ staged) = put_staged cache (cache.put c id page) staged

-- What the host is asked for, if anything, goes to its place in the buffer.
unfoldable pub ask_host : (ℕ → ℕ → ℕ → Option Bytes) → ℕ → ℕ → ℕ → ℕ → Bytes → Option Bytes
ask_host host slot start_index from until buf =
    let answer : Option Bytes = elim (host slot (from % 2 ^ 32) (until - from)) [
      | none ↦ none
      | some bytes ↦ some (copy_at buf (from - start_index) bytes)
    ] in
    if ltb from until then answer else some buf

module _ {C L : Type 0} (cache : PageCache C) where
  -- `self.pages.get(page_id).or_else(|| self.cache.get(&page_id).cloned())`
  unfoldable pub known_page : Storage C L → PageId → Storage C L × Option Bytes
  known_page s id = elim (find_page s.pages id) [
    | some page ↦ (s, some page)
    | none ↦ let (c, found) = cache.get s.cache id in (record s { cache = c }, found)
  ]

  -- The loops that move the ends of what the host is asked for past the known pages: over `n` pages
  -- from `page` upwards, and over `n` pages from `first` on downwards.
  unfoldable pub cut_prefix : Storage C L → ℕ → ℕ → ℕ → ℕ → Storage C L × ℕ
  cut_prefix s slot page zero start = (s, start)
  cut_prefix s slot page (suc n) start =
      let (s', found) = known_page s (slot, page) in
      let rest = cut_prefix s' slot (page + 1) n ((page + 1) * 32) in
      if is_some found then rest else (s', start)

  unfoldable pub cut_suffix : Storage C L → ℕ → ℕ → ℕ → ℕ → Storage C L × ℕ
  cut_suffix s slot first zero end_ = (s, end_)
  cut_suffix s slot first (suc n) end_ =
      let page = first + n in
      let (s', found) = known_page s (slot, page) in
      let rest = cut_suffix s' slot first n (page * 32) in
      if is_some found then rest else (s', end_)

  -- A page that came from the host goes to the staging buffer, or to the cache if that is full.
  unfoldable pub stage_page : Storage C L → Pages → PageId → Bytes → Storage C L × Pages
  stage_page s staged id page_data =
      if ltb (length staged) staging_size
      then (s, staged ++ (id, page_data) ∷ [])
      else (record s { cache = cache.put s.cache id page_data }, staged)

  -- One round of the loop over the pages: the storage, the buffer and the staging buffer.
  unfoldable pub fill_page :
      ℕ → ℕ → ℕ → ℕ → ℕ → ℕ → Storage C L → Bytes → Pages → Storage C L × Bytes × Pages
  fill_page slot start_index end_index from until page s buf staged =
      let (s', found) = known_page s (slot, page) in
      elim found [
        | some page_data ↦ (s', copy_page start_index end_index page page_data buf, staged)
        | none ↦
            let page_data = take 32 (drop (page * 32 - start_index) buf) in
            let (s'', staged') = stage_page s' staged (slot, page) page_data in
            if leb from (page * 32) && leb (page * 32 + 32) until
            then (s'', buf, staged')
            else (s', buf, staged)
      ]

  unfoldable pub fill_pages :
      ℕ → ℕ → ℕ → ℕ → ℕ → ℕ → ℕ → Storage C L → Bytes → Pages → Storage C L × Bytes × Pages
  fill_pages slot start_index end_index from until page zero s buf staged = (s, buf, staged)
  fill_pages slot start_index end_index from until page (suc n) s buf staged =
      let (s', buf', staged') = fill_page slot start_index end_index from until page s buf staged in
      fill_pages slot start_index end_index from until (page + 1) n s' buf' staged'

  -- The part of `read` after the host's answer.
  unfoldable pub fill : ℕ → ℕ → ℕ → ℕ → ℕ → Storage C L → Bytes → Storage C L × Outcome Bytes
  fill slot start_index end_index from until s buf =
      let first = start_index / 32 in
      let count = (end_index - 1) / 32 + 1 - first in
      let (s', buf', staged) =
        fill_pages slot start_index end_index from until first count s buf [] in
      (record s' { cache = put_staged cache s'.cache staged }, done buf')

  module _ (host : ℕ → ℕ → ℕ → Option Bytes) where
    unfoldable pub read_range : Storage C L → ℕ → ℕ → ℕ → Bytes → Storage C L × Outcome Bytes
    read_range s slot start_index end_index buf =
        let first = start_index / 32 in
        let count = (end_index - 1) / 32 + 1 - first in
        let (s₁, from) = cut_prefix s slot first count start_index in
        let (s₂, until) = cut_suffix s₁ slot first count end_index in
        elim (ask_host host slot start_index from until buf) [
          | none ↦ (s₂, host_failed)
          | some buf' ↦ fill slot start_index end_index from until s₂ buf'
        ]

    -- `read` into a buffer: the storage and the buffer after it.
    unfoldable pub read : Storage C L → ℕ → ℕ → Bytes → Storage C L × Outcome Bytes
    read s slot index buf =
        if length buf == 0 then (s, done buf) else read_range s slot index (index + length buf) buf
