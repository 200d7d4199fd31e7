-- ===== src/Storage/Write.antt =====
-- executor/src/rt/vm/storage.rs: writes to a slot. A method gives the storage after it and its
-- outcome; on an error the storage keeps what was written until then. What the fee component answers
-- to `consume_storage_pages` is a parameter: its error, or whether the pages are paid for.
use genvm_executor.Base.{
  ℕ, zero, suc, ◌+◌, ◌-◌, ◌*◌, ◌/◌, ◌%◌, ◌^◌, Bool, true, false, ◌&&◌, ◌||◌, Option, none, some,
  ltb, ◌==◌, if◌then◌else◌, length, take, drop,
}
use genvm_executor.Storage.Pages.{Bytes, PageId, find_page, insert_page, is_some}
use genvm_executor.Storage.Access.{
  Storage, Outcome, done, host_failed, out_of_storage, fees_failed, major_mismatch, copy_at,
}

module _ {C L : Type 0} where
  infixl 5 ◌>>=◌
  abbrev pub ◌>>=◌ :
      {A B : Type 0}
      → Storage C L × Outcome A
      → (A → Storage C L → Storage C L × Outcome B)
      → Storage C L × Outcome B
  (s, done a) >>= f = f a s
  (s, host_failed) >>= f = (s, host_failed)
  (s, out_of_storage) >>= f = (s, out_of_storage)
  (s, fees_failed) >>= f = (s, fees_failed)
  (s, major_mismatch) >>= f = (s, major_mismatch)

  -- `Limiter::consume`, from the fee component's answer.
  unfoldable pub settle : Storage C L → L × Option Bool → Storage C L × Outcome (Unit {0})
  settle s (l, none) = (record s { limiter = l }, fees_failed)
  settle s (l, some false) = (record s { limiter = l }, out_of_storage)
  settle s (l, some true) = (record s { limiter = l }, done tt)

  unfoldable pub put_page : PageId → Bytes → Storage C L → Storage C L × Outcome (Unit {0})
  put_page id value s = (record s { pages = insert_page s.pages id value }, done tt)

  module _ (consume_storage_pages : L → ℕ → L × Option Bool) where
    unfoldable pub write_page : PageId → Bytes → Storage C L → Storage C L × Outcome (Unit {0})
    write_page id value s =
        if is_some (find_page s.pages id)
        then put_page id value s
        else (settle s (consume_storage_pages s.limiter 1) >>= λ _ s'. put_page id value s')

    -- The loop over the pages of a write, `n` of them from `page` on, without the first and the last
    -- one if those are partial.
    unfoldable pub write_middle :
        ℕ → ℕ → ℕ → Bytes → ℕ → ℕ → Storage C L → Storage C L × Outcome (Unit {0})
    write_middle slot start_index end_index buf page zero s = (s, done tt)
    write_middle slot start_index end_index buf page (suc n) s =
        let start_page = start_index / 32 in
        let end_page = (end_index - 1) / 32 in
        let rest =
          λ (s : Storage C L). write_middle slot start_index end_index buf (page + 1) n s in
        let page_data = take 32 (drop (page * 32 - start_index) buf) in
        let written = write_page (slot, page) page_data s >>= λ _ s'. rest s' in
        let skipped = rest s in
        if page == start_page && ltb (page * 32) start_index
          || page == end_page && ltb end_index (page * 32 + 32)
        then skipped
        else written

    module _ (host : ℕ → ℕ → ℕ → Option Bytes) where
      -- A page that is written in part: what was written there before, or what the host stores.
      unfoldable pub existing_page : ℕ → ℕ → Storage C L → Storage C L × Outcome Bytes
      existing_page slot page s =
          let stored : Storage C L × Outcome Bytes = elim (host slot (page * 32 % 2 ^ 32) 32) [
            | none ↦ (s, host_failed)
            | some p ↦ (s, done p)
          ] in
          elim (find_page s.pages (slot, page)) [ some p ↦ (s, done p) | none ↦ stored ]

      unfoldable pub write_single_page :
          ℕ → ℕ → ℕ → Bytes → Storage C L → Storage C L × Outcome (Unit {0})
      write_single_page slot page offset buf s =
          let partial = existing_page slot page s >>= λ old s'.
          write_page (slot, page) (copy_at old offset buf) s' in
          if offset == 0 && length buf == 32 then write_page (slot, page) buf s else partial

      unfoldable pub write_first : ℕ → ℕ → Bytes → Storage C L → Storage C L × Outcome (Unit {0})
      write_first slot start_index buf s =
          let page = start_index / 32 in
          let offset = start_index % 32 in
          let partial = existing_page slot page s >>= λ old s'.
          write_page (slot, page) (copy_at old offset (take (32 - offset) buf)) s' in
          if ltb (page * 32) start_index then partial else (s, done tt)

      unfoldable pub write_last : ℕ → ℕ → Bytes → Storage C L → Storage C L × Outcome (Unit {0})
      write_last slot end_index buf s =
          let page = (end_index - 1) / 32 in
          let end_offset = end_index % 32 in
          let partial = existing_page slot page s >>= λ old s'.
          write_page (slot, page) (copy_at old 0 (drop (length buf - end_offset) buf)) s' in
          if ltb end_index (page * 32 + 32) then partial else (s, done tt)

      unfoldable pub write_range :
          ℕ → ℕ → ℕ → Bytes → Storage C L → Storage C L × Outcome (Unit {0})
      write_range slot start_index end_index buf s =
          let start_page = start_index / 32 in
          let end_page = (end_index - 1) / 32 in
          if start_page == end_page
          then write_single_page slot start_page (start_index % 32) buf s
          else (write_first slot start_index buf s >>= λ _ s₁.
              write_last slot end_index buf s₁ >>= λ _ s₂.
              write_middle slot start_index end_index buf start_page (end_page + 1 - start_page) s₂)

      unfoldable pub write : ℕ → ℕ → Bytes → Storage C L → Storage C L × Outcome (Unit {0})
      write slot index buf s =
          if length buf == 0
          then (s, done tt)
          else write_range slot index (index + length buf) buf s
