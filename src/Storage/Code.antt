-- ===== src/Storage/Code.antt =====
-- executor/src/rt/vm/storage.rs, executor/src/host/message.rs, executor/src/lib.rs: the contract's code and
-- major version in its storage. The hash sha3-256 and the node's own major version are parameters.
use genvm_executor.Base.{
  ℕ, zero, suc, ◌+◌, ◌-◌, ◌*◌, ◌/◌, ◌%◌, ◌^◌, Bool, true, ◌&&◌, Option, [], ◌∷◌, ◌++◌, ltb, ◌==◌,
  if◌then◌else◌, length, get_or,
}
use genvm_executor.Fees.Abi.{be_bytes}
use genvm_executor.Memory.Limiter.{Counters, consume}
use genvm_executor.Storage.Pages.{Bytes, from_be_bytes}
use genvm_executor.Storage.Access.{
  PageCache, Storage, Outcome, done, host_failed, out_of_storage, fees_failed, major_mismatch, read,
}
use genvm_executor.Storage.Write.{◌>>=◌, write}

-- `root_offsets`
abbrev pub root_major : ℕ
root_major = 0

abbrev pub root_code : ℕ
root_code = 2

abbrev pub root_code_slot : ℕ
root_code_slot = 5

-- `u32::to_le_bytes` for 4 bytes, and back.
abbrev pub le_bytes : ℕ → ℕ → Bytes
le_bytes zero value = []
le_bytes (suc n) value = value % 256 ∷ le_bytes n (value / 256)

abbrev pub from_le_bytes : Bytes → ℕ
from_le_bytes [] = 0
from_le_bytes (b ∷ bytes) = b + from_le_bytes bytes * 256

abbrev pub zeros : ℕ → Bytes
zeros zero = []
zeros (suc n) = 0 ∷ zeros n

-- `raw == [0u8; 32]`, for 32 bytes.
unfoldable pub is_zero : Bytes → Bool
is_zero [] = true
is_zero (b ∷ raw) = b == 0 && is_zero raw

unfoldable pub code_slot_of : ℕ → Bytes → ℕ
code_slot_of default_slot raw = if is_zero raw then default_slot else from_be_bytes 0 raw

module _ (sha3_256 : Bytes → Bytes) where
  unfoldable pub indirection : ℕ → ℕ → ℕ
  indirection slot off = from_be_bytes 0 (sha3_256 (be_bytes 32 slot ++ le_bytes 4 off))

  unfoldable pub default_code_slot : ℕ
  default_code_slot = indirection 0 root_code

module _ {C L : Type 0} (cache : PageCache C) (host : ℕ → ℕ → ℕ → Option Bytes) where
  unfoldable pub read_major : Storage C L → Storage C L × Outcome ℕ
  read_major s = read cache host s 0 root_major (zeros 1) >>= λ buf s'. (s', done (get_or buf 0 0))

  unfoldable pub resolve_code_slot : ℕ → Storage C L → Storage C L × Outcome ℕ
  resolve_code_slot default_slot s = read cache host s 0 root_code_slot (zeros 32) >>= λ raw s'.
      (s', done (code_slot_of default_slot raw))

  unfoldable pub check_major_and_resolve_code_slot : ℕ → ℕ → Storage C L → Storage C L × Outcome ℕ
  check_major_and_resolve_code_slot node_major default_slot s =
      read_major s >>= λ contract_major s'.
      (if contract_major == node_major
        then resolve_code_slot default_slot s'
        else (s', major_mismatch))

  -- The rest of `read_code_at` once the length is read: memory is taken before the code is read.
  unfoldable pub read_sized :
      ℕ → Counters → ℕ → Storage C L × Outcome Bytes → (Storage C L × Outcome Bytes) × Counters
  read_sized code_slot counters id (s, done len_buf) =
      let code_size = from_le_bytes len_buf in
      let (counters', granted) = consume counters id code_size in
      (
        if granted then read cache host s code_slot 4 (zeros code_size) else (s, out_of_storage),
        counters',
      )
  read_sized code_slot counters id (s, host_failed) = ((s, host_failed), counters)
  read_sized code_slot counters id (s, out_of_storage) = ((s, out_of_storage), counters)
  read_sized code_slot counters id (s, fees_failed) = ((s, fees_failed), counters)
  read_sized code_slot counters id (s, major_mismatch) = ((s, major_mismatch), counters)

  unfoldable pub read_code_at :
      ℕ → Counters → ℕ → Storage C L → (Storage C L × Outcome Bytes) × Counters
  read_code_at code_slot counters id s =
      read_sized code_slot counters id (read cache host s code_slot 0 (zeros 4))

module _ {C L : Type 0} (consume_storage_pages : L → ℕ → L × Option Bool)
    (host : ℕ → ℕ → ℕ → Option Bytes) where
  unfoldable pub write_major : ℕ → Storage C L → Storage C L × Outcome (Unit {0})
  write_major major s = write consume_storage_pages host 0 root_major (major ∷ []) s

  unfoldable pub write_code : ℕ → Bytes → Storage C L → Storage C L × Outcome (Unit {0})
  write_code code_slot code s =
      let written =
        write consume_storage_pages host code_slot 0 (le_bytes 4 (length code % 2 ^ 32)) s
        >>= λ _ s'. write consume_storage_pages host code_slot 4 code s' in
      if ltb (2 ^ 32 - 1 - 4) (length code) then (s, out_of_storage) else written

  -- What a run that deploys does to the storage before it parses the code.
  unfoldable pub deploy : ℕ → ℕ → Bytes → Storage C L → Storage C L × Outcome (Unit {0})
  deploy node_major code_slot code s =
      write_code code_slot code s >>= λ _ s'. write_major (node_major % 2 ^ 8) s'
