-- ===== src/Archive/Ustar.antt =====
-- executor/src/runners/ustar.rs: the files of a tar archive. The tree map of the files is a list, the
-- last one added first. A size field has at most 11 digits, so that no sum below passes a usize.
use genvm_executor.Base.{
  ℕ, zero, suc, ◌+◌, ◌-◌, ◌*◌, ◌%◌, ◌^◌, Bool, true, not, ◌&&◌, ◌||◌, Option, none, some, List, [],
  ◌∷◌, ◌++◌, ltb, leb, ◌==◌, if◌then◌else◌, length, take, drop, get_or,
}
use genvm_executor.Fees.Allocation.{bytes_eq}
use genvm_executor.Calldata.Text.{is_utf8}

abbrev pub Bytes : Type 0
Bytes = List ℕ

pub data UstarError : Type 0 where
  too_short not_blocks invalid_header links_forbidden not_utf8 size_overflow beyond_bounds
        occupied :
      UstarError
  invalid_octal : ℕ → UstarError

-- `ran_out` is no Rust value: the loop of `from_ustar` ran out of fuel.
pub data Parsed (A : Type 0) : Type 0 where
  parsed : A → Parsed A
  failed : UstarError → Parsed A
  ran_out : Parsed A

infixl 5 ◌>>=◌
abbrev pub ◌>>=◌ : {A B : Type 0} → Parsed A → (A → Parsed B) → Parsed B
parsed a >>= f = f a
failed e >>= f = failed e
ran_out >>= f = ran_out

abbrev pub Entries : Type 0
Entries = List (Bytes × Bytes)

pub record Archive : Type 0 where
  pub data_of : Entries
  pub total_size : ℕ

abbrev pub block_size : ℕ
block_size = 512

unfoldable pub find_entry : Entries → Bytes → Option Bytes
find_entry [] key = none
find_entry ((k, v) ∷ map) key = if bytes_eq k key then some v else find_entry map key

unfoldable pub map_try_insert : Entries → Bytes → Bytes → Parsed Entries
map_try_insert map key value = elim (find_entry map key) [
  | some v ↦ failed occupied
  | none ↦ parsed ((key, value) ∷ map)
]

-- The loop of `trim_zeroes`, with `idx`; it starts at the last byte, which is left out.
unfoldable pub trim_index : Bytes → ℕ → ℕ
trim_index x zero = 0
trim_index x (suc idx) = if get_or x idx 0 == 0 then trim_index x idx else suc idx

unfoldable pub trim_zeroes : Bytes → Bytes
trim_zeroes x = take (trim_index x (length x - 1)) x

unfoldable pub all_zero : Bytes → Bool
all_zero [] = true
all_zero (x ∷ bytes) = x == 0 && all_zero bytes

-- `header[from..to]`
abbrev pub field : ℕ → ℕ → Bytes → Bytes
field from to header = take (to - from) (drop from header)

-- `b"ustar\x0000"`
abbrev pub signature : Bytes
signature = 117 ∷ 115 ∷ 116 ∷ 97 ∷ 114 ∷ 0 ∷ 48 ∷ 48 ∷ []

unfoldable pub is_file_or_directory : ℕ → Bool
is_file_or_directory link_indicator =
    link_indicator == 48 || (link_indicator == 0 || link_indicator == 53)

-- `name.ends_with("/")`
unfoldable pub ends_with_slash : Bytes → Bool
ends_with_slash name = not (length name == 0) && get_or name (length name - 1) 0 == 47

-- The loop over the octal digits, with `file_size`.
unfoldable pub octal : Bytes → ℕ → Parsed ℕ
octal [] file_size = parsed file_size
octal (c ∷ digits) file_size =
    let next = octal digits (file_size * 8 + (c - 48)) in
    if leb 48 c && leb c 55
    then (if ltb (file_size * 8) (2 ^ 64) && ltb (file_size * 8 + (c - 48)) (2 ^ 64)
        then next
        else failed size_overflow)
    else failed (invalid_octal c)

-- After a round of the loop: `break`, or on with `begin` and the files so far.
pub data Round : Type 0 where
  stop : Round
  on : ℕ → Entries → Round

-- The rest of a round, once the size is read.
unfoldable pub add_file : Bytes → ℕ → Bytes → Entries → ℕ → Parsed Round
add_file original_data begin name res file_size =
    let data_left = drop begin original_data in
    let past = begin + block_size + file_size in
    let begin' = past + (block_size - past % block_size) % block_size in
    let file_contents = take file_size (drop block_size data_left) in
    if ltb (block_size + file_size) (2 ^ 64) && leb (block_size + file_size) (length data_left)
    then (map_try_insert res name file_contents >>= λ res'. parsed (on begin' res'))
    else failed beyond_bounds

unfoldable pub name_of : Bytes → Bytes
name_of header = trim_zeroes (field 345 (345 + 155) header) ++ trim_zeroes (field 0 100 header)

unfoldable pub round : Bytes → ℕ → Entries → Parsed Round
round original_data begin res =
    let data_left = drop begin original_data in
    let header = take block_size data_left in
    let name = name_of header in
    let file =
      octal (trim_zeroes (field 124 136 header)) 0 >>= add_file original_data begin name res in
    if all_zero (take (block_size * 2) data_left)
    then parsed stop
    else if not (bytes_eq (field 257 265 header) signature)
    then failed invalid_header
    else if not (is_file_or_directory (get_or header 156 0))
    then failed links_forbidden
    else if not (is_utf8 name)
    then failed not_utf8
    else if ends_with_slash name
    then parsed (on (begin + block_size) res)
    else file

unfoldable pub blocks : ℕ → Bytes → ℕ → Entries → Parsed Entries
blocks zero original_data begin res = ran_out
blocks (suc fuel) original_data begin res =
    let more : Parsed Entries = elim (round original_data begin res) [
      | parsed stop ↦ parsed res
      | parsed (on begin' res') ↦ blocks fuel original_data begin' res'
      | failed e ↦ failed e
      | ran_out ↦ ran_out
    ] in
    if leb (begin + 2 * block_size) (length original_data) then more else parsed res

-- Each round takes a block at least.
unfoldable pub from_ustar : Bytes → Parsed Archive
from_ustar original_data =
    let files = blocks (suc (length original_data)) original_data 0 [] in
    if ltb (length original_data) (block_size * 2)
    then failed too_short
    else if not (length original_data % block_size == 0)
    then failed not_blocks
    else (files >>= λ res.
        parsed (record { data_of = res; total_size = length original_data % 2 ^ 32 }))
