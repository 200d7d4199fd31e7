-- ===== src/Calldata/Decode.antt =====
-- executor/crates/calldata/src/bin.rs: `Parser` and `decode`. The parser's state is the input that
-- is left; `fetch_val` keeps a stack of unfinished containers in place of recursion.
-- `byte & 0x7f` is `byte % 128`, and `byte & 0x80 == 0` says `byte < 128` of a byte.
use genvm_executor.Base.{
  ℕ, zero, suc, ◌+◌, ◌-◌, ◌*◌, ◌/◌, ◌%◌, ◌^◌, true, false, not, ◌&&◌, Option, none, some, List, [],
  ◌∷◌, min, length, take, drop, ltb, ◌==◌, if◌then◌else◌,
}
use genvm_executor.Calldata.Value.{
  Bytes, Value, pos, negsuc, Items, Fields, nil, end, field, snoc, address_size, type_special,
  type_pint, type_nint, type_bytes, type_str, type_arr, type_map, special_null, special_false,
  special_true, special_addr,
}
use genvm_executor.Calldata.Text.{is_utf8, str_lt}

-- The payload of InvalidUtf8, the standard library's position, is left out.
pub data BinDecodeError : Type 0 where
  unterminated_uleb invalid_uleb_encoding number_too_big : BinDecodeError
  unexpected_end : ℕ → ℕ → BinDecodeError
  container_size_too_large : ℕ → BinDecodeError
  invalid_special_value : ℕ → BinDecodeError
  invalid_map_ordering : Bytes → Bytes → BinDecodeError
  invalid_tag : ℕ → BinDecodeError
  invalid_utf8 max_depth_exceeded : BinDecodeError

-- `stuck` is no Rust value: the loop of `fetch_val` ran out of fuel.
pub data Result {ℓ} (A : Type ℓ) : Type ℓ where
  ok : A → Result A
  err : BinDecodeError → Result A
  stuck : Result A

infixl 5 ◌>>=◌
abbrev pub ◌>>=◌ {ℓ κ} : {A : Type ℓ} {B : Type κ} → Result A → (A → Result B) → Result B
ok a >>= f = f a
err e >>= f = err e
stuck >>= f = stuck

-- The loop of `fetch_uleb`, with `res` and `off`; the bytes are the input from here on. `off` is a
-- u64, and `checked_add` refuses to pass its range.
unfoldable pub fetch_uleb_loop : Bytes → ℕ → ℕ → Result (ℕ × Bytes)
fetch_uleb_loop [] res off = err unterminated_uleb
fetch_uleb_loop (byte ∷ rest) res off =
    let res' = res + byte % 128 * 2 ^ off in
    let next = fetch_uleb_loop rest res' (off + 7) in
    if ltb byte 128
    then (if byte == 0 && not (off == 0) then err invalid_uleb_encoding else ok (res', rest))
    else if ltb (off + 7) (2 ^ 64)
    then next
    else err number_too_big

unfoldable pub fetch_uleb : Bytes → Result (ℕ × Bytes)
fetch_uleb input = fetch_uleb_loop input 0 0

unfoldable pub fetch_slice : ℕ → Bytes → Result (Bytes × Bytes)
fetch_slice expected input =
    if ltb (length input) expected
    then err (unexpected_end expected (length input))
    else ok (take expected input, drop expected input)

-- `BigUint::bits`: how many binary digits the number has. The halvings end within `n` rounds.
unfoldable pub bits_loop : ℕ → ℕ → ℕ
bits_loop fuel zero = 0
bits_loop zero (suc n) = 0
bits_loop (suc fuel) (suc n) = suc (bits_loop fuel (suc n / 2))

unfoldable pub bits : ℕ → ℕ
unfolding bits_loop
bits n = bits_loop n n

-- `to_u32_digits().first()` is the number modulo 2^32.
unfoldable pub map_to_size : ℕ → Result ℕ
map_to_size size =
    if ltb 32 (bits size) then err (container_size_too_large (bits size)) else ok (size % 2 ^ 32)

unfoldable pub from_utf8 : Bytes → Result Bytes
from_utf8 slice = if is_utf8 slice then ok slice else err invalid_utf8

-- The four lines that read a map's key, at the map's start and after each entry.
unfoldable pub fetch_key : Bytes → Result (Bytes × Bytes)
fetch_key input = do
  (n, input) ← fetch_uleb input
  size ← map_to_size n
  (slice, input) ← fetch_slice size input
  key ← from_utf8 slice
  ok (key, input)

-- `BTreeMap::insert`, with the entries in the order of their keys.
unfoldable pub insert : Bytes → Value → Fields → Fields
insert k v end = field k v end
insert k v (field j w m) =
    if str_lt k j
    then field k v (field j w m)
    else if str_lt j k
    then field j w (insert k v m)
    else field k v m

-- `BTreeMap::last_key_value`, its key.
unfoldable pub last_key : Fields → Option Bytes
last_key end = none
last_key (field k v end) = some k
last_key (field k v (field j w m)) = last_key (field j w m)

pub data Frame : Type 0 where
  in_array : Items → ℕ → Frame
  in_map : Fields → ℕ → Bytes → Frame

-- The top of the stack is the head of the list.
abbrev pub Stack : Type 0
Stack = List Frame

-- After a round: `return Ok(..)`, or `continue 'parse`.
pub data Next : Type 0 where
  done : Value → Bytes → Next
  again : Bytes → Stack → Next

unfoldable pub check_order : Fields → Bytes → Result (Unit {0})
check_order collected new_key = elim (last_key collected) [
  | none ↦ ok tt
  | some k ↦ if str_lt k new_key then ok tt else err (invalid_map_ordering k new_key)
]

-- A map's frame that has just taken an entry, with `remaining` more to come.
unfoldable pub next_entry : Fields → ℕ → Stack → Bytes → Result Next
next_entry collected remaining stack input = do
  (new_key, input) ← fetch_key input
  _ ← check_order collected new_key
  ok (again input (in_map collected remaining new_key ∷ stack))

-- The inner loop: `completed` goes into the topmost frame, and on to the next one as long as it
-- completes that. `*remaining -= 1` is on a number that is never 0 there.
unfoldable pub complete : Value → Stack → Bytes → Result Next
complete completed [] input = ok (done completed input)
complete completed (in_array collected remaining ∷ stack) input =
    let filled = snoc collected completed in
    let up = complete (Value.array filled) stack input in
    if ltb 0 (remaining - 1) then ok (again input (in_array filled (remaining - 1) ∷ stack)) else up
complete completed (in_map collected remaining key ∷ stack) input =
    let filled = insert key completed collected in
    let up = complete (Value.map filled) stack input in
    if ltb 0 (remaining - 1) then next_entry filled (remaining - 1) stack input else up

-- TYPE_SPECIAL: `n` is the header's low byte, `val` the header without its tag.
unfoldable pub fetch_special : ℕ → ℕ → Bytes → Result (Value × Bytes)
fetch_special n val input =
    if ltb 5 (bits val)
    then err (invalid_special_value n)
    else if n == special_null
    then ok (Value.null, input)
    else if n == special_true
    then ok (Value.bool true, input)
    else if n == special_false
    then ok (Value.bool false, input)
    else if n == special_addr
    then (fetch_slice address_size input >>= λ (addr, rest). ok (Value.address addr, rest))
    else err (invalid_special_value n)

unfoldable pub fetch_bytes : ℕ → Bytes → Result (Value × Bytes)
fetch_bytes val input = do
  full_size ← map_to_size val
  (slice, input) ← fetch_slice full_size input
  ok (Value.bytes slice, input)

unfoldable pub fetch_str : ℕ → Bytes → Result (Value × Bytes)
fetch_str val input = do
  full_size ← map_to_size val
  (slice, input) ← fetch_slice full_size input
  as_str ← from_utf8 slice
  ok (Value.str as_str, input)

unfoldable pub open_array : ℕ → Bytes → Stack → Result Next
open_array full_size input stack =
    if ltb (length input) full_size
    then err (unexpected_end full_size (length input))
    else if full_size == 0
    then complete (Value.array nil) stack input
    else ok (again input (in_array nil full_size ∷ stack))

unfoldable pub fetch_array : ℕ → ℕ → Bytes → Stack → Result Next
fetch_array max_depth val input stack =
    if ltb (length stack) max_depth
    then (map_to_size val >>= λ full_size. open_array full_size input stack)
    else err max_depth_exceeded

-- `saturating_mul(2)` on a usize.
abbrev pub twice : ℕ → ℕ
twice n = min (n * 2) (2 ^ 64 - 1)

unfoldable pub open_map : ℕ → Bytes → Stack → Result Next
open_map full_size input stack =
    if ltb (length input) (twice full_size)
    then err (unexpected_end (twice full_size) (length input))
    else if full_size == 0
    then complete (Value.map end) stack input
    else (fetch_key input >>= λ (key, rest). ok (again rest (in_map end full_size key ∷ stack)))

unfoldable pub fetch_map : ℕ → ℕ → Bytes → Stack → Result Next
fetch_map max_depth val input stack =
    if ltb (length stack) max_depth
    then (map_to_size val >>= λ full_size. open_map full_size input stack)
    else err max_depth_exceeded

-- A value with no parts has been read.
unfoldable pub leaf : Stack → Result (Value × Bytes) → Result Next
leaf stack r = r >>= λ (v, rest). complete v stack rest

-- `match typ`, on the header's tag, its low byte, and the header without the tag.
unfoldable pub dispatch : ℕ → ℕ → ℕ → ℕ → Bytes → Stack → Result Next
dispatch max_depth typ least_byte val input stack =
    if typ == type_special
    then leaf stack (fetch_special least_byte val input)
    else if typ == type_bytes
    then leaf stack (fetch_bytes val input)
    else if typ == type_str
    then leaf stack (fetch_str val input)
    else if typ == type_pint
    then leaf stack (ok (Value.number (pos val), input))
    else if typ == type_nint
    then leaf stack (ok (Value.number (negsuc val), input))
    else if typ == type_arr
    then fetch_array max_depth val input stack
    else if typ == type_map
    then fetch_map max_depth val input stack
    else err (invalid_tag typ)

-- One round of `'parse`: a header, what it announces, and what that completes.
unfoldable pub parse_round : ℕ → Bytes → Stack → Result Next
parse_round max_depth input stack = do
  (n, rest) ← fetch_uleb input
  let least_byte = n % 2 ^ 32 % 256
  dispatch max_depth (least_byte % 2 ^ 3) least_byte (n / 2 ^ 3) rest stack

unfoldable pub parse : ℕ → ℕ → Bytes → Stack → Result (Value × Bytes)
parse max_depth zero input stack = stuck
parse max_depth (suc fuel) input stack = elim (parse_round max_depth input stack) [
  | ok (done v rest) ↦ ok (v, rest)
  | ok (again rest up) ↦ parse max_depth fuel rest up
  | err e ↦ err e
  | stuck ↦ stuck
]

-- Each round takes a byte of the input at least.
unfoldable pub fetch_val : ℕ → Bytes → Result (Value × Bytes)
fetch_val max_depth input = parse max_depth (suc (length input)) input []

-- `Options::default()`
abbrev pub default_max_depth : ℕ
default_max_depth = 128

unfoldable pub decode_with : ℕ → Bytes → Result Value
decode_with max_depth block = fetch_val max_depth block >>= λ (v, rest). ok v

unfoldable pub decode : Bytes → Result Value
decode block = do
  (ret, rest) ← fetch_val default_max_depth block
  if length rest == 0 then ok ret else err (unexpected_end 0 (length rest))
