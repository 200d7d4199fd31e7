-- ===== src/Calldata/Termination.antt =====
-- The parser ends on every input, also on one that no encoder made: each round of its loop takes a
-- byte at least.
use genvm_executor.Base.{
  ℕ, zero, suc, ◌+◌, ◌-◌, ◌*◌, ◌/◌, ◌%◌, ◌^◌, ◌≤◌, ◌<◌, ◌≢◌, Bool, true, false, not, ◌&&◌,
  Option-cases, inl, inr, [], ◌∷◌, arith, length, length-drop, ltb, ◌==◌, if◌then◌else◌,
}
use genvm_executor.Calldata.Value.{
  Bytes, Value, Fields, snoc, type_special, type_pint, type_nint, type_bytes, type_str, type_arr,
  type_map, special_null, special_false, special_true, special_addr,
}
use genvm_executor.Calldata.Text.{is_utf8, str_lt}
use genvm_executor.Calldata.Decode.{
  Result, ok, err, stuck, ◌>>=◌, fetch_uleb_loop, fetch_uleb, fetch_slice, bits, map_to_size,
  from_utf8, fetch_key, insert, last_key, in_array, in_map, Stack, Next, done, again, check_order,
  next_entry, complete, fetch_special, fetch_bytes, fetch_str, open_array, fetch_array, twice,
  open_map, fetch_map, leaf, dispatch, parse_round, parse, fetch_val, default_max_depth, decode,
}

-- A call that ends, with a result of which `P` holds if it is one.
abbrev Ends : {A : Type 0} → (A → Type 0) → Result A → Type 0
Ends P (ok a) = P a
Ends P (err e) = Unit {0}
Ends P stuck = ⊥

Ends->>= :
    {A B : Type 0} (Before : A → Type 0) (After : B → Type 0) (call : Result A)
    (rest : A → Result B)
    → Ends Before call
    → ((v : A) → Before v → Ends After (rest v))
    → Ends After (call >>= rest)
Ends->>= P Q (ok a) f h next = next a h
Ends->>= P Q (err e) f h next = tt
Ends->>= P Q stuck f h next = absurd h

Ends-weaken :
    {A : Type 0} (P Q : A → Type 0) (r : Result A) → ((a : A) → P a → Q a) → Ends P r → Ends Q r
Ends-weaken P Q (ok a) weaken h = weaken a h
Ends-weaken P Q (err e) weaken h = tt
Ends-weaken P Q stuck weaken h = h

-- A branch, both ways.
Ends-if :
    {A : Type 0} (P : A → Type 0) (b : Bool) (r s : Result A)
    → Ends P r
    → Ends P s
    → Ends P (if b then r else s)
Ends-if P true r s h k = h
Ends-if P false r s h k = k

-- What is left is within `n` bytes.
abbrev Leaves : {A : Type 0} → ℕ → A × Bytes → Type 0
Leaves n r = length r.1 ≤ n

abbrev Goes : ℕ → Next → Type 0
Goes n (done v rest) = Unit {0}
Goes n (again rest stack) = length rest ≤ n

-- A round that goes on leaves less than it found.
abbrev Shrinks : ℕ → Next → Type 0
Shrinks n (done v rest) = Unit {0}
Shrinks n (again rest stack) = length rest < n

Goes-weaken : (m n : ℕ) (next : Next) → m ≤ n → Goes m next → Goes n next
Goes-weaken m n (done v rest) l h = tt
Goes-weaken m n (again rest stack) l h = omega (arith, l, h)

Goes-Shrinks : (m n : ℕ) (next : Next) → m < n → Goes m next → Shrinks n next
Goes-Shrinks m n (done v rest) l h = tt
Goes-Shrinks m n (again rest stack) l h = omega (arith, l, h)

abbrev Any : {A : Type 0} → A → Type 0
Any a = Unit {0}

fetch_uleb_loop-Ends :
    (input : Bytes) (res off : ℕ)
    → Ends (λ r. length r.1 < length input) (fetch_uleb_loop input res off)
unfolding fetch_uleb_loop
fetch_uleb_loop-Ends [] res off = tt
fetch_uleb_loop-Ends (byte ∷ rest) res off =
    let res' = res + byte % 128 * 2 ^ off in
    let next = fetch_uleb_loop rest res' (off + 7) in
    Ends-if _ (ltb byte 128) _ _ (Ends-if _ (byte == 0 && not (off == 0)) _ _ tt (omega arith)) (
      Ends-if _ (ltb (off + 7) (2 ^ 64)) _ _
        (Ends-weaken _ _ next (λ r l. omega (arith, l)) (fetch_uleb_loop-Ends rest res' (off + 7)))
        tt)

fetch_slice-Ends : (n : ℕ) (input : Bytes) → Ends (Leaves (length input)) (fetch_slice n input)
unfolding fetch_slice
fetch_slice-Ends n input =
    Ends-if _ (ltb (length input) n) _ _ tt (omega (arith, length-drop n input))

map_to_size-Ends : (n : ℕ) → Ends Any (map_to_size n)
unfolding map_to_size
map_to_size-Ends n = Ends-if _ (ltb 32 (bits n)) _ _ tt tt

from_utf8-Ends : (slice : Bytes) → Ends Any (from_utf8 slice)
unfolding from_utf8
from_utf8-Ends slice = Ends-if _ (is_utf8 slice) _ _ tt tt

fetch_key-Ends : (input : Bytes) → Ends (Leaves (length input)) (fetch_key input)
unfolding fetch_key fetch_uleb
fetch_key-Ends input =
    Ends->>= _ _ (fetch_uleb_loop input 0 0) _ (fetch_uleb_loop-Ends input 0 0) (λ (n, rest) l.
      Ends->>= Any _ (map_to_size n) _ (map_to_size-Ends n) (λ size _.
        Ends->>= _ _ (fetch_slice size rest) _ (fetch_slice-Ends size rest) (λ (slice, left) k.
          Ends->>= Any _ (from_utf8 slice) _ (from_utf8-Ends slice)
            (λ key _. omega (arith, l, k)))))

check_order-Ends : (collected : Fields) (key : Bytes) → Ends Any (check_order collected key)
unfolding check_order
check_order-Ends collected key = elim (Option-cases (last_key collected)) [
  | inl first ↦ rw (first, Ends) tt
  | inr (k, later) ↦ rw (later, Ends) (Ends-if Any (str_lt k key) _ _ tt tt)
]

next_entry-Ends :
    (collected : Fields) (remaining : ℕ) (stack : Stack) (input : Bytes)
    → Ends (Goes (length input)) (next_entry collected remaining stack input)
unfolding next_entry
next_entry-Ends collected remaining stack input =
    Ends->>= _ _ (fetch_key input) _ (fetch_key-Ends input) (λ (key, rest) l.
      Ends->>= Any _ (check_order collected key) _ (check_order-Ends collected key) (λ _ _. l))

complete-Ends :
    (completed : Value) (stack : Stack) (input : Bytes)
    → Ends (Goes (length input)) (complete completed stack input)
unfolding complete
complete-Ends completed [] input = tt
complete-Ends completed (in_array collected remaining ∷ stack) input =
    Ends-if _ (ltb 0 (remaining - 1)) _ _ (omega arith)
      (complete-Ends (Value.array (snoc collected completed)) stack input)
complete-Ends completed (in_map collected remaining key ∷ stack) input =
    Ends-if _ (ltb 0 (remaining - 1)) _ _
      (next_entry-Ends (insert key completed collected) (remaining - 1) stack input)
      (complete-Ends (Value.map (insert key completed collected)) stack input)

leaf-Ends :
    (stack : Stack) (r : Result (Value × Bytes)) (n : ℕ)
    → Ends (Leaves n) r
    → Ends (Goes n) (leaf stack r)
unfolding leaf
leaf-Ends stack r n h = Ends->>= _ _ r _ h (λ (v, rest) l.
    Ends-weaken _ _ (complete v stack rest) (λ next. Goes-weaken (length rest) n next l)
      (complete-Ends v stack rest))

fetch_special-Ends :
    (n val : ℕ) (input : Bytes) → Ends (Leaves (length input)) (fetch_special n val input)
unfolding fetch_special
fetch_special-Ends n val input = Ends-if _ (ltb 5 (bits val)) _ _ tt (
    Ends-if _ (n == special_null) _ _ (omega arith) (
      Ends-if _ (n == special_true) _ _ (omega arith) (
        Ends-if _ (n == special_false) _ _ (omega arith) (
          Ends-if _ (n == special_addr) _ _
            (Ends->>= _ _ (fetch_slice 20 input) _ (fetch_slice-Ends 20 input) (λ _ l. l)) tt))))

fetch_bytes-Ends : (val : ℕ) (input : Bytes) → Ends (Leaves (length input)) (fetch_bytes val input)
unfolding fetch_bytes
fetch_bytes-Ends val input =
    Ends->>= Any _ (map_to_size val) _ (map_to_size-Ends val)
      (λ size _. Ends->>= _ _ (fetch_slice size input) _ (fetch_slice-Ends size input) (λ _ l. l))

fetch_str-Ends : (val : ℕ) (input : Bytes) → Ends (Leaves (length input)) (fetch_str val input)
unfolding fetch_str
fetch_str-Ends val input = Ends->>= Any _ (map_to_size val) _ (map_to_size-Ends val) (λ size _.
    Ends->>= _ _ (fetch_slice size input) _ (fetch_slice-Ends size input)
      (λ (slice, rest) l. Ends->>= Any _ (from_utf8 slice) _ (from_utf8-Ends slice) (λ _ _. l)))

fetch_array-Ends :
    (max_depth val : ℕ) (input : Bytes) (stack : Stack)
    → Ends (Goes (length input)) (fetch_array max_depth val input stack)
unfolding fetch_array open_array
fetch_array-Ends max_depth val input stack =
    Ends-if _ (ltb (length stack) max_depth) _ _
      (Ends->>= Any _ (map_to_size val) _ (map_to_size-Ends val) (λ size _.
        Ends-if _ (ltb (length input) size) _ _ tt
          (Ends-if _ (size == 0) _ _ (complete-Ends _ stack input) (omega arith))))
      tt

fetch_map-Ends :
    (max_depth val : ℕ) (input : Bytes) (stack : Stack)
    → Ends (Goes (length input)) (fetch_map max_depth val input stack)
unfolding fetch_map open_map
fetch_map-Ends max_depth val input stack =
    Ends-if _ (ltb (length stack) max_depth) _ _
      (Ends->>= Any _ (map_to_size val) _ (map_to_size-Ends val) (λ size _.
        Ends-if _ (ltb (length input) (twice size)) _ _ tt (
          Ends-if _ (size == 0) _ _ (complete-Ends _ stack input)
            (Ends->>= _ _ (fetch_key input) _ (fetch_key-Ends input) (λ (key, rest) l. l)))))
      tt

dispatch-Ends :
    (max_depth typ least_byte val : ℕ) (input : Bytes) (stack : Stack)
    → Ends (Goes (length input)) (dispatch max_depth typ least_byte val input stack)
unfolding dispatch
dispatch-Ends max_depth typ least_byte val input stack =
    let le : length input ≤ length input = omega arith in
    Ends-if _ (typ == type_special) _ _
      (leaf-Ends stack _ (length input) (fetch_special-Ends least_byte val input))
      (Ends-if _ (typ == type_bytes) _ _
        (leaf-Ends stack _ (length input) (fetch_bytes-Ends val input))
        (Ends-if _ (typ == type_str) _ _
          (leaf-Ends stack _ (length input) (fetch_str-Ends val input))
          (Ends-if _ (typ == type_pint) _ _ (leaf-Ends stack _ (length input) le) (
            Ends-if _ (typ == type_nint) _ _ (leaf-Ends stack _ (length input) le) (
              Ends-if _ (typ == type_arr) _ _ (fetch_array-Ends max_depth val input stack)
                (Ends-if _ (typ == type_map) _ _ (fetch_map-Ends max_depth val input stack) tt))))))

parse_round-Ends :
    (max_depth : ℕ) (input : Bytes) (stack : Stack)
    → Ends (Shrinks (length input)) (parse_round max_depth input stack)
unfolding parse_round fetch_uleb
parse_round-Ends max_depth input stack =
    Ends->>= _ _ (fetch_uleb_loop input 0 0) _ (fetch_uleb_loop-Ends input 0 0) (λ (n, rest) l.
      let least_byte = n % 2 ^ 32 % 256 in
      Ends-weaken _ _ (dispatch max_depth (least_byte % 2 ^ 3) least_byte (n / 2 ^ 3) rest stack)
        (λ next. Goes-Shrinks (length rest) (length input) next l)
        (dispatch-Ends max_depth (least_byte % 2 ^ 3) least_byte (n / 2 ^ 3) rest stack))

-- After a round.
after_round :
    (max_depth fuel n : ℕ) (r : Result Next)
    → Ends (Shrinks n) r
    → ((rest : Bytes) (up : Stack) → length rest < n → Ends Any (parse max_depth fuel rest up))
    → Ends {A = Value × Bytes} Any (elim r as (λ k. Result (Value × Bytes)) [
      | ok (done v rest) ↦ ok (v, rest)
      | ok (again rest up) ↦ parse max_depth fuel rest up
      | err e ↦ err e
      | stuck ↦ stuck
    ])
after_round max_depth fuel n (ok (done v rest)) l next = tt
after_round max_depth fuel n (ok (again rest up)) l next = next rest up l
after_round max_depth fuel n (err e) l next = tt
after_round max_depth fuel n stuck l next = l

parse-Ends :
    (fuel max_depth : ℕ) (input : Bytes) (stack : Stack)
    → length input < fuel
    → Ends Any (parse max_depth fuel input stack)
unfolding parse
parse-Ends zero max_depth input stack h = absurd (omega arith)
parse-Ends (suc fuel) max_depth input stack h =
    after_round max_depth fuel (length input) (parse_round max_depth input stack)
      (parse_round-Ends max_depth input stack)
      (λ rest up l. parse-Ends fuel max_depth rest up (omega (arith, h, l)))

Ends-stuck : {A : Type 0} (P : A → Type 0) (r : Result A) → Ends P r → r ≢ stuck
Ends-stuck P (ok a) h e = absurd (cc e)
Ends-stuck P (err x) h e = absurd (cc e)
Ends-stuck P stuck h e = h

-- `decode` ends on every input, with a value or an error: the rounds that `fetch_val` gets for its loop,
-- one for each byte of the input and one more, are enough.
pub decode_ends : (block : Bytes) → decode block ≢ stuck
unfolding decode fetch_val
decode_ends block = Ends-stuck Any (decode block) (
    Ends->>= Any _ (parse default_max_depth (suc (length block)) block []) _
      (parse-Ends _ default_max_depth block [] (omega arith))
      (λ (ret, rest) _. Ends-if Any (length rest == 0) _ _ tt tt))
