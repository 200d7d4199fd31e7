-- ===== src/Calldata/Rounds.antt =====
-- One round of the decoder on what the format writes: headers, keys, and the steps of the inner
-- loop.
use genvm_executor.Base.{
  ℕ, suc, ◌+◌, ◌-◌, ◌*◌, ◌/◌, ◌%◌, ◌^◌, ◌<◌, ◌≡◌, refl, true, ◌∷◌, ◌++◌, arith, length, lt→ltb,
}
use genvm_executor.Calldata.Value.{Bytes, Value, Items, Fields, snoc}
use genvm_executor.Calldata.Text.{is_utf8, str_lt}
use genvm_executor.Calldata.Format.{uleb, header}
use genvm_executor.Calldata.Decode.{
  Result, ok, err, stuck, Next, done, again, Stack, in_array, in_map, fetch_key, from_utf8,
  check_order, next_entry, complete, dispatch, parse_round, parse,
}
use genvm_executor.Calldata.Uleb.{fetch_uleb-uleb}
use genvm_executor.Calldata.Sizes.{map_to_size_small, fetch_slice-append}
use genvm_executor.Calldata.Wire.{AllBelow, append, insert_last, last_key-append}

-- What the loop does with the outcome of a round.
unfoldable pub resume : ℕ → ℕ → Result Next → Result (Value × Bytes)
resume max_depth fuel (ok (done v rest)) = ok (v, rest)
resume max_depth fuel (ok (again rest up)) = parse max_depth fuel rest up
resume max_depth fuel (err e) = err e
resume max_depth fuel stuck = stuck

resume_elim :
    (max_depth fuel : ℕ) (r : Result Next)
    → elim r [
      | ok (done v rest) ↦ ok (v, rest)
      | ok (again rest up) ↦ parse max_depth fuel rest up
      | err e ↦ err e
      | stuck ↦ stuck
    ]
      ≡ resume max_depth fuel r
unfolding resume
resume_elim max_depth fuel (ok (done v rest)) = refl
resume_elim max_depth fuel (ok (again rest up)) = refl
resume_elim max_depth fuel (err e) = refl
resume_elim max_depth fuel stuck = refl

pub parse_step :
    (max_depth fuel : ℕ) (input : Bytes) (stack : Stack)
    → parse max_depth (suc fuel) input stack
      ≡ resume max_depth fuel (parse_round max_depth input stack)
unfolding parse
parse_step max_depth fuel input stack =
    resume_elim max_depth fuel (parse_round max_depth input stack)

pub parse_round-header :
    (max_depth tag n : ℕ) (rest : Bytes) (stack : Stack)
    → tag < 8
    → 7 * length (header tag n) < 2 ^ 64
    → parse_round max_depth (header tag n ++ rest) stack
      ≡ dispatch max_depth tag ((n * 8 + tag) % 2 ^ 32 % 256) n rest stack
unfolding parse_round
parse_round-header max_depth tag n rest stack h l =
    let typ : (n * 8 + tag) % 2 ^ 32 % 256 % 2 ^ 3 ≡ tag = omega arith in
    let val : (n * 8 + tag) / 2 ^ 3 ≡ n = omega arith in
    rw (fetch_uleb-uleb (n * 8 + tag) rest l, typ, val)

pub fetch_key-uleb :
    (k rest : Bytes)
    → length k < 2 ^ 32
    → is_utf8 k ≡ true
    → 7 * length (uleb (length k)) < 2 ^ 64
    → fetch_key (uleb (length k) ++ (k ++ rest)) ≡ ok (k, rest)
unfolding fetch_key from_utf8
fetch_key-uleb k rest h u l = rw (
  fetch_uleb-uleb (length k) (k ++ rest) l,
  map_to_size_small (length k) h,
  fetch_slice-append k rest,
  u,
)

pub complete_array_last :
    (v : Value) (p : Items) (stack : Stack) (input : Bytes)
    → complete v (in_array p (0 + 1) ∷ stack) input ≡ complete (Value.array (snoc p v)) stack input
unfolding complete
complete_array_last v p stack input = refl

pub complete_array_more :
    (v : Value) (p : Items) (n : ℕ) (stack : Stack) (input : Bytes)
    → 0 < n
    → complete v (in_array p (n + 1) ∷ stack) input
      ≡ ok (again input (in_array (snoc p v) n ∷ stack))
unfolding complete
complete_array_more v p n stack input h =
    let less : n + 1 - 1 ≡ n = omega arith in rw (less, lt→ltb 0 n h)

pub complete_map_last :
    (k : Bytes) (v : Value) (p : Fields) (stack : Stack) (input : Bytes)
    → AllBelow k p
    → complete v (in_map p (0 + 1) k ∷ stack) input
      ≡ complete (Value.map (append p k v)) stack input
unfolding complete
complete_map_last k v p stack input h = rw (insert_last k v p h)

check_order-append :
    (p : Fields) (k : Bytes) (v : Value) (j : Bytes)
    → str_lt k j ≡ true
    → check_order (append p k v) j ≡ ok tt
unfolding check_order
check_order-append p k v j o = rw (last_key-append p k v, check_order) (rw o)

-- An entry goes in, and the next key, behind it, is read.
pub complete_map_more :
    (k : Bytes) (v : Value) (p : Fields) (n : ℕ) (stack : Stack) (j rest : Bytes)
    → AllBelow k p
    → 0 < n
    → str_lt k j ≡ true
    → length j < 2 ^ 32
    → is_utf8 j ≡ true
    → 7 * length (uleb (length j)) < 2 ^ 64
    → complete v (in_map p (n + 1) k ∷ stack) (uleb (length j) ++ (j ++ rest))
      ≡ ok (again rest (in_map (append p k v) n j ∷ stack))
unfolding complete next_entry
complete_map_more k v p n stack j rest b h o l u z =
    let less : n + 1 - 1 ≡ n = omega arith in
    rw (
      less,
      lt→ltb 0 n h,
      insert_last k v p b,
      fetch_key-uleb j rest l u z,
      check_order-append p k v j o,
    )
