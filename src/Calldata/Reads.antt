-- ===== src/Calldata/Reads.antt =====
-- The decoder on each kind of value that the format writes: one round, for those with no parts
-- and for the headers of containers.
use genvm_executor.Base.{
  ℕ, suc, ◌+◌, ◌*◌, ◌^◌, ◌≤◌, ◌<◌, ◌≡◌, refl, ap, ◌∙◌, Bool, true, false, ◌∷◌, ◌++◌, append_assoc,
  arith, length, lt→ltb,
}
use genvm_executor.Calldata.Value.{
  Bytes, Value, ℤ, pos, negsuc, Items, Fields, nil, cons, end, field, count, count_fields,
}
use genvm_executor.Calldata.Text.{is_utf8}
use genvm_executor.Calldata.Format.{
  encoding, encoding_items, encoding_fields, encoding_fields-field,
}
use genvm_executor.Calldata.EncodeLaws.{lengths, count-le-length, count_fields-le-length}
use genvm_executor.Calldata.Decode.{
  Result, ok, Next, again, Stack, in_array, in_map, fetch_key, complete, open_array, fetch_array,
  open_map, fetch_map, fetch_bytes, fetch_str, fetch_special, fetch_slice, from_utf8, leaf,
  dispatch, parse_round, parse, fetch_uleb, fetch_uleb_loop, bits,
}
use genvm_executor.Calldata.Sizes.{map_to_size_small, fetch_slice-append}
use genvm_executor.Calldata.Wire.{depth}
use genvm_executor.Calldata.Rounds.{resume, parse_step, parse_round-header, fetch_key-uleb}

-- The rounds that the decoder takes for a value, on top of `more`.
unfoldable mutual
  pub reads : Value → ℕ → ℕ
  reads (Value.array xs) more = suc (reads_items xs more)
  reads (Value.map m) more = suc (reads_fields m more)
  reads Value.null more = suc more
  reads (Value.address _) more = suc more
  reads (Value.bool _) more = suc more
  reads (Value.str _) more = suc more
  reads (Value.bytes _) more = suc more
  reads (Value.number _) more = suc more

  pub reads_items : Items → ℕ → ℕ
  reads_items nil more = more
  reads_items (cons x xs) more = reads x (reads_items xs more)

  pub reads_fields : Fields → ℕ → ℕ
  reads_fields end more = more
  reads_fields (field k v m) more = reads v (reads_fields m more)

module _ (max_depth : ℕ) where
  -- The decoder takes the value off the front of its input, and completes it.
  abbrev pub Reads : Value → Type 0
  Reads v =
      (more : ℕ) (rest : Bytes) (stack : Stack)
      → length stack + depth v ≤ max_depth
      → parse max_depth (reads v more) (encoding v ++ rest) stack
        ≡ resume max_depth more (complete v stack rest)

  pub round :
      (fuel : ℕ) (input : Bytes) (stack : Stack) {r : Result Next}
      → parse_round max_depth input stack ≡ r
      → parse max_depth (suc fuel) input stack ≡ resume max_depth fuel r
  round fuel input stack e = parse_step max_depth fuel input stack ∙ ap (resume max_depth fuel) e

  pub read_null : Reads Value.null
  unfolding reads encoding parse_round dispatch leaf fetch_special fetch_uleb fetch_uleb_loop bits
  read_null more rest stack d = round more _ stack refl

  pub read_bool : (b : Bool) → Reads (Value.bool b)
  unfolding reads encoding parse_round dispatch leaf fetch_special fetch_uleb fetch_uleb_loop bits
  read_bool true more rest stack d = round more _ stack refl
  read_bool false more rest stack d = round more _ stack refl

  pub read_address : (a : Bytes) → length a ≡ 20 → Reads (Value.address a)
  unfolding reads encoding parse_round dispatch leaf fetch_special fetch_uleb fetch_uleb_loop bits
  read_address a h more rest stack d =
      let slice : fetch_slice 20 (a ++ rest) ≡ ok (a, rest) = rw h at (fetch_slice-append a rest) in
      round more _ stack (rw slice)

  pub read_number :
      (n : ℤ) → 7 * length (encoding (Value.number n)) < 2 ^ 64 → Reads (Value.number n)
  unfolding reads encoding dispatch leaf
  read_number (pos n) l more rest stack d =
      round more _ stack (parse_round-header max_depth 1 n rest stack (omega arith) l)
  read_number (negsuc n) l more rest stack d =
      round more _ stack (parse_round-header max_depth 2 n rest stack (omega arith) l)

  pub read_bytes :
      (b : Bytes)
      → length b < 2 ^ 32
      → 7 * length (encoding (Value.bytes b)) < 2 ^ 64
      → Reads (Value.bytes b)
  unfolding reads encoding dispatch leaf fetch_bytes
  read_bytes b h l more rest stack d = round more _ stack (
      rw (
        append_assoc,
        parse_round-header max_depth 3 (length b) (b ++ rest) stack (omega arith) (omega lengths),
        map_to_size_small (length b) h,
        fetch_slice-append b rest,
      ))

  pub read_str :
      (b : Bytes)
      → length b < 2 ^ 32
      → is_utf8 b ≡ true
      → 7 * length (encoding (Value.str b)) < 2 ^ 64
      → Reads (Value.str b)
  unfolding reads encoding dispatch leaf fetch_str from_utf8
  read_str b h u l more rest stack d = round more _ stack (
      rw (
        append_assoc,
        parse_round-header max_depth 4 (length b) (b ++ rest) stack (omega arith) (omega lengths),
        map_to_size_small (length b) h,
        fetch_slice-append b rest,
        u,
      ))

  -- An array's header, with a container's room left: the first value is next.
  pub open_array_round :
      (xs : Items) (rest : Bytes) (stack : Stack)
      → count xs < 2 ^ 32
      → 7 * length (encoding (Value.array xs)) < 2 ^ 64
      → length stack + depth (Value.array xs) ≤ max_depth
      → parse_round max_depth (encoding (Value.array xs) ++ rest) stack
        ≡ open_array (count xs) (encoding_items xs ++ rest) stack
  unfolding encoding dispatch fetch_array depth
  open_array_round xs rest stack h l d = rw (
    append_assoc,
    parse_round-header max_depth 5 (count xs) (encoding_items xs ++ rest) stack (omega arith)
        (omega lengths),
    lt→ltb (length stack) max_depth (omega arith),
    map_to_size_small (count xs) h,
  )

  pub open_map_round :
      (m : Fields) (rest : Bytes) (stack : Stack)
      → count_fields m < 2 ^ 32
      → 7 * length (encoding (Value.map m)) < 2 ^ 64
      → length stack + depth (Value.map m) ≤ max_depth
      → parse_round max_depth (encoding (Value.map m) ++ rest) stack
        ≡ open_map (count_fields m) (encoding_fields m ++ rest) stack
  unfolding encoding dispatch fetch_map depth
  open_map_round m rest stack h l d = rw (
    append_assoc,
    parse_round-header max_depth 6 (count_fields m) (encoding_fields m ++ rest) stack (omega arith)
        (omega lengths),
    lt→ltb (length stack) max_depth (omega arith),
    map_to_size_small (count_fields m) h,
  )

  pub open_array-cons :
      (x : Value) (xs : Items) (rest : Bytes) (stack : Stack)
      → open_array (count (cons x xs)) (encoding_items (cons x xs) ++ rest) stack
        ≡ ok (again (encoding_items (cons x xs) ++ rest) (in_array nil (count (cons x xs)) ∷ stack))
  unfolding open_array
  open_array-cons x xs rest stack =
      let enough : count (cons x xs) ≤ length (encoding_items (cons x xs) ++ rest) =
        omega (lengths, count-le-length (cons x xs)) in
      let some_left : 0 < count (cons x xs) = unfold count in omega arith in ground arith

  fetch_key-field :
      (k : Bytes) (v : Value) (m : Fields) (rest : Bytes)
      → length k < 2 ^ 32
      → is_utf8 k ≡ true
      → 7 * length (encoding_fields (field k v m)) < 2 ^ 64
      → fetch_key (encoding_fields (field k v m) ++ rest)
        ≡ ok (k, encoding v ++ (encoding_fields m ++ rest))
  fetch_key-field k v m rest h u l =
      let short = rw encoding_fields-field at l in
      simp (encoding_fields-field, append_assoc)
        (fetch_key-uleb k (encoding v ++ (encoding_fields m ++ rest)) h u (omega (lengths, short)))

  pub open_map-field :
      (k : Bytes) (v : Value) (m : Fields) (rest : Bytes) (stack : Stack)
      → count_fields (field k v m) < 2 ^ 32
      → length k < 2 ^ 32
      → is_utf8 k ≡ true
      → 7 * length (encoding_fields (field k v m)) < 2 ^ 64
      → open_map (count_fields (field k v m)) (encoding_fields (field k v m) ++ rest) stack
        ≡ ok (
            again
              (encoding v ++ (encoding_fields m ++ rest))
              (in_map end (count_fields (field k v m)) k ∷ stack))
  unfolding open_map
  open_map-field k v m rest stack c h u l =
      let enough = count_fields-le-length (field k v m) in
      let some_left : 0 < count_fields (field k v m) = unfold count_fields in omega arith in
      let key = fetch_key-field k v m rest h u l in
      let fits : length (encoding_fields (field k v m))
          ≤ length (encoding_fields (field k v m) ++ rest) =
        omega lengths in
      ground arith
