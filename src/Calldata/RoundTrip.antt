-- ===== src/Calldata/RoundTrip.antt =====
-- What was encoded decodes to itself.
use genvm_executor.Base.{
  ℕ, suc, ◌+◌, ◌-◌, ◌*◌, ◌^◌, ◌≤◌, ◌<◌, ◌≡◌, refl, ap, sym, ◌∙◌, true, [], ◌∷◌, ◌++◌, append_assoc,
  append-nil, arith, length, some,
}
use genvm_executor.Calldata.Value.{
  Bytes, Value, pos, negsuc, Items, Fields, nil, cons, end, field, count, count_fields, snoc,
}
use genvm_executor.Calldata.Text.{is_utf8, str_lt}
use genvm_executor.Calldata.Encode.{encode}
use genvm_executor.Calldata.Format.{
  encoding, encoding_items, encoding_fields, encoding_items-cons, encoding_fields-field,
  length-uleb_pos,
}
use genvm_executor.Calldata.EncodeLaws.{lengths}
use genvm_executor.Calldata.EncodeTo.{encode-encoding}
use genvm_executor.Calldata.Decode.{
  ok, Stack, in_array, in_map, complete, open_array, open_map, parse, fetch_val, decode,
}
use genvm_executor.Calldata.Wire.{
  depth, depth_items, depth_fields, AllBelow, AllAbove, IsSorted, IsWire, AreWire, AreWireFields,
  append, join, join_fields, join-snoc, join-nil, join_fields-append, join_fields-end,
  AllBelow-append, AllBelow-trans,
}
use genvm_executor.Calldata.Rounds.{
  resume, complete_array_last, complete_array_more, complete_map_last, complete_map_more,
}
use genvm_executor.Calldata.Reads.{
  reads, reads_items, reads_fields, Reads, round, read_null, read_bool, read_address, read_number,
  read_bytes, read_str, open_array_round, open_map_round, open_array-cons, open_map-field,
}

module _ (max_depth : ℕ) where
  -- The values of an array from `x` on, behind the `p` that are read; the array is then complete.
  abbrev ReadsItems : Value → Items → Type 0
  ReadsItems x xs =
      (more : ℕ) (p : Items) (rest : Bytes) (stack : Stack)
      → length stack + depth_items (cons x xs) + 1 ≤ max_depth
      → parse max_depth (reads x (reads_items xs more)) (encoding x ++ (encoding_items xs ++ rest))
          (in_array p (count (cons x xs)) ∷ stack)
        ≡ resume max_depth more (complete (Value.array (join p (cons x xs))) stack rest)

  -- The values of a map from that of the key `k` on, behind the entries `p`.
  abbrev ReadsFields : Bytes → Value → Fields → Type 0
  ReadsFields k v m =
      (more : ℕ) (p : Fields) (rest : Bytes) (stack : Stack)
      → length stack + depth_fields (field k v m) + 1 ≤ max_depth
      → AllBelow k p
      → parse max_depth (reads v (reads_fields m more)) (encoding v ++ (encoding_fields m ++ rest))
          (in_map p (count_fields (field k v m)) k ∷ stack)
        ≡ resume max_depth more (complete (Value.map (join_fields p (field k v m))) stack rest)

  items_last : (x : Value) → Reads max_depth x → ReadsItems x nil
  unfolding reads encoding count depth
  items_last x rx more p rest stack d =
      rx more rest (in_array p (0 + 1) ∷ stack) (omega arith)
      ∙ ap (resume max_depth more) (
          complete_array_last x p stack rest
          ∙ ap (λ l. complete (Value.array l) stack rest)
              (sym (join-nil (snoc p x)) ∙ join-snoc p nil x))

  items_more :
      (x y : Value) (ys : Items) → Reads max_depth x → ReadsItems y ys → ReadsItems x (cons y ys)
  unfolding reads depth count resume
  items_more x y ys rx rys more p rest stack d =
      rx (reads_items (cons y ys) more) (encoding_items (cons y ys) ++ rest)
        (in_array p (count (cons y ys) + 1) ∷ stack) (omega arith)
      ∙ ap (resume max_depth (reads_items (cons y ys) more)) (
          complete_array_more x p (count (cons y ys)) stack (encoding_items (cons y ys) ++ rest)
            (omega arith))
      ∙ ap
          (λ l.
            parse max_depth (reads_items (cons y ys) more) l
              (in_array (snoc p x) (count (cons y ys)) ∷ stack))
          (encoding_items-cons y ys rest)
      ∙ rys more (snoc p x) rest stack (omega arith)
      ∙ ap (λ l. resume max_depth more (complete (Value.array l) stack rest))
          (join-snoc p (cons y ys) x)

  fields_last : (k : Bytes) (v : Value) → Reads max_depth v → ReadsFields k v end
  unfolding reads encoding count_fields depth
  fields_last k v rv more p rest stack d b =
      rv more rest (in_map p (0 + 1) k ∷ stack) (omega arith)
      ∙ ap (resume max_depth more) (
          complete_map_last k v p stack rest b
          ∙ ap (λ l. complete (Value.map l) stack rest)
              (sym (join_fields-end (append p k v)) ∙ join_fields-append p end k v))

  fields_more :
      (k : Bytes) (v : Value) (j : Bytes) (w : Value) (m : Fields)
      → str_lt k j ≡ true
      → length j < 2 ^ 32
      → is_utf8 j ≡ true
      → 7 * length (encoding_fields (field j w m)) < 2 ^ 64
      → Reads max_depth v
      → ReadsFields j w m
      → ReadsFields k v (field j w m)
  unfolding reads depth count_fields resume
  fields_more k v j w m o h u l rv rm more p rest stack d b =
      let short = rw encoding_fields-field at l in
      let after = encoding w ++ (encoding_fields m ++ rest) in
      rv (reads_fields (field j w m) more) (encoding_fields (field j w m) ++ rest)
        (in_map p (count_fields (field j w m) + 1) k ∷ stack) (omega arith)
      ∙ ap (resume max_depth (reads_fields (field j w m) more)) (
          ap (complete v (in_map p (count_fields (field j w m) + 1) k ∷ stack))
            (simp (encoding_fields-field, append_assoc))
          ∙ complete_map_more k v p (count_fields (field j w m)) stack j after b (omega arith) o h u
              (omega (lengths, short)))
      ∙ rm more (append p k v) rest stack (omega arith)
          (AllBelow-append j k v p (AllBelow-trans k j p b o) o)
      ∙ ap (λ l. resume max_depth more (complete (Value.map l) stack rest))
          (join_fields-append p (field j w m) k v)

  read_array :
      (x : Value) (xs : Items)
      → count (cons x xs) < 2 ^ 32
      → 7 * length (encoding (Value.array (cons x xs))) < 2 ^ 64
      → ReadsItems x xs
      → Reads max_depth (Value.array (cons x xs))
  unfolding reads resume depth
  read_array x xs h l rx more rest stack d =
      round max_depth (reads_items (cons x xs) more) _ stack (
        open_array_round max_depth (cons x xs) rest stack h l d
        ∙ open_array-cons max_depth x xs rest stack)
      ∙ ap
          (λ i.
            parse max_depth (reads_items (cons x xs) more) i
              (in_array nil (count (cons x xs)) ∷ stack))
          (encoding_items-cons x xs rest)
      ∙ rx more nil rest stack (omega arith)
      ∙ unfold join in refl

  read_map :
      (k : Bytes) (v : Value) (m : Fields)
      → count_fields (field k v m) < 2 ^ 32
      → length k < 2 ^ 32
      → is_utf8 k ≡ true
      → 7 * length (encoding (Value.map (field k v m))) < 2 ^ 64
      → ReadsFields k v m
      → Reads max_depth (Value.map (field k v m))
  unfolding reads resume depth
  read_map k v m c h u l rv more rest stack d =
      round max_depth (reads_fields (field k v m) more) _ stack (
        open_map_round max_depth (field k v m) rest stack c l d
        ∙ open_map-field max_depth k v m rest stack c h u (unfold encoding in omega lengths))
      ∙ rv more end rest stack (omega arith) (unfold AllBelow in tt)
      ∙ unfold join_fields in refl

  read_array_nil :
      7 * length (encoding (Value.array nil)) < 2 ^ 64 → Reads max_depth (Value.array nil)
  unfolding reads
  read_array_nil l more rest stack d = round max_depth more _ stack (
      open_array_round max_depth nil rest stack (unfold count in omega arith) l d
      ∙ unfold open_array count encoding in ground arith)

  read_map_end : 7 * length (encoding (Value.map end)) < 2 ^ 64 → Reads max_depth (Value.map end)
  unfolding reads
  read_map_end l more rest stack d = round max_depth more _ stack (
      open_map_round max_depth end rest stack (unfold count_fields in omega arith) l d
      ∙ unfold open_map count_fields encoding in ground arith)

  mutual
    unfolding IsWire encoding IsSorted AllAbove

    read_value : (v : Value) → IsWire v → 7 * length (encoding v) < 2 ^ 64 → Reads max_depth v
    read_value Value.null w l = read_null max_depth
    read_value (Value.bool b) w l = read_bool max_depth b
    read_value (Value.address a) w l = read_address max_depth a w
    read_value (Value.str s) w l = read_str max_depth s w.0 w.1 l
    read_value (Value.bytes b) w l = read_bytes max_depth b w l
    read_value (Value.number n) w l = read_number max_depth n l
    read_value (Value.array nil) w l = read_array_nil l
    read_value (Value.array (cons x xs)) w l =
        read_array x xs w.0 l
          (read_items xs x w.1.1 (omega lengths) (read_value x w.1.0 (omega lengths)))
    read_value (Value.map end) w l = read_map_end l
    read_value (Value.map (field k v m)) w l =
        let (h, u, wv, wm) = w.2 in
        read_map k v m w.0 h u l
          (read_fields m k v w.1.0 w.1.1 wm (omega lengths) (read_value v wv (omega lengths)))

    read_items :
        (xs : Items) (x : Value)
        → AreWire xs
        → 7 * length (encoding_items xs) < 2 ^ 64
        → Reads max_depth x
        → ReadsItems x xs
    read_items nil x w l rx = items_last x rx
    read_items (cons y ys) x w l rx =
        items_more x y ys rx
          (read_items ys y w.1 (omega lengths) (read_value y w.0 (omega lengths)))

    read_fields :
        (m : Fields) (k : Bytes) (v : Value)
        → AllAbove k m
        → IsSorted m
        → AreWireFields m
        → 7 * length (encoding_fields m) < 2 ^ 64
        → Reads max_depth v
        → ReadsFields k v m
    read_fields end k v a o w l rv = fields_last k v rv
    read_fields (field j u m) k v a o w l rv =
        fields_more k v j u m a.0 w.0 w.1 l rv
          (read_fields m j u o.0 o.1 w.3 (omega lengths) (read_value u w.2 (omega lengths)))

mutual
  unfolding reads

  reads_add : (v : Value) (more : ℕ) → reads v more ≡ reads v 0 + more
  reads_add Value.null more = omega arith
  reads_add (Value.bool b) more = omega arith
  reads_add (Value.address a) more = omega arith
  reads_add (Value.str s) more = omega arith
  reads_add (Value.bytes b) more = omega arith
  reads_add (Value.number n) more = omega arith
  reads_add (Value.array xs) more = omega (arith, reads_items_add xs more)
  reads_add (Value.map m) more = omega (arith, reads_fields_add m more)

  reads_items_add : (xs : Items) (more : ℕ) → reads_items xs more ≡ reads_items xs 0 + more
  reads_items_add nil more = omega arith
  reads_items_add (cons x xs) more = omega (
    arith,
    reads_add x (reads_items xs more),
    reads_add x (reads_items xs 0),
    reads_items_add xs more,
  )

  reads_fields_add : (m : Fields) (more : ℕ) → reads_fields m more ≡ reads_fields m 0 + more
  reads_fields_add end more = omega arith
  reads_fields_add (field k v m) more = omega (
    arith,
    reads_add v (reads_fields m more),
    reads_add v (reads_fields m 0),
    reads_fields_add m more,
  )

-- A value takes at most a round for each of its bytes.
mutual
  unfolding reads encoding

  reads-le : (v : Value) → reads v 0 ≤ length (encoding v)
  reads-le Value.null = omega arith
  reads-le (Value.bool b) = omega arith
  reads-le (Value.address a) = omega arith
  reads-le (Value.str s) = omega (lengths, length-uleb_pos (length s * 8 + 4))
  reads-le (Value.bytes b) = omega (lengths, length-uleb_pos (length b * 8 + 3))
  reads-le (Value.number (pos n)) = omega (arith, length-uleb_pos (n * 8 + 1))
  reads-le (Value.number (negsuc n)) = omega (arith, length-uleb_pos (n * 8 + 2))
  reads-le (Value.array xs) = omega (lengths, length-uleb_pos (count xs * 8 + 5), reads_items-le xs)
  reads-le (Value.map m) =
      omega (lengths, length-uleb_pos (count_fields m * 8 + 6), reads_fields-le m)

  reads_items-le : (xs : Items) → reads_items xs 0 ≤ length (encoding_items xs)
  reads_items-le nil = omega arith
  reads_items-le (cons x xs) =
      omega (lengths, reads_add x (reads_items xs 0), reads-le x, reads_items-le xs)

  reads_fields-le : (m : Fields) → reads_fields m 0 ≤ length (encoding_fields m)
  reads_fields-le end = omega arith
  reads_fields-le (field k v m) =
      omega (lengths, reads_add v (reads_fields m 0), reads-le v, reads_fields-le m)

-- `fetch_val` takes the format of a value off the front of any input and leaves the rest, if the value is
-- one that the format carries (lengths and counts are below 2^32, texts and keys are UTF-8, keys ascend,
-- addresses have 20 bytes), the containers in it stand at most `max_depth` deep and its form is shorter
-- than 2^64 / 7 bytes.
pub fetch_val-encoding :
    (max_depth : ℕ) (v : Value) (rest : Bytes)
    → IsWire v
    → depth v ≤ max_depth
    → 7 * length (encoding v) < 2 ^ 64
    → fetch_val max_depth (encoding v ++ rest) ≡ ok (v, rest)
unfolding fetch_val complete resume
fetch_val-encoding max_depth v rest w d l =
    let spare : ℕ = suc (length (encoding v ++ rest)) - reads v 0 in
    let enough : suc (length (encoding v ++ rest)) ≡ reads v spare =
      omega (lengths, reads_add v spare, reads-le v) in
    ap (λ n. parse max_depth n (encoding v ++ rest) []) enough
    ∙ read_value max_depth v w l spare rest [] (omega arith)

-- Every value that the format carries, 128 containers deep at most, is encoded, and what `encode`
-- returns decodes to it: `encode` and `decode` end without an error, and are a round trip.
pub decode-encode :
    (v : Value)
    → IsWire v
    → depth v ≤ 128
    → 7 * length (encoding v) < 2 ^ 64
    → (block : Bytes) × (encode v ≡ some block) × (decode block ≡ ok v)
unfolding decode
decode-encode v w d l =
    let read : fetch_val 128 (encoding v) ≡ ok (v, []) =
      rw append-nil at (fetch_val-encoding 128 v [] w d l) in
    (encoding v, encode-encoding v (omega arith), rw read)
