-- ===== src/Calldata/Format.antt =====
-- The calldata format as a description independent of the code: the bytes of a number, and of a
-- value by recursion on it.
use genvm_executor.Base.{
  ℕ, zero, suc, ◌+◌, ◌*◌, ◌/◌, ◌%◌, ◌≤◌, ◌<◌, ◌≡◌, refl, [], ◌∷◌, ◌++◌, append_assoc, arith, length,
  ltb, if◌then◌else◌,
}
use genvm_executor.Calldata.Value.{
  Bytes, Value, pos, negsuc, Items, Fields, nil, cons, end, field, count, count_fields,
}

uleb_digits : ℕ → ℕ → Bytes
uleb_digits zero n = n ∷ []
uleb_digits (suc fuel) n =
    let rest = uleb_digits fuel (n / 128) in if ltb n 128 then n ∷ [] else (n % 128 + 128) ∷ rest

-- The shortest unsigned LEB128 form of `n`.
unfoldable pub uleb : ℕ → Bytes
unfolding uleb_digits
uleb n = uleb_digits n n

uleb_digits_fuel : (f g n : ℕ) → n ≤ f → n ≤ g → uleb_digits f n ≡ uleb_digits g n
unfolding uleb_digits
uleb_digits_fuel zero zero n h k = refl
uleb_digits_fuel zero (suc g) n h k = ground arith
uleb_digits_fuel (suc f) zero n h k = ground arith
uleb_digits_fuel (suc f) (suc g) n h k = ground (arith, uleb_digits_fuel f g (n / 128))

pub uleb_small : (n : ℕ) → n < 128 → uleb n ≡ n ∷ []
unfolding uleb
uleb_small zero h = refl
uleb_small (suc n) h = ground arith

pub uleb_large : (n : ℕ) → 128 ≤ n → uleb n ≡ (n % 128 + 128) ∷ uleb (n / 128)
unfolding uleb
uleb_large zero h = absurd (omega arith)
uleb_large (suc n) h = ground (arith, uleb_digits_fuel n (suc n / 128) (suc n / 128))

pub length-uleb_pos : (n : ℕ) → 0 < length (uleb n)
unfolding uleb
length-uleb_pos zero = omega arith
length-uleb_pos (suc n) = ground arith

-- A header: a number over its tag.
abbrev pub header : ℕ → ℕ → Bytes
header tag n = uleb (n * 8 + tag)

unfoldable mutual
  pub encoding : Value → Bytes
  encoding Value.null = 0 ∷ []
  encoding (Value.bool v) = (if v then 16 else 8) ∷ []
  encoding (Value.address a) = 24 ∷ a
  encoding (Value.number (pos n)) = header 1 n
  encoding (Value.number (negsuc n)) = header 2 n
  encoding (Value.bytes b) = header 3 (length b) ++ b
  encoding (Value.str s) = header 4 (length s) ++ s
  encoding (Value.array xs) = header 5 (count xs) ++ encoding_items xs
  encoding (Value.map m) = header 6 (count_fields m) ++ encoding_fields m

  pub encoding_items : Items → Bytes
  encoding_items nil = []
  encoding_items (cons x xs) = encoding x ++ encoding_items xs

  pub encoding_fields : Fields → Bytes
  encoding_fields end = []
  encoding_fields (field k v m) = uleb (length k) ++ (k ++ (encoding v ++ encoding_fields m))

pub encoding_fields-field :
    (k : Bytes) (v : Value) (m : Fields)
    → encoding_fields (field k v m) ≡ uleb (length k) ++ (k ++ (encoding v ++ encoding_fields m))
unfolding encoding
encoding_fields-field k v m = refl

pub encoding_items-cons :
    (x : Value) (xs : Items) (rest : Bytes)
    → encoding_items (cons x xs) ++ rest ≡ encoding x ++ (encoding_items xs ++ rest)
unfolding encoding
encoding_items-cons x xs rest = append_assoc (encoding x) (encoding_items xs) rest
