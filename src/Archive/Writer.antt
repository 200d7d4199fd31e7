-- ===== src/Archive/Writer.antt =====
-- A writer of tar archives, after the ustar format (IEEE Std 1003.1, pax, "ustar Interchange Format"),
-- for plain files whose names fit the name field; and the places of its fields.
use genvm_executor.Base.{
  ℕ, zero, suc, ◌+◌, ◌-◌, ◌*◌, ◌/◌, ◌%◌, ◌^◌, ◌≤◌, ◌<◌, ◌≡◌, refl, ap, sym, ◌∙◌, true, false, ◌&&◌,
  Bool-cases, inl, inr, List, [], ◌∷◌, ◌++◌, arith, ltb, ltb→le, leb, ◌==◌, length, length-append,
  take, drop, take-append, length-take, get_or, sum,
}
use genvm_executor.Storage.Buffers.{get_or-append}
use genvm_executor.Archive.Ustar.{Bytes, parsed, ◌>>=◌, signature, trim_index, trim_zeroes, octal}

abbrev pub zeros : ℕ → Bytes
zeros zero = []
zeros (suc n) = 0 ∷ zeros n

-- The `n` octal digits of a number, the highest first.
abbrev pub digits : ℕ → ℕ → Bytes
digits zero size = []
digits (suc n) size = digits n (size / 8) ++ (48 + size % 8) ∷ []

abbrev pub filled : ℕ → Bytes → Bytes
filled n bytes = bytes ++ zeros (n - length bytes)

-- What an archive keeps of a file besides its name and its contents.
pub record Attributes : Type 0 where
  pub mode : ℕ
  pub uid : ℕ
  pub gid : ℕ
  pub mtime : ℕ
  pub uname : Bytes
  pub gname : Bytes

-- Mode, owner and group by number.
abbrev pub rights : Attributes → Bytes
rights attributes =
    filled 8 (digits 7 attributes.mode)
    ++ (filled 8 (digits 7 attributes.uid) ++ filled 8 (digits 7 attributes.gid))

-- Owner and group by name; the numbers of a device.
abbrev pub owners : Attributes → Bytes
owners attributes =
    filled 32 (take 31 attributes.uname)
    ++ (filled 32 (take 31 attributes.gname) ++ (filled 8 (digits 7 0) ++ filled 8 (digits 7 0)))

-- Name; mode, owner and group; size; time and checksum; kind; link; signature; owners and device;
-- prefix; the rest of the block.
unfoldable pub header_with : Attributes → Bytes → ℕ → Bytes → Bytes
header_with attributes name size check =
    filled 100 name
    ++ (rights attributes
        ++ (filled 12 (digits 11 size)
            ++ ((filled 12 (digits 11 attributes.mtime) ++ check)
                ++ ((48 ∷ zeros 100)
                    ++ (signature ++ (owners attributes ++ (zeros 155 ++ zeros 12)))))))

abbrev spaces : Bytes
spaces = 32 ∷ 32 ∷ 32 ∷ 32 ∷ 32 ∷ 32 ∷ 32 ∷ 32 ∷ []

-- The sum of the header's bytes, spaces in place of the checksum.
abbrev pub checksum : Attributes → Bytes → ℕ → Bytes
checksum attributes name size =
    digits 6 (sum (header_with attributes name size spaces)) ++ (0 ∷ 32 ∷ [])

abbrev pub header_of : Attributes → Bytes → ℕ → Bytes
header_of attributes name size = header_with attributes name size (checksum attributes name size)

-- How many zeros fill up a file's last block.
abbrev pub filling : ℕ → ℕ
filling size = (512 - size % 512) % 512

abbrev pub tar : List (Attributes × (Bytes × Bytes)) → Bytes
tar [] = zeros 1024
tar ((attributes, (name, contents)) ∷ files) =
    header_of attributes name (length contents)
    ++ (contents ++ (zeros (filling (length contents)) ++ tar files))

pub length-zeros : (n : ℕ) → length (zeros n) ≡ n
length-zeros zero = refl
length-zeros (suc n) = ap suc (length-zeros n)

pub length-digits : (n size : ℕ) → length (digits n size) ≡ n
length-digits zero size = refl
length-digits (suc n) size =
    omega (
      arith,
      length-append (digits n (size / 8)) ((48 + size % 8) ∷ []),
      length-digits n (size / 8),
    )

pub length-filled : (n : ℕ) (bytes : Bytes) → length bytes ≤ n → length (filled n bytes) ≡ n
length-filled n bytes h =
    omega (arith, length-append bytes (zeros (n - length bytes)), length-zeros (n - length bytes))

pub length-owners : (attributes : Attributes) → length (owners attributes) ≡ 80
length-owners attributes =
    let user = filled 32 (take 31 attributes.uname) in
    let group = filled 32 (take 31 attributes.gname) in
    let device = filled 8 (digits 7 0) ++ filled 8 (digits 7 0) in
    omega (
      arith,
      length-append user (group ++ device),
      length-append group device,
      length-filled 32 (take 31 attributes.uname) (omega (arith, length-take 31 attributes.uname)),
      length-filled 32 (take 31 attributes.gname) (omega (arith, length-take 31 attributes.gname)),
    )

pub drop_past : (a b : Bytes) (m n : ℕ) → length a ≡ m → drop (m + n) (a ++ b) ≡ drop n b
drop_past [] b m n h = ap (λ k. drop k b) (omega (arith, h))
drop_past (x ∷ a) b zero n h = absurd (omega (arith, h))
drop_past (x ∷ a) b (suc m) n h =
    ap (λ k. drop k (x ∷ (a ++ b))) (let e : suc m + n ≡ suc (m + n) = omega arith in e)
    ∙ drop_past a b m n (omega (arith, h))

pub take_first : (a b : Bytes) (m : ℕ) → length a ≡ m → take m (a ++ b) ≡ a
take_first a b m h = ap (λ k. take k (a ++ b)) (sym h) ∙ take-append a b

get_or-zeros : (n i : ℕ) → get_or (zeros n) i 0 ≡ 0
get_or-zeros zero i = refl
get_or-zeros (suc n) zero = refl
get_or-zeros (suc n) (suc i) = get_or-zeros n i

-- No byte is zero.
abbrev pub AreNonzero : Bytes → Type 0
AreNonzero [] = Unit {0}
AreNonzero (b ∷ bytes) = ((b == 0) ≡ false) × AreNonzero bytes

AreNonzero-get_or :
    (bytes : Bytes) (i : ℕ) → i < length bytes → AreNonzero bytes → (get_or bytes i 0 == 0) ≡ false
AreNonzero-get_or [] i l h = absurd (omega arith)
AreNonzero-get_or (b ∷ bytes) zero l h = h.0
AreNonzero-get_or (b ∷ bytes) (suc i) l h = AreNonzero-get_or bytes i (omega (arith, l)) h.1

AreNonzero-append : (xs ys : Bytes) → AreNonzero xs → AreNonzero ys → AreNonzero (xs ++ ys)
AreNonzero-append [] ys h k = k
AreNonzero-append (x ∷ xs) ys h k = (h.0, AreNonzero-append xs ys h.1 k)

pub AreNonzero-digits : (n size : ℕ) → AreNonzero (digits n size)
AreNonzero-digits zero size = tt
AreNonzero-digits (suc n) size =
    AreNonzero-append (digits n (size / 8)) ((48 + size % 8) ∷ []) (AreNonzero-digits n (size / 8))
      (ground arith, tt)

trim_index_lem :
    (bytes : Bytes) (n idx : ℕ)
    → AreNonzero bytes
    → length bytes ≤ idx
    → trim_index (bytes ++ zeros n) idx ≡ length bytes
unfolding trim_index
trim_index_lem bytes n zero h l = omega (arith, l)
trim_index_lem bytes n (suc idx) h l = elim (Bool-cases (ltb idx (length bytes))) [
  | inl inside ↦
      let e = get_or-append bytes (zeros n) idx in
      let nonzero : (get_or (bytes ++ zeros n) idx 0 == 0) ≡ false =
        rw e (rw inside (AreNonzero-get_or bytes idx (ground arith) h)) in
      rw nonzero (ground arith)
  | inr outside ↦
      let e = get_or-append bytes (zeros n) idx in
      let z : (get_or (bytes ++ zeros n) idx 0 == 0) ≡ true =
        rw e (rw outside (rw (get_or-zeros n (idx - length bytes)) refl)) in
      rw z (trim_index_lem bytes n idx h (ltb→le idx (length bytes) outside))
]

pub trim_zeroes-filled :
    (n : ℕ) (bytes : Bytes)
    → AreNonzero bytes
    → length bytes < n
    → trim_zeroes (filled n bytes) ≡ bytes
unfolding trim_zeroes
trim_zeroes-filled n bytes h l =
    let size = length-filled n bytes (omega (arith, l)) in
    ap (λ k. take k (filled n bytes))
      (trim_index_lem bytes (n - length bytes) (length (filled n bytes) - 1) h
        (omega (arith, size, l)))
    ∙ take-append bytes (zeros (n - length bytes))

octal-append : (xs ys : Bytes) (acc : ℕ) → octal (xs ++ ys) acc ≡ (octal xs acc >>= octal ys)
unfolding octal
octal-append [] ys acc = refl
octal-append (c ∷ xs) ys acc = elim (Bool-cases (leb 48 c && leb c 55)) [
  | inr other ↦ rw other refl
  | inl digit ↦ elim (Bool-cases (ltb (acc * 8) (2 ^ 64) && ltb (acc * 8 + (c - 48)) (2 ^ 64))) [
    | inr large ↦ rw (digit, large) refl
    | inl small ↦ rw (digit, small) (octal-append xs ys (acc * 8 + (c - 48)))
  ]
]

-- The number of sizes that `n` digits can write.
abbrev pub sizes : ℕ → ℕ
sizes zero = 1
sizes (suc n) = sizes n * 8

last_digit :
    (d acc : ℕ) → d < 8 → acc * 8 + d < 2 ^ 64 → octal ((48 + d) ∷ []) acc ≡ parsed (acc * 8 + d)
unfolding octal
last_digit d acc h l =
    let digit : leb 48 (48 + d) && leb (48 + d) 55 ≡ true = ground arith in
    let value : acc * 8 + (48 + d - 48) ≡ acc * 8 + d = omega arith in
    let small : ltb (acc * 8) (2 ^ 64) && ltb (acc * 8 + d) (2 ^ 64) ≡ true = ground arith in
    rw (digit, value, small) refl

pub octal-digits :
    (n size : ℕ) → size < sizes n → size < 2 ^ 64 → octal (digits n size) 0 ≡ parsed size
unfolding octal
octal-digits zero size h l = ap parsed (omega arith)
octal-digits (suc n) size h l =
    octal-append (digits n (size / 8)) ((48 + size % 8) ∷ []) 0
    ∙ rw (octal-digits n (size / 8) (omega (arith, h)) (omega (arith, l))) (
        last_digit (size % 8) (size / 8) (omega arith) (omega (arith, l)) ∙ ap parsed (omega arith))
