-- ===== src/Archive/Extraction.antt =====
-- What `from_ustar` takes out of an archive, and that it ends.
use genvm_executor.Base.{
  ℕ, zero, suc, ◌+◌, ◌-◌, ◌*◌, ◌%◌, ◌^◌, ◌≤◌, ◌<◌, ◌≡◌, refl, ap, sym, ◌∙◌, true, false, ◌&&◌,
  Bool-cases, Option-cases, inl, inr, none, [], ◌∷◌, arith, ltb, leb, ◌==◌, ==→eq, length,
  length-take, length-drop, take, drop, get_or,
}
use genvm_executor.Fees.Allocation.{bytes_eq}
use genvm_executor.Calldata.Text.{is_utf8}
use genvm_executor.Archive.Ustar.{
  Bytes, Parsed, parsed, failed, ran_out, ◌>>=◌, Entries, Archive, find_entry, map_try_insert,
  trim_zeroes, all_zero, field, signature, is_file_or_directory, ends_with_slash, octal, Round,
  stop, on, add_file, name_of, round, blocks, from_ustar,
}

-- `bytes` stands at `at` in `whole`.
abbrev StandsAt : Bytes → Bytes → ℕ → Type 0
StandsAt whole bytes at =
    (at + length bytes ≤ length whole) × (bytes ≡ take (length bytes) (drop at whole))

-- The files of an archive, the last one first, that end before `limit`: names of their own in UTF-8
-- that are no directory's, and contents that stand one after the other in the archive, a header's
-- block before each.
abbrev AreFiles : Bytes → ℕ → Entries → Type 0
AreFiles whole limit [] = Unit {0}
AreFiles whole limit ((name, contents) ∷ res) =
    (is_utf8 name ≡ true)
    × (ends_with_slash name ≡ false)
    × (find_entry res name ≡ none)
    × ((at : ℕ) × StandsAt whole contents (at + 512)
        × (at + 512 + length contents ≤ limit)
        × AreFiles whole at res)

AreFiles-mono :
    (whole : Bytes) (m n : ℕ) (res : Entries) → m ≤ n → AreFiles whole m res → AreFiles whole n res
AreFiles-mono whole m n [] l h = tt
AreFiles-mono whole m n ((name, contents) ∷ res) l h =
    (h.0, h.1, h.2, (h.3.0, h.3.1, omega (arith, l, h.3.2), h.3.3))

-- A call that ends, with a result of which `P` holds if it is one.
abbrev Ends : {A : Type 0} → (A → Type 0) → Parsed A → Type 0
Ends P (parsed a) = P a
Ends P (failed e) = Unit {0}
Ends P ran_out = ⊥

Ends->>= :
    {A B : Type 0} (Before : A → Type 0) (After : B → Type 0) (call : Parsed A)
    (rest : A → Parsed B)
    → Ends Before call
    → ((v : A) → Before v → Ends After (rest v))
    → Ends After (call >>= rest)
Ends->>= P Q (parsed a) f h next = next a h
Ends->>= P Q (failed e) f h next = tt
Ends->>= P Q ran_out f h next = absurd h

abbrev Any : {A : Type 0} → A → Type 0
Any a = Unit {0}

octal-Ends : (digits : Bytes) (file_size : ℕ) → Ends Any (octal digits file_size)
unfolding octal
octal-Ends [] file_size = tt
octal-Ends (c ∷ digits) file_size = elim (Bool-cases (leb 48 c && leb c 55)) [
  | inr other ↦ rw (other, Ends) tt
  | inl digit ↦
      elim (Bool-cases (ltb (file_size * 8) (2 ^ 64) && ltb (file_size * 8 + (c - 48)) (2 ^ 64))) [
        | inr large ↦ rw (digit, large, Ends) tt
        | inl small ↦ rw (digit, small) (octal-Ends digits (file_size * 8 + (c - 48)))
      ]
]

pub drop_nil : (n : ℕ) → drop {A = ℕ} n [] ≡ []
drop_nil zero = refl
drop_nil (suc n) = refl

-- A round that goes on has passed a block, stands at a block's start, and keeps the files.
abbrev Goes : Bytes → ℕ → Round → Type 0
Goes whole begin stop = Unit {0}
Goes whole begin (on begin' res) =
    (begin + 512 ≤ begin')
    × (begin' ≤ length whole)
    × (begin' % 512 ≡ 0)
    × AreFiles whole begin' res

map_try_insert-Ends :
    (res : Entries) (key value : Bytes)
    → Ends
        (λ res'. (find_entry res key ≡ none) × (res' ≡ (key, value) ∷ res))
        (map_try_insert res key value)
unfolding map_try_insert
map_try_insert-Ends res key value = elim (Option-cases (find_entry res key)) [
  | inl fresh ↦ rw (fresh, Ends) (fresh, refl)
  | inr (v, taken) ↦ rw (taken, Ends) tt
]

take-drop-drop : (n m k : ℕ) (xs : Bytes) → take n (drop m (drop k xs)) ≡ take n (drop (k + m) xs)
take-drop-drop n m zero xs = ap (λ j. take n (drop j xs)) (omega arith)
take-drop-drop n m (suc k) [] = ap (take n) (drop_nil m ∙ sym (drop_nil (suc k + m)))
take-drop-drop n m (suc k) (x ∷ xs) =
    take-drop-drop n m k xs
    ∙ ap (λ j. take n (drop j (x ∷ xs))) (let e : suc (k + m) ≡ suc k + m = omega arith in e)

add_file-Ends :
    (whole : Bytes) (begin : ℕ) (name : Bytes) (res : Entries) (file_size : ℕ)
    → length whole % 512 ≡ 0
    → begin ≤ length whole
    → AreFiles whole begin res
    → is_utf8 name ≡ true
    → ends_with_slash name ≡ false
    → Ends (Goes whole begin) (add_file whole begin name res file_size)
unfolding add_file
add_file-Ends whole begin name res file_size aligned within files utf8 file =
    elim (Bool-cases
      (ltb (512 + file_size) (2 ^ 64) && leb (512 + file_size) (length (drop begin whole)))) [
        | inr outside ↦ rw (outside, Ends) tt
        | inl inside ↦
            let fits : 512 + file_size ≤ length (drop begin whole) = ground arith in
            let size = length-drop begin whole in
            let contents = take file_size (drop 512 (drop begin whole)) in
            let n : length contents ≡ file_size = omega (
              arith,
              fits,
              length-take file_size (drop 512 (drop begin whole)),
              length-drop 512 (drop begin whole),
            ) in
            let stands : StandsAt whole contents (begin + 512) = (
              omega (arith, n, size, fits),
              take-drop-drop file_size 512 begin whole
                  ∙ ap (λ k. take k (drop (begin + 512) whole)) (sym n),
            ) in
            rw inside (
              Ends->>= _ _ (map_try_insert res name contents) _
                (map_try_insert-Ends res name contents)
                (λ res' (fresh, e). rw e (
                  omega arith,
                  omega (arith, size, fits),
                  omega arith,
                  (utf8, file, fresh, (begin, stands, omega (arith, n), files)),
                )))
      ]

round-Ends :
    (whole : Bytes) (begin : ℕ) (res : Entries)
    → length whole % 512 ≡ 0
    → begin % 512 ≡ 0
    → begin + 1024 ≤ length whole
    → AreFiles whole begin res
    → Ends (Goes whole begin) (round whole begin res)
unfolding round
round-Ends whole begin res aligned here within files =
    let header = take 512 (drop begin whole) in
    let name = name_of header in
    elim (Bool-cases (all_zero (take (512 * 2) (drop begin whole)))) [
      | inl over ↦ rw (over, Ends) tt
      | inr more ↦ elim (Bool-cases (bytes_eq (field 257 265 header) signature)) [
        | inr other ↦ rw (more, other, Ends) tt
        | inl tar ↦ elim (Bool-cases (is_file_or_directory (get_or header 156 0))) [
          | inr link ↦ rw (more, tar, link, Ends) tt
          | inl allowed ↦ elim (Bool-cases (is_utf8 name)) [
            | inr garbled ↦ rw (more, tar, allowed, garbled, Ends) tt
            | inl utf8 ↦ elim (Bool-cases (ends_with_slash name)) [
              | inl directory ↦
                  rw (more, tar, allowed, utf8, directory)
                    (
                      omega arith,
                      omega arith,
                      omega arith,
                      AreFiles-mono whole begin (begin + 512) res (omega arith) files,
                    )
              | inr file ↦
                  rw (more, tar, allowed, utf8, file)
                    (Ends->>= Any _ (octal (trim_zeroes (field 124 136 header)) 0) _
                      (octal-Ends _ 0)
                      (λ file_size _.
                        add_file-Ends whole begin name res file_size aligned (omega arith) files
                          utf8 file))
            ]
          ]
        ]
      ]
    ]

-- After a round.
after_round :
    (fuel : ℕ) (whole : Bytes) (begin : ℕ) (res : Entries) (r : Parsed Round)
    → AreFiles whole (length whole) res
    → Ends (Goes whole begin) r
    → ((begin' : ℕ) (res' : Entries)
        → Goes whole begin (on begin' res')
        → Ends (AreFiles whole (length whole)) (blocks fuel whole begin' res'))
    → Ends {A = Entries} (AreFiles whole (length whole)) (elim r as (λ k. Parsed Entries) [
      | parsed stop ↦ parsed res
      | parsed (on begin' res') ↦ blocks fuel whole begin' res'
      | failed e ↦ failed e
      | ran_out ↦ ran_out
    ])
after_round fuel whole begin res (parsed stop) files h next = files
after_round fuel whole begin res (parsed (on begin' res')) files h next = next begin' res' h
after_round fuel whole begin res (failed e) files h next = tt
after_round fuel whole begin res ran_out files h next = h

blocks-Ends :
    (fuel : ℕ) (whole : Bytes) (begin : ℕ) (res : Entries)
    → length whole % 512 ≡ 0
    → begin % 512 ≡ 0
    → begin ≤ length whole
    → length whole < begin + fuel
    → AreFiles whole begin res
    → Ends (AreFiles whole (length whole)) (blocks fuel whole begin res)
unfolding blocks
blocks-Ends zero whole begin res aligned here within enough files = absurd (omega arith)
blocks-Ends (suc fuel) whole begin res aligned here within enough files =
    let kept = AreFiles-mono whole begin (length whole) res within files in
    elim (Bool-cases (leb (begin + 2 * 512) (length whole))) [
      | inr over ↦ rw over kept
      | inl more ↦
          let room : begin + 1024 ≤ length whole = ground arith in
          rw more (
            after_round fuel whole begin res (round whole begin res) kept
              (round-Ends whole begin res aligned here room files)
              (λ begin' res' h.
                blocks-Ends fuel whole begin' res' aligned h.2 h.1 (omega (arith, h.0, enough))
                  h.3))
    ]

-- What is promised of an extraction.
unfoldable pub IsExtraction : Bytes → Parsed Archive → Type 0
IsExtraction whole (parsed archive) =
    AreFiles whole (length whole) archive.data_of × (archive.total_size ≡ length whole % 2 ^ 32)
IsExtraction whole (failed e) = Unit {0}
IsExtraction whole ran_out = ⊥

Ends-IsExtraction :
    (whole : Bytes) (r : Parsed Archive)
    → Ends
        (λ archive.
          AreFiles whole (length whole) archive.data_of
          × (archive.total_size ≡ length whole % 2 ^ 32))
        r
    → IsExtraction whole r
unfolding IsExtraction
Ends-IsExtraction whole (parsed archive) h = h
Ends-IsExtraction whole (failed e) h = h
Ends-IsExtraction whole ran_out h = h

-- from_ustar ends on every input. If it does not refuse the input, the files have different names in
-- UTF-8 that do not end with a slash, their contents are parts of the archive that do not overlap, with
-- a block for the header before each, and the size is the archive's.
pub from_ustar-IsExtraction :
    (original_data : Bytes) → IsExtraction original_data (from_ustar original_data)
unfolding from_ustar
from_ustar-IsExtraction original_data =
    Ends-IsExtraction original_data _ (elim (Bool-cases (ltb (length original_data) (512 * 2))) [
      | inl short ↦ rw (short, Ends) tt
      | inr long ↦ elim (Bool-cases (length original_data % 512 == 0)) [
        | inr ragged ↦ rw (long, ragged, Ends) tt
        | inl whole_blocks ↦
            let aligned = ==→eq (length original_data % 512) 0 whole_blocks in
            rw (long, whole_blocks)
              (Ends->>= _ _ (blocks (suc (length original_data)) original_data 0 []) _
                (blocks-Ends (suc (length original_data)) original_data 0 [] aligned (omega arith)
                  (omega arith) (omega arith) tt)
                (λ res files. (files, refl)))
      ]
    ])
