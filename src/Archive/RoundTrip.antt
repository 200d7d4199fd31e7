-- ===== src/Archive/RoundTrip.antt =====
-- from_ustar reads the archives that the format's writer makes.
use genvm_executor.Base.{
  ℕ, zero, suc, ◌+◌, ◌-◌, ◌*◌, ◌%◌, ◌^◌, ◌≤◌, ◌<◌, ◌≡◌, refl, ap, sym, ◌∙◌, true, false, ◌&&◌, none,
  List, [], ◌∷◌, ◌++◌, arith, ltb, le→ltb, leb, ◌==◌, length, length-append, length-drop, take,
  drop, take-append, get_or,
}
use genvm_executor.Fees.Allocation.{bytes_eq}
use genvm_executor.Calldata.Text.{is_utf8}
use genvm_executor.Archive.Ustar.{
  Bytes, parsed, Entries, find_entry, map_try_insert, trim_zeroes, all_zero, field, signature,
  is_file_or_directory, ends_with_slash, octal, stop, on, add_file, name_of, round, blocks,
  from_ustar,
}
use genvm_executor.Storage.Buffers.{get_or-drop}
use genvm_executor.Archive.Extraction.{drop_nil}
use genvm_executor.Archive.Writer.{
  Attributes, zeros, digits, filled, rights, owners, header_with, checksum, header_of, filling, tar,
  length-zeros, length-digits, length-filled, length-owners, drop_past, take_first, AreNonzero,
  AreNonzero-digits, trim_zeroes-filled, octal-digits,
}

-- A file that the writer can store: a name of 1 to 99 bytes of UTF-8, none of them zero, that does not
-- end with a slash, and contents whose size 11 octal digits can write.
abbrev pub IsStorable : Bytes → Bytes → Type 0
IsStorable name contents =
    (0 < length name)
    × (length name < 100)
    × AreNonzero name
    × (is_utf8 name ≡ true)
    × (ends_with_slash name ≡ false)
    × (length contents < 8 ^ 11)

-- Files with different names, and none of those in `res`.
abbrev pub AreStorable : Entries → Entries → Type 0
AreStorable res [] = Unit {0}
AreStorable res ((name, contents) ∷ files) =
    IsStorable name contents
    × (find_entry res name ≡ none)
    × AreStorable ((name, contents) ∷ res) files

-- The files on top of those in `res`, the last one first.
abbrev pub onto : Entries → Entries → Entries
onto res [] = res
onto res (file ∷ files) = onto (file ∷ res) files

-- The files without their attributes.
abbrev pub plain_of : List (Attributes × (Bytes × Bytes)) → Entries
plain_of [] = []
plain_of ((attributes, file) ∷ files) = file ∷ plain_of files

module _ (attributes : Attributes) (name : Bytes) (size : ℕ) (check : Bytes)
    (fits : length name < 100) (eight : length check ≡ 8) where
  abbrev header : Bytes
  header = header_with attributes name size check

  abbrev a : Bytes
  a = filled 100 name

  abbrev b : Bytes
  b = rights attributes

  abbrev c : Bytes
  c = filled 12 (digits 11 size)

  abbrev d : Bytes
  d = filled 12 (digits 11 attributes.mtime) ++ check

  abbrev w : Bytes
  w = owners attributes

  abbrev e : Bytes
  e = (48 ∷ zeros 100) ++ (signature ++ (w ++ (zeros 155 ++ zeros 12)))

  length-a : length a ≡ 100
  length-a = length-filled 100 name (omega (arith, fits))

  length-c : length c ≡ 12
  length-c = length-filled 12 (digits 11 size) (omega (arith, length-digits 11 size))

  length-d : length d ≡ 20
  length-d =
      let stamp = digits 11 attributes.mtime in
      omega (
        arith,
        length-append (filled 12 stamp) check,
        length-filled 12 stamp (omega (arith, length-digits 11 attributes.mtime)),
        eight,
      )

  length-header : length header ≡ 512
  unfolding header_with
  length-header = omega (
    arith,
    length-append a (b ++ (c ++ (d ++ e))),
    length-append c (d ++ e),
    length-append d e,
    length-append w (zeros 155 ++ zeros 12),
    length-a,
    length-c,
    length-d,
    length-owners attributes,
  )

  field_name : field 0 100 header ≡ a
  unfolding header_with
  field_name = take_first a _ 100 length-a

  field_size : field 124 136 header ≡ c
  unfolding header_with
  field_size =
      ap (take 12) (drop_past a (b ++ (c ++ (d ++ e))) 100 24 length-a)
      ∙ take_first c (d ++ e) 12 length-c

  -- Past the checksum.
  past_check : (n : ℕ) → drop (100 + (24 + (12 + (20 + n)))) header ≡ drop n e
  unfolding header_with
  past_check n =
      drop_past a (b ++ (c ++ (d ++ e))) 100 (24 + (12 + (20 + n))) length-a
      ∙ drop_past b (c ++ (d ++ e)) 24 (12 + (20 + n)) refl
      ∙ drop_past c (d ++ e) 12 (20 + n) length-c
      ∙ drop_past d e 20 n length-d

  field-signature : field 257 265 header ≡ signature
  field-signature = ap (take 8) (past_check 101)

  field_prefix : field 345 (345 + 155) header ≡ zeros 155
  field_prefix =
      ap (take 155)
        (past_check 189 ∙ drop_past w (zeros 155 ++ zeros 12) 80 0 (length-owners attributes))

  field_kind : get_or header 156 0 ≡ 48
  field_kind = sym (get_or-drop 156 header 0) ∙ ap (λ xs. get_or xs 0 0) (past_check 0)

  name_of-header : AreNonzero name → name_of header ≡ name
  unfolding name_of
  name_of-header nonzero =
      rw (field_prefix, field_name, trim_zeroes-filled 155 [] tt (omega arith))
        (trim_zeroes-filled 100 name nonzero fits)

  size_of_header : size < 8 ^ 11 → octal (trim_zeroes (field 124 136 header)) 0 ≡ parsed size
  size_of_header small =
      ap (λ f. octal (trim_zeroes f) 0) field_size
      ∙ ap (λ f. octal f 0)
          (trim_zeroes-filled 12 (digits 11 size) (AreNonzero-digits 11 size)
            (omega (arith, length-digits 11 size)))
      ∙ octal-digits 11 size (omega (arith, small)) (omega (arith, small))

not_all_zero :
    (attributes : Attributes) (name : Bytes) (size : ℕ) (check rest : Bytes)
    → 0 < length name
    → AreNonzero name
    → all_zero (take 1024 (header_with attributes name size check ++ rest)) ≡ false
unfolding header_with all_zero
not_all_zero attributes [] size check rest some_name nonzero = absurd (omega (arith, some_name))
not_all_zero attributes (b ∷ name) size check rest some_name nonzero = rw nonzero.0 refl

-- A round at a file's header.
round_lem :
    (whole : Bytes) (begin : ℕ) (res : Entries) (header name : Bytes) (size : ℕ)
    → take 512 (drop begin whole) ≡ header
    → all_zero (take 1024 (drop begin whole)) ≡ false
    → field 257 265 header ≡ signature
    → get_or header 156 0 ≡ 48
    → name_of header ≡ name
    → is_utf8 name ≡ true
    → ends_with_slash name ≡ false
    → octal (trim_zeroes (field 124 136 header)) 0 ≡ parsed size
    → round whole begin res ≡ add_file whole begin name res size
unfolding round is_file_or_directory bytes_eq
round_lem whole begin res header name size block more sig kind named utf8 file octal_size =
    rw (more, block, sig, kind, named, utf8, file, octal_size) refl

within : (a b c : ℕ) → a < b → a ≤ c → ltb a b && leb a c ≡ true
within a b c h k = ground arith

insert_lem :
    (res : Entries) (name contents : Bytes)
    → find_entry res name ≡ none
    → map_try_insert res name contents ≡ parsed ((name, contents) ∷ res)
unfolding map_try_insert
insert_lem res name contents fresh = rw (fresh, map_try_insert) refl

add_file_lem :
    (whole : Bytes) (begin : ℕ) (name : Bytes) (res : Entries) (header contents rest : Bytes)
    → drop begin whole ≡ header ++ (contents ++ rest)
    → length header ≡ 512
    → length contents < 8 ^ 11
    → begin % 512 ≡ 0
    → find_entry res name ≡ none
    → add_file whole begin name res (length contents)
      ≡ parsed
          (on (begin + 512 + length contents + filling (length contents)) ((name, contents) ∷ res))
unfolding add_file
add_file_lem whole begin name res header contents rest here size small aligned fresh =
    let past : drop 512 (drop begin whole) ≡ contents ++ rest =
      ap (drop 512) here ∙ drop_past header (contents ++ rest) 512 0 size in
    let text : take (length contents) (drop 512 (drop begin whole)) ≡ contents =
      ap (take (length contents)) past ∙ take-append contents rest in
    let left : length (drop begin whole) ≡ 512 + length contents + length rest =
      ap length here
      ∙ omega (arith, length-append header (contents ++ rest), length-append contents rest, size) in
    let inside : ltb (512 + length contents) (2 ^ 64)
          && leb (512 + length contents) (length (drop begin whole))
        ≡ true =
      within (512 + length contents) (2 ^ 64) (length (drop begin whole)) (omega (arith, small))
        (omega (arith, left)) in
    let next : (512 - (begin + 512 + length contents) % 512) % 512 ≡ filling (length contents) =
      omega (arith, aligned) in
    rw (inside, text, insert_lem res name contents fresh, next) refl

within_right : (a c : ℕ) → a ≤ c → leb a c ≡ true
within_right a c h = ground arith

stop_lem :
    (whole : Bytes) (begin : ℕ) (res : Entries)
    → drop begin whole ≡ zeros 1024
    → round whole begin res ≡ parsed stop
unfolding round all_zero
stop_lem whole begin res here = rw here refl

drop_sum : (m n : ℕ) (xs : Bytes) → drop (m + n) xs ≡ drop n (drop m xs)
drop_sum zero n xs = ap (λ k. drop k xs) (omega arith)
drop_sum (suc m) n [] = drop_nil (suc m + n) ∙ sym (drop_nil n)
drop_sum (suc m) n (x ∷ xs) =
    ap (λ k. drop k (x ∷ xs)) (let e : suc m + n ≡ suc (m + n) = omega arith in e) ∙ drop_sum m n xs

length-tar :
    (files : List (Attributes × (Bytes × Bytes))) (res : Entries)
    → AreStorable res (plain_of files)
    → (length (tar files) % 512 ≡ 0) × (1024 ≤ length (tar files))
length-tar [] res h = (refl, omega arith)
length-tar ((attributes, (name, contents)) ∷ files) res h =
    let rest = length-tar files ((name, contents) ∷ res) h.2 in
    let size = length contents in
    let header = header_of attributes name size in
    let whole : length (tar ((attributes, (name, contents)) ∷ files))
        ≡ 512 + (size + (filling size + length (tar files))) =
      omega (
        arith,
        length-header attributes name size (checksum attributes name size) h.0.1 refl,
        length-append header (contents ++ (zeros (filling size) ++ tar files)),
        length-append contents (zeros (filling size) ++ tar files),
        length-append (zeros (filling size)) (tar files),
        length-zeros (filling size),
      ) in
    (omega (arith, whole, rest.0), omega (arith, whole, rest.1))

blocks_lem :
    (files : List (Attributes × (Bytes × Bytes))) (res : Entries) (fuel : ℕ) (whole : Bytes)
    (begin : ℕ)
    → AreStorable res (plain_of files)
    → drop begin whole ≡ tar files
    → begin % 512 ≡ 0
    → length whole < begin + fuel
    → blocks fuel whole begin res ≡ parsed (onto res (plain_of files))
unfolding blocks
blocks_lem files res zero whole begin h here aligned enough =
    let some_left = length-tar files res h in
    let left = ap length here in
    absurd (omega (arith, length-drop begin whole, left, some_left, enough))
blocks_lem [] res (suc fuel) whole begin h here aligned enough =
    let left = ap length here in
    let room : leb (begin + 2 * 512) (length whole) ≡ true =
      within_right (begin + 1024) (length whole) (omega (arith, length-drop begin whole, left)) in
    rw (room, stop_lem whole begin res here) refl
blocks_lem ((attributes, (name, contents)) ∷ files) res (suc fuel) whole begin h here aligned
      enough =
    let size = length contents in
    let check = checksum attributes name size in
    let header = header_with attributes name size check in
    let rest = zeros (filling size) ++ tar files in
    let some_left = length-tar ((attributes, (name, contents)) ∷ files) res h in
    let left = ap length here in
    let room : leb (begin + 2 * 512) (length whole) ≡ true =
      within_right (begin + 1024) (length whole)
        (omega (arith, length-drop begin whole, left, some_left)) in
    let step : round whole begin res
        ≡ parsed (on (begin + 512 + size + filling size) ((name, contents) ∷ res)) =
      round_lem whole begin res header name size
        (ap (take 512) here
          ∙ take_first header (contents ++ rest) 512
              (length-header attributes name size check h.0.1 refl))
        (ap (λ d. all_zero (take 1024 d)) here
          ∙ not_all_zero attributes name size check (contents ++ rest) h.0.0 h.0.2)
        (field-signature attributes name size check h.0.1 refl)
        (field_kind attributes name size check h.0.1 refl)
        (name_of-header attributes name size check h.0.1 refl h.0.2) h.0.3 h.0.4
        (size_of_header attributes name size check h.0.1 refl h.0.5)
      ∙ add_file_lem whole begin name res header contents rest here
          (length-header attributes name size check h.0.1 refl) h.0.5 aligned h.1 in
    let next : drop (begin + 512 + size + filling size) whole ≡ tar files =
      ap (λ k. drop k whole)
        (let e : begin + 512 + size + filling size ≡ begin + (512 + (size + (filling size + 0))) =
            omega arith in
          e)
      ∙ drop_sum begin (512 + (size + (filling size + 0))) whole
      ∙ ap (drop (512 + (size + (filling size + 0)))) here
      ∙ drop_past header (contents ++ rest) 512 (size + (filling size + 0))
          (length-header attributes name size check h.0.1 refl)
      ∙ drop_past contents rest size (filling size + 0) refl
      ∙ drop_past (zeros (filling size)) (tar files) (filling size) 0
          (length-zeros (filling size)) in
    rw (room, step)
      (blocks_lem files ((name, contents) ∷ res) fuel whole (begin + 512 + size + filling size) h.2
        next (omega (arith, aligned)) (omega (arith, enough)))

-- from_ustar takes the files out of the archive that the format's writer makes of them, whatever their
-- modes, owners and times are, if their names are different and of 1 to 99 bytes of UTF-8, none of which
-- is zero and the last of which is no slash, and their sizes below 8 ^ 11. The total size is the length
-- of the archive, as a u32.
pub from_ustar-tar :
    (files : List (Attributes × (Bytes × Bytes)))
    → AreStorable [] (plain_of files)
    → from_ustar (tar files)
      ≡ parsed
          (record { data_of = onto [] (plain_of files); total_size = length (tar files) % 2 ^ 32 })
unfolding from_ustar
from_ustar-tar files h =
    let size = length-tar files [] h in
    let long : ltb (length (tar files)) (512 * 2) ≡ false =
      le→ltb (length (tar files)) 1024 size.1 in
    let whole : length (tar files) % 512 == 0 ≡ true = rw size.0 refl in
    rw
      (
        long,
        whole,
        blocks_lem files [] (suc (length (tar files))) (tar files) 0 h refl refl (omega arith),
      )
      refl
