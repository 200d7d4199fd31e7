-- ===== src/Archive/Tests.antt =====
-- Runs of `from_ustar` on small archives, and its theorem at one of them.
use genvm_executor.Base.{
  ℕ, zero, suc, ◌≡◌, refl, [], ◌∷◌, ◌++◌, ◌%◌, ◌^◌, ◌+◌, List, arith, sum, take, length,
}
use genvm_executor.Archive.Ustar.{
  Bytes, parsed, failed, invalid_octal, Parsed, Entries, Archive, signature, map_try_insert,
  find_entry, trim_index, trim_zeroes, all_zero, is_file_or_directory, ends_with_slash, field,
  octal, add_file, name_of, round, blocks, from_ustar,
}
use genvm_executor.Fees.Allocation.{bytes_eq}
use genvm_executor.Calldata.Text.{is_utf8}
use genvm_executor.Archive.Writer.{Attributes, header_with, tar}
use genvm_executor.Archive.RoundTrip.{AreStorable, plain_of, onto, from_ustar-tar}
use genvm_executor.Archive.Extraction.{IsExtraction, from_ustar-IsExtraction}

abbrev repeated : ℕ → ℕ → Bytes
repeated zero b = []
repeated (suc n) b = b ∷ repeated n b

abbrev padded : ℕ → Bytes → Bytes
padded n bytes = take n (bytes ++ repeated n 0)

abbrev header : Bytes → Bytes → Bytes → Bytes
header name size prefix =
    padded 100 name
    ++ repeated 24 0
    ++ padded 12 size
    ++ repeated 20 0
    ++ (48 ∷ repeated 100 0)
    ++ signature
    ++ repeated 80 0
    ++ padded 155 prefix
    ++ repeated 12 0

-- One file with the contents "abc", and two blocks of zeros.
abbrev tar_of : Bytes → Bytes → Bytes → Bytes
tar_of name size prefix =
    header name size prefix ++ padded 512 (97 ∷ 98 ∷ 99 ∷ []) ++ repeated 1024 0

abbrev files_of : Parsed Archive → Parsed Entries
files_of (parsed archive) = parsed archive.data_of
files_of (failed e) = failed e
files_of Parsed.ran_out = Parsed.ran_out

abbrev plain : Bytes
plain = tar_of (b'f' ∷ []) (b'0' ∷ b'3' ∷ []) []

plain_files : files_of (from_ustar plain) ≡ parsed ((b'f' ∷ [], b'a' ∷ b'b' ∷ b'c' ∷ []) ∷ [])
unfolding from_ustar blocks round add_file name_of octal ends_with_slash is_file_or_directory
    all_zero trim_zeroes trim_index map_try_insert find_entry bytes_eq is_utf8
plain_files = refl

bad_size : files_of (from_ustar (tar_of (b'f' ∷ []) (b'9' ∷ []) [])) ≡ failed (invalid_octal b'9')
unfolding from_ustar blocks round add_file name_of octal ends_with_slash is_file_or_directory
    all_zero trim_zeroes trim_index map_try_insert find_entry bytes_eq is_utf8
bad_size = refl

-- A name that fills its field of 100 bytes loses the last one.
full_name :
    files_of (from_ustar (tar_of (repeated 100 b'n') (b'3' ∷ []) []))
    ≡ parsed ((repeated 99 b'n', b'a' ∷ b'b' ∷ b'c' ∷ []) ∷ [])
unfolding from_ustar blocks round add_file name_of octal ends_with_slash is_file_or_directory
    all_zero trim_zeroes trim_index map_try_insert find_entry bytes_eq is_utf8
full_name = refl

-- A prefix is joined to the name with nothing between.
prefixed_name :
    files_of (from_ustar (tar_of (b'f' ∷ []) (b'3' ∷ []) (b'd' ∷ [])))
    ≡ parsed ((b'd' ∷ b'f' ∷ [], b'a' ∷ b'b' ∷ b'c' ∷ []) ∷ [])
unfolding from_ustar blocks round add_file name_of octal ends_with_slash is_file_or_directory
    all_zero trim_zeroes trim_index map_try_insert find_entry bytes_eq is_utf8
prefixed_name = refl

from_ustar-IsExtraction_example : IsExtraction plain (from_ustar plain)
from_ustar-IsExtraction_example = from_ustar-IsExtraction plain

abbrev attributes : Attributes
attributes = record {
  mode = 420;
  uid = 1000;
  gid = 100;
  mtime = 1700000000;
  uname = b'u' ∷ [];
  gname = b'g' ∷ b'r' ∷ [];
}

abbrev two_files : List (Attributes × (Bytes × Bytes))
two_files =
    (attributes, (b'f' ∷ [], 1 ∷ 2 ∷ 3 ∷ []))
    ∷ (record attributes { mode = 493 }, (b'g' ∷ [], []))
    ∷ []

-- The fields of the first header, at their offsets in the format.
written_fields :
    let file = tar two_files in
    (field 100 108 file ≡ b'0' ∷ b'0' ∷ b'0' ∷ b'0' ∷ b'6' ∷ b'4' ∷ b'4' ∷ 0 ∷ [])
    × (octal (field 124 135 file) 0 ≡ parsed 3)
    × (octal (field 136 147 file) 0 ≡ parsed 1700000000)
    × (octal (field 148 154 file) 0 ≡ parsed (sum (take 148 file) + 256 + sum (field 156 512 file)))
unfolding header_with octal
written_fields = (refl, refl, refl, refl)

two_files-AreStorable : AreStorable [] (plain_of two_files)
unfolding find_entry bytes_eq is_utf8 ends_with_slash
two_files-AreStorable = (
  (omega arith, omega arith, (refl, tt), refl, refl, omega arith),
  refl,
  ((omega arith, omega arith, (refl, tt), refl, refl, omega arith), refl, tt),
)

from_ustar-tar_example :
    from_ustar (tar two_files)
    ≡ parsed (record {
      data_of = onto [] (plain_of two_files);
      total_size = length (tar two_files) % 2 ^ 32;
    })
from_ustar-tar_example = from_ustar-tar two_files two_files-AreStorable
