-- ===== src/Calldata/Value.antt =====
-- executor/crates/calldata/src/types.rs and consts.rs: the values that calldata carries, their
-- accessors, and the type tags of the binary format.
use genvm_executor.Base.{ℕ, ◌+◌, ◌<◌, Bool, List}

abbrev pub Bytes : Type 0
Bytes = List ℕ

abbrev pub IsByte : ℕ → Type 0
IsByte b = b < 256

-- A BigInt: `pos n` is n, `negsuc n` is -(n + 1).
pub data ℤ : Type 0 where
  pos : ℕ → ℤ
  negsuc : ℕ → ℤ

-- `Items` is Vec<Value>; `Fields` is BTreeMap<String, Value>, in the order of its iteration. A
-- String is the list of its UTF-8 bytes, an Address the list of its 20 bytes.
mutual
  pub data Value : Type 0 where
    null : Value
    address : Bytes → Value
    bool : Bool → Value
    str : Bytes → Value
    bytes : Bytes → Value
    number : ℤ → Value
    map : Fields → Value
    array : Items → Value

  pub data Items : Type 0 where
    nil : Items
    cons : Value → Items → Items

  pub data Fields : Type 0 where
    end : Fields
    field : Bytes → Value → Fields → Fields

pub data ValueKind : Type 0 where
  null bool address number str bytes array map : ValueKind

pub kind : Value → ValueKind
kind null = ValueKind.null
kind (bool _) = ValueKind.bool
kind (address _) = ValueKind.address
kind (number _) = ValueKind.number
kind (str _) = ValueKind.str
kind (bytes _) = ValueKind.bytes
kind (array _) = ValueKind.array
kind (map _) = ValueKind.map

abbrev pub address_size : ℕ
address_size = 20

-- The low three bits of a header.
abbrev pub type_special : ℕ
type_special = 0

abbrev pub type_pint : ℕ
type_pint = 1

abbrev pub type_nint : ℕ
type_nint = 2

abbrev pub type_bytes : ℕ
type_bytes = 3

abbrev pub type_str : ℕ
type_str = 4

abbrev pub type_arr : ℕ
type_arr = 5

abbrev pub type_map : ℕ
type_map = 6

-- `n << BITS_IN_TYPE | TYPE_SPECIAL`
abbrev pub special_null : ℕ
special_null = 0

abbrev pub special_false : ℕ
special_false = 8

abbrev pub special_true : ℕ
special_true = 16

abbrev pub special_addr : ℕ
special_addr = 24

-- `Vec::len` and `Vec::push` on an array's values, `BTreeMap::len` on a map.
unfoldable pub count : Items → ℕ
count nil = 0
count (cons x xs) = count xs + 1

unfoldable pub snoc : Items → Value → Items
snoc nil v = cons v nil
snoc (cons x xs) v = cons x (snoc xs v)

unfoldable pub count_fields : Fields → ℕ
count_fields end = 0
count_fields (field k v m) = count_fields m + 1
