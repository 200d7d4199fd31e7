-- ===== src/Calldata/Wire.antt =====
-- Which values the format carries: what the decoder's checks ask of a value, and the order of a
-- map's keys.
use genvm_executor.Base.{ℕ, ◌+◌, ◌^◌, ◌<◌, ◌≡◌, refl, true, some, arith, length, max}
use genvm_executor.Calldata.Value.{
  Bytes, Value, Items, Fields, nil, cons, end, field, count, count_fields, snoc,
}
use genvm_executor.Calldata.Text.{is_utf8, str_lt, str_lt_asymm, str_lt_trans}
use genvm_executor.Calldata.Decode.{insert, last_key}

-- How many containers stand inside one another.
unfoldable mutual
  pub depth : Value → ℕ
  depth Value.null = 0
  depth (Value.bool _) = 0
  depth (Value.address _) = 0
  depth (Value.str _) = 0
  depth (Value.bytes _) = 0
  depth (Value.number _) = 0
  depth (Value.map m) = depth_fields m + 1
  depth (Value.array xs) = depth_items xs + 1

  pub depth_items : Items → ℕ
  depth_items nil = 0
  depth_items (cons x xs) = max (depth x) (depth_items xs)

  pub depth_fields : Fields → ℕ
  depth_fields end = 0
  depth_fields (field k v m) = max (depth v) (depth_fields m)

-- Every key of the map comes before `k`, or behind it.
unfoldable pub AllBelow : Bytes → Fields → Type 0
AllBelow k end = Unit
AllBelow k (field j v m) = (str_lt j k ≡ true) × AllBelow k m

unfoldable pub AllAbove : Bytes → Fields → Type 0
AllAbove k end = Unit
AllAbove k (field j v m) = (str_lt k j ≡ true) × AllAbove k m

-- A BTreeMap's keys ascend.
unfoldable pub IsSorted : Fields → Type 0
IsSorted end = Unit
IsSorted (field k v m) = AllAbove k m × IsSorted m

-- What a Rust `Value` is by its types (texts are UTF-8, addresses have 20 bytes, maps are sorted),
-- with sizes of at most 32 bits.
unfoldable mutual
  pub IsWire : Value → Type 0
  IsWire Value.null = Unit
  IsWire (Value.bool _) = Unit
  IsWire (Value.address a) = length a ≡ 20
  IsWire (Value.str s) = (length s < 2 ^ 32) × (is_utf8 s ≡ true)
  IsWire (Value.bytes b) = length b < 2 ^ 32
  IsWire (Value.number _) = Unit
  IsWire (Value.map m) = (count_fields m < 2 ^ 32) × IsSorted m × AreWireFields m
  IsWire (Value.array xs) = (count xs < 2 ^ 32) × AreWire xs

  pub AreWire : Items → Type 0
  AreWire nil = Unit
  AreWire (cons x xs) = IsWire x × AreWire xs

  pub AreWireFields : Fields → Type 0
  AreWireFields end = Unit
  AreWireFields (field k v m) =
      (length k < 2 ^ 32) × (is_utf8 k ≡ true) × IsWire v × AreWireFields m

-- `append m k v` puts an entry behind the others; `join` and `join_fields` put two lists together.
unfoldable pub append : Fields → Bytes → Value → Fields
append end k v = field k v end
append (field j w m) k v = field j w (append m k v)

unfoldable pub join : Items → Items → Items
join nil ys = ys
join (cons x xs) ys = cons x (join xs ys)

unfoldable pub join_fields : Fields → Fields → Fields
join_fields end m' = m'
join_fields (field k v m) m' = field k v (join_fields m m')

-- A key behind all others goes to the end.
pub insert_last : (k : Bytes) (v : Value) (m : Fields) → AllBelow k m → insert k v m ≡ append m k v
unfolding insert append AllBelow
insert_last k v end h = refl
insert_last k v (field j w m) h = ground (arith, str_lt_asymm j k h.0, insert_last k v m h.1)

pub AllBelow-append :
    (j k : Bytes) (v : Value) (m : Fields)
    → AllBelow j m
    → str_lt k j ≡ true
    → AllBelow j (append m k v)
unfolding AllBelow append
AllBelow-append j k v end h l = (l, tt)
AllBelow-append j k v (field i w m) h l = (h.0, AllBelow-append j k v m h.1 l)

pub AllBelow-trans : (j k : Bytes) (m : Fields) → AllBelow j m → str_lt j k ≡ true → AllBelow k m
unfolding AllBelow
AllBelow-trans j k end h l = tt
AllBelow-trans j k (field i w m) h l = (str_lt_trans i j k h.0 l, AllBelow-trans j k m h.1 l)

pub last_key-append : (m : Fields) (k : Bytes) (v : Value) → last_key (append m k v) ≡ some k
unfolding last_key append
last_key-append end k v = refl
last_key-append (field i w end) k v = refl
last_key-append (field i w (field j u m)) k v = last_key-append (field j u m) k v

pub join-snoc : (xs ys : Items) (v : Value) → join (snoc xs v) ys ≡ join xs (cons v ys)
unfolding join snoc
join-snoc nil ys v = refl
join-snoc (cons x xs) ys v = rw (join-snoc xs ys v)

pub join-nil : (xs : Items) → join xs nil ≡ xs
unfolding join
join-nil nil = refl
join-nil (cons x xs) = rw (join-nil xs)

pub join_fields-append :
    (m m' : Fields) (k : Bytes) (v : Value)
    → join_fields (append m k v) m' ≡ join_fields m (field k v m')
unfolding join_fields append
join_fields-append end m' k v = refl
join_fields-append (field j w m) m' k v = rw (join_fields-append m m' k v)

pub join_fields-end : (m : Fields) → join_fields m end ≡ m
unfolding join_fields
join_fields-end end = refl
join_fields-end (field k v m) = rw (join_fields-end m)
