-- ===== src/Vfs/Descriptors.antt =====
-- executor/src/wasi/vfs.rs: the table of file descriptors, charged to a memory limiter. `BTreeMap` is
-- a list of pairs with distinct keys; `free_descriptors` has the end of the vector first.
use genvm_executor.Base.{
  ℕ, ◌+◌, ◌%◌, ◌^◌, Bool, true, false, not, Option, none, some, List, [], ◌∷◌, ◌==◌, leb, length,
  if◌then◌else◌,
}
use genvm_executor.Memory.Limiter.{Counters, consume, release}

pub record FileContents : Type 0 where
  pub contents : List ℕ
  pub pos : ℕ
  pub release_memory : Bool

pub data FileDescriptor : Type 0 where
  stdin stdout stderr : FileDescriptor
  file : FileContents → FileDescriptor
  dir : List (List ℕ) → FileDescriptor

abbrev pub Fds : Type 0
Fds = List (ℕ × FileDescriptor)

-- The limiter is its number among the counters.
pub record Vfs : Type 0 where
  pub fds : Fds
  pub free_descriptors : List ℕ
  pub next_free_descriptor : ℕ
  pub counters : Counters
  pub limiter : ℕ

abbrev pub max_fds : ℕ
max_fds = 1024

abbrev pub fd_allocation : ℕ
fd_allocation = 96

abbrev pub find : Fds → ℕ → Option FileDescriptor
find [] fd = none
find ((k, v) ∷ fds) fd = if k == fd then some v else find fds fd

abbrev pub remove : ℕ → Fds → Fds
remove fd [] = []
remove fd ((k, v) ∷ fds) = if k == fd then remove fd fds else (k, v) ∷ remove fd fds

abbrev pub insert : ℕ → FileDescriptor → Fds → Fds
insert fd v fds = (fd, v) ∷ remove fd fds

-- Out of memory, or the limit on the number of descriptors.
pub data Refusal : Type 0 where
  oom_ram oom_ram_limit : Refusal

pub data Allocated : Type 0 where
  allocated : ℕ → Allocated
  refused : Refusal → Allocated

-- The bytes `len() as u32` that are charged for a file.
unfoldable pub size : FileContents → ℕ
size value = length value.contents % 2 ^ 32

abbrev pub standard_fds : List ℕ → Fds
standard_fds input =
    (0, file (record { contents = input; pos = 0; release_memory = true }))
    ∷ (1, stdout)
    ∷ (2, stderr)
    ∷ (3, dir [])
    ∷ []

unfoldable pub new_vfs : List ℕ → Counters → ℕ → Counters × Option Vfs
new_vfs input counters limiter =
    let (c, success) = consume counters limiter (length input % 2 ^ 32) in
    if not success then (c, none) else (
      c,
      some (record {
        fds = standard_fds input;
        free_descriptors = [];
        next_free_descriptor = 3;
        counters = c;
        limiter = limiter;
      }),
    )

-- A descriptor that was never given out.
unfoldable pub fresh_fd : Vfs → Counters × Bool → Vfs × Allocated
fresh_fd vfs (c, false) = (record vfs { counters = c }, refused oom_ram)
fresh_fd vfs (c, true) =
    let next = (vfs.next_free_descriptor + 1) % 2 ^ 32 in
    (record vfs { counters = c; next_free_descriptor = next }, allocated next)

unfoldable pub pop_free : Vfs → List ℕ → Vfs × Allocated
pop_free vfs [] = fresh_fd vfs (consume vfs.counters vfs.limiter fd_allocation)
pop_free vfs (fd ∷ rest) = (record vfs { free_descriptors = rest }, allocated fd)

unfoldable pub alloc_fd : Vfs → Vfs × Allocated
alloc_fd vfs =
    if leb max_fds (length vfs.fds)
    then (vfs, refused oom_ram_limit)
    else pop_free vfs vfs.free_descriptors

unfoldable pub free_fd : Vfs → ℕ → Vfs
free_fd vfs fd = record vfs { free_descriptors = fd ∷ vfs.free_descriptors }

-- `limiter.release(..)` for a file's contents, if it says so; `none` is the limiter's assertion.
unfoldable pub release_content : Vfs → FileContents → Option Vfs
release_content vfs value =
    if value.release_memory
    then elim (release vfs.counters vfs.limiter (size value)) [
      | none ↦ none
      | some c ↦ some (record vfs { counters = c })
    ]
    else some vfs

unfoldable pub release_descriptor : Vfs → FileDescriptor → Option Vfs
release_descriptor vfs (file value) = release_content vfs value
release_descriptor vfs _ = some vfs

unfoldable pub pop_found : Vfs → ℕ → Option FileDescriptor → Option (Vfs × Option FileDescriptor)
pop_found vfs fd none = some (vfs, none)
pop_found vfs fd (some v) = elim (release_descriptor (record vfs { fds = remove fd vfs.fds }) v) [
  | none ↦ none
  | some vfs ↦ some (free_fd vfs fd, some v)
]

unfoldable pub pop_fd : Vfs → ℕ → Option (Vfs × Option FileDescriptor)
pop_fd vfs fd = pop_found vfs fd (find vfs.fds fd)

unfoldable pub placed : FileContents → Vfs × Allocated → Option (Vfs × Allocated)
placed value (vfs, allocated fd) =
    some (record vfs { fds = insert fd (file value) vfs.fds }, allocated fd)
placed value (vfs, refused e) = elim (release_content vfs value) [
  | none ↦ none
  | some vfs ↦ some (vfs, refused e)
]

unfoldable pub charge_content : Vfs → FileContents → Vfs × Bool
charge_content vfs value =
    let (c, success) = consume vfs.counters vfs.limiter (size value) in
    if value.release_memory then (record vfs { counters = c }, success) else (vfs, true)

unfoldable pub place_charged : FileContents → Vfs × Bool → Option (Vfs × Allocated)
place_charged value (vfs, false) = some (vfs, refused oom_ram)
place_charged value (vfs, true) = placed value (alloc_fd vfs)

unfoldable pub place_content : Vfs → FileContents → Option (Vfs × Allocated)
place_content vfs value = place_charged value (charge_content vfs value)
