-- ===== src/Vfs/Tests.antt =====
-- A descriptor table at work, and the theorems at concrete inputs.
use genvm_executor.Base.{ℕ, ◌-◌, ◌≡◌, refl, true, Option, some, List, [], ◌∷◌, arith}
use genvm_executor.Memory.Limiter.{new, u32_max, consume, advance, run, result}
use genvm_executor.Memory.Accounting.{new-IsBalanced}
use genvm_executor.Vfs.Descriptors.{
  FileContents, FileDescriptor, file, Vfs, Allocated, allocated, size, standard_fds, new_vfs,
  place_content, pop_fd, alloc_fd, pop_free, fresh_fd, charge_content, place_charged, placed,
}
use genvm_executor.Vfs.Validity.{IsValid}
use genvm_executor.Vfs.New.{NewVfs, new_vfs-IsValid}
use genvm_executor.Vfs.Alloc.{AllocFd, alloc_fd-IsValid}
use genvm_executor.Vfs.Content.{PlaceContent, place_content-IsValid}
use genvm_executor.Vfs.Pop.{PopFd, pop_fd-IsValid}

abbrev input : List ℕ
input = 7 ∷ 8 ∷ []

abbrev content : FileContents
content = record { contents = 1 ∷ 2 ∷ 3 ∷ []; pos = 0; release_memory = true }

abbrev start : Vfs
start = record {
  fds = standard_fds input;
  free_descriptors = [];
  next_free_descriptor = 3;
  counters = record { remaining = u32_max - 2; least = u32_max - 2; consumed = 2 ∷ [] };
  limiter = 0;
}

started : new_vfs input new 0 ≡ (start.counters, some start)
unfolding new_vfs consume run result advance
started = refl

start-IsValid : IsValid start 0
unfolding size
start-IsValid = record {
  balanced = omega arith;
  registered = omega arith;
  standard = omega arith;
  once = λ q. ground arith;
  given_out = λ q h. ground arith;
  paid = omega arith;
}

-- The new file is number 4; 3 bytes for it and 96 for the descriptor are charged.
opened_file :
    place_content start content
    ≡ some (
      record {
        fds = (4, file content) ∷ standard_fds input;
        free_descriptors = [];
        next_free_descriptor = 4;
        counters = record { remaining = u32_max - 101; least = u32_max - 101; consumed = 101 ∷ [] };
        limiter = 0;
      },
      allocated 4,
    )
unfolding place_content charge_content place_charged placed alloc_fd pop_free fresh_fd consume run
    result advance size
opened_file = refl

new_vfs-IsValid_example : NewVfs input new 0 (new_vfs input new 0)
new_vfs-IsValid_example = new_vfs-IsValid input new 0 new-IsBalanced (omega arith)

alloc_fd-IsValid_example : AllocFd start 0 (alloc_fd start)
alloc_fd-IsValid_example = alloc_fd-IsValid start 0 start-IsValid

place_content-IsValid_example :
    (r : Vfs × Allocated) × (place_content start content ≡ some r) × PlaceContent start content 0 r
place_content-IsValid_example = place_content-IsValid start content 0 start-IsValid

pop_fd-IsValid_example :
    (r : Vfs × Option FileDescriptor) × (pop_fd start 0 ≡ some r) × PopFd start 0 0 r
pop_fd-IsValid_example = pop_fd-IsValid start 0 0 start-IsValid
