-- ===== src/Vfs/Content.antt =====
-- `place_content` of executor/src/wasi/vfs.rs: a placed file is found under its new descriptor, and
-- its memory is charged.
use genvm_executor.Base.{
  ℕ, ◌+◌, ◌≡◌, ◌≢◌, refl, ap, sym, ◌∙◌, ◌⊎◌, inl, inr, Bool, true, false, Bool-cases, none, some,
  arith, ◌==◌, ==→eq, ==_refl,
}
use mathlib.Core.Path.{subst}
use genvm_executor.Memory.Limiter.{Counters, consume}
use genvm_executor.Vfs.Descriptors.{
  FileContents, file, Vfs, find, insert, size, Allocated, allocated, refused, oom_ram, alloc_fd,
  release_content, placed, charge_content, place_charged, place_content,
}
use genvm_executor.Vfs.Validity.{
  opened, cost, costs, held, IsValid, find-opened, remove-opened, with_counters, charge_lem,
  refund_lem,
}
use genvm_executor.Vfs.Alloc.{IsTaken, AllocFd, alloc_fd-IsValid}
use genvm_executor.Vfs.Removal.{find-remove_ne, if-swap}

-- What `place_content` answers from a table that is valid with `other` held besides.
abbrev pub PlaceContent : Vfs → FileContents → ℕ → Vfs × Allocated → Type 0
PlaceContent vfs value other (vfs', allocated fd) =
    IsValid vfs' other
    × (find vfs.fds fd ≡ none)
    × (find vfs'.fds fd ≡ some (file value))
    × ((q : ℕ) → fd ≢ q → find vfs'.fds q ≡ find vfs.fds q)
    × IsTaken vfs vfs' fd (cost (file value))
PlaceContent vfs value other (vfs', refused e) =
    IsValid vfs' other
    × (vfs'.fds ≡ vfs.fds)
    × (vfs'.free_descriptors ≡ vfs.free_descriptors)
    × (vfs'.next_free_descriptor ≡ vfs.next_free_descriptor)
    × (held vfs' ≡ held vfs)

pub release_content_lem :
    (vfs : Vfs) (value : FileContents) (other : ℕ)
    → IsValid vfs (other + cost (file value))
    → (vfs' : Vfs) × (release_content vfs value ≡ some vfs')
      × IsValid vfs' other
      × (vfs'.fds ≡ vfs.fds)
      × (vfs'.free_descriptors ≡ vfs.free_descriptors)
      × (vfs'.next_free_descriptor ≡ vfs.next_free_descriptor)
unfolding release_content size
release_content_lem vfs value other valid = elim (Bool-cases value.release_memory) [
  | inl owned ↦
      let valid' = rw owned at valid in
      let (c, e, v) = refund_lem vfs other (size value) valid' in
      (record vfs { counters = c }, rw (owned, e), v, refl, refl, refl)
  | inr borrowed ↦
      let valid' = rw borrowed at valid in
      (vfs, rw borrowed refl, subst (IsValid vfs) (omega arith) valid', refl, refl, refl)
]

placed_lem :
    (vfs : Vfs) (c : Counters) (value : FileContents) (other : ℕ) (r : Vfs × Allocated)
    → IsValid vfs other
    → IsValid (with_counters vfs c) (other + cost (file value))
    → AllocFd (with_counters vfs c) (other + cost (file value)) r
    → (r' : Vfs × Allocated) × (placed value r ≡ some r') × PlaceContent vfs value other r'
unfolding placed size
placed_lem vfs c value other (vfs', refused e) before charged (valid, same, reason) =
    let (back, run, v, fds, free, next) = release_content_lem vfs' value other valid in
    let fds' = fds ∙ ap (λ t. t.fds) same in
    let next' = next ∙ ap (λ t. t.next_free_descriptor) same in
    (
      (back, refused e),
      rw (run, placed) refl,
      (
        v,
        fds',
        free ∙ ap (λ t. t.free_descriptors) same,
        next',
        omega (arith, v.paid, before.paid, next', ap costs fds'),
      ),
    )
placed_lem vfs c value other (vfs', allocated fd) before charged
      (valid, vacant, same, taken, room) =
    let more : held (with_counters vfs c) ≡ held vfs + cost (file value) =
      omega (arith, before.paid, charged.paid) in
    let not_open : opened fd vfs'.fds ≡ 0 = omega (arith, vacant.nowhere) in
    let kept = remove-opened vfs'.fds fd not_open in
    let self = ==_refl fd in
    (
      (record vfs' { fds = insert fd (file value) vfs'.fds }, allocated fd),
      refl,
      (
        record {
          balanced = valid.balanced;
          registered = valid.registered;
          standard = valid.standard;
          once = λ q. elim (Bool-cases (fd == q)) [
            | inl hit ↦
                let nowhere = rw (==→eq fd q hit) at vacant.nowhere in
                rw (kept, hit) (omega (arith, nowhere))
            | inr miss ↦ rw (kept, miss) (omega (arith, valid.once q))
          ];
          given_out = λ q h.
              rw (kept, if-swap fd q (λ e. omega (arith, vacant.known)))
                (omega (arith, valid.given_out q h));
          paid = rw kept (omega (arith, valid.paid));
        },
        find-opened vfs.fds fd (ap (opened fd) (sym same) ∙ not_open),
        rw self refl,
        λ q ne. rw (if-swap fd q ne) (find-remove_ne vfs'.fds fd q ne ∙ ap (λ l. find l q) same),
        elim taken [
          | inl (free, next, paid) ↦ inl (free, next, omega (arith, paid, more))
          | inr (empty, empty', number, next, paid) ↦
              inr (empty, empty', number, next, omega (arith, paid, more))
        ],
      ),
    )

charge_content_lem :
    (vfs : Vfs) (value : FileContents) (other : ℕ)
    → IsValid vfs other
    → (c : Counters) × (success : Bool) × (charge_content vfs value
        ≡ (with_counters vfs c, success))
      × (((success ≡ true) × IsValid (with_counters vfs c) (other + cost (file value)))
          ⊎ ((success ≡ false) × (c ≡ vfs.counters)))
unfolding charge_content size
charge_content_lem vfs value other valid = elim (Bool-cases value.release_memory) [
  | inl owned ↦
      let (c, success) = consume vfs.counters vfs.limiter (size value) in
      (c, success, rw owned refl, rw owned (charge_lem vfs other (size value) valid))
  | inr borrowed ↦ (
    vfs.counters,
    true,
    rw borrowed refl,
    rw borrowed (inl (refl, subst (IsValid vfs) (omega arith) valid)),
  )
]

place_charged_lem :
    (vfs : Vfs) (c : Counters) (value : FileContents) (other : ℕ) (success : Bool)
    → IsValid vfs other
    → ((success ≡ true) × IsValid (with_counters vfs c) (other + cost (file value)))
      ⊎ ((success ≡ false) × (c ≡ vfs.counters))
    → (r : Vfs × Allocated) × (place_charged value (with_counters vfs c, success) ≡ some r)
      × PlaceContent vfs value other r
unfolding place_charged
place_charged_lem vfs c value other false valid (inl (e, v)) = cc
place_charged_lem vfs c value other false valid (inr (e, same)) =
    ((with_counters vfs c, refused oom_ram), refl, rw same (valid, refl, refl, refl, refl))
place_charged_lem vfs c value other true valid (inr (e, same)) = cc
place_charged_lem vfs c value other true valid (inl (e, v)) =
    placed_lem vfs c value other (alloc_fd (with_counters vfs c)) valid v
      (alloc_fd-IsValid (with_counters vfs c) _ v)

-- From a valid table place_content returns, without the limiter's assertion failing. Either it opens the
-- file under a number that was not open, the last free one or, if none is free, the one after the last
-- given out, leaves what stands under the other numbers, and the limiter holds more by what the file is
-- charged for and, for a number not given out before, by 96 bytes; or it refuses, leaves the open files,
-- the free numbers and the last number as they were, and the limiter holds as much as before.
pub place_content-IsValid :
    (vfs : Vfs) (value : FileContents) (other : ℕ)
    → IsValid vfs other
    → (r : Vfs × Allocated) × (place_content vfs value ≡ some r) × PlaceContent vfs value other r
unfolding place_content
place_content-IsValid vfs value other valid =
    let (c, success, charge, outcome) = charge_content_lem vfs value other valid in
    rw charge (place_charged_lem vfs c value other success valid outcome)
