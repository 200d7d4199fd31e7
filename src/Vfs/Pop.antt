-- ===== src/Vfs/Pop.antt =====
-- `pop_fd` of executor/src/wasi/vfs.rs gives a descriptor and its memory back.
use genvm_executor.Base.{
  ℕ, ◌+◌, ◌≤◌, ◌≡◌, ◌≢◌, refl, ap, ◌∙◌, inl, inr, Bool-cases, Option, none, some, ◌∷◌, arith, ◌==◌,
  ==→eq, ltb, ltb→lt, ltb→le,
}
use mathlib.Core.Path.{subst}
use genvm_executor.Vfs.Descriptors.{
  FileDescriptor, stdin, stdout, stderr, dir, file, Vfs, find, remove, free_fd, release_descriptor,
  pop_found, pop_fd,
}
use genvm_executor.Vfs.Validity.{opened, count, cost, IsValid}
use genvm_executor.Vfs.Removal.{
  remove-opened_self, find-remove_ne, remove-fewer, remove-costs, if-swap, find-remove_self,
}
use genvm_executor.Vfs.Content.{release_content_lem}

-- What `pop_fd` answers.
abbrev pub PopFd : Vfs → ℕ → ℕ → Vfs × Option FileDescriptor → Type 0
PopFd vfs fd other (vfs', none) = (vfs' ≡ vfs) × (find vfs.fds fd ≡ none)
PopFd vfs fd other (vfs', some v) =
    IsValid vfs' other
    × (find vfs.fds fd ≡ some v)
    × (find vfs'.fds fd ≡ none)
    × ((q : ℕ) → fd ≢ q → find vfs'.fds q ≡ find vfs.fds q)
    × (vfs'.free_descriptors ≡ fd ∷ vfs.free_descriptors)

release_descriptor_lem :
    (vfs : Vfs) (v : FileDescriptor) (other : ℕ)
    → IsValid vfs (other + cost v)
    → (vfs' : Vfs) × (release_descriptor vfs v ≡ some vfs')
      × IsValid vfs' other
      × (vfs'.fds ≡ vfs.fds)
      × (vfs'.free_descriptors ≡ vfs.free_descriptors)
      × (vfs'.next_free_descriptor ≡ vfs.next_free_descriptor)
unfolding release_descriptor
release_descriptor_lem vfs (file value) other valid = release_content_lem vfs value other valid
release_descriptor_lem vfs stdin other valid =
    (vfs, refl, subst (IsValid vfs) (omega arith) valid, refl, refl, refl)
release_descriptor_lem vfs stdout other valid =
    (vfs, refl, subst (IsValid vfs) (omega arith) valid, refl, refl, refl)
release_descriptor_lem vfs stderr other valid =
    (vfs, refl, subst (IsValid vfs) (omega arith) valid, refl, refl, refl)
release_descriptor_lem vfs (dir path) other valid =
    (vfs, refl, subst (IsValid vfs) (omega arith) valid, refl, refl, refl)

-- Without a descriptor that was open once; its cost is held besides.
removed-IsValid :
    (vfs : Vfs) (fd other : ℕ) (v : FileDescriptor)
    → IsValid vfs other
    → find vfs.fds fd ≡ some v
    → IsValid (record vfs { fds = remove fd vfs.fds }) (other + cost v)
      × (count fd vfs.free_descriptors ≡ 0)
      × (fd ≤ vfs.next_free_descriptor)
removed-IsValid vfs fd other v valid at =
    let once = valid.once fd in
    let (once_open, paid) = remove-costs vfs.fds fd v at (omega arith) in
    (
      record {
        balanced = valid.balanced;
        registered = valid.registered;
        standard = valid.standard;
        once = λ q. omega (arith, valid.once q, remove-fewer vfs.fds fd q);
        given_out = λ q h. omega (arith, valid.given_out q h, remove-fewer vfs.fds fd q);
        paid = omega (arith, valid.paid, paid);
      },
      omega (arith, once, once_open),
      elim (Bool-cases (ltb vfs.next_free_descriptor fd)) [
        | inl beyond ↦
            let none_there = valid.given_out fd (ltb→lt _ _ beyond) in
            absurd (omega (arith, none_there, once_open))
        | inr within ↦ ltb→le _ _ within
      ],
    )

pop_found_lem :
    (vfs : Vfs) (fd other : ℕ) (found : Option FileDescriptor)
    → IsValid vfs other
    → find vfs.fds fd ≡ found
    → (r : Vfs × Option FileDescriptor) × (pop_found vfs fd found ≡ some r) × PopFd vfs fd other r
unfolding pop_found free_fd
pop_found_lem vfs fd other none valid at = ((vfs, none), refl, (refl, at))
pop_found_lem vfs fd other (some v) valid at =
    let (without, unused, known) = removed-IsValid vfs fd other v valid at in
    let rest : Vfs = record vfs { fds = remove fd vfs.fds } in
    let (vfs', run, valid', fds, free, next) = release_descriptor_lem rest v other without in
    (
      (record vfs' { free_descriptors = fd ∷ vfs'.free_descriptors }, some v),
      rw (run, pop_found) refl,
      (
        record {
          balanced = valid'.balanced;
          registered = valid'.registered;
          standard = valid'.standard;
          once = λ q. elim (Bool-cases (fd == q)) [
            | inl hit ↦
                let e = ==→eq fd q hit in
                let gone = rw e at (ap (opened fd) fds ∙ remove-opened_self vfs.fds fd) in
                let unused' = rw e at (ap (count fd) free ∙ unused) in
                rw hit (omega (arith, gone, unused'))
            | inr miss ↦ rw miss (omega (arith, valid'.once q))
          ];
          given_out = λ q h.
              rw (if-swap fd q (λ e. omega (arith, next, known)))
                (omega (arith, valid'.given_out q h));
          paid = valid'.paid;
        },
        at,
        ap (λ l. find l fd) fds ∙ find-remove_self vfs.fds fd,
        λ q ne. ap (λ l. find l q) fds ∙ find-remove_ne vfs.fds fd q ne,
        ap (λ l. fd ∷ l) free,
      ),
    )

-- From a valid table pop_fd returns, without the limiter's assertion failing. For a number that is not open it answers none and changes nothing. Otherwise it hands out what stood there, the number is no longer open and is the next to be reused, the other descriptors stay, and the table is valid with the same other memory, so that a popped file's memory is given back.
pub pop_fd-IsValid :
    (vfs : Vfs) (fd other : ℕ)
    → IsValid vfs other
    → (r : Vfs × Option FileDescriptor) × (pop_fd vfs fd ≡ some r) × PopFd vfs fd other r
unfolding pop_fd
pop_fd-IsValid vfs fd other valid = pop_found_lem vfs fd other (find vfs.fds fd) valid refl
