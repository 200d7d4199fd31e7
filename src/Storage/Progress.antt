-- ===== src/Storage/Progress.antt =====
-- How far a write has come: the pages that hold what was to be written, and the others.
use genvm_executor.Base.{
  ℕ, ◌+◌, ◌-◌, ◌*◌, ◌/◌, ◌%◌, ◌<◌, ◌≡◌, refl, ap, ◌∙◌, inl, inr, Bool, true, false, ◌&&◌, ◌||◌, leb,
  ltb, Bool-cases, Option, none, some, arith, ◌==◌, ==→eq, ==_refl, if◌then◌else◌, length, get_or,
}
use genvm_executor.Storage.Pages.{Bytes, PageId, Pages, page_eq, find_page, is_some}
use genvm_executor.Storage.Access.{
  Storage, Outcome, done, host_failed, out_of_storage, fees_failed, major_mismatch,
}
use genvm_executor.Storage.Write.{◌>>=◌, settle, put_page, write_page}
use genvm_executor.Storage.View.{AreSized, byte_of}
use genvm_executor.Storage.Insert.{
  page_eq_refl, find_page-insert_page, byte_of-insert_page, AreSized-insert_page,
}

-- A function of places with `buf` written from `index` on.
abbrev pub overwritten : (ℕ → ℕ) → ℕ → Bytes → ℕ → ℕ
overwritten old index buf place =
    if leb index place && ltb place (index + length buf)
    then get_or buf (place - index) 0
    else old place

abbrev pub also : (ℕ → Bool) → ℕ → ℕ → Bool
also written page k = page == k || written k

-- A page's new bytes.
abbrev pub IsNew : (ℕ → ℕ) → ℕ → Bytes → ℕ → Bytes → Type 0
IsNew old index buf page v =
    (length v ≡ 32) × ((r : ℕ) → r < 32 → get_or v r 0 ≡ overwritten old index buf (page * 32 + r))

module _ {C L : Type 0} (base : ℕ → ℕ → ℕ) (old : Pages) (c : C) (slot index : ℕ)
    (buf : Bytes) where
  -- The pages of which `written` says so hold the new bytes, the others what they held.
  pub record Holds (written : ℕ → Bool) (s : Storage C L) : Type 0 where
    pub sized : AreSized s.pages
    pub cache : s.cache ≡ c
    pub bytes :
        (t place : ℕ)
        → byte_of base s.pages t place ≡ (
            if slot == t && written (place / 32)
            then overwritten (byte_of base old slot) index buf place
            else byte_of base old t place)
    pub kept :
        (id : PageId) → is_some (find_page old id) ≡ true → is_some (find_page s.pages id) ≡ true
    pub known : (page : ℕ) → written page ≡ true → is_some (find_page s.pages (slot, page)) ≡ true

  -- The end of a step that leaves `written`, or stops before with part of the pages.
  abbrev pub Ends : (ℕ → Bool) → Storage C L × Outcome (Unit {0}) → Type 0
  Ends written (s, done u) = Holds written s
  Ends written (s, host_failed) = ⊥
  Ends written (s, out_of_storage) = (part : ℕ → Bool) × Holds part s
  Ends written (s, major_mismatch) = ⊥
  Ends written (s, fees_failed) = (part : ℕ → Bool) × Holds part s

  pub Ends->>= :
      (a b : ℕ → Bool) (r : Storage C L × Outcome (Unit {0}))
      (f : Unit {0} → Storage C L → Storage C L × Outcome (Unit {0}))
      → Ends a r
      → ((s : Storage C L) → Holds a s → Ends b (f tt s))
      → Ends b (r >>= f)
  Ends->>= a b (s, done u) f h next = next s h
  Ends->>= a b (s, host_failed) f h next = absurd h
  Ends->>= a b (s, out_of_storage) f h next = h
  Ends->>= a b (s, fees_failed) f h next = h
  Ends->>= a b (s, major_mismatch) f h next = absurd h

  put_page_lem :
      (written : ℕ → Bool) (s : Storage C L) (page : ℕ) (v : Bytes)
      → Holds written s
      → IsNew (byte_of base old slot) index buf page v
      → Ends (also written page) (put_page (slot, page) v s)
  unfolding put_page is_some page_eq
  put_page_lem written s page v h new = record {
    sized = AreSized-insert_page s.pages (slot, page) v h.sized new.0;
    cache = h.cache;
    bytes = λ t place.
        byte_of-insert_page base s.pages slot page v t place ∙ (elim (Bool-cases (slot == t)) [
          | inl same ↦ elim (Bool-cases (page == place / 32)) [
            | inl here ↦
                let e = ==→eq page (place / 32) here in
                rw (same, here)
                  (new.1 (place % 32) (omega arith)
                    ∙ ap (overwritten (byte_of base old slot) index buf) (omega arith))
            | inr there ↦ rw (same, there) (h.bytes t place ∙ rw same refl)
          ]
          | inr other ↦ rw other (h.bytes t place ∙ rw other refl)
        ]);
    kept = λ id e. elim (Bool-cases (page_eq (slot, page) id)) [
      | inl here ↦ ap is_some (find_page-insert_page s.pages (slot, page) id v) ∙ rw here refl
      | inr there ↦
          ap is_some (find_page-insert_page s.pages (slot, page) id v) ∙ rw there (h.kept id e)
    ];
    known = λ k e. elim (Bool-cases (page == k)) [
      | inl here ↦
          let f : page_eq (slot, page) (slot, k) ≡ true =
            rw (==→eq page k here) (page_eq_refl (slot, k)) in
          ap is_some (find_page-insert_page s.pages (slot, page) (slot, k) v) ∙ rw f refl
      | inr there ↦
          let f : page_eq (slot, page) (slot, k) ≡ false = rw (there, ==_refl slot, page_eq) refl in
          let w : written k ≡ true = rw there at e in
          ap is_some (find_page-insert_page s.pages (slot, page) (slot, k) v) ∙ rw f (h.known k w)
    ];
  }

  settled :
      (written : ℕ → Bool) (s : Storage C L) (answer : L × Option Bool)
      → Holds written s
      → Ends written (settle s answer)
  unfolding settle
  settled written s (l, none) h = (
    written,
    record { sized = h.sized; cache = h.cache; bytes = h.bytes; known = h.known; kept = h.kept },
  )
  settled written s (l, some false) h = (
    written,
    record { sized = h.sized; cache = h.cache; bytes = h.bytes; known = h.known; kept = h.kept },
  )
  settled written s (l, some true) h = record {
    sized = h.sized;
    cache = h.cache;
    bytes = h.bytes;
    known = h.known;
    kept = h.kept;
  }

  pub write_page_lem :
      (consume_storage_pages : L → ℕ → L × Option Bool) (written : ℕ → Bool) (s : Storage C L)
      (page : ℕ) (v : Bytes)
      → Holds written s
      → IsNew (byte_of base old slot) index buf page v
      → Ends (also written page) (write_page consume_storage_pages (slot, page) v s)
  unfolding write_page
  write_page_lem consume written s page v h new =
      elim (Bool-cases (is_some (find_page s.pages (slot, page)))) [
        | inl again ↦ rw again (put_page_lem written s page v h new)
        | inr first ↦ rw first (
            Ends->>= written (also written page) (settle s (consume s.limiter 1))
              (λ _ s'. put_page (slot, page) v s') (settled written s (consume s.limiter 1) h)
              (λ s' h'. put_page_lem written s' page v h' new))
      ]
