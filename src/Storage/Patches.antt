-- ===== src/Storage/Patches.antt =====
-- The pages of a write, one by one.
use genvm_executor.Base.{
  ℕ, ◌+◌, ◌-◌, ◌*◌, ◌/◌, ◌%◌, ◌^◌, ◌≤◌, ◌<◌, ◌≡◌, refl, ap, sym, ◌∙◌, ◌⊎◌, inl, inr, Bool, true,
  false, ◌&&◌, leb, ltb, lt→ltb, Bool-cases, Option, Option-cases, arith, ◌==◌, ==_refl,
  inside-true, inside-bounds, outside-bounds, outside-false, length, get_or, take, drop,
  length-take, length-drop,
}
use genvm_executor.Storage.Pages.{Bytes, Pages, find_page}
use genvm_executor.Storage.Access.{Storage, done, copy_at}
use genvm_executor.Storage.Write.{◌>>=◌, write_page, existing_page, write_single_page}
use genvm_executor.Storage.Buffers.{
  slice, length-slice, get_or-slice, get_or-take, get_or-drop, get_or-copy_at, length-copy_at,
}
use genvm_executor.Storage.View.{find_page-AreSized, HostStores, byte_of}
use genvm_executor.Storage.Progress.{also, IsNew, Holds, Ends, write_page_lem}

-- A place of the page that is not in the part lies outside the request.
before_or_after :
    (page r index n offset m skip : ℕ)
    → (r < offset) ⊎ (offset + m ≤ r)
    → index + skip ≡ page * 32 + offset
    → (offset ≡ 0) ⊎ (skip ≡ 0)
    → (offset + m ≡ 32) ⊎ (skip + m ≡ n)
    → r < 32
    → (page * 32 + r < index) ⊎ (index + n ≤ page * 32 + r)
before_or_after page r index n offset m skip (inl before) place (inl e) last l =
    absurd (omega arith)
before_or_after page r index n offset m skip (inl before) place (inr e) last l = inl (omega arith)
before_or_after page r index n offset m skip (inr after) place first (inl e) l =
    absurd (omega arith)
before_or_after page r index n offset m skip (inr after) place first (inr e) l = inr (omega arith)

-- New bytes over a part of a page that holds the old ones.
IsNew-copy_at :
    (f : ℕ → ℕ) (index : ℕ) (buf : Bytes) (page : ℕ) (p : Bytes) (offset : ℕ) (bytes : Bytes)
    (skip : ℕ)
    → length p ≡ 32
    → ((r : ℕ) → r < 32 → get_or p r 0 ≡ f (page * 32 + r))
    → offset + length bytes ≤ 32
    → index + skip ≡ page * 32 + offset
    → ((i : ℕ) → i < length bytes → get_or bytes i 0 ≡ get_or buf (skip + i) 0)
    → skip + length bytes ≤ length buf
    → (offset ≡ 0) ⊎ (skip ≡ 0)
    → (offset + length bytes ≡ 32) ⊎ (skip + length bytes ≡ length buf)
    → IsNew f index buf page (copy_at p offset bytes)
IsNew-copy_at f index buf page p offset bytes skip sized held fits place same inside first last = (
  length-copy_at p offset bytes (omega (arith, sized)) ∙ sized,
  λ r l.
      get_or-copy_at p offset bytes r (omega (arith, sized))
      ∙ (elim (Bool-cases (leb offset r && ltb r (offset + length bytes))) [
        | inl new ↦
            let at_new = inside-bounds offset r (offset + length bytes) new in
            let low : leb index (page * 32 + r) && ltb (page * 32 + r) (index + length buf) ≡ true =
              inside-true index (page * 32 + r) (index + length buf) (omega arith) (omega arith) in
            let e : skip + (r - offset) ≡ page * 32 + r - index = omega arith in
            rw (new, low) (same (r - offset) (omega arith) ∙ ap (λ i. get_or buf i 0) e)
        | inr old ↦
            let at_old = outside-bounds offset r (offset + length bytes) old in
            let out : leb index (page * 32 + r) && ltb (page * 32 + r) (index + length buf)
                ≡ false =
              outside-false index (page * 32 + r) (index + length buf) (
                before_or_after page r index (length buf) offset (length bytes) skip at_old place
                  first last l) in
            rw (old, out) (held r l)
      ]),
)

pub IsNew-whole :
    (f : ℕ → ℕ) (index : ℕ) (buf : Bytes) (page : ℕ)
    → index ≤ page * 32
    → page * 32 + 32 ≤ index + length buf
    → IsNew f index buf page (take 32 (drop (page * 32 - index) buf))
IsNew-whole f index buf page low high =
    let o = page * 32 - index in
    (
      omega (arith, length-take 32 (drop o buf), length-drop o buf),
      λ r l.
          let inside =
            inside-true index (page * 32 + r) (index + length buf) (omega arith) (omega arith) in
          let e : o + r ≡ page * 32 + r - index = omega arith in
          rw (get_or-take 32 (drop o buf) r, lt→ltb r 32 l, get_or-drop o buf r, inside)
            (ap (λ i. get_or buf i 0) e),
    )

both-eq : (a b c d : ℕ) → a == b && c == d ≡ true → (a ≡ b) × (c ≡ d)
both-eq a b c d h = (ground arith, ground arith)

module _ {C L : Type 0} (consume : L → ℕ → L × Option Bool) (host : ℕ → ℕ → ℕ → Option Bytes)
    (base : ℕ → ℕ → ℕ) (stores : HostStores host base) (old : Pages) (c : C) (slot index : ℕ)
    (buf : Bytes) where
  existing_page_lem :
      (written : ℕ → Bool) (s : Storage C L) (page : ℕ)
      → Holds base old c slot index buf written s
      → written page ≡ false
      → page * 32 + 32 ≤ 2 ^ 32
      → (p : Bytes) × (existing_page consume host slot page s ≡ (s, done p))
        × (length p ≡ 32)
        × ((r : ℕ) → r < 32 → get_or p r 0 ≡ byte_of base old slot (page * 32 + r))
  unfolding existing_page
  existing_page_lem written s page h untouched small =
      let at_page : (r : ℕ) → r < 32 → (page * 32 + r) / 32 ≡ page = λ r l. omega arith in
      let unchanged : (r : ℕ)
          → r < 32
          → byte_of base s.pages slot (page * 32 + r) ≡ byte_of base old slot (page * 32 + r) =
        λ r l. h.bytes slot (page * 32 + r) ∙ rw (at_page r l, untouched, ==_refl slot) refl in
      elim (Option-cases (find_page s.pages (slot, page))) [
        | inr (p, found) ↦ (
          p,
          rw (found, existing_page) refl,
          find_page-AreSized s.pages (slot, page) p h.sized found,
          λ r l.
              let at_r : (page * 32 + r) % 32 ≡ r = omega arith in
              let same : byte_of base s.pages slot (page * 32 + r) ≡ get_or p r 0 =
                rw (at_page r l, at_r, found) refl in
              sym same ∙ unchanged r l,
        )
        | inl missing ↦
            let start_e : page * 32 % 2 ^ 32 ≡ page * 32 = omega arith in
            let answer = stores slot (page * 32) 32 small in
            (
              slice (base slot) (page * 32) 32,
              rw (missing, start_e, answer, existing_page) refl,
              length-slice (base slot) (page * 32) 32,
              λ r l.
                  let same : byte_of base s.pages slot (page * 32 + r) ≡ base slot (page * 32 + r) =
                    rw (at_page r l, missing) refl in
                  get_or-slice (base slot) (page * 32) 32 r l ∙ sym same ∙ unchanged r l,
            )
      ]

  -- A page that is written in part.
  pub patch_lem :
      (written : ℕ → Bool) (s : Storage C L) (page offset : ℕ) (bytes : Bytes) (skip : ℕ)
      → Holds base old c slot index buf written s
      → written page ≡ false
      → page * 32 + 32 ≤ 2 ^ 32
      → offset + length bytes ≤ 32
      → index + skip ≡ page * 32 + offset
      → ((i : ℕ) → i < length bytes → get_or bytes i 0 ≡ get_or buf (skip + i) 0)
      → skip + length bytes ≤ length buf
      → (offset ≡ 0) ⊎ (skip ≡ 0)
      → (offset + length bytes ≡ 32) ⊎ (skip + length bytes ≡ length buf)
      → Ends base old c slot index buf (also written page) (
          existing_page consume host slot page s >>= λ p s'.
          write_page consume (slot, page) (copy_at p offset bytes) s')
  patch_lem written s page offset bytes skip h untouched small fits place same inside first last =
      let (p, run, sized, held) = existing_page_lem written s page h untouched small in
      rw run (
        write_page_lem base old c slot index buf consume written s page (copy_at p offset bytes) h (
          IsNew-copy_at (byte_of base old slot) index buf page p offset bytes skip sized held fits
            place same inside first last))

  pub write_single_page_lem :
      (s : Storage C L) (page : ℕ) (written : ℕ → Bool)
      → Holds base old c slot index buf written s
      → written page ≡ false
      → index / 32 ≡ page
      → (index + length buf - 1) / 32 ≡ page
      → 0 < length buf
      → page * 32 + 32 ≤ 2 ^ 32
      → Ends base old c slot index buf
          (also written page)
          (write_single_page consume host slot page (index % 32) buf s)
  unfolding write_single_page
  write_single_page_lem s page written h untouched first last some_bytes small =
      elim (Bool-cases (index % 32 == 0 && length buf == 32)) [
        | inl full ↦
            let both = both-eq (index % 32) 0 (length buf) 32 full in
            let at_start : index ≡ page * 32 = omega (arith, both.0) in
            let size : length buf ≡ 32 = both.1 in
            rw full (
              write_page_lem base old c slot index buf consume written s page buf h (
                size,
                λ r l.
                    let inside =
                      inside-true index (page * 32 + r) (index + length buf) (omega arith)
                        (omega (arith, size)) in
                    let e : r ≡ page * 32 + r - index = omega arith in
                    rw inside (ap (λ i. get_or buf i 0) e),
              ))
        | inr part ↦ rw part (
            patch_lem written s page (index % 32) buf 0 h untouched small (omega arith)
              (omega arith) (λ i l. ap (λ j. get_or buf j 0) (omega arith)) (omega arith) (inr refl)
              (inr (omega arith)))
      ]
