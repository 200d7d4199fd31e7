-- ===== src/TreeMap/Map.antt =====
-- executor/crates/sdk-rs/src/storage/tree_map.rs: the maps that the code builds, as balanced search trees in
-- their slots, and lookup in them.
use genvm_executor.Base.{
  ℕ, suc, ◌+◌, ◌≡◌, ◌≤◌, ◌<◌, refl, sym, ap, ◌∙◌, Bool, true, false, not, Option, none, some, List,
  [], ◌∷◌, ◌++◌, append_assoc, append-nil, arith, length, length-append, ltb, ◌==◌, suc-ne-zero,
  if◌then◌else◌,
}
use genvm_executor.TreeMap.Slots.{TreeMap, len, clear}
use genvm_executor.TreeMap.Lookup.{
  KeyOrder, Walk, found, turn, find_path, handle_of, get, contains_key,
}
use genvm_executor.TreeMap.Tree.{
  Tree, leaf, node, Around, same, same_self, root_of, occ, entries, IsBalanced, occ_above,
  entries_before, entries_after, node_count, occ-plug, entries-plug,
}
use genvm_executor.TreeMap.Held.{Held, node-ok}
use genvm_executor.TreeMap.Lifts.{ArePlaced}
use genvm_executor.TreeMap.Entries.{
  IsSorted, IsNext, Passed, lookup, sorted-found, lookup-gap, lookup-there,
}
use genvm_executor.TreeMap.Search.{
  Search, find_from_lem, height-le-node_count, IsWay, IsEnd, way-Passed, way-IsNext,
}

abbrev pub times : ℕ → List ℕ → ℕ
times i [] = 0
times i (p ∷ ps) = same i p + times i ps

unfoldable pub in_pool : ℕ → ℕ → ℕ
in_pool i n = if ltb i n then 1 else 0

pub in_pool-le : (i n : ℕ) → in_pool i n ≤ 1
unfolding in_pool
in_pool-le i n = ground arith

pub in_pool→lt : (i n : ℕ) → 1 ≤ in_pool i n → i < n
unfolding in_pool
in_pool→lt i n h = ground arith

pub in_pool-suc : (i n : ℕ) → in_pool i (suc n) ≡ in_pool i n + same i n
unfolding in_pool same
in_pool-suc i n = ground arith

-- The map's slots hold a balanced tree with these entries, in the order of their keys; every slot of
-- the pool is in the tree or free, and once.
pub record IsMap {K V : Type 0} ⦃o : KeyOrder K⦄ (s : TreeMap K V) (es : List (K × V))
    : Type 0 where
  pub tree : Tree K V
  pub is_root : s.root_idx ≡ root_of tree
  pub held : Held s.slots tree
  pub balanced : IsBalanced tree
  pub sorted : IsSorted es
  pub listed : entries tree ≡ es
  pub places : (i : ℕ) → occ i tree + times i s.free_slots ≡ in_pool i s.slots_len
  pub counted : node_count tree + length s.free_slots ≡ s.slots_len

module _ {K V : Type 0} where
  pub reassoc :
      (xs ls rs ys : List (K × V)) (e : K × V)
      → xs ++ (ls ++ e ∷ rs) ++ ys ≡ (xs ++ ls) ++ e ∷ (rs ++ ys)
  reassoc xs ls rs ys e = simp append_assoc

  pub length-entries : (t : Tree K V) → length (entries t) ≡ node_count t
  length-entries leaf = refl
  length-entries (node p l k v b r) =
      omega
        (arith, length-append (entries l) ((k, v) ∷ entries r), length-entries l, length-entries r)

  -- The values that handles stand for.
  abbrev pub value_of : TreeMap K V → Option ℕ → Option V
  value_of s none = none
  value_of s (some p) = some (s.slots p).value

abbrev pub is_some : {A : Type 0} → Option A → Bool
is_some none = false
is_some (some a) = true

module _ {K V : Type 0} ⦃o : KeyOrder K⦄ {s : TreeMap K V} {es : List (K × V)}
    (m : IsMap s es) where
  pub places-ArePlaced : ArePlaced s.slots_len (λ i. occ i m.tree)
  places-ArePlaced = record {
    apart = λ i. omega (arith, m.places i, in_pool-le i s.slots_len);
    inside = λ i h. in_pool→lt i s.slots_len (omega (arith, m.places i));
  }

  pub find_path_lem :
      (k : K) → (path : Walk) × (find_path k s ≡ some (path, s)) × Search s k m.tree path
  unfolding find_path
  find_path_lem k = simp m.is_root (
      find_from_lem k s (suc s.slots_len) m.tree [] m.held tt places-ArePlaced.inside
        (omega (arith, m.counted, height-le-node_count m.tree)) tt)

  module _ {k : K} {path : Walk} (at : Search s k m.tree path) where
    -- The entries around the place where the search has ended.
    pub around : es ≡ entries_before at.frames ++ entries at.end ++ entries_after at.frames
    around = sym m.listed ∙ rw (sym at.is_whole) (entries-plug at.frames at.end)

    pub parts : (i : ℕ) → occ i at.end + occ_above i at.frames ≡ occ i m.tree
    parts i = sym (occ-plug i at.frames at.end) ∙ ap (occ i) at.is_whole

    pub before-Passed : Passed k (entries_before at.frames)
    before-Passed =
        way-Passed k at.frames (entries at.end ++ entries_after at.frames) at.way
          (rw (around, append_assoc) at m.sorted)

-- The list around the end of a search.
module _ {K V : Type 0} ⦃o : KeyOrder K⦄ {es : List (K × V)} (k : K) (frames : List (Around K V))
    (way : IsWay k frames) (sorted : IsSorted es) where
  pub gap :
      es ≡ entries_before frames ++ [] ++ entries_after frames
      → (es ≡ entries_before frames ++ entries_after frames)
        × Passed k (entries_before frames)
        × IsNext k (entries_after frames)
  gap e =
      let e' = rw (append-nil (entries_before frames)) at e in
      (
        e',
        way-Passed k frames (entries_after frames) way (rw e' at sorted),
        way-IsNext k frames way,
      )

  pub there :
      (ls rs : List (K × V)) (k' : K) (v' : V)
      → es ≡ entries_before frames ++ (ls ++ (k', v') ∷ rs) ++ entries_after frames
      → turn k k' ≡ found
      → (es ≡ (entries_before frames ++ ls) ++ (k', v') ∷ (rs ++ entries_after frames))
        × Passed k (entries_before frames ++ ls)
  there ls rs k' v' e hit =
      let e' = e ∙ reassoc (entries_before frames) ls rs (entries_after frames) (k', v') in
      (
        e',
        sorted-found k k' v' (entries_before frames ++ ls) (rs ++ entries_after frames)
            (rw e' at sorted) hit,
      )

module _ {K V : Type 0} ⦃o : KeyOrder K⦄ {s : TreeMap K V} {es : List (K × V)} where
  handle_of_lem :
      (k : K) (frames : List (Around K V)) (end : Tree K V)
      → IsWay k frames
      → IsEnd k end
      → IsSorted es
      → Held s.slots end
      → ((i : ℕ) → 1 ≤ occ i end → i < s.slots_len)
      → es ≡ entries_before frames ++ entries end ++ entries_after frames
      → (r : Option ℕ) × (handle_of (root_of end) s ≡ some (r, s))
        × (value_of s r ≡ lookup k es)
        × (not (root_of end == 0) ≡ is_some (lookup k es))
  unfolding handle_of
  handle_of_lem k frames leaf way ends sorted held inside e =
      let (e', passed, next) = gap k frames way sorted e in
      let none_there =
        ap (lookup k) e'
        ∙ lookup-gap k (entries_before frames) (entries_after frames) passed next in
      (none, refl, sym none_there, rw none_there refl)
  handle_of_lem k frames (node p l k' v b r) way ends sorted (c, hl, hr) inside e =
      let (e', passed) = there k frames way sorted (entries l) (entries r) k' v e ends in
      let is_there =
        ap (lookup k) e'
        ∙ lookup-there k (entries_before frames ++ entries l) (entries r ++ entries_after frames)
            passed k' v ends in
      (
        some p,
        rw (node-ok p s (inside p (omega (arith, same_self p)))) refl,
        rw is_there (ap (λ n. some n.value) c),
        rw is_there (ap not (suc-ne-zero p)),
      )

  -- On a map that is a balanced search tree in its slots, `get` finds the handle of the value that its
  -- key has among the entries, or nothing when it has none; it does not panic and changes nothing.
  pub get-lookup :
      (m : IsMap s es) (k : K)
      → (r : Option ℕ) × (get k s ≡ some (r, s)) × (value_of s r ≡ lookup k es)
  unfolding get
  get-lookup m k =
      let (path, run, at) = find_path_lem m k in
      let (r, handle, value, _) =
        handle_of_lem k at.frames at.end at.way at.ends m.sorted at.held
          (λ i h. (places-ArePlaced m).inside i (omega (arith, parts m at i))) (around m at) in
      (r, rw (run, at.is_path) handle, value)

  -- `contains_key` says whether the key is among the entries.
  pub contains_key-lookup :
      (m : IsMap s es) (k : K) → contains_key k s ≡ some (is_some (lookup k es), s)
  unfolding contains_key
  contains_key-lookup m k =
      let (path, run, at) = find_path_lem m k in
      let (r, handle, value, is) =
        handle_of_lem k at.frames at.end at.way at.ends m.sorted at.held
          (λ i h. (places-ArePlaced m).inside i (omega (arith, parts m at i))) (around m at) in
      rw (run, at.is_path, is) refl

  -- `len` counts the entries.
  pub len-length : (m : IsMap s es) → len s ≡ length es
  unfolding len
  len-length m = rw (sym m.listed, length-entries m.tree) (omega (arith, m.counted))

module _ {K V : Type 0} ⦃o : KeyOrder K⦄ (s : TreeMap K V) where
  -- A cleared map is a map without entries.
  pub clear-IsMap : IsMap (clear s) []
  unfolding clear in_pool
  clear-IsMap = record {
    tree = leaf;
    is_root = refl;
    held = tt;
    balanced = tt;
    sorted = tt;
    listed = refl;
    places = λ i. ground arith;
    counted = refl;
  }
