-- ===== src/TreeMap/Entries.antt =====
-- What a tree map is for its callers: its entries in the order of their keys, looked up, put and erased.
use genvm_executor.Base.{
  ◌≡◌, refl, ap, ◌∙◌, true, false, Option, none, some, List, [], ◌∷◌, ◌++◌, All, Bool-cases, inl,
  inr,
}
use genvm_executor.TreeMap.Lookup.{KeyOrder, go_left, go_right, found, turn, Turn-cases}
use native.Mathlib.Omega.{arith}

module _ {K : Type 0} ⦃o : KeyOrder K⦄ where
  pub lt→go_left : (a b : K) → o.lt a b ≡ true → turn a b ≡ go_left
  unfolding turn
  lt→go_left a b h = rw h refl

  lt-asym : (a b : K) → o.lt a b ≡ true → o.lt b a ≡ false
  lt-asym a b h = elim (Bool-cases (o.lt b a)) [
    | inl back ↦ let loop = o.lt_trans a b a h back in let not = o.lt_irrefl a in cc
    | inr ok ↦ ok
  ]

  pub lt→go_right : (a b : K) → o.lt b a ≡ true → turn a b ≡ go_right
  unfolding turn
  lt→go_right a b h = rw (lt-asym b a h, h) refl

  pub go_left→lt : (a b : K) → turn a b ≡ go_left → o.lt a b ≡ true
  unfolding turn
  go_left→lt a b h = ground arith

  pub go_right→lt : (a b : K) → turn a b ≡ go_right → o.lt b a ≡ true
  unfolding turn
  go_right→lt a b h = ground arith

  pub found→same : (a b : K) → turn a b ≡ found → a ≡ b
  unfolding turn
  found→same a b h = o.lt_connected a b (ground arith) (ground arith)

module _ {K V : Type 0} ⦃o : KeyOrder K⦄ where
  unfoldable pub lookup : K → List (K × V) → Option V
  lookup k [] = none
  lookup k ((k', v) ∷ es) = elim (turn k k') [
    | go_left ↦ none
    | go_right ↦ lookup k es
    | found ↦ some v
  ]

  unfoldable pub put : K → V → List (K × V) → List (K × V)
  put k v [] = (k, v) ∷ []
  put k v ((k', v') ∷ es) = elim (turn k k') [
    | go_left ↦ (k, v) ∷ (k', v') ∷ es
    | go_right ↦ (k', v') ∷ put k v es
    | found ↦ (k', v) ∷ es
  ]

  unfoldable pub erase : K → List (K × V) → List (K × V)
  erase k [] = []
  erase k ((k', v') ∷ es) = elim (turn k k') [
    | go_left ↦ (k', v') ∷ es
    | go_right ↦ (k', v') ∷ erase k es
    | found ↦ es
  ]

  abbrev pub Above : K → List (K × V) → Type 0
  Above k es = All (λ e. o.lt k e.0 ≡ true) es

  abbrev pub Passed : K → List (K × V) → Type 0
  Passed k es = All (λ e. turn k e.0 ≡ go_right) es

  abbrev pub IsSorted : List (K × V) → Type 0
  IsSorted [] = Unit {0}
  IsSorted ((k, v) ∷ es) = Above k es × IsSorted es

  -- The first entry, if there is one, has a larger key.
  abbrev pub IsNext : K → List (K × V) → Type 0
  IsNext k [] = Unit {0}
  IsNext k ((k', v) ∷ es) = turn k k' ≡ go_left

  pub lookup-passed :
      (k : K) (xs ys : List (K × V)) → Passed k xs → lookup k (xs ++ ys) ≡ lookup k ys
  unfolding lookup
  lookup-passed k [] ys h = refl
  lookup-passed k ((x, w) ∷ xs) ys (e, h) = rw (e, lookup) (lookup-passed k xs ys h)

  pub lookup-next : (k : K) (ys : List (K × V)) → IsNext k ys → lookup k ys ≡ none
  unfolding lookup
  lookup-next k [] h = refl
  lookup-next k ((y, w) ∷ ys) h = rw (h, lookup) refl

  pub put-passed :
      (k : K) (v : V) (xs ys : List (K × V)) → Passed k xs → put k v (xs ++ ys) ≡ xs ++ put k v ys
  unfolding put
  put-passed k v [] ys h = refl
  put-passed k v ((x, w) ∷ xs) ys (e, h) =
      rw (e, put) (ap (λ es. (x, w) ∷ es) (put-passed k v xs ys h))

  pub put-next : (k : K) (v : V) (ys : List (K × V)) → IsNext k ys → put k v ys ≡ (k, v) ∷ ys
  unfolding put
  put-next k v [] h = refl
  put-next k v ((y, w) ∷ ys) h = rw (h, put) refl

  pub erase-passed :
      (k : K) (xs ys : List (K × V)) → Passed k xs → erase k (xs ++ ys) ≡ xs ++ erase k ys
  unfolding erase
  erase-passed k [] ys h = refl
  erase-passed k ((x, w) ∷ xs) ys (e, h) =
      rw (e, erase) (ap (λ es. (x, w) ∷ es) (erase-passed k xs ys h))

  pub erase-next : (k : K) (ys : List (K × V)) → IsNext k ys → erase k ys ≡ ys
  unfolding erase
  erase-next k [] h = refl
  erase-next k ((y, w) ∷ ys) h = rw (h, erase) refl

  -- A walk that goes right at a key has passed all that come before it.
  pub sorted-Passed :
      (k k' : K) (v' : V) (xs ys : List (K × V))
      → IsSorted (xs ++ (k', v') ∷ ys)
      → o.lt k' k ≡ true
      → Passed k (xs ++ (k', v') ∷ [])
  sorted-Passed k k' v' [] ys s h = (lt→go_right k k' h, tt)
  sorted-Passed k k' v' ((x, w) ∷ xs) ys (ab, s) h =
      (lt→go_right k x (o.lt_trans x k' k (reach xs ab) h), sorted-Passed k k' v' xs ys s h)
    where
      reach : (xs' : List (K × V)) → Above x (xs' ++ (k', v') ∷ ys) → o.lt x k' ≡ true
      reach [] a = a.0
      reach (y ∷ xs') a = reach xs' a.1

  put-Above :
      (k0 k : K) (v : V) (es : List (K × V))
      → o.lt k0 k ≡ true
      → Above k0 es
      → Above k0 (put k v es)
  unfolding put
  put-Above k0 k v [] h a = (h, tt)
  put-Above k0 k v ((k', v') ∷ es) h (b, a) = elim (Turn-cases (turn k k')) [
    | inl e ↦ rw (e, put) (h, (b, a))
    | inr (inl e) ↦ rw (e, put) (b, put-Above k0 k v es h a)
    | inr (inr e) ↦ rw (e, put) (b, a)
  ]

  Above-Above : (k k' : K) (es : List (K × V)) → o.lt k k' ≡ true → Above k' es → Above k es
  Above-Above k k' [] h a = tt
  Above-Above k k' ((x, w) ∷ es) h (b, a) = (o.lt_trans k k' x h b, Above-Above k k' es h a)

  pub put-IsSorted : (k : K) (v : V) (es : List (K × V)) → IsSorted es → IsSorted (put k v es)
  unfolding put
  put-IsSorted k v [] s = (tt, tt)
  put-IsSorted k v ((k', v') ∷ es) (a, s) = elim (Turn-cases (turn k k')) [
    | inl e ↦ rw (e, put) ((go_left→lt k k' e, Above-Above k k' es (go_left→lt k k' e) a), (a, s))
    | inr (inl e) ↦ rw (e, put) (put-Above k' k v es (go_right→lt k k' e) a, put-IsSorted k v es s)
    | inr (inr e) ↦ rw (e, put) (a, s)
  ]

  erase-Above : (k0 k : K) (es : List (K × V)) → Above k0 es → Above k0 (erase k es)
  unfolding erase
  erase-Above k0 k [] a = tt
  erase-Above k0 k ((k', v') ∷ es) (b, a) = elim (Turn-cases (turn k k')) [
    | inl e ↦ rw (e, erase) (b, a)
    | inr (inl e) ↦ rw (e, erase) (b, erase-Above k0 k es a)
    | inr (inr e) ↦ rw (e, erase) a
  ]

  pub erase-IsSorted : (k : K) (es : List (K × V)) → IsSorted es → IsSorted (erase k es)
  unfolding erase
  erase-IsSorted k [] s = tt
  erase-IsSorted k ((k', v') ∷ es) (a, s) = elim (Turn-cases (turn k k')) [
    | inl e ↦ rw (e, erase) (a, s)
    | inr (inl e) ↦ rw (e, erase) (erase-Above k' k es a, erase-IsSorted k es s)
    | inr (inr e) ↦ rw (e, erase) s
  ]

  -- All that comes before a key has been passed when the key is found.
  pub sorted-found :
      (k k' : K) (v' : V) (xs ys : List (K × V))
      → IsSorted (xs ++ (k', v') ∷ ys)
      → turn k k' ≡ found
      → Passed k xs
  sorted-found k k' v' [] ys s e = tt
  sorted-found k k' v' ((x, w) ∷ xs) ys (ab, s) e =
      (lt→go_right k x (rw (found→same k k' e) (reach xs ab)), sorted-found k k' v' xs ys s e)
    where
      reach : (xs' : List (K × V)) → Above x (xs' ++ (k', v') ∷ ys) → o.lt x k' ≡ true
      reach [] a = a.0
      reach (y ∷ xs') a = reach xs' a.1

  -- The operations at the place of a key that is there, or of one that is not.
  module _ (k : K) (xs ys : List (K × V)) (passed : Passed k xs) where
    pub lookup-gap : IsNext k ys → lookup k (xs ++ ys) ≡ none
    lookup-gap next = lookup-passed k xs ys passed ∙ lookup-next k ys next

    pub put-gap : (v : V) → IsNext k ys → put k v (xs ++ ys) ≡ xs ++ (k, v) ∷ ys
    put-gap v next = put-passed k v xs ys passed ∙ ap (λ es. xs ++ es) (put-next k v ys next)

    pub erase-gap : IsNext k ys → erase k (xs ++ ys) ≡ xs ++ ys
    erase-gap next = erase-passed k xs ys passed ∙ ap (λ es. xs ++ es) (erase-next k ys next)

    module _ (k' : K) (v' : V) (e : turn k k' ≡ found) where
      pub lookup-there : lookup k (xs ++ (k', v') ∷ ys) ≡ some v'
      unfolding lookup
      lookup-there = lookup-passed k xs ((k', v') ∷ ys) passed ∙ rw (e, lookup) refl

      pub put-there : (v : V) → put k v (xs ++ (k', v') ∷ ys) ≡ xs ++ (k', v) ∷ ys
      unfolding put
      put-there v = put-passed k v xs ((k', v') ∷ ys) passed ∙ rw (e, put) refl

      pub erase-there : erase k (xs ++ (k', v') ∷ ys) ≡ xs ++ ys
      unfolding erase
      erase-there = erase-passed k xs ((k', v') ∷ ys) passed ∙ rw (e, erase) refl
