-- ===== src/TreeMap/Laws.antt =====
-- The laws of the map's specification: what is looked up after a put and after an erasure.
use genvm_executor.Base.{◌≡◌, ◌≢◌, refl, sym, ap, ◌∙◌, true, none, some, List, [], ◌∷◌, inl, inr}
use genvm_executor.TreeMap.Lookup.{KeyOrder, go_left, go_right, found, turn, Turn-cases}
use genvm_executor.TreeMap.Entries.{
  lookup, put, erase, IsSorted, IsNext, Above, found→same, lt→go_left, go_left→lt, lookup-next,
}

module _ {K : Type 0} ⦃o : KeyOrder K⦄ where
  turn_self : (k : K) → turn k k ≡ found
  unfolding turn
  turn_self k = simp (o.lt_irrefl k)

module _ {K V : Type 0} ⦃o : KeyOrder K⦄ (k k' : K) (v' : V) (es : List (K × V)) where
  lookup-left : turn k k' ≡ go_left → lookup k ((k', v') ∷ es) ≡ none
  unfolding lookup
  lookup-left e = rw (e, lookup) refl

  lookup-right : turn k k' ≡ go_right → lookup k ((k', v') ∷ es) ≡ lookup k es
  unfolding lookup
  lookup-right e = rw (e, lookup) refl

  lookup-here : turn k k' ≡ found → lookup k ((k', v') ∷ es) ≡ some v'
  unfolding lookup
  lookup-here e = rw (e, lookup) refl

  put-left : (v : V) → turn k k' ≡ go_left → put k v ((k', v') ∷ es) ≡ (k, v) ∷ (k', v') ∷ es
  unfolding put
  put-left v e = rw (e, put) refl

  put-right : (v : V) → turn k k' ≡ go_right → put k v ((k', v') ∷ es) ≡ (k', v') ∷ put k v es
  unfolding put
  put-right v e = rw (e, put) refl

  put-here : (v : V) → turn k k' ≡ found → put k v ((k', v') ∷ es) ≡ (k', v) ∷ es
  unfolding put
  put-here v e = rw (e, put) refl

  erase-left : turn k k' ≡ go_left → erase k ((k', v') ∷ es) ≡ (k', v') ∷ es
  unfolding erase
  erase-left e = rw (e, erase) refl

  erase-right : turn k k' ≡ go_right → erase k ((k', v') ∷ es) ≡ (k', v') ∷ erase k es
  unfolding erase
  erase-right e = rw (e, erase) refl

  erase-here : turn k k' ≡ found → erase k ((k', v') ∷ es) ≡ es
  unfolding erase
  erase-here e = rw (e, erase) refl

module _ {K V : Type 0} ⦃o : KeyOrder K⦄ where
  Above-IsNext : (k : K) (es : List (K × V)) → Above k es → IsNext k es
  Above-IsNext k [] h = tt
  Above-IsNext k ((x, w) ∷ es) h = lt→go_left k x h.0

  -- The same entry in front of two lists.
  lookup-cons :
      (k k' : K) (v' : V) (xs ys : List (K × V))
      → lookup k xs ≡ lookup k ys
      → lookup k ((k', v') ∷ xs) ≡ lookup k ((k', v') ∷ ys)
  lookup-cons k k' v' xs ys h = elim (Turn-cases (turn k k')) [
    | inl e ↦ lookup-left k k' v' xs e ∙ sym (lookup-left k k' v' ys e)
    | inr (inl e) ↦ lookup-right k k' v' xs e ∙ h ∙ sym (lookup-right k k' v' ys e)
    | inr (inr e) ↦ lookup-here k k' v' xs e ∙ sym (lookup-here k k' v' ys e)
  ]

  pub lookup-put_self : (k : K) (v : V) (es : List (K × V)) → lookup k (put k v es) ≡ some v
  unfolding put
  lookup-put_self k v [] = lookup-here k k v [] (turn_self k)
  lookup-put_self k v ((k', v') ∷ es) = elim (Turn-cases (turn k k')) [
    | inl e ↦
        ap (lookup k) (put-left k k' v' es v e) ∙ lookup-here k k v ((k', v') ∷ es) (turn_self k)
    | inr (inl e) ↦
        ap (lookup k) (put-right k k' v' es v e)
        ∙ lookup-right k k' v' (put k v es) e
        ∙ lookup-put_self k v es
    | inr (inr e) ↦ ap (lookup k) (put-here k k' v' es v e) ∙ lookup-here k k' v es e
  ]

  -- A key before the first one, or another key, in front.
  lookup-front :
      (k k0 : K) (v : V) (es : List (K × V))
      → k0 ≢ k
      → IsNext k es
      → lookup k0 ((k, v) ∷ es) ≡ lookup k0 es
  lookup-front k k0 v es ne next = elim (Turn-cases (turn k0 k)) [
    | inl e ↦
        lookup-left k0 k v es e ∙ sym (lookup-next k0 es (earlier es next (go_left→lt k0 k e)))
    | inr (inl e) ↦ lookup-right k0 k v es e
    | inr (inr e) ↦ absurd (ne (found→same k0 k e))
  ]
    where
      earlier : (xs : List (K × V)) → IsNext k xs → o.lt k0 k ≡ true → IsNext k0 xs
      earlier [] n h = tt
      earlier ((x, w) ∷ xs) n h = lt→go_left k0 x (o.lt_trans k0 k x h (go_left→lt k x n))

  pub lookup-put_ne :
      (k k0 : K) (v : V) (es : List (K × V)) → k0 ≢ k → lookup k0 (put k v es) ≡ lookup k0 es
  unfolding put
  lookup-put_ne k k0 v [] ne = lookup-front k k0 v [] ne tt
  lookup-put_ne k k0 v ((k', v') ∷ es) ne = elim (Turn-cases (turn k k')) [
    | inl e ↦ ap (lookup k0) (put-left k k' v' es v e) ∙ lookup-front k k0 v ((k', v') ∷ es) ne e
    | inr (inl e) ↦
        ap (lookup k0) (put-right k k' v' es v e)
        ∙ lookup-cons k0 k' v' (put k v es) es (lookup-put_ne k k0 v es ne)
    | inr (inr e) ↦
        let same_key = found→same k k' e in
        ap (lookup k0) (put-here k k' v' es v e) ∙ elim (Turn-cases (turn k0 k')) [
          | inl t ↦ lookup-left k0 k' v es t ∙ sym (lookup-left k0 k' v' es t)
          | inr (inl t) ↦ lookup-right k0 k' v es t ∙ sym (lookup-right k0 k' v' es t)
          | inr (inr t) ↦ absurd (ne (found→same k0 k' t ∙ sym same_key))
        ]
  ]

  pub lookup-erase_ne :
      (k k0 : K) (es : List (K × V)) → k0 ≢ k → IsSorted es → lookup k0 (erase k es) ≡ lookup k0 es
  unfolding erase
  lookup-erase_ne k k0 [] ne s = refl
  lookup-erase_ne k k0 ((k', v') ∷ es) ne (a, s) = elim (Turn-cases (turn k k')) [
    | inl e ↦ ap (lookup k0) (erase-left k k' v' es e)
    | inr (inl e) ↦
        ap (lookup k0) (erase-right k k' v' es e)
        ∙ lookup-cons k0 k' v' (erase k es) es (lookup-erase_ne k k0 es ne s)
    | inr (inr e) ↦
        ap (lookup k0) (erase-here k k' v' es e)
        ∙ sym (
            lookup-front k' k0 v' es (λ h. ne (h ∙ sym (found→same k k' e))) (Above-IsNext k' es a))
  ]

  pub lookup-erase_self : (k : K) (es : List (K × V)) → IsSorted es → lookup k (erase k es) ≡ none
  unfolding erase
  lookup-erase_self k [] s = lookup-next k [] tt
  lookup-erase_self k ((k', v') ∷ es) (a, s) = elim (Turn-cases (turn k k')) [
    | inl e ↦ ap (lookup k) (erase-left k k' v' es e) ∙ lookup-left k k' v' es e
    | inr (inl e) ↦
        ap (lookup k) (erase-right k k' v' es e)
        ∙ lookup-right k k' v' (erase k es) e
        ∙ lookup-erase_self k es s
    | inr (inr e) ↦
        ap (lookup k) (erase-here k k' v' es e)
        ∙ lookup-next k es (rw (found→same k k' e) (Above-IsNext k' es a))
  ]
