-- ===== src/Proofs/Aggregate/Schedules.antt =====
-- The parallel conversion of rust/src/proofs/api.rs against one that goes through the inputs in order.
use mathlib.Core.Path.{ap₂, subst}
use mathlib.Core.List.{map-append}
use ffi_demo.Base.{
  ◌≡◌, refl, sym, ap, ◌∙◌, List, [], ◌∷◌, ◌++◌, map, concat, concat-append, append-nil, arith,
}
use ffi_demo.Base.Effect.{Result, ok, Unwind, returns}
use ffi_demo.Proofs.Aggregate.{TryReduce, nothing, one, join, fails, unwinds}

ok-injective : {A : Type 0} {a b : A} → returns (ok a) ≡ returns (ok b) → a ≡ b
ok-injective h = cc

module _ {A B : Type 0} (f : A → Unwind (Result (List B))) where
  -- Every item is converted, to these values.
  abbrev pub Yields : List A → List (List B) → Type 0
  Yields l vs = map f l ≡ map (λ v. returns (ok v)) vs

  abbrev pub Joined : List A → Unwind (Result (List B)) → Type 0
  Joined = TryReduce f [] (λ acc current. acc ++ current)

  Yields-cons :
      (x : A) (l : List A) (vs : List (List B))
      → Yields (x ∷ l) vs
      → (v : List B) × (rest : List (List B)) × (vs ≡ v ∷ rest)
        × (f x ≡ returns (ok v))
        × Yields l rest
  Yields-cons x l [] h = absurd (cc)
  Yields-cons x l (v ∷ vs) h = (v, vs, refl, ground arith, ground arith)

  Yields-append :
      (xs ys : List A) (vs : List (List B))
      → Yields (xs ++ ys) vs
      → (left right : List (List B)) × (vs ≡ left ++ right) × Yields xs left × Yields ys right
  Yields-append [] ys vs h = ([], vs, refl, refl, h)
  Yields-append (x ∷ xs) ys vs h =
      let (v, rest, e, here, later) = Yields-cons x (xs ++ ys) vs h in
      let (left, right, e', l, r) = Yields-append xs ys rest later in
      (v ∷ left, right, e ∙ ap (◌∷◌ v) e', ap₂ ◌∷◌ here l, r)

  Yields-one :
      (x : A) (v : List B) (vs : List (List B))
      → Yields (x ∷ []) vs
      → f x ≡ returns (ok v)
      → concat vs ≡ v
  Yields-one x v [] h c = absurd (cc)
  Yields-one x v (w ∷ []) h c = let same : w ≡ v = cc in append-nil w ∙ same
  Yields-one x v (w ∷ u ∷ vs) h c = absurd (cc)

  -- If every item is converted, every schedule ends with all the values in order.
  pub Joined-concat :
      {l : List A} {r : Unwind (Result (List B))} (vs : List (List B))
      → Joined l r
      → Yields l vs
      → r ≡ returns (ok (concat vs))
  Joined-concat [] (nothing e r) h = r
  Joined-concat (v ∷ vs) (nothing e r) h = absurd (grind arith)
  Joined-concat vs (one x v e c r) h =
      let same = Yields-one x v vs (subst (λ l. Yields l vs) e h) c in
      r ∙ ap (λ w. returns (ok w)) (sym same)
  Joined-concat vs (join xs ys a b e left right r) h =
      let (v1, v2, split, l, m) = Yields-append xs ys vs (subst (λ l. Yields l vs) e h) in
      let first = ok-injective (Joined-concat v1 left l) in
      let second = ok-injective (Joined-concat v2 right m) in
      let all = ap₂ ◌++◌ first second ∙ sym (concat-append v1 v2) ∙ ap concat (sym split) in
      r ∙ ap (λ w. returns (ok w)) all
  Joined-concat vs (fails xs ys x e' e c r) h =
      let (v1, v2, split, l, m) = Yields-append xs (x ∷ ys) vs (subst (λ l. Yields l vs) e h) in
      let (v, rest, split', here, later) = Yields-cons x ys v2 m in absurd (cc)
  Joined-concat vs (unwinds xs ys x p e c r) h =
      let (v1, v2, split, l, m) = Yields-append xs (x ∷ ys) vs (subst (λ l. Yields l vs) e h) in
      let (v, rest, split', here, later) = Yields-cons x ys v2 m in absurd (cc)

  -- If a schedule ends with a value, every item is converted, and the value is all of theirs in
  -- order.
  pub Joined-Yields :
      {l : List A} {r : Unwind (Result (List B))} (a : List B)
      → Joined l r
      → r ≡ returns (ok a)
      → (vs : List (List B)) × Yields l vs × (concat vs ≡ a)
  Joined-Yields a (nothing e r) h = ([], ground arith, ground arith)
  Joined-Yields a (one x v e c r) h = (v ∷ [], ground arith, ground (arith, append-nil v))
  Joined-Yields a (join xs ys b c e left right r) h =
      let (v1, l, e1) = Joined-Yields b left refl in
      let (v2, m, e2) = Joined-Yields c right refl in
      (
        v1 ++ v2,
        subst (λ i. Yields i (v1 ++ v2)) (sym e)
            (map-append f xs ys ∙ ap₂ ◌++◌ l m ∙ sym (map-append (λ v. returns (ok v)) v1 v2)),
        concat-append v1 v2 ∙ ap₂ ◌++◌ e1 e2 ∙ ok-injective (sym r ∙ h),
      )
  Joined-Yields a (fails xs ys x e' e c r) h = absurd (cc)
  Joined-Yields a (unwinds xs ys x p e c r) h = absurd (cc)

  -- There is a schedule for any items that are converted: one item after the other.
  pub Yields-Joined :
      (l : List A) (vs : List (List B)) → Yields l vs → Joined l (returns (ok (concat vs)))
  Yields-Joined [] [] h = nothing refl refl
  Yields-Joined [] (v ∷ vs) h = absurd (cc)
  Yields-Joined (x ∷ l) vs h =
      let (v, rest, split, here, later) = Yields-cons x l vs h in
      join (x ∷ []) l v (concat rest) refl (one x v refl here refl) (Yields-Joined l rest later)
        (ap (λ w. returns (ok (concat w))) split)
