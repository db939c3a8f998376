-- ===== src/Base/Chunks.antt =====
-- `slice::chunks`: pieces of a length, the last one with what is left.
use Prim.Native.Nat.{ℕ, zero, suc, ◌*◌, ◌≤◌, ◌<◌}
use mathlib.Core.Path.{ap₂, ◌≡◌, refl, sym, ap, ◌∙◌}
use mathlib.Core.List.{List, [], ◌∷◌, ◌++◌, append-nil}
use native.Mathlib.Omega.{arith}
use ffi_demo.Base.Lists.{
  length, take, drop, concat, length-take, length-drop, length-append, take-append-drop,
  take-length-append, drop-length-append,
}

module _ {ℓ} {A : Type ℓ} where
  -- Each piece takes an element, so the length is enough fuel.
  chunks_fuel : ℕ → ℕ → List A → List (List A)
  chunks_fuel zero n xs = []
  chunks_fuel (suc f) n [] = []
  chunks_fuel (suc f) n (x ∷ xs) = take n (x ∷ xs) ∷ chunks_fuel f n (drop n (x ∷ xs))

  unfoldable pub chunks : ℕ → List A → List (List A)
  unfolding chunks_fuel
  chunks n xs = chunks_fuel (length xs) n xs

  -- Pieces that all have the length.
  abbrev pub AllLength : ℕ → List (List A) → Type 0
  AllLength n [] = Unit
  AllLength n (p ∷ ps) = (length p ≡ n) × AllLength n ps

  concat-chunks_fuel :
      (f n : ℕ) (xs : List A) → length xs ≤ f → 0 < n → concat (chunks_fuel f n xs) ≡ xs
  unfolding chunks_fuel
  concat-chunks_fuel zero n [] h p = refl
  concat-chunks_fuel zero n (x ∷ xs) h p = absurd (omega arith)
  concat-chunks_fuel (suc f) n [] h p = refl
  concat-chunks_fuel (suc f) n (x ∷ xs) h p =
      ap (λ l. take n (x ∷ xs) ++ l)
        (concat-chunks_fuel f n (drop n (x ∷ xs)) (omega (arith, length-drop n (x ∷ xs))) p)
      ∙ take-append-drop n (x ∷ xs)

  -- The pieces, joined, are the list.
  pub concat-chunks : (n : ℕ) (xs : List A) → 0 < n → concat (chunks n xs) ≡ xs
  unfolding chunks
  concat-chunks n xs p = concat-chunks_fuel (length xs) n xs (omega arith) p

  AllLength-chunks_fuel :
      (f n k : ℕ) (xs : List A)
      → length xs ≤ f
      → 0 < n
      → length xs ≡ k * n
      → AllLength n (chunks_fuel f n xs) × (length (chunks_fuel f n xs) ≡ k)
  unfolding chunks_fuel
  AllLength-chunks_fuel zero n zero [] h p m = (tt, refl)
  AllLength-chunks_fuel (suc f) n zero [] h p m = (tt, refl)
  AllLength-chunks_fuel zero n (suc k) [] h p m = absurd (grind arith)
  AllLength-chunks_fuel (suc f) n (suc k) [] h p m = absurd (grind arith)
  AllLength-chunks_fuel zero n k (x ∷ xs) h p m = absurd (omega arith)
  AllLength-chunks_fuel (suc f) n zero (x ∷ xs) h p m = absurd (omega arith)
  AllLength-chunks_fuel (suc f) n (suc k) (x ∷ xs) h p m =
      let shorter = length-drop n (x ∷ xs) in
      let (all, count) =
        AllLength-chunks_fuel f n k (drop n (x ∷ xs)) (omega arith) p (omega arith) in
      ((omega (arith, length-take n (x ∷ xs)), all), ap suc count)

  -- A multiple of the length is cut into pieces of exactly the length.
  pub AllLength-chunks :
      (n k : ℕ) (xs : List A)
      → 0 < n
      → length xs ≡ k * n
      → AllLength n (chunks n xs) × (length (chunks n xs) ≡ k)
  unfolding chunks
  AllLength-chunks n k xs p m = AllLength-chunks_fuel (length xs) n k xs (omega arith) p m

  one_piece : (ps : List (List A)) (xs : List A) → length ps ≡ 1 → concat ps ≡ xs → ps ≡ xs ∷ []
  one_piece [] xs h e = absurd (omega arith)
  one_piece (p ∷ []) xs h e = ap (λ q. q ∷ []) (sym (append-nil p) ∙ e)
  one_piece (p ∷ q ∷ ps) xs h e = absurd (omega arith)

  -- A list of the length is its only piece.
  pub chunks_self : (n : ℕ) (xs : List A) → 0 < n → length xs ≡ n → chunks n xs ≡ xs ∷ []
  chunks_self n xs p h =
      one_piece (chunks n xs) xs (AllLength-chunks n 1 xs p (omega arith)).1 (concat-chunks n xs p)

  chunks_fuel-concat :
      (f n : ℕ) (ps : List (List A))
      → length (concat ps) ≤ f
      → 0 < n
      → AllLength n ps
      → chunks_fuel f n (concat ps) ≡ ps
  unfolding chunks_fuel
  chunks_fuel-concat zero n [] h p a = refl
  chunks_fuel-concat (suc f) n [] h p a = refl
  chunks_fuel-concat f n ([] ∷ ps) h p a = absurd (omega arith)
  chunks_fuel-concat zero n ((x ∷ q) ∷ ps) h p a = absurd (omega arith)
  chunks_fuel-concat (suc f) n ((x ∷ q) ∷ ps) h p a =
      let all = (x ∷ q) ++ concat ps in
      let here = ap (λ i. take i all) (sym a.0) ∙ take-length-append (x ∷ q) (concat ps) in
      let later = ap (λ i. drop i all) (sym a.0) ∙ drop-length-append (x ∷ q) (concat ps) in
      let short : length (concat ps) ≤ f = omega (arith, length-append q (concat ps)) in
      ap₂ ◌∷◌ here (ap (chunks_fuel f n) later ∙ chunks_fuel-concat f n ps short p a.1)

  -- Pieces of the length, joined, are cut again into the same pieces.
  pub chunks-concat :
      (n : ℕ) (ps : List (List A)) → 0 < n → AllLength n ps → chunks n (concat ps) ≡ ps
  unfolding chunks
  chunks-concat n ps p a = chunks_fuel-concat (length (concat ps)) n ps (omega arith) p a
