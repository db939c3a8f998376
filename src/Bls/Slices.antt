-- ===== src/Bls/Slices.antt =====
-- How `hash_verify` cuts the flattened messages.
use Prim.Native.Nat.add
use mathlib.Core.Path.{ap₂}
use native.Mathlib.Decide.{dec_le}
use ffi_demo.Base.{
  Bool-cases, inl, inr, ℕ, zero, suc, ◌+◌, ◌-◌, ◌%◌, ◌≤◌, ◌<◌, ◌≡◌, refl, sym, ap, ◌∙◌, List, [],
  ◌∷◌, ◌++◌, ◌⊎◌, map, concat, sum, length, take, drop, length-take, length-drop, ltb, arith,
}
use ffi_demo.Base.Effect.{Payload, owned, returns, panics}
use ffi_demo.Bls.{usize_mod, slice, push_slice, split_messages}

-- Every size is a `usize`.
abbrev pub AllUsize : List ℕ → Type 0
AllUsize [] = Unit
AllUsize (n ∷ ns) = (n < usize_mod) × AllUsize ns

module _ {A : Type 0} where
  drop-nil : (n : ℕ) → drop {A = A} n [] ≡ []
  drop-nil zero = refl
  drop-nil (suc n) = refl

  take-nil : (n : ℕ) → take {A = A} n [] ≡ []
  take-nil zero = refl
  take-nil (suc n) = refl

  drop-drop : (m n : ℕ) (xs : List A) → drop n (drop m xs) ≡ drop (m + n) xs
  drop-drop zero n xs = rw add.zero
  drop-drop (suc m) n [] = drop-nil n ∙ sym (drop-nil (suc m + n))
  drop-drop (suc m) n (x ∷ xs) = rw add.suc (drop-drop m n xs)

  take-take-drop : (m n : ℕ) (xs : List A) → take m xs ++ take n (drop m xs) ≡ take (m + n) xs
  take-take-drop zero n xs = rw add.zero
  take-take-drop (suc m) n [] = take-nil n ∙ sym (take-nil (suc m + n))
  take-take-drop (suc m) n (x ∷ xs) = rw add.suc (ap (◌∷◌ x) (take-take-drop m n xs))

-- A slice in bounds.
slice_inside :
    (start size : ℕ) (bytes : List ℕ)
    → start + size ≤ length bytes
    → slice start (start + size) bytes ≡ returns (take size (drop start bytes))
unfolding slice
slice_inside start size bytes h =
    let width : start + size - start ≡ size = omega arith in rw width (ground arith)

-- A slice beyond the bytes panics, also if its end wraps around.
slice_outside :
    (start size : ℕ) (bytes : List ℕ)
    → start ≤ length bytes
    → length bytes < usize_mod
    → size < usize_mod
    → length bytes < start + size
    → (p : Payload) × (slice start ((start + size) % usize_mod) bytes ≡ panics p)
unfolding slice
slice_outside start size bytes s l z h =
    elim (Bool-cases (ltb ((start + size) % usize_mod) start)) [
      | inl below ↦ (owned "slice index starts after its end", ground arith)
      | inr above ↦ (owned "range end index out of range", ground arith)
    ]

-- One size that fits.
pub split_messages_step :
    (offset n : ℕ) (ns bytes : List ℕ)
    → length bytes < usize_mod
    → offset + n ≤ length bytes
    → split_messages offset (n ∷ ns) bytes
      ≡ push_slice (returns (take n (drop offset bytes))) (split_messages (offset + n) ns bytes)
unfolding split_messages
split_messages_step offset n ns bytes l inside =
    let same : (offset + n) % usize_mod ≡ offset + n = omega arith in
    rw (same, slice_inside offset n bytes inside)

-- If the sizes add up to at most the bytes, the loop returns messages of these sizes, which joined
-- are the bytes from the offset on, up to that sum. Bytes after it are not looked at.
pub split_messages-returns :
    (offset : ℕ) (sizes bytes : List ℕ)
    → length bytes < usize_mod
    → offset + sum sizes ≤ length bytes
    → (ms : List (List ℕ)) × (split_messages offset sizes bytes ≡ returns ms)
      × (concat ms ≡ take (sum sizes) (drop offset bytes))
      × (map length ms ≡ sizes)
unfolding split_messages
split_messages-returns offset [] bytes l h = ([], refl, refl, refl)
split_messages-returns offset (n ∷ ns) bytes l h =
    let here = take n (drop offset bytes) in
    let step = split_messages_step offset n ns bytes l (omega arith) in
    let (ms, e, joined, sizes) = split_messages-returns (offset + n) ns bytes l (omega arith) in
    (
      here ∷ ms,
      step ∙ ap (push_slice (returns here)) e,
      rw joined (rw (← drop-drop offset n bytes) (take-take-drop n (sum ns) (drop offset bytes))),
      ap₂ ◌∷◌ (omega (arith, length-take n (drop offset bytes), length-drop offset bytes)) sizes,
    )

-- If they add up to more, the loop panics, also where an addition wraps around.
pub split_messages-panics :
    (offset : ℕ) (sizes bytes : List ℕ)
    → length bytes < usize_mod
    → AllUsize sizes
    → offset ≤ length bytes
    → length bytes < offset + sum sizes
    → (p : Payload) × (split_messages offset sizes bytes ≡ panics p)
unfolding split_messages
split_messages-panics offset [] bytes l z o h = absurd (omega arith)
split_messages-panics offset (n ∷ ns) bytes l z o h = elim (dec_le (offset + n) (length bytes)) [
  | yes inside ↦
      let step = split_messages_step offset n ns bytes l inside in
      let (p, e) = split_messages-panics (offset + n) ns bytes l z.1 inside (omega arith) in
      (p, step ∙ ap (push_slice (returns (take n (drop offset bytes)))) e)
  | no outside ↦
      let (p, e) = slice_outside offset n bytes o l z.0 (omega arith) in
      (p, ap (λ r. push_slice r (split_messages ((offset + n) % usize_mod) ns bytes)) e)
]

-- For fewer than 2^64 bytes and sizes that are each a `usize`, the loop does one of two things. If
-- the sizes add up to at most the bytes after the offset, it returns messages of these sizes, which
-- joined are these bytes up to that sum. If they add up to more, it panics, also where an addition
-- wraps around.
pub split_messages_cuts :
    (offset : ℕ) (sizes bytes : List ℕ)
    → length bytes < usize_mod
    → AllUsize sizes
    → offset ≤ length bytes
    → ((offset + sum sizes ≤ length bytes)
        × ((ms : List (List ℕ)) × (split_messages offset sizes bytes ≡ returns ms)
            × (concat ms ≡ take (sum sizes) (drop offset bytes))
            × (map length ms ≡ sizes)))
      ⊎ ((length bytes < offset + sum sizes)
          × ((p : Payload) × (split_messages offset sizes bytes ≡ panics p)))
split_messages_cuts offset sizes bytes l z o = elim (dec_le (offset + sum sizes) (length bytes)) [
  | yes inside ↦ inl (inside, split_messages-returns offset sizes bytes l inside)
  | no outside ↦
      let more : length bytes < offset + sum sizes = omega arith in
      inr (more, split_messages-panics offset sizes bytes l z o more)
]
