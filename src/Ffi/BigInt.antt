-- ===== src/Ffi/BigInt.antt =====
-- fvm.go: `splitBigInt` and `reformBigInt`, between a `big.Int` and two words. The words of `math/big`
-- are its digits to the base 2^64, from the lowest.
use native.Mathlib.Decide.{dec_le}
use ffi_demo.Base.{
  ℕ, zero, suc, ◌+◌, ◌*◌, ◌/◌, ◌%◌, ◌^◌, ◌≤◌, ◌<◌, ◌≡◌, refl, ◌∙◌, ap, ◌⊎◌, inl, inr, String, ◌<>◌,
  List, [], ◌∷◌, ltb, if◌then◌else◌, arith,
}
use ffi_demo.Base.Int.{ℤ, pos, negsuc}
use ffi_demo.Base.Bits.{join_u64, join_u64-sum}
use ffi_demo.Base.Effect.{Error, message, Result, ok, err}

-- Each digit divides the number, so the number is enough fuel.
unfoldable pub bits_fuel : ℕ → ℕ → List ℕ
bits_fuel zero n = []
bits_fuel (suc f) zero = []
bits_fuel (suc f) (suc n) = suc n % 2 ^ 64 ∷ bits_fuel f (suc n / 2 ^ 64)

-- `i.Bits()`, of the absolute value
unfoldable pub bits : ℕ → List ℕ
unfolding bits_fuel
bits n = bits_fuel n n

-- `SetBits`
abbrev pub set_bits : List ℕ → ℕ
set_bits [] = 0
set_bits (word ∷ words) = word + set_bits words * 2 ^ 64

-- `switch len(words)` with its `fallthrough`: the high word and the low one
unfoldable pub split_words : String → List ℕ → Result (ℕ × ℕ)
split_words shown [] = ok (0, 0)
split_words shown (w0 ∷ []) = ok (0, w0)
split_words shown (w0 ∷ w1 ∷ []) = ok (w1, w0)
split_words shown (w0 ∷ w1 ∷ w2 ∷ words) = err (message ("exceeds max bigint size: " <> shown))

-- `show` is the number's `%s`.
unfoldable pub split_big_int : (ℤ → String) → ℤ → Result (ℕ × ℕ)
unfolding bits split_words
split_big_int show (negsuc n) = err (message ("negative number: " <> show (negsuc n)))
split_big_int show (pos n) = split_words (show (pos n)) (bits n)

unfoldable pub reform_big_int : ℕ → ℕ → ℤ
reform_big_int hi lo =
    if ltb 0 hi
    then pos (set_bits (lo ∷ hi ∷ []))
    else if ltb 0 lo
    then pos (set_bits (lo ∷ []))
    else pos 0

-- Two words make up the number they are the digits of.
pub reform_big_int_lem : (hi lo : ℕ) → reform_big_int hi lo ≡ pos (hi * 2 ^ 64 + lo)
unfolding reform_big_int
reform_big_int_lem hi lo = ground arith

bits_zero : (f : ℕ) → bits_fuel f 0 ≡ []
unfolding bits_fuel
bits_zero zero = refl
bits_zero (suc f) = refl

-- one word
bits_one : (f n : ℕ) → 0 < n → n ≤ f → n < 2 ^ 64 → bits_fuel f n ≡ n ∷ []
unfolding bits_fuel
bits_one f zero p h l = absurd (omega arith)
bits_one zero (suc n) p h l = absurd (omega arith)
bits_one (suc f) (suc n) p h l =
    let lowest : suc n % 2 ^ 64 ≡ suc n = omega arith in
    let no_more : suc n / 2 ^ 64 ≡ 0 = omega arith in rw (lowest, no_more, bits_zero f) refl

-- the lowest word, and the others
bits_more :
    (f n : ℕ) → 2 ^ 64 ≤ n → n ≤ suc f → bits_fuel (suc f) n ≡ n % 2 ^ 64 ∷ bits_fuel f (n / 2 ^ 64)
unfolding bits_fuel
bits_more f zero p h = absurd (omega arith)
bits_more f (suc n) p h = refl

bits_two : (n : ℕ) → 2 ^ 64 ≤ n → n < 2 ^ 128 → bits n ≡ n % 2 ^ 64 ∷ n / 2 ^ 64 ∷ []
unfolding bits
bits_two zero p l = absurd (omega arith)
bits_two (suc n) p l =
    bits_more n (suc n) p (omega arith)
    ∙ ap (◌∷◌ (suc n % 2 ^ 64))
        (bits_one n (suc n / 2 ^ 64) (omega arith) (omega arith) (omega arith))

-- the lowest two words, and the others
bits_three :
    (f n : ℕ)
    → 2 ^ 128 ≤ n
    → n ≤ suc (suc f)
    → bits_fuel (suc (suc f)) n
      ≡ n % 2 ^ 64 ∷ n / 2 ^ 64 % 2 ^ 64 ∷ bits_fuel f (n / 2 ^ 64 / 2 ^ 64)
bits_three f n p h =
    bits_more (suc f) n (omega arith) h
    ∙ ap (◌∷◌ (n % 2 ^ 64)) (bits_more f (n / 2 ^ 64) (omega arith) (omega arith))

-- A number with more than two words.
split_words_large :
    (shown : String) (f n a b : ℕ)
    → 0 < n
    → n ≤ f
    → (e : Error) × (split_words shown (a ∷ b ∷ bits_fuel f n) ≡ err e)
unfolding split_words bits_fuel
split_words_large shown f zero a b p h = absurd (omega arith)
split_words_large shown zero (suc n) a b p h = absurd (omega arith)
split_words_large shown (suc f) (suc n) a b p h = (_, refl)

-- The numbers of a `u128`.
abbrev pub InU128 : ℤ → Type 0
InU128 (pos n) = n < 2 ^ 128
InU128 (negsuc n) = ⊥

module _ (show : ℤ → String) where
  split_pos : (n : ℕ) → n < 2 ^ 128 → split_big_int show (pos n) ≡ ok (n / 2 ^ 64, n % 2 ^ 64)
  unfolding split_big_int split_words bits
  split_pos zero l = refl
  split_pos (suc n) l = elim (dec_le (2 ^ 64) (suc n)) [
    | yes h ↦ ap (split_words (show (pos (suc n)))) (bits_two (suc n) h l)
    | no h ↦
        let all_low : suc n % 2 ^ 64 ≡ suc n = omega arith in
        let no_high : suc n / 2 ^ 64 ≡ 0 = omega arith in
        let one : bits_fuel (suc n) (suc n) ≡ suc n ∷ [] =
          bits_one (suc n) (suc n) (omega arith) (omega arith) (omega arith) in
        ap (split_words (show (pos (suc n)))) one ∙ rw (all_low, no_high) refl
  ]

  split_large : (n : ℕ) → 2 ^ 128 ≤ n → (e : Error) × (split_big_int show (pos n) ≡ err e)
  unfolding split_big_int bits
  split_large zero h = absurd (omega arith)
  split_large (suc zero) h = absurd (omega arith)
  split_large (suc (suc n)) h =
      let m = suc (suc n) in
      let (e, fails) =
        split_words_large (show (pos m)) n (m / 2 ^ 64 / 2 ^ 64) _ _ (omega arith) (omega arith) in
      (e, ap (split_words (show (pos m))) (bits_three n m h (omega arith)) ∙ fails)

  -- A number of at least 0 and below 2^128 is split in two words that are reformed to it and that the
  -- Rust library joins to it; for any other number splitting is an error.
  pub split_big_int-reform :
      (i : ℤ)
      → (InU128 i
          × ((hi : ℕ) × (lo : ℕ) × (split_big_int show i ≡ ok (hi, lo))
              × (reform_big_int hi lo ≡ i)
              × (pos (join_u64 hi lo) ≡ i)
              × (hi < 2 ^ 64)
              × (lo < 2 ^ 64)))
        ⊎ ((¬ (InU128 i)) × ((e : Error) × (split_big_int show i ≡ err e)))
  unfolding split_big_int
  split_big_int-reform (negsuc n) = inr (λ h. h, (_, refl))
  split_big_int-reform (pos n) = elim (dec_le (2 ^ 128) n) [
    | yes h ↦ inr (λ l. absurd (omega arith), split_large n h)
    | no h ↦
        let l : n < 2 ^ 128 = omega arith in
        let whole : n / 2 ^ 64 * 2 ^ 64 + n % 2 ^ 64 ≡ n = omega arith in
        inl (
          l,
          (
            n / 2 ^ 64,
            n % 2 ^ 64,
            split_pos n l,
            reform_big_int_lem (n / 2 ^ 64) (n % 2 ^ 64) ∙ ap pos whole,
            ap pos (join_u64-sum (n / 2 ^ 64) (n % 2 ^ 64) (omega arith) ∙ whole),
            omega arith,
            omega arith,
          ),
        )
  ]
