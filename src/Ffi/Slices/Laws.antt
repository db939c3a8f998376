-- ===== src/Ffi/Slices/Laws.antt =====
-- What the loops of bls.go and `AsByteArray32` put where.
use Prim.Native.Nat.add
use ffi_demo.Base.{
  ℕ, zero, suc, ◌+◌, ◌-◌, ◌*◌, ◌≤◌, ◌<◌, ◌≡◌, refl, sym, ap, ◌∙◌, true, List, [], ◌∷◌, ◌++◌,
  append-nil, append_assoc, concat, length, drop, length-append, take-length, take-length-append,
  ltb, arith,
}
use ffi_demo.Base.Chunks.{AllLength}
use ffi_demo.Go.{done, panicked}
use ffi_demo.Ffi.Slices.{
  zeros, copy_into, flatten_from, flatten, set_index, fill_from, as_byte_array32,
}

pub length-replicate : (n : ℕ) → length (zeros n) ≡ n
length-replicate zero = refl
length-replicate (suc n) = ap suc (length-replicate n)

pub length-concat-AllLength :
    (n : ℕ) (ps : List (List ℕ)) → AllLength n ps → length (concat ps) ≡ length ps * n
length-concat-AllLength n [] a = omega arith
length-concat-AllLength n (p ∷ ps) a =
    let rest = length-concat-AllLength n ps a.1 in grind (arith, length-append p (concat ps))

drop-replicate : (m n : ℕ) → drop m (zeros (m + n)) ≡ zeros n
drop-replicate zero n = rw add.zero
drop-replicate (suc m) n = rw add.suc (drop-replicate m n)

drop-append-replicate :
    (xs : List ℕ) (m n : ℕ) → drop (length xs + m) (xs ++ zeros (m + n)) ≡ zeros n
drop-append-replicate [] m n = rw add.zero (drop-replicate m n)
drop-append-replicate (x ∷ xs) m n = rw add.suc (drop-append-replicate xs m n)

-- One turn: the piece goes after what is done.
copy_into_next :
    (start end : ℕ) (before piece : List ℕ) (left : ℕ)
    → length before ≡ start
    → end ≡ start + length piece
    → copy_into start end piece (before ++ zeros (length piece + left))
      ≡ before ++ (piece ++ zeros left)
unfolding copy_into
copy_into_next start end before piece left b e =
    let width : end - start ≡ length piece = omega arith in
    rw
      (
        width,
        take-length piece,
        sym b,
        take-length-append before (zeros (length piece + left)),
        drop-append-replicate before (length piece) left,
      )
      refl

flatten_from_lem :
    (n idx : ℕ) (pieces : List (List ℕ)) (before : List ℕ)
    → AllLength n pieces
    → length before ≡ n * idx
    → flatten_from n idx pieces (before ++ zeros (n * length pieces)) ≡ before ++ concat pieces
unfolding flatten_from
flatten_from_lem n idx [] before a b = let none_left : n * 0 ≡ 0 = omega arith in rw none_left refl
flatten_from_lem n idx (piece ∷ pieces) before a b =
    let room : n * suc (length pieces) ≡ length piece + n * length pieces = grind arith in
    let next : n * (1 + idx) ≡ n * idx + length piece = grind arith in
    let turn = copy_into_next (n * idx) (n * (1 + idx)) before piece (n * length pieces) b next in
    let whole : length (before ++ piece) ≡ n * (1 + idx) =
      omega (arith, length-append before piece) in
    ap
      (λ k.
        flatten_from n (1 + idx) pieces
          (copy_into (n * idx) (n * (1 + idx)) piece (before ++ zeros k)))
      room
    ∙ ap (flatten_from n (1 + idx) pieces) (turn ∙ sym (append_assoc before piece _))
    ∙ flatten_from_lem n (1 + idx) pieces (before ++ piece) a.1 whole
    ∙ append_assoc before piece (concat pieces)

-- Arrays of the length are joined in their order, and nothing else is in the buffer.
pub flatten-concat :
    (n : ℕ) (pieces : List (List ℕ)) → AllLength n pieces → flatten n pieces ≡ concat pieces
unfolding flatten
flatten-concat n pieces a = flatten_from_lem n 0 pieces [] a (omega arith)

set_index_next :
    (b x : ℕ) (before after : List ℕ)
    → set_index (length before) b (before ++ (x ∷ after)) ≡ done (before ++ (b ∷ after))
unfolding set_index
set_index_next b x [] after = refl
set_index_next b x (y ∷ before) after = rw (set_index_next b x before after) refl

set_index_over : (b : ℕ) (ary : List ℕ) → set_index (length ary) b ary ≡ panicked
unfolding set_index
set_index_over b [] = refl
set_index_over b (x ∷ ary) = rw (set_index_over b ary) refl

fill_from_panicked : (l idx : ℕ) (bytes : List ℕ) → fill_from l idx bytes panicked ≡ panicked
unfolding fill_from
fill_from_panicked l idx [] = refl
fill_from_panicked l idx (b ∷ bytes) = refl

-- One turn of the loop, with a zero left.
fill_from_step :
    (l b : ℕ) (bytes before : List ℕ) (room : ℕ)
    → length before < l
    → fill_from l (length before) (b ∷ bytes) (done (before ++ zeros (suc room)))
      ≡ fill_from l (length (before ++ (b ∷ []))) bytes (done ((before ++ (b ∷ [])) ++ zeros room))
unfolding fill_from
fill_from_step l b bytes before room h =
    let below : ltb (length before) l ≡ true = ground arith in
    let longer : length (before ++ (b ∷ [])) ≡ 1 + length before =
      omega (arith, length-append before (b ∷ [])) in
    rw
      (
        fill_from,
        below,
        set_index_next b 0 before (zeros room),
        longer,
        append_assoc before (b ∷ []) (zeros room),
      )
      refl

-- The loop with `room` zeros left.
fill_from_lem :
    (l : ℕ) (bytes before : List ℕ) (room : ℕ)
    → length before + length bytes ≤ l
    → length bytes ≤ room
    → fill_from l (length before) bytes (done (before ++ zeros room))
      ≡ done (before ++ (bytes ++ zeros (room - length bytes)))
unfolding fill_from
fill_from_lem l [] before room h r =
    let all_left : room - 0 ≡ room = omega arith in rw all_left refl
fill_from_lem l (b ∷ bytes) before zero h r = absurd (omega arith)
fill_from_lem l (b ∷ bytes) before (suc room) h r =
    let longer : length (before ++ (b ∷ [])) ≡ length before + 1 = length-append before (b ∷ []) in
    fill_from_step l b bytes before room (omega arith)
    ∙ fill_from_lem l bytes (before ++ (b ∷ [])) room (omega arith) (omega arith)
    ∙ ap done (append_assoc before (b ∷ []) _)
    ∙ ap (λ k. done (before ++ (b ∷ (bytes ++ zeros k)))) {y = suc room - suc (length bytes)}
        (omega arith)

fill_from_over :
    (l : ℕ) (bytes before : List ℕ) (room : ℕ)
    → length before + length bytes ≤ l
    → room < length bytes
    → fill_from l (length before) bytes (done (before ++ zeros room)) ≡ panicked
unfolding fill_from
fill_from_over l [] before room h r = absurd (omega arith)
fill_from_over l (b ∷ bytes) before zero h r =
    let below : ltb (length before) l ≡ true = ground arith in
    rw (fill_from, below, append-nil before, set_index_over b before)
      (fill_from_panicked l (1 + length before) bytes)
fill_from_over l (b ∷ bytes) before (suc room) h r =
    let longer : length (before ++ (b ∷ [])) ≡ length before + 1 = length-append before (b ∷ []) in
    fill_from_step l b bytes before room (omega arith)
    ∙ fill_from_over l bytes (before ++ (b ∷ [])) room (omega arith) (omega arith)

-- At most 32 bytes are followed by zeros; more than 32 bytes panic, whatever the guard.
pub as_byte_array32_lem :
    (bytes : List ℕ)
    → (length bytes ≤ 32 → as_byte_array32 bytes ≡ done (bytes ++ zeros (32 - length bytes)))
      × (32 < length bytes → as_byte_array32 bytes ≡ panicked)
unfolding as_byte_array32
as_byte_array32_lem bytes = (
  λ h. fill_from_lem (length bytes) bytes [] 32 (omega arith) h,
  λ h. fill_from_over (length bytes) bytes [] 32 (omega arith) h,
)
