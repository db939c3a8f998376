-- ===== src/Ffi/Boxes.antt =====
-- The boxed slices that Go code allocates in the Rust library: cgo/helpers.go and cgo/types.go. A box has
-- a number; freeing a number that is not live is counted, since it is undefined.
use ffi_demo.Base.{
  ℕ, suc, ◌≤◌, ◌<◌, ◌≡◌, refl, ap, Bool, true, false, Option, none, some, List, ltb, ◌==◌,
  if◌then◌else◌, arith,
}

pub record Heap : Type 0 where
  pub next_box : ℕ
  pub live : ℕ → Bool
  pub bad_frees : ℕ

-- `SliceBoxedUint8`; `none` is a nil pointer
pub record Box : Type 0 where
  pub ptr : Option ℕ
  pub bytes : List ℕ

-- `AllocSliceBoxedUint8`: a new box, with a copy of the bytes
unfoldable pub alloc_slice_boxed : List ℕ → Heap → Box × Heap
alloc_slice_boxed go_bytes h = (
  record { ptr = some h.next_box; bytes = go_bytes },
  record h { next_box = suc h.next_box; live = λ i. if i == h.next_box then true else h.live i },
)

-- `destroy_boxed_slice`
unfoldable pub free : ℕ → Heap → Heap
free n h =
    if h.live n
    then record h { live = λ i. if i == n then false else h.live i }
    else record h { bad_frees = suc h.bad_frees }

-- `Destroy`, which sets the pointer to nil
unfoldable pub destroy : Box → Heap → Box × Heap
unfolding free
destroy b h = elim b.ptr [ none ↦ (b, h) | some n ↦ (record b { ptr = none }, free n h) ]

-- Since `base`, the boxes from `lo` on were allocated, those before `a` are freed, and those from `a`
-- on and before `b`, the next, are live.
abbrev pub Region : Heap → ℕ → ℕ → Heap → Type 0
Region base a b h =
    (h.next_box ≡ b)
    × (h.bad_frees ≡ base.bad_frees)
    × ((i : ℕ)
        → h.live i
          ≡ (if ltb i base.next_box then base.live i else if ltb i a then false else ltb i b))

-- No box is live that was not allocated.
abbrev pub Fresh : Heap → Type 0
Fresh h = (i : ℕ) → h.next_box ≤ i → h.live i ≡ false

pub Region-start : (h : Heap) → Fresh h → Region h h.next_box h.next_box h
Region-start h fresh = (refl, refl, λ i. ground (arith, fresh i))

pub alloc-Region :
    (base : Heap) (a b : ℕ) (bytes : List ℕ) (h : Heap)
    → base.next_box ≤ a
    → a ≤ b
    → Region base a b h
    → Region base a (suc b) (alloc_slice_boxed bytes h).1
unfolding alloc_slice_boxed
alloc-Region base a b bytes h l m (next, bad, lives) =
    (ap suc next, bad, λ i. ground (arith, next, lives i))

pub free-Region :
    (base : Heap) (a b : ℕ) (h : Heap)
    → base.next_box ≤ a
    → a < b
    → Region base a b h
    → Region base (suc a) b (free a h)
unfolding free
free-Region base a b h l m (next, bad, lives) =
    let here : h.live a ≡ true = ground (arith, lives a) in
    rw (here) (next, bad, λ i. ground (arith, lives i))
