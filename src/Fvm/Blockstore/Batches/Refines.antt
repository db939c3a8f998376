-- ===== src/Fvm/Blockstore/Batches/Refines.antt =====
-- The buffering loop makes exactly the calls of the batches.
use mathlib.Core.Path.{fun_ext}
use mathlib.Core.List.{map-append}
use ffi_demo.Base.{
  ℕ, ◌-◌, ◌<◌, ◌≡◌, refl, sym, ap, ◌∙◌, List, [], ◌∷◌, ◌++◌, append_assoc, length, length-append,
  length-map, Bool-cases, inl, inr, arith,
}
use ffi_demo.Base.Int.{ℤ}
use ffi_demo.Base.Effect.{ok, Exec, pure, ◌>>=◌, ◌>>◌}
use ffi_demo.Base.Effect.Laws.{bind_assoc}
use ffi_demo.Fvm.Cgo.{Std, CgoApi}
use ffi_demo.Fvm.Blockstore.{CidApi}
use ffi_demo.Fvm.Blockstore.Cgo.{
  Buffered, no_blocks, write_batch, flush_buffered, is_full, push_block, buffer_block,
  put_many_loop, put_many_keyed,
}
use ffi_demo.Fvm.Blockstore.Batches.{
  Blocks, encode, starts_new, nonempty, batches, encode-snoc, buffered, send_all,
}

-- What the store relies on of the crate `cid`: `write_bytes` into a `Vec` writes the bytes of the
-- CID, and these are never empty.
pub record WritesCids (C : CidApi) : Type 0 where
  pub writes : (k : C.Cid) → C.write_bytes k ≡ ok (C.to_bytes k)
  pub has_bytes : (k : C.Cid) → 0 < length (C.to_bytes k)

module _ (F : Std) (C : CidApi) {E : Type 0} (go : CgoApi E) (handle : ℕ) where
  buffered-push :
      (current : Blocks C) (k : C.Cid) (block : List ℕ)
      → push_block F C go handle (buffered F C go handle current) (C.to_bytes k) block
        ≡ buffered F C go handle (current ++ ((k, block) ∷ []))
  buffered-push current k block =
      let buf = encode C current in
      let size : length ((buf ++ C.to_bytes k) ++ block) - length buf
          ≡ length (C.to_bytes k ++ block) =
        omega (
          arith,
          length-append (buf ++ C.to_bytes k) block,
          length-append buf (C.to_bytes k),
          length-append (C.to_bytes k) block,
        ) in
      let lens : (push_block F C go handle (buffered F C go handle current) (C.to_bytes k)
            block).lengths
          ≡ (buffered F C go handle (current ++ ((k, block) ∷ []))).lengths =
        rw (size, map-append) in
      let bufs = append_assoc buf (C.to_bytes k) block ∙ sym (encode-snoc C current (k, block)) in
      λ i. record { lengths = lens i; buf = bufs i }

  -- a buffer with bytes in it is written
  flush-nonempty :
      (lengths : List ℤ) (buf : List ℕ)
      → 0 < length buf
      → let b : Buffered F C go handle = record { lengths = lengths; buf = buf } in
        flush_buffered F C go handle b
        ≡ (write_batch F C go handle b >> pure (no_blocks F C go handle))
  unfolding flush_buffered
  flush-nonempty lengths [] h = absurd (omega arith)
  flush-nonempty lengths (x ∷ buf) h = refl

  flush-buffered :
      WritesCids C
      → (x : C.Cid × List ℕ) (xs : Blocks C)
      → flush_buffered F C go handle (buffered F C go handle (x ∷ xs)) ≡ (
          write_batch F C go handle (buffered F C go handle (x ∷ xs))
          >> pure (no_blocks F C go handle))
  flush-buffered w (k, block) xs = flush-nonempty _ (encode C ((k, block) ∷ xs)) (
      omega (
        arith,
        w.has_bytes k,
        length-append (C.to_bytes k ++ block) (encode C xs),
        length-append (C.to_bytes k) block,
      ))

  -- the end of the loop writes what is buffered, if anything is
  loop-end :
      WritesCids C
      → (current : Blocks C) (e : E)
      → put_many_loop F C go handle [] (buffered F C go handle current) e
        ≡ send_all F C go handle (nonempty C current []) e
  unfolding put_many_loop send_all
  loop-end w [] e = refl
  loop-end w (x ∷ xs) e =
      rw (flush-buffered w x xs)
        (bind_assoc _ _ (write_batch F C go handle (buffered F C go handle (x ∷ xs))) e)

  -- after the flush, the rest of the body
  loop-push :
      WritesCids C
      → (current : Blocks C) (k : C.Cid) (block : List ℕ) (xs : Blocks C) (e : E)
      → (buffer_block F C go handle k block (buffered F C go handle current)
            >>= put_many_loop F C go handle xs)
          e
        ≡ put_many_loop F C go handle xs (buffered F C go handle (current ++ ((k, block) ∷ []))) e
  unfolding buffer_block
  loop-push w current k block xs e =
      rw (w.writes k) (ap (λ b. put_many_loop F C go handle xs b e) (buffered-push current k block))

  is_full-buffered :
      (current : Blocks C) (x : C.Cid × List ℕ)
      → is_full F C go handle (buffered F C go handle current) x.1 ≡ starts_new C current x
  is_full-buffered current x = rw length-map

  -- a flush of what has begun, then the block in a batch of its own
  loop-flush :
      WritesCids C
      → (current : Blocks C) (x : C.Cid × List ℕ) (xs : Blocks C)
      → ((e : E)
          → put_many_loop F C go handle xs (buffered F C go handle (x ∷ [])) e
            ≡ send_all F C go handle (batches C (x ∷ []) xs) e)
      → (e : E)
      → (flush_buffered F C go handle (buffered F C go handle current) >>= λ b.
            buffer_block F C go handle x.0 x.1 b >>= put_many_loop F C go handle xs)
          e
        ≡ send_all F C go handle (nonempty C current (batches C (x ∷ []) xs)) e
  unfolding send_all flush_buffered
  loop-flush w [] x xs ih e = loop-push w [] x.0 x.1 xs e ∙ ih e
  loop-flush w (c ∷ cs) x xs ih e =
      let write = write_batch F C go handle (buffered F C go handle (c ∷ cs)) in
      rw (flush-buffered w c cs) (
        bind_assoc _ _ write e
        ∙ ap (λ (rest : Exec E (Unit {0})). (write >> rest) e)
            (fun_ext λ e'. loop-push w [] x.0 x.1 xs e' ∙ ih e'))

  loop-batches :
      WritesCids C
      → (current blocks : Blocks C) (e : E)
      → put_many_loop F C go handle blocks (buffered F C go handle current) e
        ≡ send_all F C go handle (batches C current blocks) e
  unfolding batches put_many_loop
  loop-batches w current [] e = loop-end w current e
  loop-batches w current (x ∷ xs) e = elim (Bool-cases (starts_new C current x)) [
    | inl full ↦
        rw (is_full-buffered current x, full)
          (loop-flush w current x xs (loop-batches w (x ∷ []) xs) e)
    | inr room ↦
        rw (is_full-buffered current x, room)
          (loop-push w current x.0 x.1 xs e ∙ loop-batches w (current ++ (x ∷ [])) xs e)
  ]

-- `put_many_keyed` makes one call of the Go side for each batch of the blocks, in order, with the
-- sizes and the bytes of the batch, and stops at the first call that does not succeed. The crate
-- `cid` writes non-empty CIDs.
pub put_many_keyed-send_all :
    (F : Std) (C : CidApi) {E : Type 0} (go : CgoApi E) (handle : ℕ)
    → WritesCids C
    → (blocks : Blocks C) (e : E)
    → put_many_keyed F C go handle blocks e ≡ send_all F C go handle (batches C [] blocks) e
unfolding put_many_keyed
put_many_keyed-send_all F C go handle w blocks e = loop-batches F C go handle w [] blocks e
