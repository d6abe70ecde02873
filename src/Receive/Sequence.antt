-- ===== src/Receive/Sequence.antt =====
-- `rmw_take_sequence` against the mailbox of the subscription.
use rmw_microxrcedds.Base.{
  ℕ, zero, suc, ◌<◌, ◌≡◌, refl, sym, ap₂, ◌∙◌, Bool, true, false, Option, some, List, [], ◌∷◌, ◌++◌,
  arith, leb, if◌then◌else◌, length,
}
use mathlib.Core.List.{append_assoc, append-nil}
use rmw_microxrcedds.Memory.{Ptr, Mempool}
use rmw_microxrcedds.Memory.Static.{IsStatic}
use rmw_microxrcedds.Types.{MessageCallbacks, StaticInputBuffer, Owner, subscription}
use rmw_microxrcedds.State.{Globals, Handle}
use rmw_microxrcedds.Buffers.Mailbox.{mailbox}
use rmw_microxrcedds.Buffers.Taken.{Taken}
use rmw_microxrcedds.Handles.{Ret, ok, error, is_uxrce_rmw_identifier_valid}
use rmw_microxrcedds.Receive.{take_sequence_loop, rmw_take_sequence}
use rmw_microxrcedds.Receive.Take.{
  with_buffers, rmw_take_with_info-empty, rmw_take_with_info-sample,
}

rest_of :
    (m n : Mempool StaticInputBuffer) (used idle : List Ptr) (o : Owner) (b : StaticInputBuffer)
    (bs : List StaticInputBuffer) (t : Taken m n used idle o b)
    → mailbox m used o ≡ b ∷ bs
    → mailbox n t.left o ≡ bs
rest_of m n used idle o b bs t e = let f = t.taken in cc

module _ {M : Type 0} where
  -- The messages that the type support makes of the samples.
  abbrev pub Reads : MessageCallbacks M → List StaticInputBuffer → List M → Type 0
  Reads callbacks [] [] = true ≡ true
  Reads callbacks (b ∷ bs) (m ∷ ms) =
      (callbacks.cdr_deserialize b.buffer b.length ≡ some m) × Reads callbacks bs ms
  Reads callbacks _ _ = true ≡ false

  abbrev pub first_of : ℕ → List M → List M
  first_of zero ms = []
  first_of (suc n) [] = []
  first_of (suc n) (m ∷ ms) = m ∷ first_of n ms

abbrev result : {M : Type 0} → Globals M → Bool → List M → Option (Globals M × Ret × List M)
result g b xs = some (g, if b then ok else error, xs)

outcome :
    {M : Type 0} (g : Globals M) (b c : Bool) (xs ys : List M)
    → b ≡ c
    → xs ≡ ys
    → result g b xs ≡ result g c ys
outcome g b c xs ys e f = ap₂ (result g) e f

module _ {M : Type 0} (fuel : ℕ) (handle : Handle) (callbacks : MessageCallbacks M)
    (valid : is_uxrce_rmw_identifier_valid handle.implementation_identifier ≡ true) where
  take_sequence_loop-Reads :
      (rounds : ℕ) (g : Globals M) (used idle : List Ptr) (bs : List StaticInputBuffer)
      (ms taken : List M)
      → (g.subscription_memory.elements handle.element).type_support_callbacks ≡ some callbacks
      → IsStatic g.static_buffer_memory used idle
      → length used < fuel
      → mailbox g.static_buffer_memory used (subscription handle.element) ≡ bs
      → Reads callbacks bs ms
      → (n : Mempool StaticInputBuffer) × (take_sequence_loop fuel rounds g handle taken ok
          ≡ some (
            with_buffers g n,
            if leb rounds (length ms) then ok else error,
            taken ++ first_of rounds ms,
          ))
  unfolding take_sequence_loop
  take_sequence_loop-Reads zero g used idle bs ms taken typed is lt waiting reads = (
    g.static_buffer_memory,
    outcome g true (leb 0 (length ms)) taken (taken ++ []) (ground arith) (sym (append-nil taken)),
  )
  take_sequence_loop-Reads (suc rounds) g used idle [] [] taken typed is lt waiting reads =
      let e = rmw_take_with_info-empty fuel g handle used idle is lt valid waiting in
      (
        g.static_buffer_memory,
        rw e (
            outcome g false (leb (suc rounds) 0) taken (taken ++ []) (ground arith)
              (sym (append-nil taken))),
      )
  take_sequence_loop-Reads (suc rounds) g used idle [] (m ∷ ms) taken typed is lt waiting reads = cc
  take_sequence_loop-Reads (suc rounds) g used idle (b ∷ bs) [] taken typed is lt waiting reads = cc
  take_sequence_loop-Reads (suc rounds) g used idle (b ∷ bs) (m ∷ ms) taken typed is lt waiting
        (read, reads) =
      let (k, e, t) =
        rmw_take_with_info-sample fuel g handle used idle is lt valid callbacks b bs typed
          waiting in
      let (n, ih) =
        take_sequence_loop-Reads rounds (with_buffers g k) t.left (t.free ∷ idle) bs ms
          (taken ++ m ∷ []) typed t.static (omega (arith, t.fewer))
          (rest_of g.static_buffer_memory k used idle (subscription handle.element) b bs t waiting)
          reads in
      (
        n,
        rw (e, read)
            (ih
              ∙ outcome (with_buffers g n) (leb rounds (length ms))
                  (leb (suc rounds) (suc (length ms))) (taken ++ (m ∷ []) ++ first_of rounds ms)
                  (taken ++ m ∷ first_of rounds ms) (ground arith)
                  (append_assoc taken (m ∷ []) (first_of rounds ms))),
      )

  -- For a valid handle whose waiting samples can all be deserialised: rmw_take_sequence ends,
  -- hands out the messages of the first count samples of the mailbox, in its order, and returns
  -- RMW_RET_OK if at least count samples wait, and RMW_RET_ERROR together with the messages that
  -- there are if fewer wait.
  pub rmw_take_sequence-Reads :
      (count : ℕ) (g : Globals M) (used idle : List Ptr) (ms : List M)
      → (g.subscription_memory.elements handle.element).type_support_callbacks ≡ some callbacks
      → IsStatic g.static_buffer_memory used idle
      → length used < fuel
      → Reads callbacks (mailbox g.static_buffer_memory used (subscription handle.element)) ms
      → (n : Mempool StaticInputBuffer) × (rmw_take_sequence fuel g handle count
          ≡ some (with_buffers g n, if leb count (length ms) then ok else error, first_of count ms))
  unfolding rmw_take_sequence
  rmw_take_sequence-Reads count g used idle ms typed is lt reads =
      let (n, e) =
        take_sequence_loop-Reads count g used idle
          (mailbox g.static_buffer_memory used (subscription handle.element)) ms [] typed is lt refl
          reads in
      (n, rw (rmw_take_sequence, valid) e)
