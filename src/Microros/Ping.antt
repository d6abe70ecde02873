-- ===== src/Microros/Ping.antt =====
-- Which sessions rmw_uros_ping_agent asks.
use rmw_microxrcedds.Base.{
  ℕ, zero, suc, ◌≤◌, ◌<◌, ◌≡◌, refl, Bool, Bool-cases, inl, inr, true, false, ◌||◌, some, List, [],
  ◌∷◌, ◌==◌, length, has, has-append, arith, if◌then◌else◌,
}
use rmw_microxrcedds.Memory.{Ptr, null}
use rmw_microxrcedds.Memory.Lists.{DList}
use rmw_microxrcedds.Memory.Static.{IsStatic}
use rmw_microxrcedds.State.{Globals}
use rmw_microxrcedds.Handles.{Ret, ok, error}
use rmw_microxrcedds.Microros.{ping_sessions, rmw_uros_ping_agent}

-- Does one of the contexts get an answer?
abbrev pub answers : (Ptr → Bool) → List Ptr → Bool
answers ping [] = false
answers ping (p ∷ ps) = ping p || answers ping ps

-- The contexts up to the first that gets an answer.
abbrev pub asked : (Ptr → Bool) → List Ptr → List Ptr
asked ping [] = []
asked ping (p ∷ ps) = if ping p then p ∷ [] else p ∷ asked ping ps

module _ {M : Type 0} (ping : Ptr → Bool) (g : Globals M) where
  ping_sessions-answers :
      (fuel : ℕ) (r p x : Ptr) (xs : List Ptr)
      → DList g.session_memory.items r p (x ∷ xs)
      → ((a : Ptr) → has a (x ∷ xs) ≡ true → (g.session_memory.items a).element ≡ a)
      → length xs < fuel
      → ping_sessions fuel ping g p ≡ some (answers ping (x ∷ xs), asked ping (x ∷ xs))
  unfolding ping_sessions
  ping_sessions-answers zero r p x xs d own lt = absurd (omega arith)
  ping_sessions-answers (suc fuel) r p x [] (e, ne, back, d) own lt =
      let self = own x (ground arith) in
      let last : ((g.session_memory.items x).next == null) ≡ true = ground arith in
      elim (Bool-cases (ping x)) [
        | inl yes' ↦ rw e (rw (last, self, yes') refl)
        | inr no' ↦ rw e (rw (last, self, no') refl)
      ]
  ping_sessions-answers (suc fuel) r p x (y ∷ xs) (e, ne, back, d) own lt =
      let self = own x (ground arith) in
      let more : ((g.session_memory.items x).next == null) ≡ false = ground arith in
      let ih =
        ping_sessions-answers fuel x (g.session_memory.items x).next y xs d
          (λ a i. own a (ground arith)) (omega arith) in
      elim (Bool-cases (ping x)) [
        | inl yes' ↦ rw e (rw (more, self, yes') refl)
        | inr no' ↦ rw e (rw (more, self, no') (rw ih refl))
      ]

  -- For a well formed pool of sessions of which one at least is in use, and at least as much fuel
  -- as sessions in use: rmw_uros_ping_agent ends, asks the sessions in use in their order up to
  -- the first that gets an answer, and returns RMW_RET_OK exactly if one of them gets an answer.
  pub rmw_uros_ping_agent-answers :
      (fuel : ℕ) (transport_init : Ret) (ping_transport : Bool) (x : Ptr) (xs idle : List Ptr)
      → IsStatic g.session_memory (x ∷ xs) idle
      → length (x ∷ xs) ≤ fuel
      → rmw_uros_ping_agent fuel transport_init ping_transport ping g
        ≡ some (if answers ping (x ∷ xs) then ok else error, asked ping (x ∷ xs))
  unfolding rmw_uros_ping_agent
  rmw_uros_ping_agent-answers fuel transport_init ping_transport x xs idle is lt =
      let d = is.pool.allocated in
      let used : (g.session_memory.allocateditems == null) ≡ false = ground (arith, d.0, d.1) in
      let e =
        ping_sessions-answers fuel null g.session_memory.allocateditems x xs d
          (λ a i. is.own a (ground (arith, has-append a (x ∷ xs) idle))) (omega arith) in
      rw (rmw_uros_ping_agent, used) (rw e refl)
