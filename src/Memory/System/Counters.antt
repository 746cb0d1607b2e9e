-- ===== src/Memory/System/Counters.antt =====
-- The counters of `PIMDRAMSystem` (simulator/src/memory_system/impl/pim_DRAM_system.cpp).
use kvc_pim.Base.{
  ℕ, get_elem?, if◌then◌else◌, set, ◌==◌, zero, suc, ◌+◌, ◌≤◌, ◌≡◌, Bool, true, false, some, List,
  [], ◌∷◌, map, pos, Option, arith, &&_true, Bool-cases, get_or, refl, ap, ◌∙◌, inl, inr, not, ◌&&◌,
  ◌||◌, ◌↔◌, is_empty, length, sym, true≢false, none≢some, some_inj,
}
use kvc_pim.KvTrace.{Op}
use kvc_pim.Memory.Request.{type_read, type_write, Device, Request, new_request}
use kvc_pim.Memory.Controller.{PimDramController, clear}
use kvc_pim.Memory.Controller.Sending.{
  outstanding, IsBounded, Taken, send-Taken, priority_send-Taken, send-some,
}
use kvc_pim.Memory.System.{
  PimDramSystem, priority_op, count_request, complete, send_to, send_typed, dispatch, send,
  all_clear, finished,
}
use kvc_pim.Memory.Controller as Controller

-- The requests that were accepted, and those of them that have a counter of their own besides the
-- reads and the writes.
abbrev pub accepted_requests : PimDramSystem → ℕ
accepted_requests m = m.num_read_requests + (m.num_write_requests + m.num_other_requests)

abbrev pub named_requests : PimDramSystem → ℕ
named_requests m =
    m.num_compute_requests
    + (m.num_saread_requests
        + (m.num_sawrite_requests + (m.num_bkread_requests + m.num_bkwrite_requests)))

-- One request more, counted once; the named counters stay within the others.
pub record CountedOnce (m after : PimDramSystem) : Type 0 where
  pub once : accepted_requests after ≡ accepted_requests m + 1
  pub named :
      named_requests m ≤ m.num_other_requests → named_requests after ≤ after.num_other_requests

if_CountedOnce :
    (b : Bool) (m x y : PimDramSystem)
    → CountedOnce m x
    → CountedOnce m y
    → CountedOnce m (if b then x else y)
if_CountedOnce true m x y p q = p
if_CountedOnce false m x y p q = q

count_request-CountedOnce :
    (type_id : ℕ) (m : PimDramSystem) → CountedOnce m (count_request type_id m)
unfolding count_request
count_request-CountedOnce type_id m =
    if_CountedOnce (type_id == 0) m _ _ (record { once = omega arith; named = λ h. h })
      (if_CountedOnce (type_id == 1) m _ _ (record { once = omega arith; named = λ h. h })
        (if_CountedOnce (type_id == 3) m _ _
          (record { once = omega arith; named = λ h. omega arith })
          (if_CountedOnce (type_id == 4) m _ _
            (record { once = omega arith; named = λ h. omega arith })
            (if_CountedOnce (type_id == 5) m _ _
              (record { once = omega arith; named = λ h. omega arith })
              (if_CountedOnce (type_id == 6) m _ _
                (record { once = omega arith; named = λ h. omega arith })
                (if_CountedOnce (type_id == 7) m _ _
                  (record { once = omega arith; named = λ h. omega arith })
                  (record { once = omega arith; named = λ h. omega arith })))))))

if_controllers :
    (b : Bool) (x y : PimDramSystem) (cs : List PimDramController)
    → x.controllers ≡ cs
    → y.controllers ≡ cs
    → (if b then x else y).controllers ≡ cs
if_controllers true x y cs p q = p
if_controllers false x y cs p q = q

controllers-count_request :
    (type_id : ℕ) (m : PimDramSystem) → (count_request type_id m).controllers ≡ m.controllers
unfolding count_request
controllers-count_request type_id m = if_controllers (type_id == 0) _ _ m.controllers refl (
    if_controllers (type_id == 1) _ _ m.controllers refl (
      if_controllers (type_id == 3) _ _ m.controllers refl (
        if_controllers (type_id == 4) _ _ m.controllers refl (
          if_controllers (type_id == 5) _ _ m.controllers refl (
            if_controllers (type_id == 6) _ _ m.controllers refl
              (if_controllers (type_id == 7) _ _ m.controllers refl refl))))))

-- The requests that all controllers hold.
pub all_outstanding : List PimDramController → ℕ
all_outstanding [] = 0
all_outstanding (c ∷ cs) = outstanding c + all_outstanding cs

all_outstanding-set :
    (cs : List PimDramController) (i : ℕ) (c d : PimDramController)
    → get_elem? cs i ≡ some c
    → all_outstanding (set cs i d) + outstanding c ≡ all_outstanding cs + outstanding d
unfolding all_outstanding
all_outstanding-set [] i c d h = absurd (none≢some h)
all_outstanding-set (x ∷ cs) zero c d h = omega (arith, ap outstanding (some_inj h))
all_outstanding-set (x ∷ cs) (suc i) c d h = omega (arith, all_outstanding-set cs i c d h)

is_empty-length : (b : List Request) → (is_empty b ≡ true) ↔ (length b ≡ 0)
is_empty-length [] = ((λ h. refl), (λ h. refl))
is_empty-length (r ∷ b) = ((λ h. absurd (true≢false (sym h))), (λ h. absurd (omega arith)))

both_none :
    (a b : Bool) (n m : ℕ)
    → (a ≡ true) ↔ (n ≡ 0)
    → (b ≡ true) ↔ (m ≡ 0)
    → ((a && b) ≡ true) ↔ (n + m ≡ 0)
both_none a b n m p q = (
  (λ h. let e = &&_true a b h in omega (arith, p.0 e.0, q.0 e.1)),
  (λ h. rw (p.1 (omega arith), q.1 (omega arith)) refl),
)

clear-outstanding : (c : PimDramController) → (clear c ≡ true) ↔ (outstanding c ≡ 0)
clear-outstanding c =
    let a = is_empty-length c.active_buffer in
    let p = is_empty-length c.priority_buffer in
    let r = is_empty-length c.read_buffer in
    let w = is_empty-length c.write_buffer in
    let n = is_empty-length c.pending in
    let e =
      both_none _ _ _ _ a (both_none _ _ _ _ p (both_none _ _ _ _ r (both_none _ _ _ _ w n))) in
    ((λ h. omega (arith, e.0 h)), (λ h. e.1 (omega (arith, h))))

all_clear-all_outstanding :
    (cs : List PimDramController) → (all_clear cs ≡ true) ↔ (all_outstanding cs ≡ 0)
unfolding all_clear all_outstanding
all_clear-all_outstanding [] = ((λ h. refl), (λ h. refl))
all_clear-all_outstanding (c ∷ cs) =
    both_none (clear c) (all_clear cs) (outstanding c) (all_outstanding cs) (clear-outstanding c)
      (all_clear-all_outstanding cs)

-- The memory system is finished exactly if its controllers hold no request.
pub finished-all_outstanding :
    (m : PimDramSystem) → (finished m ≡ true) ↔ (all_outstanding m.controllers ≡ 0)
finished-all_outstanding m = all_clear-all_outstanding m.controllers

module _ (device : Device) (requests : Op → Option ℕ) where
  dispatch-Taken :
      (priority : Bool) (req : Request) (c : PimDramController)
      → IsBounded c
      → (answer : Bool × PimDramController) × (dispatch device requests priority req c
          ≡ some answer)
        × Taken answer.0 c answer.1
  unfolding dispatch
  dispatch-Taken priority req c h =
      elim (Bool-cases
        (((req.type_id == type_read) || (req.type_id == type_write)) && not priority)) [
          | inl y ↦
              let s = send-some device req c (&&_true _ (not priority) y).0 in
              (s.0, rw (y, dispatch) s.1, send-Taken device req c s.0 h s.1)
          | inr n ↦ (
            Controller.priority_send device req c,
            rw (n, dispatch) refl,
            priority_send-Taken device req c h,
          )
        ]

  -- The answer of `send`: the controllers hold the request if it was accepted, and it is counted.
  pub record Sent (taken : Bool) (before after : PimDramSystem) : Type 0 where
    pub held : all_outstanding after.controllers ≡ (
        if taken
        then all_outstanding before.controllers + 1
        else all_outstanding before.controllers)
    pub counted :
        accepted_requests after
        ≡ (if taken then accepted_requests before + 1 else accepted_requests before)
    pub named :
        named_requests before ≤ before.num_other_requests
        → named_requests after ≤ after.num_other_requests

  complete-Sent :
      (type_id channel : ℕ) (m : PimDramSystem) (c : PimDramController) (taken : Bool)
      (d : PimDramController)
      → get_elem? m.controllers channel ≡ some c
      → Taken taken c d
      → (after : PimDramSystem) × (complete device requests type_id channel (some (taken, d)) m
          ≡ some (taken, after))
        × Sent taken m after
  unfolding complete
  complete-Sent type_id channel m c true d e t =
      let m' : PimDramSystem = record m { controllers = set m.controllers channel d } in
      let k = count_request-CountedOnce type_id m' in
      (
        count_request type_id m',
        refl,
        record {
          held =
              ap all_outstanding (controllers-count_request type_id m')
              ∙ omega (arith, all_outstanding-set m.controllers channel c d e, t.held);
          counted = k.once;
          named = k.named;
        },
      )
  complete-Sent type_id channel m c false d e t =
      let m' : PimDramSystem = record m { controllers = set m.controllers channel d } in
      (
        m',
        refl,
        record {
          held = omega (arith, all_outstanding-set m.controllers channel c d e, t.held);
          counted = refl;
          named = λ h. h;
        },
      )

  -- For an operation that the device has, on a channel that has a controller whose buffers are within
  -- their bound, `send` does not throw;
  -- the controllers hold one request more if it is accepted and the same number if it is refused, an
  -- accepted request is counted exactly once as a read, a write or another one, and the special
  -- requests stay within the others.
  pub send-Sent :
      (op : Op) (type_id : ℕ) (addr_vec : List ℕ) (m : PimDramSystem) (c : PimDramController)
      → requests (priority_op op).1 ≡ some type_id
      → get_elem? m.controllers (get_or addr_vec 0 0) ≡ some c
      → IsBounded c
      → (taken : Bool) × (after : PimDramSystem) × (send device requests (op, addr_vec) m
          ≡ some (taken, after))
        × Sent taken m after
  unfolding send send_typed send_to new_request
  send-Sent op type_id addr_vec m c known e h =
      let p = priority_op op in
      let req = new_request (map pos addr_vec) type_id in
      let a = dispatch-Taken p.0 req c h in
      let s = complete-Sent type_id (get_or addr_vec 0 0) m c a.0.0 a.0.1 e a.2 in
      (a.0.0, s.0, rw (known, send) (rw (e, send_typed) (rw (a.1, send_to) s.1)), s.2)
