-- ===== src/Memory/Controller/Sending.antt =====
-- What `send` and `priority_send` do to the buffers
-- (simulator/src/dram_controller/impl/pim_dram_controller.cpp).
use kvc_pim.Base.{
  ℕ, Option-cases, if◌then◌else◌, length, ◌+◌, ◌≤◌, ◌≡◌, refl, sym, subst, inl, inr, Bool, true,
  false, none, some, List, [], ◌∷◌, ◌++◌, arith, pos, Bool-cases, length-append, minus_one, ◌==◌,
  ap, ◌∙◌, ◌&&◌, Option, ◌||◌, true≢false, ℤ, leb, some_inj, ◌<◌,
}
use kvc_pim.Memory.Request.{
  Request, Device, max_size, new_request, enqueue, length-enqueue, type_read, Asked, asked, bit,
  tally-append, enqueue_room, enqueue_full,
}
use kvc_pim.Memory.Controller.{
  PimDramController, held, Place, buffer_at, set_buffer, enqueue_at, any_addr, send, priority_send,
  refresh, in_priority, in_read, type_write, in_write,
}

-- The requests that a controller holds.
abbrev pub outstanding : PimDramController → ℕ
outstanding c =
    length c.pending
    + (length c.active_buffer
        + (length c.priority_buffer + (length c.read_buffer + length c.write_buffer)))

-- No buffer holds more than one request above its size.
pub record IsBounded (c : PimDramController) : Type 0 where
  pub active : length c.active_buffer ≤ max_size + 1
  pub priority : length c.priority_buffer ≤ max_size + 1
  pub reads : length c.read_buffer ≤ max_size + 1
  pub writes : length c.write_buffer ≤ max_size + 1

-- A call that takes a request adds it to those held, one that refuses it changes nothing, and the
-- buffers stay within their bound.
pub record Taken (taken : Bool) (before after : PimDramController) : Type 0 where
  pub held : outstanding after ≡ (if taken then outstanding before + 1 else outstanding before)
  pub bounded : IsBounded after

set_buffer-Taken :
    (place : Place) (b : List Request) (c : PimDramController)
    → length b ≡ length (buffer_at place c) + 1
    → length b ≤ max_size + 1
    → IsBounded c
    → Taken true c (set_buffer place b c)
unfolding set_buffer buffer_at
set_buffer-Taken Place.in_active b c e le h = record {
  held = omega (arith, e);
  bounded = record { active = le; priority = h.priority; reads = h.reads; writes = h.writes };
}
set_buffer-Taken Place.in_priority b c e le h = record {
  held = omega (arith, e);
  bounded = record { active = h.active; priority = le; reads = h.reads; writes = h.writes };
}
set_buffer-Taken Place.in_read b c e le h = record {
  held = omega (arith, e);
  bounded = record { active = h.active; priority = h.priority; reads = le; writes = h.writes };
}
set_buffer-Taken Place.in_write b c e le h = record {
  held = omega (arith, e);
  bounded = record { active = h.active; priority = h.priority; reads = h.reads; writes = le };
}

enqueue_at-none :
    (place : Place) (r : Request) (c : PimDramController)
    → enqueue r (buffer_at place c) ≡ none
    → enqueue_at place r c ≡ (false, c)
unfolding enqueue_at
enqueue_at-none place r c e = rw (e, enqueue_at) refl

enqueue_at-some :
    (place : Place) (r : Request) (c : PimDramController) (b : List Request)
    → enqueue r (buffer_at place c) ≡ some b
    → enqueue_at place r c ≡ (true, set_buffer place b c)
unfolding enqueue_at
enqueue_at-some place r c b e = rw (e, enqueue_at) refl

pub enqueue_at-Taken :
    (place : Place) (r : Request) (c : PimDramController)
    → IsBounded c
    → Taken (enqueue_at place r c).0 c (enqueue_at place r c).1
enqueue_at-Taken place r c h = elim (Option-cases (enqueue r (buffer_at place c))) [
  | inl e ↦
      subst (λ a. Taken a.0 c a.1) (sym (enqueue_at-none place r c e))
        (record { held = refl; bounded = h })
  | inr p ↦
      let l = length-enqueue r (buffer_at place c) p.0 p.1 in
      subst (λ a. Taken a.0 c a.1) (sym (enqueue_at-some place r c p.0 p.1))
        (set_buffer-Taken place p.0 c l.0 l.1 h)
]

module _ (device : Device) where
  -- A priority request is taken or refused, and the buffers stay within their bound.
  pub priority_send-Taken :
      (req : Request) (c : PimDramController)
      → IsBounded c
      → Taken (priority_send device req c).0 c (priority_send device req c).1
  unfolding priority_send
  priority_send-Taken req c h = enqueue_at-Taken in_priority _ c h

  -- `none` is the throw.
  Answered : PimDramController → Option (Bool × PimDramController) → Type 0
  Answered c none = Unit {0}
  Answered c (some answer) = Taken answer.0 c answer.1

  pended-Taken :
      (r : Request) (c : PimDramController)
      → IsBounded c
      → Taken true c (record c { pending = c.pending ++ (r ∷ []) })
  pended-Taken r c h = record {
    held = omega (arith, length-append c.pending (r ∷ []));
    bounded = record {
      active = h.active;
      priority = h.priority;
      reads = h.reads;
      writes = h.writes;
    };
  }

  send-Answered :
      (req : Request) (c : PimDramController) → IsBounded c → Answered c (send device req c)
  unfolding send Answered
  send-Answered req c h =
      elim (Bool-cases ((req.type_id == type_read) && any_addr req.addr c.write_buffer)) [
        | inl y ↦ rw y (pended-Taken _ c h)
        | inr n ↦ elim (Bool-cases (req.type_id == type_read)) [
          | inl y ↦ rw (n, y) (enqueue_at-Taken in_read _ c h)
          | inr m ↦ elim (Bool-cases (req.type_id == type_write)) [
            | inl y ↦ rw (n, m, y) (enqueue_at-Taken in_write _ c h)
            | inr k ↦ rw (n, m, k) tt
          ]
        ]
      ]

  any_addr_last :
      (buffer : List Request) (r : Request)
      → r.addr ≡ minus_one
      → any_addr minus_one (buffer ++ (r ∷ [])) ≡ true
  unfolding any_addr
  any_addr_last [] r e = rw e refl
  any_addr_last (q ∷ buffer) r e = let ih = any_addr_last buffer r e in ground arith

  -- The number of requests after a `send`, and the bound of the buffers.
  pub send-Taken :
      (req : Request) (c : PimDramController) (answer : Bool × PimDramController)
      → IsBounded c
      → send device req c ≡ some answer
      → Taken answer.0 c answer.1
  unfolding Answered
  send-Taken req c answer h e = subst (Answered c) e (send-Answered req c h)

  is_present : Option (Bool × PimDramController) → Bool
  is_present none = false
  is_present (some answer) = true

  send_present :
      (req : Request) (c : PimDramController)
      → ((req.type_id == type_read) || (req.type_id == type_write)) ≡ true
      → is_present (send device req c) ≡ true
  unfolding send is_present
  send_present req c h =
      elim (Bool-cases ((req.type_id == type_read) && any_addr req.addr c.write_buffer)) [
        | inl y ↦ rw y refl
        | inr n ↦ elim (Bool-cases (req.type_id == type_read)) [
          | inl y ↦ rw (n, y) refl
          | inr m ↦ elim (Bool-cases (req.type_id == type_write)) [
            | inl y ↦ rw (n, m, y) refl
            | inr k ↦ absurd (ground (arith, h, m, k))
          ]
        ]
      ]

  -- Reads and writes do not throw.
  pub send-some :
      (req : Request) (c : PimDramController)
      → ((req.type_id == type_read) || (req.type_id == type_write)) ≡ true
      → (answer : Bool × PimDramController) × (send device req c ≡ some answer)
  unfolding is_present
  send-some req c h = elim (Option-cases (send device req c)) [
    | inl e ↦ absurd (true≢false (sym (send_present req c h) ∙ ap is_present e))
    | inr p ↦ p
  ]

  -- A request that is queued stands at the end of its buffer.
  enqueue_write-cases :
      (r : Request) (c after : PimDramController)
      → enqueue_at in_write r c ≡ (true, after)
      → after.write_buffer ≡ c.write_buffer ++ (r ∷ [])
  unfolding set_buffer buffer_at
  enqueue_write-cases r c after e = elim (Bool-cases (leb (length c.write_buffer) max_size)) [
    | inl room ↦
        ap (λ a. a.1.write_buffer)
          (sym e ∙ enqueue_at-some in_write r c _ (enqueue_room r c.write_buffer room))
    | inr full ↦ absurd (
        true≢false (
          ap (λ (a : Bool × PimDramController). a.0)
            (sym e ∙ enqueue_at-none in_write r c (enqueue_full r c.write_buffer full))))
  ]

  written_addr :
      (write_vec : List ℤ) (c after : PimDramController)
      → send device (new_request write_vec 1) c ≡ some (true, after)
      → any_addr minus_one after.write_buffer ≡ true
  unfolding send new_request
  written_addr write_vec c after e =
      ap (any_addr minus_one) (enqueue_write-cases _ c after (some_inj e))
      ∙ any_addr_last c.write_buffer _ refl

  -- After a write made from an address vector was taken, a read made from an address vector is answered
  -- at once, as if the write buffer had its data, whatever the two address vectors are.
  pub send_read_forwarded :
      (read_vec write_vec : List ℤ) (c after : PimDramController)
      → send device (new_request write_vec 1) c ≡ some (true, after)
      → (send device (new_request read_vec 0) after
          ≡ some (
            true,
            record after {
              pending =
                  after.pending
                  ++ (record (new_request read_vec 0) {
                    final_command = device.request_translation 0;
                    depart = pos (after.clk + 1);
                  }
                      ∷ []);
            },
          ))
  unfolding send new_request
  send_read_forwarded read_vec write_vec c after e =
      let y : any_addr minus_one after.write_buffer ≡ true = written_addr write_vec c after e in
      rw (y, send) refl

  refresh-IsBounded :
      (requests : List Request) (c : PimDramController)
      → IsBounded c
      → IsBounded (refresh device requests c)
  unfolding refresh
  refresh-IsBounded [] c h = h
  refresh-IsBounded (r ∷ requests) c h =
      refresh-IsBounded requests (priority_send device r c).1 (priority_send-Taken r c h).bounded

  -- The buffer of a read or a write.
  abbrev pub buffer_for : ℕ → PimDramController → List Request
  buffer_for type_id c = if type_id == type_read then c.read_buffer else c.write_buffer

  abbrev pub all_of : ℕ → List Request → Bool
  all_of type_id [] = true
  all_of type_id (r ∷ buffer) = (r.type_id == type_id) && all_of type_id buffer

  -- A request that is taken joins those held and one that is refused does not: for every test of what
  -- requests ask for, those that pass it are as many as before and the request if it is taken. The read
  -- buffer keeps to reads and the write buffer to writes, no buffer grows above its bound, and only a
  -- request whose buffer is above its size is refused.
  pub record Queued (a : Asked) (taken : Bool) (before after : PimDramController) : Type 0 where
    pub joins :
        (p : Asked → Bool)
        → held p after ≡ (if taken then held p before + bit (p a) else held p before)
    pub reads : all_of 0 before.read_buffer ≡ true → all_of 0 after.read_buffer ≡ true
    pub writes : all_of 1 before.write_buffer ≡ true → all_of 1 after.write_buffer ≡ true
    pub bounded : IsBounded before → IsBounded after
    pub full : taken ≡ false → max_size < length (buffer_for a.type_id before)

  all_of_last :
      (type_id : ℕ) (r : Request) (buffer : List Request)
      → (r.type_id == type_id) ≡ true
      → all_of type_id buffer ≡ true
      → all_of type_id (buffer ++ (r ∷ [])) ≡ true
  all_of_last type_id r [] e h = rw e refl
  all_of_last type_id r (q ∷ buffer) e h =
      let ih = all_of_last type_id r buffer e in ground (arith, h)

  other_buffer : (n : ℕ) → (n == 1) ≡ true → (n == 0) ≡ false
  other_buffer n h = ground (arith, h)

  enqueue_read-Queued :
      (r : Request) (c : PimDramController)
      → (r.type_id == 0) ≡ true
      → Queued (asked r) (enqueue_at in_read r c).0 c (enqueue_at in_read r c).1
  unfolding set_buffer buffer_at
  enqueue_read-Queued r c e = elim (Bool-cases (leb (length c.read_buffer) max_size)) [
    | inl room ↦
        let made : enqueue_at in_read r c
            ≡ (true, record c { read_buffer = c.read_buffer ++ (r ∷ []) }) =
          enqueue_at-some in_read r c _ (enqueue_room r c.read_buffer room) in
        subst (λ a. Queued (asked r) a.0 c a.1) (sym made)
          (record {
            joins = λ p. omega (arith, tally-append p c.read_buffer (r ∷ []));
            reads = λ h. all_of_last 0 r c.read_buffer e h;
            writes = λ h. h;
            bounded = λ h. subst (λ a. IsBounded a.1) made (enqueue_at-Taken in_read r c h).bounded;
            full = λ h. absurd (true≢false h);
          })
    | inr none_left ↦
        subst (λ a. Queued (asked r) a.0 c a.1)
          (sym (enqueue_at-none in_read r c (enqueue_full r c.read_buffer none_left)))
          (record {
            joins = λ p. refl;
            reads = λ h. h;
            writes = λ h. h;
            bounded = λ h. h;
            full = λ h. rw e (ground (arith, none_left));
          })
  ]

  enqueue_write-Queued :
      (r : Request) (c : PimDramController)
      → (r.type_id == 1) ≡ true
      → Queued (asked r) (enqueue_at in_write r c).0 c (enqueue_at in_write r c).1
  unfolding set_buffer buffer_at
  enqueue_write-Queued r c e = elim (Bool-cases (leb (length c.write_buffer) max_size)) [
    | inl room ↦
        let made : enqueue_at in_write r c
            ≡ (true, record c { write_buffer = c.write_buffer ++ (r ∷ []) }) =
          enqueue_at-some in_write r c _ (enqueue_room r c.write_buffer room) in
        subst (λ a. Queued (asked r) a.0 c a.1) (sym made)
          (record {
            joins = λ p. omega (arith, tally-append p c.write_buffer (r ∷ []));
            writes = λ h. all_of_last 1 r c.write_buffer e h;
            reads = λ h. h;
            bounded =
                λ h. subst (λ a. IsBounded a.1) made (enqueue_at-Taken in_write r c h).bounded;
            full = λ h. absurd (true≢false h);
          })
    | inr none_left ↦
        subst (λ a. Queued (asked r) a.0 c a.1)
          (sym (enqueue_at-none in_write r c (enqueue_full r c.write_buffer none_left)))
          (record {
            joins = λ p. refl;
            reads = λ h. h;
            writes = λ h. h;
            bounded = λ h. h;
            full = λ h. rw (other_buffer r.type_id e) (ground (arith, none_left));
          })
  ]

  pended-Queued :
      (a : Asked) (r : Request) (c : PimDramController)
      → asked r ≡ a
      → Queued a true c (record c { pending = c.pending ++ (r ∷ []) })
  pended-Queued a r c e = record {
    joins = λ p. omega (arith, tally-append p c.pending (r ∷ []), ap (λ x. bit (p x)) e);
    reads = λ h. h;
    writes = λ h. h;
    bounded = λ h. (pended-Taken r c h).bounded;
    full = λ h. absurd (true≢false h);
  }

  Accounted : Asked → PimDramController → Option (Bool × PimDramController) → Type 0
  Accounted a c none = Unit {0}
  Accounted a c (some answer) = Queued a answer.0 c answer.1

  send-Accounted :
      (req : Request) (c : PimDramController) → Accounted (asked req) c (send device req c)
  unfolding send Accounted
  send-Accounted req c =
      elim (Bool-cases ((req.type_id == type_read) && any_addr req.addr c.write_buffer)) [
        | inl y ↦ rw y (pended-Queued (asked req) _ c refl)
        | inr n ↦ elim (Bool-cases (req.type_id == type_read)) [
          | inl y ↦ rw (n, y) (enqueue_read-Queued _ c y)
          | inr m ↦ elim (Bool-cases (req.type_id == type_write)) [
            | inl y ↦ rw (n, m, y) (enqueue_write-Queued _ c y)
            | inr k ↦ rw (n, m, k) tt
          ]
        ]
      ]

  -- Where a `send` does not throw: a request that is taken joins those held and one that is refused
  -- does not, for every test of what requests ask for; the read buffer keeps to reads and the write
  -- buffer to writes; buffers within their bound of 33 requests stay there; and a request is refused only if
  -- its buffer holds more than 32.
  pub send-Queued :
      (req : Request) (c : PimDramController) (answer : Bool × PimDramController)
      → send device req c ≡ some answer
      → Queued (asked req) answer.0 c answer.1
  unfolding Accounted
  send-Queued req c answer e = subst (Accounted (asked req) c) e (send-Accounted req c)
