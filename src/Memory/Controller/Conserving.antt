-- ===== src/Memory/Controller/Conserving.antt =====
-- What issuing a command does to the requests held, with and without room in the active buffer
-- (simulator/src/dram_controller/impl/pim_dram_controller.cpp).
use kvc_pim.Base.{
  ℕ, Bool-cases, get_elem?, if◌then◌else◌, length, same_ℤ, ◌==◌, zero, suc, ◌+◌, ◌≤◌, ◌≡◌, refl,
  inl, inr, Bool, not, ◌&&◌, Option, none, some, List, [], ◌∷◌, ◌++◌, arith, ◌∙◌, pos, ◌<◌, true,
  false, none≢some,
}
use kvc_pim.Memory.Request.{
  Request, Device, max_size, enqueue, remove, enqueue_room, length-remove, type_read, enqueue_full,
  Asked, asked, bit, tally-append, tally-remove,
}
use kvc_pim.Memory.Controller.{
  PimDramController, held, Place, Choice, buffer_at, set_buffer, enqueue_at, schedule_request,
  issue, issue_choice, in_active,
}
use kvc_pim.Memory.Controller.Sending.{outstanding}
use kvc_pim.Memory.Controller.Serving.{Found, something, schedule_request-Scheduled}

-- Removing the request at a place, which stands there.
outstanding_drop :
    (place : Place) (i : ℕ) (r : Request) (c : PimDramController)
    → get_elem? (buffer_at place c) i ≡ some r
    → outstanding (set_buffer place (remove i (buffer_at place c)) c) + 1 ≡ outstanding c
unfolding set_buffer buffer_at
outstanding_drop Place.in_active i r c e = omega (arith, length-remove i c.active_buffer r e)
outstanding_drop Place.in_priority i r c e = omega (arith, length-remove i c.priority_buffer r e)
outstanding_drop Place.in_read i r c e = omega (arith, length-remove i c.read_buffer r e)
outstanding_drop Place.in_write i r c e = omega (arith, length-remove i c.write_buffer r e)

held_drop :
    (p : Asked → Bool) (place : Place) (i : ℕ) (r : Request) (c : PimDramController)
    → get_elem? (buffer_at place c) i ≡ some r
    → held p (set_buffer place (remove i (buffer_at place c)) c) + bit (p (asked r)) ≡ held p c
unfolding set_buffer buffer_at
held_drop p Place.in_active i r c e = omega (arith, tally-remove p i c.active_buffer r e)
held_drop p Place.in_priority i r c e = omega (arith, tally-remove p i c.priority_buffer r e)
held_drop p Place.in_read i r c e = omega (arith, tally-remove p i c.read_buffer r e)
held_drop p Place.in_write i r c e = omega (arith, tally-remove p i c.write_buffer r e)

get_elem?-append :
    (xs : List Request) (y r : Request) (i : ℕ)
    → get_elem? xs i ≡ some r
    → get_elem? (xs ++ (y ∷ [])) i ≡ some r
get_elem?-append [] y r i h = absurd (none≢some h)
get_elem?-append (x ∷ xs) y r zero h = h
get_elem?-append (x ∷ xs) y r (suc i) h = get_elem?-append xs y r i h

-- The active buffer with a request more: what stood at a place still stands there.
activated : Request → PimDramController → PimDramController
activated r c = record c { active_buffer = c.active_buffer ++ (r ∷ []) }

activated-held :
    (place : Place) (i : ℕ) (r : Request) (c : PimDramController)
    → get_elem? (buffer_at place c) i ≡ some r
    → get_elem? (buffer_at place (activated r c)) i ≡ some r
unfolding buffer_at activated
activated-held Place.in_active i r c e = get_elem?-append c.active_buffer r r i e
activated-held Place.in_priority i r c e = e
activated-held Place.in_read i r c e = e
activated-held Place.in_write i r c e = e

enqueue_active :
    (r : Request) (c : PimDramController)
    → length c.active_buffer ≤ max_size
    → (enqueue_at in_active r c).1 ≡ activated r c
unfolding enqueue_at activated buffer_at set_buffer
enqueue_active r c h =
    let e : enqueue r c.active_buffer ≡ some (c.active_buffer ++ (r ∷ [])) =
      enqueue_room r c.active_buffer (ground (arith, h)) in
    rw (e, enqueue_at) refl

enqueue_active_full :
    (r : Request) (c : PimDramController)
    → max_size < length c.active_buffer
    → (enqueue_at in_active r c).1 ≡ c
unfolding enqueue_at buffer_at
enqueue_active_full r c h =
    let e : enqueue r c.active_buffer ≡ none = enqueue_full r c.active_buffer (ground (arith, h)) in
    rw (e, enqueue_at) refl

held-activated :
    (p : Asked → Bool) (r : Request) (c : PimDramController)
    → held p (activated r c) ≡ held p c + bit (p (asked r))
unfolding activated
held-activated p r c = omega (arith, tally-append p c.active_buffer (r ∷ []))

-- The pending requests with one more.
pended : Request → PimDramController → PimDramController
pended r c = record c { pending = c.pending ++ (r ∷ []) }

held-pended :
    (p : Asked → Bool) (r : Request) (c : PimDramController)
    → held p (pended r c) ≡ held p c + bit (p (asked r))
unfolding pended
held-pended p r c = omega (arith, tally-append p c.pending (r ∷ []))

pended-held :
    (place : Place) (i : ℕ) (r q : Request) (c : PimDramController)
    → get_elem? (buffer_at place c) i ≡ some r
    → get_elem? (buffer_at place (pended q c)) i ≡ some r
unfolding buffer_at pended
pended-held Place.in_active i r q c e = e
pended-held Place.in_priority i r q c e = e
pended-held Place.in_read i r q c e = e
pended-held Place.in_write i r q c e = e

module _ (device : Device) (above_high below_low : ℕ → Bool) where
  open device use {State, is_opening}

  -- A request that leaves the controller with its last command: one that is no read. It counts if
  -- it passes the test.
  abbrev pub departed : (Asked → Bool) → Option (Place × ℕ × Request) → ℕ
  departed p none = 0
  departed p (some found) =
      if same_ℤ found.2.command found.2.final_command && not (found.2.type_id == type_read)
      then bit (p (asked found.2))
      else 0

  issue-held :
      (p : Asked → Bool) (place : Place) (i : ℕ) (r : Request) (c : PimDramController)
      → get_elem? (buffer_at place c) i ≡ some r
      → length c.active_buffer ≤ max_size
      → held p (issue device above_high below_low (place, i, r) c) + departed p (some (place, i, r))
        ≡ held p c
  unfolding issue pended
  issue-held p place i r c e h = elim (Bool-cases (same_ℤ r.command r.final_command)) [
    | inl last ↦ elim (Bool-cases (r.type_id == type_read)) [
      | inl read ↦
          let q : Request = record r { depart = pos (c.clk + device.read_latency) } in
          rw (last, read)
            (omega (
              arith,
              held_drop p place i r (pended q c) (pended-held place i r q c e),
              held-pended p q c,
            ))
      | inr other ↦ rw (last, other) (held_drop p place i r c e)
    ]
    | inr more ↦ elim (Bool-cases (is_opening r.command)) [
      | inl opens ↦
          rw (more, opens, enqueue_active r c h)
            (omega (
              arith,
              held_drop p place i r (activated r c) (activated-held place i r c e),
              held-activated p r c,
            ))
      | inr stays ↦ rw (more, stays) (omega arith)
    ]
  ]

  issue_choice-held :
      (p : Asked → Bool) (s : State) (o : Choice)
      → Found device s o.1 o.0
      → length o.1.active_buffer ≤ max_size
      → held p (issue_choice device above_high below_low s o).1 + departed p o.0 ≡ held p o.1
  unfolding issue_choice
  issue_choice-held p s (none, c) f h = omega arith
  issue_choice-held p s (some _, c) (something place i r e ready) h = issue-held p place i r c e h

  -- While the active buffer holds at most 32 requests, scheduling and issuing a command lose and
  -- duplicate none: for every test of what the requests ask for, as many pass it after as before, but
  -- for one request that leaves, the scheduled one if its last command was issued and it is no read.
  pub issue_choice-schedule_request :
      (p : Asked → Bool) (s : State) (c : PimDramController)
      → length c.active_buffer ≤ max_size
      → let o = schedule_request device above_high below_low s c in
        held p (issue_choice device above_high below_low s o).1 + departed p o.0 ≡ held p c
  issue_choice-schedule_request p s c h =
      let o = schedule_request device above_high below_low s c in
      let k = schedule_request-Scheduled device above_high below_low s c in
      issue_choice-held p s o k.found (omega (arith, h, k.kept.active)) ∙ k.kept.same p

  -- While the active buffer holds more than 32 requests, a request whose command opens a row without
  -- being its last one is lost when that command is issued: the controller holds one request fewer.
  pub issue_lost :
      (place : Place) (i : ℕ) (r : Request) (c : PimDramController)
      → get_elem? (buffer_at place c) i ≡ some r
      → max_size < length c.active_buffer
      → same_ℤ r.command r.final_command ≡ false
      → is_opening r.command ≡ true
      → outstanding (issue device above_high below_low (place, i, r) c) + 1 ≡ outstanding c
  unfolding issue
  issue_lost place i r c e h more opens =
      rw (more, opens, enqueue_active_full r c h) (outstanding_drop place i r c e)
