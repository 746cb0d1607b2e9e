-- ===== src/Memory/Scheduler.antt =====
-- `GenericScheduler` of simulator/src/dram_controller/impl/scheduler/generic_scheduler.cpp: the
-- request that is ready, of these the one that arrived first.
use kvc_pim.Base.{
  ℕ, get_elem?, if◌then◌else◌, leb_ℤ, ◌≤ℤ◌, ◌+◌, ◌≡◌, Bool, true, false, Option, none, some, List,
  [], ◌∷◌, map, arith, Bool-cases, ℤ, ◌<◌, refl, sym, ap, subst, ◌∙◌, inl, inr, true≢false, ltb,
  ltb→lt, suc, ◌-◌, none≢some, some_inj,
}
use native.Mathlib.Decide.{ℕ_discrete}
use kvc_pim.Memory.Request.{Request, Device}

-- `compare`, on whether the two requests are ready and when they arrived.
unfoldable pub goes_first : Bool → Bool → ℤ → ℤ → Bool
goes_first true true a b = leb_ℤ a b
goes_first true false a b = true
goes_first false true a b = false
goes_first false false a b = leb_ℤ a b

goes_first_lem :
    (x y : Bool) (a b : ℤ) → goes_first x y a b ≡ true → (y ≡ true → x ≡ true) × (x ≡ y → a ≤ℤ b)
unfolding goes_first
goes_first_lem true true a b h = ((λ e. refl), (λ e. ground (arith, h)))
goes_first_lem true false a b h = ((λ e. refl), (λ e. absurd (true≢false e)))
goes_first_lem false true a b h = absurd (true≢false (sym h))
goes_first_lem false false a b h = ((λ e. e), (λ e. ground (arith, h)))

goes_second_lem :
    (x y : Bool) (a b : ℤ) → goes_first x y a b ≡ false → (x ≡ true → y ≡ true) × (y ≡ x → b ≤ℤ a)
unfolding goes_first
goes_second_lem true true a b h = ((λ e. refl), (λ e. ground (arith, h)))
goes_second_lem true false a b h = absurd (true≢false h)
goes_second_lem false true a b h = ((λ e. refl), (λ e. absurd (true≢false e)))
goes_second_lem false false a b h = ((λ e. e), (λ e. ground (arith, h)))

middle : (x y z : Bool) → (y ≡ true → x ≡ true) → (z ≡ true → y ≡ true) → x ≡ z → (x ≡ y) × (y ≡ z)
middle x y z p q h = ground arith

same_entry :
    (buffer : List Request) (next i : ℕ) (r q : Request)
    → i ≡ next
    → get_elem? buffer next ≡ some r
    → get_elem? buffer i ≡ some q
    → r ≡ q
same_entry buffer next i r q p e at = some_inj (sym e ∙ ap (get_elem? buffer) (sym p) ∙ at)

module _ (device : Device) where
  open device use {State, check_ready, get_preq_command}

  abbrev pub is_ready : State → Request → Bool
  is_ready s r = check_ready s r.command r.addr_vec

  -- `req.command = get_preq_command(req.final_command, req.addr_vec)`
  abbrev pub with_preq_command : State → Request → Request
  with_preq_command s r = record r { command = get_preq_command s r.final_command r.addr_vec }

  -- Whether the first of two requests goes before the second.
  unfoldable pub compare_requests : State → Request → Request → Bool
  unfolding goes_first
  compare_requests s r q = goes_first (is_ready s r) (is_ready s q) r.arrive q.arrive

  -- The loop: the candidate and its index, the index of the next request, the requests left.
  unfoldable pub best_from : State → ℕ × Request → ℕ → List Request → ℕ × Request
  unfolding compare_requests
  best_from s candidate next [] = candidate
  best_from s candidate next (r ∷ buffer) =
      best_from s (if compare_requests s candidate.1 r then candidate else (next, r)) (next + 1)
        buffer

  -- The requests with their commands, and the best of them with its index.
  unfoldable pub get_best_request : State → List Request → Option (ℕ × Request) × List Request
  unfolding best_from
  get_best_request s [] = (none, [])
  get_best_request s (r ∷ buffer) =
      let first = with_preq_command s r in
      let others = map (with_preq_command s) buffer in
      (some (best_from s (0, first) 1 others), first ∷ others)

  -- `best` goes before `r`: it is ready if `r` is, and it arrived no later if neither or both are.
  pub record GoesBefore (s : State) (best r : Request) : Type 0 where
    pub ready : is_ready s r ≡ true → is_ready s best ≡ true
    pub arrived : is_ready s best ≡ is_ready s r → best.arrive ≤ℤ r.arrive

  GoesBefore_refl : (s : State) (r : Request) → GoesBefore s r r
  GoesBefore_refl s r = record { ready = λ h. h; arrived = λ h. omega arith }

  GoesBefore_trans :
      (s : State) (a b c : Request) → GoesBefore s a b → GoesBefore s b c → GoesBefore s a c
  GoesBefore_trans s a b c p q = record {
    ready = λ h. p.ready (q.ready h);
    arrived = λ h.
        let m = middle (is_ready s a) (is_ready s b) (is_ready s c) p.ready q.ready h in
        omega (arith, p.arrived m.0, q.arrived m.1);
  }

  compare_first : (s : State) (r q : Request) → compare_requests s r q ≡ true → GoesBefore s r q
  unfolding compare_requests
  compare_first s r q h =
      let l = goes_first_lem (is_ready s r) (is_ready s q) r.arrive q.arrive h in
      record { ready = l.0; arrived = l.1 }

  compare_second : (s : State) (r q : Request) → compare_requests s r q ≡ false → GoesBefore s q r
  unfolding compare_requests
  compare_second s r q h =
      let l = goes_second_lem (is_ready s r) (is_ready s q) r.arrive q.arrive h in
      record { ready = l.0; arrived = l.1 }

  -- The candidate at the end is one of the requests, and goes before all of them.
  pub record IsBest (s : State) (buffer : List Request) (best : ℕ × Request) : Type 0 where
    pub held : get_elem? buffer best.0 ≡ some best.1
    pub first : (i : ℕ) (r : Request) → get_elem? buffer i ≡ some r → GoesBefore s best.1 r

  -- What the loop keeps: the candidate stands in the buffer before the next request, and goes before
  -- those.
  record Candidate (s : State) (buffer : List Request) (next : ℕ) (c : ℕ × Request) : Type 0 where
    held : get_elem? buffer c.0 ≡ some c.1
    first : (i : ℕ) (r : Request) → i < next → get_elem? buffer i ≡ some r → GoesBefore s c.1 r

  Candidate-next :
      (s : State) (buffer : List Request) (next : ℕ) (c : ℕ × Request) (r : Request)
      → get_elem? buffer next ≡ some r
      → Candidate s buffer next c
      → Candidate s buffer (next + 1) (if compare_requests s c.1 r then c else (next, r))
  Candidate-next s buffer next c r e h = elim (Bool-cases (compare_requests s c.1 r)) [
    | inl y ↦ rw y (record {
      held = h.held;
      first = λ i q lt at. elim (ℕ_discrete i next) [
        | yes p ↦
            subst (GoesBefore s c.1) (same_entry buffer next i r q p e at) (compare_first s c.1 r y)
        | no ne ↦ h.first i q (omega arith) at
      ];
    })
    | inr y ↦ rw y (record {
      held = e;
      first = λ i q lt at. elim (ℕ_discrete i next) [
        | yes p ↦ subst (GoesBefore s r) (same_entry buffer next i r q p e at) (GoesBefore_refl s r)
        | no ne ↦
            GoesBefore_trans s r c.1 q (compare_second s c.1 r y) (h.first i q (omega arith) at)
      ];
    })
  ]

  best_from-IsBest :
      (s : State) (buffer rest : List Request) (next : ℕ) (c : ℕ × Request)
      → ((j : ℕ) → get_elem? rest j ≡ get_elem? buffer (next + j))
      → Candidate s buffer next c
      → IsBest s buffer (best_from s c next rest)
  unfolding best_from
  best_from-IsBest s buffer [] next c agree h = record {
    held = h.held;
    first = λ i q at. elim (Bool-cases (ltb i next)) [
      | inl lt ↦ h.first i q (ltb→lt i next lt) at
      | inr ge ↦
          absurd
            (none≢some (agree (i - next) ∙ ap (get_elem? buffer) {y = i} (ground (arith, ge)) ∙ at))
    ];
  }
  best_from-IsBest s buffer (r ∷ rest) next c agree h =
      best_from-IsBest s buffer rest (next + 1) (if compare_requests s c.1 r then c else (next, r))
        (λ j. agree (suc j) ∙ ap (get_elem? buffer) {x = next + suc j} (omega arith))
        (Candidate-next s buffer next c r
          (ap (get_elem? buffer) {y = next + 0} (omega arith) ∙ sym (agree 0)) h)

  -- The request that the scheduler answers for a buffer that is not empty is one of its requests; it
  -- is ready if any of them is, and of those that are as ready as it is none arrived earlier.
  pub get_best_request-IsBest :
      (s : State) (r : Request) (buffer : List Request)
      → (best : ℕ × Request) × ((get_best_request s (r ∷ buffer)).0 ≡ some best)
        × IsBest s (get_best_request s (r ∷ buffer)).1 best
  unfolding get_best_request
  get_best_request-IsBest s r buffer =
      let first = with_preq_command s r in
      let all = first ∷ map (with_preq_command s) buffer in
      (
        best_from s (0, first) 1 (map (with_preq_command s) buffer),
        refl,
        best_from-IsBest s all (map (with_preq_command s) buffer) 1 (0, first)
            (λ j. ap (get_elem? all) {x = suc j} (omega arith))
            (record {
              held = refl;
              first = λ i q lt at.
                  subst (GoesBefore s first) (same_entry all 0 i first q (omega arith) refl at)
                    (GoesBefore_refl s first);
            }),
      )
