-- ===== src/Memory/Controller/Serving.antt =====
-- What the scheduling does to the requests
-- (simulator/src/dram_controller/impl/pim_dram_controller.cpp).
use kvc_pim.Base.{
  ℕ, Bool-cases, get_elem?, length, suc, ◌≡◌, refl, sym, ap, subst, ◌∙◌, inl, inr, Bool, true,
  Option, none, some, List, [], ◌∷◌, map, if◌then◌else◌, is_empty, false, not, ◌&&◌, ◌||◌,
  none≢some, some_inj, arith, ◌+◌,
}
use kvc_pim.Memory.Request.{Request, Device, Asked, asked, bit, tally}
use kvc_pim.Memory.Scheduler.{
  get_best_request, get_best_request-IsBest, is_ready, with_preq_command,
}
use kvc_pim.Memory.Controller.{
  PimDramController, held, Place, buffer_at, set_buffer, set_write_mode, try_buffer, try_requests,
  try_others, schedule_request, Choice, ready_at, in_write, or_else, only_if, in_active, in_read,
  try_priority, in_priority,
}

-- The lists keep their lengths, and the requests held are the same but for their commands: for every
-- test of what they ask for, as many as before pass it.
pub record Kept (c d : PimDramController) : Type 0 where
  pub pending : length d.pending ≡ length c.pending
  pub active : length d.active_buffer ≡ length c.active_buffer
  pub priority : length d.priority_buffer ≡ length c.priority_buffer
  pub reads : length d.read_buffer ≡ length c.read_buffer
  pub writes : length d.write_buffer ≡ length c.write_buffer
  pub same : (p : Asked → Bool) → held p d ≡ held p c

Kept-refl : (c : PimDramController) → Kept c c
Kept-refl c = record {
  pending = refl;
  active = refl;
  priority = refl;
  reads = refl;
  writes = refl;
  same = λ p. refl;
}

Kept-trans : (a b c : PimDramController) → Kept a b → Kept b c → Kept a c
Kept-trans a b c p q = record {
  pending = q.pending ∙ p.pending;
  active = q.active ∙ p.active;
  priority = q.priority ∙ p.priority;
  reads = q.reads ∙ p.reads;
  writes = q.writes ∙ p.writes;
  same = λ t. q.same t ∙ p.same t;
}

if_Kept : (b : Bool) (c x y : PimDramController) → Kept c x → Kept c y → Kept c (if b then x else y)
if_Kept true c x y p q = p
if_Kept false c x y p q = q

set_buffer-Kept :
    (place : Place) (b : List Request) (c : PimDramController)
    → length b ≡ length (buffer_at place c)
    → ((p : Asked → Bool) → tally p b ≡ tally p (buffer_at place c))
    → Kept c (set_buffer place b c)
unfolding set_buffer buffer_at
set_buffer-Kept Place.in_active b c e t = record {
  same = λ p. omega (arith, t p);
  pending = refl;
  active = e;
  priority = refl;
  reads = refl;
  writes = refl;
}
set_buffer-Kept Place.in_priority b c e t = record {
  same = λ p. omega (arith, t p);
  pending = refl;
  active = refl;
  priority = e;
  reads = refl;
  writes = refl;
}
set_buffer-Kept Place.in_read b c e t = record {
  same = λ p. omega (arith, t p);
  pending = refl;
  active = refl;
  priority = refl;
  reads = e;
  writes = refl;
}
set_buffer-Kept Place.in_write b c e t = record {
  same = λ p. omega (arith, t p);
  pending = refl;
  active = refl;
  priority = refl;
  reads = refl;
  writes = e;
}

buffer_at-set_buffer :
    (place : Place) (b : List Request) (c : PimDramController)
    → buffer_at place (set_buffer place b c) ≡ b
unfolding set_buffer buffer_at
buffer_at-set_buffer Place.in_active b c = refl
buffer_at-set_buffer Place.in_priority b c = refl
buffer_at-set_buffer Place.in_read b c = refl
buffer_at-set_buffer Place.in_write b c = refl

-- The scheduled request stands at its place, and is ready.
pub data Found (device : Device) (s : device.State) (c : PimDramController)
    : Option (Place × ℕ × Request) → Type 0 where
  nothing : Found device s c none
  something :
      (place : Place) (i : ℕ) (r : Request)
      → get_elem? (buffer_at place c) i ≡ some r
      → is_ready device s r ≡ true
      → Found device s c (some (place, i, r))

length-map : (f : Request → Request) (xs : List Request) → length (map f xs) ≡ length xs
length-map f [] = refl
length-map f (x ∷ xs) = ap suc (length-map f xs)

first_entry :
    (r : Request) (rest : List Request) (f : ℕ × Request)
    → some (0, r) ≡ some f
    → get_elem? (r ∷ rest) f.0 ≡ some f.1
first_entry r rest f p = subst (λ g. get_elem? (r ∷ rest) g.0 ≡ some g.1) (some_inj p) refl

module _ (device : Device) (above_high below_low : ℕ → Bool) where
  open device use {State}

  -- What a part of the schedule does: the lists keep their lengths, and the answer stands at its place.
  pub record Scheduled (s : State) (c : PimDramController) (o : Choice) : Type 0 where
    pub kept : Kept c o.1
    pub found : Found device s o.1 o.0

  length-get_best_request :
      (s : State) (b : List Request) → length (get_best_request device s b).1 ≡ length b
  unfolding get_best_request
  length-get_best_request s [] = refl
  length-get_best_request s (r ∷ b) = ap suc (length-map (with_preq_command device s) b)

  tally-map :
      (p : Asked → Bool) (s : State) (b : List Request)
      → tally p (map (with_preq_command device s) b) ≡ tally p b
  tally-map p s [] = refl
  tally-map p s (r ∷ b) = ap (λ n. bit (p (asked r)) + n) (tally-map p s b)

  tally-get_best_request :
      (p : Asked → Bool) (s : State) (b : List Request)
      → tally p (get_best_request device s b).1 ≡ tally p b
  unfolding get_best_request
  tally-get_best_request p s [] = refl
  tally-get_best_request p s (r ∷ b) = ap (λ n. bit (p (asked r)) + n) (tally-map p s b)

  held_best :
      (s : State) (b : List Request) (f : ℕ × Request)
      → (get_best_request device s b).0 ≡ some f
      → get_elem? (get_best_request device s b).1 f.0 ≡ some f.1
  unfolding get_best_request
  held_best s [] f e = absurd (none≢some e)
  held_best s (r ∷ b) f e =
      let best = get_best_request-IsBest device s r b in
      subst (λ g. get_elem? (get_best_request device s (r ∷ b)).1 g.0 ≡ some g.1)
        (some_inj (sym best.1 ∙ e)) best.2.held

  ready_at-Found :
      (s : State) (place : Place) (c : PimDramController) (o : Option (ℕ × Request))
      → ((f : ℕ × Request) → o ≡ some f → get_elem? (buffer_at place c) f.0 ≡ some f.1)
      → Found device s c (ready_at device above_high below_low s place o)
  unfolding ready_at
  ready_at-Found s place c none h = nothing
  ready_at-Found s place c (some (i, r)) h = elim (Bool-cases (is_ready device s r)) [
    | inl y ↦ rw y (something place i r (h (i, r) refl) y)
    | inr n ↦ rw n nothing
  ]

  try_buffer-Scheduled :
      (s : State) (place : Place) (c : PimDramController)
      → Scheduled s c (try_buffer device above_high below_low s place c)
  unfolding try_buffer
  try_buffer-Scheduled s place c =
      let b = get_best_request device s (buffer_at place c) in
      record {
        kept =
            set_buffer-Kept place b.1 c (length-get_best_request s (buffer_at place c))
              (λ p. tally-get_best_request p s (buffer_at place c));
        found = ready_at-Found s place (set_buffer place b.1 c) b.0 (λ f e.
            ap (λ l. get_elem? l f.0) (buffer_at-set_buffer place b.1 c)
            ∙ held_best s (buffer_at place c) f e);
      }

  Scheduled-after :
      (s : State) (c d : PimDramController) (o : Choice)
      → Kept c d
      → Scheduled s d o
      → Scheduled s c o
  Scheduled-after s c d o k h = record { kept = Kept-trans c d o.1 k h.kept; found = h.found }

  set_write_mode-Kept :
      (c : PimDramController) → Kept c (set_write_mode device above_high below_low c)
  unfolding set_write_mode
  set_write_mode-Kept c =
      let k : (b : Bool) → Kept c (record c { is_write_mode = b }) = λ b. record {
        pending = refl;
        active = refl;
        priority = refl;
        reads = refl;
        writes = refl;
        same = λ p. refl;
      } in
      if_Kept c.is_write_mode c _ _
        (if_Kept (below_low (length c.write_buffer) && not (is_empty c.read_buffer)) c _ _ (k false)
          (Kept-refl c))
        (if_Kept (above_high (length c.write_buffer) || is_empty c.read_buffer) c _ _ (k true)
          (Kept-refl c))

  try_requests-Scheduled :
      (s : State) (c : PimDramController)
      → Scheduled s c (try_requests device above_high below_low s c)
  unfolding try_requests
  try_requests-Scheduled s c =
      let c' = set_write_mode device above_high below_low c in
      Scheduled-after s c c' (try_requests device above_high below_low s c) (set_write_mode-Kept c)
        (try_buffer-Scheduled s (if c'.is_write_mode then in_write else in_read) c')

  try_priority-Scheduled :
      (s : State) (b : List Request) (c : PimDramController)
      → c.priority_buffer ≡ b
      → Scheduled s c (try_priority device above_high below_low s b c)
  unfolding try_priority set_buffer buffer_at
  try_priority-Scheduled s [] c e = try_requests-Scheduled s c
  try_priority-Scheduled s (r ∷ rest) c e =
      let r' = with_preq_command device s r in
      let d : PimDramController = record c { priority_buffer = r' ∷ rest } in
      record {
        kept =
            set_buffer-Kept in_priority (r' ∷ rest) c (sym (ap length e))
              (λ p. sym (ap (tally p) e));
        found = ready_at-Found s in_priority d (some (0, r')) (λ f p. first_entry r' rest f p);
      }

  try_others-Scheduled :
      (s : State) (c : PimDramController)
      → Scheduled s c (try_others device above_high below_low s c)
  unfolding try_others
  try_others-Scheduled s c = try_priority-Scheduled s c.priority_buffer c refl

  or_else-Scheduled :
      (s : State) (c : PimDramController) (o : Choice) (next : PimDramController → Choice)
      → Scheduled s c o
      → ((d : PimDramController) → Scheduled s d (next d))
      → Scheduled s c (or_else o next)
  unfolding or_else
  or_else-Scheduled s c (none, d) next h k = Scheduled-after s c d (next d) h.kept (k d)
  or_else-Scheduled s c (some found, d) next h k = h

  only_if-Scheduled :
      (s : State) (c : PimDramController) (o : Choice)
      (test : PimDramController → Place × ℕ × Request → Bool)
      → Scheduled s c o
      → Scheduled s c (only_if test o)
  unfolding only_if
  only_if-Scheduled s c (none, d) test h = h
  only_if-Scheduled s c (some found, d) test h = elim (Bool-cases (test d found)) [
    | inl y ↦ rw y h
    | inr n ↦ rw n (record { kept = h.kept; found = nothing })
  ]

  -- The scheduler moves no request: the lists keep their lengths, the requests held ask for the same as
  -- before, and a request that it answers stands in its buffer at the index answered, with
  -- a command that the device is ready for.
  pub schedule_request-Scheduled :
      (s : State) (c : PimDramController)
      → Scheduled s c (schedule_request device above_high below_low s c)
  unfolding schedule_request
  schedule_request-Scheduled s c =
      only_if-Scheduled s c _ _
        (or_else-Scheduled s c _ _ (try_buffer-Scheduled s in_active c) (try_others-Scheduled s))
