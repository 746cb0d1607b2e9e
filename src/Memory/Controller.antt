-- ===== src/Memory/Controller.antt =====
-- `PimDRAMController` of simulator/src/dram_controller/impl/pim_dram_controller.cpp, with the generic
-- scheduler. The device is shared by the controllers: its state is an argument. The plugins, which
-- only watch, are left out; the refresh manager is the list of requests that it sends in a tick, and
-- the two watermark tests, on floating-point numbers, are parameters on the number of writes.
pub mod Sending
pub mod Serving
pub mod Conserving
use kvc_pim.Base.{
  ℕ, if◌then◌else◌, is_empty, leb_ℤ, length, same_ℤ, ℤ, ◌==◌, zero, suc, ◌+◌, Bool, true, false,
  not, ◌&&◌, ◌||◌, Option, none, some, List, [], ◌∷◌, ◌++◌, pos,
}
use kvc_pim.Memory.Request.{Request, Device, enqueue, remove, type_read, type_write, Asked, tally}
use kvc_pim.Memory.Scheduler.{get_best_request, is_ready, with_preq_command}

pub record PimDramController : Type 0 where
  pub pending : List Request
  pub active_buffer : List Request
  pub priority_buffer : List Request
  pub read_buffer : List Request
  pub write_buffer : List Request
  pub is_write_mode : Bool
  pub clk : ℕ

-- The buffer that a scheduled request stands in.
pub data Place : Type 0 where
  in_active in_priority in_read in_write : Place

unfoldable pub buffer_at : Place → PimDramController → List Request
buffer_at in_active c = c.active_buffer
buffer_at in_priority c = c.priority_buffer
buffer_at in_read c = c.read_buffer
buffer_at in_write c = c.write_buffer

unfoldable pub set_buffer : Place → List Request → PimDramController → PimDramController
set_buffer in_active b c = record c { active_buffer = b }
set_buffer in_priority b c = record c { priority_buffer = b }
set_buffer in_read b c = record c { read_buffer = b }
set_buffer in_write b c = record c { write_buffer = b }

-- `enqueue` into a buffer of the controller: whether the request was taken.
unfoldable pub enqueue_at : Place → Request → PimDramController → Bool × PimDramController
unfolding buffer_at set_buffer
enqueue_at place r c = elim (enqueue r (buffer_at place c)) [
  | none ↦ (false, c)
  | some b ↦ (true, set_buffer place b c)
]

-- `find_if` over the writes, by `addr`.
unfoldable pub any_addr : ℤ → List Request → Bool
any_addr addr [] = false
any_addr addr (r ∷ buffer) = same_ℤ r.addr addr || any_addr addr buffer

-- `serve_completed_reads`, the first of the pending requests.
unfoldable pub serve_completed_reads : PimDramController → PimDramController
serve_completed_reads c = elim c.pending [
  | [] ↦ c
  | r ∷ rest ↦ if leb_ℤ r.depart (pos c.clk) then record c { pending = rest } else c
]

-- `clear`: nothing is queued or pending.
abbrev pub clear : PimDramController → Bool
clear c =
    is_empty c.active_buffer
    && (is_empty c.priority_buffer
        && (is_empty c.read_buffer && (is_empty c.write_buffer && is_empty c.pending)))

-- The entries of an address vector above the row.
abbrev pub rowgroup : ℕ → List ℤ → List ℤ
rowgroup zero addr_vec = []
rowgroup (suc n) [] = []
rowgroup (suc n) (x ∷ xs) = x ∷ rowgroup n xs

abbrev pub same_list : List ℤ → List ℤ → Bool
same_list [] [] = true
same_list [] (y ∷ ys) = false
same_list (x ∷ xs) [] = false
same_list (x ∷ xs) (y ∷ ys) = same_ℤ x y && same_list xs ys

-- Some request of the buffer is in the row group of `addr_vec`.
unfoldable pub any_rowgroup : ℕ → List ℤ → List Request → Bool
any_rowgroup row_level addr_vec [] = false
any_rowgroup row_level addr_vec (r ∷ buffer) =
    same_list (rowgroup row_level addr_vec) (rowgroup row_level r.addr_vec)
    || any_rowgroup row_level addr_vec buffer

-- The requests that a controller holds and that ask for what the test accepts.
abbrev pub held : (Asked → Bool) → PimDramController → ℕ
held p c =
    tally p c.pending
    + (tally p c.active_buffer
        + (tally p c.priority_buffer + (tally p c.read_buffer + tally p c.write_buffer)))

-- A scheduling result: the place, the index and the request, if any; and the controller.
abbrev pub Choice : Type 0
Choice = Option (Place × ℕ × Request) × PimDramController

-- The second attempt is made if the first one found nothing.
unfoldable pub or_else : Choice → (PimDramController → Choice) → Choice
or_else (none, c) next = next c
or_else (some found, c) next = (some found, c)

-- What was found is given up if it fails a test.
unfoldable pub only_if : (PimDramController → Place × ℕ × Request → Bool) → Choice → Choice
only_if test (none, c) = (none, c)
only_if test (some found, c) = (if test c found then some found else none, c)

module _ (device : Device) where
  open device use {
    State, check_ready, get_preq_command, issue_command, request_translation, is_opening,
    is_closing, read_latency, row_level,
  }

  -- `send`: `none` where the source throws, else whether the request was taken. A read is answered
  -- from the writes when one of them has its `addr`.
  unfoldable pub send : Request → PimDramController → Option (Bool × PimDramController)
  unfolding enqueue_at any_addr
  send req c =
      let r = record req { final_command = request_translation req.type_id } in
      let arrived = record r { arrive = pos c.clk } in
      if (r.type_id == type_read) && any_addr r.addr c.write_buffer
      then some
          (true, record c { pending = c.pending ++ (record r { depart = pos (c.clk + 1) } ∷ []) })
      else if r.type_id == type_read
      then some (enqueue_at in_read arrived c)
      else if r.type_id == type_write
      then some (enqueue_at in_write arrived c)
      else none

  unfoldable pub priority_send : Request → PimDramController → Bool × PimDramController
  unfolding enqueue_at
  priority_send req c =
      enqueue_at in_priority
        (record req { final_command = request_translation req.type_id; arrive = pos c.clk }) c

  -- The refresh manager's requests.
  unfoldable pub refresh : List Request → PimDramController → PimDramController
  unfolding priority_send
  refresh [] c = c
  refresh (r ∷ requests) c = refresh requests (priority_send r c).1

  module _ (above_high below_low : ℕ → Bool) where
    unfoldable pub set_write_mode : PimDramController → PimDramController
    set_write_mode c =
        if c.is_write_mode
        then (if below_low (length c.write_buffer) && not (is_empty c.read_buffer)
            then record c { is_write_mode = false }
            else c)
        else (if above_high (length c.write_buffer) || is_empty c.read_buffer
            then record c { is_write_mode = true }
            else c)

    -- The request at `place`, if it is ready.
    unfoldable pub ready_at : State → Place → Option (ℕ × Request) → Option (Place × ℕ × Request)
    ready_at s place none = none
    ready_at s place (some (i, r)) = if is_ready device s r then some (place, i, r) else none

    -- The best request of a buffer, if it is ready; the commands are set.
    unfoldable pub try_buffer : State → Place → PimDramController → Choice
    unfolding set_buffer buffer_at ready_at
    try_buffer s place c =
        let best = get_best_request device s (buffer_at place c) in
        (ready_at s place best.0, set_buffer place best.1 c)

    -- The read or the write buffer, by the mode.
    unfoldable pub try_requests : State → PimDramController → Choice
    unfolding set_write_mode try_buffer
    try_requests s c =
        let c' = set_write_mode c in
        try_buffer s (if c'.is_write_mode then in_write else in_read) c'

    -- The buffers after the active one, of which the priority buffer is given: a priority request that
    -- is not ready blocks the others.
    unfoldable pub try_priority : State → List Request → PimDramController → Choice
    unfolding try_requests ready_at
    try_priority s [] c = try_requests s c
    try_priority s (r ∷ rest) c =
        let r' = with_preq_command device s r in
        (ready_at s in_priority (some (0, r')), record c { priority_buffer = r' ∷ rest })

    unfoldable pub try_others : State → PimDramController → Choice
    unfolding try_priority
    try_others s c = try_priority s c.priority_buffer c

    -- A request that would close a row of the active buffer is not scheduled.
    unfoldable pub keeps_active : PimDramController → Place × ℕ × Request → Bool
    unfolding any_rowgroup
    keeps_active c (place, i, r) =
        not (is_closing r.command && any_rowgroup row_level r.addr_vec c.active_buffer)

    unfoldable pub schedule_request : State → PimDramController → Choice
    unfolding try_buffer try_others keeps_active or_else only_if
    schedule_request s c = only_if keeps_active (or_else (try_buffer s in_active c) (try_others s))

    -- The controller's part of issuing: the last command ends the request, a read going to the pending
    -- ones; an opening command moves it to the active buffer, whether that has room or not.
    unfoldable pub issue : Place × ℕ × Request → PimDramController → PimDramController
    unfolding remove enqueue_at set_buffer buffer_at
    issue (place, i, r) c =
        let drop : PimDramController → PimDramController =
          λ d. set_buffer place (remove i (buffer_at place d)) d in
        let pended = record c {
          pending = c.pending ++ (record r { depart = pos (c.clk + read_latency) } ∷ []);
        } in
        if same_ℤ r.command r.final_command
        then drop (if r.type_id == type_read then pended else c)
        else if is_opening r.command
        then drop (enqueue_at in_active r c).1
        else c

    -- The commands of a tick after the scheduling.
    unfoldable pub issue_choice : State → Choice → State × PimDramController
    unfolding issue
    issue_choice s (none, c) = (s, c)
    issue_choice s (some found, c) =
        (issue_command found.2.command found.2.addr_vec s, issue found c)

    unfoldable pub tick : List Request → State → PimDramController → State × PimDramController
    unfolding serve_completed_reads refresh schedule_request issue_choice
    tick requests s c =
        let served = serve_completed_reads (record c { clk = c.clk + 1 }) in
        issue_choice s (schedule_request s (refresh requests served))
