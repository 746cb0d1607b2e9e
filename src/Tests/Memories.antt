-- ===== src/Tests/Memories.antt =====
-- The scheduler, the controller and the memory system over a device that is always ready
-- (simulator/src/dram_controller, simulator/src/memory_system).
use kvc_pim.Base.{
  ℕ, ltb, Option, none, get_or, ◌+◌, ◌≡◌, refl, Bool, true, false, some, [], ◌∷◌, arith, pos, ◌++◌,
  length-replicate, replicate, same_ℤ,
}
use kvc_pim.KvTrace.{Op, compute}
use kvc_pim.Memory.Request.{Request, Device, Asked, asked, new_request, enqueue}
use kvc_pim.Memory.Scheduler.{get_best_request, IsBest, get_best_request-IsBest}
use kvc_pim.Memory.Controller.{
  PimDramController, held, schedule_request, issue_choice, send, buffer_at, issue, in_read,
}
use kvc_pim.Memory.Controller.Sending.{
  outstanding, IsBounded, Queued, send-Queued, send_read_forwarded,
}
use kvc_pim.Memory.Controller.Serving.{Scheduled, schedule_request-Scheduled}
use kvc_pim.Memory.Controller.Conserving.{departed, issue_choice-schedule_request, issue_lost}
use kvc_pim.Memory.Refresh.{RefreshSetup, AllBankRefresh}
use kvc_pim.Memory.System.{PimDramSystem}
use kvc_pim.Memory.System as System
use kvc_pim.Memory.System.Counters.{Sent, send-Sent}

-- The state counts the issued commands; commands are the request types.
abbrev ready_device : Device
ready_device = record {
  State = ℕ;
  check_ready = λ s command addr_vec. true;
  get_preq_command = λ s final_command addr_vec. final_command;
  issue_command = λ command addr_vec s. s + 1;
  request_translation = pos;
  is_opening = λ command. false;
  is_closing = λ command. false;
  read_latency = 4;
  row_level = 3;
}

abbrev a_read : Request
a_read = new_request (pos 0 ∷ pos 1 ∷ pos 2 ∷ pos 3 ∷ pos 4 ∷ []) 0

abbrev a_write : Request
a_write = new_request (pos 0 ∷ pos 0 ∷ pos 0 ∷ pos 0 ∷ pos 0 ∷ []) 1

abbrev controller : PimDramController
controller = record {
  pending = [];
  active_buffer = [];
  priority_buffer = [];
  read_buffer = a_read ∷ [];
  write_buffer = a_write ∷ [];
  is_write_mode = false;
  clk = 10;
}

abbrev above_high : ℕ → Bool
above_high n = ltb 25 n

abbrev below_low : ℕ → Bool
below_low n = ltb n 7

IsBest-example :
    (best : ℕ × Request) × ((get_best_request ready_device 0 (a_read ∷ a_write ∷ [])).0 ≡ some best)
    × IsBest ready_device 0 (get_best_request ready_device 0 (a_read ∷ a_write ∷ [])).1 best
IsBest-example = get_best_request-IsBest ready_device 0 a_read (a_write ∷ [])

Scheduled-example :
    Scheduled ready_device above_high below_low 0 controller
      (schedule_request ready_device above_high below_low 0 controller)
Scheduled-example = schedule_request-Scheduled ready_device above_high below_low 0 controller

-- The requests for the bank of `a_read`.
abbrev wanted : Asked → Bool
wanted a = same_ℤ (get_or a.addr_vec 1 (pos 0)) (pos 1)

conserved_example :
    held wanted
        (issue_choice ready_device above_high below_low 0
          (schedule_request ready_device above_high below_low 0 controller)).1
      + departed ready_device above_high below_low wanted
          (schedule_request ready_device above_high below_low 0 controller).0
    ≡ held wanted controller
conserved_example =
    issue_choice-schedule_request ready_device above_high below_low wanted 0 controller
      (omega arith)

controller-IsBounded : IsBounded controller
controller-IsBounded = omega arith

-- The controller after it took `a_write`.
abbrev written : PimDramController
written = record controller {
  write_buffer = a_write ∷ record a_write { final_command = pos 1; arrive = pos 10 } ∷ [];
}

takes_write : send ready_device a_write controller ≡ some (true, written)
unfolding new_request send enqueue
takes_write = refl

forwarded_example :
    send ready_device a_read written
    ≡ some (
      true,
      record written {
        pending =
            written.pending
            ++ (record a_read {
              final_command = ready_device.request_translation 0;
              depart = pos (written.clk + 1);
            }
                ∷ []);
      },
    )
forwarded_example =
    send_read_forwarded ready_device (pos 0 ∷ pos 1 ∷ pos 2 ∷ pos 3 ∷ pos 4 ∷ [])
      (pos 0 ∷ pos 0 ∷ pos 0 ∷ pos 0 ∷ pos 0 ∷ []) controller written takes_write

Queued-example : Queued ready_device (asked a_write) true controller written
Queued-example = send-Queued ready_device a_write controller (true, written) takes_write

abbrev system : PimDramSystem
system = record {
  controllers = controller ∷ [];
  num_read_requests = 0;
  num_write_requests = 0;
  num_other_requests = 0;
  num_compute_requests = 0;
  num_saread_requests = 0;
  num_sawrite_requests = 0;
  num_bkread_requests = 0;
  num_bkwrite_requests = 0;
}

abbrev request_types : Op → Option ℕ
request_types Op.read = some 0
request_types Op.write = some 1
request_types Op.compute = some 3
request_types Op.subarray_read = some 4
request_types Op.subarray_write = some 5
request_types Op.bank_read = some 6
request_types Op.bank_write = some 7
request_types op = none

Sent-example :
    (taken : Bool) × (after : PimDramSystem) × (System.send ready_device request_types
        (compute, 0 ∷ 0 ∷ [])
        system
      ≡ some (taken, after))
    × Sent ready_device request_types taken system after
unfolding System.priority_op
Sent-example =
    send-Sent ready_device request_types compute 3 (0 ∷ 0 ∷ []) system controller refl refl
      controller-IsBounded

-- A device whose command 9 opens a row, and an active buffer of 33 requests.
abbrev opening_device : Device
opening_device = record ready_device { is_opening = λ command. same_ℤ command (pos 9) }

abbrev opening_read : Request
opening_read = record a_read { command = pos 9; final_command = pos 0 }

abbrev full_controller : PimDramController
full_controller = record controller {
  active_buffer = replicate 33 a_read;
  read_buffer = opening_read ∷ [];
}

lost_example :
    outstanding
        (issue opening_device above_high below_low (in_read, 0, opening_read) full_controller)
      + 1
    ≡ outstanding full_controller
unfolding buffer_at
lost_example =
    issue_lost opening_device above_high below_low in_read 0 opening_read full_controller refl
      (omega (arith, length-replicate 33 a_read)) refl refl

abbrev two_ranks : RefreshSetup
two_ranks = record { org_levels = 5; num_ranks = pos 2; nrefi = 8; ref_req_id = 8; channel_id = 0 }

-- The next tick is due.
abbrev refreshing : AllBankRefresh
refreshing = record { clk = 7; next_refresh_cycle = 8 }
