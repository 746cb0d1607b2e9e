-- ===== src/Memory/Refresh/Ranks.antt =====
-- The refresh manager over the controller that it stands in
-- (simulator/src/dram_controller/impl/refresh/all_bank_refresh.cpp and pim_dram_controller.cpp there).
use kvc_pim.Base.{
  ℕ, length, pos, pos_part, zero, suc, ◌+◌, ◌≤◌, ◌<◌, ◌≡◌, ◌≢◌, Option, none, some, List, [], ◌∷◌,
  ◌++◌,
}
use kvc_pim.Memory.Request.{Request, Device, max_size}
use kvc_pim.Memory.Controller.{PimDramController}
use kvc_pim.Memory.Refresh.{RefreshSetup, AllBankRefresh, refresh_request}

module _ (device : Device) (s : RefreshSetup) where
  -- The request for a rank as a controller queues it in cycle `clk`.
  abbrev pub queued : ℕ → ℕ → Request
  queued clk rank = record (refresh_request s rank) {
    final_command = device.request_translation s.ref_req_id;
    arrive = pos clk;
  }

  -- The requests of `n` ranks from `rank` on.
  abbrev pub all_queued : ℕ → ℕ → ℕ → List Request
  all_queued clk zero rank = []
  all_queued clk (suc n) rank = queued clk rank ∷ all_queued clk n (rank + 1)

  -- The controller with more priority requests.
  abbrev pub with_priority : List Request → PimDramController → PimDramController
  with_priority more c = record c { priority_buffer = c.priority_buffer ++ more }

  -- What a tick of the refresh manager does to its controller, whose priority buffer is within its
  -- bound. In a cycle that is due: with room for a request for each rank, it queues exactly these, in
  -- the order of the ranks, and sets the next cycle one interval on; with less room it throws. In any
  -- other cycle it only counts.
  pub record Refreshed (m : AllBankRefresh) (c : PimDramController)
      (answer : Option (AllBankRefresh × PimDramController)) : Type 0 where
    pub due :
        m.clk + 1 ≡ m.next_refresh_cycle
        → length c.priority_buffer + pos_part s.num_ranks ≤ max_size + 1
        → answer
          ≡ some (
            record { clk = m.clk + 1; next_refresh_cycle = m.next_refresh_cycle + s.nrefi },
            with_priority (all_queued c.clk (pos_part s.num_ranks) 0) c,
          )
    pub throws :
        m.clk + 1 ≡ m.next_refresh_cycle
        → max_size + 1 < length c.priority_buffer + pos_part s.num_ranks
        → answer ≡ none
    pub waits : m.clk + 1 ≢ m.next_refresh_cycle → answer ≡ some (record m { clk = m.clk + 1 }, c)
