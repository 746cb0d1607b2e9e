-- ===== src/Memory/Refresh.antt =====
-- `AllBankRefresh` of simulator/src/dram_controller/impl/refresh/all_bank_refresh.cpp, over any
-- controller that takes its requests.
pub mod Ranks
use kvc_pim.Base.{
  ℕ, if◌then◌else◌, minus_one, pos_part, replicate, set, ℤ, ◌==◌, zero, suc, ◌+◌, Bool, Option,
  none, some, List, pos,
}
use kvc_pim.Memory.Request.{Request, new_request}

-- What the refresh manager reads of the device and of its controller. A device without a rank level
-- has -1 ranks.
pub record RefreshSetup : Type 0 where
  pub org_levels : ℕ
  pub num_ranks : ℤ
  pub nrefi : ℕ
  pub ref_req_id : ℕ
  pub channel_id : ℕ

pub record AllBankRefresh : Type 0 where
  pub clk : ℕ
  pub next_refresh_cycle : ℕ

-- The state after `setup`.
unfoldable pub new_refresh : RefreshSetup → AllBankRefresh
new_refresh s = record { clk = 0; next_refresh_cycle = s.nrefi }

-- The request for a rank: its address vector is -1 at all levels but the first two.
unfoldable pub refresh_request : RefreshSetup → ℕ → Request
unfolding new_request
refresh_request s rank =
    new_request (set (set (replicate s.org_levels minus_one) 0 (pos s.channel_id)) 1 (pos rank))
      s.ref_req_id

module _ {C : Type 0} (priority_send : Request → C → Bool × C) (s : RefreshSetup) where
  -- The loop over the ranks from `rank` on; `none` is the exception for a request that is refused.
  unfoldable pub send_ranks : ℕ → ℕ → C → Option C
  unfolding refresh_request
  send_ranks zero rank c = some c
  send_ranks (suc rounds) rank c =
      let sent = priority_send (refresh_request s rank) c in
      let rest = send_ranks rounds (rank + 1) sent.1 in if sent.0 then rest else none

  unfoldable pub refresh_tick : AllBankRefresh → C → Option (AllBankRefresh × C)
  unfolding send_ranks
  refresh_tick m c =
      let clk = m.clk + 1 in
      if clk == m.next_refresh_cycle
      then elim (send_ranks (pos_part s.num_ranks) 0 c) [
        | none ↦ none
        | some d ↦
            some (record { clk = clk; next_refresh_cycle = m.next_refresh_cycle + s.nrefi }, d)
      ]
      else some (record m { clk = clk }, c)
