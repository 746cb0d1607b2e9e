-- ===== src/Tracker.antt =====
-- `BankConflictTracker` of simulator/src/memory_system/bank_conflict_tracker.h.
pub mod History
pub mod Counters
use kvc_pim.Base.{
  ℕ, Map, at_or, empty_map, if◌then◌else◌, insert, is_empty, ltb_ℤ, set_insert, ℤ, ◌==◌, ◌+◌, Bool,
  false, not, ◌&&◌, Option, none, some, List, [], ◌∷◌, ◌++◌, pos, negsuc, nat_key,
}
use Prim.Native.String.{String}

-- The two `conflict_type`s.
pub data ConflictType : Type 0 where
  weight_kv kv_weight : ConflictType

pub record ConflictEvent : Type 0 where
  pub bank_id : ℕ
  pub cycle : ℕ
  pub conflict_type : ConflictType

-- The usage maps hold an entry for a bank once an address was inserted for it.
pub record Tracker : Type 0 where
  pub num_banks : ℤ
  pub weight_bank_usage : Map ℕ (List ℕ)
  pub kv_cache_bank_usage : Map ℕ (List ℕ)
  pub active_weight_requests : Map ℕ (List ℕ)
  pub active_kv_requests : Map ℕ (List ℕ)
  pub total_conflicts : ℕ
  pub weight_kv_conflicts : ℕ
  pub kv_weight_conflicts : ℕ
  pub conflict_history : List ConflictEvent

unfoldable pub create : ℤ → Tracker
create num_banks = record {
  num_banks = num_banks;
  weight_bank_usage = empty_map;
  kv_cache_bank_usage = empty_map;
  active_weight_requests = empty_map;
  active_kv_requests = empty_map;
  total_conflicts = 0;
  weight_kv_conflicts = 0;
  kv_weight_conflicts = 0;
  conflict_history = [];
}

-- `bank_id < 0 || bank_id >= m_num_banks` returns at once: the bank in range, or none.
abbrev pub bank_in : ℤ → ℤ → Option ℕ
bank_in num_banks (negsuc b) = none
bank_in num_banks (pos b) = if ltb_ℤ (pos b) num_banks then some b else none

-- `find(bank_id) != end() && ![bank_id].empty()`
abbrev pub in_use : ℕ → Map ℕ (List ℕ) → Bool
in_use b usage = elim (usage b) [ none ↦ false | some addrs ↦ not (is_empty addrs) ]

-- `usage[bank_id].insert(addr)`
abbrev pub use_addr : ℕ → ℕ → Map ℕ (List ℕ) → Map ℕ (List ℕ)
use_addr b addr usage = insert b (set_insert addr (at_or b [] usage)) usage

-- `requests[bank_id].push_back(addr)`
abbrev pub push_request : ℕ → ℕ → Map ℕ (List ℕ) → Map ℕ (List ℕ)
push_request b addr requests = insert b (at_or b [] requests ++ (addr ∷ [])) requests

-- `erase(remove(begin, end, addr), end)`
unfoldable pub remove_all : ℕ → List ℕ → List ℕ
remove_all addr [] = []
remove_all addr (x ∷ xs) = let rest = remove_all addr xs in if x == addr then rest else x ∷ rest

unfoldable pub register_weight_operation : ℤ → ℕ → ℕ → Tracker → Tracker
register_weight_operation bank addr cycle t = elim (bank_in t.num_banks bank) [
  | none ↦ t
  | some b ↦
      let hit = in_use b t.kv_cache_bank_usage in
      record t {
        weight_bank_usage = use_addr b addr t.weight_bank_usage;
        active_weight_requests = push_request b addr t.active_weight_requests;
        total_conflicts = if hit then t.total_conflicts + 1 else t.total_conflicts;
        weight_kv_conflicts = if hit then t.weight_kv_conflicts + 1 else t.weight_kv_conflicts;
        conflict_history =
            if hit
            then t.conflict_history
              ++ (record { bank_id = b; cycle = cycle; conflict_type = weight_kv } ∷ [])
            else t.conflict_history;
      }
]

unfoldable pub register_kv_cache_operation : ℤ → ℕ → ℕ → Tracker → Tracker
register_kv_cache_operation bank addr cycle t = elim (bank_in t.num_banks bank) [
  | none ↦ t
  | some b ↦
      let hit = in_use b t.weight_bank_usage in
      record t {
        kv_cache_bank_usage = use_addr b addr t.kv_cache_bank_usage;
        active_kv_requests = push_request b addr t.active_kv_requests;
        total_conflicts = if hit then t.total_conflicts + 1 else t.total_conflicts;
        kv_weight_conflicts = if hit then t.kv_weight_conflicts + 1 else t.kv_weight_conflicts;
        conflict_history =
            if hit
            then t.conflict_history
              ++ (record { bank_id = b; cycle = cycle; conflict_type = kv_weight } ∷ [])
            else t.conflict_history;
      }
]

unfoldable pub complete_weight_operation : ℤ → ℕ → Tracker → Tracker
unfolding remove_all
complete_weight_operation bank addr t = elim (bank_in t.num_banks bank) [
  | none ↦ t
  | some b ↦ record t {
    active_weight_requests =
        insert b (remove_all addr (at_or b [] t.active_weight_requests)) t.active_weight_requests;
  }
]

unfoldable pub complete_kv_cache_operation : ℤ → ℕ → Tracker → Tracker
unfolding remove_all
complete_kv_cache_operation bank addr t = elim (bank_in t.num_banks bank) [
  | none ↦ t
  | some b ↦ record t {
    active_kv_requests =
        insert b (remove_all addr (at_or b [] t.active_kv_requests)) t.active_kv_requests;
  }
]

unfoldable pub has_potential_conflict : ℤ → Tracker → Bool
has_potential_conflict bank t = elim (bank_in t.num_banks bank) [
  | none ↦ false
  | some b ↦ in_use b t.weight_bank_usage && in_use b t.kv_cache_bank_usage
]

unfoldable pub get_stats : Tracker → List (String × ℕ)
get_stats t =
    ("total_conflicts", t.total_conflicts)
    ∷ ("weight_kv_conflicts", t.weight_kv_conflicts)
    ∷ ("kv_weight_conflicts", t.kv_weight_conflicts)
    ∷ []

unfoldable pub reset_stats : Tracker → Tracker
reset_stats t = record t {
  total_conflicts = 0;
  weight_kv_conflicts = 0;
  kv_weight_conflicts = 0;
  conflict_history = [];
}

-- The calls that change a tracker.
pub data Call : Type 0 where
  weight_op kv_op : ℤ → ℕ → ℕ → Call
  weight_done kv_done : ℤ → ℕ → Call
  reset : Call

unfoldable pub step : Tracker → Call → Tracker
unfolding register_weight_operation register_kv_cache_operation complete_weight_operation
    complete_kv_cache_operation reset_stats
step t (weight_op bank addr cycle) = register_weight_operation bank addr cycle t
step t (kv_op bank addr cycle) = register_kv_cache_operation bank addr cycle t
step t (weight_done bank addr) = complete_weight_operation bank addr t
step t (kv_done bank addr) = complete_kv_cache_operation bank addr t
step t reset = reset_stats t

unfoldable pub run : Tracker → List Call → Tracker
unfolding step
run t [] = t
run t (c ∷ cs) = run (step t c) cs
