-- ===== src/Memory/System.antt =====
-- `PIMDRAMSystem::send` of simulator/src/memory_system/impl/pim_DRAM_system.cpp: the request goes to
-- the controller of its channel, and the counters of the accepted requests.
pub mod Counters
use kvc_pim.Base.{
  ℕ, get_elem?, get_or, if◌then◌else◌, set, ◌==◌, ◌+◌, Bool, true, false, not, ◌&&◌, ◌||◌, Option,
  none, some, List, [], ◌∷◌, map, pos,
}
use kvc_pim.KvTrace.{Op, Trace, read, write}
use kvc_pim.Memory.Request.{
  Request, Device, new_request, type_read, type_write, type_compute, type_saread, type_sawrite,
  type_bkread, type_bkwrite,
}
use kvc_pim.Memory.Controller.{PimDramController, clear}
use kvc_pim.Memory.Controller as Controller

pub record PimDramSystem : Type 0 where
  pub controllers : List PimDramController
  pub num_read_requests : ℕ
  pub num_write_requests : ℕ
  pub num_other_requests : ℕ
  pub num_compute_requests : ℕ
  pub num_saread_requests : ℕ
  pub num_sawrite_requests : ℕ
  pub num_bkread_requests : ℕ
  pub num_bkwrite_requests : ℕ

-- The `priority-` operations are the plain ones with a mark.
unfoldable pub priority_op : Op → Bool × Op
priority_op Op.priority_read = (true, read)
priority_op Op.priority_write = (true, write)
priority_op op = (false, op)

-- The counters after an accepted request of a type.
unfoldable pub count_request : ℕ → PimDramSystem → PimDramSystem
count_request type_id m =
    let other = record m { num_other_requests = m.num_other_requests + 1 } in
    if type_id == type_read
    then record m { num_read_requests = m.num_read_requests + 1 }
    else if type_id == type_write
    then record m { num_write_requests = m.num_write_requests + 1 }
    else if type_id == type_compute
    then record other { num_compute_requests = m.num_compute_requests + 1 }
    else if type_id == type_saread
    then record other { num_saread_requests = m.num_saread_requests + 1 }
    else if type_id == type_sawrite
    then record other { num_sawrite_requests = m.num_sawrite_requests + 1 }
    else if type_id == type_bkread
    then record other { num_bkread_requests = m.num_bkread_requests + 1 }
    else if type_id == type_bkwrite
    then record other { num_bkwrite_requests = m.num_bkwrite_requests + 1 }
    else other

-- `m_requests(op)` is the device's table of operation names; `none` where it throws.
module _ (device : Device) (requests : Op → Option ℕ) where
  -- The call of the channel's controller.
  unfoldable pub dispatch : Bool → Request → PimDramController → Option (Bool × PimDramController)
  dispatch priority req c =
      if ((req.type_id == type_read) || (req.type_id == type_write)) && not priority
      then Controller.send device req c
      else some (Controller.priority_send device req c)

  -- The counters and the controller after the answer of the channel's controller.
  unfoldable pub complete :
      ℕ → ℕ → Option (Bool × PimDramController) → PimDramSystem → Option (Bool × PimDramSystem)
  unfolding count_request
  complete type_id channel none m = none
  complete type_id channel (some (taken, c)) m =
      let m' = record m { controllers = set m.controllers channel c } in
      some (taken, if taken then count_request type_id m' else m')

  unfoldable pub send_to :
      ℕ → Option PimDramController → Bool → Request → PimDramSystem → Option (Bool × PimDramSystem)
  unfolding dispatch complete
  send_to channel none priority req m = none
  send_to channel (some c) priority req m = complete req.type_id channel (dispatch priority req c) m

  -- The request of a type, which the source makes after looking the type up.
  unfoldable pub send_typed :
      Option ℕ → Bool → List ℕ → PimDramSystem → Option (Bool × PimDramSystem)
  unfolding send_to new_request
  send_typed none priority addr_vec m = none
  send_typed (some type_id) priority addr_vec m =
      let channel = get_or addr_vec 0 0 in
      send_to channel (get_elem? m.controllers channel) priority
        (new_request (map pos addr_vec) type_id) m

  -- `none` where the source throws, for an operation that the device does not have or a request that
  -- its controller cannot take, or where it has no controller for the channel.
  unfoldable pub send : Trace → PimDramSystem → Option (Bool × PimDramSystem)
  unfolding priority_op send_typed
  send (op, addr_vec) m = let p = priority_op op in send_typed (requests p.1) p.0 addr_vec m

-- `finished`: every controller is clear.
unfoldable pub all_clear : List PimDramController → Bool
all_clear [] = true
all_clear (c ∷ controllers) = clear c && all_clear controllers

abbrev pub finished : PimDramSystem → Bool
finished m = all_clear m.controllers
