-- ===== src/Memory.antt =====
-- The memory side of the simulator: the request buffers (simulator/src/base/request.h), the
-- scheduler and the controller of simulator/src/dram_controller/impl, and `PIMDRAMSystem` of
-- simulator/src/memory_system/impl/pim_DRAM_system.cpp.
pub mod Request
pub mod Refresh
pub mod Scheduler
pub mod Controller
pub mod System
