-- ===== src/Cxl.antt =====
-- third_party/cxl_utils/cxl_allocator.c: the allocator that splits requests between the CXL device
-- and local DRAM. `Stride` chooses the device, `Init` sets the allocator up, `Alloc` serves the
-- requests and `Map` the mappings.
pub mod Stride
pub mod Init
pub mod Alloc
pub mod Map
