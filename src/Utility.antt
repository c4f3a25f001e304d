-- ===== src/Utility.antt =====
-- src/include/uvcc/utility.hpp: type lists, reference counts, spin lock, storages, owning pointers.
pub mod TypeLists
pub mod RefCount
pub mod Spinlock
pub mod Storage
pub mod AnyPtr
