-- ===== src/ArList.antt =====
-- The intrusive, circular, doubly linked lists of the kernel: `_ar_list` and `_ar_list_node` of
-- include/argon/ar_kernel.h, with the functions of src/ar_kernel.cpp on them.
-- `Nodes` is the pointer program on a heap of nodes. `Seq` is the list of nodes in order, which
-- the other components compute with.
pub mod Nodes
pub mod Seq
