-- ===== src/Iks.antt =====
-- The document tree, src/iks.c. `Heap` has the nodes in memory and the commands on them, `Seek` the
-- loop over links, `Create` the operations that make and link nodes, `Move` those that follow the
-- links, `Find` the searches, `Info` what a node holds, `Write` the text of a tree and `Copy` its
-- copy. `Tree` has the trees that nodes stand for, and `Sim` commands that only read.
pub mod Heap
pub mod Sim
pub mod Seek
pub mod Create
pub mod Move
pub mod Find
pub mod Info
pub mod Tree
pub mod Write
pub mod Copy
