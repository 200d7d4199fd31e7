-- ===== src/TreeMap.antt =====
-- executor/crates/sdk-rs/src/storage/tree_map.rs: the AVL map that contracts keep in their storage.
mod Tests
mod Slots
mod Rotations
mod Tree
mod Returns
mod Held
mod Turns
mod Lifts
mod Links
mod Rebalance
mod Entries
mod Search
mod Map
mod Inserts
mod Visits
mod Removal
mod Shrinks
mod Successors
mod Moves
mod Removes
mod Joins
mod Erasure
mod Laws
mod Depth
mod DoubleTurns
mod Grows
mod Allocs
mod Lookup
mod Insertion
