-- ===== src/Base.antt =====
-- The names that the other modules share: those of the libraries, passed on, the tests and the
-- orders on keys (child `Ord`), lists over the native numbers (`Lists`), and the standard library's
-- `BTreeMap` and `BTreeSet` as the source uses them (`Map`, `Set`).
pub mod Logic
pub mod Ord
pub mod Lists
pub mod Map
pub mod Set
pub mod Loop
pub mod Sort
pub mod Group
pub mod Decimal
