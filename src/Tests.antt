-- ===== src/Tests.antt =====
-- Runs of the models at concrete inputs, and the instances of the theorems.
mod HeapTests
mod SortTests
mod TreeTests
mod ContainerTests
mod HashTests
mod SequenceTests
mod AssociativeTests
