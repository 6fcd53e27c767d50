-- ===== src/Inference.antt =====
-- crates/fndr-inference: the model and who may use it.
pub mod ModelWorker
pub mod Order
pub mod Answers
