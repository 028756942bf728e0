-- ===== src/Ingestion.antt =====
-- quant_data/ingestion.py: one ingestion run as a transaction of a store.
pub mod Control
pub mod Store
pub mod Run
pub mod Execute
pub mod Triples
pub mod Keeping
pub mod Keys
pub mod Atomic
pub mod Published
