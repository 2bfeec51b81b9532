-- ===== src/Txmngr/Broadcast/Taxonomy.antt =====
-- The broadcast dispositions of evm/txmngr/txmngr.go as a taxonomy.
