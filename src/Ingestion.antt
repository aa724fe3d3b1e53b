-- ===== src/Ingestion.antt =====
-- internal/ingestion: releases that were fetched go into the database, and jobs into the queue.
pub mod Store
pub mod Upstream
pub mod Service
pub mod Atomic
pub mod Jobs
pub mod Stored
