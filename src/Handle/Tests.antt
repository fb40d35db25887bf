-- ===== src/Handle/Tests.antt =====
-- Runs of the handles of common/src/common.c.
use morning_projects.Handle.{Handles}

abbrev no_handles : Handles
no_handles = record { counter = 0; objects = λ i. 0 }
