-- ===== src/Ingestion/JobStatus.antt =====
-- The status of a job (src/modules/ingestion/db/schema/ingestion-status.ts).
use promotion_management_api.Base.{Bool, true, false}

pub data IngestionStatus : Type 0 where
  running : IngestionStatus
  paused : IngestionStatus
  completed : IngestionStatus
  failed : IngestionStatus
  aborted : IngestionStatus

abbrev pub is_running_job : IngestionStatus → Bool
is_running_job running = true
is_running_job _ = false

-- The statuses that the one-running-import index covers.
abbrev pub is_busy : IngestionStatus → Bool
is_busy running = true
is_busy paused = true
is_busy _ = false
