-- ===== src/Runner/Stats.antt =====
-- nexus-watcher/src/service/stats.rs.
use pubky_nexus.Base.{ℕ, String, Bool, List, [], ◌∷◌, ◌++◌, filter, length, nat_beq}

-- `ProcessorRunStatus`
pub data ProcessorRunStatus : Type 0 where
  failed_to_build ok error panic budget_spent skipped : ProcessorRunStatus

-- The derived equality goes by the variant.
abbrev pub variant : ProcessorRunStatus → ℕ
variant ProcessorRunStatus.failed_to_build = 0
variant ProcessorRunStatus.ok = 1
variant ProcessorRunStatus.error = 2
variant ProcessorRunStatus.panic = 3
variant ProcessorRunStatus.budget_spent = 4
variant ProcessorRunStatus.skipped = 5

abbrev pub same_status : ProcessorRunStatus → ProcessorRunStatus → Bool
same_status a b = nat_beq (variant a) (variant b)

-- `ProcessorRunStats`
pub record ProcessorRunStats : Type 0 where
  pub hs_id : String
  pub duration : ℕ
  pub status : ProcessorRunStatus

-- `RunAllProcessorsStats`
abbrev pub RunAllProcessorsStats : Type 0
RunAllProcessorsStats = List ProcessorRunStats

-- `RunAllProcessorsStats::add_run_result`
unfoldable pub add_run_result :
    String → ℕ → ProcessorRunStatus → RunAllProcessorsStats → RunAllProcessorsStats
add_run_result hs_id duration status stats =
    stats ++ (record { hs_id = hs_id; duration = duration; status = status } ∷ [])

-- `RunAllProcessorsStats::count`
unfoldable pub count : ProcessorRunStatus → RunAllProcessorsStats → ℕ
count status stats = length (filter (λ ps. same_status ps.status status) stats)
