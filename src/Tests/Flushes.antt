-- ===== src/Tests/Flushes.antt =====
-- Flushes and reconciles of the sample engine.
use cpa_plugin_reset_priorit.Engine.Flush.{delayed, flush_loop}
use cpa_plugin_reset_priorit.Engine.Ends.{flush_ends}
use cpa_plugin_reset_priorit.Tests.Sample.{host, sys}
use cpa_plugin_reset_priorit.Engine.{healthy, reconcile, on_deadline}
use cpa_plugin_reset_priorit.Engine.Setup.{SameSetup}
use cpa_plugin_reset_priorit.Engine.Sys.{Sys}
use cpa_plugin_reset_priorit.Engine.Plan.{WriteItem}
use cpa_plugin_reset_priorit.Engine.Write.{write_one}
use cpa_plugin_reset_priorit.Engine.Fetch.{fetch_loop}
use cpa_plugin_reset_priorit.Engine.Restarts.{fetch_ends}
use cpa_plugin_reset_priorit.Engine.Saves.{saves, Saved, write_one-Saved}
use cpa_plugin_reset_priorit.Engine.Callbacks.{run_task}
use cpa_plugin_reset_priorit.Engine.Tasks.{dry_run_saves_nothing, run_task-SameSetup}
use cpa_plugin_reset_priorit.Tests.Sample.{config, engine}
use cpa_plugin_reset_priorit.Base.{bytes, pos, ◌≡◌, refl, true, false, none, []}

flush_ends_example : (flush_loop host delayed 3 [] sys).1 ≡ true
flush_ends_example = flush_ends host delayed sys

fetch_ends_example : (fetch_loop host true none 3 (bytes "1") sys).1 ≡ true
fetch_ends_example = fetch_ends host true none (bytes "1") sys

-- The plan of the sample engine's first account.
abbrev item : WriteItem
item = record {
  auth_index = bytes "1";
  name = bytes "a.json";
  provider = bytes "claude";
  desired = pos 0;
  config_seq = 0;
  disabled = false;
  health = healthy;
}

write_one-Saved_example : Saved host item sys (write_one host item sys)
write_one-Saved_example = write_one-Saved host item sys

-- The sample engine in dry-run.
abbrev dry : Sys
dry = record { engine = record engine { cfg = record config { dry_run = true } }; trace = [] }

dry_run_saves_nothing_example : saves (run_task host reconcile dry).trace ≡ 0
dry_run_saves_nothing_example = dry_run_saves_nothing host reconcile dry refl

run_task-SameSetup_example : SameSetup engine (run_task host (on_deadline 0) sys).engine
run_task-SameSetup_example = run_task-SameSetup host (on_deadline 0) sys
