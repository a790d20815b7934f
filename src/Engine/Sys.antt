-- ===== src/Engine/Sys.antt =====
-- The engine and the calls it has made, the latest first.
use cpa_plugin_reset_priorit.Times.{Time}
use cpa_plugin_reset_priorit.Host.{Host, Call, read_clock, log_line}
use cpa_plugin_reset_priorit.Engine.{Engine, Account, find}
use cpa_plugin_reset_priorit.Base.{Str, Option, List, ◌∷◌}

pub record Sys : Type 0 where
  pub engine : Engine
  pub trace : List Call

abbrev pub calling : Call → Sys → Sys
calling c s = record s { trace = c ∷ s.trace }

abbrev pub with_engine : Engine → Sys → Sys
with_engine e s = record s { engine = e }

-- `e.clk.Now()`: the instant, and the system after the reading.
abbrev pub now_of : Host → Sys → Time
now_of h s = h.now s.trace

abbrev pub tick : Sys → Sys
tick = calling read_clock

-- `e.logf(…)`
abbrev pub log : Sys → Sys
log = calling log_line

abbrev pub account_of : Str → Sys → Option Account
account_of idx s = find idx s.engine.accounts
