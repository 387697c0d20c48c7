-- ===== src/System/Reach.antt =====
-- Runs of the engine with all of its tasks.
use dahua_p2p_bridge.System.{System, Step}

pub data Reach (y : System) : System → Type 0 where
  start : Reach y y
  next : {before after : System} → Reach y before → Step before after → Reach y after
