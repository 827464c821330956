-- ===== src/Conductor/Routes/Stuck.antt =====
-- What an execution that raises leaves behind: its key stays in progress.
use agentic_coding_stack.Conductor.World.{World}
use agentic_coding_stack.Conductor.Outside.{Outside}
