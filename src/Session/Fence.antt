-- ===== src/Session/Fence.antt =====
-- The fence of `finalize`: a summary that is written counts the turns of the snapshot.
use lenko_bot.State.{State}
use lenko_bot.Text.{Text}
