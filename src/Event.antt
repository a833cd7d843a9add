-- ===== src/Event.antt =====
-- csrc/core/framework/event_def.h: the events that the checkers read.
mod Arch
mod Info
use ascend_mssanitizer.Base.{◌*◌}
unfoldable pub use Arch.*
unfoldable pub use Info.*
