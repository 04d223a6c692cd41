-- ===== src/Core/Override/Serving.antt =====
-- The core keeps track of the Album override from its start on.
use nxremote_api.Core.World.{Core}
