-- ===== src/Core/Screenshot/Memory.antt =====
-- GET /screenshot and the heap of the process.
use nxremote_api.Base.{◌++◌, Bool-cases, inl, inr, ◌≡◌, if◌then◌else◌}
use nxremote_api.Core.World.{Platform, Core, ◌>>=◌, get, ask}
use nxremote_api.Core.Screenshot.{disabled, out_of_memory, malloc, handle_screenshot}
use nxremote_api.Core.Waits.{Takes}
use nxremote_api.Core.Stream.{stream, Sends-send}

module _ (p : Platform) (takes : Takes p) where
  -- GET /screenshot never sends a screen: whatever the console answers, a client that takes at least a
  -- byte each time is sent the answer that memory is out, and only that, where the service has started,
  -- and the answer that screenshots are disabled where it has not. The pixels take 3686400 bytes and the
  -- heap has 2097152.
  pub handle_screenshot-out_of_memory :
      (s : Core)
      → stream (handle_screenshot p s).1.events
        ≡ stream s.events ++ (if s.capssc_ready then out_of_memory else disabled)
  unfolding handle_screenshot malloc ◌>>=◌ get ask
  handle_screenshot-out_of_memory s = elim (Bool-cases s.capssc_ready) [
    | inl ready ↦ rw ready ((Sends-send p takes out_of_memory).run _)
    | inr off ↦ rw off ((Sends-send p takes disabled).run _)
  ]
