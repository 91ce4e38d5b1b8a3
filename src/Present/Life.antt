-- ===== src/Present/Life.antt =====
-- What a process does with its presenter, from the start on.
use wosrecomp.Base.{ℕ, ◌≡◌, true, false, List, Option}
use wosrecomp.Guest.{Mem}
use wosrecomp.Present.{
  Presenter, Host, start_presenter, offer_front_buffer, present_frame, shutdown_presenter,
}

-- What happens to the presenter of a process whose guest memory is at `guest_base`, from the start
-- on.
pub data Presented (guest_base : ℕ) : Presenter → Type 0 where
  boots : Presented guest_base (record {
    front_buffer = 0;
    front_width = 0;
    front_height = 0;
    front_pitch = 0;
    has_staging = false;
    staging_width = 0;
    staging_height = 0;
    running = false;
    has_guest = false;
    frames = 0;
  })
  starts :
      (host : Host) (p : Presenter)
      → Presented guest_base p
      → Presented guest_base ((start_presenter host guest_base p).0)
  swaps :
      (args : List ℕ) (p : Presenter)
      → Presented guest_base p
      → Presented guest_base (offer_front_buffer p args)
  shows :
      (guest : Mem) (mapped : Option ℕ) (dst : Mem) (p : Presenter)
      → Presented guest_base p
      → Presented guest_base ((present_frame p guest mapped dst).0)
  shuts : (p : Presenter) → Presented guest_base p → Presented guest_base (shutdown_presenter p)

-- Only a presenter with guest memory and a texture of the default measures runs.
IsReady : Presenter → Type 0
IsReady p =
    p.running ≡ true → (p.has_guest ≡ true) × (p.staging_width ≡ 1280) × (p.staging_height ≡ 720)
