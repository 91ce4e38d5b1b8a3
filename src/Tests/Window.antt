-- ===== src/Tests/Window.antt =====
-- A frame on a host that grants a window.
use wosrecomp.Base.{true}
use wosrecomp.Present.{Presenter, Host}

abbrev host : Host
host = record { opens_window = true; creates_device = true; creates_texture = true }

abbrev started : Presenter
started = record {
  front_buffer = 0xA100_0000;
  front_width = 1280;
  front_height = 720;
  front_pitch = 5120;
  has_staging = true;
  staging_width = 1280;
  staging_height = 720;
  running = true;
  has_guest = true;
  frames = 0;
}
