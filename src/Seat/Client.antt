-- ===== src/Seat/Client.antt =====
-- seat-wirebus-vm/src/bin/seat-client.rs: `render_frame`, which shows a frame on a card.
use rignite.Common.{ℕ, ◌*◌, ◌/◌, List, [], ◌∷◌, ◌||◌, ◌==◌, if◌then◌else◌, take, drop, replicate}
use rignite.Common.Bytes.{from_le_bytes, to_le_bytes}
use rignite.Seat.Prog.{Prog, ret, call, fill}
use rignite.Seat.Device.{
  u32_at, put, first_buffer, drm_ioctl_mode_getresources, drm_ioctl_mode_setcrtc,
}
use rignite.Seat.Io.{
  Io, fine, error, no_crtcs, no_modes, no_usable_mode, Filled, io_ctl, io_map, lift, ◌>>=◌, ◌>>◌,
}

abbrev pub drm_ioctl_mode_getconnector : ℕ
drm_ioctl_mode_getconnector = 0xc05064a7

abbrev pub drm_ioctl_mode_create_dumb : ℕ
drm_ioctl_mode_create_dumb = 0xc02064b2

abbrev pub drm_ioctl_mode_addfb : ℕ
drm_ioctl_mode_addfb = 0xc01c64ae

abbrev pub drm_ioctl_mode_map_dumb : ℕ
drm_ioctl_mode_map_dumb = 0xc01064b3

abbrev pub put32 : ℕ → ℕ → List ℕ → List ℕ
put32 at v buffer = put at (to_le_bytes 4 v) buffer

abbrev pub u16_at : ℕ → List ℕ → ℕ
u16_at at bytes = from_le_bytes (take 2 (drop at bytes))

abbrev pub u64_at : ℕ → List ℕ → ℕ
u64_at at bytes = from_le_bytes (take 8 (drop at bytes))

abbrev pub second_buffer : List (List ℕ) → List ℕ
second_buffer [] = []
second_buffer (b ∷ bs) = first_buffer bs

-- The first CRTC and the first connector.
unfoldable pub resources_counted : ℕ → ℕ → ℕ → Prog (Io (ℕ × ℕ))
resources_counted fd n_crtcs n_conns =
    if (n_crtcs == 0) || (n_conns == 0)
    then ret (error no_crtcs)
    else (io_ctl fd drm_ioctl_mode_getresources
          (put32 40 n_conns (put32 36 n_crtcs (replicate 64 0)))
          ((8, replicate (4 * n_crtcs) 0) ∷ (16, replicate (4 * n_conns) 0) ∷ [])
        >>= λ (arg, bufs). ret (fine (u32_at 0 (first_buffer bufs), u32_at 0 (second_buffer bufs))))

unfoldable pub resources : ℕ → Prog (Io (ℕ × ℕ))
unfolding resources_counted
resources fd = do
  (res, bufs) ← io_ctl fd drm_ioctl_mode_getresources (replicate 64 0) []
  resources_counted fd (u32_at 36 res) (u32_at 40 res)

-- The first mode of a connector, in 68 bytes.
unfoldable pub modes_counted : ℕ → ℕ → ℕ → Prog (Io (List ℕ))
modes_counted fd connector_id n_modes =
    if n_modes == 0
    then ret (error no_modes)
    else (io_ctl fd drm_ioctl_mode_getconnector
          (put32 48 connector_id (put32 32 n_modes (replicate 80 0)))
          ((8, replicate (n_modes * 68) 0) ∷ [])
        >>= λ (arg, bufs). ret (fine (take 68 (first_buffer bufs))))

unfoldable pub connector_mode : ℕ → ℕ → Prog (Io (List ℕ))
unfolding modes_counted
connector_mode fd connector_id = do
  (c, bufs) ← io_ctl fd drm_ioctl_mode_getconnector (put32 48 connector_id (replicate 80 0)) []
  modes_counted fd connector_id (u32_at 32 c)

-- What the summary names.
pub record Frame : Type 0 where
  pub w : ℕ
  pub h : ℕ
  pub fb_id : ℕ
  pub crtc_id : ℕ
  pub connector_id : ℕ

-- XRGB8888
abbrev pub colour : ℕ
colour = 0xff3366

-- The arguments of the requests.
abbrev pub create_dumb : ℕ → ℕ → List ℕ
create_dumb w h = put32 8 32 (put32 4 w (put32 0 h (replicate 32 0)))

abbrev pub add_fb : ℕ → ℕ → ℕ → ℕ → List ℕ
add_fb w h pitch handle =
    put32 24 handle
      (put32 20 24 (put32 16 32 (put32 12 pitch (put32 8 h (put32 4 w (replicate 28 0))))))

abbrev pub set_crtc : ℕ → ℕ → List ℕ → List ℕ
set_crtc crtc_id fb_id mode =
    put 36 mode (put32 32 1 (put32 16 fb_id (put32 12 crtc_id (put32 8 1 (replicate 104 0)))))

-- From the size of the mode on: the buffer, the framebuffer, the offset of the mapping, and the rest.
module _ (fd crtc_id connector_id : ℕ) (mode : List ℕ) (w h : ℕ) where
  unfoldable pub scan_out : List ℕ → List ℕ → Filled → Prog (Io Frame)
  unfolding io_ctl
  scan_out cd fb (md, bufs) = do
    map ← io_map fd (u64_at 24 cd) (u64_at 8 md)
    lift (call (fill map (u64_at 24 cd / 4) colour))
    io_ctl fd drm_ioctl_mode_setcrtc (set_crtc crtc_id (u32_at 0 fb) mode)
        ((0, to_le_bytes 4 connector_id) ∷ [])
    ret (
        fine (record {
          w = w;
          h = h;
          fb_id = u32_at 0 fb;
          crtc_id = crtc_id;
          connector_id = connector_id;
        }))

  unfoldable pub map_buffer : List ℕ → Filled → Prog (Io Frame)
  unfolding io_ctl scan_out
  map_buffer cd (fb, bufs) =
      io_ctl fd drm_ioctl_mode_map_dumb (put32 0 (u32_at 16 cd) (replicate 16 0)) []
      >>= scan_out cd fb

  unfoldable pub frame_buffer : Filled → Prog (Io Frame)
  unfolding io_ctl map_buffer
  frame_buffer (cd, bufs) =
      io_ctl fd drm_ioctl_mode_addfb (add_fb w h (u32_at 20 cd) (u32_at 16 cd)) [] >>= map_buffer cd

  unfoldable pub show_frame : Prog (Io Frame)
  unfolding io_ctl frame_buffer
  show_frame = io_ctl fd drm_ioctl_mode_create_dumb (create_dumb w h) [] >>= frame_buffer

unfoldable pub render_mode : ℕ → ℕ → ℕ → List ℕ → Prog (Io Frame)
unfolding show_frame
render_mode fd crtc_id connector_id mode =
    let w = u16_at 4 mode in
    let h = u16_at 14 mode in
    if (w == 0) || (h == 0)
    then ret (error no_usable_mode)
    else show_frame fd crtc_id connector_id mode w h

unfoldable pub render_frame : ℕ → Prog (Io Frame)
unfolding resources connector_mode render_mode
render_frame fd = do
  (crtc_id, connector_id) ← resources fd
  mode ← connector_mode fd connector_id
  render_mode fd crtc_id connector_id mode
