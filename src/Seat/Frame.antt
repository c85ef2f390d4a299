-- ===== src/Seat/Frame.antt =====
-- seat-wirebus-vm/src/bin/seat-client.rs: what is shown after `render_frame`, on a kernel that does what
-- is documented.
use rignite.Common.{
  ℕ, ◌/◌, ◌^◌, ◌<◌, ◌≡◌, ◌≢◌, refl, sym, ◌∙◌, some, List, [], ◌∷◌, length, All, replicate,
}
use rignite.Common.Bytes.{IsByte, from_le_bytes, to_le_bytes, from_le_bytes-to_le_bytes}
use rignite.Seat.Prog.{Prog, ret, Answer, done, failed, End, Wp, Ends}
use rignite.Seat.Device.{u32_at, drm_ioctl_mode_setcrtc}
use rignite.Seat.Io.{Io, fine, error, Filled, checked, io_ctl, ◌>>=◌}
use rignite.Seat.Client.{
  Frame, colour, u16_at, u64_at, show_frame, frame_buffer, map_buffer, scan_out, set_crtc, add_fb,
  create_dumb, put32, drm_ioctl_mode_create_dumb, drm_ioctl_mode_addfb, drm_ioctl_mode_map_dumb,
}
use rignite.Seat.Screen.{Dumb, Fb, Shown, Screen, Did, OnDrm, Drm}
use rignite.Seat.Fields.{u32_small, handle_at, crtc_at, fb_at, count_at, valid_at, mode_at}

-- The frame is shown: the CRTC shows, on the connector and with its mode, a framebuffer of the mode's size over a buffer of that
-- size, with 32 bits a pixel, all of whose words are the colour.
abbrev pub IsFrame : Frame → Screen → Type 0
IsFrame f s =
    (d : Dumb) × (s.dumb ≡ some d)
    × (f.crtc_id ≡ s.crtc)
    × (f.connector_id ≡ s.connector)
    × (d.width ≡ f.w)
    × (d.height ≡ f.h)
    × (d.bpp ≡ 32)
    × (s.words ≡ some (d.size / 4, colour))
    × (s.shown
        ≡ some (record {
          crtc = f.crtc_id;
          fb = record {
            id = f.fb_id;
            handle = d.handle;
            width = f.w;
            height = f.h;
            pitch = d.pitch;
            bpp = 32;
            depth = 24;
          };
          mode = s.mode;
          connectors = (0, to_le_bytes 4 f.connector_id) ∷ [];
        }))
    × (u16_at 4 s.mode ≡ f.w)
    × (u16_at 14 s.mode ≡ f.h)
    × (f.w ≢ 0)
    × (f.h ≢ 0)

abbrev pub Renders : Io Frame → Screen → Type 0
Renders (fine f) s = IsFrame f s
Renders (error e) s = ⊥

pub Did_map :
    (x : Answer) (P Q : List ℕ → List (List ℕ) → Type 0)
    → Did x P
    → ((a : List ℕ) (b : List (List ℕ)) → P a b → Q a b)
    → Did x Q
Did_map (failed errno) P Q h f = h
Did_map (done r a b) P Q (z, p, q, e) f = (z, p, q, f a b e)

answered :
    {B : Type 0} (f : Filled → Prog (Io B)) (Q : List ℕ → List (List ℕ) → Screen → Type 0)
    (P : End (Io B) → Screen → Type 0)
    → ((a : List ℕ) (b : List (List ℕ)) (s' : Screen)
        → All IsByte a
        → All (λ (c : List ℕ). All IsByte c) b
        → Q a b s'
        → Wp Drm s' (f (a, b)) P)
    → (x : Answer) (s' : Screen) → Did x (λ a b. Q a b s')
    → Wp Drm s' (ret (checked x) >>= f) P
unfolding checked
answered f Q P g (failed errno) s' e = absurd e
answered f Q P g (done r a b) s' (z, p, q, e) = rw z (g a b s' p q e)

-- A call that does what it should, and what follows.
pub io_ctl-Did :
    {B : Type 0} (s : Screen) (fd request : ℕ) (arg : List ℕ) (buffers : List (ℕ × List ℕ))
    (f : Filled → Prog (Io B)) (Q : List ℕ → List (List ℕ) → Screen → Type 0)
    (P : End (Io B) → Screen → Type 0)
    → ((x : Answer) (s' : Screen) → OnDrm s fd request arg buffers x s' → Did x (λ a b. Q a b s'))
    → ((a : List ℕ) (b : List (List ℕ)) (s' : Screen)
        → All IsByte a
        → All (λ (c : List ℕ). All IsByte c) b
        → Q a b s'
        → Wp Drm s' (f (a, b)) P)
    → Wp Drm s (io_ctl fd request arg buffers >>= f) P
unfolding io_ctl
io_ctl-Did s fd request arg buffers f Q P h g = λ x s' d. answered f Q P g x s' (h x s' d)

module _ (fd crtc conn w h : ℕ) (mode : List ℕ) where
  -- The open file is the master, and the CRTC, the connector and the mode are the card's.
  abbrev pub IsReady : Screen → Type 0
  IsReady s = (s.master ≡ some fd) × (s.crtc ≡ crtc) × (s.connector ≡ conn) × (s.mode ≡ mode)

  abbrev dumb_from : List ℕ → Dumb
  dumb_from cd = record {
    handle = u32_at 16 cd;
    width = w;
    height = h;
    bpp = 32;
    pitch = u32_at 20 cd;
    size = u64_at 24 cd;
  }

  abbrev fb_from : List ℕ → List ℕ → Fb
  fb_from cd fb = record {
    id = u32_at 0 fb;
    handle = u32_at 16 cd;
    width = w;
    height = h;
    pitch = u32_at 20 cd;
    bpp = 32;
    depth = 24;
  }

  abbrev frame_of : List ℕ → Frame
  frame_of fb = record { w = w; h = h; fb_id = u32_at 0 fb; crtc_id = crtc; connector_id = conn }

  abbrev shown_of : List ℕ → List ℕ → Shown
  shown_of cd fb = record {
    crtc = crtc;
    fb = fb_from cd fb;
    mode = mode;
    connectors = (0, to_le_bytes 4 conn) ∷ [];
  }

  abbrev filled_with : Screen → ℕ → List ℕ → Screen
  filled_with s map cd = record s { map = some map; words = some (u64_at 24 cd / 4, colour) }

  module _ (sw : w < 256 ^ 4) (sh : h < 256 ^ 4) (sc : crtc < 256 ^ 4) (lm : length mode ≡ 68)
      (mw : u16_at 4 mode ≡ w) (mh : u16_at 14 mode ≡ h) (nw : w ≢ 0) (nh : h ≢ 0) where
    create_dumb_lem :
        (s : Screen) (x : Answer) (s' : Screen)
        → OnDrm s fd drm_ioctl_mode_create_dumb (create_dumb w h) [] x s'
        → Did x (λ a b. s' ≡ record s { dumb = some (dumb_from a) })
    unfolding to_le_bytes from_le_bytes
    create_dumb_lem s x s' d =
        let ew = from_le_bytes-to_le_bytes 4 w sw in
        let eh = from_le_bytes-to_le_bytes 4 h sh in
        Did_map x _ _ (d.create_dumb refl) (λ a b e. e ∙ λ i. record s {
          dumb = some (record {
            handle = u32_at 16 a;
            width = ew i;
            height = eh i;
            bpp = 32;
            pitch = u32_at 20 a;
            size = u64_at 24 a;
          });
        })

    addfb_lem :
        (s : Screen) (cd : List ℕ)
        → All IsByte cd
        → s.dumb ≡ some (dumb_from cd)
        → (x : Answer) (s' : Screen)
        → OnDrm s fd drm_ioctl_mode_addfb (add_fb w h (u32_at 20 cd) (u32_at 16 cd)) [] x s'
        → Did x (λ a b. s' ≡ record s { fb = some (fb_from cd a) })
    unfolding to_le_bytes from_le_bytes
    addfb_lem s cd bc ed x s' d =
        let ew = from_le_bytes-to_le_bytes 4 w sw in
        let eh = from_le_bytes-to_le_bytes 4 h sh in
        let ep = from_le_bytes-to_le_bytes 4 (u32_at 20 cd) (u32_small 20 cd bc) in
        let en = from_le_bytes-to_le_bytes 4 (u32_at 16 cd) (u32_small 16 cd bc) in
        Did_map x _ _ (d.addfb refl (dumb_from cd) ed en) (λ a b e. e ∙ λ i. record s {
          fb = some (record {
            id = u32_at 0 a;
            handle = en i;
            width = ew i;
            height = eh i;
            pitch = ep i;
            bpp = 32;
            depth = 24;
          });
        })

    setcrtc_lem :
        (s : Screen) (cd fb : List ℕ)
        → IsReady s
        → All IsByte fb
        → s.fb ≡ some (fb_from cd fb)
        → (x : Answer) (s' : Screen)
        → OnDrm s fd drm_ioctl_mode_setcrtc
            (set_crtc crtc (u32_at 0 fb) mode)
            ((0, to_le_bytes 4 conn) ∷ [])
            x
            s'
        → Did x (λ a b. s' ≡ record s { shown = some (shown_of cd fb) })
    setcrtc_lem s cd fb (em, ec, en, eo) bf ef x s' d =
        let c = crtc_at crtc (u32_at 0 fb) mode sc in
        let m = mode_at crtc (u32_at 0 fb) mode lm in
        Did_map x _ _
          (d.setcrtc refl (fb_from cd fb) ef em (c ∙ sym ec)
            (fb_at crtc (u32_at 0 fb) mode (u32_small 0 fb bf)) (count_at crtc (u32_at 0 fb) mode)
            (λ i. (0, to_le_bytes 4 (sym en i)) ∷ []) (valid_at crtc (u32_at 0 fb) mode)
            (m ∙ sym eo))
          (λ a b e. e ∙ λ i. record s {
            shown = some (record {
              crtc = c i;
              fb = fb_from cd fb;
              mode = m i;
              connectors = (0, to_le_bytes 4 conn) ∷ [];
            });
          })

    shown-IsFrame :
        (cd fb : List ℕ) (s : Screen)
        → IsReady s
        → s.dumb ≡ some (dumb_from cd)
        → s.words ≡ some (u64_at 24 cd / 4, colour)
        → IsFrame (frame_of fb) (record s { shown = some (shown_of cd fb) })
    shown-IsFrame cd fb s (em, ec, en, eo) ed ew = (
      dumb_from cd,
      ed,
      sym ec,
      sym en,
      refl,
      refl,
      refl,
      ew,
      (λ i. some (record {
        crtc = crtc;
        fb = fb_from cd fb;
        mode = sym eo i;
        connectors = (0, to_le_bytes 4 conn) ∷ [];
      })),
      (λ i. u16_at 4 (eo i)) ∙ mw,
      (λ i. u16_at 14 (eo i)) ∙ mh,
      nw,
      nh,
    )

    scan_out_lem :
        (cd fb md : List ℕ) (bufs : List (List ℕ)) (s : Screen)
        → IsReady s
        → All IsByte cd
        → All IsByte fb
        → s.dumb ≡ some (dumb_from cd)
        → s.fb ≡ some (fb_from cd fb)
        → s.offset ≡ some (u64_at 8 md)
        → Wp Drm s (scan_out fd crtc conn mode w h cd fb (md, bufs)) (Ends Renders)
    unfolding scan_out
    scan_out_lem cd fb md bufs s rd bc bf ed ef eo = λ x1 s1 d1.
        let (map, e1, q1) = d1 (dumb_from cd) ed refl eo in
        rw (e1, q1)
          (λ x2 s2 d2. rw (d2 refl) (
            io_ctl-Did (filled_with s map cd) fd drm_ioctl_mode_setcrtc
              (set_crtc crtc (u32_at 0 fb) mode) ((0, to_le_bytes 4 conn) ∷ [])
              (λ r. ret (fine (frame_of fb)))
              (λ a b s'. s' ≡ record (filled_with s map cd) { shown = some (shown_of cd fb) })
              (Ends Renders) (setcrtc_lem (filled_with s map cd) cd fb rd bf ef)
              (λ a b s' p q e. rw e (shown-IsFrame cd fb (filled_with s map cd) rd ed refl))))

    map_buffer_lem :
        (cd fb : List ℕ) (bufs : List (List ℕ)) (s : Screen)
        → IsReady s
        → All IsByte cd
        → All IsByte fb
        → s.dumb ≡ some (dumb_from cd)
        → s.fb ≡ some (fb_from cd fb)
        → Wp Drm s (map_buffer fd crtc conn mode w h cd (fb, bufs)) (Ends Renders)
    unfolding map_buffer
    map_buffer_lem cd fb bufs s rd bc bf ed ef =
        io_ctl-Did s fd drm_ioctl_mode_map_dumb (put32 0 (u32_at 16 cd) (replicate 16 0)) []
          (scan_out fd crtc conn mode w h cd fb)
          (λ a b s'. s' ≡ record s { offset = some (u64_at 8 a) }) (Ends Renders)
          (λ x s' d.
            d.map_dumb refl (dumb_from cd) ed (handle_at (u32_at 16 cd) (u32_small 16 cd bc)))
          (λ a b s' p q e.
            rw e (
              scan_out_lem cd fb a b (record s { offset = some (u64_at 8 a) }) rd bc bf ed ef refl))

    frame_buffer_lem :
        (cd : List ℕ) (bufs : List (List ℕ)) (s : Screen)
        → IsReady s
        → All IsByte cd
        → s.dumb ≡ some (dumb_from cd)
        → Wp Drm s (frame_buffer fd crtc conn mode w h (cd, bufs)) (Ends Renders)
    unfolding frame_buffer
    frame_buffer_lem cd bufs s rd bc ed =
        io_ctl-Did s fd drm_ioctl_mode_addfb (add_fb w h (u32_at 20 cd) (u32_at 16 cd)) []
          (map_buffer fd crtc conn mode w h cd)
          (λ a b s'. s' ≡ record s { fb = some (fb_from cd a) }) (Ends Renders)
          (addfb_lem s cd bc ed)
          (λ a b s' p q e.
            rw e (map_buffer_lem cd a b (record s { fb = some (fb_from cd a) }) rd bc p ed refl))

    pub show_frame_lem :
        (s : Screen) → IsReady s → Wp Drm s (show_frame fd crtc conn mode w h) (Ends Renders)
    unfolding show_frame
    show_frame_lem s rd =
        io_ctl-Did s fd drm_ioctl_mode_create_dumb (create_dumb w h) []
          (frame_buffer fd crtc conn mode w h)
          (λ a b s'. s' ≡ record s { dumb = some (dumb_from a) }) (Ends Renders) (create_dumb_lem s)
          (λ a b s' p q e.
            rw e (frame_buffer_lem a b (record s { dumb = some (dumb_from a) }) rd p refl))
