-- ===== src/Seat/Render.antt =====
-- seat-wirebus-vm/src/bin/seat-client.rs: `render_frame` shows a frame on a kernel that does what is
-- documented.
use rignite.Common.{ℕ, ◌^◌, ◌<◌, ◌≡◌, List, length, All}
use rignite.Common.Bytes.{IsByte}
use rignite.Seat.Prog.{Prog}
use rignite.Seat.Io.{Io, fine, error}
use rignite.Seat.Client.{Frame}
use rignite.Seat.Screen.{Screen, HasSize}

-- The program ends with a result.
abbrev Fine : {A : Type 0} → (A → Screen → Type 0) → Io A → Screen → Type 0
Fine Q (fine a) s = Q a s
Fine Q (error e) s = ⊥

module _ (fd : ℕ) (s : Screen) where
  IsIds : ℕ × ℕ → Screen → Type 0
  IsIds (crtc, conn) s' =
      (crtc < 256 ^ 4) × (conn < 256 ^ 4) × (s.crtc ≡ crtc) × (s.connector ≡ conn) × (s' ≡ s)

  IsMode : List ℕ → Screen → Type 0
  IsMode mode s' = All IsByte mode × (length mode ≡ 68) × HasSize mode × (s.mode ≡ mode) × (s' ≡ s)
