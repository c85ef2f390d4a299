-- ===== src/Seat/ClientMain.antt =====
-- seat-wirebus-vm/src/bin/seat-client.rs: `open_device` and `main`, and the end of the orchestrator. The
-- bus is asked by one request, and the report is left out.
use rignite.Common.{ℕ, Option, none, some, List, [], ◌∷◌, Bool, true, false, ◌&&◌}
use rignite.Common.Text.{Text, codes}
use rignite.Seat.Prog.{
  Prog, ret, call, open_device, recv_msg, BusReply, bus_ok, bus_error, bus_other, bus_failed, ◌>>=◌,
}
use rignite.Seat.Device.{evdev_name}
use rignite.Seat.Io.{Io, fine, error}
use rignite.Seat.Client.{Frame, render_frame}

-- The first open file of the first control message that has one.
unfoldable pub first_fd : List (List ℕ) → Option ℕ
first_fd [] = none
first_fd ([] ∷ later) = first_fd later
first_fd ((fd ∷ fds) ∷ later) = some fd

unfoldable pub recv_fd : Prog (Option ℕ)
unfolding first_fd
recv_fd = do m ← call recv_msg; ret (elim m [ none ↦ none | some cmsgs ↦ first_fd cmsgs ])

abbrev pub on_reply : BusReply → Prog (Option ℕ)
on_reply bus_ok = recv_fd
on_reply bus_error = ret none
on_reply bus_other = ret none
on_reply bus_failed = ret none

-- An error is `none`.
unfoldable pub device_fd : Text → Prog (Option ℕ)
unfolding recv_fd
device_fd path = do reply ← call (open_device path); on_reply reply

abbrev pub is_fine : Io Frame → Bool
is_fine (fine f) = true
is_fine (error e) = false

abbrev pub has_name : Option (List ℕ) → Bool
has_name none = false
has_name (some name) = true

-- An input device that is not there is no failure.
unfoldable pub check_input : Option ℕ → Prog Bool
unfolding evdev_name
check_input none = ret true
check_input (some fd) = do name ← evdev_name 0 fd; ret (has_name name)

abbrev pub client_code : Bool → ℕ
client_code true = 0
client_code false = 3

unfoldable pub show_and_check : Option ℕ → Prog ℕ
unfolding render_frame device_fd check_input
show_and_check none = ret 2
show_and_check (some card_fd) = do
  frame ← render_frame card_fd
  event ← device_fd (codes "/dev/input/event0")
  input_ok ← check_input event
  ret (client_code (is_fine frame && input_ok))

-- The exit code.
unfoldable pub client_main : Prog ℕ
unfolding device_fd show_and_check
client_main = do card ← device_fd (codes "/dev/dri/card0"); show_and_check card
