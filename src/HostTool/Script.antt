-- ===== src/HostTool/Script.antt =====
-- src/host_test_tool/src/main.rs: what the handshake writes, and what the device has answered by then.
use rignite.Common.{◌≡◌, ◌≢◌, ◌⊎◌, List, [], ◌∷◌, ◌++◌, ok, All}
use rignite.HostTool.Transfer.{E}
use rignite.HostTool.Handshake.{Control, Sent, script}

module _ (write_control : Control → E (Unit {0})) where
  abbrev pub IsAccepted : Control → Type 0
  IsAccepted c = write_control c ≡ ok tt

  -- Each write of `cs` was asked for and accepted, and the result is `ok`; or one was not accepted,
  -- which is the last that was asked for, all before it were accepted, and the result is its answer.
  abbrev pub Follows : List Control → Sent → Type 0
  Follows cs r =
      ((r.result ≡ ok tt) × (r.controls ≡ cs) × All IsAccepted cs)
      ⊎ ((done : List Control) × (c : Control) × (rest : List Control) × (cs ≡ done ++ (c ∷ rest))
          × (r.controls ≡ done ++ (c ∷ []))
          × All IsAccepted done
          × ¬ IsAccepted c
          × (r.result ≡ write_control c))

  -- The handshake with what it read before the first write.
  abbrev pub Handshakes : E (Unit {0}) → Sent → Type 0
  Handshakes version r =
      ((version ≡ ok tt) × Follows script r)
      ⊎ ((version ≢ ok tt) × (r.controls ≡ []) × (r.result ≡ version))
