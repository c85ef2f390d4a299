-- ===== src/HostTool/Device.antt =====
-- src/host_test_tool/src/main.rs: the device, before the transfer: which device is taken, the
-- handshake, and the endpoint. The answers of the USB library are arguments.
use rignite.Common.{
  ℕ, Option, none, some, List, [], ◌∷◌, Bool, true, false, ok_or, ◌>>=◌, ◌>>◌, if◌then◌else◌,
}
use rignite.HostTool.Transfer.{no_interfaces, no_descriptor, no_endpoint, E, Reading, transfer}

pub data Direction : Type 0 where
  in_ out : Direction

pub data TransferType : Type 0 where
  control isochronous bulk interrupt : TransferType

pub record Endpoint : Type 0 where
  pub address : ℕ
  pub direction : Direction
  pub transfer_type : TransferType

-- An interface, with the endpoints of each of its descriptors.
pub record Interface : Type 0 where
  pub number : ℕ
  pub descriptors : List (List Endpoint)

-- The readings are those of the endpoint with the address.
pub record Device : Type 0 where
  pub open_device : E (Unit {0})
  pub active_config_descriptor : E (List Interface)
  pub claim_interface : ℕ → E (Unit {0})
  pub read_bulk : ℕ → List Reading

abbrev pub is_bulk_in : Endpoint → Bool
is_bulk_in ep = elim ep.direction [
  | out ↦ false
  | in_ ↦ elim ep.transfer_type [ bulk ↦ true | _ ↦ false ]
]

unfoldable pub find_bulk_in : List Endpoint → Option Endpoint
find_bulk_in [] = none
find_bulk_in (ep ∷ eps) = let rest = find_bulk_in eps in if is_bulk_in ep then some ep else rest

abbrev pub next {ℓ} : {A : Type ℓ} → List A → Option A
next [] = none
next (a ∷ as') = some a

unfoldable pub handle_accessory_mode : (List ℕ → List ℕ) → Device → E (Unit {0})
unfolding find_bulk_in transfer
handle_accessory_mode sha256 device = do
  device.open_device
  config ← device.active_config_descriptor
  interface ← ok_or (next config) no_interfaces
  interface_desc ← ok_or (next interface.descriptors) no_descriptor
  endpoint ← ok_or (find_bulk_in interface_desc) no_endpoint
  device.claim_interface interface.number
  transfer sha256 (device.read_bulk endpoint.address)
