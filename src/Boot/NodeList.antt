-- ===== src/Boot/NodeList.antt =====
-- src/boot/mod.rs: the device path of `boot_efi_app` as a list of nodes.
use rignite.Common.{
  ℕ, zero, suc, ◌+◌, ◌*◌, ◌/◌, ◌%◌, ◌^◌, ◌<◌, ◌≡◌, refl, List, [], ◌∷◌, ◌++◌, All, ok, leb, ◌==◌,
  ◌&&◌, length, drop, drop_front, take-append, length-append, le→leb, arith, false, true, ◌>>=◌,
}
use mathlib.Core.List.{append_assoc, append-nil}
use rignite.Common.Text.{Text, unit_bytes}
use rignite.Boot.DevicePath.{
  end_node, raw_part, two, copy_nodes, path_u16, node_size, file_node, device_path,
}

-- A node states its own length in its third and fourth byte, and is not the end.
pub record IsNode (node : List ℕ) : Type 0 where
  pub type_ : ℕ
  pub subtype : ℕ
  pub lo : ℕ
  pub hi : ℕ
  pub body : List ℕ
  pub bytes : node ≡ type_ ∷ subtype ∷ lo ∷ hi ∷ body
  pub size : hi * 256 + lo ≡ length node
  pub goes_on : (type_ == 0x7f && subtype == 0xff) ≡ false

abbrev pub flat : List (List ℕ) → List ℕ
flat [] = []
flat (n ∷ ns) = n ++ flat ns

length-unit_bytes : (us : List ℕ) → length (unit_bytes us) ≡ length us * 2
unfolding unit_bytes
length-unit_bytes [] = refl
length-unit_bytes (u ∷ us) = omega (arith, length-unit_bytes us)

file_node-IsNode : (path : Text) → node_size path < 2 ^ 16 → IsNode (file_node path)
unfolding file_node
file_node-IsNode path h = record {
  type_ = 4;
  subtype = 4;
  lo = node_size path % 256;
  hi = node_size path / 256 % 256;
  body = unit_bytes (path_u16 path);
  bytes = refl;
  size = omega (arith, length-unit_bytes (path_u16 path));
  goes_on = refl;
}

raw_part_ok :
    (node rest : List ℕ) (len : ℕ) → len ≡ length node → raw_part (node ++ rest) len ≡ ok node
unfolding raw_part
raw_part_ok node rest len e =
    let f : leb len (length (node ++ rest)) ≡ true =
      le→leb _ _ (omega (arith, length-append node rest)) in
    rw (f, e, take-append) refl

-- One round.
copy_node :
    (fuel : ℕ) (node rest : List ℕ)
    → IsNode node
    → copy_nodes (suc fuel) (node ++ rest) ≡ (copy_nodes fuel rest >>= λ nodes. ok (node ++ nodes))
unfolding copy_nodes
copy_node fuel node rest n =
    let first : two (node ++ rest) ≡ ok (n.type_, n.subtype) = rw n.bytes refl in
    let second : two (drop 2 (node ++ rest)) ≡ ok (n.lo, n.hi) = rw n.bytes refl in
    let behind : drop (n.hi * 256 + n.lo) (node ++ rest) ≡ rest = rw (n.size, drop_front) refl in
    rw (first, n.goes_on, second, raw_part_ok node rest _ n.size, behind) refl

copy_nodes_lem :
    (fuel : ℕ) (nodes : List (List ℕ)) (rest : List ℕ)
    → All IsNode nodes
    → length nodes < fuel
    → copy_nodes fuel (flat nodes ++ (0x7f ∷ 0xff ∷ rest)) ≡ ok (flat nodes)
unfolding copy_nodes
copy_nodes_lem zero nodes rest a h = absurd (omega arith)
copy_nodes_lem (suc fuel) [] rest a h = refl
copy_nodes_lem (suc fuel) (n ∷ ns) rest (i, a) h =
    let ih = copy_nodes_lem fuel ns rest a (omega arith) in
    rw (append_assoc, copy_node fuel n _ i, ih) refl

All-last :
    (ns : List (List ℕ)) (n : List ℕ) → All IsNode ns → IsNode n → All IsNode (ns ++ (n ∷ []))
All-last [] n a i = (i, tt)
All-last (m ∷ ns) n (j, a) i = (j, All-last ns n a i)

flat-last : (ns : List (List ℕ)) (n : List ℕ) → flat (ns ++ (n ∷ [])) ≡ flat ns ++ n
flat-last [] n = append-nil n
flat-last (m ∷ ns) n = rw (flat-last ns n, append_assoc) refl

-- For a volume whose memory is a list of nodes and an end node, with a path short enough that the
-- length of its node fits 16 bits, the device path is again a list of nodes and an end node: the
-- nodes of the volume, then one node for the file. One round for each node and one more are enough.
pub device_path_lem :
    (fuel : ℕ) (nodes : List (List ℕ)) (rest : List ℕ) (path : Text)
    → All IsNode nodes
    → length nodes < fuel
    → node_size path < 2 ^ 16
    → (device_path fuel (flat nodes ++ (0x7f ∷ 0xff ∷ rest)) path
        ≡ ok (flat (nodes ++ (file_node path ∷ [])) ++ end_node))
      × All IsNode (nodes ++ (file_node path ∷ []))
unfolding device_path
device_path_lem fuel nodes rest path a h small = (
  rw (copy_nodes_lem fuel nodes rest a h, flat-last, append_assoc) refl,
  All-last nodes _ a (file_node-IsNode path small),
)
