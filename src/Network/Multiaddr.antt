-- ===== src/Network/Multiaddr.antt =====
-- The addresses of libp2p, as lists of protocols. A peer id and a multihash are numbers.
use ursa.Prelude.{ℕ, ◌≡◌, refl, List, [], ◌∷◌, ◌++◌, Option, none, some}

abbrev pub PeerId : Type 0
PeerId = ℕ

pub data Protocol : Type 0 where
  ip4 ip6 tcp p2p other : ℕ → Protocol
  p2p_circuit : Protocol

abbrev pub Multiaddr : Type 0
Multiaddr = List Protocol

-- `Multiaddr::pop`: the last protocol, and what stands before it.
abbrev pop_cons : Protocol → Option (Protocol × Multiaddr) → Protocol × Multiaddr
pop_cons p none = (p, [])
pop_cons p (some (last, rest)) = (last, p ∷ rest)

unfoldable pub pop : Multiaddr → Option (Protocol × Multiaddr)
pop [] = none
pop (p ∷ ps) = some (pop_cons p (pop ps))

pub pop-concat : (addr : Multiaddr) (p : Protocol) → pop (addr ++ p ∷ []) ≡ some (p, addr)
unfolding pop
pop-concat [] p = refl
pop-concat (q ∷ addr) p = rw (pop-concat addr p)
