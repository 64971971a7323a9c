-- ===== src/Network/Discovery/Peers.antt =====
-- Which peers a node counts as connected.
use ursa.Prelude.{
  ◌≡◌, refl, ap, ◌∙◌, ◌==◌, List, [], ◌∷◌, Bool, true, false, elem, elem-remove, if◌then◌else◌,
  arith,
}
use ursa.Network.Multiaddr.{PeerId}
use ursa.Network.Discovery.{Discovery}
use ursa.Network.Discovery.Connections.{
  Connection, established, closed, changed, inject, inject_all,
}

-- Whether the last report on a peer was of a new connection; `before` where there is none.
abbrev pub last_established : PeerId → Bool → List Connection → Bool
last_established p before [] = before
last_established p before (established q _ _ ∷ cs) =
    last_established p (if p == q then true else before) cs
last_established p before (closed q _ _ ∷ cs) =
    last_established p (if p == q then false else before) cs
last_established p before (changed q _ _ ∷ cs) = last_established p before cs

elem-inject :
    (p : PeerId) (d : Discovery) (c : Connection)
    → elem p (inject d c).peers ≡ last_established p (elem p d.peers) (c ∷ [])
unfolding inject
elem-inject p d (established q _ _) = ground arith
elem-inject p d (closed q _ _) = ground (arith, elem-remove p q d.peers)
elem-inject p d (changed q _ _) = refl

-- A peer is counted as connected exactly if the last report on it was of a connection opened, however
-- many of its connections are open: one that closes while others remain drops the peer.
pub elem-inject_all :
    (p : PeerId) (d : Discovery) (cs : List Connection)
    → elem p (inject_all d cs).peers ≡ last_established p (elem p d.peers) cs
unfolding inject_all
elem-inject_all p d [] = refl
elem-inject_all p d (established q c o ∷ cs) =
    elem-inject_all p (inject d (established q c o)) cs
    ∙ ap (λ b. last_established p b cs) (elem-inject p d (established q c o))
elem-inject_all p d (closed q c o ∷ cs) =
    elem-inject_all p (inject d (closed q c o)) cs
    ∙ ap (λ b. last_established p b cs) (elem-inject p d (closed q c o))
elem-inject_all p d (changed q c o ∷ cs) =
    elem-inject_all p (inject d (changed q c o)) cs
    ∙ ap (λ b. last_established p b cs) (elem-inject p d (changed q c o))
