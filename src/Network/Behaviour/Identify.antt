-- ===== src/Network/Behaviour/Identify.antt =====
-- What a node does with the identity that a peer sends.
use ursa.Prelude.{
  ◌≡◌, sym, ◌∙◌, List, [], ◌∷◌, ◌++◌, map, append-nil, append_assoc, Bool, true, false,
  if◌then◌else◌,
}
use ursa.Network.Multiaddr.{PeerId, Multiaddr}
use ursa.Network.Discovery.{KadCall, add_address, add_peer_address}
use ursa.Network.Behaviour.{Behaviour, Call, add_explicit_peer, exchange_address, call}
use ursa.Network.Behaviour.Handlers.{
  IdentifyInfo, received, speaks_ursa, add_addresses, handle_identify,
}

add_addresses_calls :
    (peer : PeerId) (b : Behaviour) (addrs : List Multiaddr)
    → ((add_addresses peer b addrs).calls ≡ b.calls ++ map (exchange_address peer) addrs)
      × ((add_addresses peer b addrs).discovery.kademlia
          ≡ b.discovery.kademlia ++ map (add_address peer) addrs)
unfolding add_addresses
add_addresses_calls peer b [] = (sym (append-nil b.calls), sym (append-nil b.discovery.kademlia))
add_addresses_calls peer b (a ∷ as') =
    let (calls, kad) =
      add_addresses_calls peer
        (call (record b { discovery = add_peer_address b.discovery (peer, a) })
          (exchange_address peer a))
        as' in
    (
      calls ∙ append_assoc b.calls (exchange_address peer a ∷ []) (map (exchange_address peer) as'),
      kad
          ∙ append_assoc b.discovery.kademlia (add_address peer a ∷ [])
              (map (add_address peer) as'),
    )

-- The calls that an identity leads to, on the peers of this network and on all others.
abbrev pub greeted : PeerId → IdentifyInfo → Bool → List Call
greeted peer info true = add_explicit_peer peer ∷ map (exchange_address peer) info.listen_addrs
greeted peer info false = []

abbrev pub learnt : PeerId → IdentifyInfo → Bool → List KadCall
learnt peer info true = map (add_address peer) info.listen_addrs
learnt peer info false = []

-- A peer that names the node's Kademlia protocol becomes an explicit gossip peer, and each of its listen
-- addresses reaches Kademlia and the request-response behaviour, in order; from any other peer the
-- node takes nothing.
pub handle_identify_calls :
    (b : Behaviour) (peer : PeerId) (info : IdentifyInfo)
    → let b' = handle_identify b (received peer info) in
      (b'.calls ≡ b.calls ++ greeted peer info (speaks_ursa info.protocols))
      × (b'.discovery.kademlia
          ≡ b.discovery.kademlia ++ learnt peer info (speaks_ursa info.protocols))
unfolding handle_identify
handle_identify_calls b peer info = go (speaks_ursa info.protocols)
  where
    go :
        (same : Bool)
        → let b' =
            if same
            then add_addresses peer (call b (add_explicit_peer peer)) info.listen_addrs
            else b in
          (b'.calls ≡ b.calls ++ greeted peer info same)
          × (b'.discovery.kademlia ≡ b.discovery.kademlia ++ learnt peer info same)
    go true =
        let (calls, kad) =
          add_addresses_calls peer (call b (add_explicit_peer peer)) info.listen_addrs in
        (
          calls
              ∙ append_assoc b.calls (add_explicit_peer peer ∷ [])
                  (map (exchange_address peer) info.listen_addrs),
          kad,
        )
    go false = (sym (append-nil b.calls), sym (append-nil b.discovery.kademlia))
