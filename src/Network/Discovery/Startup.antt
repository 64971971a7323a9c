-- ===== src/Network/Discovery/Startup.antt =====
-- The bootstrap nodes of a configuration, and what bootstrapping asks of Kademlia.
use ursa.Prelude.{
  ℕ, ◌≡◌, refl, sym, ◌∙◌, List, [], ◌∷◌, ◌++◌, map, append_assoc, append-nil, Option, none, some,
  Result, ok, err, List-cases, inl, inr,
}
use ursa.Network.Multiaddr.{PeerId, p2p, Multiaddr, pop-concat}
use ursa.Network.Discovery.{
  Discovery, DiscoveryError, no_bootstrap_nodes, no_known_peers, KadCall, add_address, bootstrap,
  bootstrap_node, bootstrap_list, add_peer_address, add_all_addresses, bootstrap_all, ask_kademlia,
}

module _ (from_multihash : ℕ → Option PeerId) (to_multihash : PeerId → ℕ)
    (inverse : (p : PeerId) → from_multihash (to_multihash p) ≡ some p) where
  -- The address of a node with its id at the end, as the configuration writes it.
  abbrev pub with_id : PeerId × Multiaddr → Multiaddr
  with_id (peer_id, addr) = addr ++ p2p (to_multihash peer_id) ∷ []

  bootstrap_node-with_id :
      (n : PeerId × Multiaddr) → bootstrap_node from_multihash (with_id n) ≡ ok (some n)
  unfolding bootstrap_node
  bootstrap_node-with_id (p, addr) = rw (pop-concat addr (p2p (to_multihash p))) (rw (inverse p))

  -- The nodes that a configuration names are read back: each peer with its address, in order.
  pub bootstrap_list-with_id :
      (nodes : List (PeerId × Multiaddr))
      → bootstrap_list from_multihash (map with_id nodes) ≡ ok nodes
  unfolding bootstrap_list
  bootstrap_list-with_id [] = refl
  bootstrap_list-with_id (n ∷ nodes) =
      rw (bootstrap_node-with_id n) (rw (bootstrap_list-with_id nodes))

abbrev pub added : List (PeerId × Multiaddr) → List KadCall
added = map (λ n. add_address n.0 n.1)

add_all_addresses_kademlia :
    (d : Discovery) (nodes : List (PeerId × Multiaddr))
    → (add_all_addresses d nodes).kademlia ≡ d.kademlia ++ added nodes
unfolding add_all_addresses
add_all_addresses_kademlia d [] = sym (append-nil d.kademlia)
add_all_addresses_kademlia d (n ∷ nodes) =
    add_all_addresses_kademlia (add_peer_address d n) nodes
    ∙ append_assoc d.kademlia (add_address n.0 n.1 ∷ []) (added nodes)

-- Kademlia's own bootstrap is asked for where there is a node to start from.
abbrev pub asked : List (PeerId × Multiaddr) → List KadCall
asked [] = []
asked (_ ∷ _) = bootstrap ∷ []

abbrev pub answer : List (PeerId × Multiaddr) → Option ℕ → Result DiscoveryError ℕ
answer [] started = err no_bootstrap_nodes
answer (_ ∷ _) none = err no_known_peers
answer (_ ∷ _) (some query) = ok query

-- Bootstrapping gives Kademlia every bootstrap address, in order. With no bootstrap node it then fails,
-- and Kademlia is not asked; otherwise Kademlia is asked last, and its answer is the result.
pub bootstrap_all_calls :
    (d : Discovery) (started : Option ℕ)
    → ((bootstrap_all d started).0.kademlia
        ≡ d.kademlia ++ (added d.bootstrap_nodes ++ asked d.bootstrap_nodes))
      × ((bootstrap_all d started).1 ≡ answer d.bootstrap_nodes started)
unfolding bootstrap_all
bootstrap_all_calls d started = elim (List-cases d.bootstrap_nodes) [
  | inl e ↦ rw e (sym (append-nil d.kademlia), refl)
  | inr (n, nodes, e) ↦ rw e (
    calls (record d { bootstrap_nodes = n ∷ nodes }) n nodes,
    answered (record d { bootstrap_nodes = n ∷ nodes }) n nodes started,
  )
]
  where
    calls :
        (d' : Discovery) (n : PeerId × Multiaddr) (nodes : List (PeerId × Multiaddr))
        → (add_all_addresses d' (n ∷ nodes)).kademlia ++ bootstrap ∷ []
          ≡ d'.kademlia ++ (added (n ∷ nodes) ++ bootstrap ∷ [])
    calls d' n nodes = rw (
      add_all_addresses_kademlia d' (n ∷ nodes),
      append_assoc d'.kademlia (added (n ∷ nodes)) (bootstrap ∷ []),
    )

    answered :
        (d' : Discovery) (n : PeerId × Multiaddr) (nodes : List (PeerId × Multiaddr)) (o : Option ℕ)
        → (ask_kademlia d' o).1 ≡ answer (n ∷ nodes) o
    answered d' n nodes none = refl
    answered d' n nodes (some q) = refl
