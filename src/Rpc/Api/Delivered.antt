-- ===== src/Rpc/Api/Delivered.antt =====
-- A client's request for a block that the node does not have, from `get_cid` through the network's loop and
-- back.
use mathlib.Core.Option
use ursa.Prelude.{
  ℕ, ◌+◌, ◌≤◌, ◌<◌, ◌≡◌, ◌≢◌, refl, ap, inl, inr, List, [], ◌∷◌, ◌++◌, some, Bool, true, false,
  lookup, Unique, ==_refl, Result, ok, err, arith, subst, sym,
}
use ursa.Store.{Cid, Bytes, BlockStore}
use ursa.Network.Behaviour.{Sender, BitswapInfo, bitswap, peers}
use ursa.Network.Service.{
  BitswapType, World, UrsaService, get, get_bitswap, BlockReply, stored, not_found, no_peers,
}
use ursa.Network.Service.Turns.{Turn, event, command, start}
use ursa.Network.Service.Waiting.{account, asked, told}
use ursa.Network.Service.Accounts.{start-account}
use ursa.Network.Service.Remaining.{Spared}
use ursa.Network.Service.Delivery.{Told, get_bitswap_delivers, get_bitswap_misses}
use ursa.Network.Service.Answers.{Seen, Stays}
use ursa.Index.Provider.{ObjectStore}
use ursa.Rpc.Api.{bitswap_failed, NodeNetworkInterface, Service, obtain, get_cid}

-- A sender that was told so was told.
some_told :
    (t : Sender) (r : BlockReply) (replies : List (Sender × BlockReply))
    → Told t r replies
    → 1 ≤ told t replies
some_told t r [] h = absurd h
some_told t r ((u, q) ∷ rest) (inl (e, same)) =
    subst (λ x. 1 ≤ told t ((x, q) ∷ rest)) (sym e) (omega (arith, ones))
  where
    ones : told t ((t, q) ∷ rest) ≡ 1 + told t rest
    ones = rw (==_refl t) refl
some_told t r ((u, q) ∷ rest) (inr h) = omega (arith, some_told t r rest h)

-- What a sender that was told at most once was told is what it is told.
once_told :
    (t : Sender) (r : BlockReply) (replies : List (Sender × BlockReply))
    → Told t r replies
    → told t replies ≤ 1
    → lookup t replies ≡ some r
once_told t r [] h few = absurd h
once_told t r ((u, q) ∷ rest) (inl (e, same)) few =
    subst (λ x. lookup t ((x, q) ∷ rest) ≡ some r) (sym e) (rw (==_refl t) (ap some same))
once_told t r ((u, q) ∷ rest) (inr h) few =
    ground (arith, once_told t r rest h, some_told t r rest h, few)

asked-append :
    {b : BlockStore} {o : ObjectStore} (t : Sender) (xs ys : List (Turn b o))
    → asked b o t (xs ++ ys) ≡ asked b o t xs + asked b o t ys
asked-append t [] ys = omega arith
asked-append t (x ∷ xs) ys = omega (arith, asked-append t xs ys)

-- What the interface receives on a one-shot channel.
abbrev received : BlockReply → Result (Unit {0}) (Unit {0})
received stored = ok tt
received not_found = err tt
received no_peers = err tt

-- The network's loop as the interface sees it: the reply to its sender, and the store at that time.
abbrev pub answered : {Db Store : Type 0} → Sender → Store → UrsaService Db → Service Store
answered t after s = record {
  is_open = true;
  answer = Option.map received (lookup t s.block_replies);
  store_after = after;
}

module _ (b : BlockStore) (o : ObjectStore) where
  -- What a sender that is told in a run was told, if it is handed over just once, is the reply to it.
  replied :
      (before : World b) (t : Sender) (cid : Cid) (kind : BitswapType) (r : BlockReply)
      (s s2 : UrsaService o.Db) (between : List (Turn b o)) (w : World b) (fuel : ℕ)
      (info : BitswapInfo)
      → Unique s.response_channels
      → account t s + asked b o t between ≡ 0
      → start b o s
          ((command before (get_bitswap cid kind t) ∷ between) ++ event w fuel (bitswap info) ∷ [])
        ≡ some (ok s2)
      → Told t r s2.block_replies
      → lookup t s2.block_replies ≡ some r
  replied before t cid kind r s s2 between w fuel info unique fresh run known =
      once_told t r s2.block_replies known (
        omega (
          arith,
          start-account b o t s s2
              ((command before (get_bitswap cid kind t) ∷ between)
                ++ event w fuel (bitswap info) ∷ [])
              unique run,
          asked-append t between (event w fuel (bitswap info) ∷ []),
          own,
          fresh,
        ))
    where
      own : asked b o t (command before (get_bitswap cid kind t) ∷ []) ≡ 1
      own = rw (==_refl t) refl

  -- The interface asks for a block that its node does not have, and the loop's reply says that it is stored.
  pub obtain_delivers :
      (i : NodeNetworkInterface b.Db) (kind : BitswapType) (before found : World b) (fuel n : ℕ)
      (t : Sender) (info : BitswapInfo) (present : ℕ → Bool) (s s1 : UrsaService o.Db)
      (between : List (Turn b o)) (after : b.Db)
      → b.has i.store info.cid ≡ ok false
      → Unique s.response_channels
      → account t s + asked b o t between ≡ 0
      → peers s.behaviour ≢ []
      → Spared b o info.cid between
      → start b o s (command before (get_bitswap info.cid kind t) ∷ between) ≡ some (ok s1)
      → info.block_found ≡ true
      → Seen b found info.cid present
      → Stays b found present
      → present n ≡ true
      → n < fuel
      → (s2 : UrsaService o.Db) × (start b o s (
            (command before (get_bitswap info.cid kind t) ∷ between)
            ++ event found fuel (bitswap info) ∷ [])
          ≡ some (ok s2))
        × (obtain b (answered t after s2) i info.cid kind t
            ≡ (record { store = after; sent = i.sent ++ get_bitswap info.cid kind t ∷ [] }, ok tt))
  unfolding obtain
  obtain_delivers i kind before found fuel n t info present s s1 between after absent unique fresh
        some_peer spared run was seen stays here h =
      let (s2, e, known, _) =
        get_bitswap_delivers b o before found fuel n t kind info present s s1 between some_peer
          spared run was seen stays here h in
      let reply =
        replied before t info.cid kind stored s s2 between found fuel info unique fresh e known in
      (s2, e, rw (absent, reply) refl)

  -- A client asks for a block that its node does not have, with a sender that neither waits nor was told
  -- before, nor is handed over again until the end of the block's query. If the node has peers, the turns
  -- until then go on and end no other query of the block, the query finds it, a look within the fuel sees
  -- it in the store and the later ones too, and the store has it after that: the loop goes on, and with its
  -- reply `get_cid` has sent the command that the loop took, and gives the block.
  pub get_cid_delivers :
      (i : NodeNetworkInterface b.Db) (before found : World b) (fuel n : ℕ) (t : Sender)
      (info : BitswapInfo) (present : ℕ → Bool) (s s1 : UrsaService o.Db)
      (between : List (Turn b o)) (after : b.Db) (block : Bytes)
      → b.has i.store info.cid ≡ ok false
      → Unique s.response_channels
      → account t s + asked b o t between ≡ 0
      → peers s.behaviour ≢ []
      → Spared b o info.cid between
      → start b o s (command before (get_bitswap info.cid get t) ∷ between) ≡ some (ok s1)
      → info.block_found ≡ true
      → Seen b found info.cid present
      → Stays b found present
      → present n ≡ true
      → n < fuel
      → b.get after info.cid ≡ ok (some block)
      → (s2 : UrsaService o.Db) × (start b o s (
            (command before (get_bitswap info.cid get t) ∷ between)
            ++ event found fuel (bitswap info) ∷ [])
          ≡ some (ok s2))
        × (get_cid b (answered t after s2) i info.cid t ≡ (
          record { store = after; sent = i.sent ++ get_bitswap info.cid get t ∷ [] },
          ok (some block),
        ))
  unfolding get_cid
  get_cid_delivers i before found fuel n t info present s s1 between after block absent unique fresh
        some_peer spared run was seen stays here h kept =
      let (s2, e, obtained) =
        obtain_delivers i get before found fuel n t info present s s1 between after absent unique
          fresh some_peer spared run was seen stays here h in
      (s2, e, rw (obtained, kept) refl)

  -- A client asks for a block that its node does not have, with a sender that neither waits nor was told
  -- before, nor is handed over again until the end of the block's query. If the node has peers, the turns
  -- until then go on and end no other query of the block, the query does not find it, and the store is
  -- without it then: the loop goes on, and with its reply `get_cid` has sent the command that the loop took,
  -- and fails.
  pub get_cid_misses :
      (i : NodeNetworkInterface b.Db) (before missed : World b) (fuel : ℕ) (t : Sender)
      (info : BitswapInfo) (s s1 : UrsaService o.Db) (between : List (Turn b o)) (after : b.Db)
      → b.has i.store info.cid ≡ ok false
      → Unique s.response_channels
      → account t s + asked b o t between ≡ 0
      → peers s.behaviour ≢ []
      → Spared b o info.cid between
      → start b o s (command before (get_bitswap info.cid get t) ∷ between) ≡ some (ok s1)
      → info.block_found ≡ false
      → Seen b missed info.cid (λ look. false)
      → (s2 : UrsaService o.Db) × (start b o s (
            (command before (get_bitswap info.cid get t) ∷ between)
            ++ event missed fuel (bitswap info) ∷ [])
          ≡ some (ok s2))
        × (get_cid b (answered t after s2) i info.cid t ≡ (
          record { store = after; sent = i.sent ++ get_bitswap info.cid get t ∷ [] },
          err bitswap_failed,
        ))
  unfolding get_cid obtain
  get_cid_misses i before missed fuel t info s s1 between after absent unique fresh some_peer spared
        run was seen =
      let (s2, e, known) =
        get_bitswap_misses b o before missed fuel t get info s s1 between some_peer spared run was
          seen in
      let reply =
        replied before t info.cid get not_found s s2 between missed fuel info unique fresh e
          known in
      (s2, e, rw (absent, reply) refl)
