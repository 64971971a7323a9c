-- ===== src/Network/Service/Bitswap.antt =====
-- The service's answer to the end of a bitswap query (`BehaviourEvent::Bitswap`), and the commands
-- that wait for it (`UrsaCommand::GetBitswap`).
use ursa.Prelude.{
  ℕ, zero, suc, List, [], ◌∷◌, ◌++◌, Option, none, some, true, lookup, insert, erase, if◌then◌else◌,
  Result, ok, err, panic, ◌>>=◌, unwrap,
}
use ursa.Store.{Cid, BlockStore, contains}
use ursa.Network.Multiaddr.{PeerId}
use ursa.Network.Behaviour.{Behaviour, BitswapInfo, Sender, cancel, get_block, sync_block, peers}
use ursa.Network.Service.{
  BitswapType, get, sync, BlockReply, stored, not_found, no_peers, World, UrsaService, ServiceError,
  tracked,
}
use ursa.Metrics.{bitswap}

abbrev pub waiting_for : Cid → List (Cid × List Sender) → List Sender
waiting_for cid m = elim (lookup cid m) [ none ↦ [] | some chans ↦ chans ]

module _ (b : BlockStore) (w : World b) where
  -- The busy wait for the block: `none` says that the fuel ran out. The result is the number of the
  -- next look at the store.
  unfoldable pub wait : Cid → ℕ → ℕ → Option (Result ServiceError ℕ)
  wait cid zero look = none
  wait cid (suc fuel) look = elim (contains b (w.stores look) cid) [
    | ok found ↦ if found then some (ok (suc look)) else wait cid fuel (suc look)
    | err _ ↦ some panic
    | panic ↦ some panic
  ]

  unfoldable pub reply_all :
      Cid → ℕ → List Sender → Result ServiceError (List (Sender × BlockReply))
  reply_all cid look [] = ok []
  reply_all cid look (chan ∷ chans) = do
    found ← unwrap (contains b (w.stores look) cid)
    rest ← reply_all cid (suc look) chans
    ok ((chan, if found then stored else not_found) ∷ rest)

  module _ {Db : Type 0} where
    abbrev pub answer :
        UrsaService Db
        → Cid
        → List Sender
        → Result ServiceError ℕ
        → Result ServiceError (UrsaService Db)
    answer s cid chans waited = do
      look ← waited
      replies ← reply_all cid look chans
      ok (record s {
        response_channels = erase cid s.response_channels;
        block_replies = s.block_replies ++ replies;
      })

    unfoldable pub handle_bitswap :
        ℕ → UrsaService Db → BitswapInfo → Option (Result ServiceError (UrsaService Db))
    unfolding cancel tracked
    handle_bitswap fuel s info =
        let s' = tracked bitswap true (record s { behaviour = cancel s.behaviour info.query_id }) in
        elim (lookup info.cid s.response_channels) [
          | none ↦ some (ok s')
          | some chans ↦ elim (if info.block_found then wait info.cid fuel 0 else some (ok 0)) [
            | none ↦ none
            | some waited ↦ some (answer s' info.cid chans waited)
          ]
        ]

    abbrev pub query : BitswapType → UrsaService Db → Cid → List PeerId → Behaviour
    query get s cid providers = get_block w.query_id s.behaviour cid providers
    query sync s cid providers = sync_block w.query_id s.behaviour cid providers

    unfoldable pub handle_get_bitswap : UrsaService Db → Cid → BitswapType → Sender → UrsaService Db
    unfolding peers get_block sync_block
    handle_get_bitswap s cid kind sender = elim (peers s.behaviour) [
      | [] ↦ record s { block_replies = s.block_replies ++ (sender, no_peers) ∷ [] }
      | p ∷ ps ↦ record s {
        response_channels =
            insert cid (waiting_for cid s.response_channels ++ sender ∷ []) s.response_channels;
        behaviour = query kind s cid (p ∷ ps);
      }
    ]
