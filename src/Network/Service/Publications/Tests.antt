-- ===== src/Network/Service/Publications/Tests.antt =====
-- A run with a root queued, a publication, and another root queued, and the theorem at it.
use ursa.Prelude.{◌≡◌, refl, inl, inr, sym, subst, List, [], ◌∷◌, some, none, ok}
use ursa.Store.{Cid}
use ursa.Store.Tests.{table_store}
use ursa.Store.Dag.{dag_traversal}
use ursa.Network.Behaviour.{publish, start_publish}
use ursa.Network.Service.{World, index}
use ursa.Network.Service.Advertised.{rev_onto, Decodes}
use ursa.Network.Service.Publish.{
  chunks, handle_start_publish, begin_ad, fill_ad, add_chunks, entries_of,
}
use ursa.Network.Service.Turns.{Turn, event, command, start}
use ursa.Network.Service.Tests.{world, service, reached, decodes, address}
use ursa.Network.Service.Ledger.{Ledger}
use ursa.Network.Service.Publications.{IsWorldOf, start-Ledger}
use ursa.Index.Advertisement.{sign}
use ursa.Index.Provider.{add_chunk}
use ursa.Index.Provider.Tests.{shelf, shelf-IsKept}

abbrev turns : List (Turn table_store shelf)
turns =
    command world (index (2 ∷ []) 92)
    ∷ event world 5 (start_publish address)
    ∷ command world (index (3 ∷ []) 93)
    ∷ []

went :
    start table_store shelf service turns
    ≡ some (ok (reached (start table_store shelf service turns)))
unfolding start handle_start_publish begin_ad dag_traversal fill_ad add_chunks chunks entries_of
    add_chunk sign publish
went = refl

all_decode :
    (w : World table_store) → IsWorldOf table_store shelf w turns → Decodes table_store shelf w
all_decode w (inl e) = subst (Decodes table_store shelf) (sym e) decodes
all_decode w (inr h) = absurd h

start-Ledger_example :
    let after = reached (start table_store shelf service turns) in
    (published : List Cid) × Ledger table_store shelf
      (λ w. IsWorldOf table_store shelf w turns)
      after.index_provider.blockstore
      after.index_provider.head
      published
      none
    × (rev_onto published after.index_provider.root_cids ≡ 1 ∷ 3 ∷ 2 ∷ 3 ∷ [])
start-Ledger_example =
    start-Ledger table_store shelf service (reached (start table_store shelf service turns)) turns
      shelf-IsKept all_decode went
