-- ===== src/Index/Provider/Crawl.antt =====
-- An indexer that reads from the HTTP server of the provider: `head` and `get_block` of
-- crates/ursa-index-provider/src/provider.rs, request by request.
use mathlib.Core.Option
use ursa.Prelude.{
  ℕ, zero, suc, ◌≡◌, ◌<◌, refl, List, [], ◌∷◌, ◌++◌, length, Option, none, some, Result, ok, err,
  panic, arith,
}
use ursa.Store.{Cid, Bytes}
use ursa.Index.Advertisement.{Ipld, link, bytes, other, Advertisement, EntryChunk}
use ursa.Index.Provider.{Object, chunk, ad, ObjectStore, Provider, get_block}
use ursa.Index.Provider.Chains.{Chain}
use ursa.Index.Provider.Http.{accepted, block_response, head_response}
use ursa.Index.SignedHead.{SignedHeadError, Keys, open_head, head_handler}

infixl 5 ◌>>=◌
abbrev ◌>>=◌ : {A B : Type 0} → Option A → (A → Option B) → Option B
none >>= f = none
some a >>= f = f a

module _ (o : ObjectStore) (decode : Bytes → Option Object) where
  -- The objects of the provider's store are served as bytes that decode to them.
  pub record IsServed : Type 0 where
    pub served :
        (db : o.Db) (cid : Cid) (x : Object)
        → o.get_obj db cid ≡ some x
        → (b : Bytes) × (o.get_bytes db cid ≡ ok (some b)) × (decode b ≡ some x)

  -- GET /:cid.
  pub fetch : Provider o.Db → Cid → Option Object
  unfolding get_block
  fetch p cid = do b ← accepted (block_response (get_block o p (some cid))); decode b

  abbrev as_chunk : Object → Option EntryChunk
  as_chunk (chunk k) = some k
  as_chunk (ad a) = none

  abbrev as_ad : Object → Option Advertisement
  as_ad (chunk k) = none
  as_ad (ad a) = some a

  abbrev as_link : Ipld → Option Cid
  as_link (link cid) = some cid
  as_link (bytes b) = none
  as_link (other n) = none

  -- The entries below a link: the last chunk comes first.
  pub read_entries : ℕ → Provider o.Db → Option Ipld → Option (List Ipld)
  read_entries zero p e = none
  read_entries (suc fuel) p none = some []
  read_entries (suc fuel) p (some l) = do
    cid ← as_link l
    x ← fetch p cid
    k ← as_chunk x
    older ← read_entries fuel p k.next
    some (older ++ k.entries)

  abbrev pub previous : Option Ipld → Option (Option Cid)
  previous none = some none
  previous (some l) = as_link l >>= λ cid. some (some cid)

  -- Some advertisements below a head, the newest first, each as its context and its entries, and where the
  -- next would be.
  unfoldable pub read_ads :
      ℕ → ℕ → Provider o.Db → Option Cid → Option (List (Ipld × List Ipld) × Option Cid)
  read_ads zero fuel p head = some ([], head)
  read_ads (suc n) fuel p none = none
  read_ads (suc n) fuel p (some cid) = do
    x ← fetch p cid
    a ← as_ad x
    entries ← read_entries fuel p a.entries
    next ← previous a.previous_id
    (rest, left) ← read_ads n fuel p next
    some ((a.context_id, entries) ∷ rest, left)

  abbrev pub joined : List (List Ipld) → List Ipld
  joined [] = []
  joined (es ∷ css) = joined css ++ es

  pub previous-map : (p : Option Cid) → previous (Option.map link p) ≡ some p
  previous-map none = refl
  previous-map (some cid) = refl

  module _ (is_served : IsServed) (p : Provider o.Db) where
    pub fetch_lem :
        (cid : Cid) (x : Object) → o.get_obj p.blockstore cid ≡ some x → fetch p cid ≡ some x
    unfolding fetch get_block
    fetch_lem cid x h =
        let (b, found, same) = is_served.served p.blockstore cid x h in rw found same

    pub read_entries-Chain :
        (fuel : ℕ) (e : Option Ipld) (css : List (List Ipld))
        → length css < fuel
        → Chain o p.blockstore e css
        → read_entries fuel p e ≡ some (joined css)
    unfolding read_entries
    read_entries-Chain zero e css l c = absurd (omega arith)
    read_entries-Chain (suc fuel) e [] l c = rw c refl
    read_entries-Chain (suc fuel) e (es ∷ css) l (cid, k, at, found, same, rest) =
        rw
          (
            at,
            fetch_lem cid (chunk k) found,
            read_entries-Chain fuel k.next css (omega arith) rest,
            same,
          )
          refl

abbrev opened : Result SignedHeadError (ℕ × Cid) → Option (ℕ × Cid)
opened (ok r) = some r
opened (err e) = none
opened panic = none

-- GET /head, and the advertisements below it: the key that signed, what was read, and where the next would
-- be.
unfoldable pub crawl :
    (o : ObjectStore)
    → (Bytes → Option Object)
    → Keys
    → ℕ
    → ℕ
    → Provider o.Db
    → Option (ℕ × (List (Ipld × List Ipld) × Option Cid))
crawl o decode k n fuel p = do
  h ← accepted (head_response (head_handler k p))
  (pk, cid) ← opened (open_head k h)
  read ← read_ads o decode n fuel p (some cid)
  some (pk, read)
