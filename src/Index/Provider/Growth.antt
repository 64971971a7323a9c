-- ===== src/Index/Provider/Growth.antt =====
-- The provider's block store only grows, whatever is added to a draft or published.
use mathlib.Core.Option
use ursa.Prelude.{
  ℕ, ◌≡◌, refl, sym, subst, List, [], ◌∷◌, Option, none, some, lookup, ok, ◌>>=◌, >>=-eq-ok, erase,
  map_err, ok-injective,
}
use ursa.Store.{Cid, Bytes}
use ursa.Index.Advertisement.{Ipld, link, Advertisement, Codecs, new_chunk, bytes, sign}
use ursa.Index.Provider.{
  Object, chunk, ad, ObjectStore, Provider, add_entries, add_chunk, finish, store_ad, publish,
  sig_error,
}
use ursa.Index.Provider.Chains.{IsKept, Chain, linked-ok, published-ok}

module _ (o : ObjectStore) where
  abbrev pub Grows : o.Db → o.Db → Type 0
  Grows db db' = (d : Cid) (y : Object) → o.get_obj db d ≡ some y → o.get_obj db' d ≡ some y

  pub Chain-Grows :
      (db db' : o.Db) (e : Option Ipld) (css : List (List Ipld))
      → Grows db db'
      → Chain o db e css
      → Chain o db' e css
  Chain-Grows db db' e [] g k = k
  Chain-Grows db db' e (es ∷ css) g (d, k, at, found, same, rest) =
      (d, k, at, g d (chunk k) found, same, Chain-Grows db db' k.next css g rest)

  -- What stays over an operation.
  pub record Grown (p p' : Provider o.Db) : Type 0 where
    pub grows : Grows p.blockstore p'.blockstore
    pub roots : p'.root_cids ≡ p.root_cids

  module _ (kept : IsKept o) where
    pub add_chunk-Grown :
        (p p' : Provider o.Db) (encoded : Bytes) (id : ℕ) (entries : List Ipld) (a : Advertisement)
        → o.decode_entries encoded ≡ ok entries
        → lookup id p.temp_ads ≡ some a
        → add_chunk o p encoded id ≡ (p', ok tt)
        → Grown p p'
    unfolding add_chunk
    add_chunk-Grown p p' encoded id entries a d l h =
        let (cid, db, put, same) =
          linked-ok o id a p p' (o.put_obj p.blockstore (chunk (new_chunk entries a.entries)))
            (rw (l, add_entries) at (rw d at h)) in
        subst (Grown p) (sym same) (record {
          grows = λ c y found. kept.put_keeps p.blockstore _ cid db c y put found;
          roots = refl;
        })

    pub publish-Grown :
        (c : Codecs) (p p' : Provider o.Db) (id : ℕ) (a : Advertisement)
        → lookup id p.temp_ads ≡ some a
        → publish o c p id ≡ (p', ok tt)
        → Grown p p'
    unfolding publish store_ad
    publish-Grown c p p' id a l h =
        let (cid, db, stored, same) =
          published-ok o c (record p { head = none; temp_ads = erase id p.temp_ads }) p'
            (finish o c p.keypair p.head a >>= λ signed. store_ad o c p.blockstore signed)
            (rw (l, publish) at h) in
        let (signed, f, rest) = >>=-eq-ok (finish o c p.keypair p.head a) _ stored in
        let (_, _, put) = >>=-eq-ok (o.to_ipld signed) _ rest in
        subst (Grown p) (sym same) (record {
          grows = λ d y found. kept.put_keeps p.blockstore (ad signed) cid db d y put found;
          roots = refl;
        })

    -- The object that a publication puts under the new head.
    abbrev Headed : Provider o.Db → Advertisement → Provider o.Db → Type 0
    Headed p a p' =
        (cid : Cid) × (sig : Bytes) × (p'.head ≡ some cid)
        × (o.get_obj p'.blockstore cid
            ≡ some (ad (record a { previous_id = Option.map link p.head; signature = bytes sig })))

    pub publish-Headed :
        (c : Codecs) (p p' : Provider o.Db) (id : ℕ) (a : Advertisement)
        → lookup id p.temp_ads ≡ some a
        → publish o c p id ≡ (p', ok tt)
        → Headed p a p'
    unfolding publish store_ad finish
    publish-Headed c p p' id a l h =
        let (cid, db, stored, same) =
          published-ok o c (record p { head = none; temp_ads = erase id p.temp_ads }) p'
            (finish o c p.keypair p.head a >>= λ signed. store_ad o c p.blockstore signed)
            (rw (l, publish) at h) in
        let (signed, f, rest) = >>=-eq-ok (finish o c p.keypair p.head a) _ stored in
        let (_, _, put) = >>=-eq-ok (o.to_ipld signed) _ rest in
        let linked_ad = record a { previous_id = Option.map link p.head } in
        let (sig, _, last) = >>=-eq-ok (map_err sig_error (sign c p.keypair linked_ad)) _ f in
        subst (Headed p a) (sym same) (
          cid,
          sig,
          refl,
          kept.put_get p.blockstore _ cid db (
              subst (λ x. o.put_obj p.blockstore (ad x) ≡ ok (cid, db)) (sym (ok-injective last))
                put),
        )
