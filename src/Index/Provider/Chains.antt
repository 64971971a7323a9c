-- ===== src/Index/Provider/Chains.antt =====
-- What the provider leaves in its block store: the chain of entry chunks below an advertisement, and the
-- chain of advertisements below the head.
use mathlib.Core.Option
use ursa.Prelude.{
  ℕ, ◌≡◌, refl, sym, ap, subst, List, [], ◌∷◌, Option, none, some, lookup, insert, erase,
  lookup-insert, lookup-erase, ==_refl, Result, ok, err, panic, ◌>>=◌, >>=-eq-ok, ok-injective,
  map_err-eq-ok, map_err,
}
use ursa.Store.{Cid, Bytes}
use ursa.Index.Advertisement.{Ipld, link, bytes, Advertisement, EntryChunk, Codecs, new_chunk, sign}
use ursa.Index.Provider.{
  Object, chunk, ad, ObjectStore, Provider, ProviderError, store_error, sig_error, linked,
  add_entries, add_chunk, finish, store_ad, published, publish,
}

module _ (o : ObjectStore) where
  -- An object that is put is found under its Cid, and every other stays where it was.
  pub record IsKept : Type 0 where
    pub put_get :
        (db : o.Db) (x : Object) (cid : Cid) (db' : o.Db)
        → o.put_obj db x ≡ ok (cid, db')
        → o.get_obj db' cid ≡ some x
    pub put_keeps :
        (db : o.Db) (x : Object) (cid : Cid) (db' : o.Db) (d : Cid) (y : Object)
        → o.put_obj db x ≡ ok (cid, db')
        → o.get_obj db d ≡ some y
        → o.get_obj db' d ≡ some y

  -- The chunks below a link, the newest first.
  abbrev pub Chain : o.Db → Option Ipld → List (List Ipld) → Type 0
  Chain db e [] = e ≡ none
  Chain db e (entries ∷ rest) =
      (cid : Cid) × (k : EntryChunk) × (e ≡ some (link cid))
      × (o.get_obj db cid ≡ some (chunk k))
      × (k.entries ≡ entries)
      × Chain db k.next rest

  -- The advertisements below a head, the newest first.
  abbrev Ads : o.Db → Option Cid → List Advertisement → Type 0
  Ads db h [] = h ≡ none
  Ads db h (a ∷ rest) =
      (cid : Cid) × (previous : Option Cid) × (h ≡ some cid)
      × (o.get_obj db cid ≡ some (ad a))
      × (a.previous_id ≡ Option.map link previous)
      × Ads db previous rest

  pub linked-ok :
      (id : ℕ) (a : Advertisement) (p p' : Provider o.Db) (r : Result ProviderError (Cid × o.Db))
      → linked o id a p r ≡ (p', ok tt)
      → (cid : Cid) × (db : o.Db) × (r ≡ ok (cid, db))
        × (p' ≡ record p {
          blockstore = db;
          temp_ads = insert id (record a { entries = some (link cid) }) p.temp_ads;
        })
  linked-ok id a p p' (ok (cid, db)) h = (cid, db, refl, sym (ap (λ r. r.0) h))
  linked-ok id a p p' (err e) h = absurd (clash (ap (λ r. r.1) h))
    where
      clash : ◌≡◌ {A = Result ProviderError (Unit {0})} (err store_error) (ok tt) → ⊥
      clash e = cc
  linked-ok id a p p' panic h = absurd (clash (ap (λ r. r.1) h))
    where
      clash : ◌≡◌ {A = Result ProviderError (Unit {0})} panic (ok tt) → ⊥
      clash e = cc

  pub published-ok :
      (c : Codecs) (p p' : Provider o.Db) (r : Result ProviderError (Cid × o.Db))
      → published o c p r ≡ (p', ok tt)
      → (cid : Cid) × (db : o.Db) × (r ≡ ok (cid, db))
        × (p' ≡ record p { blockstore = db; head = some cid })
  published-ok c p p' (ok (cid, db)) h = (cid, db, refl, sym (ap (λ r. r.0) h))
  published-ok c p p' (err e) h = absurd (clash (ap (λ r. r.1) h))
    where
      clash : ◌≡◌ {A = Result ProviderError (Unit {0})} (err e) (ok tt) → ⊥
      clash e = cc
  published-ok c p p' panic h = absurd (clash (ap (λ r. r.1) h))
    where
      clash : ◌≡◌ {A = Result ProviderError (Unit {0})} panic (ok tt) → ⊥
      clash e = cc

  -- The provider after a chunk was added to the draft `id`.
  abbrev pub Extended :
      Provider o.Db → ℕ → List Ipld → Advertisement → List (List Ipld) → Provider o.Db → Type 0
  Extended p id entries a css p' =
      (e : Option Ipld) × (lookup id p'.temp_ads ≡ some (record a { entries = e }))
      × Chain p'.blockstore e (entries ∷ css)
      × (p'.head ≡ p.head)

  -- The provider after the draft `id` was published above the advertisements so far.
  abbrev pub Published :
      Codecs → Provider o.Db → ℕ → Advertisement → List Advertisement → Provider o.Db → Type 0
  Published c p id a as' p' =
      (sig : Bytes) × (sign c p.keypair (record a { previous_id = Option.map link p.head })
        ≡ ok sig)
      × Ads p'.blockstore p'.head
          (record a { previous_id = Option.map link p.head; signature = bytes sig } ∷ as')
      × (lookup id p'.temp_ads ≡ none)

  module _ (kept : IsKept) where
    Chain-put :
        (db : o.Db) (x : Object) (cid : Cid) (db' : o.Db) (e : Option Ipld) (css : List (List Ipld))
        → o.put_obj db x ≡ ok (cid, db')
        → Chain db e css
        → Chain db' e css
    Chain-put db x cid db' e [] h k = k
    Chain-put db x cid db' e (es ∷ css) h (d, k, at, found, same, rest) = (
      d,
      k,
      at,
      kept.put_keeps db x cid db' d (chunk k) h found,
      same,
      Chain-put db x cid db' k.next css h rest,
    )

    Ads-put :
        (db : o.Db) (x : Object) (cid : Cid) (db' : o.Db) (h : Option Cid)
        (as' : List Advertisement)
        → o.put_obj db x ≡ ok (cid, db')
        → Ads db h as'
        → Ads db' h as'
    Ads-put db x cid db' h [] e k = k
    Ads-put db x cid db' h (a ∷ as') e (d, previous, at, found, same, rest) = (
      d,
      previous,
      at,
      kept.put_keeps db x cid db' d (ad a) e found,
      same,
      Ads-put db x cid db' previous as' e rest,
    )

    extend :
        (p : Provider o.Db) (id : ℕ) (entries : List Ipld) (a : Advertisement)
        (css : List (List Ipld)) (cid : Cid) (db : o.Db)
        → Chain p.blockstore a.entries css
        → o.put_obj p.blockstore (chunk (new_chunk entries a.entries)) ≡ ok (cid, db)
        → Extended p id entries a css (record p {
          blockstore = db;
          temp_ads = insert id (record a { entries = some (link cid) }) p.temp_ads;
        })
    unfolding new_chunk
    extend p id entries a css cid db chain put = (
      some (link cid),
      rw (lookup-insert id id (record a { entries = some (link cid) }) p.temp_ads, ==_refl id),
      (
        cid,
        new_chunk entries a.entries,
        refl,
        kept.put_get p.blockstore _ cid db put,
        refl,
        Chain-put p.blockstore _ cid db a.entries css put chain,
      ),
      refl,
    )

    -- A chunk that is added stands at the front of the draft's chain, and the head stays.
    pub add_chunk_extends :
        (p p' : Provider o.Db) (encoded : Bytes) (id : ℕ) (entries : List Ipld) (a : Advertisement)
        (css : List (List Ipld))
        → o.decode_entries encoded ≡ ok entries
        → lookup id p.temp_ads ≡ some a
        → Chain p.blockstore a.entries css
        → add_chunk o p encoded id ≡ (p', ok tt)
        → Extended p id entries a css p'
    unfolding add_chunk
    add_chunk_extends p p' encoded id entries a css d l chain h =
        let (cid, db, put, same) =
          linked-ok id a p p' (o.put_obj p.blockstore (chunk (new_chunk entries a.entries)))
            (rw (l, add_entries) at (rw d at h)) in
        subst (Extended p id entries a css) (sym same) (extend p id entries a css cid db chain put)

    publish_as :
        (c : Codecs) (p : Provider o.Db) (id : ℕ) (a signed : Advertisement)
        (as' : List Advertisement) (cid : Cid) (db : o.Db)
        → Ads p.blockstore p.head as'
        → finish o c p.keypair p.head a ≡ ok signed
        → store_ad o c p.blockstore signed ≡ ok (cid, db)
        → Published c p id a as'
            (record p { blockstore = db; head = some cid; temp_ads = erase id p.temp_ads })
    unfolding finish store_ad
    publish_as c p id a signed as' cid db ads f st =
        let linked_ad = record a { previous_id = Option.map link p.head } in
        let (sig, s, last) = >>=-eq-ok (map_err sig_error (sign c p.keypair linked_ad)) _ f in
        let (_, _, put) = >>=-eq-ok (o.to_ipld signed) _ st in
        let made : record linked_ad { signature = bytes sig } ≡ signed = ok-injective last in
        let put' = subst (λ x. o.put_obj p.blockstore (ad x) ≡ ok (cid, db)) (sym made) put in
        (
          sig,
          map_err-eq-ok sig_error (sign c p.keypair linked_ad) s,
          (
            cid,
            p.head,
            refl,
            kept.put_get p.blockstore _ cid db put',
            refl,
            Ads-put p.blockstore _ cid db p.head as' put' ads,
          ),
          rw (lookup-erase id id p.temp_ads, ==_refl id),
        )

    -- A published draft becomes the head, above the advertisements so far: with its entries, linked to the
    -- last head and signed, and it is a draft no more.
    pub publish_extends :
        (c : Codecs) (p p' : Provider o.Db) (id : ℕ) (a : Advertisement) (as' : List Advertisement)
        → lookup id p.temp_ads ≡ some a
        → Ads p.blockstore p.head as'
        → publish o c p id ≡ (p', ok tt)
        → Published c p id a as' p'
    unfolding publish
    publish_extends c p p' id a as' l ads h =
        let (cid, db, stored, same) =
          published-ok c (record p { head = none; temp_ads = erase id p.temp_ads }) p'
            (finish o c p.keypair p.head a >>= λ signed. store_ad o c p.blockstore signed)
            (rw (l, publish) at h) in
        let (signed, f, rest) = >>=-eq-ok (finish o c p.keypair p.head a) _ stored in
        subst (Published c p id a as') (sym same) (publish_as c p id a signed as' cid db ads f rest)
