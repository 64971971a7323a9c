-- ===== src/Network/Service/Frame.antt =====
-- The publication of roots leaves the waiting block requests alone.
use ursa.Prelude.{
  zero, suc, List-cases, err, panic, ℕ, ◌≡◌, refl, ap, ◌∙◌, inl, inr, List, Option, none, some,
  Result, ok, map_err, subst, Option-cases, >>=-eq-ok, ok-injective, resume-eq-ok,
}
use ursa.Store.{Cid, Bytes, StoreError, BlockStore}
use ursa.Store.Dag.{dag_traversal}
use ursa.Network.Behaviour.{publish}
use ursa.Network.Service.{World, UrsaService, ServiceError, store_failed}
use ursa.Network.Service.Publish.{
  begin_ad, fill_ad, announce_msg, announce, send_announcement, finish_root, publish_root,
  publish_roots,
}
use ursa.Index.Announcement.{create_announce_msg}
use ursa.Index.Provider.{ProviderError, ObjectStore, Provider}

-- The parts that answer block requests.
pub record Same {Db : Type 0} (s s' : UrsaService Db) : Type 0 where
  pub channels : s'.response_channels ≡ s.response_channels
  pub replies : s'.block_replies ≡ s.block_replies

pub Same-refl : {Db : Type 0} (s : UrsaService Db) → Same s s
Same-refl s = record { channels = refl; replies = refl }

-- The same, and the provider.
pub record Calm {Db : Type 0} (s s' : UrsaService Db) : Type 0 where
  pub channels : s'.response_channels ≡ s.response_channels
  pub replies : s'.block_replies ≡ s.block_replies
  pub provider : s'.index_provider ≡ s.index_provider

pub Calm-refl : {Db : Type 0} (s : UrsaService Db) → Calm s s
Calm-refl s = record { channels = refl; replies = refl; provider = refl }

pub Calm-Same : {Db : Type 0} (s s' : UrsaService Db) → Calm s s' → Same s s'
Calm-Same s s' calm = record { channels = calm.channels; replies = calm.replies }

Same-trans : {Db : Type 0} (s t u : UrsaService Db) → Same s t → Same t u → Same s u
Same-trans s t u a b = record {
  channels = b.channels ∙ a.channels;
  replies = b.replies ∙ a.replies;
}

module _ (b : BlockStore) (o : ObjectStore) (w : World b) where
  send_announcement-Same :
      (s : UrsaService o.Db) (msg : Bytes) → Same s (send_announcement b o w s msg)
  unfolding publish
  send_announcement-Same s msg = elim (Option-cases w.message_id) [
    | inl e ↦ rw (e, send_announcement) (record { channels = refl; replies = refl })
    | inr (m, e) ↦ rw (e, send_announcement) (record { channels = refl; replies = refl })
  ]

  announce_msg-Same :
      (s s' : UrsaService o.Db) (made : Result ProviderError Bytes)
      → announce_msg b o w s made ≡ ok s'
      → Same s s'
  announce_msg-Same s s' (ok msg) h = subst (Same s) (ok-injective h) (send_announcement-Same s msg)
  announce_msg-Same s s' (err e) h = subst (Same s) (ok-injective h) (Same-refl s)
  announce_msg-Same s s' panic h = absurd (clash h)
    where
      clash : ◌≡◌ {A = Result ServiceError (UrsaService o.Db)} panic (ok s') → ⊥
      clash e = cc

  finish_root-Same :
      (s s' : UrsaService o.Db) (draft : Provider o.Db × ℕ)
      (traversed : Result StoreError (List (Cid × Bytes)))
      → finish_root b o w s draft traversed ≡ ok s'
      → Same s s'
  unfolding finish_root announce
  finish_root-Same s s' (p, id) traversed h =
      let (dag, _, f) = >>=-eq-ok (map_err store_failed traversed) _ h in
      let (p', _, a) = >>=-eq-ok (fill_ad b o w p id dag) _ f in
      let now = record s { index_provider = p' } in
      Same-trans s now s' (record { channels = refl; replies = refl })
        (announce_msg-Same now s' (create_announce_msg w.cbor w.http_address p') a)

  publish_root-Same :
      (s s' : UrsaService o.Db) (address : Bytes) (root : Cid)
      → publish_root b o w s address root ≡ some (ok s')
      → Same s s'
  unfolding publish_root
  publish_root-Same s s' address root h =
      let (draft, _, t) = resume-eq-ok _ (begin_ad b o w s address root) h in
      elim (Option-cases (dag_traversal w.order b w.ipld w.db w.rounds root)) [
        | inl e ↦ absurd (clash (rw e at t))
        | inr (traversed, e) ↦ finish_root-Same s s' draft traversed (inner (rw e at t))
      ]
    where
      clash : ◌≡◌ {A = Option (Result ServiceError (UrsaService o.Db))} none (some (ok s')) → ⊥
      clash e = cc

      inner : {r : Result ServiceError (UrsaService o.Db)} → some r ≡ some (ok s') → r ≡ ok s'
      inner e = cc

  pub publish_roots-Same :
      (fuel : ℕ) (address : Bytes) (s s' : UrsaService o.Db)
      → publish_roots b o w fuel address s ≡ some (ok s')
      → Same s s'
  unfolding publish_roots
  publish_roots-Same zero address s s' h = absurd (clash h)
    where
      clash : ◌≡◌ {A = Option (Result ServiceError (UrsaService o.Db))} none (some (ok s')) → ⊥
      clash e = cc
  publish_roots-Same (suc fuel) address s s' h = elim (List-cases s.index_provider.root_cids) [
    | inl q ↦ subst (Same s) (ok-injective (inner (rw (q, publish_roots) at h))) (Same-refl s)
    | inr (root, rest, q) ↦
        let s0 = record s { index_provider = record s.index_provider { root_cids = rest } } in
        let g = rw (q, publish_roots) at h in
        elim (Option-cases (publish_root b o w s0 address root)) [
          | inl e ↦ absurd (clash (rw e at g))
          | inr (r, e) ↦
              let (s1, first, later) = resume-eq-ok _ r (rw e at g) in
              Same-trans s s0 s' (record { channels = refl; replies = refl })
                (Same-trans s0 s1 s' (publish_root-Same s0 s1 address root (e ∙ ap some first))
                  (publish_roots-Same fuel address s1 s' later))
        ]
  ]
    where
      inner : {r : Result ServiceError (UrsaService o.Db)} → some r ≡ some (ok s') → r ≡ ok s'
      inner e = cc

      clash : ◌≡◌ {A = Option (Result ServiceError (UrsaService o.Db))} none (some (ok s')) → ⊥
      clash e = cc
