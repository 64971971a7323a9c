-- ===== src/Rpc/Routes/Answers.antt =====
-- What an upload that is accepted has done.
use Prim.Native.String.{String}
use text.Mathlib.Text.{◌==◌ as str_eq}
use text.Mathlib.TextEquality.{eq_iff}
use ursa.Prelude.{
  Bool-cases, inl, inr, ℕ, ◌≡◌, refl, ap, sym, List, [], ◌∷◌, ◌++◌, Option, none, some, Bool, true,
  false, if◌then◌else◌, Result, ok, err, panic, ok-injective, arith,
}
use ursa.Store.{Cid, Bytes, BlockStore}
use ursa.Network.Behaviour.{Sender}
use ursa.Network.Service.{index}
use ursa.Rpc.Api.{
  ApiError, channel_closed, put_failed, NodeNetworkInterface, Service, put_car, index_loaded,
  indexed,
}
use ursa.Rpc.Routes.{
  Body, cids_json, error_json, no_files_found, wrong_content_type, Field, car_type, upload,
  put_answer, upload_handler,
}

module _ (b : BlockStore) (s : Service b.Db)
    (load_car : b.Db → Bytes → b.Db × Result ApiError (List Cid)) where
  -- The blocks were loaded from these bytes, and the service was told to index their Cids.
  abbrev pub Loaded :
      NodeNetworkInterface b.Db → Sender → Bytes → NodeNetworkInterface b.Db → Body → Type 0
  Loaded i sender reader i' body =
      (cids : List Cid) × (db : b.Db) × (load_car i.store reader ≡ (db, ok cids))
      × (i'.store ≡ db)
      × (i'.sent ≡ i.sent ++ index cids sender ∷ [])
      × (body ≡ cids_json cids)

  -- The field is a CAR by its content type, and its bytes were loaded.
  abbrev pub Uploaded :
      NodeNetworkInterface b.Db → Sender → Option Field → NodeNetworkInterface b.Db → Body → Type 0
  Uploaded i sender field i' body =
      (reader : Bytes) × (field
        ≡ some (record { content_type = some car_type; bytes = some reader }))
      × Loaded i sender reader i' body

  -- An answer of status 200 to what the interface returned.
  Accepted : Result ApiError (List Cid) → Body → Type 0
  Accepted r body = put_answer b s load_car r ≡ ok (200, body)

  refused :
      (e : ApiError) (body : Body)
      → ◌≡◌ {A = Result ApiError (ℕ × Body)} (ok (500, error_json e)) (ok (200, body))
      → ⊥
  refused e body h =
      let status : ◌≡◌ {A = ℕ} 500 200 = ap (λ r. r.0) (ok-injective h) in omega arith

  bad_request :
      (x body : Body) → ◌≡◌ {A = Result ApiError (ℕ × Body)} (ok (400, x)) (ok (200, body)) → ⊥
  bad_request x body h =
      let status : ◌≡◌ {A = ℕ} 400 200 = ap (λ r. r.0) (ok-injective h) in omega arith

  panicked : (body : Body) → ◌≡◌ {A = Result ApiError (ℕ × Body)} panic (ok (200, body)) → ⊥
  panicked body h = cc

  loaded :
      (i i' : NodeNetworkInterface b.Db) (sender : Sender) (reader : Bytes) (body : Body)
      (r : b.Db × Result ApiError (List Cid))
      → load_car i.store reader ≡ r
      → (index_loaded b s i sender r).0 ≡ i'
      → Accepted (index_loaded b s i sender r).1 body
      → Loaded i sender reader i' body
  unfolding Accepted
  loaded i i' sender reader body (db, ok cids) l h a = told s.is_open s.answer h a
    where
      told :
          (open_now : Bool) (answer : Option (Result (Unit {0}) (Unit {0})))
          → let told_now : NodeNetworkInterface b.Db × Result ApiError (List Cid) =
              if open_now
              then (
                record { store = db; sent = i.sent ++ index cids sender ∷ [] },
                indexed b s answer cids,
              )
              else (record i { store = db }, err channel_closed) in
            told_now.0 ≡ i' → Accepted told_now.1 body → Loaded i sender reader i' body
      told true (some x) h a = (
        cids,
        db,
        l,
        sym (ap (λ j. j.store) h),
        sym (ap (λ j. j.sent) h),
        sym (ap (λ r. r.1) (ok-injective a)),
      )
      told true none h a = absurd (refused put_failed body a)
      told false answer h a = absurd (refused channel_closed body a)
  loaded i i' sender reader body (db, err e) l h a = absurd (refused e body a)
  loaded i i' sender reader body (db, panic) l h a = absurd (panicked body a)

  -- An upload that is answered with status 200 was a field with the content type of a CAR; its bytes were
  -- loaded into the store, the service was told to index the Cids, and the answer lists them.
  pub upload_handler-Uploaded :
      (i i' : NodeNetworkInterface b.Db) (sender : Sender) (field : Option Field) (body : Body)
      → upload_handler b s load_car i sender field ≡ (i', ok (200, body))
      → Uploaded i sender field i' body
  unfolding upload_handler put_car Accepted
  upload_handler-Uploaded i i' sender none body h =
      absurd (bad_request no_files_found body (ap (λ r. r.1) h))
  upload_handler-Uploaded i i' sender (some field) body h = typed field.content_type field.bytes h
    where
      read :
          (t : String) (bytes : Option Bytes)
          → t ≡ car_type
          → upload b s load_car i sender bytes ≡ (i', ok (200, body))
          → Uploaded i sender (some (record { content_type = some t; bytes = bytes })) i' body
      read t none same h = absurd (panicked body (ap (λ r. r.1) h))
      read t (some reader) same h = (
        reader,
        ap (λ t. some (record { content_type = some t; bytes = some reader })) same,
        loaded i i' sender reader body (load_car i.store reader) refl (ap (λ r. r.0) h)
            (ap (λ r. r.1) h),
      )

      typed :
          (content_type : Option String) (bytes : Option Bytes)
          → upload_handler b s load_car i sender
              (some (record { content_type = content_type; bytes = bytes }))
            ≡ (i', ok (200, body))
          → Uploaded i sender (some (record { content_type = content_type; bytes = bytes })) i' body
      typed none bytes h = absurd (panicked body (ap (λ r. r.1) h))
      typed (some t) bytes h = elim (Bool-cases (str_eq t car_type)) [
        | inl e ↦ read t bytes ((eq_iff t car_type).0 e) (rw e at h)
        | inr e ↦ absurd (bad_request wrong_content_type body (ap (λ r. r.1) (rw e at h)))
      ]
