-- ===== src/Index/Provider/Tests.antt =====
-- A store that numbers its objects from its length, and a provider that publishes two advertisements in it.
use mathlib.Core.Option
use ursa.Prelude.{
  ℕ, ◌≡◌, refl, List, [], ◌∷◌, Option, none, some, true, false, ok, err, length, arith, ==_refl,
  ==_iff, ◌==◌, Bool-cases, ok-injective, subst, ◌<◌, inl, inr,
}
use ursa.Store.{Bytes}
use ursa.Index.Advertisement.{Ipld, link, bytes, Advertisement, new_chunk, sign, sig_payload}
use ursa.Index.Advertisement.Tests.{plain, sample}
use ursa.Index.Provider.{
  Object, chunk, ad, ObjectStore, Provider, ad_not_found, add_chunk, publish, finish, store_ad,
}
use ursa.Index.Provider.Encoding.{write_object}
use ursa.Index.Provider.Chains.{IsKept, Published, publish_extends}
use ursa.Index.Provider.Failures.{Lost, publish_failure}

-- One entry for each byte.
abbrev pub singles : Bytes → List Ipld
singles [] = []
singles (x ∷ xs) = bytes (x ∷ []) ∷ singles xs

-- Object number n is the one with n older objects.
abbrev older : List Object → ℕ → Option Object
older [] n = none
older (x ∷ xs) n = elim (n == length xs) [ true ↦ some x | false ↦ older xs n ]

abbrev pub shelf : ObjectStore
shelf = record {
  Db = List Object;
  put_obj = λ db x. ok (length db, x ∷ db);
  get_obj = older;
  get_bytes = λ db cid. ok (Option.map write_object (older db cid));
  decode_entries = λ b. ok (singles b);
  to_ipld = λ a. ok tt;
}

older_below : (db : List Object) (d : ℕ) (y : Object) → older db d ≡ some y → d < length db
older_below [] d y h = cc
older_below (x ∷ db) d y h = elim (Bool-cases (d == length db)) [
  | inl e ↦ let same = (==_iff d (length db)).0 e in omega arith
  | inr e ↦ let below = older_below db d y (rw (e, older) at h) in omega arith
]

pub shelf-IsKept : IsKept shelf
shelf-IsKept = record {
  put_get = λ db x cid db' h.
      subst (λ r. older (r.1) (r.0) ≡ some x) (ok-injective h)
        (rw (==_refl (length db), older) refl);
  put_keeps = λ db x cid db' d y h found.
      subst (λ r. older (r.1) d ≡ some y) (ok-injective h) (kept db x d y found);
}
  where
    differs : (d n : ℕ) → d < n → (d == n) ≡ false
    differs d n h = ground arith

    kept :
        (db : List Object) (x : Object) (d : ℕ) (y : Object)
        → older db d ≡ some y
        → older (x ∷ db) d ≡ some y
    kept db x d y found = rw (differs d (length db) (older_below db d y found), older) found

-- A draft with one chunk.
abbrev start : Provider (List Object)
start = record {
  head = none;
  root_cids = [];
  keypair = 40;
  blockstore = [];
  temp_ads = (31, record sample { entries = none }) ∷ [];
}

abbrev filled : Provider (List Object)
filled = record {
  head = none;
  root_cids = [];
  keypair = 40;
  blockstore = chunk (record { entries = bytes (8 ∷ []) ∷ []; next = none }) ∷ [];
  temp_ads = (31, record sample { entries = some (link 0) }) ∷ [];
}

added : add_chunk shelf start (8 ∷ []) 31 ≡ (filled, ok tt)
unfolding add_chunk new_chunk
added = refl

-- A head, and a draft above it.
abbrev old : Advertisement
old = record sample { previous_id = none; entries = none }

abbrev ready : Provider (List Object)
ready = record {
  head = some 0;
  root_cids = [];
  keypair = 40;
  blockstore = ad old ∷ [];
  temp_ads = (31, record sample { entries = some (link 6) }) ∷ [];
}

abbrev after : Provider (List Object)
after = record {
  head = some 1;
  root_cids = [];
  keypair = 40;
  blockstore =
      ad (record sample {
        previous_id = some (link 0);
        entries = some (link 6);
        signature = bytes (40 ∷ 18 ∷ 0 ∷ 6 ∷ 7 ∷ 6 ∷ 0 ∷ 3 ∷ 1 ∷ []);
      })
      ∷ ad old
      ∷ [];
  temp_ads = [];
}

done : publish shelf plain ready 31 ≡ (after, ok tt)
unfolding publish finish store_ad sign sig_payload
done = refl

publish_extends_example :
    Published shelf plain ready 31 (record sample { entries = some (link 6) }) (old ∷ []) after
publish_extends_example =
    publish_extends shelf shelf-IsKept plain ready after 31
      (record sample { entries = some (link 6) }) (old ∷ []) refl (0, none, refl, refl, refl, refl)
      done

unknown_draft : (publish shelf plain ready 32).1 ≡ err ad_not_found
unfolding publish
unknown_draft = refl

publish_failure_example : Lost shelf plain ready 32 (publish shelf plain ready 32).0
publish_failure_example = publish_failure shelf plain ready 32 ad_not_found unknown_draft
