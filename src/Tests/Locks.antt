-- ===== src/Tests/Locks.antt =====
-- Lock sessions of quant_data/stores.py over four small paths.
use quant_data_infra.Prelude.{
  ℕ, ◌≡◌, ◌+◌, ◌/◌, refl, arith, true, none, is_some, List, [], ◌∷◌, str_eq, ltb, if◌then◌else◌,
}
use quant_data_infra.Errors.{Result, ok, err, conflict_error, validation_error, Ensures}
use quant_data_infra.Text.{text_rules}
use quant_data_infra.Receipts.{Role, market, news, receipt_rules}
use quant_data_infra.Exec.{exec_rules}
use quant_data_infra.Stores.{
  Paths, StoreMap, Identity, identity, ordered_identities, store_map, store_rules,
}
use quant_data_infra.Stores.Order.{IsLockSet, ordered_identities-IsLockSet}
use quant_data_infra.Stores.Session.{
  Locking, Held, acquire_all, release_all, poll_interval, granted, blocked, with_session, poll,
  session_rules,
}
use quant_data_infra.Stores.Session.Released.{with_session-keys, with_session-body, onto, stacked}
use quant_data_infra.Stores.Session.Polling.{IsMonotonic, poll-ends}
use quant_data_infra.Stores.Session.Waiting.{WaitChain, WaitChain-acyclic}

abbrev pub paths : Paths
paths = record {
  expanduser = λ p. p;
  is_absolute = λ p. true;
  resolve = λ p. p;
  is_broad = λ p. str_eq p "/";
  exists = λ p. true;
  is_file = λ p. true;
  normal = λ p. p;
  same_file = λ p q. str_eq p q;
  canonical_uri = λ p. p;
  lock_digest = λ p. p;
}

abbrev pub stores : StoreMap
stores = record {
  market_path = "/data/d";
  macro_path = "/data/c";
  company_path = "/data/b";
  news_path = "/data/a";
}

abbrev wanted : List Role
wanted = market ∷ news ∷ market ∷ []

abbrev lock_set : List Identity
lock_set =
    record { role = news; path = "/data/a"; uri = "/data/a"; lock_key = "/data/a" }
    ∷ record { role = market; path = "/data/d"; uri = "/data/d"; lock_key = "/data/d" }
    ∷ []

wanted-ordered : ordered_identities paths stores wanted ≡ ok lock_set
unfolding store_rules receipt_rules
wanted-ordered = refl

store_map_examples :
    (store_map paths "/a" "/b" "/c" "/d"
      ≡ ok
          (record { market_path = "/a"; macro_path = "/b"; company_path = "/c"; news_path = "/d" }))
    × (store_map paths "/a" "/b" "/a" "/d" ≡ err conflict_error)
    × (store_map paths "/a" "/b" "/" "/d" ≡ err validation_error)
unfolding store_rules receipt_rules text_rules
store_map_examples = (refl, refl, refl)

ordered_identities-IsLockSet_example : IsLockSet wanted lock_set
ordered_identities-IsLockSet_example =
    ordered_identities-IsLockSet paths stores wanted lock_set wanted-ordered

-- The world counts microseconds; a lock is free from `free_at` on.
abbrev locking : ℕ → Locking ℕ
locking free_at = record {
  clock = λ w. (w, w);
  sleep = λ d w. w + d;
  open_lock = λ key w. (ok tt, w);
  flock = λ key w. (if ltb w free_at then blocked else granted, w);
  unlock = λ key w. (ok tt, w);
}

abbrev idle : Held ℕ
idle = record { keys = []; world = 0 }

abbrev session : ℕ → Result ℕ × Held ℕ
session free_at = with_session (locking free_at) paths stores wanted 100000 (λ c w. (ok w, w)) idle

unfoldable lock_program : Unit {0}
unfolding store_rules session_rules receipt_rules exec_rules
lock_program = tt

session-runs : (session 50000).0 ≡ ok 60000
unfolding lock_program
session-runs = refl

-- The locks stay taken elsewhere for longer than the timeout.
session_times_out : (session 500000).0 ≡ err conflict_error
unfolding lock_program
session_times_out = refl

with_session-keys_example : (session 500000).1.keys ≡ []
with_session-keys_example =
    with_session-keys (locking 500000) paths stores wanted 100000 (λ c w. (ok w, w)) idle
      (λ k w. refl)

with_session-body_example :
    (ids : List Identity) × (ordered_identities paths stores wanted ≡ ok ids)
    × ((waits : List ℕ) × (u : Held ℕ) × (acquire_all
            (locking 50000)
            (100000 / poll_interval + 2)
            100000
            ids
            []
            []
            idle
          ≡ ((none, onto (locking 50000) ids [], waits), u))
        × (u.keys ≡ stacked (locking 50000) (onto (locking 50000) ids []) [])
        × (ok u.world ≡ ok 60000)
        × ((session 50000).1 ≡ (release_all (locking 50000) (onto (locking 50000) ids []) u).1))
with_session-body_example =
    with_session-body (locking 50000) paths stores wanted 100000 (λ c w. (ok w, w)) idle 60000
      (λ k w. refl) session-runs

locking-IsMonotonic : IsMonotonic (locking 500000) (λ w. w)
locking-IsMonotonic = record {
  reads = λ w. omega arith;
  sleeps = λ d w. omega arith;
  attempts = λ key w. omega arith;
}

poll-ends_example :
    Ensures (λ o. is_some o ≡ true) (poll (locking 500000) 7 "/data/a" 100000 idle).0
poll-ends_example =
    poll-ends (locking 500000) (λ w. w) 7 "/data/a" 100000 idle locking-IsMonotonic (omega arith)
      (omega arith)

WaitChain-acyclic_example : ¬ (
    WaitChain
      (locking 500000)
      paths
      stores
      (identity paths stores news)
      (identity paths stores news))
WaitChain-acyclic_example =
    WaitChain-acyclic (locking 500000) paths stores (identity paths stores news)
