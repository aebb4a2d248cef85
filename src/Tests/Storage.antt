-- ===== src/Tests/Storage.antt =====
-- The storages over media that are kept in memory.
use text.Mathlib.Text.{starts_with}
use text.Mathlib.TextEquality.{eq_iff, starts_with_iff}
use trust_registry_build_pip.Base.{
  String, ◌≡◌, refl, sym, subst, arith, some, is_some, ok, List, [], ◌∷◌, if◌then◌else◌, ◌==◌,
  string_eq, Bool-cases, inl, inr,
}
use mathlib.Core.List.{append-nil}
use trust_registry_build_pip.Base.HashMap
use trust_registry_build_pip.Base.HashMap.{HashMap, get-insert, get-remove}
use trust_registry_build_pip.Domain.Record.{TrustRecord}
use trust_registry_build_pip.Domain.Key.{tr_sk_prefix}
use trust_registry_build_pip.Storage.Repository.{Contract, by_sort_key}
use trust_registry_build_pip.Storage.KeyValue.{Codec, Faithful, Prefixed, Held, readables}
use trust_registry_build_pip.Storage.Redis.{Connection, pattern_, scan_loop}
use trust_registry_build_pip.Storage.Redis
use trust_registry_build_pip.Storage.Redis.Scan.{last, concat, values_of, scan_loop-readables}
use trust_registry_build_pip.Storage.Redis.Medium.{Lawful}
use trust_registry_build_pip.Storage.Redis.Stores.{IsReady, view}
use trust_registry_build_pip.Storage.Redis.Laws.{repository-Contract_connection}
use trust_registry_build_pip.Tests.Fixtures.{trust_record}

abbrev Entries : Type 0
Entries = HashMap String TrustRecord

-- A record is written as itself.
abbrev codec : Codec TrustRecord
codec = record { encode = λ r. ok r; decode = λ r. ok r }

codec-Faithful : Faithful codec
codec-Faithful = record { round_trip = λ r. (r, refl, refl) }

abbrev keys_under : String → Entries → List String
keys_under p [] = []
keys_under p ((k, v) ∷ m) = let rest = keys_under p m in if starts_with k p then k ∷ rest else rest

-- A connection to a database in memory, whose scans take one round
abbrev connection : Connection TrustRecord
connection = record {
  State = Entries;
  get = λ t m. ok (HashMap.get m t);
  exists = λ t m. ok (is_some (HashMap.get m t));
  set = λ t v m. (ok tt, HashMap.insert m t v);
  del = λ t m. (ok (if is_some (HashMap.get m t) then 1 else 0), HashMap.remove m t);
  scan = λ cursor pattern_ m. ok (0, keys_under tr_sk_prefix m);
}

under-Prefixed : (p t : String) (m : Entries) → Held t (keys_under p m) → Prefixed p t
under-Prefixed p t [] l = absurd l
under-Prefixed p t ((k, v) ∷ m) l = elim (Bool-cases (starts_with k p)) [
  | inl under ↦ elim (rw under at l) [
    | inl first ↦ subst (Prefixed p) first ((starts_with_iff k p).0 under)
    | inr more ↦ under-Prefixed p t m more
  ]
  | inr other ↦ under-Prefixed p t m (rw other at l)
]

Prefixed-under :
    (p t : String) (v : TrustRecord) (m : Entries)
    → HashMap.get m t ≡ some v
    → Prefixed p t
    → Held t (keys_under p m)
unfolding HashMap.get
Prefixed-under p t v [] e under = ground (arith, e)
Prefixed-under p t v ((k, w) ∷ m) e under = elim (Bool-cases (k == t)) [
  | inl same ↦
      let first = (eq_iff k t).0 same in
      rw ((starts_with_iff k p).1 (subst (Prefixed p) (sym first) under)) (inl first)
  | inr other ↦
      let later = Prefixed-under p t v m (rw other at e) under in
      elim (Bool-cases (starts_with k p)) [
        | inl kept ↦ rw kept (inr later)
        | inr dropped ↦ rw dropped later
      ]
]

connection-Lawful : Lawful connection (λ m. Unit) (λ m. HashMap.get m) (λ m. 1) codec
connection-Lawful = record {
  get_answers = λ t m h. refl;
  exists_answers = λ t m h. refl;
  set_answers = λ t v m h. (refl, tt, λ u. get-insert m t u v);
  del_answers = λ t m h. (refl, tt, λ u. get-remove m t u);
  scan_answers = λ m h. (
    keys_under tr_sk_prefix m ∷ [],
    last refl,
    ground arith,
    λ t v e.
        let one = append-nil (keys_under tr_sk_prefix m) in
        (
          λ l. under-Prefixed tr_sk_prefix t m (subst (Held t) one l),
          λ under. subst (Held t) (sym one) (Prefixed-under tr_sk_prefix t v m e under),
        ),
  );
}

repository-Contract_connection_example :
    Contract
      (Redis.repository codec connection (λ m. 1))
      by_sort_key
      (IsReady codec codec-Faithful connection
        (λ m. Unit)
        (λ m. HashMap.get m)
        (λ m. 1)
        connection-Lawful)
      (view codec codec-Faithful connection
        (λ m. Unit)
        (λ m. HashMap.get m)
        (λ m. 1)
        connection-Lawful)
repository-Contract_connection_example =
    repository-Contract_connection codec codec-Faithful connection (λ m. Unit) (λ m. HashMap.get m)
      (λ m. 1) connection-Lawful

abbrev two_entries : Entries
two_entries = ("TR#a", trust_record) ∷ ("other", trust_record) ∷ []

scan_loop-readables_example :
    scan_loop codec connection 1 0 two_entries
    ≡ some (
        ok (
          readables codec (
            values_of codec connection two_entries
              (HashMap.get two_entries)
              (λ t. refl)
              (concat (keys_under tr_sk_prefix two_entries ∷ [])))))
scan_loop-readables_example =
    scan_loop-readables codec connection two_entries (HashMap.get two_entries) (λ t. refl) 1 0
      (keys_under tr_sk_prefix two_entries ∷ []) (last refl) (ground arith)
