-- ===== src/Tests/Caches.antt =====
-- A cache that holds an older version with a deadline, and a Redis that keeps what is set.
use supply_chain_tracker.Prelude.{
  ◌≡◌, refl, ap, none, some, true, ℕ, if◌then◌else◌, str_eq, [], ◌∷◌, ◌+◌, String, false,
}
use supply_chain_tracker.Outcome.{returns}
use supply_chain_tracker.Cache.{Cache, Dict, Values, lookup, assign, remove, get, set, expire}
use supply_chain_tracker.Cache.Laws.{get-set, lookup-assign}
use supply_chain_tracker.Cache.Redis
use supply_chain_tracker.Cache.Redis.{
  Client, Json, parsed, not_json, Adapter, other, plain, serialized,
}
use supply_chain_tracker.Cache.RedisLaws.{IsStore, get-set_stored}

abbrev texts : Values String
texts = record { dump = λ v. v; is_none = λ v. false; is_dict = λ v. false }

-- the deadline 50 has passed
abbrev old : Cache String
old = record {
  storage = ("route", "north") ∷ [];
  expiry = ("route", 50) ∷ [];
  clock = λ k. 60 + k;
  ticks = 0;
}

-- a new version without a time to live is lost to the deadline of the old one
get-set_example : (get texts "route" none (set texts "route" "south" none old).1).0 ≡ returns none
unfolding set expire
get-set_example = get-set texts "route" "south" none old refl

-- A Redis that forgets nothing, and no key twice.
abbrev client : Client (Dict String)
client = record {
  get_value = λ key s. (returns (lookup key s), s);
  set_value = λ key text ex s. (returns tt, assign key text s);
  delete_value = λ key s. (returns tt, remove key s);
  count_value = λ key s. (returns 1, s);
}

client-IsStore : IsStore client
client-IsStore = record {
  get-set = λ key text ex s accepted. ap returns (lookup-assign key text s);
}

abbrev adapter : Adapter (Dict String)
adapter = record { client = client; prefix = "shipment"; default_ttl = 3600 }

-- JSON whose only number is 42; a text is no JSON
pub data Data : Type 0 where
  number : ℕ → Data
  words : String → Data

abbrev json : Json Data
json = record {
  dumps = λ v. returns "42";
  loads = λ text. if str_eq text "42" then parsed (number 42) else not_json;
  show = λ v. elim v [ number n ↦ "42" | words w ↦ w ];
}

-- the text "42" comes back as a number
get-set_stored_example :
    let s' = (Redis.set adapter json "k" (other (words "42")) none []).1 in
    (Redis.set adapter json "k" (other (words "42")) none []
      ≡ (returns true, ("shipment:k", "42") ∷ []))
    × ((Redis.get adapter json {M = ℕ} "k" none s').0 ≡ returns (some (plain (number 42))))
unfolding serialized
get-set_stored_example =
    get-set_stored adapter json client-IsStore "k" "42" (other (words "42")) none [] refl refl
