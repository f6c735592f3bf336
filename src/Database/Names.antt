-- ===== src/Database/Names.antt =====
-- src/database.cpp: the names of types and policies.
use flash_kv.Common.{◌≡◌, refl, Option, none, some, Bytes, codes, if◌then◌else◌, ◌===◌}
use flash_kv.Database.State.{
  ValueType, string_type, list_type, hash_type, set_type, EvictionPolicy, no_eviction, all_keys_lru,
}

-- `valueTypeName`; the "none" behind its `switch` is for values that are no enumerator.
unfoldable pub value_type_name : ValueType → Bytes
value_type_name string_type = codes "string"
value_type_name list_type = codes "list"
value_type_name hash_type = codes "hash"
value_type_name set_type = codes "set"

unfoldable pub parse_eviction_policy : Bytes → Option EvictionPolicy
parse_eviction_policy name =
    if name === codes "noeviction"
    then some no_eviction
    else if name === codes "allkeys-lru"
    then some all_keys_lru
    else none

unfoldable pub eviction_policy_name : EvictionPolicy → Bytes
eviction_policy_name all_keys_lru = codes "allkeys-lru"
eviction_policy_name no_eviction = codes "noeviction"

-- Every policy is read back from its name.
pub parse_eviction_policy-name :
    (policy : EvictionPolicy) → parse_eviction_policy (eviction_policy_name policy) ≡ some policy
unfolding parse_eviction_policy eviction_policy_name ◌===◌
parse_eviction_policy-name no_eviction = refl
parse_eviction_policy-name all_keys_lru = refl
