-- ===== src/A2a/Store.antt =====
-- The store of running tasks (operator/plugins/a2a/plugin/store.go): a cache, and the ConfigMap that
-- outlives the process.
pub mod Keys
pub mod Restart
pub mod Cells
use flokoa.Common.{
  ℕ, suc, ◌+◌, ℤ, pos, negsuc, Bool, true, false, List, [], ◌∷◌, ◌++◌, Option, none, some, Text,
  codes, same_code, map, ltb, if◌then◌else◌,
}
use flokoa.Common.Dict.{lookup, without, put}

-- ProgressState of operator/plugins/a2a/plugin/types.go; times are in nanoseconds.
pub record ProgressState : Type 0 where
  pub task_id : Text
  pub context_id : Text
  pub endpoint : Text
  pub start_time : ℕ
  pub timeout : ℤ
  pub poll_errors : ℕ

-- IsTimedOut: now - start > timeout, with the negative numbers on the other side.
abbrev pub exceeds : ℕ → ℕ → ℤ → Bool
exceeds now start (pos t) = ltb (start + t) now
exceeds now start (negsuc t) = ltb start (now + suc t)

unfoldable pub is_timed_out : ℕ → ProgressState → Bool
is_timed_out now p = exceeds now p.start_time p.timeout

-- json.Marshal and json.Unmarshal on a ProgressState.
pub record Codec : Type 0 where
  pub marshal : ProgressState → Option Text
  pub unmarshal : Text → Option ProgressState

-- How the Kubernetes API answers one sync.
pub record Api : Type 0 where
  pub get_fails : Bool
  pub create_fails : Bool
  pub update_fails : Bool

-- `connected` says that the store has a client and a namespace. `config_map` is the data of the
-- ConfigMap, if it is there.
pub record StateStore : Type 0 where
  pub connected : Bool
  pub cache : List (Text × ProgressState)
  pub config_map : Option (List (Text × Text))

-- taskKey of operator/plugins/a2a/plugin/plugin.go.
abbrev pub task_key : Text → Text → Text
task_key workflow_uid template_name = workflow_uid ++ (codes "/" ++ template_name)

-- strings.ReplaceAll for single characters.
abbrev pub replace_code : ℕ → ℕ → ℕ → ℕ
replace_code old new c = if same_code c old then new else c

unfoldable pub cm_key : Text → Text
cm_key key = map (replace_code b'/' b'_') key

-- strings.Replace with a count of one.
unfoldable pub replace_first : ℕ → ℕ → Text → Text
replace_first old new [] = []
replace_first old new (c ∷ s) =
    let rest = replace_first old new s in if same_code c old then new ∷ s else c ∷ rest

unfoldable pub cm_key_to_task_key : Text → Text
unfolding replace_first
cm_key_to_task_key k = replace_first b'_' b'/' k

-- The loop over the cache: a state that cannot be marshalled is left out.
unfoldable pub written_states : Codec → List (Text × ProgressState) → List (Text × Text)
unfolding put
written_states codec [] = []
written_states codec ((k, p) ∷ cache) = elim (codec.marshal p) [
  | none ↦ written_states codec cache
  | some v ↦ put (cm_key k) v (written_states codec cache)
]

-- The loop over the data: a state that cannot be read is left out.
unfoldable pub restored_states : Codec → List (Text × Text) → List (Text × ProgressState)
unfolding put
restored_states codec [] = []
restored_states codec ((k, v) ∷ entries) = elim (codec.unmarshal v) [
  | none ↦ restored_states codec entries
  | some p ↦ put (cm_key_to_task_key k) p (restored_states codec entries)
]

abbrev pub synced :
    Bool → List (Text × Text) → Option (List (Text × Text)) → Option (List (Text × Text))
synced true entries old = old
synced false entries old = some entries

abbrev pub write_fails : Api → Option (List (Text × Text)) → Bool
write_fails api none = api.create_fails
write_fails api (some old) = api.update_fails

unfoldable pub sync_to_config_map : Codec → Api → StateStore → StateStore
unfolding written_states
sync_to_config_map codec api s =
    if s.connected
    then if api.get_fails then s else record s {
      config_map =
          synced (write_fails api s.config_map) (written_states codec s.cache) s.config_map;
    }
    else s

-- Load
unfoldable pub load : Text → StateStore → Option ProgressState
load key s = lookup key s.cache

-- Store
unfoldable pub store : Codec → Api → Text → ProgressState → StateStore → StateStore
unfolding sync_to_config_map put
store codec api key p s = sync_to_config_map codec api (record s { cache = put key p s.cache })

-- Delete
unfoldable pub delete : Codec → Api → Text → StateStore → StateStore
unfolding sync_to_config_map without
delete codec api key s = sync_to_config_map codec api (record s { cache = without key s.cache })

abbrev pub found : Codec → Bool → Option (List (Text × Text)) → List (Text × ProgressState)
found codec get_fails none = []
found codec true (some entries) = []
found codec false (some entries) = restored_states codec entries

-- NewStateStore on the ConfigMap that is there.
unfoldable pub new_state_store : Codec → Api → Bool → Option (List (Text × Text)) → StateStore
unfolding restored_states
new_state_store codec api connected config_map = record {
  connected = connected;
  cache = if connected then found codec api.get_fails config_map else [];
  config_map = config_map;
}
