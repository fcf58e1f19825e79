-- ===== src/A2a/Store/Restart.antt =====
-- What a restart finds of the tasks that were stored.
use flokoa.Common.{
  ◌≡◌, refl, sym, ap, ◌∙◌, ◌↔◌, List, [], ◌∷◌, Bool, true, false, Option, none, some, Text, ◌==◌,
  ==_iff, All, if◌then◌else◌,
}
use flokoa.Common.Dict.{lookup, put, without, lookup-put, put-All, without-All}
use flokoa.A2a.Store.{
  ProgressState, Codec, Api, StateStore, cm_key, cm_key_to_task_key, written_states,
  restored_states, sync_to_config_map, store, delete, new_state_store, load, found, synced,
  write_fails,
}
use flokoa.A2a.Store.Keys.{IsTaskKey, cm_key_to_task_key-cm_key}

-- What is written can be read, and gives the state back.
abbrev pub RoundTrips : Codec → Type 0
RoundTrips codec =
    (p : ProgressState) → (v : Text) × (codec.marshal p ≡ some v) × (codec.unmarshal v ≡ some p)

abbrev pub KeyedByTasks : List (Text × ProgressState) → Type 0
KeyedByTasks = All (λ x. IsTaskKey x.0)

-- An entry that the store wrote.
abbrev Entry : Codec → Text × Text → Type 0
Entry codec (ck, v) =
    (k : Text) × IsTaskKey k × (ck ≡ cm_key k) × (p : ProgressState) × (codec.unmarshal v ≡ some p)

abbrev then_read : Codec → Option Text → Option ProgressState
then_read codec none = none
then_read codec (some v) = codec.unmarshal v

same_truth : (a b : Bool) → ((a ≡ true) ↔ (b ≡ true)) → a ≡ b
same_truth true true h = refl
same_truth true false h = sym (h.0 refl)
same_truth false true h = h.1 refl
same_truth false false h = refl

same_key : (k key : Text) → IsTaskKey k → IsTaskKey key → (cm_key k == cm_key key) ≡ (k == key)
same_key k key h h' = same_truth _ _ (
  λ e. (==_iff k key).1 (
      sym (cm_key_to_task_key-cm_key k h)
      ∙ ap cm_key_to_task_key ((==_iff (cm_key k) (cm_key key)).0 e)
      ∙ cm_key_to_task_key-cm_key key h'),
  λ e. (==_iff (cm_key k) (cm_key key)).1 (ap cm_key ((==_iff k key).0 e)),
)

restored_lem :
    (codec : Codec) (entries : List (Text × Text)) (key : Text)
    → IsTaskKey key
    → All (Entry codec) entries
    → lookup key (restored_states codec entries) ≡ then_read codec (lookup (cm_key key) entries)
unfolding restored_states lookup
restored_lem codec [] key good h = refl
restored_lem codec ((ck, v) ∷ entries) key good ((k, h, named, p, read), hs) =
    let ih = restored_lem codec entries key good hs in
    let back = ap cm_key_to_task_key named ∙ cm_key_to_task_key-cm_key k h in
    let same = same_key k key h good in
    rw (read, restored_states)
      (lookup-put (cm_key_to_task_key ck) key p (restored_states codec entries)
        ∙ rw (back, named, same) (branch (k == key) p v read _ _ ih))
  where
    branch :
        (b : Bool) (p : ProgressState) (v : Text)
        → codec.unmarshal v ≡ some p
        → (x : Option ProgressState) (y : Option Text) → x ≡ then_read codec y
        → (if b then some p else x) ≡ then_read codec (if b then some v else y)
    branch true p v e x y ih = sym e
    branch false p v e x y ih = ih

written_states-Entry :
    (codec : Codec) (cache : List (Text × ProgressState))
    → RoundTrips codec
    → KeyedByTasks cache
    → All (Entry codec) (written_states codec cache)
unfolding written_states
written_states-Entry codec [] rt h = tt
written_states-Entry codec ((k, p) ∷ cache) rt (good, h) =
    let (v, saved, read) = rt p in
    rw (saved, written_states)
      (put-All (Entry codec) (cm_key k) v (written_states codec cache) (k, good, refl, p, read)
        (written_states-Entry codec cache rt h))

written_lem :
    (codec : Codec) (cache : List (Text × ProgressState)) (key : Text)
    → RoundTrips codec
    → IsTaskKey key
    → KeyedByTasks cache
    → then_read codec (lookup (cm_key key) (written_states codec cache)) ≡ lookup key cache
unfolding written_states lookup
written_lem codec [] key rt good h = refl
written_lem codec ((k, p) ∷ cache) key rt good (here, h) =
    let (v, saved, read) = rt p in
    let ih = written_lem codec cache key rt good h in
    rw (saved, written_states)
      (ap (then_read codec) (lookup-put (cm_key k) (cm_key key) v (written_states codec cache))
        ∙ rw (same_key k key here good) (branch (k == key) v read _ _ ih))
  where
    branch :
        (b : Bool) (v : Text)
        → codec.unmarshal v ≡ some p
        → (x : Option ProgressState) (y : Option Text) → then_read codec y ≡ x
        → then_read codec (if b then some v else y) ≡ (if b then some p else x)
    branch true v e x y ih = e
    branch false v e x y ih = ih

-- The cache that a restart builds from what was written has every task.
restored_states-written_states :
    (codec : Codec) (cache : List (Text × ProgressState)) (key : Text)
    → RoundTrips codec
    → IsTaskKey key
    → KeyedByTasks cache
    → lookup key (restored_states codec (written_states codec cache)) ≡ lookup key cache
restored_states-written_states codec cache key rt good h =
    restored_lem codec (written_states codec cache) key good (written_states-Entry codec cache rt h)
    ∙ written_lem codec cache key rt good h

-- Every call of the API succeeds.
abbrev pub works : Api
works = record { get_fails = false; create_fails = false; update_fails = false }

-- What a process that starts now has for the task.
abbrev pub after_restart : Codec → StateStore → Text → Option ProgressState
after_restart codec s key = load key (new_state_store codec works true s.config_map)

synced_lem :
    (codec : Codec) (s : StateStore) (key : Text)
    → RoundTrips codec
    → s.connected ≡ true
    → IsTaskKey key
    → KeyedByTasks s.cache
    → after_restart codec (sync_to_config_map codec works s) key
      ≡ load key (sync_to_config_map codec works s)
unfolding sync_to_config_map new_state_store load
synced_lem codec s key rt on good h = rw on (kept s.config_map)
  where
    kept :
        (old : Option (List (Text × Text)))
        → lookup key
            (found codec false (synced (write_fails works old) (written_states codec s.cache) old))
          ≡ lookup key s.cache
    kept none = restored_states-written_states codec s.cache key rt good h
    kept (some m) = restored_states-written_states codec s.cache key rt good h

-- Where the store has a client and the API works, where a state that is written reads back as itself,
-- and where all keys are those of tasks: a process that starts after Store or Delete has, for every
-- task, the state that the old process had after it.
pub after_restart-store-delete :
    (codec : Codec) (s : StateStore) (key : Text) (p : ProgressState) (k : Text)
    → RoundTrips codec
    → s.connected ≡ true
    → KeyedByTasks s.cache
    → IsTaskKey key
    → IsTaskKey k
    → (after_restart codec (store codec works key p s) k ≡ load k (store codec works key p s))
      × (after_restart codec (delete codec works key s) k ≡ load k (delete codec works key s))
unfolding store delete
after_restart-store-delete codec s key p k rt on keyed good good' = (
  synced_lem codec (record s { cache = put key p s.cache }) k rt on good'
      (put-All (λ x. IsTaskKey x.0) key p s.cache good keyed),
  synced_lem codec (record s { cache = without key s.cache }) k rt on good'
      (without-All (λ x. IsTaskKey x.0) key s.cache keyed),
)
