-- ===== src/A2a/Store/Cells.antt =====
-- What the operations of the store do to the state of each task.
use flokoa.Common.{◌≡◌, ◌≢◌, refl, ap, ◌∙◌, false, none, some, Text, ◌==◌, ==_iff, ==_refl, arith}
use flokoa.Common.Dict.{lookup, put, without, lookup-put, lookup-without}
use flokoa.A2a.Store.{
  ProgressState, Codec, Api, StateStore, sync_to_config_map, store, load, delete,
}

cache-sync :
    (codec : Codec) (api : Api) (s : StateStore) → (sync_to_config_map codec api s).cache ≡ s.cache
unfolding sync_to_config_map
cache-sync codec api s = ground arith

module _ (codec : Codec) (api : Api) (key : Text) (s : StateStore) where
  pub load-store : (p : ProgressState) → load key (store codec api key p s) ≡ some p
  unfolding load store
  load-store p =
      ap (lookup key) (cache-sync codec api (record s { cache = put key p s.cache }))
      ∙ lookup-put key key p s.cache
      ∙ rw (==_refl key) refl

  pub load-delete : load key (delete codec api key s) ≡ none
  unfolding load delete
  load-delete =
      ap (lookup key) (cache-sync codec api (record s { cache = without key s.cache }))
      ∙ lookup-without key key s.cache
      ∙ rw (==_refl key) refl

  module _ (other : Text) (ne : key ≢ other) where
    apart : (key == other) ≡ false
    apart = ground (arith, ==_iff key other)

    pub load-store_other : (p : ProgressState) → load other (store codec api key p s) ≡ load other s
    unfolding load store
    load-store_other p =
        ap (lookup other) (cache-sync codec api (record s { cache = put key p s.cache }))
        ∙ lookup-put key other p s.cache
        ∙ rw apart refl

    pub load-delete_other : load other (delete codec api key s) ≡ load other s
    unfolding load delete
    load-delete_other =
        ap (lookup other) (cache-sync codec api (record s { cache = without key s.cache }))
        ∙ lookup-without key other s.cache
        ∙ rw apart refl
