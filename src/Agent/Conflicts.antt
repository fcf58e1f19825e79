-- ===== src/Agent/Conflicts.antt =====
-- DetectConflicts of operator/internal/domain/capability/capability.go.
pub mod Compatible
pub mod Pin
pub mod Steps
pub mod Agree
use flokoa.Common.{
  ℕ, suc, List, [], ◌∷◌, ◌++◌, none, some, Text, ◌==◌, Bool, false, not, ◌&&◌, ◌||◌, same_code,
  if◌then◌else◌,
}
use flokoa.Common.Dict.{lookup, put_new}
use flokoa.Agent.Capability.{RunnerInfo, Deps, parse_pin}

-- The messages.
pub data Conflict : Type 0 where
  invalid_pin : Text → Text → Conflict
  against_baseline : Text → Text → Text → Text → Conflict
  within : Text → Text → Text → Text → Conflict
  across : Text → Text → Text → Text → Text → Conflict

pub record Pinned : Type 0 where
  pub idx : ℕ
  pub cap_name : Text
  pub version : Text

-- `local` is of the capability at hand. The keys of `reported` are the pairs that `crossKey` writes
-- out.
pub record Tables : Type 0 where
  pub local : List (Text × Text)
  pub established : List (Text × Pinned)
  pub reported : List (Text × ℕ)

abbrev pub is_reported : Text → ℕ → List (Text × ℕ) → Bool
is_reported pkg idx [] = false
is_reported pkg idx ((p, i) ∷ rest) = (p == pkg) && same_code i idx || is_reported pkg idx rest

abbrev pub baseline_conflict : RunnerInfo → Text → Text → Text → List Conflict
baseline_conflict runner name pkg version = elim (lookup pkg runner.baseline) [
  | none ↦ []
  | some base ↦ if base == version then [] else against_baseline name pkg version base ∷ []
]

abbrev pub local_conflict : List (Text × Text) → Text → Text → Text → List Conflict
local_conflict local name pkg version = elim (lookup pkg local) [
  | none ↦ []
  | some prev ↦ if prev == version then [] else within name pkg prev version ∷ []
]

-- The second case of the switch, with the test that the pair is not reported.
abbrev pub is_cross_conflict : Tables → ℕ → Pinned → Text → Text → Bool
is_cross_conflict t idx prev pkg version =
    not (same_code prev.idx idx)
    && not (prev.version == version)
    && not (is_reported pkg idx t.reported)

abbrev pub cross_conflict : Tables → ℕ → Text → Text → Text → List Conflict
cross_conflict t idx name pkg version = elim (lookup pkg t.established) [
  | none ↦ []
  | some prev ↦
      if is_cross_conflict t idx prev pkg version
      then across prev.cap_name name pkg prev.version version ∷ []
      else []
]

abbrev pub note_reported : Tables → ℕ → Text → Text → List (Text × ℕ)
note_reported t idx pkg version = elim (lookup pkg t.established) [
  | none ↦ t.reported
  | some prev ↦
      if is_cross_conflict t idx prev pkg version then (pkg, idx) ∷ t.reported else t.reported
]

abbrev pub noted : Tables → ℕ → Text → Text → Text → Tables
noted t idx name pkg version = record {
  local = put_new pkg version t.local;
  established =
      put_new pkg (record { idx = idx; cap_name = name; version = version }) t.established;
  reported = note_reported t idx pkg version;
}

-- The conflicts that one pin adds, in their order.
abbrev pub pin_conflicts : RunnerInfo → ℕ → Text → Tables → Text → Text → List Conflict
pin_conflicts runner idx name t pkg version =
    baseline_conflict runner name pkg version
    ++ (local_conflict t.local name pkg version ++ cross_conflict t idx name pkg version)

-- One round of the inner loop.
unfoldable pub check_pin : RunnerInfo → ℕ → Text → Tables → Text → List Conflict × Tables
unfolding lookup put_new ◌==◌
check_pin runner idx name t pin = elim (parse_pin pin) [
  | none ↦ (invalid_pin name pin ∷ [], t)
  | some (pkg, version) ↦
      (pin_conflicts runner idx name t pkg version, noted t idx name pkg version)
]

unfoldable pub check_pins : RunnerInfo → ℕ → Text → Tables → List Text → List Conflict × Tables
unfolding check_pin
check_pins runner idx name t [] = ([], t)
check_pins runner idx name t (pin ∷ pins) =
    let (found, t') = check_pin runner idx name t pin in
    let (later, after) = check_pins runner idx name t' pins in (found ++ later, after)

abbrev pub without_local : Tables → Tables
without_local t = record { local = []; established = t.established; reported = t.reported }

-- The outer loop, from the capability with an index on.
unfoldable pub check_caps : RunnerInfo → ℕ → Tables → List Deps → List Conflict
unfolding check_pins
check_caps runner idx t [] = []
check_caps runner idx t (c ∷ caps) =
    let (found, t') = check_pins runner idx c.name (without_local t) c.pins in
    found ++ check_caps runner (suc idx) t' caps

unfoldable pub detect_conflicts : List Deps → RunnerInfo → List Conflict
unfolding check_caps
detect_conflicts caps runner =
    check_caps runner 0 (record { local = []; established = []; reported = [] }) caps
