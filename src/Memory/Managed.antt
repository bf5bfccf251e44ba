-- ===== src/Memory/Managed.antt =====
-- The managed run of the memory gate on a store with one committed session.
use ciwarden.Base.{
  ◌<◌, String, ◌≡◌, refl, sym, ◌∙◌, ap, true, false, Option, none, some, List, [], ◌∷◌, leb, arith,
  elem, Dict, get, keys, elem-keys, eq_refl, Option-cases, inl, inr,
}
use ciwarden.Base.Text.{is_empty}
use ciwarden.Base.Sort.{str_le, elem-sort}
use ciwarden.Gates.{pass, GateResult}
use ciwarden.Memory.{ContractSummary, Session}
use ciwarden.Memory.Same.{score_drift-same}
use ciwarden.Memory.Vdb.{
  Vdb, Payload, read_session_modules, candidates, scan_for_module, load_latest_contract,
  load_previous_contract, list_modules,
}
use ciwarden.Memory.Gate.{
  Setting, Progress, result, no_progress, compare_module, compare_all, managed_output,
  execute_managed,
}

-- One session file, which the index calls the latest; no previous session.
abbrev pub single : Option Session → String → Payload → Vdb
single state id payload = record {
  sessions = (id, payload) ∷ [];
  latest_session = some id;
  previous_session = none;
  session_state = state;
  live = [];
  checkpoints = [];
  cached_sha = none;
}

module _ (state : Option Session) (id : String) (payload : Payload) (named : is_empty id ≡ false)
    (early : payload.sequence < 2147483648) where
  latest_modules : read_session_modules (single state id payload) (some id) ≡ payload.modules
  latest_modules = rw (named, eq_refl id) refl

  -- The module has one contract: it is the latest one, and the one before it too.
  one_candidate :
      (m : String) (s : ContractSummary)
      → get m payload.modules ≡ some s
      → (load_latest_contract (single state id payload) m ≡ some s)
        × (load_previous_contract (single state id payload) m 2147483648 ≡ some s)
  unfolding load_latest_contract load_previous_contract scan_for_module
  one_candidate m s e =
      let late : leb 2147483648 payload.sequence ≡ false = ground (arith, early) in
      (
        ap (λ (d : Dict ContractSummary). found (get m d)) latest_modules ∙ ap found e,
        rw (e, candidates, late) refl,
      )
    where
      found : Option ContractSummary → Option ContractSummary
      found o = elim o [
        | none ↦ scan_for_module (single state id payload) m none
        | some summary ↦ some summary
      ]

  compare_module-zero :
      (g : Setting) (m : String) (p : Progress)
      → elem m (keys payload.modules) ≡ true
      → p.max_drift ≡ 0
      → (compare_module g (single state id payload) m p).max_drift ≡ 0
  compare_module-zero g m p key zero_yet = elim (Option-cases (get m payload.modules)) [
    | inl e ↦ absurd (ground (arith, e, elem-keys m payload.modules))
    | inr (s, e) ↦
        let (latest, previous) = one_candidate m s e in
        let same = (score_drift-same g.show s s.generation_id s.sequence s.exposes).0 in
        rw (latest, previous, compare_module) (ground (arith, same, zero_yet))
  ]

  compare_all-zero :
      (g : Setting) (ms : List String) (p : Progress)
      → ((x : String) → elem x ms ≡ true → elem x (keys payload.modules) ≡ true)
      → p.max_drift ≡ 0
      → (compare_all g (single state id payload) ms p).max_drift ≡ 0
  unfolding compare_all
  compare_all-zero g [] p sub zero_yet = zero_yet
  compare_all-zero g (m ∷ ms) p sub zero_yet =
      compare_all-zero g ms (compare_module g (single state id payload) m p)
        (λ x e. sub x (ground arith))
        (compare_module-zero g m p (sub m (ground (arith, eq_refl m))) zero_yet)

  list_modules-single :
      (x : String)
      → elem x (list_modules (single state id payload)) ≡ true
      → elem x (keys payload.modules) ≡ true
  unfolding list_modules
  list_modules-single x e =
      sym (ap (λ (d : Dict ContractSummary). elem x (keys d)) latest_modules)
      ∙ sym (elem-sort str_le x (keys (read_session_modules (single state id payload) (some id))))
      ∙ e

  -- A store that holds one committed session, of a sequence below 2 ^ 31, always passes the managed
  -- run under a positive threshold: the scan for a previous contract finds the session itself, and each
  -- module is compared with itself.
  pub execute_managed-single :
      (g : Setting) → 0 < g.threshold → (execute_managed g (single state id payload)).status ≡ pass
  unfolding execute_managed
  execute_managed-single g pos = go (list_modules (single state id payload)) list_modules-single
    where
      verdict : List String → GateResult
      verdict ms = elim ms [
        | [] ↦ result g true "Memory Gate [MANAGED] — no committed contracts to compare."
        | m ∷ rest ↦
            managed_output g (compare_all g (single state id payload) (m ∷ rest) no_progress)
      ]

      go :
          (ms : List String)
          → ((x : String) → elem x ms ≡ true → elem x (keys payload.modules) ≡ true)
          → (verdict ms).status ≡ pass
      go [] sub = refl
      go (m ∷ rest) sub =
          let z = compare_all-zero g (m ∷ rest) no_progress sub refl in ground (arith, z, pos)
