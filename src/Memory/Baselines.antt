-- ===== src/Memory/Baselines.antt =====
-- What one run of the memory gate leaves behind for the next.
use ciwarden.Base.{
  ℕ, String, ◌≡◌, refl, sym, ◌∙◌, ap, false, ◌&&◌, Option, none, some, List, [], ◌∷◌, ◌++◌,
  append-nil, append_assoc, map, if◌then◌else◌, eq_refl, ltb, arith, All, elem, Nodup, Dict, get,
  put, keys, get-put, if_ind,
}
use ciwarden.Base.Text.{is_empty, join}
use ciwarden.Memory.{ContractSummary, Session}
use ciwarden.Memory.Same.{regenerated, score_drift-same}
use ciwarden.Memory.Vdb.{
  Vdb, Payload, no_modules, read_session_modules, load_latest_contract, scan_for_module,
  get_or_create_session, advance_session, save_checkpoint, collect_modules, commit_session,
}
use ciwarden.Memory.Gate.{Setting, Progress, visit, visit_all, conclude, checkpoint, begun}

-- The client does not raise, and reads the same contracts from the same code in each generation.
abbrev pub Reads : (String → String → ContractSummary) → Setting → Type 0
Reads contents g =
    (source module_name generation : String) (sequence : ℕ)
    → g.extract source module_name generation sequence
      ≡ some (
          regenerated (contents source module_name) generation sequence
            (contents source module_name).exposes)

abbrev Named : (String → String → ContractSummary) → Type 0
Named contents = (source m : String) → (contents source m).module_name ≡ m

module _ (contents : String → String → ContractSummary) (named : Named contents) where
  abbrev pub summary_of : Session → String × String → ContractSummary
  summary_of session (m, source) =
      regenerated (contents source m) session.current_generation_id session.current_sequence
        (contents source m).exposes

  -- The first run gathers the summaries of all files.
  pub visit_all-summaries :
      (g : Setting) (vdb : Vdb) (session : Session) (files : Dict String) (p : Progress)
      → Reads contents g
      → (q : Progress) × (visit_all g vdb session files p ≡ some q)
        × (q.summaries ≡ p.summaries ++ map (summary_of session) files)
  unfolding visit_all
  visit_all-summaries g vdb session [] p reads = (p, refl, sym (append-nil p.summaries))
  visit_all-summaries g vdb session ((m, source) ∷ files) p reads =
      let s = summary_of session (m, source) in
      let (q, e, all) = visit_all-summaries g vdb session files (visit g vdb m s p) reads in
      (
        q,
        rw (reads source m session.current_generation_id session.current_sequence, visit_all) e,
        all
            ∙ ap (λ (l : List ContractSummary). l ++ map (summary_of session) files) (one s)
            ∙ append_assoc p.summaries (s ∷ []) (map (summary_of session) files),
      )
    where
      one : (s : ContractSummary) → (visit g vdb m s p).summaries ≡ p.summaries ++ s ∷ []
      one s = go (load_latest_contract vdb m) refl
        where
          go :
              (o : Option ContractSummary)
              → load_latest_contract vdb m ≡ o
              → (visit g vdb m s p).summaries ≡ p.summaries ++ s ∷ []
          go none e = rw (e, visit) refl
          go (some b) e = rw (e, visit) refl

  collect-other :
      (session : Session) (files : Dict String) (d : Dict ContractSummary) (m : String)
      → elem m (keys files) ≡ false
      → get m (collect_modules d (map (summary_of session) files)) ≡ get m d
  collect-other session [] d m out = refl
  collect-other session ((k, source) ∷ files) d m out =
      collect-other session files _ m (ground arith)
      ∙ get-put m (contents source k).module_name (summary_of session (k, source)) d
      ∙ rw (named source k) (ground (arith, out))

  -- The commit keeps the summary of each file under its module.
  abbrev pub Kept : Session → Dict ContractSummary → Dict String → Type 0
  Kept session d files = All (λ f. get f.0 d ≡ some (summary_of session f)) files

  pub collect-Kept :
      (session : Session) (files : Dict String) (d : Dict ContractSummary)
      → Nodup (keys files)
      → Kept session (collect_modules d (map (summary_of session) files)) files
  collect-Kept session [] d once = tt
  collect-Kept session ((m, source) ∷ files) d once =
      let s = summary_of session (m, source) in
      (
        collect-other session files (put s.module_name s d) m once.0
            ∙ get-put m (contents source m).module_name s d
            ∙ rw (named source m) (ground (arith, eq_refl m)),
        collect-Kept session files (put s.module_name s d) once.1,
      )

  -- With those summaries as baselines, the second run finds no drift.
  abbrev Baselines : Session → Vdb → Dict String → Type 0
  Baselines session vdb files =
      All (λ f. load_latest_contract vdb f.0 ≡ some (summary_of session f)) files

  pub visit_all-zero :
      (g : Setting) (vdb : Vdb) (before session : Session) (files : Dict String) (p : Progress)
      → Reads contents g
      → Baselines before vdb files
      → p.max_drift ≡ 0
      → (q : Progress) × (visit_all g vdb session files p ≡ some q) × (q.max_drift ≡ 0)
  unfolding visit_all
  visit_all-zero g vdb before session [] p reads bases zero_yet = (p, refl, zero_yet)
  visit_all-zero g vdb before session ((m, source) ∷ files) p reads bases zero_yet =
      let s = summary_of session (m, source) in
      let base = summary_of before (m, source) in
      let same =
        (score_drift-same g.show base session.current_generation_id session.current_sequence
          (contents source m).exposes).0 in
      let now : (visit g vdb m s p).max_drift ≡ 0 =
        rw (bases.0, visit) (ground (arith, same, zero_yet)) in
      let (q, e, z) =
        visit_all-zero g vdb before session files (visit g vdb m s p) reads bases.1 now in
      (
        q,
        rw (reads source m session.current_generation_id session.current_sequence, visit_all) e,
        z,
      )

-- The files that a run of the gate leaves: the summaries are the latest session's.
abbrev pub Latest : String → Dict ContractSummary → Vdb → Type 0
Latest id modules vdb =
    read_session_modules vdb (some id) ≡ modules × (vdb.latest_session ≡ some id)

commit-Latest :
    (id : String) (summaries : List ContractSummary) (vdb : Vdb)
    → is_empty id ≡ false
    → Latest id (collect_modules [] summaries) (commit_session id summaries vdb)
unfolding commit_session
commit-Latest id summaries vdb named_id = (
  rw (named_id, get-put id id payload (get_or_create_session id vdb).1.sessions)
      (ground (arith, eq_refl id)),
  refl,
)
  where
    payload : Payload
    payload = record {
      session_id = id;
      sequence = (get_or_create_session id vdb).0.current_sequence;
      generation_id = (get_or_create_session id vdb).0.current_generation_id;
      modules = collect_modules [] summaries;
    }

get_or_create-kept :
    (id : String) (vdb : Vdb)
    → ((get_or_create_session id vdb).1.sessions ≡ vdb.sessions)
      × ((get_or_create_session id vdb).1.latest_session ≡ vdb.latest_session)
unfolding get_or_create_session
get_or_create-kept id vdb = go vdb.session_state
  where
    pair : Option Session → Session × Vdb
    pair o = elim o [
      | some session ↦ (session, vdb)
      | none ↦
          let session : Session = record {
            session_id = id;
            current_generation_id = join "" ("gen_" ∷ id ∷ "_001" ∷ []);
            current_sequence = 0;
          } in
          (session, record vdb { session_state = some session })
    ]

    go :
        (o : Option Session)
        → ((pair o).1.sessions ≡ vdb.sessions) × ((pair o).1.latest_session ≡ vdb.latest_session)
    go none = (refl, refl)
    go (some session) = (refl, refl)

Latest-kept :
    (id : String) (modules : Dict ContractSummary) (vdb vdb' : Vdb)
    → vdb'.sessions ≡ vdb.sessions
    → vdb'.latest_session ≡ vdb.latest_session
    → Latest id modules vdb
    → Latest id modules vdb'
Latest-kept id modules vdb vdb' same last h = (
  ap
        (λ (d : Dict Payload).
          if is_empty id
          then no_modules
          else elim (get id d) [ none ↦ no_modules | some payload ↦ payload.modules ])
        same
      ∙ h.0,
  last ∙ h.1,
)

pub session-Latest :
    (g : Setting) (id : String) (modules : Dict ContractSummary) (vdb : Vdb)
    → Latest id modules vdb
    → Latest id modules (begun g vdb).1
unfolding advance_session
session-Latest g id modules vdb h =
    let (same, last) = get_or_create-kept g.session_id vdb in
    Latest-kept id modules vdb (begun g vdb).1 same last h

Latest-Baseline :
    (id m : String) (modules : Dict ContractSummary) (vdb : Vdb) (s : ContractSummary)
    → Latest id modules vdb
    → get m modules ≡ some s
    → load_latest_contract vdb m ≡ some s
unfolding load_latest_contract
Latest-Baseline id m modules vdb s h e =
    ap (λ o. found (get m (read_session_modules vdb o))) h.1
    ∙ ap (λ (d : Dict ContractSummary). found (get m d)) h.0
    ∙ ap found e
  where
    found : Option ContractSummary → Option ContractSummary
    found o = elim o [ none ↦ scan_for_module vdb m none | some summary ↦ some summary ]

pub Latest-Baselines :
    (id : String) (modules : Dict ContractSummary) (vdb : Vdb)
    (f : String × String → ContractSummary) (files : Dict String)
    → Latest id modules vdb
    → All (λ x. get x.0 modules ≡ some (f x)) files
    → All (λ x. load_latest_contract vdb x.0 ≡ some (f x)) files
Latest-Baselines id modules vdb f [] h k = tt
Latest-Baselines id modules vdb f (x ∷ files) h k =
    (Latest-Baseline id x.0 modules vdb (f x) h k.0, Latest-Baselines id modules vdb f files h k.1)

pub conclude-Latest :
    (g : Setting) (files : Dict String) (session : Session) (p : Progress) (vdb : Vdb)
    → is_empty g.session_id ≡ false
    → Latest g.session_id (collect_modules [] p.summaries) (conclude g files session p vdb).1
conclude-Latest g files session p vdb named_id =
    let kept =
      commit-Latest g.session_id p.summaries (save_checkpoint g.pad4 (checkpoint session p) vdb)
        named_id in
    if_ind (Latest g.session_id (collect_modules [] p.summaries))
      (ltb p.max_drift g.threshold && g.cache_enabled) (λ e. kept) (λ e. kept)
