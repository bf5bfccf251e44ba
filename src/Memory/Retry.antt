-- ===== src/Memory/Retry.antt =====
-- Two runs of the memory gate on the same code.
use ciwarden.Base.{
  ◌<◌, String, ◌≡◌, refl, sym, false, Option, [], ◌∷◌, arith, Nodup, Dict, keys, subst, if_ind,
}
use ciwarden.Base.Text.{is_empty}
use ciwarden.Gates.{pass, GateResult}
use ciwarden.Memory.{ContractSummary, Session}
use ciwarden.Memory.Vdb.{Vdb, collect_modules}
use ciwarden.Memory.Gate.{
  Setting, Progress, no_progress, begun, finish, generate, is_cached, execute_solo,
}
use ciwarden.Memory.Baselines.{
  Reads, summary_of, visit_all-summaries, Kept, collect-Kept, visit_all-zero, Latest,
  session-Latest, Latest-Baselines, conclude-Latest,
}

module _ (contents : String → String → ContractSummary)
    (named : (source m : String) → (contents source m).module_name ≡ m) (g h : Setting)
    (first_reads : Reads contents g) (then_reads : Reads contents h) where
  -- What the first run leaves behind, whatever its verdict.
  generate-Baselines :
      (files : Dict String) (vdb : Vdb)
      → Nodup (keys files)
      → is_empty g.session_id ≡ false
      → (before : Session) × (modules : Dict ContractSummary) × Kept contents named before modules
          files
        × Latest g.session_id modules (generate g files vdb).1
  generate-Baselines files vdb once named_id =
      let start = begun g vdb in
      let (q, e, all) =
        visit_all-summaries contents named g start.1 start.0 files no_progress first_reads in
      (
        start.0,
        collect_modules [] q.summaries,
        subst (λ l. Kept contents named start.0 (collect_modules [] l) files) (sym all)
            (collect-Kept contents named start.0 files [] once),
        subst (λ o. Latest g.session_id (collect_modules [] q.summaries) (finish g files start o).1)
            (sym e) (conclude-Latest g files start.0 q start.1 named_id),
      )

  generate-passes :
      (files : Dict String) (vdb : Vdb) (before : Session) (id : String)
      (modules : Dict ContractSummary)
      → Kept contents named before modules files
      → Latest id modules vdb
      → 0 < h.threshold
      → (generate h files vdb).0.status ≡ pass
  generate-passes files vdb before id modules kept latest pos =
      let start = begun h vdb in
      let bases =
        Latest-Baselines id modules start.1 (summary_of contents named before) files
          (session-Latest h id modules vdb latest) kept in
      let (q, e, z) =
        visit_all-zero contents named h start.1 before start.0 files no_progress then_reads bases
          refl in
      subst (λ (o : Option Progress). (finish h files start o).0.status ≡ pass) (sym e)
        (ground (arith, z, pos))

  -- When the client does not raise and reads the same contracts from the same code: a run of the gate
  -- that does not answer from its cache, on modules with distinct names, makes the next run on the
  -- same code pass, under any positive threshold, also when the first run blocked. The first run
  -- commits its summaries before it knows its verdict, and they are the second run's baselines.
  pub execute_solo-retry :
      (files : Dict String) (vdb : Vdb)
      → Nodup (keys files)
      → is_empty g.session_id ≡ false
      → is_cached g files vdb ≡ false
      → 0 < h.threshold
      → (execute_solo h files (execute_solo g files vdb).1).0.status ≡ pass
  unfolding execute_solo
  execute_solo-retry [] vdb once named_id fresh pos = refl
  execute_solo-retry (f ∷ files) vdb once named_id fresh pos =
      let (before, modules, kept, latest) = generate-Baselines (f ∷ files) vdb once named_id in
      let after = (generate g (f ∷ files) vdb).1 in
      let good = generate-passes (f ∷ files) after before g.session_id modules kept latest pos in
      let Goal = λ (r : GateResult × Vdb). r.0.status ≡ pass in
      rw fresh (if_ind Goal (is_cached h (f ∷ files) after) (λ e. refl) (λ e. good))
