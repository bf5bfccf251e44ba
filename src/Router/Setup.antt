-- ===== src/Router/Setup.antt =====
-- conductor/cli.py: `build_router`, over conductor/router.py.
use ciwarden.Base.{String, none, some, List, [], ◌∷◌, if◌then◌else◌, ◌==◌, Dict, get}
use ciwarden.Session.{AgentSpec}
use ciwarden.Router.{
  RepoRouter, Routed, ok, raised, default_repo, new_router, register, assign_agent,
}

module _ (normalize : String → String) (repo_paths : Dict String) where
  -- One round of the loop.
  unfoldable pub place_agent : AgentSpec → RepoRouter → Routed RepoRouter
  place_agent a r =
      if a.repo == default_repo
      then assign_agent a.agent_id a.repo r
      else elim (get a.repo repo_paths) [
        | none ↦ assign_agent a.agent_id default_repo r
        | some path ↦ assign_agent a.agent_id a.repo (register normalize a.repo path r)
      ]

  unfoldable pub place_agents : List AgentSpec → RepoRouter → Routed RepoRouter
  place_agents [] r = ok r
  place_agents (a ∷ agents) r = elim (place_agent a r) [
    | raised e ↦ raised e
    | ok r' ↦ place_agents agents r'
  ]

  unfoldable pub build_router : String → List AgentSpec → Routed RepoRouter
  build_router repo_root agents = place_agents agents (new_router normalize repo_root)
