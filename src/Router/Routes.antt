-- ===== src/Router/Routes.antt =====
-- The router that `build_router` makes: every agent's commit goes to its own repository.
use ciwarden.Base.{
  String, ◌≡◌, refl, sym, ◌∙◌, ap, Bool, true, false, ◌&&◌, ◌||◌, none, some, List, [], ◌∷◌, map,
  if◌then◌else◌, ◌==◌, eq_iff, eq_refl, arith, elem, elem-append, any, All, Dict, get, put, keys,
  get-put, elem-keys, elem-keys-put, Nodup, Bool-cases, Option-cases, inl, inr, is_some, subst,
}
use ciwarden.Session.{AgentSpec}
use ciwarden.Router.{
  RepoContext, RepoRouter, ok, default_repo, new_router, register, with_agent, assign_agent, owner,
  get_repo_for_agent,
}
use ciwarden.Router.Setup.{place_agent, place_agents, build_router}

abbrev pub ids_of : List AgentSpec → List String
ids_of agents = map (λ a. a.agent_id) agents

abbrev agents_in : String → Dict RepoContext → List String
agents_in n repos = elim (get n repos) [ none ↦ [] | some c ↦ c.agents ]

Nodup-put {ℓ} :
    {V : Type ℓ} (k : String) (v : V) (d : Dict V) → Nodup (keys d) → Nodup (keys (put k v d))
Nodup-put k v [] h = (refl, tt)
Nodup-put k v ((j, w) ∷ d) h = elim (Bool-cases (k == j)) [
  | inl same ↦ rw same h
  | inr other ↦
      rw other
        (elem-keys-put j k v d ∙ ground (arith, h.0, eq_iff j k, eq_iff k j), Nodup-put k v d h.1)
]

-- The one repository that has the agent is its owner.
owner-get :
    (id n : String) (repos : Dict RepoContext)
    → Nodup (keys repos)
    → elem id (agents_in n repos) ≡ true
    → ((m : String) → elem id (agents_in m repos) ≡ true → m == n ≡ true)
    → owner id repos ≡ get n repos
owner-get id n [] once here only = absurd (ground arith)
owner-get id n ((name, c) ∷ repos) once here only = elim (Bool-cases (name == n)) [
  | inl same ↦ ground (arith, eq_iff name n, eq_iff n name)
  | inr other ↦
      let head : elem id c.agents ≡ false = ground (arith, only name, eq_refl name) in
      let rest : owner id repos ≡ get n repos =
        owner-get id n repos once.1 (ground (arith, eq_iff name n, eq_iff n name))
          (λ m e. ground (arith, only m, eq_iff m name, elem-keys m repos, once.0)) in
      ground (arith, head, rest, eq_iff name n, eq_iff n name)
]

module _ (normalize : String → String) (repo_paths : Dict String) (root : String) where
  -- The repository that an agent gets: its own, unless no path is configured for that.
  abbrev pub target : AgentSpec → String
  target a =
      if a.repo == default_repo
      then default_repo
      else elim (get a.repo repo_paths) [ none ↦ default_repo | some path ↦ a.repo ]

  abbrev pub path_of : String → String
  path_of n =
      if n == default_repo
      then normalize (normalize root)
      else elim (get n repo_paths) [ none ↦ "" | some path ↦ normalize path ]

  -- What is registered.
  abbrev fresh : String → String → RepoContext
  fresh name path = record {
    name = name;
    path = normalize path;
    queue_worker_running = false;
    agents = [];
  }

  record Inv (r : RepoRouter) : Type 0 where
    pub home : is_some (get default_repo r.repos) ≡ true
    pub once : Nodup (keys r.repos)
    pub named :
        (n : String) (c : RepoContext)
        → get n r.repos ≡ some c
        → (c.name ≡ n) × (c.path ≡ path_of n)

  -- From `r` to `r'` the agent `id` is added to the repository `t`.
  record Added (id t : String) (r r' : RepoRouter) : Type 0 where
    pub valid : Inv r'
    pub agents :
        (n x : String)
        → elem x (agents_in n r'.repos) ≡ (elem x (agents_in n r.repos) || n == t && x == id)

  new_router-Inv : Inv (new_router normalize root)
  unfolding new_router
  new_router-Inv = record {
    home = refl;
    once = (refl, tt);
    named = λ n c e. ground (arith, eq_iff n default_repo);
  }

  new_router-agents : (n : String) → agents_in n (new_router normalize root).repos ≡ []
  unfolding new_router
  new_router-agents n = ground arith

  assign-Added :
      (id t : String) (r : RepoRouter) (c : RepoContext)
      → Inv r
      → get t r.repos ≡ some c
      → (r' : RepoRouter) × (assign_agent id t r ≡ ok r') × Added id t r r'
  unfolding assign_agent
  assign-Added id t r c inv e = (
    record r { repos = put t (with_agent id c) r.repos },
    rw (e, assign_agent) refl,
    record {
      valid = record {
        home = ground (arith, get-put default_repo t (with_agent id c) r.repos, inv.home);
        once = Nodup-put t (with_agent id c) r.repos inv.once;
        named = λ n d h. ground (
          arith,
          get-put n t (with_agent id c) r.repos,
          inv.named n d,
          inv.named t c,
          eq_iff n t,
          e,
        );
      };
      agents = λ n x. ground (
        arith,
        get-put n t (with_agent id c) r.repos,
        e,
        eq_iff n t,
        eq_iff x id,
        elem-append x c.agents (id ∷ []),
      );
    },
  )

  register-Inv :
      (name path : String) (r : RepoRouter)
      → Inv r
      → name == default_repo ≡ false
      → get name repo_paths ≡ some path
      → Inv (register normalize name path r)
  unfolding register
  register-Inv name path r inv other e = elim (Option-cases (get name r.repos)) [
    | inr (c, h) ↦ rw h inv
    | inl h ↦ rw h (record {
      home = ground (arith, get-put default_repo name (fresh name path) r.repos, inv.home);
      once = Nodup-put name (fresh name path) r.repos inv.once;
      named = λ n d k.
          ground (
            arith,
            get-put n name (fresh name path) r.repos,
            inv.named n d,
            eq_iff n name,
            other,
            e,
          );
    })
  ]

  register-agents :
      (name path n : String) (r : RepoRouter)
      → agents_in n (register normalize name path r).repos ≡ agents_in n r.repos
  unfolding register
  register-agents name path n r = elim (Option-cases (get name r.repos)) [
    | inr (c, h) ↦ rw h refl
    | inl h ↦ rw h (ground (arith, get-put n name (fresh name path) r.repos, eq_iff n name, h))
  ]

  register-there :
      (name path : String) (r : RepoRouter)
      → (c : RepoContext) × (get name (register normalize name path r).repos ≡ some c)
  unfolding register
  register-there name path r = elim (Option-cases (get name r.repos)) [
    | inr (c, h) ↦ (c, rw h h)
    | inl h ↦ (
      fresh name path,
      rw h (get-put name name (fresh name path) r.repos ∙ ground (arith, eq_refl name)),
    )
  ]

  home_of : (r : RepoRouter) → Inv r → (c : RepoContext) × (get default_repo r.repos ≡ some c)
  home_of r inv = elim (Option-cases (get default_repo r.repos)) [
    | inr found ↦ found
    | inl e ↦ absurd (ground (arith, inv.home))
  ]

  -- A round of the loop raises nothing.
  place_agent-Added :
      (a : AgentSpec) (r : RepoRouter)
      → Inv r
      → (r' : RepoRouter) × (place_agent normalize repo_paths a r ≡ ok r')
        × Added a.agent_id (target a) r r'
  unfolding place_agent
  place_agent-Added a r inv = elim (Bool-cases (a.repo == default_repo)) [
    | inl same ↦
        let (c, e) = home_of r inv in
        let at_home : a.repo ≡ default_repo = (eq_iff a.repo default_repo).0 same in
        rw same (
          subst
            (λ t.
              (r' : RepoRouter) × (assign_agent a.agent_id t r ≡ ok r')
              × Added a.agent_id default_repo r r')
            (sym at_home) (assign-Added a.agent_id default_repo r c inv e))
    | inr other ↦ elim (Option-cases (get a.repo repo_paths)) [
      | inl h ↦
          let (c, e) = home_of r inv in
          rw (other, h) (assign-Added a.agent_id default_repo r c inv e)
      | inr (path, h) ↦
          let r0 = register normalize a.repo path r in
          let (c, e) = register-there a.repo path r in
          let (r', run, added) =
            assign-Added a.agent_id a.repo r0 c (register-Inv a.repo path r inv other h) e in
          rw (other, h)
            (
              r',
              run,
              record {
                valid = added.valid;
                agents = λ n x.
                    added.agents n x
                    ∙ ap (λ l. elem x l || n == a.repo && x == a.agent_id)
                        (register-agents a.repo path n r);
              },
            )
    ]
  ]

  abbrev placed : List AgentSpec → String → String → Bool
  placed agents n x = any (λ (a : AgentSpec). n == target a && x == a.agent_id) agents

  place_agents-placed :
      (agents : List AgentSpec) (r : RepoRouter)
      → Inv r
      → (r' : RepoRouter) × (place_agents normalize repo_paths agents r ≡ ok r')
        × Inv r'
        × ((n x : String)
            → elem x (agents_in n r'.repos) ≡ (elem x (agents_in n r.repos) || placed agents n x))
  unfolding place_agents
  place_agents-placed [] r inv = (r, refl, inv, λ n x. ground arith)
  place_agents-placed (a ∷ agents) r inv =
      let (r1, e, added) = place_agent-Added a r inv in
      let (r', run, inv', all) = place_agents-placed agents r1 added.valid in
      (r', rw (e, place_agents) run, inv', λ n x. ground (arith, all n x, added.agents n x))

  placed-ids :
      (agents : List AgentSpec) (n x : String)
      → placed agents n x ≡ true
      → elem x (ids_of agents) ≡ true
  placed-ids [] n x e = absurd (ground arith)
  placed-ids (a ∷ agents) n x e = ground (arith, placed-ids agents n x)

  -- Where each agent is placed: in its repository, and in no other.
  abbrev Alone : List AgentSpec → AgentSpec → Type 0
  Alone agents a =
      (placed agents (target a) a.agent_id ≡ true)
      × ((m : String) → placed agents m a.agent_id ≡ true → m == target a ≡ true)

  placed-Alone : (agents : List AgentSpec) → Nodup (ids_of agents) → All (Alone agents) agents
  placed-Alone [] once = tt
  placed-Alone (a ∷ agents) once = (
    (
      ground (arith, eq_refl (target a), eq_refl a.agent_id),
      λ m e. ground (arith, placed-ids agents m a.agent_id, once.0),
    ),
    later agents once.0 (placed-Alone agents once.1),
  )
    where
      later :
          (l : List AgentSpec)
          → elem a.agent_id (ids_of l) ≡ false
          → All (Alone agents) l
          → All (Alone (a ∷ agents)) l
      later [] out h = tt
      later (b ∷ l) out h = (
        (
          ground arith,
          λ m e.
              ground (arith, h.0.1 m, eq_iff b.agent_id a.agent_id, eq_iff a.agent_id b.agent_id),
        ),
        later l (ground arith) h.1,
      )

  abbrev pub IsRouted : RepoRouter → AgentSpec → Type 0
  IsRouted r a =
      (c : RepoContext) × (get_repo_for_agent a.agent_id r ≡ some c)
      × (c.name ≡ target a)
      × (c.path ≡ path_of (target a))

  routed :
      (r : RepoRouter) (agents l : List AgentSpec)
      → Inv r
      → ((n x : String) → elem x (agents_in n r.repos) ≡ placed agents n x)
      → All (Alone agents) l
      → All (IsRouted r) l
  unfolding get_repo_for_agent
  routed r agents [] inv all h = tt
  routed r agents (a ∷ l) inv all h =
      let found =
        owner-get a.agent_id (target a) r.repos inv.once (all (target a) a.agent_id ∙ h.0.0)
          (λ m e. h.0.1 m (sym (all m a.agent_id) ∙ e)) in
      let there : elem a.agent_id (agents_in (target a) r.repos) ≡ true =
        all (target a) a.agent_id ∙ h.0.0 in
      (
        elim (Option-cases (get (target a) r.repos)) [
          | inl e ↦ absurd (ground arith)
          | inr (c, e) ↦
              let named = inv.named (target a) c e in
              (c, rw (get_repo_for_agent, found, e) refl, named.0, named.1)
        ],
        routed r agents l inv all h.1,
      )

module _ (normalize : String → String) (repo_paths : Dict String) (root : String) where
  -- For agents with distinct names, `build_router` raises nothing, and each agent's commits go to
  -- its own repository, at the path that is configured for it; those of an agent of the default
  -- repository, or of one without a configured path, go to the repository of the session. Which
  -- other agents there are, and in which order, makes no difference.
  pub build_router-IsRouted :
      (agents : List AgentSpec)
      → Nodup (ids_of agents)
      → (r : RepoRouter) × (build_router normalize repo_paths root agents ≡ ok r)
        × All (IsRouted normalize repo_paths root r) agents
  unfolding build_router
  build_router-IsRouted agents once =
      let (r, run, inv, all) =
        place_agents-placed normalize repo_paths root agents (new_router normalize root)
          (new_router-Inv normalize repo_paths root) in
      (
        r,
        run,
        routed normalize repo_paths root r agents agents inv
            (λ n x.
              all n x
              ∙ ap (λ l. elem x l || placed normalize repo_paths root agents n x)
                  (new_router-agents normalize repo_paths root n))
            (placed-Alone normalize repo_paths root agents once),
      )
