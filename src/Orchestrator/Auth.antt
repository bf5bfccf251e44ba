-- ===== src/Orchestrator/Auth.antt =====
-- orchestrator/auth.py, the table of API keys, and the middleware of orchestrator.py in front of
-- the commit handler. SHA-256, the random key and the time are arguments.
use ciwarden.Base.{
  ℕ, String, ◌≡◌, refl, ap, ◌≢◌, ◌⊎◌, inl, inr, Bool, true, false, ◌&&◌, ◌||◌, not, Option, none,
  some, List, [], ◌∷◌, ◌++◌, if◌then◌else◌, ◌==◌, eq_iff, eq_refl, arith, Bool-cases,
}
use ciwarden.Gates.Registry.{Registry}
use ciwarden.Orchestrator.{World, Payload, Server, Outcome, handle_commit}

-- A row of `api_keys`, whose key is `key_hash`.
pub record KeyRow : Type 0 where
  pub key_hash : String
  pub label : String
  pub created_at : ℕ

abbrev pub AuthDb : Type 0
AuthDb = List KeyRow

-- SELECT 1 FROM api_keys WHERE key_hash = ?
abbrev pub has_hash : String → AuthDb → Bool
has_hash h [] = false
has_hash h (row ∷ rows) = h == row.key_hash || has_hash h rows

-- SELECT 1 FROM api_keys WHERE label = 'master'
abbrev pub has_master : AuthDb → Bool
has_master [] = false
has_master (row ∷ rows) = row.label == "master" || has_master rows

module _ (sha256 : String → String) where
  -- `none` is the IntegrityError of a hash that is stored already.
  unfoldable pub generate_api_key : String → String → ℕ → AuthDb → Option (String × AuthDb)
  generate_api_key key label now db =
      if has_hash (sha256 key) db
      then none
      else some (key, db ++ record { key_hash = sha256 key; label = label; created_at = now } ∷ [])

  unfoldable pub validate_key : String → AuthDb → Bool
  validate_key key db = has_hash (sha256 key) db

  -- The key is `none` where a master key is there.
  unfoldable pub ensure_master_key : String → ℕ → AuthDb → Option (Option String × AuthDb)
  unfolding generate_api_key
  ensure_master_key key now db =
      if has_master db then some (none, db) else elim (generate_api_key key "master" now db) [
        | none ↦ none
        | some (k, db') ↦ some (some k, db')
      ]

-- The value of CDMAD_LOCAL_DEV, "0" where it is not set.
unfoldable pub is_local_dev_mode : Option String → Bool
is_local_dev_mode none = false
is_local_dev_mode (some v) = v == "1"

pub record Request : Type 0 where
  pub method : String
  pub path : String
  pub gate_token : Option String
  pub local_dev : Option String

pub data Admission : Type 0 where
  admitted : Admission
  unauthorized : String → Admission

admit_token : (sha256 : String → String) → Option String → AuthDb → Admission
unfolding validate_key
admit_token sha256 none db = unauthorized "Missing X-Gate-Token header"
admit_token sha256 (some token) db =
    if token == ""
    then unauthorized "Missing X-Gate-Token header"
    else if validate_key sha256 token db
    then admitted
    else unauthorized "Invalid API key"

-- A token is asked for on POST /commit alone, and not in local development.
unfoldable pub auth_middleware : (sha256 : String → String) → Request → AuthDb → Admission
unfolding admit_token is_local_dev_mode
auth_middleware sha256 req db =
    if req.method == "POST" && (req.path == "/commit" && not (is_local_dev_mode req.local_dev))
    then admit_token sha256 req.gate_token db
    else admitted

pub data Response : Type 0 where
  handled : Outcome → Response
  denied : String → Response

abbrev pub commit_request : Option String → Option String → Request
commit_request gate_token local_dev = record {
  method = "POST";
  path = "/commit";
  gate_token = gate_token;
  local_dev = local_dev;
}

respond : World → Payload → Registry → Server → Admission → Response × Server
respond w p registry s (unauthorized detail) = (denied detail, s)
respond w p registry s admitted =
    let (outcome, s') = handle_commit w p registry s in (handled outcome, s')

-- POST /commit through the middleware.
unfoldable pub post_commit :
    World → AuthDb → Option String → Option String → Payload → Registry → Server → Response × Server
unfolding respond
post_commit w db gate_token local_dev p registry s =
    respond w p registry s (auth_middleware w.sha256 (commit_request gate_token local_dev) db)

-- A key that may be used: a text other than the empty one whose hash is stored.
abbrev pub IsAuthorized : (sha256 : String → String) → AuthDb → Option String → Type 0
IsAuthorized sha256 db none = ⊥
IsAuthorized sha256 db (some token) = (token ≢ "") × (has_hash (sha256 token) db ≡ true)

abbrev pub IsAllowed : (sha256 : String → String) → AuthDb → Option String → Option String → Type 0
IsAllowed sha256 db gate_token local_dev =
    (local_dev ≡ some "1") ⊎ IsAuthorized sha256 db gate_token

module _ (sha256 : String → String) (db : AuthDb) where
  abbrev Decides : Option String → Option String → Admission → Type 0
  Decides gate_token local_dev admitted = IsAllowed sha256 db gate_token local_dev
  Decides gate_token local_dev (unauthorized _) = ¬ IsAllowed sha256 db gate_token local_dev

  admit_token-Decides :
      (gate_token local_dev : Option String)
      → local_dev ≢ some "1"
      → Decides gate_token local_dev (admit_token sha256 gate_token db)
  unfolding admit_token validate_key
  admit_token-Decides none local_dev h = λ allowed. ground arith
  admit_token-Decides (some t) local_dev h = elim (Bool-cases (t == "")) [
    | inl e ↦ rw e (λ allowed. ground (arith, eq_iff t ""))
    | inr e ↦
        rw e (stored (validate_key sha256 t db) refl (λ is_empty. ground (arith, eq_iff t "")))
  ]
    where
      stored :
          (b : Bool)
          → has_hash (sha256 t) db ≡ b
          → t ≢ ""
          → Decides (some t) local_dev (if b then admitted else unauthorized "Invalid API key")
      stored true e nonempty = inr (nonempty, e)
      stored false e nonempty = λ allowed. ground arith

  auth_middleware-Decides :
      (gate_token local_dev : Option String)
      → Decides gate_token local_dev
          (auth_middleware sha256 (commit_request gate_token local_dev) db)
  unfolding auth_middleware is_local_dev_mode
  auth_middleware-Decides gate_token none = admit_token-Decides gate_token none (λ e. cc)
  auth_middleware-Decides gate_token (some v) = elim (Bool-cases (v == "1")) [
    | inl e ↦ rw e (inl (ap some ((eq_iff v "1").0 e)))
    | inr e ↦ rw e (admit_token-Decides gate_token (some v) (λ dev. ground (arith, eq_iff v "1")))
  ]

module _ (w : World) (db : AuthDb) (gate_token local_dev : Option String) (p : Payload)
    (registry : Registry) (s : Server) where
  abbrev Handles : Response × Server → Type 0
  Handles out = out ≡ (handled (handle_commit w p registry s).0, (handle_commit w p registry s).1)

  abbrev Refuses : Response × Server → Type 0
  Refuses out = (detail : String) × (out ≡ (denied detail, s))

  respond_cases :
      (a : Admission)
      → Decides w.sha256 db gate_token local_dev a
      → (IsAllowed w.sha256 db gate_token local_dev × Handles (respond w p registry s a))
        ⊎ ((¬ IsAllowed w.sha256 db gate_token local_dev) × Refuses (respond w p registry s a))
  unfolding respond
  respond_cases admitted allowed = inl (allowed, refl)
  respond_cases (unauthorized detail) barred = inr (barred, (detail, refl))

  -- A POST to /commit is handled exactly if the server is in local development or the request
  -- carries a key, not the empty text, whose hash is stored. Otherwise the client is refused and
  -- the server's state is as it was: no gate is called and no row is written.
  pub post_commit-IsAllowed :
      (IsAllowed w.sha256 db gate_token local_dev
        × (post_commit w db gate_token local_dev p registry s
            ≡ (handled (handle_commit w p registry s).0, (handle_commit w p registry s).1)))
      ⊎ ((¬ IsAllowed w.sha256 db gate_token local_dev)
          × ((detail : String) × (post_commit w db gate_token local_dev p registry s
                ≡ (denied detail, s))))
  unfolding post_commit
  post_commit-IsAllowed =
      respond_cases (auth_middleware w.sha256 (commit_request gate_token local_dev) db)
        (auth_middleware-Decides w.sha256 db gate_token local_dev)

module _ (sha256 : String → String) where
  has_hash-append :
      (h : String) (db : AuthDb) (row : KeyRow)
      → has_hash h (db ++ row ∷ []) ≡ (has_hash h db || h == row.key_hash)
  has_hash-append h [] row = ground arith
  has_hash-append h (x ∷ xs) row = ground (arith, has_hash-append h xs row)

  has_master-append :
      (db : AuthDb) (row : KeyRow)
      → has_master (db ++ row ∷ []) ≡ (has_master db || row.label == "master")
  has_master-append [] row = ground arith
  has_master-append (x ∷ xs) row = ground (arith, has_master-append xs row)

  -- After a key is generated, the keys that validate are those that did and those with its hash.
  pub validate_key-generate :
      (key label k : String) (now : ℕ) (db : AuthDb) {issued : String} {db' : AuthDb}
      → generate_api_key sha256 key label now db ≡ some (issued, db')
      → (issued ≡ key)
        × (validate_key sha256 k db' ≡ (validate_key sha256 k db || sha256 k == sha256 key))
  unfolding generate_api_key validate_key
  validate_key-generate key label k now db h = ground (
    arith,
    has_hash-append (sha256 k) db
        (record { key_hash = sha256 key; label = label; created_at = now }),
  )

  -- The master key is shown once: after a start that went well the table has a master row, and the
  -- next start, whatever key it would draw, returns no key and leaves the table alone.
  pub ensure_master_key_once :
      (key next : String) (now later : ℕ) (db : AuthDb) {shown : Option String} {db' : AuthDb}
      → ensure_master_key sha256 key now db ≡ some (shown, db')
      → ensure_master_key sha256 next later db' ≡ some (none, db')
  unfolding ensure_master_key
  ensure_master_key_once key next now later db h = ground (
    arith,
    eq_refl "master",
    has_master-append db (record { key_hash = sha256 key; label = "master"; created_at = now }),
  )
