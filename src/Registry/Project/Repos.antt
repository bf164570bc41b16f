-- ===== src/Registry/Project/Repos.antt =====
-- `project_repo`: the repositories of a session, identified by their paths.
pub mod Steps
use dotfile.Prelude.{
  String, Option, none, some, List, [], ◌∷◌, Result, ok, err, ◌>>=◌, str_eq, find, update,
  if◌then◌else◌, ◌==◌,
}
use dotfile.Entry.{LogEntry}
use dotfile.External.{External}
use dotfile.Registry.Schema.{SessionRepo, SessionRow, Tables, Error, invalid_event, no_session}
use dotfile.Registry.Fields.{sql_number, required_str, optional_str}

-- `if repo.field.is_some() { existing.field = repo.field }`
abbrev pub over : Option String → Option String → Option String
over (some s) old = some s
over none old = old

unfoldable pub merge_repo : SessionRepo → SessionRepo → SessionRepo
merge_repo repo existing = record existing {
  remote = over repo.remote existing.remote;
  branch = over repo.branch existing.branch;
  base = over repo.base existing.base;
}

-- The first entry with the path takes the fields given; without one the repository is pushed.
unfoldable pub attach : SessionRepo → List SessionRepo → List SessionRepo
unfolding merge_repo
attach repo [] = repo ∷ []
attach repo (r ∷ rs) =
    if str_eq r.path repo.path then merge_repo repo r ∷ rs else r ∷ attach repo rs

module _ {V : Type 0} ⦃x : External V⦄ where
  -- the base of a worktree event is its reference
  read_base : LogEntry V → Result Error (Option String)
  unfolding required_str optional_str
  read_base e =
      if str_eq e.event_type "phase.worktree"
      then (do r ← required_str e "reference"; ok (some r))
      else optional_str e "base"

  read_repo : LogEntry V → Result Error SessionRepo
  unfolding required_str optional_str read_base
  read_repo e = do
    path ← required_str e "path"
    remote ← optional_str e "remote"
    branch ← optional_str e "branch"
    base ← read_base e
    ok (record { path = path; remote = remote; branch = branch; base = base })

  store_repos : Tables V → LogEntry V → SessionRepo → SessionRow V → Result Error (Tables V)
  unfolding sql_number attach
  store_repos t e repo s = do
    now ← sql_number e.ts_ms
    let repos = attach repo s.repos
    ok (record t {
      sessions =
          update (λ r. r.id == e.session_id) (λ r. record r { repos = repos; updated_at_ms = now })
            t.sessions;
    })

  unfoldable pub project_repo : Tables V → LogEntry V → Result Error (Tables V)
  unfolding read_repo store_repos
  project_repo t e = do
    repo ← read_repo e
    elim (find (λ r. r.id == e.session_id) t.sessions) [
      | none ↦ err (invalid_event no_session)
      | some s ↦ store_repos t e repo s
    ]
