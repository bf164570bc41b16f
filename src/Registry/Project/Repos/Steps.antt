-- ===== src/Registry/Project/Repos/Steps.antt =====
-- What `project_repo` may do: it changes the log's own session.
use dotfile.Prelude.{
  ℕ, true, some, List, [], ◌∷◌, ok, >>=-ok, Option-cases, ◌≡◌, refl, ◌==◌, find, any, inl, inr,
  arith,
}
use dotfile.Entry.{LogEntry}
use dotfile.External.{External}
use dotfile.Registry.Schema.{SessionRepo, SessionRow, Tables}
use dotfile.Registry.Project.Repos.{attach, read_repo, store_repos, project_repo}
use dotfile.Registry.Fields.{sql_number}
use dotfile.Registry.Step.{Step, updated}

module _ {V : Type 0} where
  any-find :
      (id : ℕ) (s : SessionRow V) (rows : List (SessionRow V))
      → find (λ r. r.id == id) rows ≡ some s
      → any (λ r. r.id == id) rows ≡ true
  any-find id s [] h = cc
  any-find id s (r ∷ rs) h = ground (arith, any-find id s rs)

module _ {V : Type 0} ⦃x : External V⦄ where
  store_repos-Step :
      (t t' : Tables V) (e : LogEntry V) (repo : SessionRepo) (s : SessionRow V)
      → find (λ r. r.id == e.session_id) t.sessions ≡ some s
      → store_repos t e repo s ≡ ok t'
      → Step e t t'
  unfolding store_repos
  store_repos-Step t t' e repo s found h =
      let (now, _, q) = >>=-ok (sql_number e.ts_ms) _ h in
      updated (λ r. record r { repos = attach repo s.repos; updated_at_ms = now })
        (record { same_id = λ r. refl; same_created = λ r. refl })
        (any-find e.session_id s t.sessions found) (ground arith)

  pub project_repo-Step :
      (t t' : Tables V) (e : LogEntry V) → project_repo t e ≡ ok t' → Step e t t'
  unfolding project_repo
  project_repo-Step t t' e h =
      let (repo, _, q) = >>=-ok (read_repo e) _ h in
      elim (Option-cases (find (λ r. r.id == e.session_id) t.sessions)) [
        | inl missing ↦ absurd (ground arith)
        | inr (s, found) ↦ store_repos-Step t t' e repo s found (ground arith)
      ]
