-- ===== src/Registry/Step.antt =====
-- What one entry may do to the tables, told without the code: the step relation that the
-- projection is proved to follow.
use dotfile.Prelude.{
  String, Bool, true, false, none, some, List, ◌∷◌, ◌≡◌, ◌<◌, ◌==◌, one_of, any, update, All,
}
use dotfile.Entry.{LogEntry}
use dotfile.Registry.Schema.{SessionRow, AliasRow, WorkspaceRow, Edge, Message, Tables}
use dotfile.Registry.Project.Workspaces.{has_id, find_workspace}
use dotfile.Registry.Project.Edges.{edge_kinds}
use dotfile.Registry.Project.Messages.{find_message, upsert_message}

module _ {V : Type 0} where
  -- a change of a session's row that leaves its id and its creation alone
  pub record KeepsSession (f : SessionRow V → SessionRow V) : Type 0 where
    pub same_id : (r : SessionRow V) → (f r).id ≡ r.id
    pub same_created : (r : SessionRow V) → (f r).created_at_ms ≡ r.created_at_ms

  pub record KeepsOwner (f : WorkspaceRow V → WorkspaceRow V) : Type 0 where
    pub same_id : (w : WorkspaceRow V) → (f w).id ≡ w.id
    pub same_owner : (w : WorkspaceRow V) → (f w).owner_session_id ≡ w.owner_session_id

  pub record KeepsRecipient (f : Message V → Message V) : Type 0 where
    pub same_id : (m : Message V) → (f m).id ≡ m.id
    pub same_recipient : (m : Message V) → (f m).recipient ≡ m.recipient

  abbrev pub KindsOk : List (Edge V) → Type 0
  KindsOk = All (λ r. one_of edge_kinds r.kind ≡ true)

  pub data Step (e : LogEntry V) (t t' : Tables V) : Type 0 where
    -- the entry says nothing to the tables
    idle : t' ≡ t → Step e t t'
    -- a new session, named by the log's owner, with an alias that is positive and free
    created :
        (row : SessionRow V) (alias : AliasRow)
        → row.id ≡ e.session_id
        → alias.session_id ≡ e.session_id
        → 0 < alias.alias
        → any (λ r. r.id == e.session_id) t.sessions ≡ false
        → any (λ r. r.alias == alias.alias) t.aliases ≡ false
        → any (λ r. r.session_id == e.session_id) t.aliases ≡ false
        → t' ≡ record t { sessions = row ∷ t.sessions; aliases = alias ∷ t.aliases }
        → Step e t t'
    -- the log's own session changes
    updated :
        (f : SessionRow V → SessionRow V)
        → KeepsSession f
        → any (λ r. r.id == e.session_id) t.sessions ≡ true
        → t' ≡ record t { sessions = update (λ r. r.id == e.session_id) f t.sessions }
        → Step e t t'
    -- a workspace under a new id, owned by the log's session
    workspace_created :
        (row : WorkspaceRow V)
        → row.owner_session_id ≡ e.session_id
        → find_workspace row.id t ≡ none
        → t' ≡ record t { workspaces = row ∷ t.workspaces }
        → Step e t t'
    -- a workspace that the log's session owns changes
    workspace_changed :
        (id : String) (w : WorkspaceRow V) (p : WorkspaceRow V → Bool)
        (f : WorkspaceRow V → WorkspaceRow V)
        → find_workspace id t ≡ some w
        → w.owner_session_id ≡ e.session_id
        → KeepsOwner f
        → ((v : WorkspaceRow V) → p v ≡ true → has_id id v ≡ true)
        → t' ≡ record t { workspaces = update p f t.workspaces }
        → Step e t t'
    -- edges come or go, each of a known kind
    edges_changed :
        (es : List (Edge V))
        → (KindsOk t.edges → KindsOk es)
        → t' ≡ record t { edges = es }
        → Step e t t'
    -- a message's row is made or filled in, for the recipient that it already has
    message_noted :
        (es : List (Edge V)) (row : Message V) (f : Message V → Message V)
        → (KindsOk t.edges → KindsOk es)
        → KeepsRecipient f
        → ((m : Message V) → find_message row.id t.messages ≡ some m → m.recipient ≡ row.recipient)
        → t' ≡ record t { edges = es; messages = upsert_message row f t.messages }
        → Step e t t'
