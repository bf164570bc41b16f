-- ===== src/Registry/Invariant.antt =====
-- What holds of the tables after every accepted entry.
use dotfile.Prelude.{
  ℕ, ◌≤◌, ◌<◌, Bool, true, false, String, List, ◌∷◌, ◌≡◌, sym, ap, ◌∙◌, ◌==◌, any, count, find,
  update, count-any, count-update, find-any, str_eq, str_eq_iff, arith, none, subst, Option-cases,
  inl, inr,
}
use dotfile.Entry.{LogEntry}
use dotfile.Registry.Schema.{SessionRow, AliasRow, WorkspaceRow, Edge, Message, Tables}
use dotfile.Registry.Project.Workspaces.{has_id}
use dotfile.Registry.Project.Messages.{find_message, upsert_message}
use dotfile.Registry.Step.{
  Step, idle, created, updated, workspace_created, workspace_changed, edges_changed, message_noted,
  KindsOk, KeepsSession, KeepsRecipient,
}

module _ {V : Type 0} where
  -- A session has one row and one alias, or neither. Aliases are positive and distinct. Ids of
  -- workspaces and of messages are distinct, and every edge has one of the three kinds.
  pub record Inv (t : Tables V) : Type 0 where
    pub session_once : (id : ℕ) → count (λ r. r.id == id) t.sessions ≤ 1
    pub one_alias :
        (id : ℕ) → count (λ r. r.session_id == id) t.aliases ≡ count (λ r. r.id == id) t.sessions
    pub alias_once : (a : ℕ) → count (λ r. r.alias == a) t.aliases ≤ 1
    pub alias_positive : count (λ r. r.alias == 0) t.aliases ≡ 0
    pub workspace_once : (id : String) → count (has_id id) t.workspaces ≤ 1
    pub message_once : (id : ℕ) → count (λ m. m.id == id) t.messages ≤ 1
    pub kinds : KindsOk t.edges

  abbrev sessions_with : ℕ → Tables V → ℕ
  sessions_with id t = count (λ r. r.id == id) t.sessions

  -- a test at the id that is inserted, seen at every id
  count-session_fresh :
      (rows : List (SessionRow V)) (s id : ℕ)
      → any (λ r. r.id == s) rows ≡ false
      → (s == id) ≡ true
      → count (λ r. r.id == id) rows ≡ 0
  count-session_fresh rows s id h e =
      count-any (λ r. r.id == id) rows
        (subst (λ i. any (λ r. r.id == i) rows ≡ false) (ground arith) h)

  count-message_fresh :
      (rows : List (Message V)) (s id : ℕ)
      → find_message s rows ≡ none
      → (s == id) ≡ true
      → count (λ r. r.id == id) rows ≡ 0
  count-message_fresh rows s id h e =
      count-any (λ r. r.id == id) rows
        (subst (λ i. any (λ r. r.id == i) rows ≡ false) (ground arith)
          (find-any (λ r. r.id == s) rows h))

  count-workspace_fresh :
      (rows : List (WorkspaceRow V)) (s id : String)
      → find (has_id s) rows ≡ none
      → str_eq s id ≡ true
      → count (has_id id) rows ≡ 0
  count-workspace_fresh rows s id h e = count-any (has_id id) rows (
      subst (λ i. any (has_id i) rows ≡ false) ((str_eq_iff s id).0 e) (find-any (has_id s) rows h))

count-alias_fresh :
    (rows : List AliasRow) (s id : ℕ)
    → any (λ r. r.alias == s) rows ≡ false
    → (s == id) ≡ true
    → count (λ r. r.alias == id) rows ≡ 0
count-alias_fresh rows s id h e =
    count-any (λ r. r.alias == id) rows
      (subst (λ i. any (λ r. r.alias == i) rows ≡ false) (ground arith) h)

count-owner_fresh :
    (rows : List AliasRow) (s id : ℕ)
    → any (λ r. r.session_id == s) rows ≡ false
    → (s == id) ≡ true
    → count (λ r. r.session_id == id) rows ≡ 0
count-owner_fresh rows s id h e =
    count-any (λ r. r.session_id == id) rows
      (subst (λ i. any (λ r. r.session_id == i) rows ≡ false) (ground arith) h)

module _ {V : Type 0} where
  upsert_message_once :
      (ms : List (Message V)) (row : Message V) (f : Message V → Message V) (id : ℕ)
      → KeepsRecipient f
      → count (λ m. m.id == id) ms ≤ 1
      → count (λ m. m.id == id) (upsert_message row f ms) ≤ 1
  unfolding upsert_message
  upsert_message_once ms row f id keeps once = elim (Option-cases (find_message row.id ms)) [
    | inl free ↦ ground (arith, count-message_fresh ms row.id id free)
    | inr (m, found) ↦ ground (
      arith,
      count-update (λ m. m.id == id) (λ m. m.id == row.id) f
          (λ m. ap (λ i. i == id) (keeps.same_id m)) ms,
    )
  ]

  created-Inv :
      (t : Tables V) (s : ℕ) (row : SessionRow V) (alias : AliasRow)
      → row.id ≡ s
      → alias.session_id ≡ s
      → 0 < alias.alias
      → any (λ r. r.id == s) t.sessions ≡ false
      → any (λ r. r.alias == alias.alias) t.aliases ≡ false
      → any (λ r. r.session_id == s) t.aliases ≡ false
      → Inv t
      → Inv (record t { sessions = row ∷ t.sessions; aliases = alias ∷ t.aliases })
  created-Inv t s row alias own named pos free unused unnamed v = record {
    session_once =
        λ id. ground (arith, v.session_once id, count-session_fresh t.sessions s id free);
    one_alias = λ id. ground (
      arith,
      v.one_alias id,
      count-session_fresh t.sessions s id free,
      count-owner_fresh t.aliases s id unnamed,
    );
    alias_once =
        λ a. ground (arith, v.alias_once a, count-alias_fresh t.aliases alias.alias a unused);
    alias_positive = ground (arith, v.alias_positive);
    workspace_once = v.workspace_once;
    message_once = v.message_once;
    kinds = v.kinds;
  }

  updated-Inv :
      (t : Tables V) (p : SessionRow V → Bool) (f : SessionRow V → SessionRow V)
      → KeepsSession f
      → Inv t
      → Inv (record t { sessions = update p f t.sessions })
  updated-Inv t p f keeps v =
      let same = λ (id : ℕ).
        count-update (λ r. r.id == id) p f (λ r. ap (λ i. i == id) (keeps.same_id r)) t.sessions in
      record {
        session_once = λ id. omega (arith, same id, v.session_once id);
        one_alias = λ id. v.one_alias id ∙ sym (same id);
        alias_once = v.alias_once;
        alias_positive = v.alias_positive;
        workspace_once = v.workspace_once;
        message_once = v.message_once;
        kinds = v.kinds;
      }

  workspaces-Inv :
      (t : Tables V) (ws : List (WorkspaceRow V))
      → ((id : String) → count (has_id id) ws ≤ 1)
      → Inv t
      → Inv (record t { workspaces = ws })
  workspaces-Inv t ws once v = record {
    session_once = v.session_once;
    one_alias = v.one_alias;
    alias_once = v.alias_once;
    alias_positive = v.alias_positive;
    workspace_once = once;
    message_once = v.message_once;
    kinds = v.kinds;
  }

  messages-Inv :
      (t : Tables V) (es : List (Edge V)) (ms : List (Message V))
      → KindsOk es
      → ((id : ℕ) → count (λ m. m.id == id) ms ≤ 1)
      → Inv t
      → Inv (record t { edges = es; messages = ms })
  messages-Inv t es ms kinds once v = record {
    session_once = v.session_once;
    one_alias = v.one_alias;
    alias_once = v.alias_once;
    alias_positive = v.alias_positive;
    workspace_once = v.workspace_once;
    message_once = once;
    kinds = kinds;
  }

  -- A step keeps the invariant.
  pub Step-Inv : (e : LogEntry V) (t t' : Tables V) → Step e t t' → Inv t → Inv t'
  Step-Inv e t t' (idle q) v = subst Inv (sym q) v
  Step-Inv e t t' (created row alias own named pos free unused unnamed q) v =
      subst Inv (sym q) (created-Inv t e.session_id row alias own named pos free unused unnamed v)
  Step-Inv e t t' (updated f keeps known q) v =
      subst Inv (sym q) (updated-Inv t (λ r. r.id == e.session_id) f keeps v)
  Step-Inv e t t' (workspace_created row own free q) v = subst Inv (sym q) (
      workspaces-Inv t (row ∷ t.workspaces)
        (λ id.
          ground (arith, v.workspace_once id, count-workspace_fresh t.workspaces row.id id free))
        v)
  Step-Inv e t t' (workspace_changed id w p f found own keeps inside q) v = subst Inv (sym q) (
      workspaces-Inv t (update p f t.workspaces)
        (λ i. omega (
          arith,
          v.workspace_once i,
          count-update (has_id i) p f (λ r. ap (λ j. str_eq j i) (keeps.same_id r)) t.workspaces,
        ))
        v)
  Step-Inv e t t' (edges_changed es keeps q) v =
      subst Inv (sym q) (messages-Inv t es t.messages (keeps v.kinds) v.message_once v)
  Step-Inv e t t' (message_noted es row f kinds keeps same q) v = subst Inv (sym q) (
      messages-Inv t es (upsert_message row f t.messages) (kinds v.kinds)
        (λ id. upsert_message_once t.messages row f id keeps (v.message_once id)) v)
