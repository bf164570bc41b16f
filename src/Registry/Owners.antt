-- ===== src/Registry/Owners.antt =====
-- What no entry changes: the owner of a workspace, the recipient of a message, the rows of the
-- index, and that a session exists.
use dotfile.Prelude.{
  ℕ, Bool, none, some, String, List, [], ◌∷◌, ok, ◌≡◌, sym, ap, subst, inl, inr, str_eq, str_eq_iff,
  ==_iff, ◌==◌, find, find-update, update, if◌then◌else◌, Option-cases, Bool-cases, >>=-ok, arith,
}
use dotfile.Entry.{LogEntry}
use dotfile.External.{UlidText, External}
use dotfile.Registry.Schema.{WorkspaceRow, Message, AppliedRow, Tables}
use dotfile.Registry.Project.Workspaces.{has_id, find_workspace}
use dotfile.Registry.Project.Messages.{find_message, upsert_message}
use dotfile.Registry.Apply.{apply_entry, apply_all}
use dotfile.Registry.Step.{
  Step, idle, created, updated, workspace_created, workspace_changed, edges_changed, message_noted,
  KeepsOwner, KeepsRecipient,
}
use dotfile.Registry.Steps.{applied_row, apply_new_lem, apply_entry_cases}

module _ {V : Type 0} where
  -- the workspace is there, with this owner
  abbrev pub Owned : String → ℕ → Tables V → Type 0
  Owned id owner t =
      (w : WorkspaceRow V) × (find_workspace id t ≡ some w) × (w.owner_session_id ≡ owner)

  update-Owned :
      (id : String) (owner : ℕ) (ws : List (WorkspaceRow V)) (p : WorkspaceRow V → Bool)
      (f : WorkspaceRow V → WorkspaceRow V)
      → KeepsOwner f
      → (w : WorkspaceRow V) → find (has_id id) ws ≡ some w
      → w.owner_session_id ≡ owner
      → (v : WorkspaceRow V) × (find (has_id id) (update p f ws) ≡ some v)
        × (v.owner_session_id ≡ owner)
  update-Owned id owner ws p f keeps w found own = (
    (if p w then f w else w),
    find-update (has_id id) p f (λ v. ap (λ i. str_eq i id) (keeps.same_id v)) ws w found,
    ground (arith, keeps.same_owner w),
  )

  insert-Owned :
      (id : String) (owner : ℕ) (ws : List (WorkspaceRow V)) (row : WorkspaceRow V)
      → find (has_id row.id) ws ≡ none
      → (w : WorkspaceRow V) → find (has_id id) ws ≡ some w
      → w.owner_session_id ≡ owner
      → (v : WorkspaceRow V) × (find (has_id id) (row ∷ ws) ≡ some v) × (v.owner_session_id ≡ owner)
  insert-Owned id owner ws row free w found own = elim (Bool-cases (str_eq row.id id)) [
    | inl same ↦
        let e : row.id ≡ id = (str_eq_iff row.id id).0 same in
        let gone : find (has_id id) ws ≡ none = subst (λ i. find (has_id i) ws ≡ none) e free in
        absurd (ground arith)
    | inr other ↦ (w, rw other found, own)
  ]

  Step-Owned :
      (id : String) (owner : ℕ) (e : LogEntry V) (t t' : Tables V)
      → Step e t t'
      → Owned id owner t
      → Owned id owner t'
  Step-Owned id owner e t t' (idle q) o = subst (Owned id owner) (sym q) o
  Step-Owned id owner e t t' (created row alias own named pos free unused unnamed q) o =
      subst (Owned id owner) (sym q) o
  Step-Owned id owner e t t' (updated f keeps known q) o = subst (Owned id owner) (sym q) o
  Step-Owned id owner e t t' (workspace_created row own free q) (w, found, o) =
      subst (Owned id owner) (sym q) (insert-Owned id owner t.workspaces row free w found o)
  Step-Owned id owner e t t' (workspace_changed i w' p f _ own keeps inside q) (w, found, o) =
      subst (Owned id owner) (sym q) (update-Owned id owner t.workspaces p f keeps w found o)
  Step-Owned id owner e t t' (edges_changed es keeps q) o = subst (Owned id owner) (sym q) o
  Step-Owned id owner e t t' (message_noted es row f kinds keeps same q) o =
      subst (Owned id owner) (sym q) o

  -- the message is there, for this recipient
  abbrev pub Addressed : ℕ → ℕ → Tables V → Type 0
  Addressed id recipient t =
      (m : Message V) × (find_message id t.messages ≡ some m) × (m.recipient ≡ recipient)

  upsert-Addressed :
      (id recipient : ℕ) (ms : List (Message V)) (row : Message V) (f : Message V → Message V)
      → KeepsRecipient f
      → (m : Message V) → find_message id ms ≡ some m
      → m.recipient ≡ recipient
      → (n : Message V) × (find_message id (upsert_message row f ms) ≡ some n)
        × (n.recipient ≡ recipient)
  unfolding upsert_message
  upsert-Addressed id recipient ms row f keeps m found own =
      elim (Option-cases (find_message row.id ms)) [
        | inl free ↦ elim (Bool-cases (row.id == id)) [
          | inl same ↦
              let gone : find_message id ms ≡ none =
                subst (λ i. find_message i ms ≡ none) ((==_iff row.id id).0 same) free in
              absurd (ground arith)
          | inr other ↦ (m, rw (free, upsert_message, other) found, own)
        ]
        | inr (n, there) ↦ (
          (if m.id == row.id then f m else m),
          rw (there, upsert_message)
              (find-update (λ r. r.id == id) (λ r. r.id == row.id) f
                (λ r. ap (λ i. i == id) (keeps.same_id r)) ms m found),
          ground (arith, keeps.same_recipient m),
        )
      ]

  Step-Addressed :
      (id recipient : ℕ) (e : LogEntry V) (t t' : Tables V)
      → Step e t t'
      → Addressed id recipient t
      → Addressed id recipient t'
  Step-Addressed id r e t t' (idle q) o = subst (Addressed id r) (sym q) o
  Step-Addressed id r e t t' (created row alias own named pos free unused unnamed q) o =
      subst (Addressed id r) (sym q) o
  Step-Addressed id r e t t' (updated f keeps known q) o = subst (Addressed id r) (sym q) o
  Step-Addressed id r e t t' (workspace_created row own free q) o = subst (Addressed id r) (sym q) o
  Step-Addressed id r e t t' (workspace_changed i w' p f _ own keeps inside q) o =
      subst (Addressed id r) (sym q) o
  Step-Addressed id r e t t' (edges_changed es keeps q) o = subst (Addressed id r) (sym q) o
  Step-Addressed id r e t t' (message_noted es row f kinds keeps same q) (m, found, o) =
      subst (Addressed id r) (sym q) (upsert-Addressed id r t.messages row f keeps m found o)

-- A property that steps and new rows of `applied_events` keep is kept by every accepted entry.
module _ {V : Type 0} ⦃u : UlidText⦄ ⦃x : External V⦄ where
  apply_entry_keeps :
      (P : Tables V → Type 0)
      → ((e : LogEntry V) (t t' : Tables V) → Step e t t' → P t → P t')
      → ((t : Tables V) (rows : List (AppliedRow V)) → P t → P (record t { applied = rows }))
      → (t t' : Tables V) (e : LogEntry V) → apply_entry t e ≡ ok t'
      → P t
      → P t'
  apply_entry_keeps P step rows t t' e h p = elim (apply_entry_cases t t' e h) [
    | inl (same, _) ↦ subst P (sym same) p
    | inr (_, applied) ↦
        let (t₁, t₂, _, first, second, q) = apply_new_lem t t' e applied in
        subst P (sym q)
          (rows t₂ (applied_row e ∷ t₂.applied) (step e t₁ t₂ second (step e t t₁ first p)))
  ]

  pub apply_all_keeps :
      (P : Tables V → Type 0)
      → ((e : LogEntry V) (t t' : Tables V) → Step e t t' → P t → P t')
      → ((t : Tables V) (rows : List (AppliedRow V)) → P t → P (record t { applied = rows }))
      → (t t' : Tables V) (es : List (LogEntry V)) → apply_all t es ≡ ok t'
      → P t
      → P t'
  unfolding apply_all
  apply_all_keeps P step rows t t' [] h p = subst P (ground arith) p
  apply_all_keeps P step rows t t' (e ∷ es) h p =
      let (mid, first, rest) = >>=-ok (apply_entry t e) _ h in
      apply_all_keeps P step rows mid t' es rest (apply_entry_keeps P step rows t mid e first p)

  -- A workspace keeps its owner for ever: whatever entries follow, from whatever logs, a workspace
  -- that a session owns stays in the table under that owner, removed or not.
  pub apply_all-workspace_owner :
      (t t' : Tables V) (es : List (LogEntry V)) (id : String) (owner : ℕ)
      → apply_all t es ≡ ok t'
      → Owned id owner t
      → Owned id owner t'
  apply_all-workspace_owner t t' es id owner h o =
      apply_all_keeps (Owned id owner) (Step-Owned id owner) (λ s rows p. p) t t' es h o

  -- A message keeps its recipient for ever, whichever log its row came from.
  pub apply_all-message_recipient :
      (t t' : Tables V) (es : List (LogEntry V)) (id recipient : ℕ)
      → apply_all t es ≡ ok t'
      → Addressed id recipient t
      → Addressed id recipient t'
  apply_all-message_recipient t t' es id recipient h o =
      apply_all_keeps (Addressed id recipient) (Step-Addressed id recipient) (λ s rows p. p) t t' es
        h o
