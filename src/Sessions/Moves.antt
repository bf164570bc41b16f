-- ===== src/Sessions/Moves.antt =====
-- What a move of a session under a new parent has checked.
use dotfile.Prelude.{ℕ, String, Option, some, ok, ◌≡◌, ap, ◌∙◌, ok_unique, refl}
use dotfile.External.{UlidText, External}
use dotfile.Registry.Schema.{SessionRow, Tables}
use dotfile.Registry.Resolve.{get_record}
use dotfile.Calls.{from_registry, from_registry-ok, call, continue-ok, continue-lift-ok, lift-ok}
use dotfile.Sessions.{Host, check_ancestors}
use dotfile.Sessions.Above.{Above, check_ancestors-Above}
use dotfile.Sessions.Service.{parent_record, reparent}

module _ {V : Type 0} ⦃u : UlidText⦄ ⦃x : External V⦄ (h : Host V) where
  -- A session is put under a parent only where, in the index after the entry of the call, the input
  -- names the session, the text names the parent, and the session is neither the parent nor
  -- an ancestor of it.
  pub reparent-Above :
      (t t' : Tables V) (input parent : String) (caller : Option ℕ) (row : SessionRow V)
      → reparent h input (some parent) caller t ≡ (ok row, t')
      → (t₁ : Tables V) × (session : SessionRow V) × (above : SessionRow V) × (call h.journal caller
            "session.reparent"
            (some input)
            t
          ≡ (ok tt, t₁))
        × (get_record t₁ input ≡ ok session)
        × (get_record t₁ parent ≡ ok above)
        × ¬ (Above t₁ above.id session.id)
  unfolding reparent
  reparent-Above t t' input parent caller row done =
      let (_, t₁, called, h₁) =
        continue-ok (call h.journal caller "session.reparent" (some input) t) _ done in
      let (session, found, h₂) = continue-lift-ok (from_registry (get_record t₁ input)) t₁ _ h₁ in
      let (id, t₂, named, h₃) = continue-ok (parent_record (some parent) t₁) _ h₂ in
      let (above, read, h₄) = continue-lift-ok (from_registry (get_record t₁ parent)) t₁ _ named in
      let (same_id, same) = lift-ok (ok (some above.id)) t₁ h₄ in
      let (_, sound, _) = continue-lift-ok (check_ancestors t₂ session.id id) t₂ _ h₃ in
      let here : check_ancestors t₁ session.id (some above.id) ≡ ok tt =
        ap (λ s. check_ancestors s session.id (some above.id)) same
        ∙ ap (λ i. check_ancestors t₂ session.id i) (ok_unique _ refl same_id)
        ∙ sound in
      (
        t₁,
        session,
        above,
        called,
        from_registry-ok (get_record t₁ input) found,
        from_registry-ok (get_record t₁ parent) read,
        check_ancestors-Above t₁ session.id above.id here,
      )
