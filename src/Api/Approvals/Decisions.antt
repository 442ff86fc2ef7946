-- ===== src/Api/Approvals/Decisions.antt =====
-- api/approvals.py: an approval is decided once, and by its organisation.
use agentcompany.Prelude.{
  ◌≡◌, refl, String, true, false, Option, some, none, List, Bool-cases, inl, inr, ◌==◌, not,
  Option-cases, ◌∙◌, sym, arith, ap,
}
use agentcompany.Exec.{ok, raise, raise_if, bind_of_ok, bind_of_raise, raise_if_passes}
use agentcompany.Api.{Claims, find_row, update_row, select_rows}
use agentcompany.Api.Approvals.{
  Approval, is_visible, get_or_404, require_pending, decide, decided, not_found, save,
  already_decided,
}
use agentcompany.Api.Tables.{find_row-update_row, select_rows-update_row}

get_or_404_found :
    (approval_id org_id : String) (approvals : List Approval) {a : Approval}
    → find_row (is_visible approval_id org_id) approvals ≡ some a
    → get_or_404 approval_id org_id approvals ≡ (ok a, approvals)
unfolding get_or_404
get_or_404_found approval_id org_id approvals found = rw (found, get_or_404) refl

get_or_404_missing :
    (approval_id org_id : String) (approvals : List Approval)
    → find_row (is_visible approval_id org_id) approvals ≡ none
    → get_or_404 approval_id org_id approvals ≡ (raise (not_found approval_id), approvals)
unfolding get_or_404
get_or_404_missing approval_id org_id approvals missing = rw (missing, get_or_404) refl

module _ (verdict approval_id : String) (claims : Claims) (note : Option String) (now : String)
    (approvals : List Approval) where
  -- What `decide` does, by the row that it finds.
  decide_pending :
      {a : Approval}
      → find_row (is_visible approval_id claims.org_id) approvals ≡ some a
      → (a.status == "pending") ≡ true
      → decide verdict approval_id claims note now approvals
        ≡ save verdict approval_id claims note now a approvals
  unfolding decide require_pending
  decide_pending found pending =
      bind_of_ok _ _ (get_or_404_found _ _ approvals found)
      ∙ bind_of_ok _ _ (raise_if_passes _ _ approvals (rw pending refl))

  decide_late :
      {a : Approval}
      → find_row (is_visible approval_id claims.org_id) approvals ≡ some a
      → (a.status == "pending") ≡ false
      → decide verdict approval_id claims note now approvals
        ≡ (raise (already_decided a), approvals)
  unfolding decide require_pending raise_if
  decide_late found late =
      bind_of_ok _ _ (get_or_404_found _ _ approvals found) ∙ bind_of_raise _ _ (rw late refl)

  decide_missing :
      find_row (is_visible approval_id claims.org_id) approvals ≡ none
      → decide verdict approval_id claims note now approvals
        ≡ (raise (not_found approval_id), approvals)
  unfolding decide
  decide_missing missing = bind_of_raise _ _ (get_or_404_missing _ _ approvals missing)

  -- A decision that returns found its row, and saved it.
  decide_inversion :
      {b : Approval} {after : List Approval}
      → decide verdict approval_id claims note now approvals ≡ (ok b, after)
      → (a : Approval) × (find_row (is_visible approval_id claims.org_id) approvals ≡ some a)
        × (after
            ≡ update_row
                (is_visible approval_id claims.org_id)
                (decided verdict claims note now)
                approvals)
  unfolding save
  decide_inversion {b} {after} h =
      elim (Option-cases (find_row (is_visible approval_id claims.org_id) approvals)) [
        | inl missing ↦ cc (h, decide_missing missing)
        | inr (a, found) ↦ elim (Bool-cases (a.status == "pending")) [
          | inl pending ↦
              let e = sym (decide_pending found pending) ∙ h in (a, found, sym (ap (λ x. x.1) e))
          | inr late ↦ cc (h, decide_late found late)
        ]
      ]

-- An approval is decided once: after a decision that returned, every decision on it that is made in
-- the same organisation, by whom and when ever, raises a 409 and leaves all approvals as they are.
-- The verdict is not "pending"; that of approve is "approved", and that of deny "denied".
pub decided_once :
    (verdict next approval_id : String) (claims later : Claims) (note text : Option String)
    (now then_at : String) (approvals after : List Approval) {b : Approval}
    → (verdict == "pending") ≡ false
    → later.org_id ≡ claims.org_id
    → decide verdict approval_id claims note now approvals ≡ (ok b, after)
    → (a : Approval) × (a.status ≡ verdict)
      × (decide next approval_id later text then_at after ≡ (raise (already_decided a), after))
decided_once verdict next approval_id claims later note text now then_at approvals after final same
      h =
    let (a, found, left) = decide_inversion verdict approval_id claims note now approvals h in
    let kept =
      find_row-update_row (is_visible approval_id claims.org_id) (decided verdict claims note now)
        approvals (λ s. refl) found in
    (
      decided verdict claims note now a,
      refl,
      decide_late next approval_id later text then_at after {a = decided verdict claims note now a}
          (rw (left, same) kept) final,
    )

-- A decision, also one that raises, leaves the approvals of other organisations as they are.
pub decide_keeps_others :
    (verdict approval_id : String) (claims : Claims) (note : Option String) (now : String)
    (approvals : List Approval)
    → select_rows
        (λ a. not (a.org_id == claims.org_id))
        (decide verdict approval_id claims note now approvals).1
      ≡ select_rows (λ a. not (a.org_id == claims.org_id)) approvals
unfolding save
decide_keeps_others verdict approval_id claims note now approvals =
    go (find_row (is_visible approval_id claims.org_id) approvals) refl
  where
    go :
        (o : Option Approval)
        → find_row (is_visible approval_id claims.org_id) approvals ≡ o
        → select_rows
            (λ a. not (a.org_id == claims.org_id))
            (decide verdict approval_id claims note now approvals).1
          ≡ select_rows (λ a. not (a.org_id == claims.org_id)) approvals
    go none e = rw (decide_missing verdict approval_id claims note now approvals e) refl
    go (some a) e = elim (Bool-cases (a.status == "pending")) [
      | inl pending ↦ rw (decide_pending verdict approval_id claims note now approvals e pending) (
          select_rows-update_row _ (is_visible approval_id claims.org_id) _ approvals
            (λ s k. ground arith) (λ s. refl))
      | inr late ↦ rw (decide_late verdict approval_id claims note now approvals e late) refl
    ]
