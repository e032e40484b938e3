-- ===== src/Consumer/Audit/Visible.antt =====
-- The audit consumer makes no post visible that the auditor did not pass.
use cooking_platform.Prelude.{
  ℕ, ◌≡◌, refl, ◌∙◌, sym, List, [], ◌∷◌, ◌==◌, ◌⊎◌, inl, inr, arith, Bool-cases,
}
use cooking_platform.Action.{Result, ok, err}
use cooking_platform.Model.{Post, audit_status_pending, audit_status_machine_pass, post_visible}
use cooking_platform.Consumer.Audit.{
  AuditEvent, ReviewRequest, ReviewResult, AuditLog, AuditWorld, AuditLaws, visible_of,
  after_update, after_review, steps_or_none, request_of, after_find, process, handle, handle_all,
}

-- An event for the post, and a request for the review of it that the auditor passed.
pub record Reviewed {W : Type 0} (w : AuditWorld W) (q : ℕ) (e : AuditEvent) : Type 0 where
  pub same_post : e.post_id ≡ q
  pub request : ReviewRequest
  pub about : request.post_id ≡ q
  pub state : W
  pub result : ReviewResult
  pub answered : (w.review request state).0 ≡ ok result
  pub passed : result.status ≡ audit_status_machine_pass

-- a submission among the events that the auditor passed
pub data Approved {W : Type 0} (w : AuditWorld W) (q : ℕ) : List (ℕ × AuditEvent) → Type 0 where
  here :
      {e : ℕ × AuditEvent}
      → {es : List (ℕ × AuditEvent)} → e.1.audit_status ≡ audit_status_pending
      → Reviewed w q e.1
      → Approved w q (e ∷ es)
  there :
      {e : ℕ × AuditEvent} → {es : List (ℕ × AuditEvent)} → Approved w q es → Approved w q (e ∷ es)

visible_of-eq : (status : ℕ) → visible_of status ≡ post_visible → status ≡ audit_status_machine_pass
visible_of-eq status h = ground (arith, h)

module _ {W : Type 0} {w : AuditWorld W} (laws : AuditLaws w) (now q : ℕ) where
  after_update-visible :
      (v : ℕ) (x : Result (Unit {0}) × W)
      → w.is_visible (after_update w now v x) q ≡ w.is_visible x.1 q
  after_update-visible v (err e, s) = refl
  after_update-visible v (ok _, s) = elim (Bool-cases (v == post_visible)) [
    | inl holds ↦ rw holds (laws.bumps q s)
    | inr fails ↦ rw fails refl
  ]

  after_review-visible :
      (e : AuditEvent) (x : Result ReviewResult × W)
      → w.is_visible (after_review w now e x) q ≡ post_visible
      → (w.is_visible x.1 q ≡ post_visible)
        ⊎ ((r : ReviewResult) × (x.0 ≡ ok r)
            × (e.post_id ≡ q)
            × (r.status ≡ audit_status_machine_pass))
  after_review-visible e (err _, s) h = inl h
  after_review-visible e (ok r, s) h =
      let row : AuditLog = record {
        post_id = e.post_id;
        author_id = e.author_id;
        audit_status = r.status;
        remark = r.remark;
        raw_response = r.raw;
        created_at = now;
      } in
      let u = (w.create row s).1 in
      let v = visible_of r.status in
      let y = w.update_audit_status e.post_id r.status v r.remark u in
      let h' : w.is_visible y.1 q ≡ post_visible = sym (after_update-visible v y) ∙ h in
      elim (laws.updates e.post_id r.status v r.remark q u) [
        | inl kept ↦ inl (sym (laws.creates row q s) ∙ (sym kept ∙ h'))
        | inr (p, written) ↦ inr (r, refl, p, visible_of-eq r.status (sym written ∙ h'))
      ]

  after_find-visible :
      (e : AuditEvent) (x : Result Post × W)
      → w.is_visible (after_find w now e x) q ≡ post_visible
      → (w.is_visible x.1 q ≡ post_visible) ⊎ Reviewed w q e
  after_find-visible e (err _, s) h = inl h
  after_find-visible e (ok post, s) h =
      let (loaded, t) = w.load_steps e.post_id s in
      let request = request_of w now e post (steps_or_none w now loaded) in
      elim (after_review-visible e (w.review request t) h) [
        | inl before ↦
            inl (sym (laws.loads e.post_id q s) ∙ (sym (laws.reviews request q t) ∙ before))
        | inr (r, answer, p, pass) ↦ inr (record {
          same_post = p;
          request = request;
          about = p;
          state = t;
          result = r;
          answered = answer;
          passed = pass;
        })
      ]

  handle-visible :
      (e : AuditEvent) (s : W)
      → w.is_visible (handle w now e s) q ≡ post_visible
      → (w.is_visible s q ≡ post_visible)
        ⊎ ((e.audit_status ≡ audit_status_pending) × Reviewed w q e)
  unfolding handle process
  handle-visible e s = elim (Bool-cases (e.audit_status == audit_status_pending)) [
    | inl holds ↦ rw holds (λ h. elim (after_find-visible e (w.find_by_id e.post_id s) h) [
      | inl before ↦ inl (sym (laws.finds e.post_id q s) ∙ before)
      | inr reviewed ↦ inr (ground (arith, holds), reviewed)
    ])
    | inr fails ↦ rw fails (λ h. inl h)
  ]

module _ {W : Type 0} {w : AuditWorld W} (laws : AuditLaws w) where
  -- A post that is visible after some events were handled was visible before, or among the events there
  -- is a pending submission of that post whose review the auditor answered with a machine pass. It holds
  -- whichever statements fail, the update included, whether or not the failed update was carried out.
  pub handle_all-visible :
      (es : List (ℕ × AuditEvent)) (s : W) (q : ℕ)
      → w.is_visible (handle_all w es s) q ≡ post_visible
      → (w.is_visible s q ≡ post_visible) ⊎ Approved w q es
  unfolding handle_all
  handle_all-visible [] s q h = inl h
  handle_all-visible (e ∷ es) s q h = elim (handle_all-visible es (handle w e.0 e.1 s) q h) [
    | inl now_visible ↦ elim (handle-visible laws e.0 q e.1 s now_visible) [
      | inl before ↦ inl before
      | inr (pending, reviewed) ↦ inr (here pending reviewed)
    ]
    | inr approved ↦ inr (there approved)
  ]
